-- ===== src/Kernel/Read/Private.antt =====
-- `read_ioctl` touches a board's private data only through the driver: what the functions of the
-- driver that it calls keep true of them, it keeps.
use linux_gpib.Prelude.{
  ℕ, zero, suc, ◌-◌, ◌≡◌, sym, Bool, true, false, not, ◌&&◌, arith, ℤ, pos, is_neg, ◌==ℤ◌, Option,
  none, some, List, [], ◌++◌, ltb, ◌==◌, min, length, has, Bool-cases, Option-cases, inl, inr,
}
use mathlib.Core.Path.{subst}
use linux_gpib.Uapi.Errno.{einval, efault}
use linux_gpib.Uapi.Status.{cic}
use linux_gpib.Kernel.Types.{Board, Interface, FilePrivate}
use linux_gpib.Kernel.Timer.{os_start_timer, os_remove_timer}
use linux_gpib.Kernel.Ibstatus.{ibstatus}
use linux_gpib.Kernel.Ibstatus.Bits.{ibstatus-board, ibstatus-none}
use linux_gpib.Kernel.Control.{ibgts}
use linux_gpib.Kernel.Handles.{handle_to_descriptor, set_io_in_progress}
use linux_gpib.Kernel.Read.{
  ReadResult, Transfer, read_loop, read_timed, ibrd, store_chunk, transfer_loop, finish_read,
  run_read, read_ioctl, refused, ReadWriteCmd, UserMemory, IoResult,
}

-- The functions of the driver that a read calls keep `Q` of the private data.
pub record KeepsPrivate {D : Type 0} (Q : Option D → Type 0) (interface : Interface D)
    : Type 0 where
  pub by_read :
      (board : Board D) (n : ℕ) → Q board.private_data → Q (interface.read board n).3.private_data
  pub by_standby :
      (board : Board D) → Q board.private_data → Q (interface.go_to_standby board).1.private_data
  pub by_status :
      (board : Board D) (m : ℕ)
      → Q board.private_data
      → Q (interface.update_status board m).1.private_data

start_timer-private :
    {D : Type 0} (board : Board D) (usec : ℕ)
    → (os_start_timer board usec).private_data ≡ board.private_data
unfolding os_start_timer
start_timer-private board usec = ground arith

remove_timer-private :
    {D : Type 0} (board : Board D) → (os_remove_timer board).private_data ≡ board.private_data
unfolding os_remove_timer
remove_timer-private board = ground arith

module _ {D : Type 0} (interface : Interface D) (Q : Option D → Type 0)
    (keeps : KeepsPrivate Q interface) where
  -- what a loop leaves, if it ends
  abbrev Kept : Option (ReadResult D) → Type 0
  Kept none = Unit {0}
  Kept (some r) = Q r.board.private_data

  ibstatus-Kept :
      (board : Board D) → Q board.private_data → Q (ibstatus interface board).1.private_data
  ibstatus-Kept board q = elim (Option-cases board.private_data) [
    | inl e ↦ subst (λ b. Q b.private_data) (sym (ibstatus-none interface board e)) q
    | inr (driver, e) ↦
        subst (λ b. Q b.private_data) (sym (ibstatus-board interface board driver e))
          (keeps.by_status board 0 q)
  ]

  ibgts-Kept : (board : Board D) → Q board.private_data → Q (ibgts interface board).1.private_data
  unfolding ibgts
  ibgts-Kept board q =
      let (status, board1) = ibstatus interface board in
      let q1 = ibstatus-Kept board q in
      let board2 = (interface.go_to_standby board1).1 in
      let q3 = keeps.by_status board2 0 (keeps.by_standby board1 q1) in
      elim (Bool-cases (has status cic)) [ inl e ↦ simp e q3 | inr e ↦ simp e q1 ]

  read_loop-Kept :
      (fuel : ℕ) (board : Board D) (size : ℕ) (buf : List ℕ)
      → Q board.private_data
      → Kept (read_loop interface fuel board size buf)
  unfolding read_loop
  read_loop-Kept zero board size buf q = tt
  read_loop-Kept (suc fuel) board size buf q =
      let (ret, end_flag, chunk, board') = interface.read board (size - length buf) in
      let q' = keeps.by_read board (size - length buf) q in
      let nbytes = length (buf ++ chunk) in
      let go_on = ret ==ℤ pos 0 && (ltb 0 nbytes && (ltb nbytes size && not end_flag)) in
      elim (Bool-cases (is_neg ret)) [
        | inl e ↦ simp e q'
        | inr e ↦ elim (Bool-cases go_on) [
          | inl again ↦ simp (e, again) (read_loop-Kept fuel board' size (buf ++ chunk) q')
          | inr stop ↦ simp (e, stop) q'
        ]
      ]

  read_timed-Kept :
      (fuel : ℕ) (board : Board D) (size : ℕ)
      → Q board.private_data
      → Kept (read_timed interface fuel board size)
  unfolding read_timed
  read_timed-Kept fuel board size q =
      let started = os_start_timer board board.usec_timeout in
      let q0 = subst Q (sym (start_timer-private board board.usec_timeout)) q in
      let loop = read_loop-Kept fuel started size [] q0 in
      elim (Option-cases (read_loop interface fuel started size [])) [
        | inl e ↦ simp (e, read_timed) tt
        | inr (r, e) ↦
            let q1 : Q r.board.private_data = simp e at loop in
            simp (e, read_timed) (subst Q (sym (remove_timer-private r.board)) q1)
      ]

  ibrd-Kept :
      (fuel : ℕ) (board : Board D) (size : ℕ)
      → Q board.private_data
      → Kept (ibrd interface fuel board size)
  unfolding ibrd
  ibrd-Kept fuel board size q =
      let (retval, board1) = ibgts interface board in
      let q1 = ibgts-Kept board q in
      elim (Bool-cases (size == 0)) [
        | inl e ↦ simp e q
        | inr e ↦ elim (Bool-cases board.master) [
          | inr slave ↦ simp (e, slave) (read_timed-Kept fuel board size q)
          | inl master ↦ elim (Bool-cases (is_neg retval)) [
            | inl failed ↦ simp (e, master, failed) q1
            | inr standby ↦ simp (e, master, standby) (read_timed-Kept fuel board1 size q1)
          ]
        ]
      ]

  store_chunk-board :
      (writable : ℕ → Bool) (t : Transfer D) (r : ReadResult D)
      → (store_chunk interface writable t r).0.board ≡ r.board
  unfolding store_chunk
  store_chunk-board writable t r = ground arith

  transfer_loop-Kept :
      (fuel : ℕ) (writable : ℕ → Bool) (t t' : Transfer D)
      → Q t.board.private_data
      → transfer_loop interface fuel writable t ≡ some t'
      → Q t'.board.private_data
  unfolding transfer_loop
  transfer_loop-Kept zero writable t t' q found = absurd cc
  transfer_loop-Kept (suc fuel) writable t t' q found =
      let size = min t.board.buffer_length t.remain in
      let next = ibrd-Kept (suc t.remain) t.board size q in
      elim (Bool-cases (ltb 0 t.remain && not t.end_flag)) [
        | inr stop ↦
            let same : some t ≡ some t' = simp stop at found in
            let last : t ≡ t' = cc in subst (λ x. Q x.board.private_data) last q
        | inl go ↦ elim (Option-cases (ibrd interface (suc t.remain) t.board size)) [
          | inl e ↦ (let nothing = simp (go, e) at found in absurd cc)
          | inr (r, e) ↦
              let q1 : Q r.board.private_data = simp e at next in
              let (t1, more) = store_chunk interface writable t r in
              let q2 = subst (λ b. Q b.private_data) (sym (store_chunk-board writable t r)) q1 in
              elim (Bool-cases more) [
                | inl again ↦
                    transfer_loop-Kept fuel writable t1 t' q2 (simp (go, e, again) at found)
                | inr ends ↦
                    let same : some t1 ≡ some t' = simp (go, e, ends) at found in
                    let last : t1 ≡ t' = cc in subst (λ x. Q x.board.private_data) last q2
              ]
        ]
      ]

  run_read-Kept :
      (os : UserMemory) (cmd : ReadWriteCmd) (file : FilePrivate) (board : Board D) (r : IoResult D)
      → Q board.private_data
      → run_read interface os cmd file board ≡ some r
      → Q r.board.private_data
  unfolding run_read
  run_read-Kept os cmd file board r q found =
      let remain = cmd.requested - cmd.completed in
      let start : Transfer D = record {
        read_ret = pos 0;
        fault = false;
        remain = remain;
        end_flag = false;
        data_read = [];
        board = board;
      } in
      elim (Option-cases (transfer_loop interface (suc remain) os.copied_chunk start)) [
        | inl e ↦ (let nothing = simp (run_read, e) at found in absurd cc)
        | inr (t, e) ↦
            let kept = transfer_loop-Kept (suc remain) os.copied_chunk start t q e in
            let (retval, reply) = finish_read os.copied_out cmd.requested t in
            let result : IoResult D = record {
              retval = retval;
              reply = reply;
              data_read = t.data_read;
              file = set_io_in_progress file cmd.handle false;
              board = t.board;
            } in
            let same : some result ≡ some r = simp (run_read, e) at found in
            let last : result ≡ r = cc in subst (λ x. Q x.board.private_data) last kept
      ]

  pub read_ioctl-Kept :
      (os : UserMemory) (cmd : ReadWriteCmd) (file : FilePrivate) (board : Board D) (r : IoResult D)
      → Q board.private_data
      → read_ioctl interface os cmd file board ≡ some r
      → Q r.board.private_data
  unfolding read_ioctl
  read_ioctl-Kept os cmd file board r q found =
      let gives_up : (e : ℤ) → some (refused e file board) ≡ some r → Q r.board.private_data =
        λ e same.
          let last : refused e file board ≡ r = cc in subst (λ x. Q x.board.private_data) last q in
      elim (Bool-cases os.copied_in) [
        | inr e1 ↦ gives_up efault (simp e1 at found)
        | inl e1 ↦ elim (Bool-cases (ltb cmd.requested cmd.completed)) [
          | inl e2 ↦ gives_up einval (simp (e1, e2) at found)
          | inr e2 ↦ elim (Option-cases (handle_to_descriptor file cmd.handle)) [
            | inl e3 ↦ gives_up einval (simp (e1, e2, e3) at found)
            | inr (desc, e3) ↦ elim (Bool-cases os.accessible) [
              | inr e4 ↦ gives_up efault (simp (e1, e2, e3, e4) at found)
              | inl e4 ↦
                  run_read-Kept os cmd (set_io_in_progress file cmd.handle true) board r q
                    (simp (e1, e2, e3, e4) at found)
            ]
          ]
        ]
      ]
