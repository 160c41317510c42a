-- ===== src/Kernel/Read/Laws.antt =====
-- Reading from the bus: with a driver that keeps to its contract the loops end, and a success
-- delivers all that was asked for or ends at END.
use linux_gpib.Prelude.{
  ℕ, zero, suc, ◌+◌, ◌-◌, ◌≤◌, ◌<◌, ◌≡◌, refl, ◌∙◌, Bool, true, false, not, ◌&&◌, arith, pos,
  is_neg, ◌==ℤ◌, some, List, [], ◌++◌, ltb, ◌==◌, min, length, length-append, Bool-cases, inl, inr,
}
use linux_gpib.Kernel.Types.{Board, Interface}
use linux_gpib.Kernel.Timer.{os_start_timer, os_remove_timer}
use linux_gpib.Kernel.Control.{ibgts}
use linux_gpib.Kernel.Buffer.{KeepsBuffer, start_timer-buffer, remove_timer-buffer, ibgts-buffer}
use linux_gpib.Kernel.Read.{
  ReadResult, Transfer, read_loop, read_timed, ibrd, store_chunk, transfer_loop,
}

-- The contract of a driver's `read` (gpib_types.h): it reads at most what it is asked for, and
-- returns success with a byte at least or with END. No driver changes the core's buffer.
pub record ReadContract {D : Type 0} (interface : Interface D) : Type 0 where
  pub fits : (board : Board D) (n : ℕ) → length (interface.read board n).2 ≤ n
  pub progress :
      (board : Board D) (n : ℕ)
      → 0 < n
      → (interface.read board n).0 ≡ pos 0
      → (interface.read board n).1 ≡ false
      → 0 < length (interface.read board n).2
  pub read_buffer :
      (board : Board D) (n : ℕ) → (interface.read board n).3.buffer_length ≡ board.buffer_length
  pub keeps : KeepsBuffer interface

-- A read is within its size, its success without END is the whole size, and it leaves a buffer
-- of `room` bytes.
pub record IsComplete {D : Type 0} (size room : ℕ) (r : ReadResult D) : Type 0 where
  pub within : length r.bytes ≤ size
  pub whole : r.retval ≡ pos 0 → r.end_flag ≡ false → length r.bytes ≡ size
  pub buffer : r.board.buffer_length ≡ room

rebase :
    {D : Type 0} {size room room' : ℕ} {r : ReadResult D}
    → IsComplete size room r
    → room ≡ room'
    → IsComplete size room' r
rebase c e = record { within = c.within; whole = c.whole; buffer = c.buffer ∙ e }

module _ {D : Type 0} (interface : Interface D) (contract : ReadContract interface) where
  read_loop_total :
      (fuel : ℕ) (board : Board D) (size : ℕ) (buf : List ℕ)
      → length buf < size
      → size - length buf < fuel
      → (r : ReadResult D) × (read_loop interface fuel board size buf ≡ some r)
        × IsComplete size board.buffer_length r
  unfolding read_loop
  read_loop_total zero board size buf h k = absurd (omega arith)
  read_loop_total (suc fuel) board size buf h k =
      let ask = size - length buf in
      let (ret, end_flag, chunk, board') = interface.read board ask in
      let fits = contract.fits board ask in
      let progress = contract.progress board ask (omega arith) in
      let grown = length-append buf chunk in
      let kept = contract.read_buffer board ask in
      let go_on =
        ret ==ℤ pos 0
        && (ltb 0 (length (buf ++ chunk)) && (ltb (length (buf ++ chunk)) size && not end_flag)) in
      elim (Bool-cases (is_neg ret)) [
        | inl e ↦ (
          record { retval = ret; end_flag = end_flag; bytes = buf; board = board' },
          rw e refl,
          record { within = omega arith; whole = λ z. ground (arith, e); buffer = kept },
        )
        | inr e ↦ elim (Bool-cases go_on) [
          | inl again ↦
              let (r, same, c) =
                read_loop_total fuel board' size (buf ++ chunk) (ground (arith, again))
                  (ground (arith, again, grown, fits, progress)) in
              (r, rw (e, again) same, rebase c kept)
          | inr stop ↦ (
            record { retval = ret; end_flag = end_flag; bytes = buf ++ chunk; board = board' },
            rw (e, stop) refl,
            record {
              within = omega (arith, grown, fits);
              whole = λ z w. ground (arith, grown, fits, progress z w, stop);
              buffer = kept;
            },
          )
        ]
      ]

  read_timed_total :
      (fuel : ℕ) (board : Board D) (size : ℕ)
      → 0 < size
      → size < fuel
      → (r : ReadResult D) × (read_timed interface fuel board size ≡ some r)
        × IsComplete size board.buffer_length r
  unfolding read_timed
  read_timed_total fuel board size h k =
      let (r, e, c) =
        read_loop_total fuel (os_start_timer board board.usec_timeout) size [] h (omega arith) in
      (
        record r { board = os_remove_timer r.board },
        rw (e, read_timed) refl,
        record {
          within = c.within;
          whole = c.whole;
          buffer =
              remove_timer-buffer r.board ∙ c.buffer ∙ start_timer-buffer board board.usec_timeout;
        },
      )

  -- With more fuel than the size `ibrd` ends, within the size, and its success without END is the
  -- whole size.
  pub ibrd_total :
      (fuel : ℕ) (board : Board D) (size : ℕ)
      → size < fuel
      → (r : ReadResult D) × (ibrd interface fuel board size ≡ some r)
        × IsComplete size board.buffer_length r
  unfolding ibrd
  ibrd_total fuel board size h = elim (Bool-cases (size == 0)) [
    | inl e ↦ (
      record { retval = pos 0; end_flag = false; bytes = []; board = board },
      rw e refl,
      record { within = omega arith; whole = λ z w. ground (arith, e); buffer = refl },
    )
    | inr e ↦ elim (Bool-cases board.master) [
      | inr slave ↦ simp (e, slave) (read_timed_total fuel board size (ground (arith, e)) h)
      | inl master ↦ elim (Bool-cases (is_neg (ibgts interface board).0)) [
        | inl failed ↦ (
          record {
            retval = (ibgts interface board).0;
            end_flag = false;
            bytes = [];
            board = (ibgts interface board).1;
          },
          simp (e, master, failed),
          record {
            within = omega arith;
            whole = λ z w. ground (arith, failed);
            buffer = ibgts-buffer interface contract.keeps board;
          },
        )
        | inr standby ↦
            let (r, same, c) =
              read_timed_total fuel (ibgts interface board).1 size (ground (arith, e)) h in
            (
              r,
              simp (e, master, standby) same,
              rebase c (ibgts-buffer interface contract.keeps board),
            )
      ]
    ]
  ]

  -- The loop of `read_ioctl` has lost no byte, and where no fault and no error stopped it, it ends
  -- with END or with nothing left.
  pub record IsDone (total : ℕ) (t : Transfer D) : Type 0 where
    pub counted : t.remain + length t.data_read ≡ total
    pub whole : t.fault ≡ false → t.end_flag ≡ false → t.read_ret ≡ pos 0 → t.remain ≡ 0

  pub transfer_loop_total :
      (fuel : ℕ) (writable : ℕ → Bool) (t : Transfer D)
      → t.remain < fuel
      → 0 < t.board.buffer_length
      → (t' : Transfer D) × (transfer_loop interface fuel writable t ≡ some t')
        × IsDone (t.remain + length t.data_read) t'
  unfolding transfer_loop store_chunk
  transfer_loop_total zero writable t h room = absurd (omega arith)
  transfer_loop_total (suc fuel) writable t h room =
      let size = min t.board.buffer_length t.remain in
      let (r, same, c) = ibrd_total (suc t.remain) t.board size (omega arith) in
      elim (Bool-cases (ltb 0 t.remain && not t.end_flag)) [
        | inr stop ↦
            (t, simp stop, record { counted = refl; whole = λ f e z. ground (arith, stop) })
        | inl go ↦ elim (Bool-cases (length r.bytes == 0)) [
          | inl stuck ↦ (
            record t { read_ret = r.retval; end_flag = r.end_flag; board = r.board },
            simp (go, same, stuck),
            record { counted = refl; whole = λ f e z. ground (arith, go, stuck, c.whole z e) },
          )
          | inr some_bytes ↦ elim (Bool-cases (writable (length t.data_read))) [
            | inr bad ↦ (
              record t {
                read_ret = r.retval;
                end_flag = r.end_flag;
                board = r.board;
                fault = true;
              },
              simp (go, same, some_bytes, bad),
              record { counted = refl; whole = λ f e z. cc },
            )
            | inl good ↦
                let stored : Transfer D = record t {
                  read_ret = r.retval;
                  end_flag = r.end_flag;
                  board = r.board;
                  remain = t.remain - length r.bytes;
                  data_read = t.data_read ++ r.bytes;
                } in
                let counted : stored.remain + length stored.data_read
                    ≡ t.remain + length t.data_read =
                  omega (arith, c.within, length-append t.data_read r.bytes) in
                elim (Bool-cases (is_neg r.retval)) [
                  | inl failed ↦ (
                    stored,
                    simp (go, same, some_bytes, good, failed),
                    record { counted = counted; whole = λ f e z. ground (arith, failed, z) },
                  )
                  | inr fine ↦
                      let (t', same', d) =
                        transfer_loop_total fuel writable stored (ground (arith, some_bytes))
                          (rw c.buffer room) in
                      (
                        t',
                        simp (go, same, some_bytes, good, fine) same',
                        record { counted = d.counted ∙ counted; whole = d.whole },
                      )
                ]
          ]
        ]
      ]
