-- ===== src/Kernel/Read/Ioctl.antt =====
-- `read_ioctl` as a whole: it always returns, and what it reports is what it stored.
use linux_gpib.Prelude.{
  ℕ, suc, ◌+◌, ◌-◌, ◌≤◌, ◌<◌, ◌≡◌, refl, Bool, true, false, arith, ℤ, pos, some, [], ltb, length,
  Bool-cases, Option-cases, inl, inr,
}
use linux_gpib.Uapi.Errno.{einval, efault}
use linux_gpib.Kernel.Types.{Board, Interface, FilePrivate}
use linux_gpib.Kernel.Handles.{handle_to_descriptor, set_io_in_progress}
use linux_gpib.Kernel.Read.{
  Transfer, finish_read, refused, run_read, read_ioctl, ReadWriteCmd, UserMemory, IoResult,
}
use linux_gpib.Kernel.Read.Laws.{ReadContract, transfer_loop_total}

-- The count that is copied back is that of the bytes stored, at most the size asked for; and a
-- success without END is the whole size.
pub record IsReported {D : Type 0} (cmd : ReadWriteCmd) (r : IoResult D) : Type 0 where
  pub counted :
      (count : ℕ) (end : Bool)
      → r.reply ≡ some (count, end)
      → (count ≡ cmd.completed + length r.data_read) × (count ≤ cmd.requested)
  pub whole :
      (count : ℕ) (end : Bool)
      → r.reply ≡ some (count, end)
      → r.retval ≡ pos 0
      → end ≡ false
      → count ≡ cmd.requested

refused-IsReported :
    {D : Type 0} (cmd : ReadWriteCmd) (e : ℤ) (file : FilePrivate) (board : Board D)
    → IsReported cmd (refused e file board)
refused-IsReported cmd e file board = record {
  counted = λ count end same. cc;
  whole = λ count end same z f. cc;
}

module _ {D : Type 0} (interface : Interface D) (contract : ReadContract interface) where
  run_read_total :
      (os : UserMemory) (cmd : ReadWriteCmd) (file : FilePrivate) (board : Board D)
      → 0 < board.buffer_length
      → cmd.completed ≤ cmd.requested
      → (r : IoResult D) × (run_read interface os cmd file board ≡ some r) × IsReported cmd r
  unfolding run_read finish_read
  run_read_total os cmd file board room h =
      let remain = cmd.requested - cmd.completed in
      let start : Transfer D = record {
        read_ret = pos 0;
        fault = false;
        remain = remain;
        end_flag = false;
        data_read = [];
        board = board;
      } in
      let (t, same, d) =
        transfer_loop_total interface contract (suc remain) os.copied_chunk start (omega arith)
          room in
      let (retval, reply) = finish_read os.copied_out cmd.requested t in
      (
        record {
          retval = retval;
          reply = reply;
          data_read = t.data_read;
          file = set_io_in_progress file cmd.handle false;
          board = t.board;
        },
        rw (same, run_read) refl,
        record {
          counted = λ count end e. ground (arith, d.counted);
          whole = λ count end e z f. ground (arith, d.counted, d.whole);
        },
      )

  -- With a driver that keeps to its contract and a buffer, `read_ioctl` returns; the count it
  -- reports is that of the bytes stored in the user's buffer and at most the size asked for, and
  -- a success without END is the whole size.
  pub read_ioctl_total :
      (os : UserMemory) (cmd : ReadWriteCmd) (file : FilePrivate) (board : Board D)
      → 0 < board.buffer_length
      → (r : IoResult D) × (read_ioctl interface os cmd file board ≡ some r) × IsReported cmd r
  unfolding read_ioctl
  read_ioctl_total os cmd file board room =
      let gives_up = λ (e : ℤ). refused-IsReported cmd e file board in
      elim (Bool-cases os.copied_in) [
        | inr e1 ↦ (refused efault file board, simp e1, gives_up efault)
        | inl e1 ↦ elim (Bool-cases (ltb cmd.requested cmd.completed)) [
          | inl e2 ↦ (refused einval file board, simp (e1, e2), gives_up einval)
          | inr e2 ↦ elim (Option-cases (handle_to_descriptor file cmd.handle)) [
            | inl e3 ↦ (refused einval file board, simp (e1, e2, e3), gives_up einval)
            | inr (desc, e3) ↦ elim (Bool-cases os.accessible) [
              | inr e4 ↦ (refused efault file board, simp (e1, e2, e3, e4), gives_up efault)
              | inl e4 ↦
                  let (r, same, reported) =
                    run_read_total os cmd (set_io_in_progress file cmd.handle true) board room
                      (ground (arith, e2)) in
                  (r, simp (e1, e2, e3, e4) same, reported)
            ]
          ]
        ]
      ]
