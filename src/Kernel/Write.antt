-- ===== src/Kernel/Write.antt =====
-- linux-gpib-kernel/drivers/gpib/common: `ibwrt` of iblib.c and `write_ioctl` of gpib_os.c. The
-- loop runs on fuel, and `none` means that the fuel ran out.
pub mod Framing
pub mod Sent
use linux_gpib.Prelude.{
  ℕ, zero, suc, ◌+◌, ◌-◌, Bool, true, false, not, ◌&&◌, ◌||◌, ℤ, pos, is_neg, Option, none, some,
  List, [], ltb, leb, ◌==◌, if◌then◌else◌, min, length, take, drop,
}
use linux_gpib.Uapi.Errno.{einval, efault, etimedout}
use linux_gpib.Kernel.Types.{Board, Interface, FilePrivate}
use linux_gpib.Kernel.Timer.{os_start_timer, os_remove_timer, io_timed_out}
use linux_gpib.Kernel.Control.{ibgts}
use linux_gpib.Kernel.Handles.{handle_to_descriptor, set_io_in_progress}
use linux_gpib.Kernel.Read.{ReadWriteCmd, UserMemory, IoResult, refused}

-- what the loop of `write_ioctl` has done; `sent` is how far `userbuf` has moved
pub record Sending (D : Type 0) : Type 0 where
  pub retval : ℤ
  pub fault : Bool
  pub remain : ℕ
  pub sent : ℕ
  pub board : Board D

module _ {D : Type 0} (interface : Interface D) where
  -- `os_start_timer`, the driver's `write`, and `os_remove_timer`
  write_timed : Board D → List ℕ → Bool → ℤ × ℕ × Board D
  write_timed board buf send_eoi =
      let (ret, bytes_written, board') =
        interface.write (os_start_timer board board.usec_timeout) buf send_eoi in
      ((if io_timed_out board' then etimedout else ret), bytes_written, os_remove_timer board')

  -- The number is what is stored in `*bytes_written`, which is 0 before the call.
  unfoldable pub ibwrt : Board D → List ℕ → Bool → ℤ × ℕ × Board D
  unfolding write_timed
  ibwrt board buf send_eoi =
      let (retval, board') = ibgts interface board in
      let controlled = write_timed board' buf send_eoi in
      let plain = write_timed board buf send_eoi in
      if length buf == 0
      then (pos 0, 0, board)
      else (if board.master
          then (if is_neg retval then (retval, 0, board') else controlled)
          else plain)

  -- One buffer load of the user's data, and the flag that sends END with its last byte.
  unfoldable pub write_chunk : List ℕ → Bool → Sending D → Sending D
  unfolding ibwrt
  write_chunk user_bytes end s =
      let room = s.board.buffer_length in
      let (ret, bytes_written, board') =
        ibwrt s.board (take (min room s.remain) (drop s.sent user_bytes))
          (leb s.remain room && end) in
      record {
        retval = ret;
        fault = s.fault;
        remain = s.remain - bytes_written;
        sent = s.sent + bytes_written;
        board = board';
      }

  -- The `while` loop of `write_ioctl`; `copied` says whether `copy_from_user` succeeds at an
  -- offset of the user's buffer.
  pub write_loop : ℕ → (ℕ → Bool) → List ℕ → Bool → Sending D → Option (Sending D)
  write_loop zero copied user_bytes end s = none
  write_loop (suc fuel) copied user_bytes end s =
      let s' = write_chunk user_bytes end s in
      let rest = write_loop fuel copied user_bytes end s' in
      if ltb 0 s.remain
      then (if copied s.sent
          then (if is_neg s'.retval then some s' else rest)
          else some (record s { fault = true; retval = efault }))
      else some s

  -- The result of `write_ioctl` after its loop.
  pub finish_write : Bool → ReadWriteCmd → Sending D → ℤ × Option (ℕ × Bool)
  finish_write copied_out cmd s =
      let retval = if s.remain == 0 then pos 0 else s.retval in
      if s.fault || not copied_out
      then (efault, none)
      else (retval, some (cmd.requested - s.remain, cmd.end))

  -- `write_ioctl` behind its checks; `user_bytes` is the user's buffer from the bytes on that are
  -- completed.
  pub run_write : UserMemory → ReadWriteCmd → List ℕ → FilePrivate → Board D → Option (IoResult D)
  unfolding write_loop finish_write
  run_write os cmd user_bytes file board =
      let remain = cmd.requested - cmd.completed in
      let start : Sending D = record {
        retval = pos 0;
        fault = false;
        remain = remain;
        sent = 0;
        board = board;
      } in
      elim (write_loop (suc remain) os.copied_chunk user_bytes cmd.end start) [
        | none ↦ none
        | some s ↦
            let (retval, reply) = finish_write os.copied_out cmd s in
            some (record {
              retval = retval;
              reply = reply;
              data_read = [];
              file = set_io_in_progress file cmd.handle false;
              board = s.board;
            })
      ]

  unfoldable pub write_ioctl :
      UserMemory → ReadWriteCmd → List ℕ → FilePrivate → Board D → Option (IoResult D)
  unfolding run_write
  write_ioctl os cmd user_bytes file board =
      if os.copied_in
      then (if ltb cmd.requested cmd.completed
          then some (refused einval file board)
          else elim (handle_to_descriptor file cmd.handle) [
            | none ↦ some (refused einval file board)
            | some _ ↦
                if os.accessible
                then run_write os cmd user_bytes (set_io_in_progress file cmd.handle true) board
                else some (refused efault file board)
          ])
      else some (refused efault file board)
