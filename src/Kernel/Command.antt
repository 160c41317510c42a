-- ===== src/Kernel/Command.antt =====
-- linux-gpib-kernel/drivers/gpib/common/gpib_os.c: `command_ioctl`. Its loop runs on fuel, and
-- `none` means that the fuel ran out.
pub mod Progress
use linux_gpib.Prelude.{
  ℕ, zero, suc, ◌+◌, ◌-◌, Bool, true, false, not, ◌||◌, ℤ, pos, is_neg, Option, none, some, List,
  [], ltb, if◌then◌else◌, min, take, drop,
}
use linux_gpib.Uapi.Errno.{einval, efault}
use linux_gpib.Kernel.Types.{Board, Interface, FilePrivate}
use linux_gpib.Kernel.Control.{ibcmd}
use linux_gpib.Kernel.Handles.{handle_to_descriptor, set_io_in_progress}
use linux_gpib.Kernel.Read.{ReadWriteCmd, UserMemory, IoResult, refused}

-- what the loop of `command_ioctl` has done
pub record Commanding (D : Type 0) : Type 0 where
  pub retval : ℤ
  pub fault : Bool
  pub remain : ℕ
  pub sent : ℕ
  pub board : Board D

-- The end: the count copied back, with `cmd.end` reset, and whether `io_in_progress` is reset:
-- by a failed command, by a fault, or if `cmd.end` did not ask to keep it.
unfoldable pub finish_command :
    {D : Type 0} → Bool → ReadWriteCmd → Commanding D → ℤ × Option (ℕ × Bool) × Bool
finish_command copied_out cmd c =
    let fault = c.fault || not copied_out in
    (
      if fault then efault else c.retval,
      if fault then none else some (cmd.requested - c.remain, false),
      is_neg c.retval || (not cmd.end || fault),
    )

module _ {D : Type 0} (interface : Interface D) where
  -- One round: a buffer load, copied from the user's bytes, goes to `ibcmd`.
  unfoldable pub command_chunk : (ℕ → Bool) → List ℕ → Commanding D → Commanding D
  command_chunk readable user_bytes c =
      let size = min c.board.buffer_length c.remain in
      let (retval, bytes_written, board') =
        ibcmd interface c.board (take size (drop c.sent user_bytes)) in
      if readable c.sent
      then (record {
        retval = retval;
        fault = false;
        remain = c.remain - bytes_written;
        sent = c.sent + bytes_written;
        board = board';
      })
      else (record c { retval = efault; fault = true })

  -- The `do` loop, which calls the driver at least once.
  unfoldable pub command_loop : ℕ → (ℕ → Bool) → List ℕ → Commanding D → Option (Commanding D)
  unfolding command_chunk
  command_loop zero readable user_bytes c = none
  command_loop (suc fuel) readable user_bytes c =
      let c' = command_chunk readable user_bytes c in
      let rest = command_loop fuel readable user_bytes c' in
      if is_neg c'.retval || not (ltb 0 c'.remain) then some c' else rest

  -- `command_ioctl` behind its checks
  unfoldable pub run_command :
      UserMemory → ReadWriteCmd → List ℕ → FilePrivate → Board D → Option (IoResult D)
  unfolding command_loop finish_command
  run_command os cmd user_bytes file board =
      let remain = cmd.requested - cmd.completed in
      let start : Commanding D = record {
        retval = pos 0;
        fault = false;
        remain = remain;
        sent = 0;
        board = board;
      } in
      elim (command_loop (suc remain) os.copied_chunk user_bytes start) [
        | none ↦ none
        | some c ↦
            let (retval, reply, clear) = finish_command os.copied_out cmd c in
            some (record {
              retval = retval;
              reply = reply;
              data_read = [];
              file = if clear then set_io_in_progress file cmd.handle false else file;
              board = c.board;
            })
      ]

  unfoldable pub command_ioctl :
      UserMemory → ReadWriteCmd → List ℕ → FilePrivate → Board D → Option (IoResult D)
  unfolding run_command
  command_ioctl os cmd user_bytes file board =
      if os.copied_in
      then (if ltb cmd.requested cmd.completed
          then some (refused einval file board)
          else elim (handle_to_descriptor file cmd.handle) [
            | none ↦ some (refused einval file board)
            | some _ ↦
                if os.accessible
                then run_command os cmd user_bytes (set_io_in_progress file cmd.handle true) board
                else some (refused efault file board)
          ])
      else some (refused efault file board)
