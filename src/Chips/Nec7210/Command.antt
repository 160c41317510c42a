-- ===== src/Chips/Nec7210/Command.antt =====
-- linux-gpib-kernel/drivers/gpib/nec7210/nec7210.c: sending command bytes.
pub mod Sent
use linux_gpib.Prelude.{
  ℕ, zero, suc, Bool, true, false, ◌||◌, ℤ, pos, List, [], ◌∷◌, if◌then◌else◌, has,
}
use linux_gpib.Uapi.Errno.{etimedout, eio, erestartsys}
use linux_gpib.Uapi.Status.{timo}
use linux_gpib.Chips.Nec7210.{Chip, cdor, write_byte}
use linux_gpib.Chips.Nec7210.Waiting.{Arrival, WaitEnd, woken, interrupted, asleep, wait_until}
use linux_gpib.Chips.Nec7210.Transfer.{Outcome, done, sleeping, out_of_fuel}

-- the condition of both waits
unfoldable pub command_condition : Chip → Bool
command_condition c = c.command_ready || c.bus_error || has c.status timo

-- The loop, on the bytes that are left and `*bytes_written`, to the result that it leaves. A bus
-- error that ends it is cleared.
unfoldable pub send_commands : List ℕ → ℕ → List Arrival → Chip → Outcome (ℤ × ℕ)
send_commands [] bytes_written later c = done (pos 0, bytes_written) c later
send_commands (byte ∷ rest) bytes_written later c = elim (wait_until command_condition later c) [
  | asleep ↦ sleeping
  | interrupted c' later' ↦ done (erestartsys, bytes_written) c' later'
  | woken c' later' ↦
      let sent = write_byte byte cdor (record c' { command_ready = false }) in
      let more = send_commands rest (suc bytes_written) later' sent in
      if has c'.status timo
      then done (pos 0, bytes_written) c' later'
      else (if c'.bus_error
          then done (pos 0, bytes_written) (record c' { bus_error = false }) later'
          else more)
]

-- what follows the wait for the last byte
unfoldable pub end_command : ℤ → ℕ → List Arrival → Chip → Outcome (ℤ × ℕ)
end_command retval bytes_written later c =
    let timed = if has c.status timo then etimedout else retval in
    done ((if c.bus_error then eio else timed), bytes_written) (record c { bus_error = false })
      later

unfoldable pub last_command : ℤ → ℕ → List Arrival → Chip → Outcome (ℤ × ℕ)
last_command retval bytes_written later c = elim (wait_until command_condition later c) [
  | asleep ↦ sleeping
  | interrupted c' later' ↦ end_command erestartsys bytes_written later' c'
  | woken c' later' ↦ end_command retval bytes_written later' c'
]

unfoldable pub nec7210_command : List ℕ → List Arrival → Chip → Outcome (ℤ × ℕ)
nec7210_command buffer later c =
    elim (send_commands buffer 0 later (record c { bus_error = false })) [
      | sleeping ↦ sleeping
      | out_of_fuel ↦ out_of_fuel
      | done (retval, bytes_written) c' later' ↦ last_command retval bytes_written later' c'
    ]
