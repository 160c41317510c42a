-- ===== src/Chips/Nec7210/Tests.antt =====
-- Runs of the code of linux-gpib-kernel/drivers/gpib/nec7210/nec7210.c at fixed inputs.
use linux_gpib.Prelude.{
  ℤ, pos, negsuc, Option, none, some, ℕ, true, false, ◌≡◌, refl, List, [], ◌∷◌, length, has, mask,
  assign, with, without, arith,
}
use linux_gpib.Uapi.Status.{spoll}
use linux_gpib.Chips.Nec7210.{
  cdor, Irq, Chip, talker_idle, talker_active, listener_idle, put, lost,
  nec7210_update_status_nolock, nec7210_atn_has_changed, nec7210_interrupt_have_status, is_handled,
  record_messages, record_output, record_input, record_status2, is_listener, is_talker, listener_of,
  talker_of, write_byte,
}
use linux_gpib.Chips.Nec7210.Settings.{nec7210_board_reset}
use linux_gpib.Chips.Nec7210.Mirror.{IsMirrored}
use linux_gpib.Chips.Nec7210.Mirror.Runs.{
  enable_eos, board_online, apply, set, Run, nothing, after, nec7210_board_reset-IsMirrored,
}
use linux_gpib.Chips.Nec7210.Receive.{nec7210_read}
use linux_gpib.Chips.Nec7210.Receive.Bounds.{IsRead, nec7210_read-IsRead}
use linux_gpib.Chips.Nec7210.Command.{
  nec7210_command, send_commands, last_command, end_command, command_condition,
}
use linux_gpib.Chips.Nec7210.Command.Sent.{written, IsPrefix, nec7210_command-IsPrefix}
use linux_gpib.Chips.Nec7210.Waiting.{timer, Arrival, interrupt, wait_until, sleep}
use linux_gpib.Chips.Nec7210.Transfer.{
  done, sleeping, out_of_fuel, Outcome, pio_write, write_bytes, pio_write_wait, end_wait,
  write_condition, max_bus_errors_of, with_count, woken_result, write_data, nec7210_write,
}
use linux_gpib.Chips.Nec7210.Resend.{taken, pio_write-taken}
use linux_gpib.Chips.Nec7210.Bounds.{has_run, nec7210_write_total}
use linux_gpib.Chips.Nec7210.Addressing.{nec7210_update_status_bits}

abbrev fresh : Chip
fresh = record {
  status = 0;
  imr1 = 255;
  imr2 = 79;
  auxa_bits = 129;
  auxb_bits = 161;
  admr = 49;
  is_nec7210 = true;
  srq_pending = false;
  talker_state = talker_idle;
  listener_state = listener_idle;
  read_ready = false;
  write_ready = false;
  command_ready = false;
  received_end = false;
  bus_error = false;
  rfd_holdoff = false;
  dev_clear = false;
  adr_change = false;
  data_in = 0;
  pushed = [];
  log = [];
}

-- an active talker that can send a byte
abbrev ready : Arrival
ready = interrupt (record { isr1 = 2; isr2 = 0; adsr = 66; spsr = 0; dir = 0 })

-- an error of the bus
abbrev failure : Arrival
failure = interrupt (record { isr1 = 4; isr2 = 0; adsr = 66; spsr = 0; dir = 0 })

-- the first byte is lost once
abbrev story : List Arrival
story = ready ∷ failure ∷ ready ∷ ready ∷ ready ∷ []

abbrev two : List ℕ
two = 65 ∷ 66 ∷ []

abbrev finished : Chip
finished = record fresh {
  status = 8;
  talker_state = talker_active;
  write_ready = true;
  log = put cdor 66 ∷ put cdor 65 ∷ lost ∷ put cdor 65 ∷ [];
}

pio_write-taken_example : (taken false finished.log ≡ two) × (2 ≡ length two)
unfolding pio_write taken write_bytes pio_write_wait end_wait wait_until write_condition has sleep
    nec7210_interrupt_have_status is_handled mask record_messages record_output record_input
    record_status2 nec7210_update_status_nolock assign without max_bus_errors_of with_count
    woken_result write_data is_listener is_talker listener_of nec7210_atn_has_changed talker_of
    write_byte with
pio_write-taken_example = pio_write-taken 5 two story fresh 2 finished [] refl refl refl

nec7210_write_total_example : has_run (nec7210_write 2003 two true story fresh) ≡ true
unfolding max_bus_errors_of
nec7210_write_total_example =
    nec7210_write_total 2003 two true story fresh (omega arith) (omega arith)

-- a talker in a serial poll that was asked for by this board
abbrev polled : Irq
polled = record { isr1 = 0; isr2 = 0; adsr = 98; spsr = 0; dir = 0 }

abbrev asking : Chip
asking = record fresh { status = 24; srq_pending = true }

nec7210_update_status_bits_example :
    (has (nec7210_update_status_nolock polled asking).status spoll ≡ true)
    × (nec7210_atn_has_changed polled (nec7210_update_status_nolock polled asking) ≡ false)
unfolding has mask
nec7210_update_status_bits_example = nec7210_update_status_bits polled asking spoll

-- an addressed listener takes a byte, then the last one with END
abbrev reading : List Arrival
reading =
    interrupt (record { isr1 = 1; isr2 = 0; adsr = 68; spsr = 0; dir = 72 })
    ∷ interrupt (record { isr1 = 17; isr2 = 0; adsr = 68; spsr = 0; dir = 73 })
    ∷ []

nec7210_read-IsRead_example : IsRead 5 (nec7210_read 6 5 reading fresh)
nec7210_read-IsRead_example = nec7210_read-IsRead 6 5 reading fresh (omega arith)

-- the chip can take a command byte
abbrev ready_for_command : Arrival
ready_for_command = interrupt (record { isr1 = 0; isr2 = 8; adsr = 128; spsr = 0; dir = 0 })

nec7210_command-IsPrefix_example :
    IsPrefix [] 0 two (nec7210_command two (ready_for_command ∷ timer ∷ []) fresh)
unfolding written
nec7210_command-IsPrefix_example =
    nec7210_command-IsPrefix two (ready_for_command ∷ timer ∷ []) fresh

-- A bus error that comes with the chip's being ready ends the loop and is forgotten: the result is
-- 0 with no byte written.
abbrev refused : Arrival
refused = interrupt (record { isr1 = 4; isr2 = 8; adsr = 66; spsr = 0; dir = 0 })

abbrev result_of : Outcome (ℤ × ℕ) → Option (ℤ × ℕ)
result_of (done r c later) = some r
result_of sleeping = none
result_of out_of_fuel = none

nec7210_command_hides_error : result_of (nec7210_command two (refused ∷ []) fresh) ≡ some (pos 0, 0)
unfolding nec7210_command send_commands last_command end_command command_condition wait_until has
    sleep nec7210_interrupt_have_status is_handled mask record_messages record_output record_input
    record_status2 nec7210_update_status_nolock assign without is_listener is_talker listener_of
    nec7210_atn_has_changed talker_of write_byte with
nec7210_command_hides_error = refl

-- online, and with an end-of-string byte
abbrev set_up : Chip
set_up = apply (enable_eos 10 true) (apply (board_online 3 (negsuc 0)) (nec7210_board_reset fresh))

set_up-Run : Run (nec7210_board_reset fresh) set_up
set_up-Run = after (after nothing (set (board_online 3 (negsuc 0)))) (set (enable_eos 10 true))

nec7210_board_reset-IsMirrored_example : IsMirrored set_up
nec7210_board_reset-IsMirrored_example = nec7210_board_reset-IsMirrored fresh set_up set_up-Run
