-- ===== src/Kernel/Tests/Bus.antt =====
-- The theorems on serial polls, at concrete values.
use linux_gpib.Prelude.{◌+◌, ◌≡◌, refl, true, false, arith, pos, negsuc, is_neg, some, [], ◌∷◌}
use linux_gpib.Kernel.Types.{StatusQueue, Board, init_gpib_board, init_gpib_status_queue}
use linux_gpib.Kernel.StatusQueue.Fifo.{IsValid, init-IsValid}
use linux_gpib.Kernel.Poll.{
  setup_serial_poll, read_serial_poll_byte, serial_poll_single, poll_devices,
}
use linux_gpib.Kernel.Poll.Laws.{
  AllValid, stored, same_devices, serial_poll_single_retval, poll_devices_lem,
}
use linux_gpib.Kernel.Write.Framing.{Log, recorder}

abbrev meter : StatusQueue
meter = record (init_gpib_status_queue 5 (negsuc 0)) {
  status_bytes = 0x41 ∷ [];
  num_status_bytes = 1;
}

abbrev bus : Board Log
bus = record init_gpib_board {
  private_data = some [];
  device_list = meter ∷ init_gpib_status_queue 6 (negsuc 0) ∷ [];
}

serial_poll_single_retval_example :
    let (setup, board1) = setup_serial_poll recorder bus 1000 in
    let (read, byte, board2) = read_serial_poll_byte recorder board1 5 (negsuc 0) 1000 in
    let (retval, result, board') = serial_poll_single recorder bus 5 (negsuc 0) 1000 in
    (is_neg setup ≡ true → retval ≡ setup)
    × (is_neg setup ≡ false → is_neg read ≡ true → retval ≡ read)
    × (is_neg setup ≡ false → is_neg read ≡ false → (retval ≡ pos 0) × (result ≡ byte))
serial_poll_single_retval_example = serial_poll_single_retval recorder bus 5 (negsuc 0) 1000

meter-IsValid : IsValid meter
meter-IsValid = record { counted = refl; bounded = omega arith; unflagged = refl }

poll_devices_lem_example :
    let (num_bytes, devices', board') =
      poll_devices recorder (λ n. true) bus 1000 bus.device_list in
    AllValid devices'
    × (stored devices' ≡ 1 + num_bytes)
    × (same_devices devices' ≡ (5, negsuc 0, 0) ∷ (6, negsuc 0, 0) ∷ [])
poll_devices_lem_example =
    poll_devices_lem recorder (λ n. true) bus 1000 bus.device_list
      (meter-IsValid, (init-IsValid 6 (negsuc 0), tt))
