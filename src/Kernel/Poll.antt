-- ===== src/Kernel/Poll.antt =====
-- linux-gpib-kernel/drivers/gpib/common/gpib_os.c: the serial poll. The wait times are in
-- microseconds; `alloc n` says whether `kmalloc` gives memory for the byte of the device `n` in
-- the list.
pub mod Laws
use linux_gpib.Prelude.{
  ℕ, suc, ◌+◌, Bool, true, false, not, ◌&&◌, ◌||◌, ℤ, pos, negsuc, is_neg, Option, none, some, List,
  [], ◌∷◌, ◌++◌, ltb, ◌==◌, ◌==ℤ◌, if◌then◌else◌, length, has, with, without,
}
use linux_gpib.Uapi.Errno.{eio, etimedout, erestartsys}
use linux_gpib.Uapi.Status.{
  cic, srqi, request_service_bit, max_gpib_primary_address, max_gpib_secondary_address,
}
use linux_gpib.Uapi.Commands.{mla, mta, msa, unl, unt, spe, spd}
use linux_gpib.Kernel.Types.{Board, Interface, StatusQueue}
use linux_gpib.Kernel.Timer.{os_start_timer, os_remove_timer, io_timed_out}
use linux_gpib.Kernel.Ibstatus.{ibstatus}
use linux_gpib.Kernel.Control.{ibcac, ibgts}
use linux_gpib.Kernel.StatusQueue.{push_status_byte, pop_status_byte, num_status_bytes}
use linux_gpib.Kernel.Devices.{get_gpib_status_queue, replace_status_queue}

abbrev pub serial_timeout : ℕ
serial_timeout = 1_000_000

-- `if (sad >= 0) cmd_string[i++] = MSA(sad);`
unfoldable pub secondary : ℤ → List ℕ
secondary (pos sad) = msa sad ∷ []
secondary (negsuc _) = []

-- `cmd_string` of `setup_serial_poll`
unfoldable pub setup_string : ℕ → ℤ → List ℕ
unfolding secondary
setup_string pad sad = unl ∷ mla pad ∷ secondary sad ++ spe ∷ []

-- `cmd_string` of `read_serial_poll_byte`
unfoldable pub talk_string : ℕ → ℤ → List ℕ
unfolding secondary
talk_string pad sad = mta pad ∷ secondary sad

-- What the loop of `serial_poll_all` does with the byte read from a device: the number of
-- bytes pushed, 0 or 1, and the device.
keep_result : Bool → StatusQueue → ℤ × Option ℕ → ℕ × StatusQueue
keep_result alloc device (retval, none) = (0, device)
keep_result alloc device (retval, some result) =
    let (pushed, device') = push_status_byte alloc device result in
    if is_neg retval
    then (0, device)
    else (if has result request_service_bit
        then (if is_neg pushed then (0, device') else (1, device'))
        else (0, device))

-- The address test of `dvrsp`.
unfoldable pub bad_poll_address : ℕ → ℤ → Bool
bad_poll_address pad (pos sad) =
    ltb max_gpib_primary_address pad || ltb max_gpib_secondary_address sad
bad_poll_address pad (negsuc n) = ltb max_gpib_primary_address pad || ltb 0 n

module _ {D : Type 0} (interface : Interface D) where
  -- How the three steps of a poll begin: the timer, control of the bus, the command bytes. The
  -- timer still runs if the result is 0.
  send_poll_command : Board D → ℕ → List ℕ → ℤ × Board D
  send_poll_command board usec_timeout cmd_string =
      let (control, board1) = ibcac interface (os_start_timer board usec_timeout) true true in
      let (ret, bytes_written, board2) = interface.command board1 cmd_string in
      if is_neg control
      then (control, os_remove_timer board1)
      else (if is_neg ret || ltb bytes_written (length cmd_string)
          then (eio, os_remove_timer board2)
          else (pos 0, board2))

  unfoldable pub setup_serial_poll : Board D → ℕ → ℤ × Board D
  unfolding send_poll_command
  setup_serial_poll board usec_timeout =
      let (ret, board1) = send_poll_command board usec_timeout (setup_string board.pad board.sad) in
      if is_neg ret then (ret, board1) else (pos 0, os_remove_timer board1)

  -- The read of the poll byte after the talker has been addressed. `*result` is written if the
  -- driver stored a byte.
  read_poll_result : Board D → ℤ × Option ℕ × Board D
  read_poll_result board =
      let (_, board1) = ibgts interface board in
      let (ret, end_flag, bytes, board2) = interface.read board1 1 in
      elim bytes [
        | [] ↦ (eio, none, os_remove_timer board2)
        | result ∷ more ↦ (if is_neg ret then eio else pos 0, some result, os_remove_timer board2)
      ]

  unfoldable pub read_serial_poll_byte : Board D → ℕ → ℤ → ℕ → ℤ × Option ℕ × Board D
  unfolding send_poll_command read_poll_result
  read_serial_poll_byte board pad sad usec_timeout =
      let (ret, board1) = send_poll_command board usec_timeout (talk_string pad sad) in
      if is_neg ret then (ret, none, board1) else read_poll_result board1

  unfoldable pub cleanup_serial_poll : Board D → ℕ → ℤ × Board D
  unfolding send_poll_command
  cleanup_serial_poll board usec_timeout =
      let (ret, board1) = send_poll_command board usec_timeout (spd ∷ unt ∷ []) in
      if is_neg ret then (ret, board1) else (pos 0, os_remove_timer board1)

  -- A failed clean-up gives the value of the read, which is 0.
  unfoldable pub serial_poll_single : Board D → ℕ → ℤ → ℕ → ℤ × Option ℕ × Board D
  unfolding setup_serial_poll read_serial_poll_byte cleanup_serial_poll
  serial_poll_single board pad sad usec_timeout =
      let (setup, board1) = setup_serial_poll board usec_timeout in
      let (retval, result, board2) = read_serial_poll_byte board1 pad sad usec_timeout in
      let (cleanup_retval, board3) = cleanup_serial_poll board2 usec_timeout in
      if is_neg setup
      then (setup, none, board1)
      else (if is_neg retval
          then (retval, result, board3)
          else (if is_neg cleanup_retval
              then (retval, result, board3)
              else (pos 0, result, board3)))

  -- The loop over the list of devices; a driver does not touch that list.
  pub poll_devices : (ℕ → Bool) → Board D → ℕ → List StatusQueue → ℕ × List StatusQueue × Board D
  unfolding read_serial_poll_byte keep_result
  poll_devices alloc board usec_timeout [] = (0, [], board)
  poll_devices alloc board usec_timeout (device ∷ rest) =
      let (retval, result, board1) =
        read_serial_poll_byte board device.pad device.sad usec_timeout in
      let (pushed, device') = keep_result (alloc 0) device (retval, result) in
      let (num_bytes, rest', board2) = poll_devices (λ n. alloc (suc n)) board1 usec_timeout rest in
      (pushed + num_bytes, device' ∷ rest', board2)

  -- `serial_poll_all` behind the test for an empty list
  poll_all : (ℕ → Bool) → Board D → ℕ → ℤ × Board D
  unfolding setup_serial_poll poll_devices cleanup_serial_poll
  poll_all alloc board usec_timeout =
      let (setup, board1) = setup_serial_poll board usec_timeout in
      let (num_bytes, devices, board2) = poll_devices alloc board1 usec_timeout board.device_list in
      let (cleanup_retval, board3) =
        cleanup_serial_poll (record board2 { device_list = devices }) usec_timeout in
      if is_neg setup
      then (setup, board1)
      else (if is_neg cleanup_retval then (cleanup_retval, board3) else (pos num_bytes, board3))

  unfoldable pub serial_poll_all : (ℕ → Bool) → Board D → ℕ → ℤ × Board D
  unfolding poll_all
  serial_poll_all alloc board usec_timeout = elim board.device_list [
    | [] ↦ (pos 0, board)
    | device ∷ rest ↦ poll_all alloc board usec_timeout
  ]

  unfoldable pub dvrsp : Board D → ℕ → ℤ → ℕ → ℤ × Option ℕ × Board D
  unfolding serial_poll_single bad_poll_address
  dvrsp board pad sad usec_timeout =
      let (status, board1) = ibstatus interface board in
      let (retval, result, board2) = serial_poll_single board1 pad sad usec_timeout in
      if not (has status cic)
      then (negsuc 0, none, board1)
      else (if bad_poll_address pad sad
          then (negsuc 0, none, board1)
          else ((if io_timed_out board2 then etimedout else retval), result, board2))

  -- `get_serial_poll_byte`; a stored byte is taken first.
  unfoldable pub get_serial_poll_byte : Board D → ℕ → ℤ → ℕ → ℤ × Option ℕ × Board D
  unfolding dvrsp
  get_serial_poll_byte board pad sad usec_timeout =
      elim (get_gpib_status_queue board.device_list pad sad) [
        | none ↦ dvrsp board pad sad usec_timeout
        | some queue ↦
            let (retval, poll_byte, queue') = pop_status_byte queue in
            let devices = replace_status_queue board.device_list pad sad queue' in
            if num_status_bytes (some queue) == 0
            then dvrsp board pad sad usec_timeout
            else (retval, poll_byte, record board { device_list = devices })
      ]

  -- `autopoll_all_devices`; the two flags say whether the waits for `user_mutex` and for
  -- `big_gpib_mutex` end without a signal, and both are free again at the end.
  unfoldable pub autopoll_all_devices : Bool → Bool → (ℕ → Bool) → Board D → ℤ × Board D
  unfolding serial_poll_all
  autopoll_all_devices user_locked big_locked alloc board =
      if user_locked && big_locked
      then serial_poll_all alloc board serial_timeout
      else (erestartsys, board)

  -- `autospoll_wait_should_wake_up`: the bit SRQI of the board's status is tested and cleared.
  unfoldable pub autospoll_wait_should_wake_up : Board D → Bool × Board D
  autospoll_wait_should_wake_up board =
      if board.master && (ltb 0 board.autospollers && not board.stuck_srq)
      then (has board.status srqi, record board { status = without board.status srqi })
      else (false, board)

  -- A round of the loop of `autospoll_thread`, from the call of `try_module_get`, whose answer
  -- is `got`, with the value of the last poll.
  unfoldable pub autospoll_round : Bool → Bool → Bool → (ℕ → Bool) → Board D → ℤ → ℤ × Board D
  unfolding autopoll_all_devices
  autospoll_round got user_locked big_locked alloc board last =
      let polled = autopoll_all_devices user_locked big_locked alloc board in
      let (retval, board') = if got then polled else (last, board) in
      if board.autospollers == 0 || not board.master
      then (last, board)
      else (if is_neg retval || (retval ==ℤ pos 0)
          then (retval, record board' { stuck_srq = true; status = with board'.status srqi })
          else (retval, board'))
