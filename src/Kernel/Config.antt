-- ===== src/Kernel/Config.antt =====
-- linux-gpib-kernel/drivers/gpib/common: the settings of a board and of an open device file.
-- `copied` says whether `copy_from_user` succeeds.
pub mod Laws
pub mod Move
use linux_gpib.Prelude.{
  ℕ, ◌+◌, ◌-◌, ◌%◌, Bool, true, false, not, ◌&&◌, ◌||◌, ℤ, pos, negsuc, is_neg, ◌==ℤ◌, Option, none,
  some, List, [], ◌∷◌, ltb, leb, ◌==◌, if◌then◌else◌, set, has,
}
use linux_gpib.Uapi.Errno.{
  eperm, enoent, eio, enxio, enomem, efault, ebusy, einval, eopnotsupp, erestartsys,
}
use linux_gpib.Uapi.Status.{
  cic, request_service_bit, reos, xeos, bin, max_gpib_primary_address, max_gpib_secondary_address,
  gpib_max_num_boards,
}
use linux_gpib.Kernel.Types.{
  Board, Interface, FilePrivate, Descriptor, EventQueue, init_event_queue,
}
use linux_gpib.Kernel.Timer.{os_start_timer, os_remove_timer}
use linux_gpib.Kernel.Ibstatus.{ibstatus}
use linux_gpib.Kernel.EventQueue.{drain_events}
use linux_gpib.Kernel.Control.{ibcac}
use linux_gpib.Kernel.Devices.{increment_open_device_count, decrement_open_device_count}
use linux_gpib.Kernel.Handles.{
  slot, handle_to_descriptor, cleanup_open_devices, init_gpib_file_private,
}

module _ {D : Type 0} (interface : Interface D) where
  unfoldable pub ibpad : Board D → ℕ → ℤ × Board D
  ibpad board addr =
      let board1 = record board { pad = addr } in
      let (_, board2) = interface.primary_address board1 addr in
      if ltb max_gpib_primary_address addr
      then (einval, board)
      else (pos 0, if board.online then board2 else board1)

  -- what `ibsad` tells the driver: a negative address disables
  tell_secondary_address : Board D → ℤ → Board D
  tell_secondary_address board (pos sad) =
      let (_, board') = interface.secondary_address board sad true in board'
  tell_secondary_address board (negsuc _) =
      let (_, board') = interface.secondary_address board 0 false in board'

  over_secondary : ℤ → Bool
  over_secondary (pos addr) = ltb max_gpib_secondary_address addr
  over_secondary (negsuc _) = false

  unfoldable pub ibsad : Board D → ℤ → ℤ × Board D
  unfolding tell_secondary_address over_secondary
  ibsad board addr =
      let board1 = record board { sad = addr } in
      if over_secondary addr
      then (einval, board)
      else (pos 0, if board.online then tell_secondary_address board1 addr else board1)

  -- `eosflags & ~EOS_MASK`: a bit other than the three of the mask, of the 32 of an `int`.
  unfoldable pub other_eos_flags : ℕ → Bool
  other_eos_flags eosflags =
      not (eosflags % 0x400 == 0) || not (eosflags % 0x1_0000_0000 == eosflags % 0x2000)

  unfoldable pub ibeos : Board D → ℕ → ℕ → ℤ × Board D
  unfolding other_eos_flags
  ibeos board eos eosflags =
      if other_eos_flags eosflags
      then (einval, board)
      else (if has eosflags reos
          then interface.enable_eos board eos (has eosflags bin)
          else (pos 0, interface.disable_eos board))

  -- The number is what is stored in `*result`.
  unfoldable pub ibrpp : Board D → ℤ × ℕ × Board D
  ibrpp board =
      let (control, board1) = ibcac interface (os_start_timer board board.usec_timeout) true true in
      let (retval, result, board2) = interface.parallel_poll board1 in
      if control ==ℤ pos 0 then (retval, result, os_remove_timer board2) else (negsuc 0, 0, board1)

  unfoldable pub ibppc : Board D → ℕ → ℤ × Board D
  ibppc board configuration =
      let board' = interface.parallel_poll_configure board (configuration % 0x20) in
      (pos 0, record board' { parallel_poll_configuration = configuration % 0x20 })

  -- `ibrsv2` behind its tests: the driver's newer function, or the older one if it does the same
  serial_poll_answer : Board D → ℕ → Bool → ℤ × Board D
  serial_poll_answer board status_byte new_reason_for_service =
      elim interface.serial_poll_response2 [
        | some serial_poll_response2 ↦
            (pos 0, serial_poll_response2 board status_byte new_reason_for_service)
        | none ↦ elim interface.serial_poll_response [
          | none ↦ (eopnotsupp, board)
          | some serial_poll_response ↦
              if not (has status_byte request_service_bit) || new_reason_for_service
              then (pos 0, serial_poll_response board status_byte)
              else (eopnotsupp, board)
        ]
      ]

  unfoldable pub ibrsv2 : Board D → ℕ → Bool → ℤ × Board D
  unfolding serial_poll_answer
  ibrsv2 board status_byte new_reason_for_service =
      let (board_status, board') = ibstatus interface board in
      if has board_status cic
      then (einval, board')
      else (if not (has status_byte request_service_bit) && new_reason_for_service
          then (einval, board')
          else serial_poll_answer board' status_byte new_reason_for_service)

  -- `request_service_ioctl`
  unfoldable pub request_service_ioctl : Bool → Board D → ℕ → ℤ × Board D
  unfolding ibrsv2
  request_service_ioctl copied board status_byte =
      if copied
      then ibrsv2 board status_byte (has status_byte request_service_bit)
      else (efault, board)

  -- `struct gpib_ppoll_config_ioctl`: the configuration, and the one-bit fields
  unfoldable pub ppc_ioctl : Bool → Board D → ℕ → Bool → Bool → ℤ × Board D
  unfolding ibppc
  ppc_ioctl copied board config set_ist clear_ist =
      let on = interface.parallel_poll_response (record board { ist = true }) true in
      let off = interface.parallel_poll_response (record board { ist = false }) false in
      let board' = if set_ist then on else (if clear_ist then off else board) in
      if copied
      then (if config == 0 then (pos 0, board') else ibppc board' config)
      else (efault, board)

  unfoldable pub set_local_ppoll_mode_ioctl : Bool → Board D → ℤ → ℤ × Board D
  set_local_ppoll_mode_ioctl copied board cmd = elim interface.local_parallel_poll_mode [
    | none ↦ (if copied then enoent else efault, board)
    | some local_parallel_poll_mode ↦
        let mode = not (cmd ==ℤ pos 0) in
        if copied
        then (pos 0, local_parallel_poll_mode (record board { local_ppoll_mode = mode }) mode)
        else (efault, board)
  ]

  unfoldable pub gpib_allocate_board : Bool → Board D → ℤ × Board D
  gpib_allocate_board memory board =
      if board.has_buffer
      then (pos 0, board)
      else (if memory
          then (pos 0, record board { has_buffer = true; buffer_length = 0x4000 })
          else (enomem, record board { buffer_length = 0 }))

  -- `none`: the loop that empties the event queue runs for longer than the queue and the report
  -- of a lost event ask for.
  unfoldable pub gpib_deallocate_board : Board D → Option (Board D)
  gpib_deallocate_board board =
      let board' =
        if board.has_buffer
        then record board { has_buffer = false; buffer_length = 0 }
        else board in
      elim (drain_events (board.event_queue.num_events + 2) board.event_queue) [
        | none ↦ none
        | some queue ↦ some (record board' { event_queue = queue })
      ]

  -- The part of `ibonline` behind `attach`. `thread` says whether the autospoll thread could be
  -- made; a failure is 1, the value of `IS_ERR`.
  start_board : Bool → ℤ → Board D → ℤ × Board D
  start_board thread attached board =
      if is_neg attached
      then (attached, interface.detach board)
      else (if thread
          then (pos 0, record board { autospoll_task = true; online = true })
          else (pos 1, interface.detach board))

  -- `ibonline` for a board with an interface; `memory` says whether `vmalloc` gives the buffer.
  unfoldable pub ibonline : Bool → Bool → Board D → ℤ × Board D
  unfolding gpib_allocate_board start_board
  ibonline memory thread board =
      let (allocated, board1) = gpib_allocate_board memory board in
      let (attached, board2) = interface.attach (record board1 { local_ppoll_mode = false }) in
      if board.online
      then (ebusy, board)
      else (if is_neg allocated then (allocated, board1) else start_board thread attached board2)

  -- `iboffline` for a board with an interface
  unfoldable pub iboffline : Board D → Option (ℤ × Board D)
  unfolding gpib_deallocate_board
  iboffline board =
      let stopped =
        gpib_deallocate_board (interface.detach (record board { autospoll_task = false })) in
      if board.online
      then elim stopped [
        | none ↦ none
        | some board' ↦ some (pos 0, record board' { online = false })
      ]
      else some (pos 0, board)

-- `pad_ioctl` and `sad_ioctl` for a descriptor that is a device's: the address is closed under the
-- old number and opened under the new one. `alloc` says whether `kmalloc` gives memory.
module _ {D : Type 0} where
  unfoldable pub move_device :
      Bool → FilePrivate → Board D → ℕ → Descriptor → ℕ → ℤ → ℤ × FilePrivate × Board D
  move_device alloc file board handle desc pad sad =
      let (closed, devices) = decrement_open_device_count board.device_list desc.pad desc.sad in
      let (opened, devices') = increment_open_device_count alloc devices pad sad in
      let moved = record file {
        descriptors = set file.descriptors handle (some (record desc { pad = pad; sad = sad }));
      } in
      if is_neg closed
      then (closed, file, record board { device_list = devices })
      else (if is_neg opened then opened else pos 0, moved, record board { device_list = devices' })

  unfoldable pub pad_ioctl :
      Interface D → Bool → Bool → FilePrivate → Board D → ℕ → ℕ → ℤ × FilePrivate × Board D
  unfolding move_device
  pad_ioctl interface copied alloc file board handle pad =
      if copied
      then elim (handle_to_descriptor file (pos handle)) [
        | none ↦ (einval, file, board)
        | some desc ↦
            let (retval, board') = ibpad interface board pad in
            if desc.is_board
            then (retval, file, board')
            else move_device alloc file board handle desc pad desc.sad
      ]
      else (efault, file, board)

  unfoldable pub sad_ioctl :
      Interface D → Bool → Bool → FilePrivate → Board D → ℕ → ℤ → ℤ × FilePrivate × Board D
  unfolding move_device
  sad_ioctl interface copied alloc file board handle sad =
      if copied
      then elim (handle_to_descriptor file (pos handle)) [
        | none ↦ (einval, file, board)
        | some desc ↦
            let (retval, board') = ibsad interface board sad in
            if desc.is_board
            then (retval, file, board')
            else move_device alloc file board handle desc desc.pad sad
      ]
      else (efault, file, board)
