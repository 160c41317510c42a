-- ===== src/Kernel/Control.antt =====
-- linux-gpib-kernel/drivers/gpib/common/iblib.c: taking and giving up control of the bus, command
-- bytes, interface clear, remote enable and system control.
use linux_gpib.Prelude.{
  ℕ, Bool, true, false, not, ◌&&◌, ℤ, pos, negsuc, is_neg, ◌==ℤ◌, none, some, List, ltb,
  if◌then◌else◌, has,
}
use linux_gpib.Uapi.Errno.{eperm, einval, etimedout, enotconn}
use linux_gpib.Uapi.Status.{cic, atn, lacs, valid_ndac, valid_nrfd, bus_ndac, bus_nrfd}
use linux_gpib.Kernel.Types.{Board, Interface}
use linux_gpib.Kernel.Timer.{os_start_timer, os_remove_timer, io_timed_out}
use linux_gpib.Kernel.Ibstatus.{ibstatus}

module _ {D : Type 0} (interface : Interface D) where
  -- The first attempt of `ibcac`: a synchronous one is made only by a listener.
  take_control_first : Board D → ℕ → Bool → ℤ × Board D
  take_control_first board status sync =
      if sync && not (has status lacs)
      then (etimedout, board)
      else interface.take_control board sync

  -- The second one, asynchronous, after a synchronous one that timed out.
  take_control_again : ℤ → Board D → Bool → Bool → ℤ × Board D
  take_control_again retval board sync fallback_to_async =
      if is_neg retval && fallback_to_async && (sync && (retval ==ℤ etimedout))
      then interface.take_control board false
      else (retval, board)

  unfoldable pub ibcac : Board D → Bool → Bool → ℤ × Board D
  unfolding take_control_first take_control_again
  ibcac board sync fallback_to_async =
      let (status, board1) = ibstatus interface board in
      let (first, board2) = take_control_first board1 status sync in
      let (retval, board3) = take_control_again first board2 sync fallback_to_async in
      let (_, board4) = interface.update_status board3 0 in
      if not (has status cic)
      then (einval, board1)
      else (if has status atn then (pos 0, board1) else (retval, board4))

  -- No device asserts NDAC or NRFD, and both lines can be read.
  unfoldable pub no_acceptors : ℕ → Bool
  no_acceptors lines =
      has lines valid_nrfd
      && has lines valid_ndac
      && (not (has lines bus_nrfd) && not (has lines bus_ndac))

  unfoldable pub check_for_command_acceptors : Board D → ℤ
  unfolding no_acceptors
  check_for_command_acceptors board =
      if interface.skip_check_for_command_acceptors then pos 0 else elim interface.line_status [
        | none ↦ pos 0
        | some line_status ↦ elim (line_status board) [
          | negsuc e ↦ negsuc e
          | pos lines ↦ if no_acceptors lines then enotconn else pos 0
        ]
      ]

  -- What `ibcmd` does once it has control: the check and the driver's `command`.
  unfoldable pub send_command : Board D → List ℕ → ℤ × ℕ × Board D
  unfolding check_for_command_acceptors
  send_command board buf =
      let ret = check_for_command_acceptors board in
      if ret ==ℤ pos 0 then interface.command board buf else (ret, 0, board)

  -- The number is what is stored in `*bytes_written`.
  unfoldable pub ibcmd : Board D → List ℕ → ℤ × ℕ × Board D
  unfolding send_command
  ibcmd board buf =
      let (status, board1) = ibstatus interface board in
      let (control, board2) = ibcac (os_start_timer board1 board1.usec_timeout) true true in
      let (ret, bytes_written, board3) =
        if control ==ℤ pos 0 then send_command board2 buf else (control, 0, board2) in
      let board4 = os_remove_timer board3 in
      if not (has status cic)
      then (einval, 0, board1)
      else ((if io_timed_out board4 then etimedout else ret), bytes_written, board4)

  unfoldable pub ibgts : Board D → ℤ × Board D
  ibgts board =
      let (status, board1) = ibstatus interface board in
      let (retval, board2) = interface.go_to_standby board1 in
      let (_, board3) = interface.update_status board2 0 in
      if not (has status cic) then (einval, board1) else (retval, board3)

  -- The clamp of `usec_duration` in `ibsic`.
  unfoldable pub clear_duration : ℕ → ℕ
  clear_duration usec_duration =
      let low = if ltb usec_duration 100 then 100 else usec_duration in
      if ltb 1000 low then 1000 else low

  -- The second number is the time in microseconds for which IFC is held.
  unfoldable pub ibsic : Board D → ℕ → ℤ × ℕ × Board D
  unfolding clear_duration
  ibsic board usec_duration =
      if board.master
      then (
        pos 0,
        clear_duration usec_duration,
        interface.interface_clear (interface.interface_clear board true) false,
      )
      else (einval, 0, board)

  unfoldable pub ibrsc : Board D → Bool → ℤ × Board D
  ibrsc board request_control = elim interface.request_system_control [
    | none ↦ (eperm, board)
    | some request_system_control ↦
        let (retval, board') = request_system_control board request_control in
        if retval ==ℤ pos 0
        then (pos 0, record board' { master = request_control })
        else (retval, board')
  ]

  unfoldable pub ibsre : Board D → Bool → ℤ × Board D
  ibsre board enable =
      if board.master then (pos 0, interface.remote_enable board enable) else (einval, board)
