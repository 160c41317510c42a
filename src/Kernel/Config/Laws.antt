-- ===== src/Kernel/Config/Laws.antt =====
-- The settings of a board: which are refused, and what goes online and offline.
use linux_gpib.Prelude.{
  ℕ, ◌+◌, ◌≡◌, refl, Bool, true, false, arith, pos, negsuc, ◌==ℤ◌, none, some, [], Bool-cases, inl,
  inr, has,
}
use linux_gpib.Uapi.Errno.{einval, eopnotsupp}
use linux_gpib.Uapi.Status.{cic, request_service_bit}
use linux_gpib.Kernel.Types.{Board, Interface}
use linux_gpib.Kernel.Timer.{os_start_timer}
use linux_gpib.Kernel.Control.{ibcac}
use linux_gpib.Kernel.Ibstatus.{ibstatus}
use linux_gpib.Kernel.EventQueue.Laws.{IsValid, drain_events_total}
use linux_gpib.Kernel.Config.{ibrpp, ibrsv2, iboffline, gpib_deallocate_board}

module _ {D : Type 0} (interface : Interface D) where
  deallocate_lem :
      (board : Board D)
      → IsValid board.event_queue
      → (board' : Board D) × (gpib_deallocate_board interface board ≡ some board')
        × (board'.event_queue.events ≡ [])
        × (board'.has_buffer ≡ false)
  unfolding gpib_deallocate_board
  deallocate_lem board v =
      let (queue, e, empty) =
        drain_events_total (board.event_queue.num_events + 2) board.event_queue v (ground arith) in
      elim (Bool-cases board.has_buffer) [
        | inl h ↦ (
          record board { has_buffer = false; buffer_length = 0; event_queue = queue },
          simp (h, e, gpib_deallocate_board),
          empty,
          refl,
        )
        | inr h ↦
            (record board { event_queue = queue }, simp (h, e, gpib_deallocate_board), empty, h)
      ]

  -- Going offline always ends: with a valid queue of events it succeeds, and a board that was
  -- online is offline after it, has no buffer, no autospoll thread, and no event left.
  pub iboffline_lem :
      (board : Board D)
      → board.online ≡ true
      → IsValid (interface.detach (record board { autospoll_task = false })).event_queue
      → (board' : Board D) × (iboffline interface board ≡ some (pos 0, board'))
        × (board'.online ≡ false)
        × (board'.event_queue.events ≡ [])
        × (board'.has_buffer ≡ false)
  unfolding iboffline
  iboffline_lem board online v =
      let (board', e, empty, freed) =
        deallocate_lem (interface.detach (record board { autospoll_task = false })) v in
      (record board' { online = false }, rw (e, online) refl, refl, empty, freed)

  -- A parallel poll that does not get control of the bus fails with -1 and leaves the board, its
  -- timer included, as the attempt to take control left it.
  pub ibrpp_refused :
      (board : Board D)
      → let (control, board1) =
          ibcac interface (os_start_timer board board.usec_timeout) true true in
        (control ==ℤ pos 0) ≡ false → ibrpp interface board ≡ (negsuc 0, 0, board1)
  unfolding ibrpp
  ibrpp_refused board h = simp h

  -- A request for service is refused with -EINVAL to a controller in charge, and if a new reason
  -- is given without the request bit; with the driver's older function alone, it is answered with
  -- -EOPNOTSUPP exactly if the bit is set without a new reason.
  pub ibrsv2_lem :
      (board : Board D) (status_byte : ℕ) (new_reason : Bool)
      → let (status, board1) = ibstatus interface board in
        let (retval, board') = ibrsv2 interface board status_byte new_reason in
        let request = has status_byte request_service_bit in
        (has status cic ≡ true → (retval ≡ einval) × (board' ≡ board1))
        × (request ≡ false → new_reason ≡ true → (retval ≡ einval) × (board' ≡ board1))
        × ((respond : Board D → ℕ → Board D)
            → interface.serial_poll_response2 ≡ none
            → interface.serial_poll_response ≡ some respond
            → has status cic ≡ false
            → (request ≡ new_reason → (retval ≡ pos 0) × (board' ≡ respond board1 status_byte))
              × (request ≡ true → new_reason ≡ false → (retval ≡ eopnotsupp) × (board' ≡ board1)))
  unfolding ibrsv2
  ibrsv2_lem board status_byte new_reason = (
    λ c. simp c (refl, refl),
    λ r n. ground (arith, r, n),
    λ respond newer older slave. (
      λ same. ground (arith, newer, older, slave, same),
      λ r n. ground (arith, newer, older, slave, r, n),
    ),
  )
