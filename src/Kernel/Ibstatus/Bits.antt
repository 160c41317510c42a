-- ===== src/Kernel/Ibstatus/Bits.antt =====
-- Which bits of the status word the core itself decides.
use linux_gpib.Prelude.{
  ℕ, ◌≡◌, refl, negsuc, true, false, not, arith, ℤ, pos, Option, none, some, ◌==◌, Bool-cases, inl,
  inr, has, without, bits, has-assign, has-without, ◌∙◌,
}
use mathlib.Core.Bool.{not-not}
use linux_gpib.Uapi.Status.{timo, srqi, rqs, cmpl, event, valid_srq, bus_srq}
use linux_gpib.Kernel.Types.{Board, Interface, StatusQueue, Descriptor}
use linux_gpib.Kernel.StatusQueue.{num_status_bytes}
use linux_gpib.Kernel.EventQueue.{num_gpib_events}
use linux_gpib.Kernel.Ibstatus.{general_ibstatus, ibstatus, hardware_status, real_srqi, iblines}

module _ {D : Type 0} (interface : Interface D) where
  -- In the status word of a descriptor EVENT says whether events wait, CMPL that no transfer of the
  -- descriptor is in progress, and RQS is set if its device has status bytes; setting CMPL ends
  -- a transfer, clearing it alone begins one.
  pub general_ibstatus_bits :
      (board : Board D) (device : Option StatusQueue) (clear_mask set_mask : ℕ) (desc : Descriptor)
      → let (status, board', desc') =
          general_ibstatus interface board device clear_mask set_mask (some desc) in
        (has status event ≡ not (num_gpib_events board'.event_queue == 0))
        × (desc' ≡ some (record desc { io_in_progress = not (has status cmpl) }))
        × (has set_mask cmpl ≡ true → has status cmpl ≡ true)
        × (has set_mask cmpl ≡ false → has clear_mask cmpl ≡ true → has status cmpl ≡ false)
        × (has set_mask cmpl ≡ false
            → has clear_mask cmpl ≡ false
            → has status cmpl ≡ not desc.io_in_progress)
        × ((num_status_bytes device == 0) ≡ false → has status rqs ≡ true)
  unfolding general_ibstatus
  general_ibstatus_bits board device clear_mask set_mask desc = (
    simp bits,
    simp (bits, not-not),
    λ h. simp bits (ground arith),
    λ h k. simp bits (ground arith),
    λ h k. simp bits (ground arith),
    λ h. rw h (simp bits),
  )

  real_srqi-timo :
      (status : ℕ) (lines : ℤ × ℕ)
      → has (real_srqi interface (without status timo) lines) timo ≡ false
  unfolding real_srqi
  real_srqi-timo status (negsuc e, line_status) = simp bits
  real_srqi-timo status (pos r, line_status) = elim (Bool-cases (has line_status valid_srq)) [
    | inl e ↦ rw e (simp bits)
    | inr e ↦ rw e (simp bits)
  ]

  real_srqi-srqi :
      (status : ℕ) (lines : ℤ × ℕ)
      → lines.0 ≡ pos 0
      → has lines.1 valid_srq ≡ true
      → has (real_srqi interface status lines) srqi ≡ has lines.1 bus_srq
  unfolding real_srqi
  real_srqi-srqi status (negsuc e, line_status) done valid = cc
  real_srqi-srqi status (pos r, line_status) done valid = rw valid (simp bits)

  -- On a board with a driver TIMO is never reported, and where the driver reads the SRQ line,
  -- SRQI is the state of that line and not what the driver's status says.
  pub ibstatus-srqi :
      (board : Board D) (driver : D)
      → board.private_data ≡ some driver
      → let (status, board') = ibstatus interface board in
        let (retval, lines) = iblines interface board' in
        (has status timo ≡ false)
        × (retval ≡ pos 0 → has lines valid_srq ≡ true → has status srqi ≡ has lines bus_srq)
  unfolding ibstatus
  ibstatus-srqi board driver h = (
    simp bits (rw (h, hardware_status) (real_srqi-timo _ _)),
    rw (h, hardware_status) (λ e v. simp bits (real_srqi-srqi _ _ e v)),
  )

  real_srqi-has :
      (status k : ℕ) (lines : ℤ × ℕ)
      → (srqi == k) ≡ false
      → has (real_srqi interface status lines) k ≡ has status k
  unfolding real_srqi
  real_srqi-has status k (negsuc e, line_status) h = refl
  real_srqi-has status k (pos r, line_status) h =
      ground (arith, has-assign status srqi k (has line_status bus_srq))

  -- The core changes no bit of the driver's status but TIMO, SRQI and EVENT.
  pub ibstatus-has :
      (board : Board D) (driver : D) (k : ℕ)
      → board.private_data ≡ some driver
      → (event == k) ≡ false
      → (timo == k) ≡ false
      → (srqi == k) ≡ false
      → has (ibstatus interface board).0 k ≡ has (interface.update_status board 0).0 k
  unfolding ibstatus
  ibstatus-has board driver k h not_event not_timo not_srqi =
      let status = (interface.update_status board 0).0 in
      let lines = iblines interface (interface.update_status board 0).1 in
      simp (h, hardware_status, has-assign, not_event)
        (real_srqi-has (without status timo) k lines not_srqi ∙ simp (has-without, not_timo))

  -- The board that the status word leaves is the one that the driver leaves.
  pub ibstatus-board :
      (board : Board D) (driver : D)
      → board.private_data ≡ some driver
      → (ibstatus interface board).1 ≡ (interface.update_status board 0).1
  unfolding ibstatus
  ibstatus-board board driver h = simp (h, hardware_status)

  -- Without private data the driver is not called.
  pub ibstatus-none :
      (board : Board D) → board.private_data ≡ none → (ibstatus interface board).1 ≡ board
  unfolding ibstatus
  ibstatus-none board h = simp (h, hardware_status)

  -- The status word is computed without a change to the core's buffer, if the driver makes none.
  pub ibstatus-buffer :
      ((board : Board D) (m : ℕ)
        → (interface.update_status board m).1.buffer_length ≡ board.buffer_length)
      → (board : Board D) → (ibstatus interface board).1.buffer_length ≡ board.buffer_length
  unfolding ibstatus
  ibstatus-buffer kept board = ground (arith, kept board 0)
