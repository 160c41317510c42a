-- ===== src/Kernel/Poll/Laws.antt =====
-- What a serial poll does to the timer, to the stored bytes and to its caller.
use linux_gpib.Prelude.{
  ℕ, suc, ◌+◌, ◌≤◌, ◌≡◌, refl, ap, ◌∙◌, Bool, true, false, not, arith, ℤ, pos, negsuc, is_neg,
  Option, none, some, List, [], ◌∷◌, List-cases, inl, inr, ◌⊎◌, ◌↔◌, ◌&&◌, zero, has, length,
  length-append, if◌then◌else◌, ◌==◌,
}
use linux_gpib.Uapi.Status.{cic}
use linux_gpib.Kernel.Types.{Board, Interface, StatusQueue}
use linux_gpib.Kernel.Timer.{os_remove_timer}
use linux_gpib.Kernel.Ibstatus.{ibstatus}
use linux_gpib.Kernel.Control.{ibgts}
use linux_gpib.Kernel.StatusQueue.{push_status_byte, pop_status_byte}
use linux_gpib.Kernel.StatusQueue.Spec.{pop_byte}
use linux_gpib.Kernel.StatusQueue.Fifo.{IsValid, push_refines, pop_refines}
use linux_gpib.Kernel.Devices.{get_gpib_status_queue, replace_status_queue}
use linux_gpib.Kernel.Poll.{
  keep_result, poll_devices, setup_serial_poll, read_serial_poll_byte, read_poll_result,
  cleanup_serial_poll, serial_poll_single, bad_poll_address, dvrsp, get_serial_poll_byte,
  send_poll_command, talk_string,
}

module _ {D : Type 0} (interface : Interface D) where
  remove_timer-pending : (board : Board D) → (os_remove_timer board).timer_pending ≡ false
  unfolding os_remove_timer
  remove_timer-pending board = ground arith

  send_failed-pending :
      (board : Board D) (usec_timeout : ℕ) (cmd_string : List ℕ)
      → let (ret, board') = send_poll_command interface board usec_timeout cmd_string in
        is_neg ret ≡ true → board'.timer_pending ≡ false
  unfolding send_poll_command
  send_failed-pending board usec_timeout cmd_string = grind (arith, remove_timer-pending)

  read_result-pending :
      (board : Board D) → (read_poll_result interface board).2.timer_pending ≡ false
  unfolding read_poll_result
  read_result-pending board = elim (List-cases (interface.read (ibgts interface board).1 1).2) [
    | inl e ↦ simp (e, read_poll_result) (remove_timer-pending _)
    | inr (byte, bytes, e) ↦ simp (e, read_poll_result) (remove_timer-pending _)
  ]

  -- A step of a serial poll that is over leaves no timer running, whether it succeeded or not
  -- and whatever the driver does.
  pub poll_timer :
      (board : Board D) (pad : ℕ) (sad : ℤ) (usec_timeout : ℕ)
      → ((setup_serial_poll interface board usec_timeout).1.timer_pending ≡ false)
        × ((read_serial_poll_byte interface board pad sad usec_timeout).2.timer_pending ≡ false)
        × ((cleanup_serial_poll interface board usec_timeout).1.timer_pending ≡ false)
  unfolding setup_serial_poll read_serial_poll_byte cleanup_serial_poll
  poll_timer board pad sad usec_timeout = (
    grind (arith, remove_timer-pending, send_failed-pending),
    grind (arith, read_result-pending, send_failed-pending),
    grind (arith, remove_timer-pending, send_failed-pending),
  )

  read_poll-value :
      (board : Board D) (pad : ℕ) (sad : ℤ) (usec_timeout : ℕ)
      → let (retval, result, board') = read_serial_poll_byte interface board pad sad usec_timeout in
        is_neg retval ≡ false → retval ≡ pos 0
  unfolding read_serial_poll_byte read_poll_result
  read_poll-value board pad sad usec_timeout =
      elim (List-cases
        (interface.read
          (ibgts interface
            (send_poll_command interface board usec_timeout (talk_string pad sad)).1).1
          1).2) [
            | inl e ↦ simp (e, read_poll_result) (grind arith)
            | inr (byte, bytes, e) ↦ simp (e, read_poll_result) (grind arith)
          ]

  -- A single serial poll fails exactly if the set-up or the read of the poll byte fails, and then
  -- with its value; a failure of the clean-up is not reported.
  pub serial_poll_single_retval :
      (board : Board D) (pad : ℕ) (sad : ℤ) (usec_timeout : ℕ)
      → let (setup, board1) = setup_serial_poll interface board usec_timeout in
        let (read, byte, board2) = read_serial_poll_byte interface board1 pad sad usec_timeout in
        let (retval, result, board') = serial_poll_single interface board pad sad usec_timeout in
        (is_neg setup ≡ true → retval ≡ setup)
        × (is_neg setup ≡ false → is_neg read ≡ true → retval ≡ read)
        × (is_neg setup ≡ false → is_neg read ≡ false → (retval ≡ pos 0) × (result ≡ byte))
  unfolding serial_poll_single
  serial_poll_single_retval board pad sad usec_timeout = (
    λ s. simp s,
    λ s r. simp (s, r),
    λ s r.
        simp (s, r)
          (ground (
            arith,
            read_poll-value (setup_serial_poll interface board usec_timeout).1 pad sad usec_timeout
                r,
          )),
  )

  -- A serial poll of a device is refused with -1, and nothing is sent, unless the board is
  -- controller in charge and the address is one that a device can have: a primary address up to
  -- 30, and a secondary one up to 31 or -1 for none.
  pub dvrsp_refused :
      (board : Board D) (pad : ℕ) (sad : ℤ) (usec_timeout : ℕ)
      → let (status, board1) = ibstatus interface board in
        (has status cic && not (bad_poll_address pad sad)) ≡ false
        → dvrsp interface board pad sad usec_timeout ≡ (negsuc 0, none, board1)
  unfolding dvrsp
  dvrsp_refused board pad sad usec_timeout h = ground (arith, h)

-- The addresses that `dvrsp` accepts.
pub bad_poll_address_iff :
    (pad : ℕ) (sad : ℤ)
    → bad_poll_address pad sad ≡ false
      ↔ (pad ≤ 30) × ((sad ≡ negsuc 0) ⊎ ((n : ℕ) × (sad ≡ pos n) × (n ≤ 31)))
unfolding bad_poll_address
bad_poll_address_iff pad (pos n) = (
  λ h. (ground (arith, h), inr (n, refl, ground (arith, h))),
  λ h.
      let (p, ok) = h in
      elim ok [
        | inl e ↦ absurd cc
        | inr (m, e, b) ↦ let same : n ≡ m = cc in ground (arith, p, b, same)
      ],
)
bad_poll_address_iff pad (negsuc zero) =
    (λ h. (ground (arith, h), inl refl), λ h. ground (arith, h))
bad_poll_address_iff pad (negsuc (suc n)) = (
  λ h. absurd (ground (arith, h)),
  λ h. let (p, ok) = h in elim ok [ inl e ↦ absurd cc | inr (m, e, b) ↦ absurd cc ],
)

-- All queues of a list are valid.
abbrev pub AllValid : List StatusQueue → Type 0
AllValid [] = Unit {0}
AllValid (d ∷ ds) = IsValid d × AllValid ds

-- how many bytes the queues of a list hold
abbrev pub stored : List StatusQueue → ℕ
stored [] = 0
stored (d ∷ ds) = length d.status_bytes + stored ds

-- the addresses of a list, with the number of handles open on each
abbrev pub same_devices : List StatusQueue → List (ℕ × ℤ × ℕ)
same_devices [] = []
same_devices (d ∷ ds) = (d.pad, d.sad, d.reference_count) ∷ same_devices ds

push_kept :
    (alloc : Bool) (d : StatusQueue) (byte : ℕ)
    → IsValid d
    → let (retval, d') = push_status_byte alloc d byte in
      (length d'.status_bytes ≡ length d.status_bytes + (if is_neg retval then 0 else 1))
      × (d'.pad ≡ d.pad)
      × (d'.sad ≡ d.sad)
      × (d'.reference_count ≡ d.reference_count)
unfolding push_status_byte
push_kept alloc d byte v = ground (arith, v.counted, length-append d.status_bytes (byte ∷ []))

keep_result_lem :
    (alloc : Bool) (d : StatusQueue) (retval : ℤ) (result : Option ℕ)
    → IsValid d
    → let (pushed, d') = keep_result alloc d (retval, result) in
      IsValid d'
      × (length d'.status_bytes ≡ length d.status_bytes + pushed)
      × (d'.pad ≡ d.pad)
      × (d'.sad ≡ d.sad)
      × (d'.reference_count ≡ d.reference_count)
unfolding keep_result
keep_result_lem alloc d retval none v = (v, omega arith, refl, refl, refl)
keep_result_lem alloc d retval (some result) v =
    let (_, v') = push_refines alloc d result v in ground (arith, v, v', push_kept alloc d result v)

module _ {D : Type 0} (interface : Interface D) where
  -- The loop of `serial_poll_all` over valid queues counts the bytes that it stores, keeps the
  -- queues valid and within their limit, and changes no address and no count of handles.
  pub poll_devices_lem :
      (alloc : ℕ → Bool) (board : Board D) (usec_timeout : ℕ) (devices : List StatusQueue)
      → AllValid devices
      → let (num_bytes, devices', board') =
          poll_devices interface alloc board usec_timeout devices in
        AllValid devices'
        × (stored devices' ≡ stored devices + num_bytes)
        × (same_devices devices' ≡ same_devices devices)
  unfolding poll_devices
  poll_devices_lem alloc board usec_timeout [] v = (tt, omega arith, refl)
  poll_devices_lem alloc board usec_timeout (d ∷ ds) (v, vs) =
      let (retval, result, board1) =
        read_serial_poll_byte interface board d.pad d.sad usec_timeout in
      let (v', more, p, s, r) = keep_result_lem (alloc 0) d retval result v in
      let (vs', more', same) = poll_devices_lem (λ n. alloc (suc n)) board1 usec_timeout ds vs in
      ((v', vs'), omega (arith, more, more'), simp (p, s, r, same))

  -- A byte that is stored for an address is handed out, the oldest first, without a poll of the
  -- device, so that the board is changed only in its list of devices.
  pub get_serial_poll_byte_stored :
      (board : Board D) (pad : ℕ) (sad : ℤ) (usec_timeout : ℕ) (queue : StatusQueue) (byte : ℕ)
      (bytes : List ℕ)
      → get_gpib_status_queue board.device_list pad sad ≡ some queue
      → IsValid queue
      → queue.status_bytes ≡ byte ∷ bytes
      → let (retval, result, board') = get_serial_poll_byte interface board pad sad usec_timeout in
        (retval ≡ pos 0)
        × (result ≡ some byte)
        × (board' ≡ record board { device_list = board'.device_list })
        × ((queue' : StatusQueue) × (board'.device_list
              ≡ replace_status_queue board.device_list pad sad queue')
            × (queue'.status_bytes ≡ bytes)
            × IsValid queue')
  unfolding get_serial_poll_byte pop_byte
  get_serial_poll_byte_stored board pad sad usec_timeout queue byte bytes e v s =
      let (answer, v') = pop_refines queue v in
      let nonempty : (queue.num_status_bytes == 0) ≡ false =
        ground (arith, v.counted, ap length s) in
      simp (e, nonempty, get_serial_poll_byte)
        (
          ap (λ r. r.0) answer ∙ simp s,
          ap (λ r. r.1) answer ∙ simp s,
          refl,
          ((pop_status_byte queue).2, refl, ap (λ r. r.2) answer ∙ simp s, v'),
        )
