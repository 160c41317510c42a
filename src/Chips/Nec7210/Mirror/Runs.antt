-- ===== src/Chips/Nec7210/Mirror/Runs.antt =====
-- linux-gpib-kernel/drivers/gpib/nec7210/nec7210.c: the software copies of the registers from the
-- reset on, over every order of calls and
-- interrupts.
use linux_gpib.Prelude.{
  ℕ, ◌%◌, Bool, false, ◌≡◌, refl, ℤ, Option, List, inl, inr, if◌then◌else◌, has, without,
}
use mathlib.Core.Path.{subst}
use linux_gpib.Uapi.Status.{spoll, request_service_bit}
use linux_gpib.Chips.Nec7210.{Irq, Chip, auxmr, write_byte, nec7210_interrupt_have_status}
use linux_gpib.Chips.Nec7210.Waiting.{Arrival, wait_until}
use linux_gpib.Chips.Nec7210.Transfer.{done, nec7210_write}
use linux_gpib.Chips.Nec7210.Command.{nec7210_command}
use linux_gpib.Chips.Nec7210.Receive.{
  nec7210_read, nec7210_set_handshake_mode, nec7210_release_rfd_holdoff,
}
use linux_gpib.Chips.Nec7210.Settings.{
  spmr, adr, nec7210_enable_eos, nec7210_disable_eos, nec7210_parallel_poll_configure,
  nec7210_parallel_poll_response, nec7210_serial_poll_response, nec7210_primary_address,
  nec7210_secondary_address, nec7210_take_control, nec7210_go_to_standby,
  nec7210_request_system_control, nec7210_interface_clear, nec7210_remote_enable, nec7210_t1_delay,
  nec7210_return_to_local, nec7210_board_online, nec7210_board_reset, nec7210_parallel_poll,
}
use linux_gpib.Chips.Nec7210.Mirror.{IsMirrored, write-IsMirrored, reset-IsMirrored}
use linux_gpib.Chips.Nec7210.Mirror.Transfers.{
  EndsMirrored, LeavesMirrored, WaitEnd-cases, wait_until-EndsMirrored,
  nec7210_command-LeavesMirrored, nec7210_read-LeavesMirrored,
}
use linux_gpib.Chips.Nec7210.Mirror.Writes.{nec7210_write-LeavesMirrored}
use linux_gpib.Chips.Nec7210.Mirror.Settings.{
  command-IsMirrored, choice-IsMirrored, interrupt-IsMirrored, handshake-IsMirrored,
  release-IsMirrored, enable_eos-IsMirrored, disable_eos-IsMirrored,
  parallel_poll_configure-IsMirrored, secondary_address-IsMirrored, t1_delay-IsMirrored,
  take_control-IsMirrored, go_to_standby-IsMirrored, request_system_control-IsMirrored,
  board_online-IsMirrored,
}

-- The settings that are applied to a chip, and the interrupts that come between them.
pub data Setting : Type 0 where
  enable_eos : ℕ → Bool → Setting
  disable_eos : Setting
  parallel_poll_configure : ℕ → Setting
  parallel_poll_response : Bool → Setting
  serial_poll_response : ℕ → Setting
  primary_address : ℕ → Setting
  secondary_address : ℕ → Bool → Setting
  take_control : Bool → (ℕ → ℕ) → Setting
  go_to_standby : ℕ → (ℕ → ℕ) → (ℕ → Option ℕ) → Setting
  request_system_control : Bool → Setting
  interface_clear : Bool → Setting
  remote_enable : Bool → Setting
  t1_delay : ℕ → Setting
  return_to_local : Setting
  set_handshake_mode : ℕ → Setting
  release_rfd_holdoff : Setting
  board_online : ℕ → ℤ → Setting
  take_interrupt : Irq → Setting

unfoldable pub apply : Setting → Chip → Chip
apply (enable_eos byte all_bits) c = (nec7210_enable_eos byte all_bits c).1
apply disable_eos c = nec7210_disable_eos c
apply (parallel_poll_configure configuration) c = nec7210_parallel_poll_configure configuration c
apply (parallel_poll_response ist) c = nec7210_parallel_poll_response ist c
apply (serial_poll_response status) c = nec7210_serial_poll_response status c
apply (primary_address address) c = (nec7210_primary_address address c).1
apply (secondary_address address enable) c = (nec7210_secondary_address address enable c).1
apply (take_control syncronous adsr) c = (nec7210_take_control syncronous adsr c).1
apply (go_to_standby hz adsr ticks) c = (nec7210_go_to_standby hz adsr ticks c).1
apply (request_system_control request) c = (nec7210_request_system_control request c).1
apply (interface_clear assert) c = nec7210_interface_clear assert c
apply (remote_enable enable) c = nec7210_remote_enable enable c
apply (t1_delay nano_sec) c = (nec7210_t1_delay nano_sec c).1
apply return_to_local c = nec7210_return_to_local c
apply (set_handshake_mode mode) c = nec7210_set_handshake_mode mode c
apply release_rfd_holdoff c = nec7210_release_rfd_holdoff c
apply (board_online pad sad) c = nec7210_board_online pad sad c
apply (take_interrupt irq) c = (nec7210_interrupt_have_status irq c).1

apply-IsMirrored : (setting : Setting) (c : Chip) → IsMirrored c → IsMirrored (apply setting c)
unfolding apply has nec7210_parallel_poll_response nec7210_serial_poll_response
    nec7210_primary_address nec7210_interface_clear nec7210_remote_enable nec7210_return_to_local
apply-IsMirrored (enable_eos byte all_bits) c h = enable_eos-IsMirrored byte all_bits c h
apply-IsMirrored disable_eos c h = disable_eos-IsMirrored c h
apply-IsMirrored (parallel_poll_configure configuration) c h =
    parallel_poll_configure-IsMirrored configuration c h
apply-IsMirrored (parallel_poll_response ist) c h = choice-IsMirrored ist 0x9 0x1 c refl refl h
apply-IsMirrored (serial_poll_response status) c h =
    write-IsMirrored status spmr
      (record c {
        srq_pending = has status request_service_bit;
        status = if has status request_service_bit then without c.status spoll else c.status;
      })
      refl refl refl refl h
apply-IsMirrored (primary_address address) c h =
    write-IsMirrored (address % 32) adr c refl refl refl refl h
apply-IsMirrored (secondary_address address enable) c h =
    secondary_address-IsMirrored address enable c h
apply-IsMirrored (take_control syncronous adsr) c h = take_control-IsMirrored syncronous adsr c h
apply-IsMirrored (go_to_standby hz adsr ticks) c h = go_to_standby-IsMirrored hz adsr ticks c h
apply-IsMirrored (request_system_control request) c h =
    request_system_control-IsMirrored request c h
apply-IsMirrored (interface_clear assert) c h = choice-IsMirrored assert 0x1e 0x16 c refl refl h
apply-IsMirrored (remote_enable enable) c h = choice-IsMirrored enable 0x1f 0x17 c refl refl h
apply-IsMirrored (t1_delay nano_sec) c h = t1_delay-IsMirrored nano_sec c h
apply-IsMirrored return_to_local c h = command-IsMirrored 0x5 c refl h
apply-IsMirrored (set_handshake_mode mode) c h = handshake-IsMirrored mode c h
apply-IsMirrored release_rfd_holdoff c h = release-IsMirrored c h
apply-IsMirrored (board_online pad sad) c h = board_online-IsMirrored pad sad c h
apply-IsMirrored (take_interrupt irq) c h = interrupt-IsMirrored irq c h

-- One call of the library that returns, or an interrupt, with what happens while it waits.
pub data Step (c : Chip) : Chip → Type 0 where
  set : (setting : Setting) → Step c (apply setting c)
  polled :
      {r : ℤ × ℕ} {c' : Chip} {later' : List Arrival} (cptr : ℕ) (later : List Arrival)
      → nec7210_parallel_poll cptr later c ≡ done r c' later'
      → Step c c'
  commanded :
      {r : ℤ × ℕ} {c' : Chip} {later' : List Arrival} (buffer : List ℕ) (later : List Arrival)
      → nec7210_command buffer later c ≡ done r c' later'
      → Step c c'
  read :
      {r : ℤ × List ℕ × Bool} {c' : Chip} {later' : List Arrival} (fuel size : ℕ)
      (later : List Arrival)
      → nec7210_read fuel size later c ≡ done r c' later'
      → Step c c'
  written :
      {r : ℤ × ℕ} {c' : Chip} {later' : List Arrival} (fuel : ℕ) (buffer : List ℕ) (send_eoi : Bool)
      (later : List Arrival)
      → nec7210_write fuel buffer send_eoi later c ≡ done r c' later'
      → Step c c'

-- Steps one after the other.
pub data Run (start : Chip) : Chip → Type 0 where
  nothing : Run start start
  after : {c c' : Chip} → Run start c → Step c c' → Run start c'

parallel_poll-LeavesMirrored :
    (cptr : ℕ) (later : List Arrival) (c : Chip)
    → IsMirrored c
    → LeavesMirrored (nec7210_parallel_poll cptr later c)
unfolding nec7210_parallel_poll has
parallel_poll-LeavesMirrored cptr later c h =
    let started = write_byte 0x1d auxmr (record c { command_ready = false }) in
    let w =
      wait_until-EndsMirrored (λ x. x.command_ready) later started
        (command-IsMirrored 0x1d (record c { command_ready = false }) refl h) in
    elim (WaitEnd-cases (wait_until (λ x. x.command_ready) later started)) [
      | inl e ↦ simp (nec7210_parallel_poll, e) tt
      | inr (inl (c', later', e)) ↦ simp (nec7210_parallel_poll, e) (subst EndsMirrored e w)
      | inr (inr (c', later', e)) ↦ simp (nec7210_parallel_poll, e) (subst EndsMirrored e w)
    ]

Step-IsMirrored : {c c' : Chip} → Step c c' → IsMirrored c → IsMirrored c'
Step-IsMirrored (set setting) h = apply-IsMirrored setting _ h
Step-IsMirrored (polled cptr later e) h =
    subst LeavesMirrored e (parallel_poll-LeavesMirrored cptr later _ h)
Step-IsMirrored (commanded buffer later e) h =
    subst LeavesMirrored e (nec7210_command-LeavesMirrored buffer later _ h)
Step-IsMirrored (read fuel size later e) h =
    subst LeavesMirrored e (nec7210_read-LeavesMirrored fuel size later _ h)
Step-IsMirrored (written fuel buffer send_eoi later e) h =
    subst LeavesMirrored e (nec7210_write-LeavesMirrored fuel buffer send_eoi later _ h)

Run-IsMirrored : {start c : Chip} → Run start c → IsMirrored start → IsMirrored c
Run-IsMirrored nothing h = h
Run-IsMirrored (after run step) h = Step-IsMirrored step (Run-IsMirrored run h)

-- After a reset and any settings, interrupts, polls, commands, reads and writes that return, in any
-- order, the copies of auxiliary registers A and B and of both interrupt masks are what was last
-- written to the chip's registers, and would go to the right auxiliary register again.
pub nec7210_board_reset-IsMirrored : (c c' : Chip) → Run (nec7210_board_reset c) c' → IsMirrored c'
nec7210_board_reset-IsMirrored c c' run = Run-IsMirrored run (reset-IsMirrored c)
