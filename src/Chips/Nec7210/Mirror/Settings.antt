-- ===== src/Chips/Nec7210/Mirror/Settings.antt =====
-- linux-gpib-kernel/drivers/gpib/nec7210/nec7210.c: the software copies of the registers under each
-- setting and each interrupt.
use linux_gpib.Prelude.{
  ℕ, suc, ◌+◌, ◌-◌, ◌%◌, Bool, true, false, not, ◌&&◌, ◌||◌, ◌≡◌, refl, ap, ◌∙◌, ℤ, pos, negsuc,
  Option, ◌==◌, leb, if◌then◌else◌, has, with, without, assign, merge, has-merge, bits, Bool-cases,
  inl, inr, arith,
}
use linux_gpib.Chips.Nec7210.{
  Irq, Chip, auxmr, aux_fh, aux_nval, hr_cpt, hr_err, hr_dec, hr_det, hr_cic, hr_do, write_byte,
  record_status2, record_input, record_output, record_messages, is_handled,
  nec7210_update_status_nolock, nec7210_interrupt_have_status,
}
use linux_gpib.Chips.Nec7210.Receive.{nec7210_set_handshake_mode, nec7210_release_rfd_holdoff}
use linux_gpib.Chips.Nec7210.Settings.{
  hr_reos, hr_bin, hr_tri, eosr, nec7210_enable_eos, nec7210_disable_eos,
  nec7210_parallel_poll_configure, nec7210_primary_address, nec7210_secondary_address,
  nec7210_take_control, nec7210_go_to_standby, busy_wait, tick_wait, nec7210_request_system_control,
  nec7210_t1_delay, nec7210_board_online,
}
use linux_gpib.Chips.Nec7210.Mirror.{
  writes_a, writes_b, IsMirrored, write-IsMirrored, write_a-IsMirrored, write_b-IsMirrored,
}

-- an auxiliary command, whose upper bits are 0
pub command-IsMirrored :
    (byte : ℕ) (c : Chip) → has byte 7 ≡ false → IsMirrored c → IsMirrored (write_byte byte auxmr c)
command-IsMirrored byte c e h =
    write-IsMirrored byte auxmr c (simp e refl) (simp e refl) refl refl h

pub if-IsMirrored :
    (b : Bool) (x y : Chip) → IsMirrored x → IsMirrored y → IsMirrored (if b then x else y)
if-IsMirrored true x y p q = p
if-IsMirrored false x y p q = q

record_output-IsMirrored : (irq : Irq) (c : Chip) → IsMirrored c → IsMirrored (record_output irq c)
unfolding record_output has
record_output-IsMirrored irq c h =
    let c1 = record c {
      write_ready = has irq.isr1 hr_do || c.write_ready;
      command_ready = has irq.isr2 3 || c.command_ready;
    } in
    let refused = command-IsMirrored aux_nval c1 refl h in
    elim (Bool-cases (has irq.isr1 hr_cpt)) [
      | inl e ↦ elim (Bool-cases (has irq.isr1 hr_err)) [
        | inl e2 ↦ simp (e, e2) refused
        | inr e2 ↦ simp (e, e2) refused
      ]
      | inr e ↦ elim (Bool-cases (has irq.isr1 hr_err)) [
        | inl e2 ↦ simp (e, e2) h
        | inr e2 ↦ simp (e, e2) h
      ]
    ]

record_messages-IsMirrored :
    (irq : Irq) (c : Chip) → IsMirrored c → IsMirrored (record_messages irq c)
unfolding record_messages
record_messages-IsMirrored irq c h =
    let clears = has irq.isr1 hr_dec && not (has irq.adsr hr_cic) in
    elim (Bool-cases clears) [
      | inl e ↦ elim (Bool-cases (has irq.isr1 hr_det)) [
        | inl e2 ↦ simp (e, e2) h
        | inr e2 ↦ simp (e, e2) h
      ]
      | inr e ↦ elim (Bool-cases (has irq.isr1 hr_det)) [
        | inl e2 ↦ simp (e, e2) h
        | inr e2 ↦ simp (e, e2) h
      ]
    ]

-- An interrupt.
pub interrupt-IsMirrored :
    (irq : Irq) (c : Chip) → IsMirrored c → IsMirrored (nec7210_interrupt_have_status irq c).1
unfolding nec7210_interrupt_have_status nec7210_update_status_nolock record_status2 record_input
interrupt-IsMirrored irq c h =
    let c1 = record_input irq (record_status2 irq c) in
    let c2 = record_output irq c1 in
    let c3 = record_messages irq c2 in
    let p = record_messages-IsMirrored irq c2 (record_output-IsMirrored irq c1 h) in
    elim (Bool-cases (is_handled irq c3)) [ inl e ↦ simp e p | inr e ↦ simp e p ]

-- the bits of a byte above the two lowest ones
high_bit : (x m k : ℕ) → has (x - x % 4 + m % 4) (suc (suc k)) ≡ has x (suc (suc k))
unfolding has
high_bit x m k = ap (λ y. has y k) (omega arith)

writes_a-mode : (x m : ℕ) → writes_a (x - x % 4 + m % 4) ≡ writes_a x
writes_a-mode x m = simp (high_bit x m 5, high_bit x m 4, high_bit x m 3) refl

-- a change of the handshake mode
pub handshake-IsMirrored :
    (mode : ℕ) (c : Chip) → IsMirrored c → IsMirrored (nec7210_set_handshake_mode mode c)
unfolding nec7210_set_handshake_mode
handshake-IsMirrored mode c h =
    let bits = c.auxa_bits - c.auxa_bits % 4 + mode % 4 in
    let (_, _, _, _, wa, _) = h in
    elim (Bool-cases (c.auxa_bits % 4 == mode % 4)) [
      | inl e ↦ simp e h
      | inr e ↦ simp e (write_a-IsMirrored bits c (writes_a-mode c.auxa_bits mode ∙ wa) h)
    ]

pub release-IsMirrored : (c : Chip) → IsMirrored c → IsMirrored (nec7210_release_rfd_holdoff c)
unfolding nec7210_release_rfd_holdoff has
release-IsMirrored c h =
    let p = command-IsMirrored aux_fh c refl h in
    elim (Bool-cases (c.rfd_holdoff && not c.read_ready)) [ inl e ↦ simp e p | inr e ↦ simp e h ]

-- a byte for AUXMR with bit 6, which is for neither register
upper-IsMirrored :
    (byte : ℕ) (c : Chip) → has byte 6 ≡ true → IsMirrored c → IsMirrored (write_byte byte auxmr c)
upper-IsMirrored byte c e h = elim (Bool-cases (has byte 7)) [
  | inl e7 ↦ write-IsMirrored byte auxmr c (simp (e7, e) refl) (simp (e7, e) refl) refl refl h
  | inr e7 ↦ command-IsMirrored byte c e7 h
]

writes_a-eos : (x : ℕ) (b : Bool) → writes_a (assign (with x hr_reos) hr_bin b) ≡ writes_a x
writes_a-eos x b = simp bits refl

pub enable_eos-IsMirrored :
    (byte : ℕ) (all_bits : Bool) (c : Chip)
    → IsMirrored c
    → IsMirrored (nec7210_enable_eos byte all_bits c).1
unfolding nec7210_enable_eos
enable_eos-IsMirrored byte all_bits c h =
    let (_, _, _, _, wa, _) = h in
    write_a-IsMirrored (assign (with c.auxa_bits hr_reos) hr_bin all_bits) (write_byte byte eosr c)
      (writes_a-eos c.auxa_bits all_bits ∙ wa) (write-IsMirrored byte eosr c refl refl refl refl h)

pub disable_eos-IsMirrored : (c : Chip) → IsMirrored c → IsMirrored (nec7210_disable_eos c)
unfolding nec7210_disable_eos
disable_eos-IsMirrored c h =
    let (_, _, _, _, wa, _) = h in
    let same : writes_a (without c.auxa_bits hr_reos) ≡ writes_a c.auxa_bits = simp bits refl in
    write_a-IsMirrored (without c.auxa_bits hr_reos) c (same ∙ wa) h

pub parallel_poll_configure-IsMirrored :
    (configuration : ℕ) (c : Chip)
    → IsMirrored c
    → IsMirrored (nec7210_parallel_poll_configure configuration c)
unfolding nec7210_parallel_poll_configure has
parallel_poll_configure-IsMirrored configuration c h =
    upper-IsMirrored (merge 8 0x60 configuration) c (has-merge 8 0x60 configuration 6) h

-- a choice of two auxiliary commands
pub choice-IsMirrored :
    (b : Bool) (x y : ℕ) (c : Chip)
    → has x 7 ≡ false
    → has y 7 ≡ false
    → IsMirrored c
    → IsMirrored (write_byte (if b then x else y) auxmr c)
choice-IsMirrored true x y c p q h = command-IsMirrored x c p h
choice-IsMirrored false x y c p q h = command-IsMirrored y c q h

pub secondary_address-IsMirrored :
    (address : ℕ) (enable : Bool) (c : Chip)
    → IsMirrored c
    → IsMirrored (nec7210_secondary_address address enable c).1
unfolding nec7210_secondary_address write_byte
secondary_address-IsMirrored address enable c h = h

pub t1_delay-IsMirrored :
    (nano_sec : ℕ) (c : Chip) → IsMirrored c → IsMirrored (nec7210_t1_delay nano_sec c).1
unfolding nec7210_t1_delay
t1_delay-IsMirrored nano_sec c h =
    let (_, _, _, _, _, wb) = h in
    let short = leb nano_sec 500 in
    let same : writes_b (assign c.auxb_bits hr_tri short) ≡ writes_b c.auxb_bits = simp bits refl in
    write_b-IsMirrored (assign c.auxb_bits hr_tri short) c (same ∙ wb) h

pub take_control-IsMirrored :
    (syncronous : Bool) (adsr : ℕ → ℕ) (c : Chip)
    → IsMirrored c
    → IsMirrored (nec7210_take_control syncronous adsr c).1
unfolding nec7210_take_control has
take_control-IsMirrored syncronous adsr c h =
    let p = choice-IsMirrored syncronous 0x12 0x11 c refl refl h in
    elim (Bool-cases (busy_wait false 100 0 adsr)) [ inl e ↦ simp e p | inr e ↦ simp e p ]

-- the end of the second loop
woken-IsMirrored :
    (r : ℤ) (x y : Chip)
    → IsMirrored x
    → IsMirrored y
    → let ended : ℤ × Chip = elim r [ pos n ↦ (pos n, x) | negsuc e ↦ (negsuc e, y) ] in
      IsMirrored ended.1
woken-IsMirrored (pos n) x y p q = p
woken-IsMirrored (negsuc e) x y p q = q

pub go_to_standby-IsMirrored :
    (hz : ℕ) (adsr : ℕ → ℕ) (ticks : ℕ → Option ℕ) (c : Chip)
    → IsMirrored c
    → IsMirrored (nec7210_go_to_standby hz adsr ticks c).1
unfolding nec7210_go_to_standby has
go_to_standby-IsMirrored hz adsr ticks c h =
    let p = command-IsMirrored 0x10 c refl h in
    let c' = write_byte 0x10 auxmr c in
    elim (Bool-cases (busy_wait true 1000 0 adsr)) [
      | inl e ↦ simp e p
      | inr e ↦
          simp e
            (woken-IsMirrored (tick_wait hz 0 ticks) (record c' { command_ready = false }) c' p p)
    ]

pub request_system_control-IsMirrored :
    (request : Bool) (c : Chip)
    → IsMirrored c
    → IsMirrored (nec7210_request_system_control request c).1
unfolding nec7210_request_system_control has
request_system_control-IsMirrored true c h = h
request_system_control-IsMirrored false c h =
    let c1 = write_byte 0x17 auxmr c in
    let c2 = write_byte 0x16 auxmr c1 in
    command-IsMirrored 0x14 c2 refl
      (command-IsMirrored 0x16 c1 refl (command-IsMirrored 0x17 c refl h))

pub board_online-IsMirrored :
    (pad : ℕ) (sad : ℤ) (c : Chip) → IsMirrored c → IsMirrored (nec7210_board_online pad sad c)
unfolding nec7210_board_online nec7210_primary_address nec7210_secondary_address write_byte has
board_online-IsMirrored pad sad c (ra, rb, _, _, wa, wb) = (ra, rb, refl, refl, wa, wb)
