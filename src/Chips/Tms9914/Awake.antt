-- ===== src/Chips/Tms9914/Awake.antt =====
-- linux-gpib-kernel/drivers/gpib/tms9914/tms9914.c: where a signal comes, no wait of a read sleeps
-- for ever.
use linux_gpib.Prelude.{
  ℕ, zero, suc, ◌-◌, ◌%◌, Bool, true, false, not, ◌&&◌, ◌||◌, ◌≡◌, refl, ◌∙◌, is_neg, List, [], ◌∷◌,
  ltb, ◌==◌, if◌then◌else◌, length, has, Bool-cases, inl, inr, arith,
}
use linux_gpib.Uapi.Status.{timo, reos}
use linux_gpib.Chips.Tms9914.{
  holdoff_all, holdoff_eoi, HoldoffMode, Irq, Tms, Arrival, interrupt, timer, signal, write_byte,
  set_ppoll_reg, tms9914_parallel_poll_configure, update_status_nolock,
}
use linux_gpib.Chips.Tms9914.Registers.{auxcr, aux_gts, hr_atn}
use linux_gpib.Chips.Tms9914.Interrupts.{
  record_bytes, record_spas, record_address, unknown_command, record_unknown, record_faults,
  record_messages, tms9914_interrupt_have_status,
}
use linux_gpib.Chips.Tms9914.Waiting.{fire, sleep, wait_until}
use linux_gpib.Chips.Tms9914.Settings.{
  read_adsr, busy_wait, tms9914_set_holdoff_mode, tms9914_release_holdoff, tms9914_go_to_standby,
  tms9914_update_status,
}
use linux_gpib.Chips.Tms9914.Transfer.{
  read_condition, wait_for_read_byte, tms9914_read_data_in, check_for_eos, pio_read, read_first,
  tms9914_read,
}

-- a signal is among what is still to happen
abbrev pub is_signalled : List Arrival → Bool
is_signalled [] = false
is_signalled (signal ∷ later) = true
is_signalled (timer ∷ later) = is_signalled later
is_signalled (interrupt irq ∷ later) = is_signalled later

-- No sleep has lasted for ever, and none will.
abbrev pub IsAwake : Tms → Type 0
IsAwake c = (c.asleep ≡ false) × (is_signalled c.later ≡ true)

configure-asleep :
    (config : ℕ) (c : Tms) → (tms9914_parallel_poll_configure config c).asleep ≡ c.asleep
unfolding tms9914_parallel_poll_configure set_ppoll_reg
configure-asleep config c = ground arith

unknown_command-asleep :
    (command_byte : ℕ) (c : Tms) → (unknown_command command_byte c).asleep ≡ c.asleep
unfolding unknown_command
unknown_command-asleep command_byte c = ground (arith, configure-asleep command_byte c)

record_unknown-asleep : (irq : Irq) (c : Tms) → (record_unknown irq c).asleep ≡ c.asleep
unfolding record_unknown
record_unknown-asleep irq c = ground (arith, unknown_command-asleep (c.cptr % 128) c)

first_records-asleep :
    (irq : Irq) (c : Tms)
    → (record_address irq (record_spas irq (record_bytes irq c))).asleep ≡ c.asleep
unfolding record_address record_spas record_bytes
first_records-asleep irq c = ground arith

last_records-asleep :
    (irq : Irq) (c : Tms) → (record_messages irq (record_faults irq c)).asleep ≡ c.asleep
unfolding record_messages record_faults
last_records-asleep irq c = ground arith

interrupt-asleep : (irq : Irq) (c : Tms) → (tms9914_interrupt_have_status irq c).1.asleep ≡ c.asleep
unfolding tms9914_interrupt_have_status update_status_nolock
interrupt-asleep irq c =
    let c0 = record c { adsr = irq.adsr; bsr = irq.bsr; cptr = irq.cptr; dir = irq.dir } in
    let c1 = record_address irq (record_spas irq (record_bytes irq c0)) in
    let c2 = record_unknown irq c1 in
    ground
      (arith, first_records-asleep irq c0, record_unknown-asleep irq c1, last_records-asleep irq c2)

sleep-IsAwake :
    (condition : Tms → Bool) (later : List Arrival) (c : Tms)
    → c.asleep ≡ false
    → is_signalled later ≡ true
    → IsAwake (sleep condition later c).1
unfolding sleep fire
sleep-IsAwake condition [] c awake comes = absurd cc
sleep-IsAwake condition (signal ∷ later) c awake comes = (awake, refl)
sleep-IsAwake condition (timer ∷ later) c awake comes =
    let same : (fire c).asleep ≡ c.asleep = ground arith in
    let rest = sleep-IsAwake condition later (fire c) (same ∙ awake) comes in
    elim (Bool-cases (condition (fire c))) [
      | inl e ↦ simp e (same ∙ awake, comes)
      | inr e ↦ simp e rest
    ]
sleep-IsAwake condition (interrupt irq ∷ later) c awake comes =
    let (handled, c') = tms9914_interrupt_have_status irq c in
    let still = interrupt-asleep irq c ∙ awake in
    let rest = sleep-IsAwake condition later c' still comes in
    elim (Bool-cases (handled && condition c')) [
      | inl e ↦ simp e (still, comes)
      | inr e ↦ simp e rest
    ]

wait_until-IsAwake :
    (condition : Tms → Bool) (c : Tms) → IsAwake c → IsAwake (wait_until condition c).1
unfolding wait_until
wait_until-IsAwake condition c (awake, comes) = elim (Bool-cases (condition c)) [
  | inl e ↦ simp e (awake, comes)
  | inr e ↦ simp e (sleep-IsAwake condition c.later c awake comes)
]

wait_for_read_byte-IsAwake : (c : Tms) → IsAwake c → IsAwake (wait_for_read_byte c).1
unfolding wait_for_read_byte
wait_for_read_byte-IsAwake c h =
    let (is_signal, c') = wait_until read_condition c in
    let k = wait_until-IsAwake read_condition c h in
    elim (Bool-cases is_signal) [
      | inl e ↦ simp e k
      | inr e ↦ elim (Bool-cases (has c'.status timo)) [
        | inl e2 ↦ simp (e, e2) k
        | inr e2 ↦ elim (Bool-cases c'.dev_clear) [
          | inl e3 ↦ simp (e, e2, e3) k
          | inr e3 ↦ simp (e, e2, e3) k
        ]
      ]
    ]

release-IsAwake : (c : Tms) → IsAwake c → IsAwake (tms9914_release_holdoff c)
unfolding tms9914_release_holdoff
release-IsAwake c h = elim (Bool-cases c.holdoff_active) [ inl e ↦ simp e h | inr e ↦ simp e h ]

pio_read-IsAwake : (size : ℕ) (c : Tms) → IsAwake c → IsAwake (pio_read size c).3
unfolding pio_read tms9914_read_data_in
pio_read-IsAwake zero c h = h
pio_read-IsAwake (suc size) c h =
    let released = tms9914_release_holdoff c in
    let (retval, c1) = wait_for_read_byte released in
    let k = wait_for_read_byte-IsAwake released (release-IsAwake c h) in
    let (byte, end, c2) = tms9914_read_data_in c1 in
    let rest = pio_read-IsAwake size c2 k in
    elim (Bool-cases (is_neg retval)) [
      | inl e ↦ simp e k
      | inr e ↦ elim (Bool-cases (end || check_for_eos byte c2)) [
        | inl e2 ↦ simp (e, e2) k
        | inr e2 ↦ simp (e, e2) rest
      ]
    ]

mode-IsAwake :
    (mode : HoldoffMode) (c : Tms) → IsAwake c → IsAwake (tms9914_set_holdoff_mode mode c)
unfolding tms9914_set_holdoff_mode
mode-IsAwake mode c h = h

read_first-IsAwake : (size : ℕ) (c : Tms) → IsAwake c → IsAwake (read_first size c).3
unfolding read_first
read_first-IsAwake size c h =
    let mode = if has c.eos_flags reos then holdoff_all else holdoff_eoi in
    let part =
      pio_read-IsAwake (size - 1) (tms9914_set_holdoff_mode mode c) (mode-IsAwake mode c h) in
    elim (Bool-cases (ltb 1 size)) [ inl e ↦ simp e part | inr e ↦ simp e h ]

-- A read of a chip to which a signal comes leaves it awake.
pub tms9914_read-IsAwake : (size : ℕ) (c : Tms) → IsAwake c → IsAwake (tms9914_read size c).3
unfolding tms9914_read
tms9914_read-IsAwake size c h =
    let c0 = record c { dev_clear = false } in
    let (r1, end1, first, c1) = read_first size c0 in
    let k1 = read_first-IsAwake size c0 h in
    let c2 = tms9914_set_holdoff_mode holdoff_all c1 in
    let k2 = pio_read-IsAwake (size - length first) c2 (mode-IsAwake holdoff_all c1 k1) in
    elim (Bool-cases (size == 0)) [
      | inl e ↦ simp e h
      | inr e ↦ elim (Bool-cases (is_neg r1)) [
        | inl e1 ↦ simp (e, e1) k1
        | inr e1 ↦ elim (Bool-cases end1) [
          | inl e2 ↦ simp (e, e1, e2) k1
          | inr e2 ↦ simp (e, e1, e2) k2
        ]
      ]
    ]

adsr_of-IsAwake :
    (values : List ℕ) (c : Tms) → c.adsr_later ≡ values → IsAwake c → IsAwake (read_adsr c)
unfolding read_adsr
adsr_of-IsAwake [] c e h = simp (read_adsr, e) h
adsr_of-IsAwake (value ∷ rest) c e h = simp (read_adsr, e) h

read_adsr-IsAwake : (c : Tms) → IsAwake c → IsAwake (read_adsr c)
read_adsr-IsAwake c h = adsr_of-IsAwake c.adsr_later c refl h

busy_wait-IsAwake :
    (wanted : Bool) (rounds : ℕ) (c : Tms) → IsAwake c → IsAwake (busy_wait wanted rounds c).1
unfolding busy_wait
busy_wait-IsAwake wanted zero c h = h
busy_wait-IsAwake wanted (suc rounds) c h =
    let c' = read_adsr c in
    let k = read_adsr-IsAwake c h in
    let rest = busy_wait-IsAwake wanted rounds c' k in
    let asserted = has c'.adsr hr_atn in
    elim (Bool-cases (if wanted then asserted else not asserted)) [
      | inl e ↦ simp e k
      | inr e ↦ simp e rest
    ]

pub go_to_standby-IsAwake : (c : Tms) → IsAwake c → IsAwake (tms9914_go_to_standby c).1
unfolding tms9914_go_to_standby
go_to_standby-IsAwake c h =
    let c0 = write_byte aux_gts auxcr c in
    let k = busy_wait-IsAwake false 1000 c0 h in
    elim (Bool-cases (busy_wait false 1000 c0).0) [ inl e ↦ simp e k | inr e ↦ simp e k ]

pub update_status-IsAwake :
    (clear_mask : ℕ) (c : Tms) → IsAwake c → IsAwake (tms9914_update_status clear_mask c).1
unfolding tms9914_update_status update_status_nolock
update_status-IsAwake clear_mask c h = h
