-- ===== src/Chips/Tms9914/Kept.antt =====
-- What interrupts leave alone in linux-gpib-kernel/drivers/gpib/tms9914/tms9914.c: how a read is to
-- end, who is addressed, and what is written to the bus.
use linux_gpib.Prelude.{
  ℕ, ◌+◌, ◌-◌, ◌^◌, ◌%◌, without, Bool, true, false, not, ◌&&◌, ◌||◌, ◌≡◌, refl, ◌∙◌, List, [], ◌∷◌,
  ◌==◌, if◌then◌else◌, has, with, mask, inl, inr, Bool-cases,
}
use linux_gpib.Uapi.Commands.{pp_config, ppu, is_ppe, is_ppd, in_primary_command_group}
use linux_gpib.Uapi.Status.{
  dcas, dtas, timo, srqi, cic, request_service_bit, event_ifc, event_dev_trg, event_dev_clr,
}
use linux_gpib.Chips.Tms9914.{
  Irq, Tms, Arrival, interrupt, timer, signal, write_byte, set_ppoll_reg,
  tms9914_parallel_poll_configure, update_status_nolock,
}
use linux_gpib.Chips.Tms9914.Registers.{
  auxcr, cdor, aux_cs, aux_seoi, aux_lon, aux_ton, aux_val, aux_inval, aux_pts, spmr, ppr, hr_spas,
  hr_srq, hr_ma, hr_unc, hr_err, hr_ifc, hr_get, hr_dcas, hr_apt,
}
use linux_gpib.Chips.Tms9914.Interrupts.{
  record_bytes, record_spas, record_address, unknown_command, record_unknown, record_faults,
  record_messages, tms9914_interrupt_have_status, msa_of,
}
use linux_gpib.Chips.Tms9914.Waiting.{fire, sleep, wait_until}

-- a byte for the bus, END for the next one, listen only and talk only
abbrev is_bus_write : ℕ → ℕ → Bool
is_bus_write register byte =
    register == cdor
    || (register == auxcr
        && (byte == aux_seoi
            || byte == aux_lon
            || byte == aux_lon + aux_cs
            || byte == aux_ton
            || byte == aux_ton + aux_cs))

-- the writes of a log that matter to the bus
abbrev pub bus_writes : List (ℕ × ℕ) → List (ℕ × ℕ)
bus_writes [] = []
bus_writes ((register, byte) ∷ log) =
    let rest = bus_writes log in
    if is_bus_write register byte then (register, byte) ∷ rest else rest

-- The holdoff, the flags for the end of a string, the board's address, whether its primary address
-- was just sent, and the writes that matter to the bus.
abbrev pub Kept : Tms → Tms → Type 0
Kept c c' =
    (c'.holdoff_mode ≡ c.holdoff_mode)
    × (c'.holdoff_active ≡ c.holdoff_active)
    × (c'.eos_flags ≡ c.eos_flags)
    × (c'.pad ≡ c.pad)
    × (c'.sad ≡ c.sad)
    × (c'.primary_listen_addressed ≡ c.primary_listen_addressed)
    × (c'.primary_talk_addressed ≡ c.primary_talk_addressed)
    × (bus_writes c'.log ≡ bus_writes c.log)

pub Kept-trans : (a b c : Tms) → Kept a b → Kept b c → Kept a c
Kept-trans a b c (p0, p1, p2, p3, p4, p5, p6, p7) (q0, q1, q2, q3, q4, q5, q6, q7) =
    (q0 ∙ p0, q1 ∙ p1, q2 ∙ p2, q3 ∙ p3, q4 ∙ p4, q5 ∙ p5, q6 ∙ p6, q7 ∙ p7)

-- what changes none of these
pub unchanged-Kept : (c : Tms) → Kept c c
unchanged-Kept c = (refl, refl, refl, refl, refl, refl, refl, refl)

if-Kept : (b : Bool) (c x y : Tms) → Kept c x → Kept c y → Kept c (if b then x else y)
if-Kept true c x y p q = p
if-Kept false c x y p q = q

-- a write that does not matter to the bus
write-Kept :
    (byte register : ℕ) (c x : Tms)
    → is_bus_write register byte ≡ false
    → Kept c x
    → Kept c (write_byte byte register x)
write-Kept byte register c x e (p0, p1, p2, p3, p4, p5, p6, p7) =
    (p0, p1, p2, p3, p4, p5, p6, simp e p7)

set_ppoll_reg-Kept :
    (enable : Bool) (line : ℕ) (sense ist : Bool) (c : Tms)
    → Kept c (set_ppoll_reg enable line sense ist c)
unfolding set_ppoll_reg
set_ppoll_reg-Kept enable line sense ist c =
    if-Kept (enable && ((sense && ist) || (not sense && not ist))) c
      (write_byte (2 ^ (line - 1)) ppr c) (write_byte 0 ppr c) (unchanged-Kept c) (unchanged-Kept c)

configure-Kept : (config : ℕ) (c : Tms) → Kept c (tms9914_parallel_poll_configure config c)
unfolding tms9914_parallel_poll_configure
configure-Kept config c =
    let enable = not (has config 4) in
    let line = config % 8 + 1 in
    let sense = has config 3 in
    set_ppoll_reg-Kept enable line sense c.ist
      (record c { ppoll_enable = enable; ppoll_line = line; ppoll_sense = sense })

record_spas-Kept : (irq : Irq) (c : Tms) → Kept c (record_spas irq c)
unfolding record_spas
record_spas-Kept irq c =
    let status = without c.spoll_status request_service_bit in
    if-Kept (has irq.isr0 hr_spas) c (write_byte status spmr (record c { spoll_status = status })) c
      (unchanged-Kept c) (unchanged-Kept c)

record_address-Kept : (irq : Irq) (c : Tms) → Kept c (record_address irq c)
unfolding record_address
record_address-Kept irq c =
    let srq = record c { status = with c.status srqi } in
    let c1 = if has irq.isr1 hr_srq then srq else c in
    let p = if-Kept (has irq.isr1 hr_srq) c srq c (unchanged-Kept c) (unchanged-Kept c) in
    if-Kept (has irq.isr1 hr_ma) c (write_byte aux_val auxcr c1) c1 p p

unknown_command-Kept : (command_byte : ℕ) (c : Tms) → Kept c (unknown_command command_byte c)
unfolding unknown_command
unknown_command-Kept command_byte c =
    let accepted = write_byte aux_val auxcr (tms9914_parallel_poll_configure command_byte c) in
    let refused = write_byte aux_inval auxcr c in
    let configures = (is_ppe command_byte || is_ppd command_byte) && c.ppoll_configure_state in
    let start =
      write_byte aux_val auxcr
        (write_byte aux_pts auxcr (record c { ppoll_configure_state = true })) in
    let set = configure-Kept command_byte c in
    let last = if configures then accepted else refused in
    let later = if-Kept configures c accepted refused set (unchanged-Kept c) in
    if-Kept (command_byte == pp_config) c start (if command_byte == ppu then accepted else last)
      (unchanged-Kept c) (if-Kept (command_byte == ppu) c accepted last set later)

record_unknown-Kept : (irq : Irq) (c : Tms) → Kept c (record_unknown irq c)
unfolding record_unknown
record_unknown-Kept irq c =
    let command_byte = c.cptr % 128 in
    let c1 = unknown_command command_byte c in
    let ends = in_primary_command_group command_byte && not (command_byte == pp_config) in
    let p = unknown_command-Kept command_byte c in
    let idle = record c1 { ppoll_configure_state = false } in
    if-Kept (has irq.isr1 hr_unc) c (if ends then idle else c1) c (if-Kept ends c idle c1 p p)
      (unchanged-Kept c)

record_faults-Kept : (irq : Irq) (c : Tms) → Kept c (record_faults irq c)
unfolding record_faults
record_faults-Kept irq c =
    let c1 = record c { bus_error = has irq.isr1 hr_err || c.bus_error } in
    let cleared = record c1 { pushed = event_ifc ∷ c.pushed; status = without c.status cic } in
    if-Kept (has irq.isr1 hr_ifc) c cleared c1 (unchanged-Kept c) (unchanged-Kept c)

record_messages-Kept : (irq : Irq) (c : Tms) → Kept c (record_messages irq c)
unfolding record_messages
record_messages-Kept irq c =
    let triggered =
      write_byte aux_val auxcr
        (record c { pushed = event_dev_trg ∷ c.pushed; status = with c.status dtas }) in
    let c1 = if has irq.isr1 hr_get then triggered else c in
    let p1 = if-Kept (has irq.isr1 hr_get) c triggered c (unchanged-Kept c) (unchanged-Kept c) in
    let cleared = write_byte aux_val auxcr (record c1 {
      pushed = event_dev_clr ∷ c1.pushed;
      dev_clear = true;
      status = with c1.status dcas;
    }) in
    let c2 = if has irq.isr1 hr_dcas then cleared else c1 in
    let p2 = if-Kept (has irq.isr1 hr_dcas) c cleared c1 p1 p1 in
    let same = c.cptr % 128 == msa_of c.sad in
    let reply = if same then aux_val else aux_inval in
    let quiet : is_bus_write auxcr reply ≡ false = elim (Bool-cases same) [
      | inl e ↦ simp e refl
      | inr e ↦ simp e refl
    ] in
    if-Kept (has irq.isr1 hr_apt) c (write_byte reply auxcr c2) c2
      (write-Kept reply auxcr c c2 quiet p2) p2

interrupt-Kept : (irq : Irq) (c : Tms) → Kept c (tms9914_interrupt_have_status irq c).1
unfolding tms9914_interrupt_have_status record_bytes update_status_nolock
interrupt-Kept irq c =
    let c0 = record c { adsr = irq.adsr; bsr = irq.bsr; cptr = irq.cptr; dir = irq.dir } in
    let a = record_bytes irq c0 in
    let b = record_spas irq a in
    let d = record_address irq b in
    let e = record_unknown irq d in
    let f = record_faults irq e in
    let g = record_messages irq f in
    let p1 = Kept-trans c b d (record_spas-Kept irq a) (record_address-Kept irq b) in
    let p2 = Kept-trans c d e p1 (record_unknown-Kept irq d) in
    let p3 = Kept-trans c e f p2 (record_faults-Kept irq e) in
    let p = Kept-trans c f g p3 (record_messages-Kept irq f) in
    let woken = not (mask 8 irq.isr0 g.imr0_bits == 0) || not (mask 8 irq.isr1 g.imr1_bits == 0) in
    elim (Bool-cases woken) [ inl w ↦ simp w p | inr w ↦ simp w p ]

fire-Kept : (c : Tms) → Kept c (fire c)
unfolding fire
fire-Kept c =
    let fired = record c { status = with c.status timo; timer_pending = false } in
    if-Kept c.timer_pending c fired c (unchanged-Kept c) (unchanged-Kept c)

sleep-Kept :
    (condition : Tms → Bool) (later : List Arrival) (c : Tms) → Kept c (sleep condition later c).1
unfolding sleep
sleep-Kept condition [] c = unchanged-Kept c
sleep-Kept condition (signal ∷ later) c = unchanged-Kept c
sleep-Kept condition (timer ∷ later) c =
    let c' = fire c in
    let p = fire-Kept c in
    let q = Kept-trans c c' (sleep condition later c').1 p (sleep-Kept condition later c') in
    elim (Bool-cases (condition c')) [ inl e ↦ simp e p | inr e ↦ simp e q ]
sleep-Kept condition (interrupt irq ∷ later) c =
    let (handled, c') = tms9914_interrupt_have_status irq c in
    let p = interrupt-Kept irq c in
    let q = Kept-trans c c' (sleep condition later c').1 p (sleep-Kept condition later c') in
    elim (Bool-cases (handled && condition c')) [ inl e ↦ simp e p | inr e ↦ simp e q ]

-- A wait, however it ends, keeps all this.
pub wait_until-Kept : (condition : Tms → Bool) (c : Tms) → Kept c (wait_until condition c).1
unfolding wait_until
wait_until-Kept condition c = elim (Bool-cases (condition c)) [
  | inl e ↦ simp e (unchanged-Kept c)
  | inr e ↦ simp e (sleep-Kept condition c.later c)
]
