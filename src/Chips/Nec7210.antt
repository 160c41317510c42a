-- ===== src/Chips/Nec7210.antt =====
-- linux-gpib-kernel/drivers/gpib/nec7210/nec7210.c: the library for the NEC 7210 and the chips like
-- it. This file has the state, the status word and the interrupt handler, for a kernel without
-- NEC_DMA. While a function has the spinlock, the registers that it reads keep their values.
pub mod Waiting
pub mod Transfer
pub mod Resend
pub mod Bounds
pub mod Addressing
pub mod Receive
pub mod Command
pub mod Settings
pub mod Mirror
mod Tests
use linux_gpib.Prelude.{
  ℕ, ◌%◌, Bool, true, false, not, ◌&&◌, ◌||◌, List, [], ◌∷◌, ◌==◌, if◌then◌else◌, has, with,
  without, assign, mask,
}
use linux_gpib.Uapi.Status.{
  dcas, dtas, lacs, tacs, atn, cic, rem, lok, spoll, srqi, request_service_bit, event_dev_trg,
  event_dev_clr,
}
pub use linux_gpib.Chips.States.{
  TalkerState, talker_idle, talker_addressed, talker_active, serial_poll_active, ListenerState,
  listener_idle, listener_addressed, listener_active,
}
unfoldable pub use linux_gpib.Chips.States.{is_talker, is_listener}

-- the write registers that the functions here use
abbrev pub cdor : ℕ
cdor = 0

abbrev pub auxmr : ℕ
auxmr = 5

-- commands of the auxiliary register
abbrev pub aux_fh : ℕ
aux_fh = 3

abbrev pub aux_seoi : ℕ
aux_seoi = 6

abbrev pub aux_nval : ℕ
aux_nval = 7

-- IMR2_ENABLE_INTR_MASK
abbrev pub imr2_enable_intr_mask : ℕ
imr2_enable_intr_mask = 79

-- handshake modes of auxiliary register A
abbrev pub hr_hlda : ℕ
hr_hlda = 1

abbrev pub hr_hlde : ℕ
hr_hlde = 2

-- bit numbers of the registers that are read
abbrev pub hr_di : ℕ
hr_di = 0

abbrev pub hr_do : ℕ
hr_do = 1

abbrev pub hr_err : ℕ
hr_err = 2

abbrev pub hr_dec : ℕ
hr_dec = 3

abbrev pub hr_end : ℕ
hr_end = 4

abbrev pub hr_det : ℕ
hr_det = 5

abbrev pub hr_cpt : ℕ
hr_cpt = 7

abbrev pub hr_adsc : ℕ
hr_adsc = 0

abbrev pub hr_remc : ℕ
hr_remc = 1

abbrev pub hr_lokc : ℕ
hr_lokc = 2

abbrev pub hr_co : ℕ
hr_co = 3

abbrev pub hr_rem : ℕ
hr_rem = 4

abbrev pub hr_lok : ℕ
hr_lok = 5

abbrev pub hr_srqi : ℕ
hr_srqi = 6

abbrev pub hr_ta : ℕ
hr_ta = 1

abbrev pub hr_la : ℕ
hr_la = 2

abbrev pub hr_spms : ℕ
hr_spms = 5

abbrev pub hr_natn : ℕ
hr_natn = 6

abbrev pub hr_cic : ℕ
hr_cic = 7

-- What the chip sees and reports, in order: a register that is written, and the interrupt that
-- reports an error of the last byte written.
pub data Trace : Type 0 where
  put : ℕ → ℕ → Trace
  lost : Trace

-- The registers as an interrupt finds them.
pub record Irq : Type 0 where
  pub isr1 : ℕ
  pub isr2 : ℕ
  pub adsr : ℕ
  pub spsr : ℕ
  pub dir : ℕ

-- `struct nec7210_priv` with the bits of its `state` as fields, the board's `status`, and the
-- arguments of the calls of `push_gpib_event`, newest first. `is_nec7210` says that the type is
-- NEC7210. `imr1`, `imr2` and `admr` are elements of `reg_bits`. `data_in` is the data-in register,
-- which an interrupt with DI fills. The log holds what happened to the chip, newest first.
pub record Chip : Type 0 where
  pub status : ℕ
  pub imr1 : ℕ
  pub imr2 : ℕ
  pub auxa_bits : ℕ
  pub auxb_bits : ℕ
  pub admr : ℕ
  pub is_nec7210 : Bool
  pub srq_pending : Bool
  pub talker_state : TalkerState
  pub listener_state : ListenerState
  pub read_ready : Bool
  pub write_ready : Bool
  pub command_ready : Bool
  pub received_end : Bool
  pub bus_error : Bool
  pub rfd_holdoff : Bool
  pub dev_clear : Bool
  pub adr_change : Bool
  pub data_in : ℕ
  pub pushed : List ℕ
  pub log : List Trace

unfoldable pub write_byte : ℕ → ℕ → Chip → Chip
write_byte byte register c = record c { log = put register byte ∷ c.log }

unfoldable pub talker_of : ℕ → TalkerState
talker_of adsr =
    if has adsr hr_ta
    then (if has adsr hr_natn
        then (if has adsr hr_spms then serial_poll_active else talker_active)
        else talker_addressed)
    else talker_idle

unfoldable pub listener_of : ℕ → ListenerState
listener_of adsr =
    if has adsr hr_la
    then (if has adsr hr_natn then listener_active else listener_addressed)
    else listener_idle

-- The new status is the function's result.
unfoldable pub nec7210_update_status_nolock : Irq → Chip → Chip
nec7210_update_status_nolock irq c =
    let talker = talker_of irq.adsr in
    let listener = listener_of irq.adsr in
    let s1 = assign c.status cic (has irq.adsr hr_cic) in
    let s2 = assign s1 tacs (is_talker talker) in
    let s3 = assign s2 lacs (is_listener listener) in
    let s4 = assign s3 atn (not (has irq.adsr hr_natn)) in
    let served = c.srq_pending && not (has irq.spsr request_service_bit) in
    record c {
      status = if served then with s4 spoll else s4;
      srq_pending = c.srq_pending && not served;
      talker_state = talker;
      listener_state = listener;
    }

-- `nec7210_atn_has_changed`
unfoldable pub nec7210_atn_has_changed : Irq → Chip → Bool
nec7210_atn_has_changed irq c =
    if has irq.adsr hr_natn then has c.status atn else not (has c.status atn)

-- the bits SRQI, LOK and REM of the status
unfoldable pub record_status2 : Irq → Chip → Chip
record_status2 irq c =
    let s1 = if has irq.isr2 hr_srqi then with c.status srqi else c.status in
    let s2 = if has irq.isr2 hr_lokc then assign s1 lok (has irq.isr2 hr_lok) else s1 in
    record c { status = if has irq.isr2 hr_remc then assign s2 rem (has irq.isr2 hr_rem) else s2 }

-- END and a byte that came in, with the holdoff that the handshake mode gives
unfoldable pub record_input : Irq → Chip → Chip
record_input irq c =
    let mode = c.auxa_bits % 4 in
    record c {
      received_end = has irq.isr1 hr_end || c.received_end;
      read_ready = has irq.isr1 hr_di || c.read_ready;
      rfd_holdoff =
          (has irq.isr1 hr_end && mode == hr_hlde)
          || (has irq.isr1 hr_di && mode == hr_hlda)
          || c.rfd_holdoff;
      data_in = if has irq.isr1 hr_di then irq.dir else c.data_in;
    }

-- the bits of `state` for output, with the error and the command that was passed through
unfoldable pub record_output : Irq → Chip → Chip
record_output irq c =
    let c1 = record c {
      write_ready = has irq.isr1 hr_do || c.write_ready;
      command_ready = has irq.isr2 hr_co || c.command_ready;
    } in
    let c2 = if has irq.isr1 hr_cpt then write_byte aux_nval auxmr c1 else c1 in
    if has irq.isr1 hr_err then record c2 { bus_error = true; log = lost ∷ c2.log } else c2

-- A device clear does not count for the controller in charge.
unfoldable pub record_messages : Irq → Chip → Chip
record_messages irq c =
    let c1 =
      if has irq.isr1 hr_dec && not (has irq.adsr hr_cic)
      then record c {
        pushed = event_dev_clr ∷ c.pushed;
        dev_clear = true;
        status = with c.status dcas;
      }
      else c in
    let c2 =
      if has irq.isr1 hr_det
      then record c1 { pushed = event_dev_trg ∷ c1.pushed; status = with c1.status dtas }
      else c1 in
    record c2 { adr_change = has irq.isr2 hr_adsc || c2.adr_change }

-- whether the handler knows the interrupt and wakes the sleeping process
unfoldable pub is_handled : Irq → Chip → Bool
is_handled irq c =
    not (mask 8 irq.isr1 c.imr1 == 0)
    || not (mask 8 irq.isr2 (mask 8 c.imr2 imr2_enable_intr_mask) == 0)
    || nec7210_atn_has_changed irq c

unfoldable pub nec7210_interrupt_have_status : Irq → Chip → Bool × Chip
nec7210_interrupt_have_status irq c =
    let c1 = record_messages irq (record_output irq (record_input irq (record_status2 irq c))) in
    if is_handled irq c1 then (true, nec7210_update_status_nolock irq c1) else (false, c1)
