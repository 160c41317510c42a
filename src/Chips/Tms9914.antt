-- ===== src/Chips/Tms9914.antt =====
-- linux-gpib-kernel/drivers/gpib/tms9914/tms9914.c: the library for the TMS 9914. This file has the
-- state, the registers, the parallel poll register and the status word.
pub mod Registers
pub mod Interrupts
pub mod Waiting
pub mod Settings
pub mod Transfer
pub mod Command
pub mod Kept
pub mod Holdoff
pub mod Reads
pub mod Writes
pub mod Messages
pub mod Listens
pub mod Awake
pub mod Samples
mod Tests
use linux_gpib.Prelude.{
  ℕ, ◌-◌, ◌^◌, ◌%◌, Bool, true, false, not, ◌&&◌, ◌||◌, ℤ, List, [], ◌∷◌, ◌==◌, if◌then◌else◌, has,
  with, without, assign, ◌+◌,
}
use linux_gpib.Uapi.Status.{lacs, tacs, atn, rem, lok, srqi}
pub use linux_gpib.Chips.States.{
  TalkerState, talker_idle, talker_addressed, talker_active, serial_poll_active, ListenerState,
  listener_idle, listener_addressed, listener_active,
}
unfoldable pub use linux_gpib.Chips.States.{is_talker, is_listener}
use linux_gpib.Chips.Tms9914.Registers.{ppr, hr_ta, hr_la, hr_atn, hr_llo, hr_rem, bsr_srq}

-- `enum tms9914_holdoff_mode`
pub data HoldoffMode : Type 0 where
  holdoff_none : HoldoffMode
  holdoff_eoi : HoldoffMode
  holdoff_all : HoldoffMode

-- The registers as an interrupt finds them.
pub record Irq : Type 0 where
  pub isr0 : ℕ
  pub isr1 : ℕ
  pub adsr : ℕ
  pub bsr : ℕ
  pub cptr : ℕ
  pub dir : ℕ

-- What happens to a process that sleeps: an interrupt of the chip, the board's timer, a signal.
pub data Arrival : Type 0 where
  interrupt : Irq → Arrival
  timer : Arrival
  signal : Arrival

-- `struct tms9914_priv` with the bits of its `state` as fields, and the fields of the board that
-- the library reads. `adsr` to `dir` are the registers that are read, and `adsr_later` what ADSR
-- reads next in a busy wait; `pushed` has the arguments of the calls of `push_gpib_event`, and
-- `log` the registers written with their bytes, both newest first; `later` is what is still to
-- happen. `asleep`: the process sleeps for ever in one of its waits; what is computed after that is
-- no behaviour of the code.
pub record Tms : Type 0 where
  pub status : ℕ
  pub timer_pending : Bool
  pub pad : ℕ
  pub sad : ℤ
  pub ist : Bool
  pub imr0_bits : ℕ
  pub imr1_bits : ℕ
  pub eos : ℕ
  pub eos_flags : ℕ
  pub spoll_status : ℕ
  pub holdoff_mode : HoldoffMode
  pub ppoll_line : ℕ
  pub ppoll_sense : Bool
  pub ppoll_enable : Bool
  pub ppoll_configure_state : Bool
  pub talker_state : TalkerState
  pub listener_state : ListenerState
  pub primary_listen_addressed : Bool
  pub primary_talk_addressed : Bool
  pub holdoff_active : Bool
  pub read_ready : Bool
  pub write_ready : Bool
  pub command_ready : Bool
  pub received_end : Bool
  pub bus_error : Bool
  pub dev_clear : Bool
  pub adsr : ℕ
  pub bsr : ℕ
  pub cptr : ℕ
  pub dir : ℕ
  pub adsr_later : List ℕ
  pub pushed : List ℕ
  pub log : List (ℕ × ℕ)
  pub later : List Arrival
  pub asleep : Bool

abbrev pub write_byte : ℕ → ℕ → Tms → Tms
write_byte byte register c = record c { log = (register, byte) ∷ c.log }

unfoldable pub set_ppoll_reg : Bool → ℕ → Bool → Bool → Tms → Tms
set_ppoll_reg enable dio_line sense ist c =
    if enable && ((sense && ist) || (not sense && not ist))
    then write_byte (2 ^ (dio_line - 1)) ppr c
    else write_byte 0 ppr c

-- PPC_DISABLE, PPC_DIO_MASK and PPC_SENSE are 0x10, 0x7 and 0x8.
unfoldable pub tms9914_parallel_poll_configure : ℕ → Tms → Tms
tms9914_parallel_poll_configure config c =
    let enable = not (has config 4) in
    let line = config % 8 + 1 in
    let sense = has config 3 in
    set_ppoll_reg enable line sense c.ist
      (record c { ppoll_enable = enable; ppoll_line = line; ppoll_sense = sense })

unfoldable pub tms9914_parallel_poll_response : Bool → Tms → Tms
tms9914_parallel_poll_response ist c = set_ppoll_reg c.ppoll_enable c.ppoll_line c.ppoll_sense ist c

-- `update_talker_state`
unfoldable pub talker_of : ℕ → TalkerState
talker_of adsr =
    if has adsr hr_ta
    then (if has adsr hr_atn then talker_addressed else talker_active)
    else talker_idle

-- `update_listener_state`
unfoldable pub listener_of : ℕ → ListenerState
listener_of adsr =
    if has adsr hr_la
    then (if has adsr hr_atn then listener_addressed else listener_active)
    else listener_idle

-- The new status is the function's result.
unfoldable pub update_status_nolock : Tms → Tms
update_status_nolock c =
    let talker = talker_of c.adsr in
    let listener = listener_of c.adsr in
    let s1 = assign c.status rem (has c.adsr hr_rem) in
    let s2 = assign s1 lok (has c.adsr hr_llo) in
    let s3 = assign s2 atn (has c.adsr hr_atn) in
    let s4 = assign s3 tacs (is_talker talker) in
    let s5 = assign s4 lacs (is_listener listener) in
    record c {
      status = if has s5 srqi && not (has c.bsr bsr_srq) then without s5 srqi else s5;
      talker_state = talker;
      listener_state = listener;
    }
