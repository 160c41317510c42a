-- ===== src/Chips/Nec7210/Settings.antt =====
-- linux-gpib-kernel/drivers/gpib/nec7210/nec7210.c: control of the bus, the settings of the chip,
-- its reset and its start. What a register that is read holds is an argument.
use linux_gpib.Prelude.{
  ℕ, zero, suc, ◌+◌, ◌-◌, ◌%◌, Bool, true, false, not, ℤ, pos, negsuc, Option, none, some, List,
  leb, if◌then◌else◌, has, with, without, assign, mask, merge,
}
use linux_gpib.Uapi.Errno.{etimedout, erestartsys}
use linux_gpib.Uapi.Status.{spoll, request_service_bit}
use linux_gpib.Chips.Nec7210.{Irq, Chip, auxmr, hr_natn, write_byte, nec7210_update_status_nolock}
use linux_gpib.Chips.Nec7210.Waiting.{Arrival, woken, interrupted, asleep, wait_until}
use linux_gpib.Chips.Nec7210.Transfer.{Outcome, done, sleeping}

-- the other registers that are written
abbrev pub imr1_reg : ℕ
imr1_reg = 1

abbrev pub imr2_reg : ℕ
imr2_reg = 2

abbrev pub spmr : ℕ
spmr = 3

abbrev pub admr_reg : ℕ
admr_reg = 4

abbrev pub adr : ℕ
adr = 6

abbrev pub eosr : ℕ
eosr = 7

-- bit numbers: REOS and BIN of auxiliary register A, TRI of B, ADM0 and ADM1
abbrev pub hr_reos : ℕ
hr_reos = 2

abbrev pub hr_bin : ℕ
hr_bin = 4

abbrev pub hr_tri : ℕ
hr_tri = 2

abbrev pub hr_adm0 : ℕ
hr_adm0 = 0

abbrev pub hr_adm1 : ℕ
hr_adm1 = 1

unfoldable pub nec7210_enable_eos : ℕ → Bool → Chip → ℤ × Chip
nec7210_enable_eos eos_byte compare_8_bits c =
    let bits = assign (with c.auxa_bits hr_reos) hr_bin compare_8_bits in
    (pos 0, write_byte bits auxmr (record (write_byte eos_byte eosr c) { auxa_bits = bits }))

unfoldable pub nec7210_disable_eos : Chip → Chip
nec7210_disable_eos c =
    let bits = without c.auxa_bits hr_reos in write_byte bits auxmr (record c { auxa_bits = bits })

-- The number is what is stored in `*result`, from CPTR. 0x1d is AUX_EPP.
unfoldable pub nec7210_parallel_poll : ℕ → List Arrival → Chip → Outcome (ℤ × ℕ)
nec7210_parallel_poll cptr later c =
    let started = write_byte 0x1d auxmr (record c { command_ready = false }) in
    elim (wait_until (λ x. x.command_ready) later started) [
      | asleep ↦ sleeping
      | interrupted c' later' ↦ done (erestartsys, 0) c' later'
      | woken c' later' ↦ done (pos 0, cptr) c' later'
    ]

-- PPR is 0x60.
unfoldable pub nec7210_parallel_poll_configure : ℕ → Chip → Chip
nec7210_parallel_poll_configure configuration c = write_byte (merge 8 0x60 configuration) auxmr c

-- AUX_SPPF and AUX_CPPF
unfoldable pub nec7210_parallel_poll_response : Bool → Chip → Chip
nec7210_parallel_poll_response ist c = write_byte (if ist then 0x9 else 0x1) auxmr c

unfoldable pub nec7210_serial_poll_response : ℕ → Chip → Chip
nec7210_serial_poll_response status c =
    let asks = has status request_service_bit in
    write_byte status spmr
      (record c { srq_pending = asks; status = if asks then without c.status spoll else c.status })

unfoldable pub nec7210_primary_address : ℕ → Chip → ℤ × Chip
nec7210_primary_address address c = (pos 0, write_byte (address % 32) adr c)

-- HR_ARS is 0x80, and with HR_DT and HR_DL 0xe0.
unfoldable pub nec7210_secondary_address : ℕ → Bool → Chip → ℤ × Chip
nec7210_secondary_address address enable c =
    let bits =
      if enable
      then with (without c.admr hr_adm0) hr_adm1
      else without (with c.admr hr_adm0) hr_adm1 in
    let c1 = write_byte (if enable then 0x80 + address % 32 else 0xe0) adr c in
    (pos 0, write_byte bits admr_reg (record c1 { admr = bits }))

unfoldable pub nec7210_update_status : Irq → ℕ → Chip → ℕ × Chip
nec7210_update_status irq clear_mask c =
    let c' =
      nec7210_update_status_nolock irq
        (record c { status = mask 32 c.status (0xffffffff - clear_mask) }) in
    (c'.status, c')

-- A busy wait for NATN as it is wanted, from the round `i` on; `adsr` gives the readings.
unfoldable pub busy_wait : Bool → ℕ → ℕ → (ℕ → ℕ) → Bool
busy_wait wanted zero i adsr = false
busy_wait wanted (suc rounds) i adsr =
    let rest = busy_wait wanted rounds (suc i) adsr in
    let seen = has (adsr i) hr_natn in if (if wanted then seen else not seen) then true else rest

-- AUX_TCS and AUX_TCA
unfoldable pub nec7210_take_control : Bool → (ℕ → ℕ) → Chip → ℤ × Chip
nec7210_take_control syncronous adsr c =
    let c' = write_byte (if syncronous then 0x12 else 0x11) auxmr c in
    if busy_wait false 100 0 adsr
    then (pos 0, record c' { write_ready = false })
    else (etimedout, c')

-- The second loop, of sleeps of one tick: a signal ends it, or else ADSR is read.
unfoldable pub tick_wait : ℕ → ℕ → (ℕ → Option ℕ) → ℤ
tick_wait zero i ticks = etimedout
tick_wait (suc rounds) i ticks =
    let rest = tick_wait rounds (suc i) ticks in
    elim (ticks i) [ none ↦ erestartsys | some adsr ↦ if has adsr hr_natn then pos 0 else rest ]

-- AUX_GTS; `hz` is HZ.
unfoldable pub nec7210_go_to_standby : ℕ → (ℕ → ℕ) → (ℕ → Option ℕ) → Chip → ℤ × Chip
nec7210_go_to_standby hz adsr ticks c =
    let c' = write_byte 0x10 auxmr c in
    let released = record c' { command_ready = false } in
    if busy_wait true 1000 0 adsr
    then (pos 0, released)
    else elim (tick_wait hz 0 ticks) [ pos n ↦ (pos n, released) | negsuc e ↦ (negsuc e, c') ]

-- AUX_CREN, AUX_CIFC and AUX_DSC
unfoldable pub nec7210_request_system_control : Bool → Chip → ℤ × Chip
nec7210_request_system_control request_control c =
    if request_control
    then (pos 0, c)
    else (pos 0, write_byte 0x14 auxmr (write_byte 0x16 auxmr (write_byte 0x17 auxmr c)))

-- AUX_SIFC and AUX_CIFC
unfoldable pub nec7210_interface_clear : Bool → Chip → Chip
nec7210_interface_clear assert c = write_byte (if assert then 0x1e else 0x16) auxmr c

-- AUX_SREN and AUX_CREN
unfoldable pub nec7210_remote_enable : Bool → Chip → Chip
nec7210_remote_enable enable c = write_byte (if enable then 0x1f else 0x17) auxmr c

unfoldable pub nec7210_t1_delay : ℕ → Chip → ℤ × Chip
nec7210_t1_delay nano_sec c =
    let short = leb nano_sec 500 in
    let bits = assign c.auxb_bits hr_tri short in
    (pos (if short then 500 else 2000), write_byte bits auxmr (record c { auxb_bits = bits }))

-- AUX_RTL
unfoldable pub nec7210_return_to_local : Chip → Chip
nec7210_return_to_local c = write_byte 0x5 auxmr c

-- AUX_CR, the masks and the serial poll, PPR | HR_PPU, AUXRA | HR_HLDA, AUXRE, AUXRB | HR_CPTE and
-- AUXRE; ADMR is only prepared. The registers that are read to clear them are not kept.
unfoldable pub nec7210_board_reset : Chip → Chip
nec7210_board_reset c =
    let c1 = write_byte 0 imr1_reg (record (write_byte 0x2 auxmr c) { imr1 = 0 }) in
    let c2 = write_byte 0 spmr (write_byte 0 imr2_reg (record c1 { imr2 = 0 })) in
    let c3 = record (write_byte 0x70 auxmr c2) { admr = 0x30; auxa_bits = 0x81 } in
    let c4 = write_byte 0xc0 auxmr (write_byte 0x81 auxmr c3) in
    write_byte 0xc0 auxmr (write_byte 0xa1 auxmr (record c4 { auxb_bits = 0xa1 }))

-- all but APT
abbrev pub online_imr1 : ℕ
online_imr1 = 0xbf

abbrev pub online_imr2 : ℕ
online_imr2 = 0x4f

abbrev sad_part : ℤ → ℕ × Bool
sad_part (pos sad) = (sad, true)
sad_part (negsuc n) = (0, false)

-- The board's addresses, the masks, and AUX_PON.
unfoldable pub nec7210_board_online : ℕ → ℤ → Chip → Chip
nec7210_board_online pad sad c =
    let (address, enable) = sad_part sad in
    let c1 = (nec7210_secondary_address address enable (nec7210_primary_address pad c).1).1 in
    let c2 = record c1 { imr1 = online_imr1; imr2 = online_imr2 } in
    write_byte 0 auxmr (write_byte online_imr2 imr2_reg (write_byte online_imr1 imr1_reg c2))
