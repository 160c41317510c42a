-- ===== src/Chips/Tms9914/Settings.antt =====
-- linux-gpib-kernel/drivers/gpib/tms9914/tms9914.c: control of the bus, and the settings of the
-- chip.
use linux_gpib.Prelude.{
  ℕ, zero, suc, ◌+◌, ◌-◌, ◌*◌, ◌%◌, Bool, true, false, not, ℤ, pos, [], ◌∷◌, leb, if◌then◌else◌,
  has, with, without, mask, merge,
}
use linux_gpib.Uapi.Errno.{etimedout}
use linux_gpib.Uapi.Status.{cic, reos, bin, request_service_bit}
use linux_gpib.Chips.Tms9914.{
  HoldoffMode, holdoff_none, holdoff_eoi, holdoff_all, Tms, write_byte, update_status_nolock,
}
use linux_gpib.Chips.Tms9914.Registers.{
  imr0, imr1, auxcr, adr, spmr, ppr, hr_atn, hr_apt, bsr_ren, bsr_ifc, bsr_srq, bsr_eoi, bsr_nrfd,
  bsr_ndac, bsr_dav, bsr_atn, aux_cs, aux_chip_reset, aux_rhdf, aux_hlda, aux_hlde, aux_rtl,
  aux_gts, aux_tca, aux_tcs, aux_rpp, aux_sic, aux_sre, aux_rqc, aux_rlc, aux_dai, aux_stdl,
  aux_vstdl, aux_rsv2,
}

-- an auxiliary command with AUX_CS or without it
abbrev auxiliary : ℕ → Bool → Tms → Tms
auxiliary command is_set c = write_byte (if is_set then command + aux_cs else command) auxcr c

-- One reading of the address status register.
unfoldable pub read_adsr : Tms → Tms
read_adsr c = elim c.adsr_later [
  | [] ↦ c
  | value ∷ rest ↦ record c { adsr = value; adsr_later = rest }
]

-- A busy wait of so many rounds for ATN to be as it is wanted.
unfoldable pub busy_wait : Bool → ℕ → Tms → Bool × Tms
busy_wait wanted zero c = (false, c)
busy_wait wanted (suc rounds) c =
    let c' = read_adsr c in
    let rest = busy_wait wanted rounds c' in
    let asserted = has c'.adsr hr_atn in
    if (if wanted then asserted else not asserted) then (true, c') else rest

unfoldable pub tms9914_take_control : Bool → Tms → ℤ × Tms
tms9914_take_control synchronous c =
    let (done, c') =
      busy_wait true 100 (write_byte (if synchronous then aux_tcs else aux_tca) auxcr c) in
    if done then (pos 0, record c' { write_ready = false }) else (etimedout, c')

unfoldable pub tms9914_take_control_workaround : Bool → Tms → ℤ × Tms
tms9914_take_control_workaround synchronous c =
    if synchronous then (etimedout, c) else tms9914_take_control synchronous c

unfoldable pub tms9914_go_to_standby : Tms → ℤ × Tms
tms9914_go_to_standby c =
    let (done, c') = busy_wait false 1000 (write_byte aux_gts auxcr c) in
    if done then (pos 0, record c' { command_ready = false }) else (etimedout, c')

unfoldable pub tms9914_interface_clear : Bool → Tms → Tms
tms9914_interface_clear assert c =
    let c' = auxiliary aux_sic assert c in
    if assert then record c' { status = with c.status cic } else c'

unfoldable pub tms9914_remote_enable : Bool → Tms → Tms
tms9914_remote_enable enable c = auxiliary aux_sre enable c

unfoldable pub tms9914_request_system_control : Bool → Tms → ℤ × Tms
tms9914_request_system_control request_control c =
    if request_control
    then (pos 0, write_byte aux_rqc auxcr c)
    else (pos 0, write_byte aux_rlc auxcr (record c { status = without c.status cic }))

-- the clock period in nanoseconds, of an input clock of 5 MHz
abbrev clock_period : ℕ
clock_period = 200

unfoldable pub tms9914_t1_delay : ℕ → Tms → ℤ × Tms
tms9914_t1_delay nano_sec c =
    let short = leb nano_sec (8 * clock_period) in
    let very_short = leb nano_sec (4 * clock_period) in
    let num_cycles = if very_short then 4 else (if short then 8 else 12) in
    (pos (num_cycles * clock_period), auxiliary aux_vstdl very_short (auxiliary aux_stdl short c))

unfoldable pub tms9914_return_to_local : Tms → Tms
tms9914_return_to_local c = write_byte aux_rtl auxcr c

-- what a mode writes: the holdoff on END, and the holdoff on all data
abbrev holds_on_end : HoldoffMode → Bool
holds_on_end holdoff_none = false
holds_on_end holdoff_eoi = true
holds_on_end holdoff_all = false

abbrev holds_on_all : HoldoffMode → Bool
holds_on_all holdoff_none = false
holds_on_all holdoff_eoi = false
holds_on_all holdoff_all = true

unfoldable pub tms9914_set_holdoff_mode : HoldoffMode → Tms → Tms
tms9914_set_holdoff_mode mode c =
    record (auxiliary aux_hlda (holds_on_all mode) (auxiliary aux_hlde (holds_on_end mode) c)) {
      holdoff_mode = mode;
    }

unfoldable pub tms9914_release_holdoff : Tms → Tms
tms9914_release_holdoff c =
    if c.holdoff_active then record (write_byte aux_rhdf auxcr c) { holdoff_active = false } else c

unfoldable pub tms9914_enable_eos : ℕ → Bool → Tms → ℤ × Tms
tms9914_enable_eos eos_byte compare_8_bits c =
    let flags = with 0 reos in
    (
      pos 0,
      record c { eos = eos_byte; eos_flags = if compare_8_bits then with flags bin else flags },
    )

unfoldable pub tms9914_disable_eos : Tms → Tms
tms9914_disable_eos c = record c { eos_flags = without c.eos_flags reos }

unfoldable pub tms9914_parallel_poll : Tms → ℤ × ℕ × Tms
tms9914_parallel_poll c =
    (pos 0, c.cptr, write_byte aux_rpp auxcr (write_byte (aux_rpp + aux_cs) auxcr c))

unfoldable pub tms9914_serial_poll_response : ℕ → Tms → Tms
tms9914_serial_poll_response status c =
    auxiliary aux_rsv2 (has status request_service_bit)
      (record (write_byte status spmr c) { spoll_status = status })

unfoldable pub tms9914_serial_poll_status : Tms → ℕ
tms9914_serial_poll_status c = c.spoll_status

unfoldable pub tms9914_primary_address : ℕ → Tms → ℤ × Tms
tms9914_primary_address address c = (pos 0, write_byte (address % 32) adr c)

-- The secondary address itself is the board's; the chip only passes such addresses through.
unfoldable pub tms9914_secondary_address : ℕ → Bool → Tms → ℤ × Tms
tms9914_secondary_address address enable c =
    let bits = if enable then with c.imr1_bits hr_apt else without c.imr1_bits hr_apt in
    (pos 0, write_byte bits imr1 (record c { imr1_bits = bits }))

-- `board->status &= ~clear_mask`, with a mask of 32 bits. The status that is returned still has
-- those bits.
unfoldable pub tms9914_update_status : ℕ → Tms → ℕ × Tms
tms9914_update_status clear_mask c =
    let c' = update_status_nolock c in
    (c'.status, record c' { status = mask 32 c'.status (0xffffffff - clear_mask) })

-- `status |= flag` if a line is asserted
abbrev line_bit : ℕ → ℕ → ℕ → ℕ → ℕ
line_bit bsr bit flag status = if has bsr bit then with status flag else status

-- The bits of a line in `enum bus_control_line` are 8 to 15: DAV, NDAC, NRFD, IFC, REN, SRQ, ATN
-- and EOI. VALID_ALL is 0xff.
unfoldable pub tms9914_line_status : Tms → ℤ
tms9914_line_status c =
    let s1 =
      line_bit c.bsr bsr_srq 13 (line_bit c.bsr bsr_ifc 11 (line_bit c.bsr bsr_ren 12 255)) in
    let s2 =
      line_bit c.bsr bsr_ndac 9 (line_bit c.bsr bsr_nrfd 10 (line_bit c.bsr bsr_eoi 15 s1)) in
    pos (line_bit c.bsr bsr_atn 14 (line_bit c.bsr bsr_dav 8 s2))

unfoldable pub tms9914_board_reset : Tms → Tms
tms9914_board_reset c =
    let c1 = auxiliary aux_chip_reset true c in
    let c2 = write_byte 0 imr1 (write_byte 0 imr0 (record c1 { imr0_bits = 0; imr1_bits = 0 })) in
    let c3 = write_byte 0 ppr (write_byte 0 spmr (auxiliary aux_dai true c2)) in
    tms9914_set_holdoff_mode holdoff_all c3

-- MAC, RLC, SPAS, END, BO and BI
abbrev online_imr0 : ℕ
online_imr0 = 0x3f

-- all but APT
abbrev online_imr1 : ℕ
online_imr1 = 0xef

abbrev sad_part : ℤ → ℕ × Bool
sad_part (pos sad) = (sad, true)
sad_part other = (0, false)

unfoldable pub tms9914_online : Tms → Tms
tms9914_online c =
    let (sad, enable) = sad_part c.sad in
    let c1 = (tms9914_secondary_address sad enable (tms9914_primary_address c.pad c).1).1 in
    let bits0 = merge 8 c1.imr0_bits online_imr0 in
    let bits1 = merge 8 c1.imr1_bits online_imr1 in
    let c2 = record c1 { imr0_bits = bits0; imr1_bits = bits1 } in
    auxiliary aux_chip_reset false
      (auxiliary aux_dai false (write_byte bits1 imr1 (write_byte bits0 imr0 c2)))
