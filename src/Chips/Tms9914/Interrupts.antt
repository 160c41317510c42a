-- ===== src/Chips/Tms9914/Interrupts.antt =====
-- linux-gpib-kernel/drivers/gpib/tms9914/tms9914.c: `tms9914_interrupt_have_status`, in the order of
-- its tests.
use linux_gpib.Prelude.{
  ℕ, ◌-◌, ◌%◌, Bool, true, false, not, ◌&&◌, ◌||◌, ℤ, pos, negsuc, ◌∷◌, ◌==◌, if◌then◌else◌, has,
  with, without, mask,
}
use linux_gpib.Uapi.Commands.{pp_config, ppu, msa, is_ppe, is_ppd, in_primary_command_group}
use linux_gpib.Uapi.Status.{
  dcas, dtas, cic, srqi, request_service_bit, event_dev_trg, event_dev_clr, event_ifc,
}
use linux_gpib.Chips.Tms9914.{
  Irq, Tms, write_byte, tms9914_parallel_poll_configure, update_status_nolock,
}
use linux_gpib.Chips.Tms9914.Registers.{
  auxcr, spmr, hr_spas, hr_end, hr_bo, hr_bi, hr_ifc, hr_srq, hr_ma, hr_dcas, hr_apt, hr_unc,
  hr_err, hr_get, hr_atn, aux_val, aux_inval, aux_pts,
}

-- `MSA(board->sad)`, of an integer in two's complement
unfoldable pub msa_of : ℤ → ℕ
msa_of (pos sad) = msa sad
msa_of (negsuc n) = msa (31 - n % 32)

-- END, Byte In and Byte Out
unfoldable pub record_bytes : Irq → Tms → Tms
record_bytes irq c =
    let out = has irq.isr0 hr_bo in
    record c {
      received_end = has irq.isr0 hr_end || c.received_end;
      read_ready = has irq.isr0 hr_bi || c.read_ready;
      command_ready = (out && has c.adsr hr_atn) || c.command_ready;
      write_ready = (out && not (has c.adsr hr_atn)) || c.write_ready;
    }

-- a serial poll by the controller ends the request for service
unfoldable pub record_spas : Irq → Tms → Tms
record_spas irq c =
    let status = without c.spoll_status request_service_bit in
    if has irq.isr0 hr_spas then write_byte status spmr (record c { spoll_status = status }) else c

-- a service request, and the board's own address
unfoldable pub record_address : Irq → Tms → Tms
record_address irq c =
    let c1 = if has irq.isr1 hr_srq then record c { status = with c.status srqi } else c in
    if has irq.isr1 hr_ma then write_byte aux_val auxcr c1 else c1

-- the `switch` on a command that the chip does not know
unfoldable pub unknown_command : ℕ → Tms → Tms
unknown_command command_byte c =
    if command_byte == pp_config
    then write_byte aux_val auxcr
        (write_byte aux_pts auxcr (record c { ppoll_configure_state = true }))
    else (if command_byte == ppu
        then write_byte aux_val auxcr (tms9914_parallel_poll_configure command_byte c)
        else (if (is_ppe command_byte || is_ppd command_byte) && c.ppoll_configure_state
            then write_byte aux_val auxcr (tms9914_parallel_poll_configure command_byte c)
            else write_byte aux_inval auxcr c))

-- the branch for UNC; `gpib_command_mask` is 0x7f
unfoldable pub record_unknown : Irq → Tms → Tms
record_unknown irq c =
    let command_byte = c.cptr % 128 in
    let c1 = unknown_command command_byte c in
    let c2 =
      if in_primary_command_group command_byte && not (command_byte == pp_config)
      then record c1 { ppoll_configure_state = false }
      else c1 in
    if has irq.isr1 hr_unc then c2 else c

-- a bus error, and interface clear
unfoldable pub record_faults : Irq → Tms → Tms
record_faults irq c =
    let c1 = record c { bus_error = has irq.isr1 hr_err || c.bus_error } in
    if has irq.isr1 hr_ifc
    then record c1 { pushed = event_ifc ∷ c.pushed; status = without c.status cic }
    else c1

-- a trigger, a device clear, and a secondary address that the chip passes through
unfoldable pub record_messages : Irq → Tms → Tms
record_messages irq c =
    let c1 =
      if has irq.isr1 hr_get
      then write_byte aux_val auxcr
          (record c { pushed = event_dev_trg ∷ c.pushed; status = with c.status dtas })
      else c in
    let c2 =
      if has irq.isr1 hr_dcas
      then write_byte aux_val auxcr (record c1 {
        pushed = event_dev_clr ∷ c1.pushed;
        dev_clear = true;
        status = with c1.status dcas;
      })
      else c1 in
    let reply = if c.cptr % 128 == msa_of c.sad then aux_val else aux_inval in
    if has irq.isr1 hr_apt then write_byte reply auxcr c2 else c2

-- The process is woken for the interrupts that are enabled.
unfoldable pub tms9914_interrupt_have_status : Irq → Tms → Bool × Tms
tms9914_interrupt_have_status irq c =
    let c0 = record c { adsr = irq.adsr; bsr = irq.bsr; cptr = irq.cptr; dir = irq.dir } in
    let c1 = record_address irq (record_spas irq (record_bytes irq c0)) in
    let c2 = record_messages irq (record_faults irq (record_unknown irq c1)) in
    if not (mask 8 irq.isr0 c2.imr0_bits == 0) || not (mask 8 irq.isr1 c2.imr1_bits == 0)
    then (true, update_status_nolock c2)
    else (false, c2)
