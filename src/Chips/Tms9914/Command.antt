-- ===== src/Chips/Tms9914/Command.antt =====
-- linux-gpib-kernel/drivers/gpib/tms9914/tms9914.c: sending command bytes, from which the board in
-- charge finds out whether it is to talk or to listen itself.
use linux_gpib.Prelude.{
  ℕ, suc, ◌+◌, ◌/◌, ◌%◌, Bool, true, false, not, ◌&&◌, ◌||◌, ℤ, pos, is_neg, List, [], ◌∷◌, ◌==◌,
  if◌then◌else◌, has,
}
use linux_gpib.Uapi.Errno.{etimedout, erestartsys}
use linux_gpib.Uapi.Status.{timo}
use linux_gpib.Uapi.Commands.{mla, mta, unl, unt}
use linux_gpib.Chips.Tms9914.{Tms, write_byte}
use linux_gpib.Chips.Tms9914.Registers.{auxcr, cdor, aux_cs, aux_lon, aux_ton}
use linux_gpib.Chips.Tms9914.Interrupts.{msa_of}
use linux_gpib.Chips.Tms9914.Waiting.{wait_until}

-- Listen only, or talk only, is set or cleared.
abbrev lon : Bool → Tms → Tms
lon is_set c = write_byte (if is_set then aux_lon + aux_cs else aux_lon) auxcr c

abbrev ton : Bool → Tms → Tms
ton is_set c = write_byte (if is_set then aux_ton + aux_cs else aux_ton) auxcr c

-- the tests from MTA on
unfoldable pub check_my_talk_state : ℕ → Tms → Tms
check_my_talk_state cmd_byte c =
    let talk = record c { primary_talk_addressed = true } in
    let idle = record c { primary_talk_addressed = false } in
    if cmd_byte == mta c.pad
    then (if is_neg c.sad then ton true talk else talk)
    else (if not (is_neg c.sad) && (c.primary_talk_addressed && cmd_byte == msa_of c.sad)
        then ton true c
        else (if not (cmd_byte == mta c.pad) && cmd_byte / 32 % 8 == 2
            then ton false idle
            else (if cmd_byte == unt then ton false idle else c)))

-- `cmd_byte & 0xe0` is LAD or TAD if its upper three bits are 1 or 2.
unfoldable pub check_my_address_state : ℕ → Tms → Tms
check_my_address_state cmd_byte c =
    let listen = record c { primary_listen_addressed = true } in
    let idle = record c { primary_listen_addressed = false } in
    if cmd_byte == mla c.pad
    then (if is_neg c.sad then lon true listen else listen)
    else (if not (is_neg c.sad) && (c.primary_listen_addressed && cmd_byte == msa_of c.sad)
        then lon true c
        else (if not (cmd_byte == mla c.pad) && cmd_byte / 32 % 8 == 1
            then idle
            else (if cmd_byte == unl then lon false idle else check_my_talk_state cmd_byte c)))

-- the condition of both waits
unfoldable pub command_condition : Tms → Bool
command_condition c = c.command_ready || has c.status timo

-- The loop: `*bytes_written`.
unfoldable pub send_commands : List ℕ → Tms → ℕ × Tms
send_commands [] c = (0, c)
send_commands (byte ∷ rest) c =
    let (is_signal, c1) = wait_until command_condition c in
    let written = write_byte byte cdor (record c1 { command_ready = false }) in
    let sent = send_commands rest (check_my_address_state byte written) in
    if is_signal || has c1.status timo then (0, c1) else (suc sent.0, sent.1)

unfoldable pub tms9914_command : List ℕ → Tms → ℤ × ℕ × Tms
tms9914_command buffer c =
    let (bytes_written, c1) = send_commands buffer c in
    let (is_signal, c2) = wait_until command_condition c1 in
    let retval = if is_signal then erestartsys else pos 0 in
    ((if has c2.status timo then etimedout else retval), bytes_written, c2)
