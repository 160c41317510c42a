-- ===== src/Chips/Nec7210/Mirror/Transfers.antt =====
-- linux-gpib-kernel/drivers/gpib/nec7210/nec7210.c: the software copies of the registers under
-- waits, command bytes, reading and writing.
use linux_gpib.Prelude.{
  ℕ, zero, suc, Bool, true, false, ◌&&◌, ◌≡◌, refl, ℤ, pos, List, [], ◌∷◌, ◌==◌, ltb, leb, length,
  has, with, if◌then◌else◌, Bool-cases, inl, inr, ◌⊎◌,
}
use mathlib.Core.Path.{subst}
use linux_gpib.Uapi.Status.{timo}
use linux_gpib.Uapi.Errno.{eintr, etimedout}
use linux_gpib.Chips.Nec7210.{Chip, cdor, hr_hlda, write_byte, nec7210_interrupt_have_status}
use linux_gpib.Chips.Nec7210.Waiting.{
  Arrival, interrupt, timer, signal, WaitEnd, woken, interrupted, asleep, sleep, wait_until,
}
use linux_gpib.Chips.Nec7210.Transfer.{Outcome, done, sleeping, out_of_fuel}
use linux_gpib.Chips.Nec7210.Command.{
  command_condition, send_commands, end_command, last_command, nec7210_command,
}
use linux_gpib.Chips.Nec7210.Receive.{
  nec7210_release_rfd_holdoff, read_condition, read_byte_in, read_bytes, nec7210_read,
  nec7210_read_data_in,
}
use linux_gpib.Chips.Nec7210.Resend.{Outcome-cases}
use linux_gpib.Chips.Nec7210.Mirror.{IsMirrored, write-IsMirrored}
use linux_gpib.Chips.Nec7210.Mirror.Settings.{
  if-IsMirrored, interrupt-IsMirrored, handshake-IsMirrored, release-IsMirrored,
}

-- a wait, and a function that waits, leave the copies right
abbrev pub EndsMirrored : WaitEnd → Type 0
EndsMirrored (woken c later) = IsMirrored c
EndsMirrored (interrupted c later) = IsMirrored c
EndsMirrored asleep = Unit {0}

abbrev pub LeavesMirrored : {A : Type 0} → Outcome A → Type 0
LeavesMirrored (done r c later) = IsMirrored c
LeavesMirrored sleeping = Unit {0}
LeavesMirrored out_of_fuel = Unit {0}

sleep-EndsMirrored :
    (condition : Chip → Bool) (later : List Arrival) (c : Chip)
    → IsMirrored c
    → EndsMirrored (sleep condition later c)
unfolding sleep
sleep-EndsMirrored condition [] c h = tt
sleep-EndsMirrored condition (signal ∷ later) c h = h
sleep-EndsMirrored condition (timer ∷ later) c h =
    let c' = record c { status = with c.status timo } in
    let rest = sleep-EndsMirrored condition later c' h in
    elim (Bool-cases (condition c')) [ inl e ↦ simp e h | inr e ↦ simp e rest ]
sleep-EndsMirrored condition (interrupt irq ∷ later) c h =
    let (handled, c') = nec7210_interrupt_have_status irq c in
    let h' = interrupt-IsMirrored irq c h in
    let rest = sleep-EndsMirrored condition later c' h' in
    elim (Bool-cases (handled && condition c')) [ inl e ↦ simp e h' | inr e ↦ simp e rest ]

pub wait_until-EndsMirrored :
    (condition : Chip → Bool) (later : List Arrival) (c : Chip)
    → IsMirrored c
    → EndsMirrored (wait_until condition later c)
unfolding wait_until
wait_until-EndsMirrored condition later c h = elim (Bool-cases (condition c)) [
  | inl e ↦ simp e h
  | inr e ↦ simp e (sleep-EndsMirrored condition later c h)
]

pub WaitEnd-cases :
    (w : WaitEnd)
    → (w ≡ asleep)
      ⊎ (((c : Chip) × (later : List Arrival) × (w ≡ interrupted c later))
          ⊎ ((c : Chip) × (later : List Arrival) × (w ≡ woken c later)))
WaitEnd-cases asleep = inl refl
WaitEnd-cases (interrupted c later) = inr (inl (c, later, refl))
WaitEnd-cases (woken c later) = inr (inr (c, later, refl))

-- a byte for the bus
pub data_byte-IsMirrored :
    (byte : ℕ) (c : Chip) → IsMirrored c → IsMirrored (write_byte byte cdor c)
data_byte-IsMirrored byte c h = write-IsMirrored byte cdor c refl refl refl refl h

pub if-LeavesMirrored :
    {A : Type 0} (b : Bool) (x y : Outcome A)
    → LeavesMirrored x
    → LeavesMirrored y
    → LeavesMirrored (if b then x else y)
if-LeavesMirrored true x y p q = p
if-LeavesMirrored false x y p q = q

send_commands-LeavesMirrored :
    (buffer : List ℕ) (n : ℕ) (later : List Arrival) (c : Chip)
    → IsMirrored c
    → LeavesMirrored (send_commands buffer n later c)
unfolding send_commands
send_commands-LeavesMirrored [] n later c h = h
send_commands-LeavesMirrored (byte ∷ rest) n later c h =
    let w = wait_until-EndsMirrored command_condition later c h in
    elim (WaitEnd-cases (wait_until command_condition later c)) [
      | inl e ↦ simp (send_commands, e) tt
      | inr (inl (c', later', e)) ↦ simp (send_commands, e) (subst EndsMirrored e w)
      | inr (inr (c', later', e)) ↦
          let h' : IsMirrored c' = subst EndsMirrored e w in
          let sent = write_byte byte cdor (record c' { command_ready = false }) in
          let more =
            send_commands-LeavesMirrored rest (suc n) later' sent
              (data_byte-IsMirrored byte (record c' { command_ready = false }) h') in
          let failed : Outcome (ℤ × ℕ) = done (pos 0, n) (record c' { bus_error = false }) later' in
          let timed : Outcome (ℤ × ℕ) = done (pos 0, n) c' later' in
          let next = send_commands rest (suc n) later' sent in
          simp (send_commands, e)
            (if-LeavesMirrored (has c'.status timo) timed (if c'.bus_error then failed else next) h'
              (if-LeavesMirrored c'.bus_error failed next h' more))
    ]

last_command-LeavesMirrored :
    (retval : ℤ) (n : ℕ) (later : List Arrival) (c : Chip)
    → IsMirrored c
    → LeavesMirrored (last_command retval n later c)
unfolding last_command end_command
last_command-LeavesMirrored retval n later c h =
    let w = wait_until-EndsMirrored command_condition later c h in
    elim (WaitEnd-cases (wait_until command_condition later c)) [
      | inl e ↦ simp (last_command, e) tt
      | inr (inl (c', later', e)) ↦ simp (last_command, e) (subst EndsMirrored e w)
      | inr (inr (c', later', e)) ↦ simp (last_command, e) (subst EndsMirrored e w)
    ]

pub nec7210_command-LeavesMirrored :
    (buffer : List ℕ) (later : List Arrival) (c : Chip)
    → IsMirrored c
    → LeavesMirrored (nec7210_command buffer later c)
unfolding nec7210_command
nec7210_command-LeavesMirrored buffer later c h =
    let start = record c { bus_error = false } in
    let o = send_commands-LeavesMirrored buffer 0 later start h in
    elim (Outcome-cases (send_commands buffer 0 later start)) [
      | inl e ↦ simp (nec7210_command, e) tt
      | inr (inl e) ↦ simp (nec7210_command, e) tt
      | inr (inr ((retval, n), c', later', e)) ↦
          simp (nec7210_command, e)
            (last_command-LeavesMirrored retval n later' c' (subst LeavesMirrored e o))
    ]

read_byte_in-IsMirrored :
    (buffer : List ℕ) (c : Chip) → IsMirrored c → IsMirrored (read_byte_in buffer c).2
unfolding read_byte_in nec7210_read_data_in
read_byte_in-IsMirrored buffer c h = elim (Bool-cases (length buffer == 0)) [
  | inl e ↦ simp e (handshake-IsMirrored hr_hlda c h)
  | inr e ↦ simp e h
]

read_bytes-LeavesMirrored :
    (fuel size : ℕ) (buffer : List ℕ) (later : List Arrival) (c : Chip)
    → IsMirrored c
    → LeavesMirrored (read_bytes fuel size buffer later c)
unfolding read_bytes
read_bytes-LeavesMirrored zero size buffer later c h = tt
read_bytes-LeavesMirrored (suc fuel) size buffer later c h =
    let w = wait_until-EndsMirrored read_condition later c h in
    elim (Bool-cases (leb size (length buffer))) [
      | inl full ↦ simp (read_bytes, full) h
      | inr room ↦ elim (WaitEnd-cases (wait_until read_condition later c)) [
        | inl e ↦ simp (read_bytes, room, e) tt
        | inr (inl (c', later', e)) ↦ simp (read_bytes, room, e) (subst EndsMirrored e w)
        | inr (inr (c', later', e)) ↦
            let h' : IsMirrored c' = subst EndsMirrored e w in
            let (more, end, taken) = read_byte_in buffer c' in
            let ready = c'.read_ready in
            let buffer' = if ready then more else buffer in
            let c2 = if ready then taken else c' in
            let h2 = if-IsMirrored ready taken c' (read_byte_in-IsMirrored buffer c' h') h' in
            let again = ltb (length buffer') size in
            let c3 = if again then nec7210_release_rfd_holdoff c2 else c2 in
            let h3 =
              if-IsMirrored again (nec7210_release_rfd_holdoff c2) c2 (release-IsMirrored c2 h2)
                h2 in
            let rest = read_bytes fuel size buffer' later' c3 in
            let ended : Outcome (ℤ × List ℕ × Bool) = done (pos 0, buffer', true) c2 later' in
            let timed : Outcome (ℤ × List ℕ × Bool) = done (etimedout, buffer', false) c2 later' in
            let cleared : Outcome (ℤ × List ℕ × Bool) = done (eintr, buffer', false) c2 later' in
            let last = if c'.dev_clear then cleared else rest in
            simp (read_bytes, room, e)
              (if-LeavesMirrored (ready && end) ended (if has c'.status timo then timed else last)
                h2
                (if-LeavesMirrored (has c'.status timo) timed last h2 (
                  if-LeavesMirrored c'.dev_clear cleared rest h2
                    (read_bytes-LeavesMirrored fuel size buffer' later' c3 h3))))
      ]
    ]

pub nec7210_read-LeavesMirrored :
    (fuel size : ℕ) (later : List Arrival) (c : Chip)
    → IsMirrored c
    → LeavesMirrored (nec7210_read fuel size later c)
unfolding nec7210_read
nec7210_read-LeavesMirrored fuel size later c h =
    let start = nec7210_release_rfd_holdoff (record c { dev_clear = false }) in
    if-LeavesMirrored (size == 0) (done (pos 0, [], false) c later)
      (read_bytes fuel size [] later start) h
      (read_bytes-LeavesMirrored fuel size [] later start
        (release-IsMirrored (record c { dev_clear = false }) h))
