-- ===== src/Chips/Nec7210/Command/Sent.antt =====
-- Which bytes `nec7210_command` of linux-gpib-kernel/drivers/gpib/nec7210/nec7210.c writes.
use mathlib.Core.Path.{subst}
use linux_gpib.Prelude.{
  ℕ, suc, ◌+◌, ◌≤◌, Bool, false, ◌&&◌, ◌≡◌, refl, sym, ap, ◌∙◌, inl, inr, ℤ, List, [], ◌∷◌, ◌++◌,
  ◌==◌, if◌then◌else◌, length, take, append-nil, append_assoc, has, with, Bool-cases, arith,
}
use linux_gpib.Uapi.Status.{timo}
use linux_gpib.Chips.Nec7210.{
  hr_cpt, hr_err, cdor, Trace, put, lost, Irq, Chip, write_byte, nec7210_update_status_nolock,
  record_status2, record_input, record_output, record_messages, is_handled,
  nec7210_interrupt_have_status,
}
use linux_gpib.Chips.Nec7210.Waiting.{
  Arrival, interrupt, timer, signal, WaitEnd, woken, interrupted, asleep, sleep, wait_until,
}
use linux_gpib.Chips.Nec7210.Transfer.{Outcome, done, sleeping, out_of_fuel}
use linux_gpib.Chips.Nec7210.Resend.{record_messages-IsSame, Outcome-cases}
use linux_gpib.Chips.Nec7210.Receive.Bounds.{WaitEnd-cases}
use linux_gpib.Chips.Nec7210.Command.{
  command_condition, send_commands, end_command, last_command, nec7210_command,
}

-- the bytes written to the output register, oldest first
unfoldable pub written : List Trace → List ℕ
written [] = []
written (lost ∷ log) = written log
written (put register byte ∷ log) =
    let before = written log in if register == cdor then before ++ byte ∷ [] else before

interrupt_writes :
    (irq : Irq) (c : Chip) → written (nec7210_interrupt_have_status irq c).1.log ≡ written c.log
unfolding nec7210_interrupt_have_status record_status2 record_input record_output write_byte written
    nec7210_update_status_nolock
interrupt_writes irq c =
    let c1 = record_input irq (record_status2 irq c) in
    let c2 = record_output irq c1 in
    let c3 = record_messages irq c2 in
    let output : written c2.log ≡ written c.log = elim (Bool-cases (has irq.isr1 hr_cpt)) [
      | inl e ↦ elim (Bool-cases (has irq.isr1 hr_err)) [
        | inl e2 ↦ simp (e, e2) refl
        | inr e2 ↦ simp (e, e2) refl
      ]
      | inr e ↦ elim (Bool-cases (has irq.isr1 hr_err)) [
        | inl e2 ↦ simp (e, e2) refl
        | inr e2 ↦ simp (e, e2) refl
      ]
    ] in
    let messages : written c3.log ≡ written c2.log = ap written (record_messages-IsSame irq c2).1 in
    elim (Bool-cases (is_handled irq c3)) [
      | inl e ↦ simp e (messages ∙ output)
      | inr e ↦ simp e (messages ∙ output)
    ]

-- a wait writes nothing to the output register
unfoldable IsIdle : List ℕ → WaitEnd → Type 0
IsIdle bytes (woken c later) = written c.log ≡ bytes
IsIdle bytes (interrupted c later) = written c.log ≡ bytes
IsIdle bytes asleep = Unit {0}

sleep-IsIdle :
    (condition : Chip → Bool) (later : List Arrival) (c : Chip) (bytes : List ℕ)
    → written c.log ≡ bytes
    → IsIdle bytes (sleep condition later c)
unfolding sleep IsIdle
sleep-IsIdle condition [] c bytes h = tt
sleep-IsIdle condition (signal ∷ later) c bytes h = h
sleep-IsIdle condition (timer ∷ later) c bytes h =
    let c' = record c { status = with c.status timo } in
    let rest = sleep-IsIdle condition later c' bytes h in
    elim (Bool-cases (condition c')) [ inl e ↦ simp e h | inr e ↦ simp e rest ]
sleep-IsIdle condition (interrupt irq ∷ later) c bytes h =
    let (handled, c') = nec7210_interrupt_have_status irq c in
    let h' = interrupt_writes irq c ∙ h in
    let rest = sleep-IsIdle condition later c' bytes h' in
    elim (Bool-cases (handled && condition c')) [ inl e ↦ simp e h' | inr e ↦ simp e rest ]

wait_until-IsIdle :
    (condition : Chip → Bool) (later : List Arrival) (c : Chip)
    → IsIdle (written c.log) (wait_until condition later c)
unfolding wait_until IsIdle
wait_until-IsIdle condition later c = elim (Bool-cases (condition c)) [
  | inl e ↦ simp e refl
  | inr e ↦ simp e (sleep-IsIdle condition later c (written c.log) refl)
]

-- An end of the loop, or of the function: the count is that of the bytes that were written, which
-- are the first of the buffer, behind what was written before.
unfoldable pub IsPrefix : List ℕ → ℕ → List ℕ → Outcome (ℤ × ℕ) → Type 0
IsPrefix before start buffer (done (retval, n) c later) =
    (k : ℕ) × (n ≡ start + k) × (k ≤ length buffer) × (written c.log ≡ before ++ take k buffer)
IsPrefix before start buffer sleeping = Unit {0}
IsPrefix before start buffer out_of_fuel = 1 ≤ 0

one_more :
    (before : List ℕ) (n byte : ℕ) (rest : List ℕ) (o : Outcome (ℤ × ℕ))
    → IsPrefix (before ++ byte ∷ []) (suc n) rest o
    → IsPrefix before n (byte ∷ rest) o
unfolding IsPrefix
one_more before n byte rest sleeping h = tt
one_more before n byte rest out_of_fuel h = h
one_more before n byte rest (done (retval, m) c later) (k, counted, inside, sent) =
    (suc k, omega arith, omega arith, sent ∙ append_assoc before (byte ∷ []) (take k rest))

send_commands-IsPrefix :
    (buffer : List ℕ) (n : ℕ) (later : List Arrival) (c : Chip)
    → IsPrefix (written c.log) n buffer (send_commands buffer n later c)
unfolding send_commands IsPrefix IsIdle written write_byte
send_commands-IsPrefix [] n later c =
    (0, omega arith, omega arith, sym (append-nil (written c.log)))
send_commands-IsPrefix (byte ∷ rest) n later c =
    let before = written c.log in
    elim (WaitEnd-cases (wait_until command_condition later c)) [
      | inl w ↦ simp (send_commands, w) tt
      | inr (inl (c', later', w)) ↦
          let idle = subst (IsIdle before) w (wait_until-IsIdle command_condition later c) in
          simp (send_commands, w) (0, omega arith, omega arith, idle ∙ sym (append-nil before))
      | inr (inr (c', later', w)) ↦
          let idle = subst (IsIdle before) w (wait_until-IsIdle command_condition later c) in
          elim (Bool-cases (has c'.status timo)) [
            | inl t ↦
                simp (send_commands, w, t)
                  (0, omega arith, omega arith, idle ∙ sym (append-nil before))
            | inr t ↦ elim (Bool-cases c'.bus_error) [
              | inl b ↦
                  simp (send_commands, w, t, b)
                    (0, omega arith, omega arith, idle ∙ sym (append-nil before))
              | inr b ↦
                  let sent =
                    write_byte byte cdor (record c' { command_ready = false; bus_error = false }) in
                  let now : written sent.log ≡ before ++ byte ∷ [] =
                    ap (λ bytes. bytes ++ byte ∷ []) idle in
                  let later_sent = send_commands-IsPrefix rest (suc n) later' sent in
                  let o = send_commands rest (suc n) later' sent in
                  simp (send_commands, w, t, b)
                    (one_more before n byte rest o
                      (subst (λ bytes. IsPrefix bytes (suc n) rest o) now later_sent))
            ]
          ]
    ]

-- What the wait behind the loop leaves.
last_command-IsPrefix :
    (before : List ℕ) (buffer : List ℕ) (retval : ℤ) (n : ℕ) (later : List Arrival) (c : Chip)
    → n ≤ length buffer
    → written c.log ≡ before ++ take n buffer
    → IsPrefix before 0 buffer (last_command retval n later c)
unfolding last_command end_command IsPrefix IsIdle
last_command-IsPrefix before buffer retval n later c inside h =
    let bytes = before ++ take n buffer in
    let ended =
      subst (λ x. IsIdle x (wait_until command_condition later c)) h
        (wait_until-IsIdle command_condition later c) in
    elim (WaitEnd-cases (wait_until command_condition later c)) [
      | inl w ↦ simp (last_command, w) tt
      | inr (inl (c', later', w)) ↦
          simp (last_command, w) (n, omega arith, inside, subst (IsIdle bytes) w ended)
      | inr (inr (c', later', w)) ↦
          simp (last_command, w) (n, omega arith, inside, subst (IsIdle bytes) w ended)
    ]

-- Whatever happens while it waits, `nec7210_command` ends or sleeps for ever; where it ends, in
-- success or with an error, `*bytes_written` is the number of bytes that it has written to the
-- chip, and these are the first bytes of the buffer, in order and each once.
pub nec7210_command-IsPrefix :
    (buffer : List ℕ) (later : List Arrival) (c : Chip)
    → IsPrefix (written c.log) 0 buffer (nec7210_command buffer later c)
unfolding nec7210_command IsPrefix
nec7210_command-IsPrefix buffer later c =
    let c1 = record c { bus_error = false } in
    let looped = send_commands-IsPrefix buffer 0 later c1 in
    elim (Outcome-cases (send_commands buffer 0 later c1)) [
      | inl o ↦ simp (nec7210_command, o) tt
      | inr (inl o) ↦
          let out = subst (IsPrefix (written c.log) 0 buffer) o looped in absurd (omega arith)
      | inr (inr ((retval, n), c', later', o)) ↦
          let (k, counted, inside, sent) = subst (IsPrefix (written c.log) 0 buffer) o looped in
          let same : k ≡ n = omega arith in
          simp (nec7210_command, o)
            (last_command-IsPrefix (written c.log) buffer retval n later' c' (omega arith)
              (sent ∙ ap (λ m. written c.log ++ take m buffer) same))
    ]
