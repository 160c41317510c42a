-- ===== src/Chips/Nec7210/Resend.antt =====
-- The loop of `pio_write` in linux-gpib-kernel/drivers/gpib/nec7210/nec7210.c against what the chip
-- has taken: a byte is lost if the next thing that happens to it is an error.
use linux_gpib.Uapi.Status.{timo}
use mathlib.Core.Path.{subst}
use linux_gpib.Prelude.{
  ℕ, zero, suc, Bool, true, false, not, ◌≤◌, ◌&&◌, ◌⊎◌, is_neg, ◌==ℤ◌, ◌≡◌, refl, sym, ap, ◌∙◌, inl,
  inr, with, ℤ, pos, List, [], ◌∷◌, ◌++◌, ◌==◌, if◌then◌else◌, length, take, drop, has, ltb,
  append-nil, take-append-drop, Bool-cases, arith,
}
use linux_gpib.Chips.Nec7210.{
  hr_dec, hr_det, hr_cpt, hr_err, hr_cic, cdor, Trace, put, lost, Irq, Chip, write_byte,
  nec7210_update_status_nolock, record_status2, record_input, record_output, record_messages,
  is_handled, nec7210_interrupt_have_status,
}
use linux_gpib.Chips.Nec7210.Waiting.{
  Arrival, interrupt, timer, signal, WaitEnd, woken, interrupted, asleep, sleep, wait_until,
}
use linux_gpib.Chips.Nec7210.Transfer.{
  Outcome, done, sleeping, out_of_fuel, write_condition, woken_result, pio_write_wait, end_wait,
  write_data, with_count, write_bytes, max_bus_errors_of, pio_write,
}
use linux_gpib.Uapi.Errno.{eio}

-- The data bytes in a log, oldest first; with `true`, the last of them is lost.
unfoldable pub taken : Bool → List Trace → List ℕ
taken is_lost [] = []
taken is_lost (lost ∷ log) = taken true log
taken is_lost (put register byte ∷ log) =
    let before = taken false log in
    let skipped = taken is_lost log in
    if register == cdor then (if is_lost then before else before ++ byte ∷ []) else skipped

-- A chip of type NEC7210 has taken `all`, or `safe` once an error is reported, and would have taken
-- `safe` after an error.
abbrev IsAt : List ℕ → List ℕ → Chip → Type 0
IsAt all safe c =
    (c.is_nec7210 ≡ true)
    × (taken true c.log ≡ safe)
    × (taken false c.log ≡ (if c.bus_error then safe else all))

-- the fields that `IsAt` reads
abbrev pub IsSame : Chip → Chip → Type 0
IsSame c c' = (c'.is_nec7210 ≡ c.is_nec7210) × (c'.log ≡ c.log) × (c'.bus_error ≡ c.bus_error)

same-IsAt : (all safe : List ℕ) (c c' : Chip) → IsSame c c' → IsAt all safe c → IsAt all safe c'
same-IsAt all safe c c' (e1, e2, e3) h = rw e1 (rw e2 (rw e3 h))

pub record_messages-IsSame : (irq : Irq) (c : Chip) → IsSame c (record_messages irq c)
unfolding record_messages
record_messages-IsSame irq c =
    elim (Bool-cases (has irq.isr1 hr_dec && not (has irq.adsr hr_cic))) [
      | inl e ↦ elim (Bool-cases (has irq.isr1 hr_det)) [
        | inl e2 ↦ simp (e, e2) (refl, refl, refl)
        | inr e2 ↦ simp (e, e2) (refl, refl, refl)
      ]
      | inr e ↦ elim (Bool-cases (has irq.isr1 hr_det)) [
        | inl e2 ↦ simp (e, e2) (refl, refl, refl)
        | inr e2 ↦ simp (e, e2) (refl, refl, refl)
      ]
    ]

record_output-IsAt :
    (all safe : List ℕ) (irq : Irq) (c : Chip)
    → IsAt all safe c
    → IsAt all safe (record_output irq c)
unfolding record_output write_byte taken
record_output-IsAt all safe irq c h = elim (Bool-cases (has irq.isr1 hr_cpt)) [
  | inl e ↦ elim (Bool-cases (has irq.isr1 hr_err)) [
    | inl e2 ↦ simp (e, e2) (h.0, h.1, h.1)
    | inr e2 ↦ simp (e, e2) h
  ]
  | inr e ↦ elim (Bool-cases (has irq.isr1 hr_err)) [
    | inl e2 ↦ simp (e, e2) (h.0, h.1, h.1)
    | inr e2 ↦ simp (e, e2) h
  ]
]

interrupt-IsAt :
    (all safe : List ℕ) (irq : Irq) (c : Chip)
    → IsAt all safe c
    → IsAt all safe (nec7210_interrupt_have_status irq c).1
unfolding nec7210_interrupt_have_status record_status2 record_input nec7210_update_status_nolock
interrupt-IsAt all safe irq c h =
    let c1 = record_input irq (record_status2 irq c) in
    let c2 = record_output irq c1 in
    let c3 = record_messages irq c2 in
    let h2 = record_output-IsAt all safe irq c1 h in
    let h3 = same-IsAt all safe c2 c3 (record_messages-IsSame irq c2) h2 in
    elim (Bool-cases (is_handled irq c3)) [ inl e ↦ simp e h3 | inr e ↦ simp e h3 ]

-- a wait that ends, ends at such a chip
unfoldable IsAtEnd : List ℕ → List ℕ → WaitEnd → Type 0
IsAtEnd all safe (woken c later) = IsAt all safe c
IsAtEnd all safe (interrupted c later) = IsAt all safe c
IsAtEnd all safe asleep = Unit {0}

sleep-IsAt :
    (all safe : List ℕ) (condition : Chip → Bool) (later : List Arrival) (c : Chip)
    → IsAt all safe c
    → IsAtEnd all safe (sleep condition later c)
unfolding sleep IsAtEnd
sleep-IsAt all safe condition [] c h = tt
sleep-IsAt all safe condition (signal ∷ later) c h = h
sleep-IsAt all safe condition (timer ∷ later) c h =
    let c' = record c { status = with c.status timo } in
    let rest = sleep-IsAt all safe condition later c' h in
    elim (Bool-cases (condition c')) [ inl e ↦ simp e h | inr e ↦ simp e rest ]
sleep-IsAt all safe condition (interrupt irq ∷ later) c h =
    let (handled, c') = nec7210_interrupt_have_status irq c in
    let h' = interrupt-IsAt all safe irq c h in
    let rest = sleep-IsAt all safe condition later c' h' in
    elim (Bool-cases (handled && condition c')) [ inl e ↦ simp e h' | inr e ↦ simp e rest ]

wait_until-IsAt :
    (all safe : List ℕ) (condition : Chip → Bool) (later : List Arrival) (c : Chip)
    → IsAt all safe c
    → IsAtEnd all safe (wait_until condition later c)
unfolding wait_until IsAtEnd
wait_until-IsAt all safe condition later c h = elim (Bool-cases (condition c)) [
  | inl e ↦ simp e h
  | inr e ↦ simp e (sleep-IsAt all safe condition later c h)
]

-- What `pio_write_wait` returns: an error of the bus is no longer noted, 0 means that there is none.
unfoldable IsWaited : List ℕ → List ℕ → Outcome ℤ → Type 0
IsWaited all safe (done retval c later) =
    ((retval ≡ eio) × (c.bus_error ≡ false) × IsAt safe safe c)
    ⊎ ((retval ≡ pos 0) × (c.bus_error ≡ false) × IsAt all safe c)
    ⊎ ((is_neg retval ≡ true) × ((retval ==ℤ eio) ≡ false))
IsWaited all safe sleeping = Unit {0}
IsWaited all safe out_of_fuel = Unit {0}

end_wait-IsWaited :
    (all safe : List ℕ) (w : WaitEnd) → IsAtEnd all safe w → IsWaited all safe (end_wait true w)
unfolding IsAtEnd IsWaited end_wait woken_result
end_wait-IsWaited all safe asleep h = tt
end_wait-IsWaited all safe (interrupted c later) h = inr (inr (refl, refl))
end_wait-IsWaited all safe (woken c later) h = elim (Bool-cases (has c.status timo)) [
  | inl e ↦ simp e (inr (inr (refl, refl)))
  | inr e ↦ elim (Bool-cases c.dev_clear) [
    | inl e2 ↦ simp (e, e2) (inr (inr (refl, refl)))
    | inr e2 ↦ elim (Bool-cases c.bus_error) [
      | inl e3 ↦
          let accepted : taken false c.log ≡ safe = h.2 ∙ simp e3 refl in
          simp (e, e2, e3) (inl (refl, refl, (h.0, h.1, accepted)))
      | inr e3 ↦ simp (e, e2, e3) (inr (inl (refl, refl, (h.0, h.1, h.2 ∙ simp e3 refl))))
    ]
  ]
]

pio_write_wait-IsWaited :
    (all safe : List ℕ) (on_lacs on_atn : Bool) (later : List Arrival) (c : Chip)
    → IsAt all safe c
    → IsWaited all safe (pio_write_wait on_lacs on_atn later c)
unfolding pio_write_wait
pio_write_wait-IsWaited all safe on_lacs on_atn later c h =
    let condition = write_condition on_lacs on_atn true in
    simp (h.0) (
      end_wait-IsWaited all safe (wait_until condition later c)
        (wait_until-IsAt all safe condition later c h))

-- the part of the buffer that starts at an index
pub drop-cases :
    (n : ℕ) (xs : List ℕ)
    → n ≤ length xs
    → ((drop n xs ≡ []) × (n ≡ length xs))
      ⊎ ((byte : ℕ) × (rest : List ℕ) × (drop n xs ≡ byte ∷ rest)
          × (take (suc n) xs ≡ take n xs ++ byte ∷ [])
          × (suc n ≤ length xs))
drop-cases zero [] h = inl (refl, refl)
drop-cases zero (x ∷ xs) h = inr (x, xs, refl, refl, omega arith)
drop-cases (suc n) [] h = inl (refl, omega arith)
drop-cases (suc n) (x ∷ xs) h = elim (drop-cases n xs (omega arith)) [
  | inl (none_left, counted) ↦ inl (none_left, ap suc counted)
  | inr (byte, rest, e, e2, inside) ↦ inr (byte, rest, e, ap (◌∷◌ x) e2, omega arith)
]

-- a result 0 says that the chip has taken the buffer, and that the count is right
unfoldable pub IsSent : List ℕ → Outcome (ℤ × ℕ) → Type 0
IsSent buffer (done (retval, n) c later) =
    retval ≡ pos 0 → (taken false c.log ≡ buffer) × (n ≡ length buffer)
IsSent buffer sleeping = Unit {0}
IsSent buffer out_of_fuel = Unit {0}

count-IsSent :
    (buffer safe : List ℕ) (o : Outcome ℤ)
    → IsWaited buffer safe o
    → IsSent buffer (with_count (length buffer) o)
unfolding with_count IsSent IsWaited
count-IsSent buffer safe sleeping w = tt
count-IsSent buffer safe out_of_fuel w = tt
count-IsSent buffer safe (done retval c later) (inl (e, clean, at)) = λ z. absurd cc
count-IsSent buffer safe (done retval c later) (inr (inl (e, clean, at))) =
    λ z. (at.2 ∙ simp clean refl, refl)
count-IsSent buffer safe (done retval c later) (inr (inr (neg, other))) =
    λ z. let f : is_neg retval ≡ false = ap is_neg z in absurd cc

write_data-IsAt :
    (all safe : List ℕ) (byte : ℕ) (c : Chip)
    → c.bus_error ≡ false
    → IsAt all safe c
    → IsAt (all ++ byte ∷ []) all (write_data byte c)
unfolding write_data write_byte taken
write_data-IsAt all safe byte c clean h =
    let before : taken false c.log ≡ all = h.2 ∙ simp clean refl in
    (h.0, before, ap (λ bytes. bytes ++ byte ∷ []) before)

pub Outcome-cases :
    {A : Type 0} (o : Outcome A)
    → (o ≡ sleeping)
      ⊎ (o ≡ out_of_fuel)
      ⊎ ((x : A) × (c : Chip) × (later : List Arrival) × (o ≡ done x c later))
Outcome-cases sleeping = inl refl
Outcome-cases out_of_fuel = inr (inl refl)
Outcome-cases (done x c later) = inr (inr (x, c, later, refl))

write_bytes-IsSent :
    (fuel : ℕ) (buffer : List ℕ) (limit errors last_count bytes_written : ℕ) (later : List Arrival)
    (c : Chip)
    → last_count ≤ length buffer
    → bytes_written ≤ length buffer
    → IsAt (take bytes_written buffer) (take last_count buffer) c
    → IsSent buffer (write_bytes fuel buffer limit errors last_count bytes_written later c)
unfolding write_bytes IsSent IsWaited
write_bytes-IsSent zero buffer limit errors last_count bytes_written later c in_last inside h = tt
write_bytes-IsSent (suc fuel) buffer limit errors last_count bytes_written later c in_last inside
      h =
    let all = take bytes_written buffer in
    let safe = take last_count buffer in
    elim (drop-cases bytes_written buffer inside) [
      | inl (none_left, counted) ↦
          let whole =
            sym (append-nil all)
            ∙ (ap (λ bytes. all ++ bytes) (sym none_left)
                ∙ take-append-drop bytes_written buffer) in
          simp (write_bytes, none_left)
            (rw counted (
              count-IsSent buffer safe (pio_write_wait true true later c) (
                pio_write_wait-IsWaited buffer safe true true later c
                  (subst (λ bytes. IsAt bytes safe c) whole h))))
      | inr (byte, rest, e, grown, more) ↦
          elim (Outcome-cases (pio_write_wait false false later c)) [
            | inl o ↦ simp (write_bytes, e, o) tt
            | inr (inl o) ↦ simp (write_bytes, e, o) tt
            | inr (inr (retval, c', later', o)) ↦
                let waited =
                  subst (IsWaited all safe) o
                    (pio_write_wait-IsWaited all safe false false later c h) in
                elim waited [
                  | inl (r, clean, at) ↦ elim (Bool-cases (ltb limit (suc errors))) [
                    | inl over ↦ simp (write_bytes, e, o, r, over) (λ z. absurd cc)
                    | inr under ↦
                        simp (write_bytes, e, o, r, under)
                          (write_bytes-IsSent fuel buffer limit (suc errors) last_count last_count
                            later' c' in_last in_last at)
                  ]
                  | inr (inl (r, clean, at)) ↦
                      simp (write_bytes, e, o, r)
                        (write_bytes-IsSent fuel buffer limit errors bytes_written
                          (suc bytes_written) later' (write_data byte c') inside more
                          (rw grown (write_data-IsAt all safe byte c' clean at)))
                  | inr (inr (neg, other)) ↦
                      simp (write_bytes, e, o, other, neg)
                        (λ z. let f : is_neg retval ≡ false = ap is_neg z in absurd cc)
                ]
          ]
    ]

-- Let a chip of type NEC7210 have an empty log. If `pio_write` returns 0, whatever happened while it
-- waited, then the chip has taken exactly the bytes of the buffer, in order, each byte that was lost
-- to an error of the bus sent again; and `*bytes_written` is the buffer's length.
pub pio_write-taken :
    (fuel : ℕ) (buffer : List ℕ) (later : List Arrival) (c : Chip)
    → (n : ℕ) (c' : Chip) (later' : List Arrival) → c.is_nec7210 ≡ true
    → c.log ≡ []
    → pio_write fuel buffer later c ≡ done (pos 0, n) c' later'
    → (taken false c'.log ≡ buffer) × (n ≡ length buffer)
unfolding pio_write taken IsSent
pio_write-taken fuel buffer later c n c' later' kind empty e =
    let sent =
      write_bytes-IsSent fuel buffer (max_bus_errors_of (length buffer)) 0 0 0 later
        (record c { bus_error = false }) (omega arith) (omega arith)
        (kind, simp empty refl, simp empty refl) in
    subst (IsSent buffer) e sent refl
