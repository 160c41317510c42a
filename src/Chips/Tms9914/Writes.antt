-- ===== src/Chips/Tms9914/Writes.antt =====
-- What `tms9914_write` of linux-gpib-kernel/drivers/gpib/tms9914/tms9914.c puts on the bus.
use linux_gpib.Prelude.{
  ℕ, suc, Bool, true, false, ◌&&◌, ◌||◌, ◌⊎◌, inl, inr, ◌≡◌, ◌≢◌, refl, sym, ap, ◌∙◌, is_neg, List,
  [], ◌∷◌, length, take, has, Bool-cases,
}
use linux_gpib.Uapi.Status.{timo}
use linux_gpib.Chips.Tms9914.{Tms, Arrival, interrupt, timer, signal}
use linux_gpib.Chips.Tms9914.Registers.{cdor}
use linux_gpib.Chips.Tms9914.Interrupts.{tms9914_interrupt_have_status}
use linux_gpib.Chips.Tms9914.Waiting.{fire, sleep, wait_until}
use linux_gpib.Chips.Tms9914.Transfer.{
  write_condition, pio_write_wait, write_data, send_bytes, pio_write,
}
use linux_gpib.Chips.Tms9914.Kept.{bus_writes, wait_until-Kept}

-- Bytes that are written one after the other, newest first.
abbrev pub wrote : List ℕ → List (ℕ × ℕ) → List (ℕ × ℕ)
wrote [] log = log
wrote (byte ∷ rest) log = wrote rest ((cdor, byte) ∷ log)

-- what makes a wait of `pio_write` fail
abbrev failed : Tms → Bool
failed c = has c.status timo || c.bus_error || c.dev_clear

-- no signal comes before the list ends
unfoldable pub is_quiet : List Arrival → Bool
is_quiet [] = true
is_quiet (signal ∷ later) = false
is_quiet (timer ∷ later) = is_quiet later
is_quiet (interrupt irq ∷ later) = is_quiet later

sleep_quiet :
    (condition : Tms → Bool) (later : List Arrival) (c : Tms)
    → is_quiet later ≡ true
    → let (is_signal, c') = sleep condition later c in
      (is_quiet c'.later ≡ true) × ((is_signal ≡ false) ⊎ (c'.later ≡ []))
unfolding sleep is_quiet
sleep_quiet condition [] c q = (refl, inr refl)
sleep_quiet condition (signal ∷ later) c q = absurd cc
sleep_quiet condition (timer ∷ later) c q =
    let rest = sleep_quiet condition later (fire c) q in
    elim (Bool-cases (condition (fire c))) [ inl e ↦ simp e (q, inl refl) | inr e ↦ simp e rest ]
sleep_quiet condition (interrupt irq ∷ later) c q =
    let (handled, c') = tms9914_interrupt_have_status irq c in
    let rest = sleep_quiet condition later c' q in
    elim (Bool-cases (handled && condition c')) [
      | inl e ↦ simp e (q, inl refl)
      | inr e ↦ simp e rest
    ]

wait_until_quiet :
    (condition : Tms → Bool) (c : Tms)
    → is_quiet c.later ≡ true
    → let (is_signal, c') = wait_until condition c in
      (is_quiet c'.later ≡ true) × ((is_signal ≡ false) ⊎ (c'.later ≡ []))
unfolding wait_until
wait_until_quiet condition c q = elim (Bool-cases (condition c)) [
  | inl e ↦ simp e (q, inl refl)
  | inr e ↦ simp e (sleep_quiet condition c.later c q)
]

-- once the list has run out
wait_until_over :
    (condition : Tms → Bool) (c : Tms) → c.later ≡ [] → (wait_until condition c).1.later ≡ []
unfolding wait_until sleep
wait_until_over condition c over = elim (Bool-cases (condition c)) [
  | inl e ↦ simp e over
  | inr e ↦ simp (e, over) refl
]

-- The result of the wait follows from the chip that it leaves, and nothing else is changed there.
pub pio_write_wait_chip : (c : Tms) → (pio_write_wait c).1 ≡ (wait_until write_condition c).1
unfolding pio_write_wait
pio_write_wait_chip c =
    let (is_signal, c') = wait_until write_condition c in
    elim (Bool-cases is_signal) [
      | inl e ↦ simp e refl
      | inr e ↦ elim (Bool-cases (has c'.status timo)) [
        | inl e2 ↦ simp (e, e2) refl
        | inr e2 ↦ elim (Bool-cases c'.bus_error) [
          | inl e3 ↦ simp (e, e2, e3) refl
          | inr e3 ↦ elim (Bool-cases c'.dev_clear) [
            | inl e4 ↦ simp (e, e2, e3, e4) refl
            | inr e4 ↦ simp (e, e2, e3, e4) refl
          ]
        ]
      ]
    ]

-- without a signal, a failure is one that the chip shows
pio_write_wait-failed :
    (c : Tms)
    → (wait_until write_condition c).0 ≡ false
    → is_neg (pio_write_wait c).0 ≡ failed (wait_until write_condition c).1
unfolding pio_write_wait
pio_write_wait-failed c woken =
    let (is_signal, c') = wait_until write_condition c in
    elim (Bool-cases (has c'.status timo)) [
      | inl e2 ↦ simp (woken, e2) refl
      | inr e2 ↦ elim (Bool-cases c'.bus_error) [
        | inl e3 ↦ simp (woken, e2, e3) refl
        | inr e3 ↦ elim (Bool-cases c'.dev_clear) [
          | inl e4 ↦ simp (woken, e2, e3, e4) refl
          | inr e4 ↦ simp (woken, e2, e3, e4) refl
        ]
      ]
    ]

-- a failure that the chip shows is found again
failed_again : (c : Tms) → failed c ≡ true → is_neg (pio_write_wait c).0 ≡ true
unfolding wait_until write_condition
failed_again c e =
    let ready : write_condition c ≡ true = elim (Bool-cases c.bus_error) [
      | inl b ↦ elim (Bool-cases c.write_ready) [
        | inl w ↦ simp (w, b) refl
        | inr w ↦ simp (w, b) refl
      ]
      | inr b ↦ elim (Bool-cases c.dev_clear) [
        | inl d ↦ elim (Bool-cases c.write_ready) [
          | inl w ↦ simp (w, b, d) refl
          | inr w ↦ simp (w, b, d) refl
        ]
        | inr d ↦ elim (Bool-cases c.write_ready) [
          | inl w ↦ simp (w, b, d) refl
          | inr w ↦
              let late : has c.status timo ≡ true = elim (Bool-cases (has c.status timo)) [
                | inl t ↦ t
                | inr t ↦ let none : false ≡ true = simp (b, d, t) at e in absurd cc
              ] in
              simp (w, b, d, late) refl
        ]
      ]
    ] in
    let woken : wait_until write_condition c ≡ (false, c) = simp (wait_until, ready) refl in
    pio_write_wait-failed c (ap (λ p. p.0) woken) ∙ (ap (λ p. failed p.1) woken ∙ e)

-- How a wait of `pio_write` ends when no signal comes.
pio_write_wait_quiet :
    (c : Tms)
    → is_quiet c.later ≡ true
    → let (retval, c1) = pio_write_wait c in
      (is_quiet c1.later ≡ true)
      × (bus_writes c1.log ≡ bus_writes c.log)
      × ((is_neg retval ≡ failed c1) ⊎ (c1.later ≡ []))
pio_write_wait_quiet c q =
    let (is_signal, c') = wait_until write_condition c in
    let same = pio_write_wait_chip c in
    let (quiet, ended) = wait_until_quiet write_condition c q in
    let (_, _, _, _, _, _, _, writes) = wait_until-Kept write_condition c in
    (
      ap (λ x. is_quiet x.later) same ∙ quiet,
      ap (λ x. bus_writes x.log) same ∙ writes,
      elim ended [
        | inl woken ↦ inl (pio_write_wait-failed c woken ∙ sym (ap failed same))
        | inr over ↦ inr (ap (λ x. x.later) same ∙ over)
      ],
    )

-- once the list has run out
pio_write_wait_over : (c : Tms) → c.later ≡ [] → (pio_write_wait c).1.later ≡ []
pio_write_wait_over c over =
    ap (λ x. x.later) (pio_write_wait_chip c) ∙ wait_until_over write_condition c over

-- The loop puts the first of the bytes on the bus, in their order, and ends when all are sent, or
-- the chip shows a failure, or the list has run out.
send_bytes_quiet :
    (buffer : List ℕ) (c : Tms)
    → is_quiet c.later ≡ true
    → let (n, c') = send_bytes buffer c in
      (is_quiet c'.later ≡ true)
      × (bus_writes c'.log ≡ wrote (take n buffer) (bus_writes c.log))
      × ((n ≡ length buffer) ⊎ ((failed c' ≡ true) ⊎ (c'.later ≡ [])))
unfolding send_bytes
send_bytes_quiet [] c q = (q, refl, inl refl)
send_bytes_quiet (byte ∷ rest) c q =
    let (retval, c1) = pio_write_wait c in
    let (q1, w1, ended) = pio_write_wait_quiet c q in
    let (q2, w2, all) = send_bytes_quiet rest (write_data byte c1) q1 in
    elim (Bool-cases (is_neg retval)) [
      | inl e ↦ simp e (q1, w1, inr (elim ended [ inl f ↦ inl (sym f ∙ e) | inr over ↦ inr over ]))
      | inr e ↦ simp e (
        q2,
        w2
            ∙ ap
                (λ log.
                  wrote (take (send_bytes rest (write_data byte c1)).0 rest) ((cdor, byte) ∷ log))
                w1,
        elim all [ inl whole ↦ inl (ap suc whole) | inr ends ↦ inr ends ],
      )
    ]

send_bytes_over : (buffer : List ℕ) (c : Tms) → c.later ≡ [] → (send_bytes buffer c).1.later ≡ []
unfolding send_bytes
send_bytes_over [] c over = over
send_bytes_over (byte ∷ rest) c over =
    let (retval, c1) = pio_write_wait c in
    let o1 = pio_write_wait_over c over in
    elim (Bool-cases (is_neg retval)) [
      | inl e ↦ simp e o1
      | inr e ↦ simp e (send_bytes_over rest (write_data byte c1) o1)
    ]

take-length : (xs : List ℕ) → take (length xs) xs ≡ xs
take-length [] = refl
take-length (x ∷ xs) = ap (λ rest. x ∷ rest) (take-length xs)

-- when no signal comes, a result that is not negative means that all is sent
pub pio_write_quiet :
    (buffer : List ℕ) (c : Tms)
    → is_quiet c.later ≡ true
    → let (retval, n, c') = pio_write buffer c in
      is_neg retval ≡ false
      → c'.later ≢ []
      → (is_quiet c'.later ≡ true)
        × (n ≡ length buffer)
        × (bus_writes c'.log ≡ wrote buffer (bus_writes c.log))
unfolding pio_write
pio_write_quiet buffer c q fine alive =
    let (n, c1) = send_bytes buffer c in
    let (q1, w1, ends) = send_bytes_quiet buffer c q in
    let (retval, c2) = pio_write_wait c1 in
    let (q2, w2, ended) = pio_write_wait_quiet c1 q1 in
    let whole : n ≡ length buffer = elim ends [
      | inl all ↦ all
      | inr (inl f) ↦
          let neg = failed_again c1 f in let none : true ≡ false = simp neg at fine in absurd cc
      | inr (inr over) ↦ absurd (alive (pio_write_wait_over c1 over))
    ] in
    (
      q2,
      whole,
      w2
          ∙ (w1
              ∙ ap (λ bytes. wrote bytes (bus_writes c.log))
                  (ap (λ k. take k buffer) whole ∙ take-length buffer)),
    )

pub pio_write_over : (buffer : List ℕ) (c : Tms) → c.later ≡ [] → (pio_write buffer c).2.later ≡ []
unfolding pio_write
pio_write_over buffer c over =
    pio_write_wait_over (send_bytes buffer c).1 (send_bytes_over buffer c over)
