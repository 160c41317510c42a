-- ===== src/Chips/Tms9914/Messages.antt =====
-- The whole message of `tms9914_write` of linux-gpib-kernel/drivers/gpib/tms9914/tms9914.c.
use linux_gpib.Prelude.{
  ℕ, ◌+◌, ◌-◌, ◌<◌, Bool, true, false, inl, inr, ◌≡◌, ◌≢◌, refl, sym, ap, ◌∙◌, ℤ, pos, is_neg, List,
  [], ◌∷◌, ◌==◌, if◌then◌else◌, length, take, drop, Bool-cases, arith, length-take, length-drop,
  nil_of_length,
}
use mathlib.Core.Path.{subst}
use linux_gpib.Chips.Tms9914.{Tms, write_byte}
use linux_gpib.Chips.Tms9914.Registers.{auxcr, aux_seoi}
use linux_gpib.Chips.Tms9914.Transfer.{pio_write, tms9914_write}
use linux_gpib.Chips.Tms9914.Kept.{bus_writes}
use linux_gpib.Chips.Tms9914.Writes.{wrote, is_quiet, pio_write_quiet, pio_write_over}

-- What a write is to put on the bus, newest first: END goes before the last byte.
abbrev pub message : List ℕ → Bool → List (ℕ × ℕ) → List (ℕ × ℕ)
message buffer false log = wrote buffer log
message buffer true log =
    let n = length buffer - 1 in
    wrote (take 1 (drop n buffer)) ((auxcr, aux_seoi) ∷ wrote (take n buffer) log)

-- A write is whole.
abbrev pub IsWhole : List ℕ → Bool → Tms → ℤ × ℕ × Tms → Type 0
IsWhole buffer send_eoi c (retval, n, c') =
    (n ≡ length buffer) × (bus_writes c'.log ≡ message buffer send_eoi (bus_writes c.log))

-- the write as a whole, without END and with it
write_plain :
    (buffer : List ℕ) (c : Tms)
    → 0 < length buffer
    → tms9914_write buffer false c
      ≡ pio_write buffer (record c { bus_error = false; dev_clear = false })
unfolding tms9914_write
write_plain buffer c some =
    let c0 = record c { bus_error = false; dev_clear = false } in
    let nonzero : (length buffer == 0) ≡ false = ground arith in
    elim (Bool-cases (is_neg (pio_write buffer c0).0)) [
      | inl e ↦ simp (nonzero, e) refl
      | inr e ↦ simp (nonzero, e) refl
    ]

-- the part of a write that END ends, after `r`
abbrev last_part : List ℕ → ℤ × ℕ × Tms → ℤ × ℕ × Tms
last_part buffer (r1, n1, c1) =
    let (r2, n2, c2) = pio_write (take 1 (drop n1 buffer)) (write_byte aux_seoi auxcr c1) in
    if is_neg r1 then (r1, n1, c1) else (r2, n1 + n2, c2)

write_single :
    (buffer : List ℕ) (c : Tms)
    → 0 < length buffer
    → length (take (length buffer - 1) buffer) ≡ 0
    → tms9914_write buffer true c
      ≡ last_part buffer (pos 0, 0, record c { bus_error = false; dev_clear = false })
unfolding tms9914_write
write_single buffer c some none =
    let nonzero : (length buffer == 0) ≡ false = ground arith in
    let zero_body : (length (take (length buffer - 1) buffer) == 0) ≡ true = ground (arith, none) in
    simp (nonzero, zero_body) refl

write_several :
    (buffer : List ℕ) (c : Tms)
    → 0 < length (take (length buffer - 1) buffer)
    → tms9914_write buffer true c
      ≡ last_part buffer (
          pio_write
            (take (length buffer - 1) buffer)
            (record c { bus_error = false; dev_clear = false }))
unfolding tms9914_write
write_several buffer c some =
    let body = take (length buffer - 1) buffer in
    let c0 = record c { bus_error = false; dev_clear = false } in
    let short = length-take (length buffer - 1) buffer in
    let nonzero : (length buffer == 0) ≡ false = ground (arith, some, short) in
    let body_nonzero : (length body == 0) ≡ false = ground (arith, some) in
    elim (Bool-cases (is_neg (pio_write body c0).0)) [
      | inl e ↦ simp (nonzero, body_nonzero, e) refl
      | inr e ↦ simp (nonzero, body_nonzero, e) refl
    ]

-- a result from which no failure and no end of the list can be seen
abbrev Whole : List ℕ → Bool → Tms → ℤ × ℕ × Tms → Type 0
Whole buffer send_eoi c (retval, n, c') =
    is_neg retval ≡ false → c'.later ≢ [] → IsWhole buffer send_eoi c (retval, n, c')

last_part-Whole :
    (buffer : List ℕ) (c : Tms) (r : ℤ × ℕ × Tms)
    → 0 < length buffer
    → (is_neg r.0 ≡ false
        → r.2.later ≢ []
        → (is_quiet r.2.later ≡ true)
          × (r.1 ≡ length buffer - 1)
          × (bus_writes r.2.log ≡ wrote (take (length buffer - 1) buffer) (bus_writes c.log)))
    → Whole buffer true c (last_part buffer r)
last_part-Whole buffer c (r1, n1, c1) some before = elim (Bool-cases (is_neg r1)) [
  | inl e ↦ simp e (λ fine alive. absurd cc)
  | inr e ↦ simp e (λ fine alive.
      let c2 = write_byte aux_seoi auxcr c1 in
      let last = take 1 (drop n1 buffer) in
      let (q1, count, w1) = before e (λ over. alive (pio_write_over last c2 over)) in
      let (q2, n2, w2) = pio_write_quiet last c2 q1 fine alive in
      let t = length-take 1 (drop n1 buffer) in
      let d = length-drop n1 buffer in
      (
        omega (arith, count, n2, t, d, some),
        w2
            ∙ (ap (λ log. wrote last ((auxcr, aux_seoi) ∷ log)) w1
                ∙ ap
                    (λ k. wrote (take 1 (drop k buffer)) (
                      (auxcr, aux_seoi)
                      ∷ wrote (take (length buffer - 1) buffer) (bus_writes c.log)))
                    count),
      ))
]

-- A write of one byte at least, in which no signal comes, and whose result is not negative (the
-- list of what happens has not run out), has counted every byte, and what it added to the writes
-- that matter to the bus is its message: the bytes in their order, with END before the last one if
-- it was asked for, each once.
pub tms9914_write-IsWhole :
    (buffer : List ℕ) (send_eoi : Bool) (c : Tms)
    → 0 < length buffer
    → is_quiet c.later ≡ true
    → is_neg (tms9914_write buffer send_eoi c).0 ≡ false
    → (tms9914_write buffer send_eoi c).2.later ≢ []
    → IsWhole buffer send_eoi c (tms9914_write buffer send_eoi c)
tms9914_write-IsWhole buffer false c some q =
    let c0 = record c { bus_error = false; dev_clear = false } in
    subst (Whole buffer false c) (sym (write_plain buffer c some))
      (λ fine alive. let (q1, n1, w1) = pio_write_quiet buffer c0 q fine alive in (n1, w1))
tms9914_write-IsWhole buffer true c some q =
    let c0 = record c { bus_error = false; dev_clear = false } in
    let body = take (length buffer - 1) buffer in
    let short = length-take (length buffer - 1) buffer in
    elim (Bool-cases (length body == 0)) [
      | inl e ↦
          let none : length body ≡ 0 = ground (arith, e) in
          subst (Whole buffer true c) (sym (write_single buffer c some none)) (
            last_part-Whole buffer c (pos 0, 0, c0) some
              (λ fine alive. (
                q,
                omega (arith, none, short),
                ap (λ bytes. wrote bytes (bus_writes c.log)) (sym (nil_of_length body none)),
              )))
      | inr e ↦ subst (Whole buffer true c) (sym (write_several buffer c (ground (arith, e)))) (
          last_part-Whole buffer c (pio_write body c0) some (λ fine alive.
            let (q1, n1, w1) = pio_write_quiet body c0 q fine alive in
            (q1, omega (arith, n1, short), w1)))
    ]
