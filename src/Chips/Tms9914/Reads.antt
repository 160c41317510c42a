-- ===== src/Chips/Tms9914/Reads.antt =====
-- What `tms9914_read` of linux-gpib-kernel/drivers/gpib/tms9914/tms9914.c reads, and how it leaves
-- the handshake.
use linux_gpib.Prelude.{
  ℕ, zero, suc, ◌+◌, ◌-◌, ◌≤◌, ◌<◌, Bool, true, false, ◌||◌, ◌⊎◌, inl, inr, ◌≡◌, refl, ap, ℤ, pos,
  is_neg, List, ◌∷◌, ◌++◌, ◌==◌, ltb, if◌then◌else◌, length, length-append, has, Bool-cases, arith,
}
use linux_gpib.Uapi.Status.{reos}
use linux_gpib.Chips.Tms9914.{holdoff_eoi, holdoff_all, Tms}
use linux_gpib.Chips.Tms9914.Settings.{tms9914_set_holdoff_mode, tms9914_release_holdoff}
use linux_gpib.Chips.Tms9914.Transfer.{
  check_for_eos, wait_for_read_byte, tms9914_read_data_in, pio_read, read_first, tms9914_read,
}
use linux_gpib.Chips.Tms9914.Holdoff.{
  wait_for_read_byte-cases, pio_read-IsHeld, set_mode_holds, read_first-IsHeld,
}

-- What the loop returns: no more than was asked for, and unless it fails, no less without END.
abbrev IsCounted : ℕ → ℤ × Bool × List ℕ × Tms → Type 0
IsCounted size (retval, end, bytes, c) =
    (length bytes ≤ size)
    × ((is_neg retval ≡ true)
        ⊎ ((retval ≡ pos 0)
            × (((end ≡ true) × (0 < length bytes)) ⊎ ((end ≡ false) × (length bytes ≡ size)))))

one_more :
    (size byte : ℕ) (r : ℤ × Bool × List ℕ × Tms)
    → IsCounted size r
    → IsCounted (suc size) (r.0, r.1, byte ∷ r.2, r.3)
one_more size byte (retval, end, bytes, c) (within, inl e) = (omega arith, inl e)
one_more size byte (retval, end, bytes, c) (within, inr (z, inl (e, some))) =
    (omega arith, inr (z, inl (e, omega arith)))
one_more size byte (retval, end, bytes, c) (within, inr (z, inr (e, whole))) =
    (omega arith, inr (z, inr (e, omega arith)))

not_negative :
    (retval : ℤ)
    → (retval ≡ pos 0) ⊎ (is_neg retval ≡ true)
    → is_neg retval ≡ false
    → retval ≡ pos 0
not_negative retval (inl z) e = z
not_negative retval (inr n) e = absurd cc

pio_read-IsCounted : (size : ℕ) (c : Tms) → IsCounted size (pio_read size c)
unfolding pio_read
pio_read-IsCounted zero c = (omega arith, inr (refl, inr (refl, refl)))
pio_read-IsCounted (suc size) c =
    let (retval, c1) = wait_for_read_byte (tms9914_release_holdoff c) in
    let (byte, end, c2) = tms9914_read_data_in c1 in
    let rest = pio_read size c2 in
    let more = pio_read-IsCounted size c2 in
    elim (Bool-cases (is_neg retval)) [
      | inl e ↦ simp e (omega arith, inl refl)
      | inr e ↦ elim (Bool-cases (end || check_for_eos byte c2)) [
        | inl e2 ↦
            let fine : retval ≡ pos 0 =
              not_negative retval (wait_for_read_byte-cases (tms9914_release_holdoff c)).1 e in
            simp (e, e2) (omega arith, inr (fine, inl (refl, omega arith)))
        | inr e2 ↦ simp (e, e2) (one_more size byte rest more)
      ]
    ]

-- a read that leaves a byte for the second part
abbrev IsFirst : ℕ → ℤ × Bool × List ℕ × Tms → Type 0
IsFirst size (retval, end, bytes, c) =
    (length bytes < size)
    × ((is_neg retval ≡ true)
        ⊎ ((retval ≡ pos 0)
            × (((end ≡ true) × (0 < length bytes)) ⊎ ((end ≡ false) × (length bytes + 1 ≡ size)))))

one_short :
    (size : ℕ) (r : ℤ × Bool × List ℕ × Tms) → 1 < size → IsCounted (size - 1) r → IsFirst size r
one_short size (retval, end, bytes, c) big (within, inl e) = (omega arith, inl e)
one_short size (retval, end, bytes, c) big (within, inr (z, inl e)) = (omega arith, inr (z, inl e))
one_short size (retval, end, bytes, c) big (within, inr (z, inr (e, whole))) =
    (omega arith, inr (z, inr (e, omega arith)))

read_first-IsFirst : (size : ℕ) (c : Tms) → 0 < size → IsFirst size (read_first size c)
unfolding read_first
read_first-IsFirst size c some = elim (Bool-cases (ltb 1 size)) [
  | inr e ↦ simp e (omega arith, inr (refl, inr (refl, ground (arith, e, some))))
  | inl e ↦
      let mode = if has c.eos_flags reos then holdoff_all else holdoff_eoi in
      let c0 = tms9914_set_holdoff_mode mode c in
      simp e (
        one_short size (pio_read (size - 1) c0) (ground (arith, e))
          (pio_read-IsCounted (size - 1) c0))
]

-- a whole read, as the driver's client sees it, and the handshake that it leaves
unfoldable pub IsComplete : ℕ → ℤ × Bool × List ℕ × Tms → Type 0
IsComplete size (retval, end, bytes, c) =
    (length bytes ≤ size)
    × ((is_neg retval ≡ true)
        ⊎ ((retval ≡ pos 0)
            × (c.holdoff_active ≡ true)
            × (((end ≡ true) × (0 < length bytes)) ⊎ ((end ≡ false) × (length bytes ≡ size)))))

second_part :
    (size : ℕ) (first : List ℕ) (r : ℤ × Bool × List ℕ × Tms)
    → length first + 1 ≡ size
    → IsCounted (size - length first) r
    → (is_neg r.0 ≡ false → r.3.holdoff_active ≡ true)
    → IsComplete size ((if is_neg r.0 then r.0 else pos 0), r.1, first ++ r.2, r.3)
unfolding IsComplete
second_part size first (retval, end, bytes, c) one (within, ended) held =
    let total = length-append first bytes in
    elim (Bool-cases (is_neg retval)) [
      | inl e ↦ simp e (omega arith, inl refl)
      | inr e ↦ elim ended [
        | inl neg ↦ absurd cc
        | inr (z, inl (e2, some)) ↦ simp e (omega arith, inr (refl, held e, inl (e2, omega arith)))
        | inr (z, inr (e2, whole)) ↦ simp e (omega arith, inr (refl, held e, inr (e2, omega arith)))
      ]
    ]

negative_part :
    (size : ℕ) (r : ℤ × Bool × List ℕ × Tms)
    → length r.2 < size
    → is_neg r.0 ≡ true
    → IsComplete size r
unfolding IsComplete
negative_part size r shorter neg = (omega arith, inl neg)

ended_part :
    (size : ℕ) (bytes : List ℕ) (c : Tms)
    → length bytes < size
    → 0 < length bytes
    → c.holdoff_active ≡ true
    → IsComplete size (pos 0, true, bytes, c)
unfolding IsComplete
ended_part size bytes c shorter some held = (omega arith, inr (refl, held, inl (refl, some)))

-- A read of one byte at least stores no more bytes than were asked for. It fails, or its result is
-- 0; then END came with a byte, or as many bytes as were asked for are stored, and in both cases
-- the chip holds off the talker, so that no byte comes that nobody takes.
pub tms9914_read-IsComplete :
    (size : ℕ) (c : Tms) → 0 < size → IsComplete size (tms9914_read size c)
unfolding tms9914_read
tms9914_read-IsComplete size c some =
    let c0 = record c { dev_clear = false } in
    let (r1, end1, first, c1) = read_first size c0 in
    let (shorter, outcome) = read_first-IsFirst size c0 some in
    let held = read_first-IsHeld size c0 in
    let c2 = tms9914_set_holdoff_mode holdoff_all c1 in
    let nonzero : (size == 0) ≡ false = ground arith in
    elim outcome [
      | inl neg ↦ simp (nonzero, neg) (negative_part size (read_first size c0) shorter neg)
      | inr (z, inl (e, got)) ↦
          simp (nonzero, z, e) (ended_part size first c1 shorter got (held (ap is_neg z) e))
      | inr (z, inr (e, one)) ↦
          simp (nonzero, z, e)
            (second_part size first (pio_read (size - length first) c2) one
              (pio_read-IsCounted (size - length first) c2)
              (λ fine.
                pio_read-IsHeld (size - length first) c2 (inl (set_mode_holds holdoff_all c1).0)
                  fine (omega arith) (inr (set_mode_holds holdoff_all c1).0)))
    ]
