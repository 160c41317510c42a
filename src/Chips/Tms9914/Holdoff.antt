-- ===== src/Chips/Tms9914/Holdoff.antt =====
-- How `tms9914_read` of linux-gpib-kernel/drivers/gpib/tms9914/tms9914.c leaves the handshake: a read
-- that ends holds off the next byte.
use linux_gpib.Prelude.{
  ℕ, zero, suc, ◌-◌, ◌<◌, Bool, true, false, ◌||◌, ◌⊎◌, inl, inr, ◌≡◌, refl, ap, ◌∙◌, ℤ, pos,
  is_neg, List, ◌∷◌, ltb, has, Bool-cases, arith,
}
use linux_gpib.Uapi.Status.{timo, reos}
use linux_gpib.Chips.Tms9914.{HoldoffMode, holdoff_eoi, holdoff_all, Tms}
use linux_gpib.Chips.Tms9914.Waiting.{wait_until}
use linux_gpib.Chips.Tms9914.Settings.{tms9914_set_holdoff_mode, tms9914_release_holdoff}
use linux_gpib.Chips.Tms9914.Transfer.{
  check_for_eos, read_condition, wait_for_read_byte, holds, tms9914_read_data_in, pio_read,
  read_first,
}
use linux_gpib.Chips.Tms9914.Kept.{wait_until-Kept}

-- how a read is to end: the holdoff mode, and whether a byte can end it
abbrev pub IsLike : Tms → Tms → Type 0
IsLike c c' = (c'.holdoff_mode ≡ c.holdoff_mode) × (c'.eos_flags ≡ c.eos_flags)

pub wait_for_read_byte-cases :
    (c : Tms)
    → let (retval, c') = wait_for_read_byte c in
      IsLike c c' × ((retval ≡ pos 0) ⊎ (is_neg retval ≡ true))
unfolding wait_for_read_byte
wait_for_read_byte-cases c =
    let (is_signal, c') = wait_until read_condition c in
    let p = wait_until-Kept read_condition c in
    let same : IsLike c c' = (p.0, p.2) in
    elim (Bool-cases is_signal) [
      | inl e ↦ simp e (same, inr refl)
      | inr e ↦ elim (Bool-cases (has c'.status timo)) [
        | inl e2 ↦ simp (e, e2) (same, inr refl)
        | inr e2 ↦ elim (Bool-cases c'.dev_clear) [
          | inl e3 ↦ simp (e, e2, e3) (same, inr refl)
          | inr e3 ↦ simp (e, e2, e3) (same, inl refl)
        ]
      ]
    ]

release-IsLike : (c : Tms) → IsLike c (tms9914_release_holdoff c)
unfolding tms9914_release_holdoff
release-IsLike c = elim (Bool-cases c.holdoff_active) [
  | inl e ↦ simp e (refl, refl)
  | inr e ↦ simp e (refl, refl)
]

-- how a read with END to come holds off: on all bytes, or on END where nothing else ends it
abbrev pub Holds : Tms → Type 0
Holds c =
    (c.holdoff_mode ≡ holdoff_all)
    ⊎ ((c.holdoff_mode ≡ holdoff_eoi) × (has c.eos_flags reos ≡ false))

Holds-like : (c c' : Tms) → IsLike c c' → Holds c → Holds c'
Holds-like c c' (mode, flags) (inl all) = inl (mode ∙ all)
Holds-like c c' (mode, flags) (inr (eoi, off)) = inr (mode ∙ eoi, ap (λ f. has f reos) flags ∙ off)

-- a byte that ends the read
ended_held :
    (c : Tms)
    → Holds c
    → let (byte, end, c') = tms9914_read_data_in c in
      (end || check_for_eos byte c') ≡ true → c'.holdoff_active ≡ true
unfolding tms9914_read_data_in check_for_eos holds
ended_held c (inl all) e = simp all refl
ended_held c (inr (eoi, off)) e = elim (Bool-cases c.received_end) [
  | inl r ↦ simp (eoi, r) refl
  | inr r ↦ let none_ends : false ≡ true = simp (r, off) at e in absurd cc
]

-- With a holdoff on all bytes it is active once a byte is read.
all_held :
    (c : Tms) → c.holdoff_mode ≡ holdoff_all → (tms9914_read_data_in c).2.holdoff_active ≡ true
unfolding tms9914_read_data_in holds
all_held c all = simp all refl

data_in-IsLike : (c : Tms) → IsLike c (tms9914_read_data_in c).2
unfolding tms9914_read_data_in
data_in-IsLike c = (refl, refl)

-- what a loop that went well leaves, after END or with a holdoff on all bytes
abbrev pub IsHeld : ℕ → Tms → ℤ × Bool × List ℕ × Tms → Type 0
IsHeld size start (retval, end, bytes, c) =
    is_neg retval ≡ false
    → 0 < size
    → (end ≡ true) ⊎ (start.holdoff_mode ≡ holdoff_all)
    → c.holdoff_active ≡ true

-- the loop after a byte that does not end it
later-IsHeld :
    (size : ℕ) (c c1 : Tms)
    → IsLike c c1
    → let (byte, end, c2) = tms9914_read_data_in c1 in
      let r = pio_read size c2 in IsHeld size c2 r → IsHeld (suc size) c (r.0, r.1, byte ∷ r.2, r.3)
unfolding pio_read
later-IsHeld zero c c1 (mode, flags) ih =
    λ fine some ends. elim ends [ inl e ↦ absurd cc | inr all ↦ all_held c1 (mode ∙ all) ]
later-IsHeld (suc size) c c1 (mode, flags) ih = λ fine some ends.
    let (byte, end, c2) = tms9914_read_data_in c1 in
    let same = data_in-IsLike c1 in
    ih fine (omega arith) (elim ends [ inl e ↦ inl e | inr all ↦ inr (same.0 ∙ (mode ∙ all)) ])

pub pio_read-IsHeld : (size : ℕ) (c : Tms) → Holds c → IsHeld size c (pio_read size c)
unfolding pio_read
pio_read-IsHeld zero c h = λ fine some ends. absurd (omega arith)
pio_read-IsHeld (suc size) c h =
    let c0 = tms9914_release_holdoff c in
    let (retval, c1) = wait_for_read_byte c0 in
    let (byte, end, c2) = tms9914_read_data_in c1 in
    let (m0, f0) = release-IsLike c in
    let waited = wait_for_read_byte-cases c0 in
    let liked : IsLike c c1 = (waited.0.0 ∙ m0, waited.0.1 ∙ f0) in
    let h1 = Holds-like c c1 liked h in
    let h2 = Holds-like c1 c2 (data_in-IsLike c1) h1 in
    elim (Bool-cases (is_neg retval)) [
      | inl e ↦ simp e (λ fine some ends. absurd cc)
      | inr e ↦ elim (Bool-cases (end || check_for_eos byte c2)) [
        | inl e2 ↦ simp (e, e2) (λ fine some ends. ended_held c1 h1 e2)
        | inr e2 ↦ simp (e, e2) (later-IsHeld size c c1 liked (pio_read-IsHeld size c2 h2))
      ]
    ]

pub set_mode_holds :
    (mode : HoldoffMode) (c : Tms)
    → ((tms9914_set_holdoff_mode mode c).holdoff_mode ≡ mode)
      × ((tms9914_set_holdoff_mode mode c).eos_flags ≡ c.eos_flags)
unfolding tms9914_set_holdoff_mode
set_mode_holds mode c = (refl, refl)

-- the first part of a read, where END can come
pub read_first-IsHeld :
    (size : ℕ) (c : Tms)
    → is_neg (read_first size c).0 ≡ false
    → (read_first size c).1 ≡ true
    → (read_first size c).3.holdoff_active ≡ true
unfolding read_first
read_first-IsHeld size c = elim (Bool-cases (ltb 1 size)) [
  | inr e ↦ simp e (λ fine ended. absurd cc)
  | inl e ↦ elim (Bool-cases (has c.eos_flags reos)) [
    | inl on ↦
        let c0 = tms9914_set_holdoff_mode holdoff_all c in
        simp (e, on)
          (λ fine ended.
            pio_read-IsHeld (size - 1) c0 (inl (set_mode_holds holdoff_all c).0) fine
              (ground (arith, e)) (inl ended))
    | inr off ↦
        let c0 = tms9914_set_holdoff_mode holdoff_eoi c in
        let flags = ap (λ f. has f reos) (set_mode_holds holdoff_eoi c).1 ∙ off in
        simp (e, off)
          (λ fine ended.
            pio_read-IsHeld (size - 1) c0 (inr ((set_mode_holds holdoff_eoi c).0, flags)) fine
              (ground (arith, e)) (inl ended))
  ]
]
