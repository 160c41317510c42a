-- ===== src/Kernel/Devices/Refs.antt =====
-- How opening and closing an address changes the reference counts.
use linux_gpib.Prelude.{
  ℕ, ◌+◌, ◌-◌, ◌≤◌, ◌<◌, ◌≡◌, refl, ◌∙◌, Bool, true, false, ℤ, pos, Option, none, some, List, [],
  ◌∷◌, arith, if◌then◌else◌, Option-cases, Bool-cases, inl, inr, ◌⊎◌,
}
use linux_gpib.Uapi.Errno.{einval, enomem}
use linux_gpib.Uapi.Commands.{gpib_address_equal}
use linux_gpib.Kernel.Types.{StatusQueue}
use linux_gpib.Kernel.Devices.{
  increment_existing, increment_open_device_count, subtract_here, subtract_open_device_count,
  u32_mod,
}
use linux_gpib.Kernel.Devices.Address.{equal_left, equal_right, equal_sym}

-- the reference count of an address; 0 if it has no entry
unfoldable pub refs : List StatusQueue → ℕ → ℤ → ℕ
refs [] p s = 0
refs (d ∷ ds) p s = if gpib_address_equal d.pad d.sad p s then d.reference_count else refs ds p s

-- No address has two entries, and every count is positive.
abbrev pub IsDistinct : List StatusQueue → Type 0
IsDistinct [] = Unit {0}
IsDistinct (d ∷ ds) = (0 < d.reference_count) × (refs ds d.pad d.sad ≡ 0) × IsDistinct ds

-- Equal addresses have one count.
refs_congruent :
    (ds : List StatusQueue) (p : ℕ) (s : ℤ) (q : ℕ) (t : ℤ)
    → gpib_address_equal p s q t ≡ true
    → refs ds p s ≡ refs ds q t
unfolding refs
refs_congruent [] p s q t e = refl
refs_congruent (d ∷ ds) p s q t e =
    ground (arith, equal_right d.pad d.sad p s q t, refs_congruent ds p s q t e)

-- what the loop of `increment_open_device_count` gives back, seen at the address `q`, `t`
abbrev Bumped : List StatusQueue → ℕ → ℤ → ℕ → ℤ → Option (List StatusQueue) → Type 0
Bumped ds p s q t none = (refs ds p s ≡ 0) × (refs ds q t ≡ refs ds q t)
Bumped ds p s q t (some ds') =
    refs ds' q t ≡ refs ds q t + (if gpib_address_equal p s q t then 1 else 0)

later-Bumped :
    (d : StatusQueue) (ds : List StatusQueue) (p : ℕ) (s : ℤ) (q : ℕ) (t : ℤ)
    (later : Option (List StatusQueue))
    → gpib_address_equal d.pad d.sad p s ≡ false
    → Bumped ds p s q t later
    → Bumped (d ∷ ds) p s q t (elim later [ none ↦ none | some ds' ↦ some (d ∷ ds') ])
unfolding refs
later-Bumped d ds p s q t none ne b = (ground arith, refl)
later-Bumped d ds p s q t (some ds') ne b = ground (arith, equal_right d.pad d.sad p s q t)

increment_existing-refs :
    (ds : List StatusQueue) (p : ℕ) (s : ℤ) (q : ℕ) (t : ℤ)
    → refs ds p s + 1 < u32_mod
    → Bumped ds p s q t (increment_existing ds p s)
unfolding increment_existing refs
increment_existing-refs [] p s q t small = (refl, refl)
increment_existing-refs (d ∷ ds) p s q t small =
    elim (Bool-cases (gpib_address_equal d.pad d.sad p s)) [
      | inl e ↦ rw (e, increment_existing) (ground (arith, e, equal_left d.pad d.sad p s q t))
      | inr ne ↦
          rw (ne, increment_existing)
            (later-Bumped d ds p s q t (increment_existing ds p s) ne
              (increment_existing-refs ds p s q t (ground (arith, ne))))
    ]

-- Opening an address adds one to its count, if there is memory or the address is open already,
-- and changes no other count.
pub increment-refs :
    (alloc : Bool) (ds : List StatusQueue) (p : ℕ) (s : ℤ) (q : ℕ) (t : ℤ)
    → refs ds p s + 1 < u32_mod
    → let (retval, ds') = increment_open_device_count alloc ds p s in
      ((retval ≡ pos 0)
        × (refs ds' q t ≡ refs ds q t + (if gpib_address_equal p s q t then 1 else 0)))
      ⊎ ((alloc ≡ false) × (refs ds p s ≡ 0) × (retval ≡ enomem) × (ds' ≡ ds))
unfolding increment_open_device_count refs
increment-refs alloc ds p s q t small = elim (Option-cases (increment_existing ds p s)) [
  | inl e ↦
      let b = rw e at (increment_existing-refs ds p s q t small) in
      rw (e, increment_open_device_count) (ground (arith, b, refs_congruent ds p s q t))
  | inr (ds', e) ↦
      let b = rw e at (increment_existing-refs ds p s q t small) in
      rw (e, increment_open_device_count) (inl (refl, b))
]

-- Closing an address `count` times takes `count` from its count, if its count is as large, and
-- changes no other count; if not, it fails with -EINVAL and changes nothing.
pub subtract-refs :
    (ds : List StatusQueue) (p : ℕ) (s : ℤ) (count : ℕ) (q : ℕ) (t : ℤ)
    → IsDistinct ds
    → 0 < count
    → let (retval, ds') = subtract_open_device_count ds p s count in
      ((count ≤ refs ds p s)
        × (retval ≡ pos 0)
        × (refs ds' q t ≡ refs ds q t - (if gpib_address_equal p s q t then count else 0)))
      ⊎ ((refs ds p s < count) × (retval ≡ einval) × (ds' ≡ ds))
unfolding subtract_open_device_count refs
subtract-refs [] p s count q t v positive = inr (positive, refl, refl)
subtract-refs (d ∷ ds) p s count q t v positive =
    elim (Bool-cases (gpib_address_equal d.pad d.sad p s)) [
      | inl e ↦
          rw (e, subtract_here)
            (ground (arith, v, equal_left d.pad d.sad p s q t, refs_congruent ds d.pad d.sad q t))
      | inr ne ↦
          ground (
            arith,
            ne,
            equal_right d.pad d.sad p s q t,
            subtract-refs ds p s count q t v.2 positive,
          )
    ]

abbrev DistinctIfFound : Option (List StatusQueue) → Type 0
DistinctIfFound none = Unit {0}
DistinctIfFound (some ds) = IsDistinct ds

later-IsDistinct :
    (d : StatusQueue) (ds : List StatusQueue) (p : ℕ) (s : ℤ) (later : Option (List StatusQueue))
    → gpib_address_equal p s d.pad d.sad ≡ false
    → IsDistinct (d ∷ ds)
    → Bumped ds p s d.pad d.sad later
    → DistinctIfFound later
    → DistinctIfFound (elim later [ none ↦ none | some ds' ↦ some (d ∷ ds') ])
later-IsDistinct d ds p s none ne v b later = tt
later-IsDistinct d ds p s (some ds') ne v b later = ground (arith, b, v, ne, later)

existing-IsDistinct :
    (ds : List StatusQueue) (p : ℕ) (s : ℤ)
    → refs ds p s + 1 < u32_mod
    → IsDistinct ds
    → DistinctIfFound (increment_existing ds p s)
unfolding increment_existing refs
existing-IsDistinct [] p s small v = tt
existing-IsDistinct (d ∷ ds) p s small v = elim (Bool-cases (gpib_address_equal d.pad d.sad p s)) [
  | inl e ↦ rw (e, increment_existing) (ground (arith, e, v))
  | inr ne ↦
      let small' : refs ds p s + 1 < u32_mod = ground (arith, ne) in
      rw (ne, increment_existing)
        (later-IsDistinct d ds p s (increment_existing ds p s) (equal_sym d.pad d.sad p s ∙ ne) v
          (increment_existing-refs ds p s d.pad d.sad small')
          (existing-IsDistinct ds p s small' v.2))
]

pub increment-IsDistinct :
    (alloc : Bool) (ds : List StatusQueue) (p : ℕ) (s : ℤ)
    → refs ds p s + 1 < u32_mod
    → IsDistinct ds
    → IsDistinct (increment_open_device_count alloc ds p s).1
unfolding increment_open_device_count
increment-IsDistinct alloc ds p s small v = elim (Option-cases (increment_existing ds p s)) [
  | inl e ↦
      let b = rw e at (increment_existing-refs ds p s p s small) in
      rw (e, increment_open_device_count) (ground (arith, v, b))
  | inr (ds', e) ↦
      rw (e, increment_open_device_count) (rw e at (existing-IsDistinct ds p s small v))
]

pub subtract-IsDistinct :
    (ds : List StatusQueue) (p : ℕ) (s : ℤ) (count : ℕ)
    → IsDistinct ds
    → 0 < count
    → IsDistinct (subtract_open_device_count ds p s count).1
unfolding subtract_open_device_count
subtract-IsDistinct [] p s count v positive = tt
subtract-IsDistinct (d ∷ ds) p s count v positive = ground (
  arith,
  v,
  subtract-refs ds p s count d.pad d.sad v.2 positive,
  subtract-IsDistinct ds p s count v.2 positive,
)
