-- ===== src/Chips/Nec7210/Mirror.antt =====
-- linux-gpib-kernel/drivers/gpib/nec7210/nec7210.c: the software copies of the registers that can
-- only be written, against what the chip was given.
pub mod Settings
pub mod Transfers
pub mod Writes
pub mod Runs
use linux_gpib.Prelude.{
  ℕ, zero, suc, ◌+◌, ◌-◌, ◌/◌, ◌%◌, Bool, true, false, not, ◌&&◌, ◌||◌, ◌≡◌, refl, sym, ap, ◌∙◌, ℤ,
  pos, negsuc, Option, none, some, List, [], ◌∷◌, ◌==◌, leb, if◌then◌else◌, has, with, without,
  assign, mask, merge, has-with, has-without, has-assign, Bool-cases, inl, inr, arith,
}
use linux_gpib.Chips.Nec7210.{
  Irq, Chip, Trace, put, lost, auxmr, aux_fh, aux_nval, write_byte, record_status2, record_input,
  record_output, record_messages, nec7210_update_status_nolock, nec7210_interrupt_have_status,
}
use linux_gpib.Chips.Nec7210.Settings.{
  imr1_reg, imr2_reg, spmr, admr_reg, adr, eosr, hr_reos, hr_bin, hr_tri, nec7210_board_reset,
}

-- Auxiliary registers A and B are written through AUXMR, with 100 and 101 in the upper bits.
abbrev pub writes_a : ℕ → Bool
writes_a byte = has byte 7 && not (has byte 6) && not (has byte 5)

abbrev pub writes_b : ℕ → Bool
writes_b byte = has byte 7 && not (has byte 6) && has byte 5

-- What the chip has in a register after a log with the newest first, where it was written.
abbrev pub last_of : (ℕ → ℕ → Bool) → List Trace → Option ℕ
last_of is_it [] = none
last_of is_it (lost ∷ log) = last_of is_it log
last_of is_it (put register byte ∷ log) =
    let before = last_of is_it log in if is_it register byte then some byte else before

abbrev pub is_a : ℕ → ℕ → Bool
is_a register byte = register == auxmr && writes_a byte

abbrev pub is_b : ℕ → ℕ → Bool
is_b register byte = register == auxmr && writes_b byte

abbrev pub is_imr1 : ℕ → ℕ → Bool
is_imr1 register byte = register == imr1_reg

abbrev pub is_imr2 : ℕ → ℕ → Bool
is_imr2 register byte = register == imr2_reg

-- The copies are what the chip has, and would be written to the right auxiliary register again.
abbrev pub IsMirrored : Chip → Type 0
IsMirrored c =
    (last_of is_a c.log ≡ some c.auxa_bits)
    × (last_of is_b c.log ≡ some c.auxb_bits)
    × (last_of is_imr1 c.log ≡ some c.imr1)
    × (last_of is_imr2 c.log ≡ some c.imr2)
    × (writes_a c.auxa_bits ≡ true)
    × (writes_b c.auxb_bits ≡ true)

-- a write to none of them
pub write-IsMirrored :
    (byte register : ℕ) (c : Chip)
    → is_a register byte ≡ false
    → is_b register byte ≡ false
    → is_imr1 register byte ≡ false
    → is_imr2 register byte ≡ false
    → IsMirrored c
    → IsMirrored (write_byte byte register c)
unfolding write_byte
write-IsMirrored byte register c a b i1 i2 (ra, rb, r1, r2, wa, wb) =
    (simp a ra, simp b rb, simp i1 r1, simp i2 r2, wa, wb)

b_is_not_a : (byte : ℕ) → writes_a byte ≡ true → writes_b byte ≡ false
b_is_not_a byte w = elim (Bool-cases (has byte 5)) [
  | inl e ↦ elim (Bool-cases (has byte 7)) [
    | inl e7 ↦ elim (Bool-cases (has byte 6)) [
      | inl e6 ↦ simp (e, e7, e6) refl
      | inr e6 ↦ let no : false ≡ true = simp (e, e7, e6) at w in absurd cc
    ]
    | inr e7 ↦ simp e7 refl
  ]
  | inr e ↦ elim (Bool-cases (has byte 7)) [
    | inl e7 ↦ elim (Bool-cases (has byte 6)) [
      | inl e6 ↦ simp (e7, e6) refl
      | inr e6 ↦ simp (e, e7, e6) refl
    ]
    | inr e7 ↦ simp e7 refl
  ]
]

a_is_not_b : (byte : ℕ) → writes_b byte ≡ true → writes_a byte ≡ false
a_is_not_b byte w = elim (Bool-cases (writes_a byte)) [
  | inr e ↦ e
  | inl e ↦ let other = b_is_not_a byte e in absurd cc
]

-- a write of the copy of A, and of B
write_a-IsMirrored :
    (bits : ℕ) (c : Chip)
    → writes_a bits ≡ true
    → IsMirrored c
    → IsMirrored (write_byte bits auxmr (record c { auxa_bits = bits }))
unfolding write_byte
write_a-IsMirrored bits c w (ra, rb, r1, r2, wa, wb) =
    (simp w refl, simp (b_is_not_a bits w) rb, r1, r2, w, wb)

write_b-IsMirrored :
    (bits : ℕ) (c : Chip)
    → writes_b bits ≡ true
    → IsMirrored c
    → IsMirrored (write_byte bits auxmr (record c { auxb_bits = bits }))
unfolding write_byte
write_b-IsMirrored bits c w (ra, rb, r1, r2, wa, wb) =
    (simp (a_is_not_b bits w) ra, simp w refl, r1, r2, wa, w)

-- The reset leaves no copy behind.
pub reset-IsMirrored : (c : Chip) → IsMirrored (nec7210_board_reset c)
unfolding nec7210_board_reset write_byte has
reset-IsMirrored c = (refl, refl, refl, refl, refl, refl)
