-- ===== src/Kernel/Devices/Address.antt =====
-- `gpib_address_equal` as an equivalence: what the proofs about the list of devices need of it.
use linux_gpib.Prelude.{ℕ, ◌≡◌, true, arith, ℤ}
use linux_gpib.Uapi.Commands.{gpib_address_equal}

pub equal_refl : (p : ℕ) (s : ℤ) → gpib_address_equal p s p s ≡ true
unfolding gpib_address_equal
equal_refl p s = ground arith

-- Equal addresses are equal to the same addresses.
pub equal_left :
    (p : ℕ) (s : ℤ) (q : ℕ) (t : ℤ) (r : ℕ) (u : ℤ)
    → gpib_address_equal p s q t ≡ true
    → gpib_address_equal p s r u ≡ gpib_address_equal q t r u
unfolding gpib_address_equal
equal_left p s q t r u h = ground arith

pub equal_right :
    (p : ℕ) (s : ℤ) (q : ℕ) (t : ℤ) (r : ℕ) (u : ℤ)
    → gpib_address_equal q t r u ≡ true
    → gpib_address_equal p s q t ≡ gpib_address_equal p s r u
unfolding gpib_address_equal
equal_right p s q t r u h = ground arith

pub equal_sym :
    (p : ℕ) (s : ℤ) (q : ℕ) (t : ℤ) → gpib_address_equal q t p s ≡ gpib_address_equal p s q t
unfolding gpib_address_equal
equal_sym p s q t = ground arith
