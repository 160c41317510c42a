-- ===== src/User/Addresses.antt =====
-- linux-gpib-user/lib/ibutil.c: addresses packed into 16 bits, the primary address in the low byte
-- and the secondary one, with the bits 0x60, in the high byte.
pub mod Laws
use linux_gpib.Prelude.{
  ℕ, suc, ◌+◌, ◌*◌, ◌/◌, ◌%◌, Bool, true, false, ◌||◌, ℤ, pos, negsuc, ◌==ℤ◌, Option, none, some,
  List, [], ◌∷◌, ltb, ◌==◌, if◌then◌else◌, or_mask,
}
use linux_gpib.User.Codes.{earg, noaddr, addr_invalid, sad_disabled, gpib_addr_max, gpib_sad_max}

unfoldable pub extract_pad : ℕ → ℤ
extract_pad address =
    let pad = address % 256 in
    if address == noaddr || ltb gpib_addr_max pad then addr_invalid else pos pad

unfoldable pub extract_sad : ℕ → ℤ
extract_sad address =
    let sad = address / 256 % 256 in
    let offset_bits = sad / 32 % 4 in
    let rest = sad / 128 * 128 + sad % 32 in
    if address == noaddr
    then addr_invalid
    else (if sad == 0
        then sad_disabled
        else (if offset_bits == 0 || ltb gpib_sad_max rest then addr_invalid else pos rest))

-- `sad | sad_offset`
abbrev offset_sad : ℕ → ℕ
offset_sad sad = or_mask (or_mask sad 32) 64

unfoldable pub pack_address : ℕ → ℤ → ℕ
pack_address pad (pos sad) = offset_sad sad % 256 * 256 + pad % 256
pack_address pad (negsuc n) = pad % 256

-- The library's variables of a thread that tell of an error: `iberr` and `ibcnt`.
pub record Globals : Type 0 where
  pub iberr : ℕ
  pub ibcnt : ℕ

unfoldable pub address_is_valid : ℕ → Globals → Bool × Globals
address_is_valid address g =
    let bad = extract_pad address ==ℤ addr_invalid || extract_sad address ==ℤ addr_invalid in
    if address == noaddr
    then (true, g)
    else (if bad then (false, record g { iberr = earg }) else (true, g))

-- The entries of an array from the index `i` on; it ends where the list does, or at NOADDR.
unfoldable pub addresses_are_valid : ℕ → List ℕ → Globals → Bool × Globals
addresses_are_valid i [] g = (true, g)
addresses_are_valid i (address ∷ rest) g =
    let (valid, g') = address_is_valid address g in
    let others = addresses_are_valid (suc i) rest g in
    if address == noaddr
    then (true, g)
    else (if valid then others else (false, record g' { ibcnt = i }))

-- A null pointer is `none`.
unfoldable pub address_list_is_valid : Option (List ℕ) → Globals → Bool × Globals
address_list_is_valid none g = (true, g)
address_list_is_valid (some addresses) g = addresses_are_valid 0 addresses g

unfoldable pub count_addresses : List ℕ → ℕ
count_addresses [] = 0
count_addresses (address ∷ rest) =
    let others = count_addresses rest in if address == noaddr then 0 else suc others

unfoldable pub num_addresses : Option (List ℕ) → ℕ
num_addresses none = 0
num_addresses (some addresses) = count_addresses addresses
