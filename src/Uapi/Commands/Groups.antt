-- ===== src/Uapi/Commands/Groups.antt =====
-- What the address bytes and the command groups of gpib_cmd.h guarantee.
use linux_gpib.Prelude.{ℕ, ◌%◌, ◌≤◌, ◌≡◌, ◌≢◌, true, not, ◌||◌, arith, ℤ, is_neg, ◌↔◌, ◌⊎◌}
use linux_gpib.Uapi.Commands.{
  mla, mta, unl, unt, is_ppe, is_ppd, in_listen_address_group, in_talk_address_group,
  gpib_address_equal, in_primary_command_group,
}

-- For an address of at most 30, `MLA` and `MTA` carry it in their five low bits, stand in the
-- listen and the talk address group, and are not the unlisten and the untalk byte.
pub address_bytes :
    (pad : ℕ)
    → pad ≤ 30
    → (mla pad % 32 ≡ pad)
      × (mta pad % 32 ≡ pad)
      × (in_listen_address_group (mla pad) ≡ true)
      × (in_talk_address_group (mta pad) ≡ true)
      × (mla pad ≢ unl)
      × (mta pad ≢ unt)
unfolding mla mta in_listen_address_group in_talk_address_group
address_bytes pad h =
    (ground arith, ground arith, ground arith, ground arith, ground arith, ground arith)

-- Whatever the address, `MLA` is never the unlisten byte and `MTA` never the untalk byte: an
-- address of 31 is replaced by 0.
pub never_unaddress : (addr : ℕ) → (mla addr ≢ unl) × (mta addr ≢ unt)
unfolding mla mta
never_unaddress addr = (ground arith, ground arith)

-- A byte is a primary command or a secondary one (PPE or PPD), and never both.
pub primary_or_secondary :
    (command : ℕ) → in_primary_command_group command ≡ not (is_ppe command || is_ppd command)
unfolding in_primary_command_group is_ppe is_ppd
primary_or_secondary command = ground arith

-- `gpib_address_equal` is an equivalence that takes all negative secondary addresses for one.
pub gpib_address_equal_iff :
    (pad1 : ℕ) (sad1 : ℤ) (pad2 : ℕ) (sad2 : ℤ)
    → (gpib_address_equal pad1 sad1 pad2 sad2 ≡ true)
      ↔ ((pad1 ≡ pad2) × ((sad1 ≡ sad2) ⊎ ((is_neg sad1 ≡ true) × (is_neg sad2 ≡ true))))
unfolding gpib_address_equal
gpib_address_equal_iff pad1 sad1 pad2 sad2 = (λ h. ground arith, λ h. ground arith)
