-- ===== src/User/Commands/Bus.antt =====
-- A command string as the devices on the bus read it, by IEEE 488.1: who talks and who listens
-- after it.
use linux_gpib.Prelude.{
  ℕ, ◌+◌, ◌%◌, ◌/◌, ◌≤◌, ◌≡◌, refl, ap, false, arith, ℤ, pos, negsuc, Option, none, some, List, [],
  ◌∷◌, ◌++◌, ◌==◌, if◌then◌else◌,
}
use linux_gpib.Uapi.Commands.{mla, mta, msa, unl, unt, gpib_address_restrict}
use linux_gpib.User.Codes.{noaddr}
use linux_gpib.User.Addresses.{extract_pad, extract_sad}
use linux_gpib.User.Addresses.Laws.{IsSad}
use linux_gpib.User.Session.{to_unsigned}
use linux_gpib.User.Commands.{listen_bytes, secondary_byte}

-- A secondary address belongs to the primary one just before it.
pub data Last : Type 0 where
  other : Last
  talk : Last
  listen : Last

-- `listeners`: the newest first; a secondary address is -1 where there is none.
pub record Bus : Type 0 where
  pub talker : Option (ℕ × ℤ)
  pub listeners : List (ℕ × ℤ)
  pub last : Last

abbrev replace_sad : ℕ → ℕ × ℤ → ℕ × ℤ
replace_sad sad (pad, old) = (pad, pos sad)

abbrev head_sad : ℕ → List (ℕ × ℤ) → List (ℕ × ℤ)
head_sad sad [] = []
head_sad sad (address ∷ rest) = replace_sad sad address ∷ rest

abbrev pub talker_sad : ℕ → Option (ℕ × ℤ) → Option (ℕ × ℤ)
talker_sad sad none = none
talker_sad sad (some address) = some (replace_sad sad address)

-- a byte 0x60 to 0x7f
abbrev pub secondary : ℕ → Last → Bus → Bus
secondary sad other bus = bus
secondary sad talk bus = record bus { talker = talker_sad sad bus.talker; last = other }
secondary sad listen bus = record bus { listeners = head_sad sad bus.listeners; last = other }

unfoldable pub receive : ℕ → Bus → Bus
receive byte bus =
    if byte == unl
    then record bus { listeners = []; last = other }
    else (if byte == unt
        then record bus { talker = none; last = other }
        else (if byte / 32 == 1
            then record bus { listeners = (byte % 32, negsuc 0) ∷ bus.listeners; last = listen }
            else (if byte / 32 == 2
                then record bus { talker = some (byte % 32, negsuc 0); last = talk }
                else (if byte / 32 == 3
                    then secondary (byte % 32) bus.last bus
                    else record bus { last = other }))))

unfoldable pub receive_all : List ℕ → Bus → Bus
unfolding receive
receive_all [] bus = bus
receive_all (byte ∷ rest) bus = receive_all rest (receive byte bus)

-- the addresses of a list, the last one first
abbrev pub named : List ℕ → List (ℕ × ℤ) → List (ℕ × ℤ)
named [] before = before
named (address ∷ rest) before =
    named rest ((to_unsigned (extract_pad address), extract_sad address) ∷ before)

-- An address of a device: not NOADDR, and valid.
pub record IsDevice (address : ℕ) : Type 0 where
  pub real : (address == noaddr) ≡ false
  pub pad : ℕ
  pub pad_of : extract_pad address ≡ pos pad
  pub pad_in : pad ≤ 30
  pub sad_in : IsSad (extract_sad address)

abbrev pub AreDevices : List ℕ → Type 0
AreDevices [] = Unit {0}
AreDevices (address ∷ rest) = IsDevice address × AreDevices rest

pub mla_value : (pad : ℕ) → pad ≤ 30 → mla pad ≡ pad + 32
unfolding mla gpib_address_restrict
mla_value pad h = ground arith

pub mta_value : (pad : ℕ) → pad ≤ 30 → mta pad ≡ pad + 64
unfolding mta gpib_address_restrict
mta_value pad h = ground arith

msa_value : (sad : ℕ) → sad ≤ 31 → msa sad ≡ sad + 96
unfolding msa
msa_value sad h = ground arith

hear_listen :
    (pad : ℕ) (bus : Bus)
    → pad ≤ 30
    → receive (pad + 32) bus
      ≡ record bus { listeners = (pad, negsuc 0) ∷ bus.listeners; last = listen }
unfolding receive
hear_listen pad bus h = ground arith

hear_talk :
    (pad : ℕ) (bus : Bus)
    → pad ≤ 30
    → receive (pad + 64) bus ≡ record bus { talker = some (pad, negsuc 0); last = talk }
unfolding receive
hear_talk pad bus h = ground arith

hear_secondary :
    (sad : ℕ) (bus : Bus) → sad ≤ 31 → receive (sad + 96) bus ≡ secondary sad bus.last bus
unfolding receive
hear_secondary sad bus h =
    let e0 : (sad + 96 == 63) ≡ false = ground arith in
    let e1 : (sad + 96 == 95) ≡ false = ground arith in
    let e2 : (sad + 96) / 32 ≡ 3 = omega arith in
    let e3 : (sad + 96) % 32 ≡ sad = omega arith in simp (e0, e1, e2, e3) refl

abbrev pub last_after : Last → ℤ → Last
last_after primary (pos sad) = other
last_after primary (negsuc n) = primary

hear_listener :
    (pad : ℕ) (sad : ℤ) (rest : List ℕ) (bus : Bus)
    → pad ≤ 30
    → IsSad sad
    → receive_all (mla pad ∷ secondary_byte sad ++ rest) bus
      ≡ receive_all rest
          (record bus { listeners = (pad, sad) ∷ bus.listeners; last = last_after listen sad })
unfolding receive_all
hear_listener pad (pos sad) rest bus h k =
    rw (mla_value pad h, msa_value sad k, hear_listen pad bus h)
      (let bus' = record bus { listeners = (pad, negsuc 0) ∷ bus.listeners; last = listen } in
        ap (receive_all rest) (hear_secondary sad bus' k))
hear_listener pad (negsuc n) rest bus h k = rw (mla_value pad h, hear_listen pad bus h, k) refl

pub hear_talker :
    (pad : ℕ) (sad : ℤ) (rest : List ℕ) (bus : Bus)
    → pad ≤ 30
    → IsSad sad
    → receive_all (mta pad ∷ secondary_byte sad ++ rest) bus
      ≡ receive_all rest (record bus { talker = some (pad, sad); last = last_after talk sad })
unfolding receive_all
hear_talker pad (pos sad) rest bus h k =
    rw (mta_value pad h, msa_value sad k, hear_talk pad bus h)
      (let bus' = record bus { talker = some (pad, negsuc 0); last = talk } in
        ap (receive_all rest) (hear_secondary sad bus' k))
hear_talker pad (negsuc n) rest bus h k = rw (mta_value pad h, hear_talk pad bus h, k) refl

-- The bytes for a list of devices add these to the listeners, the newest first, and leave the
-- talker alone.
pub hear_listeners :
    (addresses : List ℕ) (bus : Bus)
    → AreDevices addresses
    → ((receive_all (listen_bytes addresses) bus).listeners ≡ named addresses bus.listeners)
      × ((receive_all (listen_bytes addresses) bus).talker ≡ bus.talker)
unfolding receive_all listen_bytes
hear_listeners [] bus h = (refl, refl)
hear_listeners (address ∷ rest) bus (d, ds) =
    let sad = extract_sad address in
    let others = listen_bytes rest in
    let bus' = record bus {
      listeners = (d.pad, sad) ∷ bus.listeners;
      last = last_after listen sad;
    } in
    let ih = hear_listeners rest bus' ds in
    rw (d.real, d.pad_of, hear_listener d.pad sad others bus d.pad_in d.sad_in) ih
