-- ===== src/User/Commands/Setup.antt =====
-- `create_send_setup`: it stays within the memory that its callers give it, and addresses the board
-- to talk and the devices of the list, and no others, to listen.
use linux_gpib.Prelude.{
  ℕ, suc, ◌+◌, ◌*◌, ◌≤◌, ◌≡◌, refl, true, false, arith, ℤ, pos, negsuc, ◌==ℤ◌, is_neg, some, List,
  [], ◌∷◌, ◌++◌, ◌==◌, length, length-append, Bool-cases, Option-cases, inl, inr,
}
use linux_gpib.Uapi.Commands.{mta, unl}
use linux_gpib.User.Codes.{noaddr, addr_invalid}
use linux_gpib.User.Addresses.{
  Globals, extract_sad, address_is_valid, addresses_are_valid, address_list_is_valid,
  count_addresses,
}
use linux_gpib.User.Addresses.Laws.{IsSad}
use linux_gpib.User.Session.{Driver, Session, BoardInfo}
use linux_gpib.User.Commands.{
  listen_bytes, secondary_byte, query_pad, query_sad, create_send_setup, valid_list,
}
use linux_gpib.User.Commands.Bus.{
  Bus, talk, other, receive, receive_all, named, AreDevices, hear_talker, hear_listeners,
  last_after,
}

length-secondary_byte : (sad : ℤ) → length (secondary_byte sad) ≤ 1
length-secondary_byte sad = ground arith

length-listen_bytes :
    (addresses : List ℕ) → length (listen_bytes addresses) ≤ 2 * count_addresses addresses
unfolding listen_bytes count_addresses
length-listen_bytes [] = omega arith
length-listen_bytes (address ∷ rest) =
    let sad = extract_sad address in
    let short = length-secondary_byte sad in
    let whole = length-append (secondary_byte sad) (listen_bytes rest) in
    let ih = length-listen_bytes rest in
    elim (Bool-cases (address == noaddr)) [
      | inl e ↦ simp e (omega arith)
      | inr e ↦ simp e (omega (arith, short, whole, ih))
    ]

hear_unl :
    (rest : List ℕ) (bus : Bus)
    → receive_all (unl ∷ rest) bus ≡ receive_all rest (record bus { listeners = []; last = other })
unfolding receive_all receive
hear_unl rest bus = refl

-- A list of devices passes the check.
devices_are_valid :
    (i : ℕ) (addresses : List ℕ) (g : Globals)
    → AreDevices addresses
    → (addresses_are_valid i addresses g).0 ≡ true
unfolding addresses_are_valid address_is_valid
devices_are_valid i [] g h = refl
devices_are_valid i (address ∷ rest) g (d, ds) =
    let ih = devices_are_valid (suc i) rest g ds in
    let fine : (extract_sad address ==ℤ addr_invalid) ≡ false =
      elim (extract_sad address) as (λ x. IsSad x → (x ==ℤ addr_invalid) ≡ false) [
        | pos n ↦ λ _. refl
        | negsuc n ↦ λ z. ground arith
      ]
        d.sad_in in
    simp (d.real, d.pad_of, fine) ih

module _ {W : Type 0} (driver : Driver W) where
  -- The string for a list is never longer than 3 bytes and 2 for each address.
  pub length-create_send_setup :
      (addresses : List ℕ) (s : Session W)
      → length (create_send_setup driver (some addresses) s).0 ≤ 3 + 2 * count_addresses addresses
  unfolding create_send_setup
  length-create_send_setup addresses s =
      let s1 = (valid_list (some addresses) s).1 in
      let s2 = (query_pad driver s1).1 in
      elim (Bool-cases (address_list_is_valid (some addresses) s.globals).0) [
        | inr bad ↦ simp bad (omega arith)
        | inl ok ↦ elim (Option-cases (query_pad driver s1).0) [
          | inl e ↦ simp (ok, e) (omega arith)
          | inr (pad, e) ↦ elim (Option-cases (query_sad driver s2).0) [
            | inl e2 ↦ simp (ok, e, e2) (omega arith)
            | inr (sad, e2) ↦
                let whole = length-append (secondary_byte sad) (unl ∷ listen_bytes addresses) in
                let short = length-secondary_byte sad in
                let listeners = length-listen_bytes addresses in
                simp (ok, e, e2) (omega (arith, whole, short, listeners))
          ]
        ]
      ]

  -- The board answers every query with this.
  pub record Answers (info : BoardInfo) : Type 0 where
    pub answered : (w : W) → is_neg (driver.board_info w).0 ≡ false
    pub as_told : (w : W) → (driver.board_info w).1 ≡ info

  query_pad-told :
      (info : BoardInfo) (s : Session W) → Answers info → (query_pad driver s).0 ≡ some info.pad
  unfolding query_pad
  query_pad-told info s a = simp (a.answered s.world, a.as_told s.world) refl

  query_sad-told :
      (info : BoardInfo) (s : Session W) → Answers info → (query_sad driver s).0 ≡ some info.sad
  unfolding query_sad
  query_sad-told info s a = simp (a.answered s.world, a.as_told s.world) refl

  create_send_setup-devices :
      (info : BoardInfo) (addresses : List ℕ) (s : Session W)
      → Answers info
      → AreDevices addresses
      → (create_send_setup driver (some addresses) s).0
        ≡ mta info.pad ∷ secondary_byte info.sad ++ unl ∷ listen_bytes addresses
  unfolding create_send_setup address_list_is_valid
  create_send_setup-devices info addresses s a ds =
      let ok = devices_are_valid 0 addresses s.globals ds in
      let s1 = (valid_list (some addresses) s).1 in
      let pad = query_pad-told info s1 a in
      let sad = query_sad-told info (query_pad driver s1).1 a in simp (ok, pad, sad) refl

  -- If the board tells its address and the list names devices, then after the string the board
  -- talks, and the devices of the list listen and no others, whoever did before.
  pub create_send_setup_lem :
      (info : BoardInfo) (addresses : List ℕ) (s : Session W) (bus : Bus)
      → Answers info
      → info.pad ≤ 30
      → IsSad info.sad
      → AreDevices addresses
      → let bus' = receive_all (create_send_setup driver (some addresses) s).0 bus in
        (bus'.talker ≡ some (info.pad, info.sad)) × (bus'.listeners ≡ named addresses [])
  create_send_setup_lem info addresses s bus a h k ds =
      let talking = record bus {
        talker = some (info.pad, info.sad);
        last = last_after talk info.sad;
      } in
      let (listeners, talker) =
        hear_listeners addresses (record talking { listeners = []; last = other }) ds in
      rw
        (
          create_send_setup-devices info addresses s a ds,
          hear_talker info.pad info.sad (unl ∷ listen_bytes addresses) bus h k,
          hear_unl (listen_bytes addresses) talking,
        )
        (talker, listeners)
