-- ===== src/System/Talker.antt =====
-- The talk only mode of linux-gpib-kernel/drivers/gpib/tms9914/tms9914.c against the reading that
-- every device gives to the command bytes.
use linux_gpib.Prelude.{
  ℕ, ◌+◌, ◌/◌, ◌%◌, ◌≤◌, ◌<◌, Bool, true, false, ◌&&◌, ◌||◌, ◌≡◌, refl, sym, ap, ◌∙◌, ℤ, is_neg,
  Option, none, some, List, [], ◌∷◌, ◌==◌, if◌then◌else◌, has, take, Bool-cases, inl, inr, arith,
}
use linux_gpib.Uapi.Commands.{mla, mta, unl, unt}
use linux_gpib.Uapi.Status.{timo}
use linux_gpib.User.Commands.Bus.{
  Bus, Last, other, talk, listen, secondary, talker_sad, receive, receive_all, mla_value, mta_value,
}
use linux_gpib.Chips.Tms9914.{Tms, write_byte}
use linux_gpib.Chips.Tms9914.Registers.{auxcr, cdor, aux_cs, aux_ton}
use linux_gpib.Chips.Tms9914.Waiting.{wait_until}
use linux_gpib.Chips.Tms9914.Kept.{bus_writes, wait_until-Kept}
use linux_gpib.Chips.Tms9914.Command.{
  check_my_talk_state, check_my_address_state, command_condition, send_commands, tms9914_command,
}

-- whether the last write to the talk only mode, in a log with the newest first, set it
abbrev pub talks_only : List (ℕ × ℕ) → Bool
talks_only [] = false
talks_only ((register, byte) ∷ log) =
    let before = talks_only log in
    if register == auxcr && byte == aux_ton + aux_cs
    then true
    else (if register == auxcr && byte == aux_ton then false else before)

-- whether a primary address is the talker's
abbrev pub talks_as : ℕ → Option (ℕ × ℤ) → Bool
talks_as pad none = false
talks_as pad (some (talker, sad)) = talker == pad

-- command bytes have seven bits
abbrev pub AreSevenBit : List ℕ → Type 0
AreSevenBit [] = Unit {0}
AreSevenBit (byte ∷ rest) = (byte < 128) × AreSevenBit rest

talker_sad-talks_as :
    (pad sad : ℕ) (talker : Option (ℕ × ℤ))
    → talks_as pad (talker_sad sad talker) ≡ talks_as pad talker
talker_sad-talks_as pad sad none = refl
talker_sad-talks_as pad sad (some (talker, old)) = refl

secondary-talks_as :
    (pad sad : ℕ) (last : Last) (bus : Bus)
    → talks_as pad (secondary sad last bus).talker ≡ talks_as pad bus.talker
secondary-talks_as pad sad other bus = refl
secondary-talks_as pad sad talk bus = talker_sad-talks_as pad sad bus.talker
secondary-talks_as pad sad listen bus = refl

-- what a command byte says of a primary talk address
receive-talks_as :
    (pad byte : ℕ) (bus : Bus)
    → byte < 128
    → pad ≤ 30
    → talks_as pad (receive byte bus).talker
      ≡ (if byte / 32 == 2 then byte == pad + 64 else talks_as pad bus.talker)
unfolding receive
receive-talks_as pad byte bus b p = elim (Bool-cases (byte == unl)) [
  | inl e ↦ let d : (byte / 32 == 2) ≡ false = ground (arith, e) in simp (e, d) refl
  | inr e ↦ elim (Bool-cases (byte == unt)) [
    | inl e2 ↦
        let d : (byte / 32 == 2) ≡ true = ground (arith, e2) in
        let o : (byte == pad + 64) ≡ false = ground (arith, e2, p) in simp (e, e2, d, o) refl
    | inr e2 ↦ elim (Bool-cases (byte / 32 == 1)) [
      | inl e3 ↦ let d : (byte / 32 == 2) ≡ false = ground (arith, e3) in simp (e, e2, e3, d) refl
      | inr e3 ↦ elim (Bool-cases (byte / 32 == 2)) [
        | inl e4 ↦
            let o : (byte % 32 == pad) ≡ (byte == pad + 64) = ground (arith, e4, p) in
            simp (e, e2, e3, e4) o
        | inr e4 ↦ elim (Bool-cases (byte / 32 == 3)) [
          | inl e5 ↦ simp (e, e2, e3, e4, e5) (secondary-talks_as pad (byte % 32) bus.last bus)
          | inr e5 ↦ simp (e, e2, e3, e4, e5) refl
        ]
      ]
    ]
  ]
]

-- The board with its primary address alone takes its orders from the same bytes.
talk_state-talks :
    (byte : ℕ) (c : Tms)
    → byte < 128
    → c.pad ≤ 30
    → is_neg c.sad ≡ true
    → talks_only (bus_writes (check_my_talk_state byte c).log)
      ≡ (if byte / 32 == 2 then byte == c.pad + 64 else talks_only (bus_writes c.log))
unfolding check_my_talk_state
talk_state-talks byte c b p alone =
    let m = mta_value c.pad p in
    elim (Bool-cases (byte == mta c.pad)) [
      | inl e ↦
          let mine : (byte == c.pad + 64) ≡ true = ground (arith, e, m) in
          let d : (byte / 32 == 2) ≡ true = ground (arith, e, m, p) in simp (e, alone, d, mine) refl
      | inr e ↦
          let mine : (byte == c.pad + 64) ≡ false = ground (arith, e, m) in
          elim (Bool-cases (byte / 32 % 8 == 2)) [
            | inl e2 ↦
                let d : (byte / 32 == 2) ≡ true = ground (arith, e2, b) in
                simp (e, alone, e2, d, mine) refl
            | inr e2 ↦
                let d : (byte / 32 == 2) ≡ false = ground (arith, e2, b) in
                let same : (byte == unt) ≡ false = ground (arith, e2) in
                simp (e, alone, e2, d, same) refl
          ]
    ]

address_state-talks :
    (byte : ℕ) (c : Tms)
    → byte < 128
    → c.pad ≤ 30
    → is_neg c.sad ≡ true
    → talks_only (bus_writes (check_my_address_state byte c).log)
      ≡ (if byte / 32 == 2 then byte == c.pad + 64 else talks_only (bus_writes c.log))
unfolding check_my_address_state
address_state-talks byte c b p alone =
    let m = mla_value c.pad p in
    elim (Bool-cases (byte == mla c.pad)) [
      | inl e ↦
          let d : (byte / 32 == 2) ≡ false = ground (arith, e, m, p) in simp (e, alone, d) refl
      | inr e ↦ elim (Bool-cases (byte / 32 % 8 == 1)) [
        | inl e2 ↦
            let d : (byte / 32 == 2) ≡ false = ground (arith, e2, b) in simp (e, alone, e2, d) refl
        | inr e2 ↦
            let same : (byte == unl) ≡ false = ground (arith, e2) in
            simp (e, alone, e2, same) (talk_state-talks byte c b p alone)
      ]
    ]

-- the board's address stays
abbrev SameAddress : Tms → Tms → Type 0
SameAddress c c' = (c'.pad ≡ c.pad) × (c'.sad ≡ c.sad)

talk_state-address :
    (byte : ℕ) (c : Tms) → is_neg c.sad ≡ true → SameAddress c (check_my_talk_state byte c)
unfolding check_my_talk_state
talk_state-address byte c alone = elim (Bool-cases (byte == mta c.pad)) [
  | inl e ↦ simp (e, alone) (refl, refl)
  | inr e ↦ elim (Bool-cases (byte / 32 % 8 == 2)) [
    | inl e2 ↦ simp (e, alone, e2) (refl, refl)
    | inr e2 ↦ elim (Bool-cases (byte == unt)) [
      | inl e3 ↦ simp (e, alone, e2, e3) (refl, refl)
      | inr e3 ↦ simp (e, alone, e2, e3) (refl, refl)
    ]
  ]
]

address_state-address :
    (byte : ℕ) (c : Tms) → is_neg c.sad ≡ true → SameAddress c (check_my_address_state byte c)
unfolding check_my_address_state
address_state-address byte c alone = elim (Bool-cases (byte == mla c.pad)) [
  | inl e ↦ simp (e, alone) (refl, refl)
  | inr e ↦ elim (Bool-cases (byte / 32 % 8 == 1)) [
    | inl e2 ↦ simp (e, alone, e2) (refl, refl)
    | inr e2 ↦ elim (Bool-cases (byte == unl)) [
      | inl e3 ↦ simp (e, alone, e2, e3) (refl, refl)
      | inr e3 ↦ simp (e, alone, e2, e3) (talk_state-address byte c alone)
    ]
  ]
]

-- one byte on the bus, for the board and for the devices
hears-talks :
    (byte : ℕ) (c : Tms) (bus : Bus)
    → byte < 128
    → c.pad ≤ 30
    → is_neg c.sad ≡ true
    → talks_only (bus_writes c.log) ≡ talks_as c.pad bus.talker
    → talks_only (bus_writes (check_my_address_state byte c).log)
      ≡ talks_as c.pad (receive byte bus).talker
hears-talks byte c bus b p alone same =
    address_state-talks byte c b p alone
    ∙ (ap (λ before. if byte / 32 == 2 then byte == c.pad + 64 else before) same
        ∙ sym (receive-talks_as c.pad byte bus b p))

-- The board talks exactly when its primary address is the talker's.
abbrev pub IsTracked : Tms → Bus → Type 0
IsTracked c bus = talks_only (bus_writes c.log) ≡ talks_as c.pad bus.talker

send_commands-IsTracked :
    (buffer : List ℕ) (c : Tms) (bus : Bus)
    → AreSevenBit buffer
    → c.pad ≤ 30
    → is_neg c.sad ≡ true
    → IsTracked c bus
    → let (n, c') = send_commands buffer c in
      (c'.pad ≡ c.pad) × IsTracked c' (receive_all (take n buffer) bus)
unfolding send_commands receive_all
send_commands-IsTracked [] c bus bits p alone same = (refl, same)
send_commands-IsTracked (byte ∷ rest) c bus (b, bits) p alone same =
    let (is_signal, c1) = wait_until command_condition c in
    let (_, _, _, pad1, sad1, _, _, writes1) = wait_until-Kept command_condition c in
    let written = write_byte byte cdor (record c1 { command_ready = false }) in
    let same1 : IsTracked c1 bus =
      ap talks_only writes1 ∙ (same ∙ ap (λ pad. talks_as pad bus.talker) (sym pad1)) in
    let alone1 = ap is_neg sad1 ∙ alone in
    let p1 : c1.pad ≤ 30 = omega (arith, pad1, p) in
    let c2 = check_my_address_state byte written in
    let (pad2, sad2) = address_state-address byte written alone1 in
    let same2 : IsTracked c2 (receive byte bus) =
      hears-talks byte written bus b p1 alone1 same1
      ∙ ap (λ pad. talks_as pad (receive byte bus).talker) (sym pad2) in
    let (pad3, same3) =
      send_commands-IsTracked rest c2 (receive byte bus) bits (omega (arith, pad2, p1))
        (ap is_neg sad2 ∙ alone1) same2 in
    elim (Bool-cases (is_signal || has c1.status timo)) [
      | inl e ↦ simp e (pad1, same1)
      | inr e ↦ simp e (pad3 ∙ (pad2 ∙ pad1), same3)
    ]

-- After a command of seven-bit bytes, however it ends, a board with a primary address alone is in
-- talk only mode exactly when the bytes that it counts as written, read as every device on the bus
-- reads them, leave its primary address the talker's; this was so before.
pub tms9914_command-IsTracked :
    (buffer : List ℕ) (c : Tms) (bus : Bus)
    → AreSevenBit buffer
    → c.pad ≤ 30
    → is_neg c.sad ≡ true
    → IsTracked c bus
    → let (retval, n, c') = tms9914_command buffer c in
      IsTracked c' (receive_all (take n buffer) bus)
unfolding tms9914_command
tms9914_command-IsTracked buffer c bus bits p alone same =
    let (n, c1) = send_commands buffer c in
    let (pad1, same1) = send_commands-IsTracked buffer c bus bits p alone same in
    let (_, _, _, pad2, _, _, _, writes2) = wait_until-Kept command_condition c1 in
    ap talks_only writes2
    ∙ (same1 ∙ ap (λ pad. talks_as pad (receive_all (take n buffer) bus).talker) (sym pad2))
