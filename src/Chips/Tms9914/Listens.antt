-- ===== src/Chips/Tms9914/Listens.antt =====
-- The listen only mode of linux-gpib-kernel/drivers/gpib/tms9914/tms9914.c over the command bytes.
use linux_gpib.Prelude.{
  ℕ, ◌+◌, ◌/◌, ◌%◌, Bool, true, false, not, ◌&&◌, ◌||◌, ◌≡◌, refl, ap, ◌∙◌, is_neg, List, [], ◌∷◌,
  ◌==◌, if◌then◌else◌, has, Bool-cases, inl, inr, arith,
}
use linux_gpib.Uapi.Commands.{mla, mta, unl, unt}
use linux_gpib.Uapi.Status.{timo}
use linux_gpib.Chips.Tms9914.{Tms, write_byte}
use linux_gpib.Chips.Tms9914.Registers.{auxcr, cdor, aux_cs, aux_lon}
use linux_gpib.Chips.Tms9914.Interrupts.{msa_of}
use linux_gpib.Chips.Tms9914.Waiting.{wait_until}
use linux_gpib.Chips.Tms9914.Kept.{bus_writes, wait_until-Kept}
use linux_gpib.Chips.Tms9914.Command.{
  check_my_talk_state, check_my_address_state, command_condition, send_commands, tms9914_command,
}

-- whether the last write to the listen only mode, in a log with the newest first, set it
abbrev pub listens_only : List (ℕ × ℕ) → Bool
listens_only [] = false
listens_only ((register, byte) ∷ log) =
    let before = listens_only log in
    if register == auxcr && byte == aux_lon + aux_cs
    then true
    else (if register == auxcr && byte == aux_lon then false else before)

abbrev pub IsListening : Tms → Type 0
IsListening c = listens_only (bus_writes c.log) ≡ true

talk_state-IsListening :
    (byte : ℕ) (c : Tms) → IsListening c → IsListening (check_my_talk_state byte c)
unfolding check_my_talk_state
talk_state-IsListening byte c h = elim (Bool-cases (byte == mta c.pad)) [
  | inl e ↦ elim (Bool-cases (is_neg c.sad)) [ inl s ↦ simp (e, s) h | inr s ↦ simp (e, s) h ]
  | inr e ↦
      let second = not (is_neg c.sad) && (c.primary_talk_addressed && byte == msa_of c.sad) in
      elim (Bool-cases second) [
        | inl e1 ↦ simp (e, e1) h
        | inr e1 ↦ elim (Bool-cases (byte / 32 % 8 == 2)) [
          | inl e2 ↦ simp (e, e1, e2) h
          | inr e2 ↦ elim (Bool-cases (byte == unt)) [
            | inl e3 ↦ simp (e, e1, e2, e3) h
            | inr e3 ↦ simp (e, e1, e2, e3) h
          ]
        ]
      ]
]

address_state-IsListening :
    (byte : ℕ) (c : Tms) → IsListening c → IsListening (check_my_address_state byte c)
unfolding check_my_address_state
address_state-IsListening byte c h = elim (Bool-cases (byte == mla c.pad)) [
  | inl e ↦ elim (Bool-cases (is_neg c.sad)) [ inl s ↦ simp (e, s) refl | inr s ↦ simp (e, s) h ]
  | inr e ↦
      let second = not (is_neg c.sad) && (c.primary_listen_addressed && byte == msa_of c.sad) in
      elim (Bool-cases second) [
        | inl e1 ↦ simp (e, e1) refl
        | inr e1 ↦ elim (Bool-cases (byte / 32 % 8 == 1)) [
          | inl e2 ↦ simp (e, e1, e2) h
          | inr e2 ↦
              let same : (byte == unl) ≡ false = ground (arith, e2) in
              simp (e, e1, e2, same) (talk_state-IsListening byte c h)
        ]
      ]
]

send_commands-IsListening :
    (buffer : List ℕ) (c : Tms) → IsListening c → IsListening (send_commands buffer c).1
unfolding send_commands
send_commands-IsListening [] c h = h
send_commands-IsListening (byte ∷ rest) c h =
    let (is_signal, c1) = wait_until command_condition c in
    let (_, _, _, _, _, _, _, writes) = wait_until-Kept command_condition c in
    let written = write_byte byte cdor (record c1 { command_ready = false }) in
    let h1 : IsListening c1 = ap listens_only writes ∙ h in
    let h2 = address_state-IsListening byte written h1 in
    elim (Bool-cases (is_signal || has c1.status timo)) [
      | inl e ↦ simp e h1
      | inr e ↦ simp e (send_commands-IsListening rest (check_my_address_state byte written) h2)
    ]

-- A chip in listen only mode is in it after every command, whatever its bytes are, UNL too, and
-- however the command ends.
pub tms9914_command-IsListening :
    (buffer : List ℕ) (c : Tms)
    → IsListening c
    → let (retval, n, c') = tms9914_command buffer c in IsListening c'
unfolding tms9914_command
tms9914_command-IsListening buffer c h =
    let (n, c1) = send_commands buffer c in
    let (_, _, _, _, _, _, _, writes) = wait_until-Kept command_condition c1 in
    ap listens_only writes ∙ send_commands-IsListening buffer c h
