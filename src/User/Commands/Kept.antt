-- ===== src/User/Commands/Kept.antt =====
-- What addressing the bus leaves alone: the settings of the descriptor.
use linux_gpib.Prelude.{
  ℕ, ◌≡◌, refl, ◌∙◌, ap, arith, is_neg, Option, none, some, List, [], ◌∷◌, Bool-cases, Option-cases,
  inl, inr,
}
use linux_gpib.User.Session.{Driver, Session, to_unsigned}
use linux_gpib.User.Codes.{noaddr}
use linux_gpib.User.Addresses.{pack_address}
use linux_gpib.User.Commands.{
  is_cic, check_cic, query_pad, query_sad, my_ibcmd, command_error, create_send_setup,
  send_setup_string, send_setup, valid_list,
}

module _ {W : Type 0} (driver : Driver W) where
  is_cic-conf : (s : Session W) → (is_cic driver s).1.conf ≡ s.conf
  unfolding is_cic
  is_cic-conf s = ground arith

  check_cic-conf : (s : Session W) → (check_cic driver s).1.conf ≡ s.conf
  unfolding check_cic
  check_cic-conf s = ground (arith, is_cic-conf s)

  query_pad-conf : (s : Session W) → (query_pad driver s).1.conf ≡ s.conf
  unfolding query_pad
  query_pad-conf s = ground arith

  query_sad-conf : (s : Session W) → (query_sad driver s).1.conf ≡ s.conf
  unfolding query_sad
  query_sad-conf s = ground arith

  pub my_ibcmd-settings :
      (usec : ℕ) (buffer : List ℕ) (s : Session W)
      → ((my_ibcmd driver usec buffer s).1.conf.settings ≡ s.conf.settings)
        × ((my_ibcmd driver usec buffer s).1.conf.is_interface ≡ s.conf.is_interface)
  unfolding my_ibcmd command_error
  my_ibcmd-settings usec buffer s = ground (arith, check_cic-conf s)

  create_send_setup-conf :
      (addresses : Option (List ℕ)) (s : Session W)
      → (create_send_setup driver addresses s).1.conf ≡ s.conf
  unfolding create_send_setup
  create_send_setup-conf none s = refl
  create_send_setup-conf (some addresses) s =
      let s1 = (valid_list (some addresses) s).1 in
      let s2 = (query_pad driver s1).1 in
      let kept = query_pad-conf s1 in
      elim (Bool-cases (valid_list (some addresses) s).0) [
        | inr bad ↦ simp bad refl
        | inl ok ↦ elim (Option-cases (query_pad driver s1).0) [
          | inl e ↦ simp (ok, e) kept
          | inr (pad, e) ↦ elim (Option-cases (query_sad driver s2).0) [
            | inl e2 ↦ simp (ok, e, e2) (query_sad-conf s2 ∙ kept)
            | inr (sad, e2) ↦ simp (ok, e, e2) (query_sad-conf s2 ∙ kept)
          ]
        ]
      ]

  send_setup_string-conf : (s : Session W) → (send_setup_string driver s).1.conf ≡ s.conf
  unfolding send_setup_string
  send_setup_string-conf s =
      let address = pack_address (to_unsigned s.conf.settings.pad) s.conf.settings.sad in
      create_send_setup-conf (some (address ∷ noaddr ∷ [])) s

  pub send_setup-settings :
      (usec : ℕ) (s : Session W)
      → ((send_setup driver usec s).1.conf.settings ≡ s.conf.settings)
        × ((send_setup driver usec s).1.conf.is_interface ≡ s.conf.is_interface)
  unfolding send_setup
  send_setup-settings usec s =
      let string = (send_setup_string driver s).0 in
      let s1 = (send_setup_string driver s).1 in
      let (settings, interface) = my_ibcmd-settings usec string s1 in
      let same = send_setup_string-conf s in
      elim (Bool-cases (is_neg (my_ibcmd driver usec string s1).0)) [
        | inl e ↦
            simp e (settings ∙ ap (λ c. c.settings) same, interface ∙ ap (λ c. c.is_interface) same)
        | inr e ↦
            simp e (settings ∙ ap (λ c. c.settings) same, interface ∙ ap (λ c. c.is_interface) same)
      ]
