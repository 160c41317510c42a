-- ===== src/User/Read/Laws.antt =====
-- The end-of-string byte that a read uses.
use linux_gpib.Prelude.{
  ℕ, ◌/◌, ◌%◌, ◌*◌, ◌≡◌, refl, ◌∙◌, true, arith, ℤ, negsuc, is_neg, if◌then◌else◌, ◌==◌, ltb, has,
  with, Bool-cases, inl, inr,
}
use linux_gpib.Uapi.Status.{reos, bin}
use linux_gpib.User.Codes.{earg}
use linux_gpib.User.Session.{Driver, Session, set_iberr}
use linux_gpib.User.Read.{ibeos, config_read_eos, iblcleos}

flags-reos : (v : ℕ) → has (v / 256 % 256 * 256) reos ≡ has v reos
unfolding has
flags-reos v = ground arith

module _ {W : Type 0} (driver : Driver W) where
  -- what the driver is told: the low byte, and the flags REOS and, if it is set, BIN
  abbrev told : ℕ → Session W → ℤ × W
  told v s =
      let flags = if has (v / 256 % 256 * 256) bin then with (with 0 reos) bin else with 0 reos in
      driver.set_eos (v % 256) flags s.world

  -- Where `char` is signed, as it is here: after `ibeos` with REOS and a byte below 128, `iblcleos`
  -- gives the driver that byte; with a byte from 128 on, which is negative as a `char`, it fails with
  -- EARG and leaves the driver as it was, with the end-of-string byte that it had.
  pub iblcleos-ibeos :
      (v : ℕ) (s : Session W)
      → has v reos ≡ true
      → let r = iblcleos driver (ibeos v s) in
        if ltb (v % 256) 128
        then ((r.0 ≡ (told v s).0) × (r.1.world ≡ (told v s).1))
        else ((r.0 ≡ negsuc 0) × (r.1 ≡ set_iberr earg (ibeos v s)))
  unfolding iblcleos config_read_eos ibeos
  iblcleos-ibeos v s on =
      let in_use = flags-reos v ∙ on in
      let low : v % 256 % 256 ≡ v % 256 = omega arith in
      let itself : (v % 256 == v % 256) ≡ true = ground arith in
      elim (Bool-cases (ltb (v % 256) 128)) [
        | inl e ↦ elim (Bool-cases (is_neg (told v s).0)) [
          | inl bad ↦ simp (in_use, e, low, itself, bad) (refl, refl)
          | inr fine ↦ simp (in_use, e, low, itself, fine) (refl, refl)
        ]
        | inr e ↦ simp (in_use, e) (refl, refl)
      ]
