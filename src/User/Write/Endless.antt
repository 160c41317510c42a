-- ===== src/User/Write/Endless.antt =====
-- `my_ibwrt` never ends with XEOS on where the data hold the end-of-string byte.
use linux_gpib.Prelude.{
  ℕ, zero, suc, ◌+◌, ◌<◌, ◌≡◌, refl, ap, ◌∙◌, Bool, true, false, arith, ℤ, pos, is_neg, none, some,
  List, ◌==◌, length, take, drop, length-take, has,
}
use linux_gpib.Uapi.Status.{xeos}
use linux_gpib.User.Session.{Request, Driver, Session, low_byte}
use linux_gpib.User.Write.{
  find_eos, smart_block, send_data, send_data_smart_eoi, write_blocks, address_device, my_ibwrt,
}
use linux_gpib.User.Write.Laws.{
  WriteContract, find_eos_from-range, find_eos_from-drop, smart-settings, smart_counts,
}

-- A driver whose writes all succeed.
abbrev pub IsWilling : {W : Type 0} → Driver W → Type 0
IsWilling {W} driver =
    (request : Request) (bytes : List ℕ) (w : W) → (driver.write request bytes w).0.result ≡ pos 0

found_in :
    (i : ℕ) (buffer : List ℕ) (eos : ℤ) (eos_flags : ℕ)
    → find_eos buffer eos eos_flags ≡ some i
    → (i < length buffer) × (find_eos (drop i buffer) eos eos_flags ≡ some 0)
unfolding find_eos
found_in i buffer eos eos_flags h =
    let (_, inside) = find_eos_from-range 0 buffer (low_byte eos) eos_flags i h in
    let counted : i ≡ 0 + i = omega arith in
    (omega arith, find_eos_from-drop 0 i buffer (low_byte eos) eos_flags (h ∙ ap some counted))

module _ {W : Type 0} (driver : Driver W) where
  willing_smart :
      IsWilling driver
      → (usec : ℕ) (buffer : List ℕ) (force_eoi : Bool) (s : Session W)
      → (send_data_smart_eoi driver usec buffer force_eoi s).0 ≡ pos 0
  unfolding send_data_smart_eoi send_data
  willing_smart willing usec buffer force_eoi s =
      let (size, eoi) = smart_block buffer force_eoi s in
      let block = take size buffer in
      let request : Request = record {
        requested = length block;
        end = eoi;
        handle = s.conf.handle;
      } in
      rw (willing request block (driver.set_timeout usec s.world)) refl

  eos_block :
      (buffer : List ℕ) (force_eoi : Bool) (i : ℕ) (s : Session W)
      → has s.conf.settings.eos_flags xeos ≡ true
      → find_eos buffer s.conf.settings.eos s.conf.settings.eos_flags ≡ some i
      → length (take (smart_block buffer force_eoi s).0 buffer) ≡ i
  unfolding smart_block
  eos_block buffer force_eoi i s on found =
      let (inside, _) = found_in i buffer s.conf.settings.eos s.conf.settings.eos_flags found in
      simp (on, found) (omega (arith, length-take i buffer, inside))

  -- With XEOS on, a driver that takes all it is given, and an end-of-string byte in the buffer, no
  -- fuel is enough for the loop of `my_ibwrt`: it stops before that byte and sends 0 bytes for ever.
  pub write_blocks_endless :
      WriteContract driver
      → IsWilling driver
      → (fuel usec : ℕ) (buffer : List ℕ) (retval : ℤ) (bytes_written i : ℕ) (s : Session W)
      → has s.conf.settings.eos_flags xeos ≡ true
      → find_eos buffer s.conf.settings.eos s.conf.settings.eos_flags ≡ some i
      → write_blocks driver fuel usec buffer retval bytes_written s ≡ none
  unfolding write_blocks
  write_blocks_endless contract willing zero usec buffer retval bytes_written i s on found = refl
  write_blocks_endless contract willing (suc fuel) usec buffer retval bytes_written i s on found =
      let settings = s.conf.settings in
      let sent = send_data_smart_eoi driver usec buffer settings.send_eoi s in
      let fine = willing_smart willing usec buffer settings.send_eoi s in
      let not_neg : is_neg sent.0 ≡ false = rw fine refl in
      let (_, whole) = smart_counts driver contract usec buffer settings.send_eoi s in
      let count : sent.1 ≡ i = whole not_neg ∙ eos_block buffer settings.send_eoi i s on found in
      let (inside, again) = found_in i buffer settings.eos settings.eos_flags found in
      let some_left : (length buffer == 0) ≡ false = ground (arith, inside) in
      let kept = smart-settings driver usec buffer settings.send_eoi s in
      let rest =
        write_blocks_endless contract willing fuel usec (drop sent.1 buffer) sent.0
          (bytes_written + sent.1) 0 sent.2 (rw kept on) (rw (kept, count) again) in
      simp (some_left, not_neg) rest

  -- With XEOS on, a driver that takes all it is given and an end-of-string byte in the data,
  -- `my_ibwrt` on a board's descriptor never returns, whatever the fuel.
  pub my_ibwrt_endless :
      WriteContract driver
      → IsWilling driver
      → (fuel : ℕ) (uninitialised : ℤ) (usec : ℕ) (buffer : List ℕ) (i : ℕ) (s : Session W)
      → has s.conf.settings.eos_flags xeos ≡ true
      → find_eos buffer s.conf.settings.eos s.conf.settings.eos_flags ≡ some i
      → s.conf.is_interface ≡ true
      → my_ibwrt driver fuel uninitialised usec buffer s ≡ none
  unfolding my_ibwrt address_device
  my_ibwrt_endless contract willing fuel uninitialised usec buffer i s on found board =
      let s1 = record s { world = driver.set_timeout usec s.world } in
      simp
        (
          address_device,
          board,
          write_blocks_endless contract willing fuel usec buffer uninitialised 0 i s1 on found,
        )
        refl
