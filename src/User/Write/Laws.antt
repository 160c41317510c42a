-- ===== src/User/Write/Laws.antt =====
-- The loop of `my_ibwrt`: when it ends, and when it does not.
use linux_gpib.Prelude.{
  ℕ, zero, suc, ◌+◌, ◌≤◌, ◌<◌, ◌≡◌, Bool, false, arith, is_neg, some, List, [], ◌∷◌, length, take,
  drop,
}
use linux_gpib.User.Session.{Request, Driver, Session}
use linux_gpib.User.Write.{find_eos_from, smart_block, send_data, send_data_smart_eoi, write_error}

-- A driver counts no more bytes than it was given, and takes them all when it reports a success.
pub record WriteContract {W : Type 0} (driver : Driver W) : Type 0 where
  pub bounded :
      (request : Request) (bytes : List ℕ) (w : W)
      → (driver.write request bytes w).0.completed ≤ request.requested
  pub whole :
      (request : Request) (bytes : List ℕ) (w : W)
      → is_neg (driver.write request bytes w).0.result ≡ false
      → (driver.write request bytes w).0.completed ≡ request.requested

pub find_eos_from-range :
    (i : ℕ) (buffer : List ℕ) (eos eos_flags j : ℕ)
    → find_eos_from i buffer eos eos_flags ≡ some j
    → (i ≤ j) × (j < i + length buffer)
unfolding find_eos_from
find_eos_from-range i [] eos eos_flags j h = absurd cc
find_eos_from-range i (byte ∷ rest) eos eos_flags j h =
    let ih = find_eos_from-range (suc i) rest eos eos_flags j in ground (arith, ih)

-- The bytes from the first end-of-string byte on begin with it.
pub find_eos_from-drop :
    (i k : ℕ) (buffer : List ℕ) (eos eos_flags : ℕ)
    → find_eos_from i buffer eos eos_flags ≡ some (i + k)
    → find_eos_from 0 (drop k buffer) eos eos_flags ≡ some 0
unfolding find_eos_from
find_eos_from-drop i k [] eos eos_flags h = absurd cc
find_eos_from-drop i zero (byte ∷ rest) eos eos_flags h =
    let later = find_eos_from-range (suc i) rest eos eos_flags i in ground (arith, later)
find_eos_from-drop i (suc k) (byte ∷ rest) eos eos_flags h =
    find_eos_from-drop (suc i) k rest eos eos_flags (ground arith)

module _ {W : Type 0} (driver : Driver W) where
  pub send_data-is_interface :
      (usec : ℕ) (buffer : List ℕ) (send_eoi : Bool) (s : Session W)
      → (send_data driver usec buffer send_eoi s).2.conf.is_interface ≡ s.conf.is_interface
  unfolding send_data write_error
  send_data-is_interface usec buffer send_eoi s = ground arith

  send_data-settings :
      (usec : ℕ) (buffer : List ℕ) (send_eoi : Bool) (s : Session W)
      → (send_data driver usec buffer send_eoi s).2.conf.settings ≡ s.conf.settings
  unfolding send_data write_error
  send_data-settings usec buffer send_eoi s = ground arith

  pub smart-settings :
      (usec : ℕ) (buffer : List ℕ) (force_eoi : Bool) (s : Session W)
      → (send_data_smart_eoi driver usec buffer force_eoi s).2.conf.settings ≡ s.conf.settings
  unfolding send_data_smart_eoi
  smart-settings usec buffer force_eoi s =
      let (size, eoi) = smart_block buffer force_eoi s in
      send_data-settings usec (take size buffer) eoi s

  pub smart-is_interface :
      (usec : ℕ) (buffer : List ℕ) (force_eoi : Bool) (s : Session W)
      → (send_data_smart_eoi driver usec buffer force_eoi s).2.conf.is_interface
        ≡ s.conf.is_interface
  unfolding send_data_smart_eoi
  smart-is_interface usec buffer force_eoi s =
      let (size, eoi) = smart_block buffer force_eoi s in
      send_data-is_interface usec (take size buffer) eoi s

  -- One block, sent by a driver that keeps to the contract.
  pub smart_counts :
      WriteContract driver
      → (usec : ℕ) (buffer : List ℕ) (force_eoi : Bool) (s : Session W)
      → let r = send_data_smart_eoi driver usec buffer force_eoi s in
        let block = take (smart_block buffer force_eoi s).0 buffer in
        (r.1 ≤ length block) × (is_neg r.0 ≡ false → r.1 ≡ length block)
  unfolding send_data_smart_eoi send_data
  smart_counts contract usec buffer force_eoi s =
      let (size, eoi) = smart_block buffer force_eoi s in
      let block = take size buffer in
      let request : Request = record {
        requested = length block;
        end = eoi;
        handle = s.conf.handle;
      } in
      let w = driver.set_timeout usec s.world in
      let whole = contract.whole request block w in
      (contract.bounded request block w, λ fine. whole (ground (arith, fine)))
