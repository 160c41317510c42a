-- ===== src/Kernel/Config/Move.antt =====
-- `pad_ioctl` and `sad_ioctl` on a device's handle, and the accounts of handles against counts.
use linux_gpib.Prelude.{
  ℕ, zero, suc, ◌+◌, ◌≤◌, ◌<◌, ◌≡◌, refl, true, false, arith, ℤ, pos, Option, none, some, List, [],
  ◌∷◌, if◌then◌else◌, set, length, inl, inr,
}
use linux_gpib.Uapi.Commands.{gpib_address_equal}
use linux_gpib.Kernel.Types.{StatusQueue, Board, FilePrivate, Descriptor}
use linux_gpib.Kernel.Devices.{decrement_open_device_count, increment_open_device_count, u32_mod}
use linux_gpib.Kernel.Devices.Address.{equal_refl}
use linux_gpib.Kernel.Devices.Refs.{refs, IsDistinct, increment-refs, increment-IsDistinct}
use linux_gpib.Kernel.Handles.{slot}
use linux_gpib.Kernel.Handles.Uses.{uses, use_of, IsCovered, decrement-refs, uses-set}
use linux_gpib.Kernel.Config.{move_device}

opened_refs :
    (devices : List StatusQueue) (pad : ℕ) (sad : ℤ) (p : ℕ) (s : ℤ)
    → refs devices pad sad + 1 < u32_mod
    → let (retval, devices') = increment_open_device_count true devices pad sad in
      (retval ≡ pos 0)
      × (refs devices' p s ≡ refs devices p s + (if gpib_address_equal pad sad p s then 1 else 0))
opened_refs devices pad sad p s small = elim (increment-refs true devices pad sad p s small) [
  | inl opened ↦ opened
  | inr failed ↦ absurd (let e = failed.0 in cc)
]

slot-set_self :
    (slots : List (Option Descriptor)) (i : ℕ) (d : Option Descriptor)
    → i < length slots
    → slot (set slots i d) i ≡ d
slot-set_self [] i d h = absurd (omega arith)
slot-set_self (x ∷ slots) zero d h = refl
slot-set_self (x ∷ slots) (suc i) d h = slot-set_self slots i d (omega arith)

-- A device's handle that is moved to another address succeeds, if there is memory for a status
-- queue and every open handle is counted, and every open handle is counted again after it.
pub move_device-IsCovered :
    {D : Type 0} (file : FilePrivate) (board : Board D) (handle : ℕ) (d : Descriptor) (pad : ℕ)
    (sad : ℤ)
    → handle < length file.descriptors
    → slot file.descriptors handle ≡ some d
    → d.is_board ≡ false
    → refs board.device_list pad sad + 1 < u32_mod
    → IsDistinct board.device_list
    → IsCovered file.descriptors board.device_list
    → let (retval, file', board') = move_device true file board handle d pad sad in
      (retval ≡ pos 0)
      × (slot file'.descriptors handle ≡ some (record d { pad = pad; sad = sad }))
      × IsDistinct board'.device_list
      × IsCovered file'.descriptors board'.device_list
unfolding move_device uses use_of
move_device-IsCovered file board handle d pad sad h found device small v covered =
    let slots = file.descriptors in
    let devices = board.device_list in
    let moved : Descriptor = record d { pad = pad; sad = sad } in
    let changed = λ (p : ℕ) (s : ℤ).
      simp (found, device, use_of) at (uses-set slots handle (some moved) p s h) in
    let freed =
      λ (p : ℕ) (s : ℤ). simp (found, device, use_of) at (uses-set slots handle none p s h) in
    let one : 1 ≤ refs devices d.pad d.sad =
      omega (arith, covered d.pad d.sad, simp (equal_refl d.pad d.sad) at (freed d.pad d.sad)) in
    let after = λ (p : ℕ) (s : ℤ). decrement-refs devices d.pad d.sad p s v one in
    let (closed, v1, _) = after pad sad in
    let devices1 = (decrement_open_device_count devices d.pad d.sad).1 in
    let small1 : refs devices1 pad sad + 1 < u32_mod = omega (arith, (after pad sad).2, small) in
    let v2 = increment-IsDistinct true devices1 pad sad small1 v1 in
    let added = λ (p : ℕ) (s : ℤ). opened_refs devices1 pad sad p s small1 in
    let opened = (added pad sad).0 in
    simp (closed, opened)
      (
        refl,
        slot-set_self slots handle (some moved) h,
        v2,
        λ p s. ground (arith, changed p s, freed p s, (after p s).2, (added p s).1, covered p s),
      )
