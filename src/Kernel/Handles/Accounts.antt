-- ===== src/Kernel/Handles/Accounts.antt =====
-- The books that the descriptors of a file and the board's list of devices keep of each other:
-- the count of an address is at least the number of descriptors that have it open.
use linux_gpib.Prelude.{
  ℕ, ◌+◌, ◌-◌, ◌≤◌, ◌<◌, ◌≡◌, refl, true, false, arith, ℤ, pos, is_neg, Option, none, some, List,
  [], ◌∷◌, if◌then◌else◌, ◌==◌, set, length, leb, Bool-cases, inl, inr,
}
use linux_gpib.Uapi.Commands.{gpib_address_equal}
use linux_gpib.Kernel.Types.{StatusQueue, Board, FilePrivate, Descriptor}
use linux_gpib.Uapi.Status.{gpib_max_num_descriptors}
use linux_gpib.Kernel.Devices.{increment_open_device_count, u32_mod}
use linux_gpib.Kernel.Devices.Address.{equal_refl}
use linux_gpib.Kernel.Devices.Refs.{refs, IsDistinct, increment-refs, increment-IsDistinct}
use linux_gpib.Kernel.Handles.{
  slot, first_free, Kernel, OpenDevCmd, new_descriptor, release_address, cleanup_from,
  cleanup_open_devices, open_slot, open_dev_ioctl, close_slot, close_dev_ioctl,
}
use linux_gpib.Kernel.Handles.Uses.{use_of, uses, IsCovered, uses-set, decrement-refs}

-- `release_address` of a slot takes from the count of each address what the slot uses of it, if
-- every open handle is counted.
release-refs :
    (d : Descriptor) (devices : List StatusQueue) (p : ℕ) (s : ℤ)
    → IsDistinct devices
    → ((q : ℕ) (t : ℤ) → use_of (some d) q t ≤ refs devices q t)
    → let (retval, devices') = release_address devices d in
      (retval ≡ pos 0)
      × IsDistinct devices'
      × (refs devices' p s ≡ refs devices p s - use_of (some d) p s)
unfolding release_address use_of
release-refs d devices p s v covered = elim (Bool-cases d.is_board) [
  | inl e ↦ simp e (refl, v, omega arith)
  | inr e ↦
      let one = simp (e, equal_refl d.pad d.sad) at (covered d.pad d.sad) in
      simp e (decrement-refs devices d.pad d.sad p s v one)
]

abbrev pub IsEmpty : List (Option Descriptor) → Type 0
IsEmpty [] = Unit {0}
IsEmpty (d ∷ ds) = (d ≡ none) × IsEmpty ds

cleanup_from_lem :
    (slots : List (Option Descriptor)) (devices : List StatusQueue) (p : ℕ) (s : ℤ)
    → IsDistinct devices
    → IsCovered slots devices
    → let (retval, slots', devices') = cleanup_from slots devices in
      (retval ≡ pos 0)
      × IsEmpty slots'
      × IsDistinct devices'
      × (refs devices' p s ≡ refs devices p s - uses slots p s)
unfolding cleanup_from uses use_of
cleanup_from_lem [] devices p s v covered = (refl, tt, v, omega arith)
cleanup_from_lem (none ∷ slots) devices p s v covered =
    let (done, empty, v', same) =
      cleanup_from_lem slots devices p s v (λ q t. omega (arith, covered q t)) in
    (done, (refl, empty), v', omega (arith, same))
cleanup_from_lem (some d ∷ slots) devices p s v covered =
    let here : (q : ℕ) (t : ℤ) → use_of (some d) q t ≤ refs devices q t =
      λ q t. omega (arith, covered q t) in
    let (released, v1, _) = release-refs d devices p s v here in
    let devices1 = (release_address devices d).1 in
    let later : IsCovered slots devices1 =
      λ q t. omega (arith, covered q t, (release-refs d devices q t v here).2) in
    let (done, empty, v', same) = cleanup_from_lem slots devices1 p s v1 later in
    simp released
      (done, (refl, empty), v', omega (arith, same, (release-refs d devices p s v here).2))

-- `cleanup_open_devices` of a table whose open handles are all counted succeeds, leaves no
-- descriptor, and takes from the count of each address the number of handles that were open on it.
pub cleanup_lem :
    {D : Type 0} (file : FilePrivate) (board : Board D) (p : ℕ) (s : ℤ)
    → IsDistinct board.device_list
    → IsCovered file.descriptors board.device_list
    → let (retval, file', board') = cleanup_open_devices file board in
      (retval ≡ pos 0)
      × IsEmpty file'.descriptors
      × IsDistinct board'.device_list
      × (refs board'.device_list p s ≡ refs board.device_list p s - uses file.descriptors p s)
unfolding cleanup_open_devices
cleanup_lem file board p s v covered =
    cleanup_from_lem file.descriptors board.device_list p s v covered

first_free_lem :
    (slots : List (Option Descriptor))
    → (first_free slots ≤ length slots) × (slot slots (first_free slots) ≡ none)
unfolding first_free
first_free_lem [] = (omega arith, refl)
first_free_lem (none ∷ slots) = (omega arith, refl)
first_free_lem (some d ∷ slots) =
    let (bound, free) = first_free_lem slots in (omega (arith, bound), free)

-- what one slot adds to the uses of an address, once the slot is free
uses-open :
    (slots : List (Option Descriptor)) (i : ℕ) (d : Descriptor) (p : ℕ) (s : ℤ)
    → i < length slots
    → slot slots i ≡ none
    → uses (set slots i (some d)) p s ≡ uses slots p s + use_of (some d) p s
unfolding use_of
uses-open slots i d p s h free =
    let freed : use_of (slot slots i) p s ≡ 0 = simp free in
    omega (arith, uses-set slots i (some d) p s h, freed)

new_use :
    (cmd : OpenDevCmd) (p : ℕ) (s : ℤ)
    → use_of (some (new_descriptor cmd)) p s
      ≤ (if gpib_address_equal cmd.pad cmd.sad p s then 1 else 0)
unfolding use_of
new_use cmd p s = ground arith

open_slot-IsCovered :
    {D : Type 0} (os : Kernel) (cmd : OpenDevCmd) (file : FilePrivate) (board : Board D) (i : ℕ)
    → os.queue_memory ≡ true
    → refs board.device_list cmd.pad cmd.sad + 1 < u32_mod
    → i < length file.descriptors
    → slot file.descriptors i ≡ none
    → IsDistinct board.device_list
    → IsCovered file.descriptors board.device_list
    → let (retval, handle, file', board') = open_slot os cmd file board i in
      IsDistinct board'.device_list × IsCovered file'.descriptors board'.device_list
unfolding open_slot
open_slot-IsCovered os cmd file board i memory small h free v covered =
    let devices = board.device_list in
    let opened = (increment_open_device_count os.queue_memory devices cmd.pad cmd.sad).1 in
    let v' = increment-IsDistinct os.queue_memory devices cmd.pad cmd.sad small v in
    let covered' : IsCovered (set file.descriptors i (some (new_descriptor cmd))) opened = λ q t.
      ground (
        arith,
        covered q t,
        uses-open file.descriptors i (new_descriptor cmd) q t h free,
        increment-refs os.queue_memory devices cmd.pad cmd.sad q t small,
        memory,
        new_use cmd q t,
      ) in
    let retval = (increment_open_device_count os.queue_memory devices cmd.pad cmd.sad).0 in
    elim (Bool-cases (is_neg retval)) [
      | inl e ↦ simp (e, open_slot) (v', covered')
      | inr e ↦ elim (Bool-cases os.copied_out) [
        | inl c ↦ simp (e, c, open_slot) (v', covered')
        | inr c ↦ simp (e, c, open_slot) (v', covered')
      ]
    ]

-- Opening an address, with memory for a status queue and a table of the full size, keeps every
-- open handle counted, in each of the ways in which `open_dev_ioctl` ends.
pub open_dev-IsCovered :
    {D : Type 0} (os : Kernel) (cmd : OpenDevCmd) (file : FilePrivate) (board : Board D)
    → os.queue_memory ≡ true
    → refs board.device_list cmd.pad cmd.sad + 1 < u32_mod
    → length file.descriptors ≡ gpib_max_num_descriptors
    → IsDistinct board.device_list
    → IsCovered file.descriptors board.device_list
    → let (retval, handle, file', board') = open_dev_ioctl os cmd file board in
      IsDistinct board'.device_list × IsCovered file'.descriptors board'.device_list
unfolding open_dev_ioctl
open_dev-IsCovered os cmd file board memory small size v covered =
    let i = first_free file.descriptors in
    let (bound, free) = first_free_lem file.descriptors in
    elim (Bool-cases os.copied_in) [
      | inr e1 ↦ simp e1 (v, covered)
      | inl e1 ↦ elim (Bool-cases os.locked) [
        | inr e2 ↦ simp (e1, e2) (v, covered)
        | inl e2 ↦ elim (Bool-cases (i == gpib_max_num_descriptors)) [
          | inl e3 ↦ simp (e1, e2, e3) (v, covered)
          | inr e3 ↦ elim (Bool-cases os.descriptor_memory) [
            | inr e4 ↦ simp (e1, e2, e3, e4) (v, covered)
            | inl e4 ↦
                let room : i < length file.descriptors = ground (arith, bound, size, e3) in
                simp (e1, e2, e3, e4)
                  (open_slot-IsCovered os cmd file board i memory small room free v covered)
          ]
        ]
      ]
    ]

-- Closing the handle of a device succeeds if every open handle is counted, frees its slot, takes
-- one from the count of its address and from no other, and keeps every open handle counted.
pub close_dev-IsCovered :
    {D : Type 0} (os : Kernel) (handle : ℕ) (file : FilePrivate) (board : Board D) (d : Descriptor)
    → os.copied_in ≡ true
    → handle < gpib_max_num_descriptors
    → length file.descriptors ≡ gpib_max_num_descriptors
    → slot file.descriptors handle ≡ some d
    → d.is_board ≡ false
    → IsDistinct board.device_list
    → IsCovered file.descriptors board.device_list
    → let (retval, file', board') = close_dev_ioctl os handle file board in
      (retval ≡ pos 0)
      × (file'.descriptors ≡ set file.descriptors handle none)
      × IsDistinct board'.device_list
      × IsCovered file'.descriptors board'.device_list
      × ((p : ℕ) (s : ℤ)
          → refs board'.device_list p s
            ≡ refs board.device_list p s - (if gpib_address_equal d.pad d.sad p s then 1 else 0))
unfolding close_dev_ioctl uses use_of
close_dev-IsCovered os handle file board d copied h size found device v covered =
    let slots = file.descriptors in
    let devices = board.device_list in
    let out : leb gpib_max_num_descriptors handle ≡ false = ground (arith, h) in
    let bound : handle < length slots = omega (arith, h, size) in
    let freed =
      λ (p : ℕ) (s : ℤ). simp (found, device, use_of) at (uses-set slots handle none p s bound) in
    let one : 1 ≤ refs devices d.pad d.sad =
      omega (arith, covered d.pad d.sad, simp (equal_refl d.pad d.sad) at (freed d.pad d.sad)) in
    let after = λ (p : ℕ) (s : ℤ). decrement-refs devices d.pad d.sad p s v one in
    let (closed, v', _) = after 0 (pos 0) in
    simp (copied, out, found, closed, close_slot)
      (
        refl,
        refl,
        v',
        λ p s. omega (arith, freed p s, (after p s).2, covered p s),
        λ p s. (after p s).2,
      )
