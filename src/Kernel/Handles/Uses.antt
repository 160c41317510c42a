-- ===== src/Kernel/Handles/Uses.antt =====
-- How many descriptors of a table have an address open.
use linux_gpib.Prelude.{
  ℕ, zero, suc, ◌+◌, ◌-◌, ◌≤◌, ◌<◌, ◌≡◌, not, ◌&&◌, arith, ℤ, pos, Option, none, some, List, [],
  ◌∷◌, if◌then◌else◌, set, length,
}
use linux_gpib.Uapi.Commands.{gpib_address_equal}
use linux_gpib.Kernel.Types.{StatusQueue, Descriptor}
use linux_gpib.Kernel.Devices.{decrement_open_device_count}
use linux_gpib.Kernel.Devices.Refs.{refs, IsDistinct, subtract-refs, subtract-IsDistinct}
use linux_gpib.Kernel.Handles.{slot}

-- 1 if a slot holds a device's descriptor for the address, and 0 otherwise
unfoldable pub use_of : Option Descriptor → ℕ → ℤ → ℕ
use_of none p s = 0
use_of (some d) p s = if not d.is_board && gpib_address_equal d.pad d.sad p s then 1 else 0

-- how many of the descriptors have an address open
unfoldable pub uses : List (Option Descriptor) → ℕ → ℤ → ℕ
uses [] p s = 0
uses (d ∷ ds) p s = use_of d p s + uses ds p s

-- Every open handle is counted.
abbrev pub IsCovered : List (Option Descriptor) → List StatusQueue → Type 0
IsCovered slots devices = (p : ℕ) (s : ℤ) → uses slots p s ≤ refs devices p s

pub uses-set :
    (slots : List (Option Descriptor)) (i : ℕ) (d : Option Descriptor) (p : ℕ) (s : ℤ)
    → i < length slots
    → uses (set slots i d) p s + use_of (slot slots i) p s ≡ uses slots p s + use_of d p s
unfolding uses
uses-set [] i d p s h = absurd (omega arith)
uses-set (x ∷ xs) zero d p s h = omega arith
uses-set (x ∷ xs) (suc i) d p s h = omega (arith, uses-set xs i d p s (omega arith))

pub decrement-refs :
    (devices : List StatusQueue) (pad : ℕ) (sad : ℤ) (p : ℕ) (s : ℤ)
    → IsDistinct devices
    → 1 ≤ refs devices pad sad
    → let (retval, devices') = decrement_open_device_count devices pad sad in
      (retval ≡ pos 0)
      × IsDistinct devices'
      × (refs devices' p s ≡ refs devices p s - (if gpib_address_equal pad sad p s then 1 else 0))
unfolding decrement_open_device_count
decrement-refs devices pad sad p s v one =
    let still = subtract-IsDistinct devices pad sad 1 v (omega arith) in
    ground (arith, one, still, subtract-refs devices pad sad 1 p s v (omega arith))
