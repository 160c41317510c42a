-- ===== src/Kernel/Devices.antt =====
-- linux-gpib-kernel/drivers/gpib/common/gpib_os.c: the list of open device addresses of a board,
-- with a reference count for each. A list is the kernel's linked list from its head on; what the
-- C loops change in place is the list returned. `alloc` says whether `kmalloc` gives memory.
pub mod Address
pub mod Refs
use linux_gpib.Prelude.{
  ℕ, ◌+◌, ◌-◌, ◌%◌, Bool, true, false, ℤ, pos, Option, none, some, List, [], ◌∷◌, ltb, ◌==◌,
  if◌then◌else◌,
}
use linux_gpib.Uapi.Errno.{einval, enomem}
use linux_gpib.Uapi.Commands.{gpib_address_equal}
use linux_gpib.Kernel.Types.{StatusQueue, init_gpib_status_queue}

abbrev pub u32_mod : ℕ
u32_mod = 0x1_0000_0000

-- `get_gpib_status_queue`: the first entry for an address; `none` is NULL.
unfoldable pub get_gpib_status_queue : List StatusQueue → ℕ → ℤ → Option StatusQueue
get_gpib_status_queue [] pad sad = none
get_gpib_status_queue (device ∷ rest) pad sad =
    if gpib_address_equal device.pad device.sad pad sad
    then some device
    else get_gpib_status_queue rest pad sad

-- What a function does through the pointer that `get_gpib_status_queue` returned.
unfoldable pub replace_status_queue : List StatusQueue → ℕ → ℤ → StatusQueue → List StatusQueue
replace_status_queue [] pad sad device' = []
replace_status_queue (device ∷ rest) pad sad device' =
    if gpib_address_equal device.pad device.sad pad sad
    then device' ∷ rest
    else device ∷ replace_status_queue rest pad sad device'

-- The loop of `increment_open_device_count`; `none` if it runs to the end of the list.
increment_existing : List StatusQueue → ℕ → ℤ → Option (List StatusQueue)
increment_existing [] pad sad = none
increment_existing (device ∷ rest) pad sad =
    let later = increment_existing rest pad sad in
    if gpib_address_equal device.pad device.sad pad sad
    then some (record device { reference_count = (device.reference_count + 1) % u32_mod } ∷ rest)
    else elim later [ none ↦ none | some rest' ↦ some (device ∷ rest') ]

unfoldable pub increment_open_device_count : Bool → List StatusQueue → ℕ → ℤ → ℤ × List StatusQueue
unfolding increment_existing
increment_open_device_count alloc devices pad sad = elim (increment_existing devices pad sad) [
  | some devices' ↦ (pos 0, devices')
  | none ↦
      if alloc
      then (pos 0, record (init_gpib_status_queue pad sad) { reference_count = 1 } ∷ devices)
      else (enomem, devices)
]

-- The entry that `subtract_open_device_count` finds, and the entries behind it.
subtract_here : StatusQueue → List StatusQueue → ℕ → ℤ × List StatusQueue
subtract_here device rest count =
    if ltb device.reference_count count
    then (einval, device ∷ rest)
    else (if device.reference_count - count == 0
        then (pos 0, rest)
        else (pos 0, record device { reference_count = device.reference_count - count } ∷ rest))

unfoldable pub subtract_open_device_count : List StatusQueue → ℕ → ℤ → ℕ → ℤ × List StatusQueue
unfolding subtract_here
subtract_open_device_count [] pad sad count = (einval, [])
subtract_open_device_count (device ∷ rest) pad sad count =
    let (retval, rest') = subtract_open_device_count rest pad sad count in
    if gpib_address_equal device.pad device.sad pad sad
    then subtract_here device rest count
    else (retval, device ∷ rest')

unfoldable pub decrement_open_device_count : List StatusQueue → ℕ → ℤ → ℤ × List StatusQueue
unfolding subtract_open_device_count
decrement_open_device_count devices pad sad = subtract_open_device_count devices pad sad 1
