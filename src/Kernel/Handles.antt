-- ===== src/Kernel/Handles.antt =====
-- linux-gpib-kernel/drivers/gpib/common/gpib_os.c: the descriptor table of an open device file,
-- and the ioctls that open and close the addresses of devices.
pub mod Uses
pub mod Accounts
pub mod Progress
use linux_gpib.Prelude.{
  ℕ, zero, suc, ◌-◌, ◌%◌, Bool, true, false, ℤ, pos, negsuc, is_neg, Option, none, some, List, [],
  ◌∷◌, leb, ltb, ◌==◌, if◌then◌else◌, get_elem?, set, replicate,
}
use linux_gpib.Uapi.Errno.{einval, efault, erestartsys, erange, enomem}
use linux_gpib.Uapi.Status.{gpib_max_num_descriptors}
use linux_gpib.Kernel.Types.{StatusQueue, Board, FilePrivate, Descriptor, init_gpib_descriptor}
use linux_gpib.Kernel.Devices.{increment_open_device_count, decrement_open_device_count}

-- a slot of the table; out of range there is none
abbrev pub slot : List (Option Descriptor) → ℕ → Option Descriptor
slot [] i = none
slot (d ∷ ds) zero = d
slot (d ∷ ds) (suc i) = slot ds i

-- A handle of 32 bits without sign is at least 2 ^ 31, and so out of range, where C would read it
-- as a negative number.
unfoldable pub handle_to_descriptor : FilePrivate → ℤ → Option Descriptor
handle_to_descriptor file (negsuc h) = none
handle_to_descriptor file (pos h) =
    if leb gpib_max_num_descriptors h then none else slot file.descriptors h

-- `atomic_set(&desc->io_in_progress, v)` through the pointer of a handle
unfoldable pub set_io_in_progress : FilePrivate → ℤ → Bool → FilePrivate
set_io_in_progress file (negsuc h) v = file
set_io_in_progress file (pos h) v = elim (slot file.descriptors h) [
  | none ↦ file
  | some d ↦ record file {
    descriptors = set file.descriptors h (some (record d { io_in_progress = v }));
  }
]

-- `init_gpib_file_private`: the first descriptor is the board's own.
unfoldable pub init_gpib_file_private : FilePrivate
init_gpib_file_private = record {
  descriptors =
      some (record init_gpib_descriptor { is_board = true })
      ∷ replicate (gpib_max_num_descriptors - 1) none;
  holding_mutex = false;
  got_module = false;
}

-- The loop `for (i = 0; ...) if (!descriptors[i]) break;`
unfoldable pub first_free : List (Option Descriptor) → ℕ
first_free [] = 0
first_free (none ∷ ds) = 0
first_free (some d ∷ ds) = suc (first_free ds)

-- What the operating system answers: copying from and to the user, locking the table, memory for
-- a descriptor and for a status queue.
pub record Kernel : Type 0 where
  pub copied_in : Bool
  pub locked : Bool
  pub descriptor_memory : Bool
  pub queue_memory : Bool
  pub copied_out : Bool

pub record OpenDevCmd : Type 0 where
  pub pad : ℕ
  pub sad : ℤ
  pub is_board : ℕ

-- `is_board` is a field of one bit.
abbrev new_descriptor : OpenDevCmd → Descriptor
new_descriptor cmd = record init_gpib_descriptor {
  pad = cmd.pad;
  sad = cmd.sad;
  is_board = cmd.is_board % 2 == 1;
}

-- A device's address is closed; nothing is done for a board.
release_address : List StatusQueue → Descriptor → ℤ × List StatusQueue
release_address devices desc =
    if desc.is_board
    then (pos 0, devices)
    else decrement_open_device_count devices desc.pad desc.sad

-- The loop of `cleanup_open_devices` from a slot on: the value that is returned, the slots that
-- are left, and the list of devices.
cleanup_from :
    List (Option Descriptor) → List StatusQueue → ℤ × List (Option Descriptor) × List StatusQueue
unfolding release_address
cleanup_from [] devices = (pos 0, [], devices)
cleanup_from (none ∷ slots) devices =
    let (retval, slots', devices') = cleanup_from slots devices in (retval, none ∷ slots', devices')
cleanup_from (some desc ∷ slots) devices =
    let (released, devices1) = release_address devices desc in
    let (retval, slots', devices2) = cleanup_from slots devices1 in
    if is_neg released
    then (released, some desc ∷ slots, devices1)
    else (retval, none ∷ slots', devices2)

module _ {D : Type 0} where
  -- The part of `open_dev_ioctl` behind the table's lock, for the slot `i`. The option is the
  -- handle that is copied back.
  open_slot : Kernel → OpenDevCmd → FilePrivate → Board D → ℕ → ℤ × Option ℕ × FilePrivate × Board D
  open_slot os cmd file board i =
      let file' = record file {
        descriptors = set file.descriptors i (some (new_descriptor cmd));
      } in
      let (retval, devices) =
        increment_open_device_count os.queue_memory board.device_list cmd.pad cmd.sad in
      let board' = record board { device_list = devices } in
      let board'' = record board' { stuck_srq = false } in
      if is_neg retval
      then (retval, none, file', board')
      else (if os.copied_out
          then (pos 0, some i, file', board'')
          else (efault, none, file', board''))

  unfoldable pub open_dev_ioctl :
      Kernel → OpenDevCmd → FilePrivate → Board D → ℤ × Option ℕ × FilePrivate × Board D
  unfolding open_slot
  open_dev_ioctl os cmd file board =
      let i = first_free file.descriptors in
      if os.copied_in
      then (if os.locked
          then (if i == gpib_max_num_descriptors
              then (erange, none, file, board)
              else (if os.descriptor_memory
                  then open_slot os cmd file board i
                  else (enomem, none, file, board)))
          else (erestartsys, none, file, board))
      else (efault, none, file, board)

  -- The part of `close_dev_ioctl` for the descriptor of a handle.
  close_slot : FilePrivate → Board D → ℕ → Descriptor → ℤ × FilePrivate × Board D
  close_slot file board handle desc =
      let (retval, devices) = decrement_open_device_count board.device_list desc.pad desc.sad in
      let board' = record board { device_list = devices } in
      if is_neg retval
      then (retval, file, board')
      else (pos 0, record file { descriptors = set file.descriptors handle none }, board')

  unfoldable pub close_dev_ioctl : Kernel → ℕ → FilePrivate → Board D → ℤ × FilePrivate × Board D
  unfolding close_slot
  close_dev_ioctl os handle file board =
      if os.copied_in
      then (if leb gpib_max_num_descriptors handle
          then (einval, file, board)
          else elim (slot file.descriptors handle) [
            | none ↦ (einval, file, board)
            | some desc ↦ close_slot file board handle desc
          ])
      else (efault, file, board)

  unfoldable pub cleanup_open_devices : FilePrivate → Board D → ℤ × FilePrivate × Board D
  unfolding cleanup_from
  cleanup_open_devices file board =
      let (retval, slots, devices) = cleanup_from file.descriptors board.device_list in
      (retval, record file { descriptors = slots }, record board { device_list = devices })
