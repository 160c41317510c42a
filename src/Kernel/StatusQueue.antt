-- ===== src/Kernel/StatusQueue.antt =====
-- linux-gpib-kernel/drivers/gpib/common/gpib_os.c: the fifo of serial poll bytes of a device.
-- `alloc` says whether `kmalloc` gives memory.
pub mod Spec
pub mod Fifo
use linux_gpib.Prelude.{
  ℕ, ◌+◌, ◌-◌, Bool, true, false, ℤ, pos, is_neg, Option, none, some, List, [], ◌∷◌, ◌++◌, leb,
  ◌==◌, if◌then◌else◌,
}
use linux_gpib.Uapi.Errno.{eio, epipe, enomem}
use linux_gpib.Kernel.Types.{StatusQueue}

abbrev pub max_num_status_bytes : ℕ
max_num_status_bytes = 1024

-- `num_status_bytes`; `none` is a NULL pointer.
abbrev pub num_status_bytes : Option StatusQueue → ℕ
num_status_bytes none = 0
num_status_bytes (some dev) = dev.num_status_bytes

-- The byte at the front, the front being `front`.
pop_front : StatusQueue → List ℕ → ℤ × Option ℕ × StatusQueue
pop_front device [] = (eio, none, device)
pop_front device (poll_byte ∷ rest) =
    if device.dropped_byte then (epipe, none, record device { dropped_byte = false }) else (
      pos 0,
      some poll_byte,
      record device { status_bytes = rest; num_status_bytes = device.num_status_bytes - 1 },
    )

-- The option is what is stored in `*poll_byte`.
unfoldable pub pop_status_byte : StatusQueue → ℤ × Option ℕ × StatusQueue
unfolding pop_front
pop_status_byte device =
    if device.num_status_bytes == 0
    then (eio, none, device)
    else pop_front device device.status_bytes

-- The part of `push_status_byte` behind the test for a full queue.
append_status_byte : Bool → StatusQueue → ℕ → ℤ × StatusQueue
append_status_byte alloc device poll_byte =
    if alloc
    then (
      pos 0,
      record device {
        status_bytes = device.status_bytes ++ poll_byte ∷ [];
        num_status_bytes = device.num_status_bytes + 1;
      },
    )
    else (enomem, device)

unfoldable pub push_status_byte : Bool → StatusQueue → ℕ → ℤ × StatusQueue
unfolding pop_status_byte append_status_byte
push_status_byte alloc device poll_byte =
    if leb max_num_status_bytes device.num_status_bytes
    then (let (retval, lost_byte, device') =
          pop_status_byte (record device { dropped_byte = true }) in
        if is_neg retval then (retval, device') else append_status_byte alloc device' poll_byte)
    else append_status_byte alloc device poll_byte
