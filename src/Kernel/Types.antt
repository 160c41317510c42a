-- ===== src/Kernel/Types.antt =====
-- linux-gpib-kernel/drivers/gpib/include/gpib_types.h: the board, what it holds, and the
-- functions that a hardware driver gives to the core.
use linux_gpib.Prelude.{ℕ, Bool, true, false, ℤ, negsuc, Option, none, List, []}

-- `struct gpib_status_queue`: an open device address with its serial poll bytes, oldest first.
-- The list is the chain of `struct gpib_status_byte`.
pub record StatusQueue : Type 0 where
  pub pad : ℕ
  pub sad : ℤ
  pub status_bytes : List ℕ
  pub num_status_bytes : ℕ
  pub reference_count : ℕ
  pub dropped_byte : Bool

-- `init_gpib_status_queue`, which leaves the address to its caller
abbrev pub init_gpib_status_queue : ℕ → ℤ → StatusQueue
init_gpib_status_queue pad sad = record {
  pad = pad;
  sad = sad;
  status_bytes = [];
  num_status_bytes = 0;
  reference_count = 0;
  dropped_byte = false;
}

-- `struct gpib_event_queue`; the list is the chain of `struct gpib_event`, oldest first.
pub record EventQueue : Type 0 where
  pub events : List ℕ
  pub num_events : ℕ
  pub dropped_event : Bool

abbrev pub init_event_queue : EventQueue
init_event_queue = record { events = []; num_events = 0; dropped_event = false }

-- `struct gpib_descriptor`
pub record Descriptor : Type 0 where
  pub pad : ℕ
  pub sad : ℤ
  pub io_in_progress : Bool
  pub is_board : Bool
  pub autopoll_enabled : Bool

abbrev pub init_gpib_descriptor : Descriptor
init_gpib_descriptor = record {
  pad = 0;
  sad = negsuc 0;
  io_in_progress = false;
  is_board = false;
  autopoll_enabled = false;
}

-- `struct gpib_file_private`: the descriptor table of an open device file. The flag
-- `holding_mutex` says that the file holds the board's user mutex.
pub record FilePrivate : Type 0 where
  pub descriptors : List (Option Descriptor)
  pub holding_mutex : Bool
  pub got_module : Bool

-- `struct gpib_board`. `D` is the type of the driver's private data. The wait queue, the locks
-- other than the user mutex, and the fields that only hardware drivers read are left out.
pub record Board (D : Type 0) : Type 0 where
  pub private_data : Option D
  pub has_buffer : Bool
  pub buffer_length : ℕ
  pub status : ℕ
  pub timer_pending : Bool
  pub user_mutex : Bool
  pub locking_pid : ℕ
  pub use_count : ℕ
  pub device_list : List StatusQueue
  pub pad : ℕ
  pub sad : ℤ
  pub usec_timeout : ℕ
  pub parallel_poll_configuration : ℕ
  pub t1_nano_sec : ℕ
  pub online : Bool
  pub autospollers : ℕ
  pub autospoll_task : Bool
  pub event_queue : EventQueue
  pub stuck_srq : Bool
  pub master : Bool
  pub ist : Bool
  pub local_ppoll_mode : Bool

-- `init_gpib_board`
abbrev pub init_gpib_board : {D : Type 0} → Board D
init_gpib_board = record {
  private_data = none;
  has_buffer = false;
  buffer_length = 0;
  status = 0;
  timer_pending = false;
  user_mutex = false;
  locking_pid = 0;
  use_count = 0;
  device_list = [];
  pad = 0;
  sad = negsuc 0;
  usec_timeout = 3_000_000;
  parallel_poll_configuration = 0;
  t1_nano_sec = 0;
  online = false;
  autospollers = 0;
  autospoll_task = false;
  event_queue = init_event_queue;
  stuck_srq = false;
  master = true;
  ist = false;
  local_ppoll_mode = false;
}

-- `struct gpib_interface`. Each function may change the board that it is called on: its private
-- data, its status bits, and its timer, which can fire while the function sleeps. A function
-- pointer that a driver may leave NULL is an option. What a C function stores through a pointer
-- is returned beside its result, and data that is sent is a list of bytes.
pub record Interface (D : Type 0) : Type 0 where
  pub attach : Board D → ℤ × Board D
  pub detach : Board D → Board D
  pub read : Board D → ℕ → ℤ × Bool × List ℕ × Board D
  pub write : Board D → List ℕ → Bool → ℤ × ℕ × Board D
  pub command : Board D → List ℕ → ℤ × ℕ × Board D
  pub take_control : Board D → Bool → ℤ × Board D
  pub go_to_standby : Board D → ℤ × Board D
  pub request_system_control : Option (Board D → Bool → ℤ × Board D)
  pub interface_clear : Board D → Bool → Board D
  pub remote_enable : Board D → Bool → Board D
  pub enable_eos : Board D → ℕ → Bool → ℤ × Board D
  pub disable_eos : Board D → Board D
  pub parallel_poll_configure : Board D → ℕ → Board D
  pub parallel_poll : Board D → ℤ × ℕ × Board D
  pub parallel_poll_response : Board D → Bool → Board D
  pub local_parallel_poll_mode : Option (Board D → Bool → Board D)
  pub line_status : Option (Board D → ℤ)
  pub update_status : Board D → ℕ → ℕ × Board D
  pub primary_address : Board D → ℕ → ℤ × Board D
  pub secondary_address : Board D → ℕ → Bool → ℤ × Board D
  pub serial_poll_response : Option (Board D → ℕ → Board D)
  pub serial_poll_response2 : Option (Board D → ℕ → Bool → Board D)
  pub serial_poll_status : Board D → ℕ
  pub t1_delay : Option (Board D → ℕ → ℤ × Board D)
  pub no_7_bit_eos : Bool
  pub skip_check_for_command_acceptors : Bool
