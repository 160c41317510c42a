-- ===== src/Kernel/Tests/Commands.antt =====
-- The theorem on `command_ioctl` with the recording driver.
use linux_gpib.Prelude.{true, false, pos, Option, none, some, [], ◌∷◌}
use linux_gpib.Kernel.Types.{Board, FilePrivate, Descriptor, init_gpib_board, init_gpib_descriptor}
use linux_gpib.Kernel.Read.{ReadWriteCmd, UserMemory, IoResult, refused}
use linux_gpib.Kernel.Command.{command_ioctl}
use linux_gpib.Kernel.Write.Framing.{Log, recorder}

abbrev bus : Board Log
bus = record init_gpib_board {
  private_data = some [];
  has_buffer = true;
  buffer_length = 4;
  online = true;
}

abbrev memory : UserMemory
memory = record { copied_in = true; accessible = true; copied_chunk = λ _. true; copied_out = true }

-- the set-up of an asynchronous transfer, of three bytes
abbrev cmd : ReadWriteCmd
cmd = record { requested = 3; completed = 0; end = true; handle = pos 1 }

abbrev device : Descriptor
device = record init_gpib_descriptor { pad = 5 }

abbrev file : FilePrivate
file = record {
  descriptors = some (record init_gpib_descriptor { is_board = true }) ∷ some device ∷ [];
  holding_mutex = false;
  got_module = true;
}

abbrev found : Option (IoResult Log) → IoResult Log
found none = refused (pos 0) file bus
found (some r) = r

abbrev result : IoResult Log
result = found (command_ioctl recorder memory cmd (63 ∷ 64 ∷ 37 ∷ []) file bus)
