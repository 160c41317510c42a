-- ===== src/Kernel/Tests/Transfers.antt =====
-- The theorems on reading, writing and closing, with the recording driver.
use linux_gpib.Prelude.{
  ℕ, zero, suc, ap, ◌+◌, ◌-◌, ◌<◌, ◌≡◌, refl, true, false, arith, ℤ, pos, negsuc, Option, none,
  some, List, [], ◌∷◌, if◌then◌else◌, length, take, length-take, set, replicate,
}
use linux_gpib.Uapi.Commands.{gpib_address_equal}
use linux_gpib.Kernel.Types.{
  Board, Interface, FilePrivate, Descriptor, init_gpib_board, init_gpib_status_queue,
  init_gpib_descriptor,
}
use linux_gpib.Kernel.Buffer.{KeepsBuffer}
use linux_gpib.Kernel.Handles.{
  Kernel, OpenDevCmd, open_dev_ioctl, close_dev_ioctl, cleanup_open_devices,
}
use linux_gpib.Kernel.Handles.Accounts.{
  IsEmpty, cleanup_lem, open_dev-IsCovered, close_dev-IsCovered,
}
use linux_gpib.Kernel.Handles.Uses.{IsCovered, uses, use_of}
use linux_gpib.Kernel.Devices.Refs.{refs, IsDistinct}
use linux_gpib.Kernel.Read.{ReadWriteCmd, UserMemory, IoResult, read_ioctl}
use linux_gpib.Kernel.Read.Laws.{ReadContract}
use linux_gpib.Kernel.Read.Ioctl as ReadIoctl
use linux_gpib.Kernel.Write.{Sending, write_loop}
use linux_gpib.Kernel.Write.Framing.{Log, recorder, IsSent, write_loop-IsSent}

abbrev bus : Board Log
bus = record init_gpib_board {
  private_data = some [];
  has_buffer = true;
  buffer_length = 4;
  online = true;
}

-- six bytes through a buffer of four
abbrev six : List ℕ
six = 1 ∷ 2 ∷ 3 ∷ 4 ∷ 5 ∷ 6 ∷ []

abbrev three : List ℕ
three = 7 ∷ 8 ∷ 9 ∷ []

abbrev start : Sending Log
start = record { retval = pos 0; fault = false; remain = 6; sent = 0; board = bus }

write_loop-IsSent_example :
    (s' : Sending Log) × (write_loop recorder 7 (λ _. true) six true start ≡ some s')
    × IsSent [] six true s'
write_loop-IsSent_example =
    write_loop-IsSent 7 six true start [] (omega arith) (omega arith) refl refl (omega arith) refl
      refl

-- the recording driver, as a talker of three bytes
abbrev talker : Interface Log
talker = record recorder { read = λ b n. (pos 0, false, take n three, b) }

talker-KeepsBuffer : KeepsBuffer talker
talker-KeepsBuffer = record { standby_buffer = λ b. refl; status_buffer = λ b m. refl }

talker-ReadContract : ReadContract talker
talker-ReadContract = record {
  fits = λ b n. omega (arith, length-take n three);
  progress = λ b n h z e. omega (arith, length-take n three, h);
  read_buffer = λ b n. refl;
  keeps = talker-KeepsBuffer;
}

abbrev memory : UserMemory
memory = record { copied_in = true; accessible = true; copied_chunk = λ _. true; copied_out = true }

abbrev cmd : ReadWriteCmd
cmd = record { requested = 6; completed = 0; end = true; handle = pos 1 }

abbrev pub device : Descriptor
device = record init_gpib_descriptor { pad = 5 }

-- a table with the board's descriptor and a device's
abbrev pub file : FilePrivate
file = record {
  descriptors =
      some (record init_gpib_descriptor { is_board = true }) ∷ some device ∷ replicate 0xffe none;
  holding_mutex = false;
  got_module = true;
}

read_ioctl_total_example :
    (r : IoResult Log) × (read_ioctl talker memory cmd file bus ≡ some r)
    × ReadIoctl.IsReported cmd r
read_ioctl_total_example =
    ReadIoctl.read_ioctl_total talker talker-ReadContract memory cmd file bus (omega arith)

abbrev pub online : Board Log
online = record bus {
  device_list = record (init_gpib_status_queue 5 (negsuc 0)) { reference_count = 1 } ∷ [];
}

pub online-IsDistinct : IsDistinct online.device_list
unfolding refs
online-IsDistinct = (omega arith, refl, tt)

length-replicate : (n : ℕ) (d : Option Descriptor) → length (replicate n d) ≡ n
length-replicate zero d = refl
length-replicate (suc n) d = ap suc (length-replicate n d)

pub length-file : length file.descriptors ≡ 0x1000
length-file = omega (arith, length-replicate 0xffe none)

uses-replicate : (n p : ℕ) (s : ℤ) → uses (replicate n none) p s ≡ 0
unfolding uses use_of
uses-replicate zero p s = refl
uses-replicate (suc n) p s = omega (arith, uses-replicate n p s)

pub file-IsCovered : IsCovered file.descriptors online.device_list
unfolding uses use_of refs
file-IsCovered p s = ground (arith, uses-replicate 0xffe p s)

cleanup_lem_example :
    let (retval, file', board') = cleanup_open_devices file online in
    (retval ≡ pos 0)
    × IsEmpty file'.descriptors
    × IsDistinct board'.device_list
    × (refs board'.device_list 5 (negsuc 0)
        ≡ refs online.device_list 5 (negsuc 0) - uses file.descriptors 5 (negsuc 0))
cleanup_lem_example = cleanup_lem file online 5 (negsuc 0) online-IsDistinct file-IsCovered

abbrev os : Kernel
os = record {
  copied_in = true;
  locked = true;
  descriptor_memory = true;
  queue_memory = true;
  copied_out = true;
}

abbrev open_cmd : OpenDevCmd
open_cmd = record { pad = 5; sad = negsuc 0; is_board = 0 }

online-small : refs online.device_list 5 (negsuc 0) + 1 < 0x1_0000_0000
unfolding refs gpib_address_equal
online-small = omega arith

open_dev-IsCovered_example :
    let (retval, handle, file', board') = open_dev_ioctl os open_cmd file online in
    IsDistinct board'.device_list × IsCovered file'.descriptors board'.device_list
open_dev-IsCovered_example =
    open_dev-IsCovered os open_cmd file online refl online-small
      (omega (arith, length-replicate 0xffe none)) online-IsDistinct file-IsCovered

close_dev-IsCovered_example :
    let (retval, file', board') = close_dev_ioctl os 1 file online in
    (retval ≡ pos 0)
    × (file'.descriptors ≡ set file.descriptors 1 none)
    × IsDistinct board'.device_list
    × IsCovered file'.descriptors board'.device_list
    × ((p : ℕ) (s : ℤ)
        → refs board'.device_list p s
          ≡ refs online.device_list p s - (if gpib_address_equal 5 (negsuc 0) p s then 1 else 0))
close_dev-IsCovered_example =
    close_dev-IsCovered os 1 file online device refl (omega arith)
      (omega (arith, length-replicate 0xffe none)) refl refl online-IsDistinct file-IsCovered
