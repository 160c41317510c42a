-- ===== src/User/Session.antt =====
-- linux-gpib-user/lib: a descriptor (`descriptor_settings_t` and `ibConf_t` of ibConf.h), the calls
-- of the kernel module (`ioctl`) that the library makes, and the state that a call of the library
-- changes.
use linux_gpib.Prelude.{
  ℕ, suc, ◌-◌, ◌%◌, Bool, true, false, ℤ, pos, negsuc, List, ltb, if◌then◌else◌,
}
use linux_gpib.User.Codes.{edvr}
use linux_gpib.User.Addresses.{Globals}

-- `eos` is a `char`, which is signed here; the fields that hold one bit are Booleans.
pub record DescriptorSettings : Type 0 where
  pub pad : ℤ
  pub sad : ℤ
  pub board : ℤ
  pub usec_timeout : ℕ
  pub spoll_usec_timeout : ℕ
  pub ppoll_usec_timeout : ℕ
  pub eos : ℤ
  pub eos_flags : ℕ
  pub ppoll_config : ℤ
  pub send_eoi : Bool
  pub local_lockout : Bool
  pub readdr : Bool
  pub send_unt_unl : Bool

abbrev pub init_descriptor_settings : DescriptorSettings
init_descriptor_settings = record {
  pad = negsuc 0;
  sad = negsuc 0;
  board = negsuc 0;
  usec_timeout = 3_000_000;
  spoll_usec_timeout = 1_000_000;
  ppoll_usec_timeout = 2;
  eos = pos 0;
  eos_flags = 0;
  ppoll_config = pos 0;
  send_eoi = true;
  local_lockout = false;
  readdr = false;
  send_unt_unl = false;
}

-- `async_io` says that an asynchronous read or write is in progress. The name, the initial string
-- and the deprecated flags are left out.
pub record IbConf : Type 0 where
  pub handle : ℤ
  pub defaults : DescriptorSettings
  pub settings : DescriptorSettings
  pub async_io : Bool
  pub end : Bool
  pub is_interface : Bool
  pub board_is_open : Bool
  pub has_lock : Bool
  pub timed_out : Bool

abbrev pub init_ibconf : IbConf
init_ibconf = record {
  handle = negsuc 0;
  defaults = init_descriptor_settings;
  settings = init_descriptor_settings;
  async_io = false;
  end = false;
  is_interface = false;
  board_is_open = false;
  has_lock = false;
  timed_out = false;
}

-- What the library puts into `struct gpib_read_write_ioctl` beside the buffer; the count of what is
-- completed is always 0.
pub record Request : Type 0 where
  pub requested : ℕ
  pub end : Bool
  pub handle : ℤ

-- The result of an `ioctl`, and what the structure and the buffer hold after it. A result
-- `negsuc n` stands for the value -1 with `errno` at `n + 1`.
pub record Reply : Type 0 where
  pub result : ℤ
  pub completed : ℕ
  pub end : Bool
  pub bytes : List ℕ

-- What is read from `struct gpib_board_info_ioctl`.
pub record BoardInfo : Type 0 where
  pub pad : ℕ
  pub sad : ℤ
  pub is_system_controller : Bool

-- The `ioctl`s of a board's open file, on the state on the other side; `status` is IBWAIT with
-- empty masks on handle 0, which gives the status word.
pub record Driver (W : Type 0) : Type 0 where
  pub board_info : W → ℤ × BoardInfo × W
  pub status : W → ℤ × ℕ × W
  pub set_timeout : ℕ → W → W
  pub command : Request → List ℕ → W → Reply × W
  pub write : Request → List ℕ → W → Reply × W
  pub read : Request → W → Reply × W
  pub set_eos : ℕ → ℕ → W → ℤ × W
  pub set_pad : ℤ → ℕ → W → ℤ × W
  pub set_sad : ℤ → ℤ → W → ℤ × W

pub record Session (W : Type 0) : Type 0 where
  pub conf : IbConf
  pub globals : Globals
  pub world : W

-- `errno` after a failed `ioctl`
abbrev pub errno : ℤ → ℕ
errno (pos n) = 0
errno (negsuc n) = suc n

-- the low byte of an `int`
abbrev pub low_byte : ℤ → ℕ
low_byte (pos n) = n % 256
low_byte (negsuc n) = 255 - n % 256

-- an `int` as an `unsigned int`
abbrev pub to_unsigned : ℤ → ℕ
to_unsigned (pos n) = n
to_unsigned (negsuc n) = 4294967295 - n % 4294967296

-- a byte as a `char`
abbrev pub to_char : ℕ → ℤ
to_char byte = if ltb byte 128 then pos byte else negsuc (255 - byte)

module _ {W : Type 0} where
  -- `setIberr(error)`
  abbrev pub set_iberr : ℕ → Session W → Session W
  set_iberr error s = record s { globals = record s.globals { iberr = error } }

  abbrev pub set_ibcnt : ℕ → Session W → Session W
  set_ibcnt count s = record s { globals = record s.globals { ibcnt = count } }

  -- `setIberr(EDVR); setIbcnt(errno);`
  abbrev pub driver_error : ℤ → Session W → Session W
  driver_error result s = record s { globals = record { iberr = edvr; ibcnt = errno result } }

  abbrev pub set_timed_out : Session W → Session W
  set_timed_out s = record s { conf = record s.conf { timed_out = true } }

  abbrev pub set_end : Bool → Session W → Session W
  set_end end s = record s { conf = record s.conf { end = end } }

  abbrev pub set_settings : DescriptorSettings → Session W → Session W
  set_settings settings s = record s { conf = record s.conf { settings = settings } }
