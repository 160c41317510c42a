-- ===== src/User/Read.antt =====
-- linux-gpib-user/lib: ibRd.c, reading from the bus, and `iblcleos` and `config_read_eos` of ibEos.c.
pub mod Laws
use linux_gpib.Prelude.{
  ℕ, ◌+◌, ◌/◌, ◌%◌, ◌*◌, Bool, true, false, not, ◌&&◌, ◌||◌, ℤ, pos, negsuc, is_neg, ◌==ℤ◌, List,
  [], ◌==◌, if◌then◌else◌, has, with, ltb,
}
use linux_gpib.Uapi.Errno.{eintr, etimedout}
use linux_gpib.Uapi.Status.{reos, bin}
use linux_gpib.User.Codes.{earg, eabo, stop_end}
use linux_gpib.User.Addresses.{pack_address}
use linux_gpib.User.Session.{
  DescriptorSettings, Request, Reply, Driver, Session, low_byte, to_char, to_unsigned, set_iberr,
  set_ibcnt, driver_error, set_timed_out, set_end, set_settings,
}
use linux_gpib.User.Commands.{check_cic, internal_receive_setup}
use linux_gpib.User.Write.{finish_transfer}

-- `eos_cmd.eos_flags`
abbrev eos_flags_of : Bool → Bool → ℕ
eos_flags_of use_eos_char compare_8_bits =
    let flags = if use_eos_char then with 0 reos else 0 in
    if compare_8_bits then with flags bin else flags

module _ {W : Type 0} where
  -- the body of `ibeos`
  unfoldable pub ibeos : ℕ → Session W → Session W
  ibeos v s =
      set_settings
        (record s.conf.settings { eos = to_char (v % 256); eos_flags = v / 256 % 256 * 256 }) s

  -- what `read_data` does with the result of the `ioctl`
  unfoldable pub read_error : ℤ → Session W → Session W
  read_error result s =
      if result ==ℤ etimedout
      then set_iberr eabo (set_timed_out s)
      else (if result ==ℤ eintr
          then set_iberr eabo s
          else (if is_neg result then driver_error result s else s))

module _ {W : Type 0} (driver : Driver W) where
  unfoldable pub config_read_eos : Bool → ℤ → Bool → Session W → ℤ × Session W
  config_read_eos use_eos_char eos_char compare_8_bits s =
      let eos = if use_eos_char then low_byte eos_char else 0 in
      let (result, world) = driver.set_eos eos (eos_flags_of use_eos_char compare_8_bits) s.world in
      let s' = record s { world = world } in
      if use_eos_char && not (pos eos ==ℤ eos_char)
      then (negsuc 0, set_iberr earg s)
      else (result, (if is_neg result then driver_error result s' else s'))

  unfoldable pub iblcleos : Session W → ℤ × Session W
  iblcleos s =
      let settings = s.conf.settings in
      config_read_eos (has settings.eos_flags reos) settings.eos (has settings.eos_flags bin) s

  -- The result, `*bytes_read`, what the buffer receives, and the state.
  unfoldable pub read_data : ℕ → ℕ → Session W → ℤ × ℕ × List ℕ × Session W
  read_data usec_timeout count s =
      let request : Request = record { requested = count; end = false; handle = s.conf.handle } in
      let (reply, world) = driver.read request (driver.set_timeout usec_timeout s.world) in
      let s1 = read_error reply.result (set_end false (record s { world = world })) in
      (reply.result, reply.completed, reply.bytes, (if reply.end then set_end true s1 else s1))

  unfoldable pub my_ibrd : ℕ → ℕ → Session W → ℤ × ℕ × List ℕ × Session W
  my_ibrd usec_timeout count s =
      let (_, s1) = iblcleos s in
      let settings = s1.conf.settings in
      let address = pack_address (to_unsigned settings.pad) settings.sad in
      let (setup, s2) =
        if s1.conf.is_interface
        then (pos 0, s1)
        else internal_receive_setup driver usec_timeout address s1 in
      let (retval, bytes_read, bytes, s3) = read_data usec_timeout count s2 in
      let (retval', s4) = finish_transfer driver retval s3 in
      if is_neg setup then (negsuc 0, 0, [], s2) else (retval', bytes_read, bytes, s4)

  -- `termination` is a byte or STOPend.
  unfoldable pub internal_rcv_resp_msg : ℕ → ℕ → Session W → ℤ × List ℕ × Session W
  internal_rcv_resp_msg count termination s =
      let (in_charge, s1) = check_cic driver s in
      let (eos_set, s2) =
        config_read_eos (not (termination == stop_end)) (pos termination) true s1 in
      let (retval, bytes_read, bytes, s3) = read_data s2.conf.settings.usec_timeout count s2 in
      if not s.conf.is_interface
      then (negsuc 0, [], set_iberr earg s)
      else (if not in_charge
          then (negsuc 0, [], s1)
          else (if not (ltb termination 256) && not (termination == stop_end)
              then (negsuc 0, [], set_iberr earg s1)
              else (if is_neg eos_set then (eos_set, [], s2) else (
                (if is_neg retval then negsuc 0 else pos 0),
                bytes,
                set_ibcnt bytes_read s3,
              ))))

  unfoldable pub internal_receive : ℕ → ℕ → ℕ → Session W → ℤ × List ℕ × Session W
  internal_receive address count termination s =
      let (setup, s1) = internal_receive_setup driver s.conf.settings.usec_timeout address s in
      if is_neg setup then (setup, [], s1) else internal_rcv_resp_msg count termination s1
