-- ===== src/User/Write.antt =====
-- linux-gpib-user/lib/ibWrt.c: writing to the bus. The loop of `my_ibwrt` runs on fuel, and `none`
-- means that the fuel ran out.
pub mod Laws
pub mod Endless
use linux_gpib.Prelude.{
  ℕ, zero, suc, ◌+◌, ◌-◌, ◌%◌, Bool, true, false, not, ◌&&◌, ◌||◌, ℤ, pos, negsuc, is_neg, ◌==ℤ◌,
  Option, none, some, List, [], ◌∷◌, ◌==◌, if◌then◌else◌, length, take, drop, has,
}
use linux_gpib.Uapi.Errno.{eintr, etimedout}
use linux_gpib.Uapi.Status.{xeos, bin}
use linux_gpib.User.Codes.{earg, enol, eabo, null_end, dab_end, nl_end}
use linux_gpib.User.Addresses.{num_addresses}
use linux_gpib.User.Session.{
  Request, Reply, Driver, Session, low_byte, set_iberr, set_ibcnt, driver_error, set_timed_out,
  set_end,
}
use linux_gpib.User.Commands.{
  valid_list, check_cic, send_setup, internal_send_setup, unlisten_untalk,
}

-- -ECOMM
abbrev pub ecomm : ℤ
ecomm = negsuc 69

-- the byte under the mask of `find_eos`, of 8 bits with BIN and of 7 without
abbrev compared : ℕ → ℕ → ℕ
compared eos_flags byte = if has eos_flags bin then byte % 256 else byte % 128

-- The index of the first end-of-string byte, counted from `i`; `none` is the result -1.
unfoldable pub find_eos_from : ℕ → List ℕ → ℕ → ℕ → Option ℕ
find_eos_from i [] eos eos_flags = none
find_eos_from i (byte ∷ rest) eos eos_flags =
    let later = find_eos_from (suc i) rest eos eos_flags in
    if compared eos_flags byte == compared eos_flags eos then some i else later

unfoldable pub find_eos : List ℕ → ℤ → ℕ → Option ℕ
find_eos buffer eos eos_flags = find_eos_from 0 buffer (low_byte eos) eos_flags

module _ {W : Type 0} where
  -- what `send_data` does with the result of the `ioctl`
  unfoldable pub write_error : ℤ → Session W → Session W
  write_error result s =
      if result ==ℤ etimedout
      then set_iberr eabo (set_timed_out s)
      else (if result ==ℤ eintr
          then set_iberr eabo s
          else (if result ==ℤ ecomm
              then set_iberr enol s
              else (if is_neg result then driver_error result s else s)))

  -- how many bytes `send_data_smart_eoi` sends at once, and whether with END
  unfoldable pub smart_block : List ℕ → Bool → Session W → ℕ × Bool
  smart_block buffer force_eoi s =
      let settings = s.conf.settings in
      if has settings.eos_flags xeos
      then elim (find_eos buffer settings.eos settings.eos_flags) [
        | none ↦ (length buffer, force_eoi)
        | some i ↦ (i, true)
      ]
      else (length buffer, force_eoi)

module _ {W : Type 0} (driver : Driver W) where
  -- The number is what is stored in `*bytes_written`.
  unfoldable pub send_data : ℕ → List ℕ → Bool → Session W → ℤ × ℕ × Session W
  send_data usec_timeout buffer send_eoi s =
      let request : Request = record {
        requested = length buffer;
        end = send_eoi;
        handle = s.conf.handle;
      } in
      let (reply, world) = driver.write request buffer (driver.set_timeout usec_timeout s.world) in
      let s' = write_error reply.result (record s { world = world }) in
      let result = if is_neg reply.result then reply.result else pos 0 in
      (result, reply.completed, set_end (send_eoi && reply.completed == length buffer) s')

  unfoldable pub send_data_smart_eoi : ℕ → List ℕ → Bool → Session W → ℤ × ℕ × Session W
  send_data_smart_eoi usec_timeout buffer force_eoi s =
      let (block_size, send_eoi) = smart_block buffer force_eoi s in
      let (result, bytes_written, s') =
        send_data usec_timeout (take block_size buffer) send_eoi s in
      ((if is_neg result then negsuc 0 else pos 0), bytes_written, s')

  -- The `while` loop of `my_ibwrt`; `retval` and `bytes_written` are the variables of that name.
  unfoldable pub write_blocks : ℕ → ℕ → List ℕ → ℤ → ℕ → Session W → Option (ℤ × ℕ × Session W)
  write_blocks zero usec_timeout buffer retval bytes_written s = none
  write_blocks (suc fuel) usec_timeout buffer retval bytes_written s =
      let (retval', block_size, s') =
        send_data_smart_eoi usec_timeout buffer s.conf.settings.send_eoi s in
      let rest =
        write_blocks fuel usec_timeout (drop block_size buffer) retval' (bytes_written + block_size)
          s' in
      if length buffer == 0
      then some (retval, bytes_written, s)
      else (if is_neg retval' then some (retval', bytes_written + block_size, s') else rest)

  -- the end of `my_ibwrt` and of `my_ibrd`
  unfoldable pub finish_transfer : ℤ → Session W → ℤ × Session W
  finish_transfer retval s =
      if not s.conf.is_interface && s.conf.settings.send_unt_unl
      then unlisten_untalk driver s
      else (retval, s)

  -- the first part of `my_ibwrt`, which addresses a device
  unfoldable pub address_device : ℕ → Session W → ℤ × Session W
  address_device usec_timeout s =
      let s1 = record s { world = driver.set_timeout usec_timeout s.world } in
      if s1.conf.is_interface then (pos 0, s1) else send_setup driver usec_timeout s1

  -- `uninitialised` is what the variable `retval` holds when no block is sent.
  unfoldable pub my_ibwrt : ℕ → ℤ → ℕ → List ℕ → Session W → Option (ℤ × ℕ × Session W)
  my_ibwrt fuel uninitialised usec_timeout buffer s =
      let (setup, s2) = address_device usec_timeout s in
      if is_neg setup
      then some (negsuc 0, 0, s2)
      else elim (write_blocks fuel usec_timeout buffer uninitialised 0 s2) [
        | none ↦ none
        | some (retval, bytes_written, s3) ↦
            let (retval', s4) = finish_transfer retval s3 in some (retval', bytes_written, s4)
      ]

  -- the newline that NLend adds
  unfoldable pub send_newline : ℕ → Session W → ℤ × Session W
  send_newline bytes_written s =
      let (retval, num_bytes, s') = send_data s.conf.settings.usec_timeout (10 ∷ []) true s in
      (retval, set_ibcnt (bytes_written + num_bytes) s')

  unfoldable pub internal_send_data_bytes : List ℕ → ℕ → Session W → ℤ × Session W
  internal_send_data_bytes buffer eotmode s =
      let known = eotmode == dab_end || eotmode == nl_end || eotmode == null_end in
      let (retval, num_bytes, s1) =
        send_data s.conf.settings.usec_timeout buffer (eotmode == dab_end) s in
      if not s.conf.is_interface || not known
      then (negsuc 0, set_iberr earg s)
      else (if is_neg retval
          then (retval, set_ibcnt num_bytes s1)
          else (if eotmode == nl_end
              then send_newline num_bytes s1
              else (pos 0, set_ibcnt num_bytes s1)))

  unfoldable pub internal_send_list : Option (List ℕ) → List ℕ → ℕ → Session W → ℤ × Session W
  internal_send_list addresses buffer eotmode s =
      let (valid, s1) = valid_list addresses s in
      let (in_charge, s2) = check_cic driver s1 in
      let (setup, s3) = internal_send_setup driver addresses s2 in
      if not valid || num_addresses addresses == 0 || not s1.conf.is_interface
      then (negsuc 0, set_iberr earg s1)
      else (if not in_charge
          then (negsuc 0, s2)
          else (if is_neg setup then (setup, s3) else internal_send_data_bytes buffer eotmode s3))
