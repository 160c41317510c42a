-- ===== src/User/Commands.antt =====
-- linux-gpib-user/lib: ibCmd.c, the queries of ibutil.c and ibask.c that it needs, `unlisten_untalk`
-- of ibFindLstn.c, `InternalReceiveSetup` of ibRd.c, `my_trigger` of ibTrg.c and
-- `InternalDevClearList` of ibClr.c. Memory for a command string is always given.
pub mod Kept
pub mod Bus
pub mod Setup
use linux_gpib.Prelude.{
  ℕ, zero, suc, ◌+◌, Bool, true, false, not, ◌&&◌, ◌||◌, ℤ, pos, negsuc, is_neg, ◌==ℤ◌, Option,
  none, some, List, [], ◌∷◌, ◌++◌, ◌==◌, if◌then◌else◌, length, has,
}
use linux_gpib.Uapi.Errno.{eintr, etimedout, enotconn}
use linux_gpib.Uapi.Status.{cic}
use linux_gpib.Uapi.Commands.{mla, mta, msa, unl, unt, sdc, dcl, get_trigger}
use linux_gpib.User.Codes.{edvr, ecic, earg, enol, eabo, ebus, noaddr, addr_invalid}
use linux_gpib.User.Addresses.{
  Globals, extract_pad, extract_sad, pack_address, address_is_valid, address_list_is_valid,
  num_addresses,
}
use linux_gpib.User.Session.{
  DescriptorSettings, IbConf, Request, Reply, BoardInfo, Driver, Session, to_unsigned, set_iberr,
  driver_error, set_timed_out,
}

-- the secondary address of a command string, where there is one
abbrev secondary_byte : ℤ → List ℕ
secondary_byte (pos sad) = msa sad ∷ []
secondary_byte (negsuc n) = []

-- the loop over the addresses in `create_send_setup`
unfoldable pub listen_bytes : List ℕ → List ℕ
listen_bytes [] = []
listen_bytes (address ∷ rest) =
    let others = listen_bytes rest in
    if address == noaddr
    then []
    else mla (to_unsigned (extract_pad address)) ∷ secondary_byte (extract_sad address) ++ others

module _ {W : Type 0} where
  -- what `my_ibcmd` does with the result of the `ioctl`
  pub command_error : ℤ → Session W → Session W
  command_error result s =
      if result ==ℤ etimedout
      then set_iberr ebus (set_timed_out s)
      else (if result ==ℤ enotconn
          then set_iberr enol s
          else (if result ==ℤ eintr then set_iberr eabo s else driver_error result s))

  -- a check that is left with its effect on the thread's variables
  abbrev pub valid_list : Option (List ℕ) → Session W → Bool × Session W
  valid_list addresses s =
      let (valid, g) = address_list_is_valid addresses s.globals in
      (valid, record s { globals = g })

module _ {W : Type 0} (driver : Driver W) where
  -- 1 if the board is controller in charge, 0 if not, -1 on an error
  unfoldable pub is_cic : Session W → ℤ × Session W
  is_cic s =
      let (result, status, world) = driver.status s.world in
      let s' = record s { world = world } in
      if is_neg result
      then (negsuc 0, driver_error result s')
      else (if has status cic then (pos 1, s') else (pos 0, s'))

  -- `is_cic`, and ECIC when it says no: whether to go on
  unfoldable pub check_cic : Session W → Bool × Session W
  check_cic s =
      let (charge, s') = is_cic s in
      if charge ==ℤ pos 0 then (false, set_iberr ecic s') else (not (is_neg charge), s')

  -- The address is `none` on an error.
  unfoldable pub query_pad : Session W → Option ℕ × Session W
  query_pad s =
      let (result, info, world) = driver.board_info s.world in
      let s' = record s { world = world } in
      if is_neg result then (none, driver_error result s') else (some info.pad, s')

  unfoldable pub query_sad : Session W → Option ℤ × Session W
  query_sad s =
      let (result, info, world) = driver.board_info s.world in
      let s' = record s { world = world } in
      if is_neg result then (none, driver_error result s') else (some info.sad, s')

  unfoldable pub is_system_controller : Session W → ℤ × Session W
  is_system_controller s =
      let (result, info, world) = driver.board_info s.world in
      let s' = record s { world = world } in
      if is_neg result
      then (negsuc 0, driver_error result s')
      else ((if info.is_system_controller then pos 1 else pos 0), s')

  -- The result is the count of bytes sent, or -1.
  unfoldable pub my_ibcmd : ℕ → List ℕ → Session W → ℤ × Session W
  my_ibcmd usec_timeout buffer s =
      let (in_charge, s1) = check_cic s in
      let request : Request = record {
        requested = length buffer;
        end = s1.conf.async_io;
        handle = s1.conf.handle;
      } in
      let (reply, world) =
        driver.command request buffer (driver.set_timeout usec_timeout s1.world) in
      let s2 = record s1 { world = world } in
      if not in_charge
      then (negsuc 0, s1)
      else (if is_neg reply.result
          then (negsuc 0, command_error reply.result s2)
          else (pos reply.completed, s2))

  -- The bytes that are in the string when the function returns their number; it returns 0 if it
  -- cannot read the board's address.
  unfoldable pub create_send_setup : Option (List ℕ) → Session W → List ℕ × Session W
  create_send_setup none s = ([], s)
  create_send_setup (some addresses) s =
      let (valid, s1) = valid_list (some addresses) s in
      let (pad, s2) = query_pad s1 in
      let (sad, s3) = query_sad s2 in
      if not valid then ([], s1) else elim pad [
        | none ↦ ([], s2)
        | some board_pad ↦ elim sad [
          | none ↦ ([], s3)
          | some board_sad ↦
              (mta board_pad ∷ secondary_byte board_sad ++ unl ∷ listen_bytes addresses, s3)
        ]
      ]

  unfoldable pub send_setup_string : Session W → List ℕ × Session W
  send_setup_string s =
      let settings = s.conf.settings in
      create_send_setup (some (pack_address (to_unsigned settings.pad) settings.sad ∷ noaddr ∷ []))
        s

  unfoldable pub send_setup : ℕ → Session W → ℤ × Session W
  send_setup usec_timeout s =
      let (string, s1) = send_setup_string s in
      let (count, s2) = my_ibcmd usec_timeout string s1 in
      if is_neg count then (negsuc 0, s2) else (pos 0, s2)

  -- A command string that must be sent whole.
  unfoldable pub command_whole : List ℕ → Session W → ℤ × Session W
  command_whole string s =
      let (count, s') = my_ibcmd s.conf.settings.usec_timeout string s in
      if count ==ℤ pos (length string) then (pos 0, s') else (negsuc 0, s')

  unfoldable pub internal_send_setup : Option (List ℕ) → Session W → ℤ × Session W
  internal_send_setup addresses s =
      let (valid, s1) = valid_list addresses s in
      let (in_charge, s2) = check_cic s1 in
      let (string, s3) = create_send_setup addresses s2 in
      if not valid || num_addresses addresses == 0
      then (negsuc 0, set_iberr earg s1)
      else (if not s1.conf.is_interface
          then (negsuc 0, set_iberr edvr s1)
          else (if not in_charge then (negsuc 0, s2) else command_whole string s3))

  unfoldable pub internal_dev_clear_list : Option (List ℕ) → Session W → ℤ × Session W
  internal_dev_clear_list addresses s =
      let (valid, s1) = valid_list addresses s in
      let (in_charge, s2) = check_cic s1 in
      let (string, s3) = create_send_setup addresses s2 in
      if not valid
      then (negsuc 0, s1)
      else (if not s1.conf.is_interface
          then (negsuc 0, set_iberr edvr s1)
          else (if not in_charge
              then (negsuc 0, s2)
              else (if num_addresses addresses == 0
                  then command_whole (dcl ∷ []) s2
                  else command_whole (string ++ sdc ∷ []) s3)))

  unfoldable pub my_trigger : Option (List ℕ) → Session W → ℤ × Session W
  my_trigger addresses s =
      let (valid, s1) = valid_list addresses s in
      let (string, s2) = create_send_setup addresses s1 in
      if not valid
      then (negsuc 0, set_iberr earg s1)
      else command_whole (string ++ get_trigger ∷ []) s2

  -- the body of `ibclr` on a device's descriptor
  unfoldable pub clear_device : Session W → ℤ × Session W
  clear_device s = let (string, s1) = send_setup_string s in command_whole (string ++ sdc ∷ []) s1

  -- The result is that of `my_ibcmd`, the count of bytes sent.
  unfoldable pub unlisten_untalk : Session W → ℤ × Session W
  unlisten_untalk s = my_ibcmd s.conf.settings.usec_timeout (unl ∷ unt ∷ []) s

  unfoldable pub internal_receive_setup : ℕ → ℕ → Session W → ℤ × Session W
  internal_receive_setup usec_timeout address s =
      let (valid, g) = address_is_valid address s.globals in
      let s0 = record s { globals = g } in
      let (pad, s1) = query_pad s0 in
      let (sad, s2) = query_sad s1 in
      if not valid || address == noaddr then (negsuc 0, set_iberr earg s0) else elim pad [
        | none ↦ (negsuc 0, s1)
        | some board_pad ↦ elim sad [
          | none ↦ (negsuc 0, s2)
          | some board_sad ↦
              let string =
                unl ∷ mla board_pad ∷ secondary_byte board_sad
                ++ mta (to_unsigned (extract_pad address)) ∷ secondary_byte (extract_sad address) in
              let (count, s3) = my_ibcmd usec_timeout string s2 in
              if is_neg count then (negsuc 0, s3) else (pos 0, s3)
        ]
      ]
