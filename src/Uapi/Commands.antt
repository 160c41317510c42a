-- ===== src/Uapi/Commands.antt =====
-- linux-gpib-kernel/drivers/gpib/include/gpib_cmd.h: the command bytes, the bytes that carry an
-- address, and the groups of commands. `|` and `&` with masks of adjacent ones are written by
-- `or_mask`, `/` and `%`.
pub mod Groups
use linux_gpib.Prelude.{
  ℕ, ◌-◌, ◌/◌, ◌%◌, Bool, true, ◌&&◌, ◌||◌, ℤ, is_neg, ◌==ℤ◌, ◌==◌, if◌then◌else◌, or_mask,
}

-- `enum cmd_byte`
abbrev pub sdc : ℕ
sdc = 0x4

abbrev pub pp_config : ℕ
pp_config = 0x5

abbrev pub get_trigger : ℕ
get_trigger = 0x8

abbrev pub tct : ℕ
tct = 0x9

abbrev pub llo : ℕ
llo = 0x11

abbrev pub dcl : ℕ
dcl = 0x14

abbrev pub ppu : ℕ
ppu = 0x15

abbrev pub spe : ℕ
spe = 0x18

abbrev pub spd : ℕ
spd = 0x19

abbrev pub lad : ℕ
lad = 0x20

abbrev pub unl : ℕ
unl = 0x3f

abbrev pub tad : ℕ
tad = 0x40

abbrev pub unt : ℕ
unt = 0x5f

abbrev pub ppe : ℕ
ppe = 0x60

abbrev pub ppd : ℕ
ppd = 0x70

-- `addr &= 0x1f; if (addr == 0x1f) addr = 0;`
unfoldable pub gpib_address_restrict : ℕ → ℕ
gpib_address_restrict addr = if addr % 0x20 == 0x1f then 0 else addr % 0x20

unfoldable pub mla : ℕ → ℕ
unfolding gpib_address_restrict
mla addr = or_mask (gpib_address_restrict addr) lad

unfoldable pub mta : ℕ → ℕ
unfolding gpib_address_restrict
mta addr = or_mask (gpib_address_restrict addr) tad

-- `SAD` is 0x60, two bits.
unfoldable pub msa : ℕ → ℕ
msa addr = or_mask (or_mask (addr % 0x20) 0x20) 0x40

unfoldable pub gpib_address_equal : ℕ → ℤ → ℕ → ℤ → Bool
gpib_address_equal pad1 sad1 pad2 sad2 =
    pad1 == pad2 && (sad1 ==ℤ sad2 || is_neg sad1 && is_neg sad2)

-- `command & 0x70`, shifted down by four bits
abbrev group_bits : ℕ → ℕ
group_bits command = command / 0x10 % 8

unfoldable pub is_ppe : ℕ → Bool
is_ppe command = group_bits command == 6

unfoldable pub is_ppd : ℕ → Bool
is_ppd command = group_bits command == 7

unfoldable pub in_addressed_command_group : ℕ → Bool
in_addressed_command_group command = group_bits command == 0

unfoldable pub in_universal_command_group : ℕ → Bool
in_universal_command_group command = group_bits command == 1

-- `command & 0x60`, shifted down by five bits
unfoldable pub in_listen_address_group : ℕ → Bool
in_listen_address_group command = command / 0x20 % 4 == 1

unfoldable pub in_talk_address_group : ℕ → Bool
in_talk_address_group command = command / 0x20 % 4 == 2

unfoldable pub in_primary_command_group : ℕ → Bool
unfolding in_addressed_command_group in_universal_command_group in_listen_address_group
    in_talk_address_group
in_primary_command_group command =
    in_addressed_command_group command
    || in_universal_command_group command
    || in_listen_address_group command
    || in_talk_address_group command
