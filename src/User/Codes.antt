-- ===== src/User/Codes.antt =====
-- linux-gpib-user/include/gpib/gpib_user.h and ib.h: the library's error codes, the numbers of its
-- timeouts and its reserved addresses.
use linux_gpib.Prelude.{ℕ, ℤ, negsuc}

-- `enum iberr_code`
abbrev pub edvr : ℕ
edvr = 0

abbrev pub ecic : ℕ
ecic = 1

abbrev pub enol : ℕ
enol = 2

abbrev pub earg : ℕ
earg = 4

abbrev pub eabo : ℕ
eabo = 6

abbrev pub ecap : ℕ
ecap = 11

abbrev pub ebus : ℕ
ebus = 14

abbrev pub etab : ℕ
etab = 20

-- `enum gpib_timeout`: the first and the last
abbrev pub tnone : ℕ
tnone = 0

abbrev pub t1000s : ℕ
t1000s = 17

-- the end of an address list
abbrev pub noaddr : ℕ
noaddr = 65535

-- `enum internal_gpib_addr`
abbrev pub sad_disabled : ℤ
sad_disabled = negsuc 0

abbrev pub addr_invalid : ℤ
addr_invalid = negsuc 1

abbrev pub gpib_addr_max : ℕ
gpib_addr_max = 30

abbrev pub gpib_sad_max : ℕ
gpib_sad_max = 31

-- the ways of ending a message to and from a device
abbrev pub null_end : ℕ
null_end = 0

abbrev pub dab_end : ℕ
dab_end = 1

abbrev pub nl_end : ℕ
nl_end = 2

abbrev pub stop_end : ℕ
stop_end = 256
