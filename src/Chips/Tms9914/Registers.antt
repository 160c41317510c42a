-- ===== src/Chips/Tms9914/Registers.antt =====
-- linux-gpib-kernel/drivers/gpib/include/tms9914.h: the registers of the chip, their bits by number,
-- and its auxiliary commands.
use linux_gpib.Prelude.{ℕ}

-- write registers
abbrev pub imr0 : ℕ
imr0 = 0

abbrev pub imr1 : ℕ
imr1 = 1

abbrev pub auxcr : ℕ
auxcr = 3

abbrev pub adr : ℕ
adr = 4

abbrev pub spmr : ℕ
spmr = 5

abbrev pub ppr : ℕ
ppr = 6

abbrev pub cdor : ℕ
cdor = 7

-- interrupt status 0
abbrev pub hr_spas : ℕ
hr_spas = 2

abbrev pub hr_end : ℕ
hr_end = 3

abbrev pub hr_bo : ℕ
hr_bo = 4

abbrev pub hr_bi : ℕ
hr_bi = 5

-- interrupt status 1
abbrev pub hr_ifc : ℕ
hr_ifc = 0

abbrev pub hr_srq : ℕ
hr_srq = 1

abbrev pub hr_ma : ℕ
hr_ma = 2

abbrev pub hr_dcas : ℕ
hr_dcas = 3

abbrev pub hr_apt : ℕ
hr_apt = 4

abbrev pub hr_unc : ℕ
hr_unc = 5

abbrev pub hr_err : ℕ
hr_err = 6

abbrev pub hr_get : ℕ
hr_get = 7

-- address status
abbrev pub hr_ta : ℕ
hr_ta = 1

abbrev pub hr_la : ℕ
hr_la = 2

abbrev pub hr_atn : ℕ
hr_atn = 5

abbrev pub hr_llo : ℕ
hr_llo = 6

abbrev pub hr_rem : ℕ
hr_rem = 7

-- bus status
abbrev pub bsr_ren : ℕ
bsr_ren = 0

abbrev pub bsr_ifc : ℕ
bsr_ifc = 1

abbrev pub bsr_srq : ℕ
bsr_srq = 2

abbrev pub bsr_eoi : ℕ
bsr_eoi = 3

abbrev pub bsr_nrfd : ℕ
bsr_nrfd = 4

abbrev pub bsr_ndac : ℕ
bsr_ndac = 5

abbrev pub bsr_dav : ℕ
bsr_dav = 6

abbrev pub bsr_atn : ℕ
bsr_atn = 7

-- auxiliary commands; `aux_cs` is added to set what the command clears without it
abbrev pub aux_cs : ℕ
aux_cs = 0x80

abbrev pub aux_chip_reset : ℕ
aux_chip_reset = 0x0

abbrev pub aux_inval : ℕ
aux_inval = 0x1

abbrev pub aux_rhdf : ℕ
aux_rhdf = 0x2

abbrev pub aux_hlda : ℕ
aux_hlda = 0x3

abbrev pub aux_hlde : ℕ
aux_hlde = 0x4

abbrev pub aux_rtl : ℕ
aux_rtl = 0x7

abbrev pub aux_seoi : ℕ
aux_seoi = 0x8

abbrev pub aux_lon : ℕ
aux_lon = 0x9

abbrev pub aux_ton : ℕ
aux_ton = 0xa

abbrev pub aux_gts : ℕ
aux_gts = 0xb

abbrev pub aux_tca : ℕ
aux_tca = 0xc

abbrev pub aux_tcs : ℕ
aux_tcs = 0xd

abbrev pub aux_rpp : ℕ
aux_rpp = 0xe

abbrev pub aux_sic : ℕ
aux_sic = 0xf

abbrev pub aux_sre : ℕ
aux_sre = 0x10

abbrev pub aux_rqc : ℕ
aux_rqc = 0x11

abbrev pub aux_rlc : ℕ
aux_rlc = 0x12

abbrev pub aux_dai : ℕ
aux_dai = 0x13

abbrev pub aux_pts : ℕ
aux_pts = 0x14

abbrev pub aux_stdl : ℕ
aux_stdl = 0x15

abbrev pub aux_vstdl : ℕ
aux_vstdl = 0x17

abbrev pub aux_rsv2 : ℕ
aux_rsv2 = 0x18

abbrev pub aux_val : ℕ
aux_val = 0x81
