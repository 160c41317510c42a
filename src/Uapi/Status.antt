-- ===== src/Uapi/Status.antt =====
-- linux-gpib-kernel/drivers/gpib/uapi/gpib.h and common/ibsys.h. A constant of one bit is the
-- number of that bit, as in `enum ibsta_bit_numbers`: `cic` is 5 where CIC is `1 << 5`.
use linux_gpib.Prelude.{ℕ}

-- `enum ibsta_bits`
abbrev pub dcas : ℕ
dcas = 0

abbrev pub dtas : ℕ
dtas = 1

abbrev pub lacs : ℕ
lacs = 2

abbrev pub tacs : ℕ
tacs = 3

abbrev pub atn : ℕ
atn = 4

abbrev pub cic : ℕ
cic = 5

abbrev pub rem : ℕ
rem = 6

abbrev pub lok : ℕ
lok = 7

abbrev pub cmpl : ℕ
cmpl = 8

abbrev pub event : ℕ
event = 9

abbrev pub spoll : ℕ
spoll = 10

abbrev pub rqs : ℕ
rqs = 11

abbrev pub srqi : ℕ
srqi = 12

abbrev pub end : ℕ
end = 13

abbrev pub timo : ℕ
timo = 14

abbrev pub err : ℕ
err = 15

-- `enum bus_control_line`, those that the core reads
abbrev pub valid_ndac : ℕ
valid_ndac = 1

abbrev pub valid_nrfd : ℕ
valid_nrfd = 2

abbrev pub valid_srq : ℕ
valid_srq = 5

abbrev pub bus_ndac : ℕ
bus_ndac = 9

abbrev pub bus_nrfd : ℕ
bus_nrfd = 10

abbrev pub bus_srq : ℕ
bus_srq = 13

-- `enum eos_flags`: EOS_MASK is 0x1c00, the three bits
abbrev pub reos : ℕ
reos = 10

abbrev pub xeos : ℕ
xeos = 11

abbrev pub bin : ℕ
bin = 12

-- the request bit of a serial poll byte
abbrev pub request_service_bit : ℕ
request_service_bit = 6

-- `enum gpib_events`, numbers and not bits
abbrev pub event_none : ℕ
event_none = 0

abbrev pub event_dev_trg : ℕ
event_dev_trg = 1

abbrev pub event_dev_clr : ℕ
event_dev_clr = 2

abbrev pub event_ifc : ℕ
event_ifc = 3

-- table sizes and address limits
abbrev pub gpib_max_num_boards : ℕ
gpib_max_num_boards = 16

abbrev pub gpib_max_num_descriptors : ℕ
gpib_max_num_descriptors = 0x1000

abbrev pub max_gpib_primary_address : ℕ
max_gpib_primary_address = 30

abbrev pub max_gpib_secondary_address : ℕ
max_gpib_secondary_address = 31
