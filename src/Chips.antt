-- ===== src/Chips.antt =====
-- linux-gpib-kernel/drivers/gpib: the libraries for the chips on the boards.
pub mod States
pub mod Nec7210
pub mod Tms9914
