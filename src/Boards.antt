-- ===== src/Boards.antt =====
-- linux-gpib-kernel/drivers/gpib: the drivers of the boards, which fill the interface of the core.
pub mod Hp82335
