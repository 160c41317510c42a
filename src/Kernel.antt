-- ===== src/Kernel.antt =====
-- linux-gpib-kernel/drivers/gpib/common: the hardware independent part of the driver.
pub mod Types
pub mod StatusQueue
pub mod EventQueue
pub mod Devices
pub mod Timer
pub mod Ibstatus
pub mod Control
pub mod Buffer
pub mod Handles
pub mod Read
pub mod Write
pub mod Poll
pub mod Config
pub mod Command
pub mod Files
mod Tests
pub mod Dispatch
pub mod Wait
