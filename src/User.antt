-- ===== src/User.antt =====
-- linux-gpib-user/lib: the C library that programs call.
pub mod Codes
pub mod Addresses
pub mod Timeouts
pub mod Session
pub mod Commands
pub mod Write
pub mod Read
mod Tests
