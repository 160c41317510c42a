-- ===== src/Uapi.antt =====
-- The constants and the command bytes that the kernel modules and the user library share.
pub mod Status
pub mod Errno
pub mod Commands
