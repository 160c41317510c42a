-- ===== src/Kernel/Tests.antt =====
-- Runs of the theorems on small boards, with the recording driver and variants of it.
mod Queues
mod Transfers
mod Bus
mod Files
mod Dispatches
mod Commands
