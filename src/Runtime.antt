-- ===== src/Runtime.antt =====
-- runtime/: the write thread and the store behind it.
pub mod Commands
pub mod Writes
pub mod Ledger
pub mod WriteThread
pub mod MultiBook
pub mod Config
