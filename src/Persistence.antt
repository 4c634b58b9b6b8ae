-- ===== src/Persistence.antt =====
-- persistence/: the SQLite store. The tables and their constraints stand in Schema with the audit
-- triggers, the writes in Store, the reads of books in Load.
pub mod Rows
pub mod Platform
pub mod Sql
pub mod Config
pub mod Keys
pub mod Schema
pub mod Payload
pub mod Store
pub mod Load
pub mod AuditLog
