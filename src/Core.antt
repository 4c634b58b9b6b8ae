-- ===== src/Core.antt =====
-- core/: the accounting domain.
pub mod Decimal
pub mod Types
pub mod Errors
pub mod Engine
pub mod Entities
pub mod Chart
pub mod Periods
pub mod Balance
pub mod Books
pub mod Value
pub mod Codec
pub mod Serialization
