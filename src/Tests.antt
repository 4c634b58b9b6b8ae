-- ===== src/Tests.antt =====
-- The theorems applied to concrete inputs: a small book in EUR, with a concrete engine, codec and
-- platform in the place of the parameters.
pub mod Fixtures
pub mod Codecs
mod Chart
mod Balance
mod Books
mod Payloads
mod Writes
mod Loads
mod Packs
mod Jurisdictions
mod Reports
pub mod Markup
mod Pools
mod Posts
mod Exports
pub mod Settings
