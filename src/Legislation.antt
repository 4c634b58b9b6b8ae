-- ===== src/Legislation.antt =====
-- legislation/: the registry of packs, the results that a pack returns, the Latvian pack, and the
-- runner that validates in another interpreter.
pub mod Registry
pub mod Latvia
pub mod Metadata
pub mod Subinterpreters
