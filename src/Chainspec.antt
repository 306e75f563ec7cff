-- ===== src/Chainspec.antt =====
-- The chain specification, crates/chainspec.
pub mod Constants
pub mod Hardfork
mod Tests
