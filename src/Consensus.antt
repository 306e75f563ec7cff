-- ===== src/Consensus.antt =====
-- Consensus validation, crates/consensus/src/validation.rs and error.rs.
pub mod Error
pub mod Header
pub mod Parent
pub mod L1Messages
pub mod Body
pub mod Execution
pub mod Chain
mod Tests
