-- ===== src/Revm.antt =====
-- The fees of execution, crates/revm.
pub mod L1Block
pub mod TokenFee
pub mod Handler
pub mod Journal
pub mod Transfer
mod MemoryJournal
mod Tests
mod TransferTests
