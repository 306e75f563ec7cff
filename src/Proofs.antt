-- ===== src/Proofs.antt =====
-- crates/proofs: the store of historical proofs, and the pruner that moves its earliest block forward.
pub mod Api
pub mod Tables
pub mod Cursor
pub mod Store
pub mod MemoryDatabase
pub mod Pruner
mod Tests
