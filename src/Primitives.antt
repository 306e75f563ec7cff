-- ===== src/Primitives.antt =====
-- The transaction types, crates/primitives/src/transaction.
pub mod MorphTx
pub mod Envelope
pub mod Block
pub mod Samples
mod Tests
