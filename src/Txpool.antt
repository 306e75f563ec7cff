-- ===== src/Txpool.antt =====
-- The transaction pool's own checks, crates/txpool.
pub mod MorphTxValidation
mod Tests
