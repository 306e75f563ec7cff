-- ===== src/Node.antt =====
-- The node, crates/node: the engine validator.
pub mod Validator
pub mod WithdrawRoots
mod Tests
