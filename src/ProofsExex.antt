-- ===== src/ProofsExex.antt =====
-- The execution extension that accumulates proofs, crates/proofs-exex.
pub mod SyncTarget
pub mod Cache
pub mod SyncLoop
pub mod Notifications
mod Tests
