-- ===== src/ProofsExex/SyncTarget.antt =====
-- crates/proofs-exex/src/sync_target.rs: the pending state of the sync loop. A call holds the lock of
-- the state from its first read to its last write, so each call is one step on the pending state; the
-- wake-up of the loop, `notify_one`, is not modelled.
pub mod Merge
pub mod Reverts
use morph_reth.Common.{
  ℕ, Bool, true, false, not, ◌&&◌, ◌||◌, Option, none, some, ltb, leb, ◌==◌, if◌then◌else◌, is_some,
}

-- `BlockWithParent`: a block's number and hash, with the hash of its parent.
pub record BlockWithParent : Type 0 where
  pub parent : ℕ
  pub number : ℕ
  pub hash : ℕ

pub data SyncTargetState : Type 0 where
  sync_up_to : ℕ → SyncTargetState
  revert_then_sync : BlockWithParent → ℕ → SyncTargetState
  revert : BlockWithParent → SyncTargetState

unfoldable pub deeper_revert : BlockWithParent → BlockWithParent → BlockWithParent
deeper_revert current new = if leb new.number current.number then new else current

unfoldable pub further_sync : ℕ → ℕ → ℕ
further_sync current new = if leb current new then new else current

-- `apply_next`, with the new value of `self` as its result.
unfoldable pub apply_next : SyncTargetState → SyncTargetState → SyncTargetState
unfolding deeper_revert further_sync
apply_next (sync_up_to current) (sync_up_to new) = sync_up_to (further_sync current new)
apply_next (sync_up_to current) (revert_then_sync r to) = revert_then_sync r to
apply_next (sync_up_to current) (revert r) = revert r
apply_next (revert_then_sync current to) (revert new) = revert (deeper_revert current new)
apply_next (revert current) (revert new) = revert (deeper_revert current new)
apply_next (revert_then_sync current to) (revert_then_sync new new_to) =
    revert_then_sync (deeper_revert current new) new_to
apply_next (revert current) (revert_then_sync new to) =
    revert_then_sync (deeper_revert current new) to
apply_next (revert_then_sync r current) (sync_up_to to) =
    revert_then_sync r (further_sync current to)
apply_next (revert r) (sync_up_to to) = revert_then_sync r to

-- The operations on `state: Mutex<Option<SyncTargetState>>`.
unfoldable pub update_state : Option SyncTargetState → SyncTargetState → Option SyncTargetState
update_state none new = some new
update_state (some current) new = some (apply_next current new)

unfoldable pub requeue_state : Option SyncTargetState → SyncTargetState → Option SyncTargetState
requeue_state none failed = some failed
requeue_state (some newer) failed = some (apply_next failed newer)

-- the state that is taken, and what stays pending
unfoldable pub take_state : Option SyncTargetState → Option SyncTargetState × Option SyncTargetState
take_state pending = (pending, none)

unfoldable pub has_pending_state : Option SyncTargetState → Bool
has_pending_state pending = is_some pending

unfoldable pub revert_is_covered : BlockWithParent → BlockWithParent → Bool
revert_is_covered pending completed =
    ltb completed.number pending.number
    || (pending.number == completed.number && pending.hash == completed.hash)

unfoldable pub mark_revert_complete :
    Option SyncTargetState → BlockWithParent → Option SyncTargetState
unfolding revert_is_covered
mark_revert_complete none reverted_to = none
mark_revert_complete (some (sync_up_to to)) reverted_to = some (sync_up_to to)
mark_revert_complete (some (revert_then_sync r to)) reverted_to =
    if revert_is_covered r reverted_to then some (sync_up_to to) else some (revert_then_sync r to)
mark_revert_complete (some (revert r)) reverted_to =
    if revert_is_covered r reverted_to then none else some (revert r)
