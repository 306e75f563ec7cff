-- ===== src/ProofsExex/SyncTarget/Merge.antt =====
-- Merging of pending states (`apply_next`), and a state that is taken and requeued.
use morph_reth.Common.{◌≡◌, Option, some, List, [], ◌∷◌, arith, refl}
use morph_reth.ProofsExex.SyncTarget.{
  SyncTargetState, sync_up_to, apply_next, update_state, requeue_state, take_state,
}

-- Merging pending states is associative: how they are grouped does not matter, as long as they stay in
-- the order of their arrival.
pub apply_next_assoc :
    (a b c : SyncTargetState) → apply_next (apply_next a b) c ≡ apply_next a (apply_next b c)
unfolding apply_next
apply_next_assoc (sync_up_to x) (sync_up_to y) (sync_up_to z) = ground arith
apply_next_assoc a b c = ground arith

-- The updates that arrive, first to last.
abbrev pub update_all : Option SyncTargetState → List SyncTargetState → Option SyncTargetState
update_all pending [] = pending
update_all pending (s ∷ ss) = update_all (update_state pending s) ss

pub update_all-apply_next :
    (a b : SyncTargetState) (ss : List SyncTargetState) (m : SyncTargetState)
    → update_all (some b) ss ≡ some m
    → update_all (some (apply_next a b)) ss ≡ some (apply_next a m)
unfolding update_state
update_all-apply_next a b [] m h = cc
update_all-apply_next a b (s ∷ ss) m h =
    rw (apply_next_assoc a b s) (update_all-apply_next a (apply_next b s) ss m h)

pub update_all-some :
    (b : SyncTargetState) (ss : List SyncTargetState)
    → (m : SyncTargetState) × (update_all (some b) ss ≡ some m)
unfolding update_state
update_all-some b [] = (b, refl)
update_all-some b (s ∷ ss) = update_all-some (apply_next b s) ss

-- A state that the loop takes, fails to finish and requeues is, with all that arrived in between, what
-- it would be if it had never been taken.
pub requeue_state-take_state :
    (failed : SyncTargetState) (arrived : List SyncTargetState)
    → requeue_state (update_all (take_state (some failed)).1 arrived) failed
      ≡ update_all (some failed) arrived
unfolding requeue_state take_state update_state
requeue_state-take_state failed [] = refl
requeue_state-take_state failed (s ∷ ss) =
    let (m, e) = update_all-some s ss in rw (e, update_all-apply_next failed s ss m e)
