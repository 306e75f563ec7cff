-- ===== src/ProofsExex/SyncTarget/Reverts.antt =====
-- What the pending state asks for: how far to revert, and how far to sync.
use morph_reth.Common.{
  ℕ, ◌≤◌, ◌<◌, ◌≡◌, ◌≢◌, ◌⊎◌, inl, inr, Option, none, some, List, [], ◌∷◌, arith, refl, min,
  Bool-cases, max,
}
use morph_reth.ProofsExex.SyncTarget.{
  BlockWithParent, SyncTargetState, sync_up_to, revert_then_sync, revert, apply_next, update_state,
  revert_is_covered, mark_revert_complete,
}
use morph_reth.ProofsExex.SyncTarget.Merge.{update_all}

-- The first block that a state removes, if it reverts.
abbrev pub revert_of : SyncTargetState → Option BlockWithParent
revert_of (sync_up_to to) = none
revert_of (revert_then_sync r to) = some r
revert_of (revert r) = some r

abbrev pub pending_revert : Option SyncTargetState → Option BlockWithParent
pending_revert none = none
pending_revert (some s) = revert_of s

abbrev pub number_of : Option BlockWithParent → Option ℕ
number_of none = none
number_of (some r) = some r.number

-- The block that a state syncs forward to, if it does.
abbrev pub target_of : SyncTargetState → Option ℕ
target_of (sync_up_to to) = some to
target_of (revert_then_sync r to) = some to
target_of (revert r) = none

abbrev pub pending_target : Option SyncTargetState → Option ℕ
pending_target none = none
pending_target (some s) = target_of s

-- The lowest of the numbers that are there.
abbrev pub lowest : Option ℕ → Option ℕ → Option ℕ
lowest none b = b
lowest (some a) none = some a
lowest (some a) (some b) = some (min a b)

-- The lowest revert of a list of arrivals, beside an earlier one.
abbrev pub lowest_revert : Option ℕ → List SyncTargetState → Option ℕ
lowest_revert n [] = n
lowest_revert n (s ∷ ss) = lowest_revert (lowest n (number_of (revert_of s))) ss

-- The forward target after one arrival: a plain sync only raises it, any revert sets it anew.
abbrev pub retarget : Option ℕ → SyncTargetState → Option ℕ
retarget none (sync_up_to to) = some to
retarget (some t) (sync_up_to to) = some (max t to)
retarget t (revert_then_sync r to) = some to
retarget t (revert r) = none

abbrev pub retarget_all : Option ℕ → List SyncTargetState → Option ℕ
retarget_all t [] = t
retarget_all t (s ∷ ss) = retarget_all (retarget t s) ss

update_revert :
    (p : Option SyncTargetState) (s : SyncTargetState)
    → number_of (pending_revert (update_state p s))
      ≡ lowest (number_of (pending_revert p)) (number_of (revert_of s))
unfolding update_state apply_next
update_revert none s = refl
update_revert (some a) s = ground arith

update_target :
    (p : Option SyncTargetState) (s : SyncTargetState)
    → pending_target (update_state p s) ≡ retarget (pending_target p) s
unfolding update_state apply_next
update_target none s = ground arith
update_target (some a) s = ground arith

revert_all :
    (p : Option SyncTargetState) (ss : List SyncTargetState)
    → number_of (pending_revert (update_all p ss)) ≡ lowest_revert (number_of (pending_revert p)) ss
revert_all p [] = refl
revert_all p (s ∷ ss) = rw (revert_all (update_state p s) ss, update_revert p s)

target_all :
    (p : Option SyncTargetState) (ss : List SyncTargetState)
    → pending_target (update_all p ss) ≡ retarget_all (pending_target p) ss
target_all p [] = refl
target_all p (s ∷ ss) = rw (target_all (update_state p s) ss, update_target p s)

-- After any sequence of updates the pending state reverts to the lowest block that the pending state or
-- an update asked for, and syncs forward to the target that the updates leave: a plain sync raises the
-- target, a revert sets it anew.
pub update_all_asks :
    (p : Option SyncTargetState) (ss : List SyncTargetState)
    → (number_of (pending_revert (update_all p ss))
        ≡ lowest_revert (number_of (pending_revert p)) ss)
      × (pending_target (update_all p ss) ≡ retarget_all (pending_target p) ss)
update_all_asks p ss = (revert_all p ss, target_all p ss)

-- What is left to revert to after a revert down to `done`: nothing that the completed revert removed.
abbrev pub Uncovered : BlockWithParent → Option BlockWithParent → Type 0
Uncovered done none = Unit
Uncovered done (some r) = (r.number ≤ done.number) × (r.number ≡ done.number → r.hash ≢ done.hash)

-- Why a revert is dropped: the completed one began lower, or at the very same block.
abbrev pub Dropped : BlockWithParent → Option BlockWithParent → Option BlockWithParent → Type 0
Dropped done none after = after ≡ none
Dropped done (some r) (some r') = r ≡ r'
Dropped done (some r) none =
    (done.number < r.number) ⊎ ((r.number ≡ done.number) × (r.hash ≡ done.hash))

-- `mark_revert_complete` keeps the forward target, leaves no revert that the completed one has covered,
-- and drops a revert only where the completed one began lower or at the same block.
pub mark_revert_complete_lem :
    (p : Option SyncTargetState) (done : BlockWithParent)
    → (pending_target (mark_revert_complete p done) ≡ pending_target p)
      × Uncovered done (pending_revert (mark_revert_complete p done))
      × Dropped done (pending_revert p) (pending_revert (mark_revert_complete p done))
unfolding mark_revert_complete
mark_revert_complete_lem none done = (refl, tt, refl)
mark_revert_complete_lem (some (sync_up_to to)) done = (refl, tt, refl)
mark_revert_complete_lem (some (revert_then_sync r to)) done =
    elim (Bool-cases (revert_is_covered r done)) [
      | inl c ↦ rw c (refl, tt, ground arith)
      | inr n ↦ rw n (refl, (ground arith, λ e e'. ground arith), refl)
    ]
mark_revert_complete_lem (some (revert r)) done = elim (Bool-cases (revert_is_covered r done)) [
  | inl c ↦ rw c (refl, tt, ground arith)
  | inr n ↦ rw n (refl, (ground arith, λ e e'. ground arith), refl)
]
