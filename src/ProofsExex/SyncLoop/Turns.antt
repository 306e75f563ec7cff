-- ===== src/ProofsExex/SyncLoop/Turns.antt =====
-- The turns and the runs of `sync_forward` in crates/proofs-exex/src/lib.rs.
use morph_reth.Common.{
  ℕ, ◌≤◌, ◌≡◌, refl, ap, ◌∙◌, ◌⊎◌, inl, inr, true, false, Option, none, some, List, Result, ok, err,
  leb, Bool-cases, arith, ⊤, is_some,
}
use morph_reth.Proofs.Api.{StorageError, BlockNumHash}
use morph_reth.ProofsExex.SyncTarget.{SyncTargetState, sync_up_to, requeue_state, has_pending_state}
use morph_reth.ProofsExex.SyncTarget.{take_state}
use morph_reth.ProofsExex.SyncTarget.Merge.{update_all, requeue_state-take_state}
use morph_reth.ProofsExex.SyncLoop.{
  SyncStore, Loop, Turn, with_pending, returned, again, is_retryable_sync_error, set_sync_healthy,
  requeue_sync_up_to, with_cache, after_batch, Batch, run_batch, turn_from, sync_turn,
}

module _ {P B D : Type 0} (store : SyncStore B D) (recovered_block : ℕ → Result P (Option B))
    (interval : ℕ) where
  -- How a turn may give up a target, with what arrived in it: the store has the target, or the target
  -- waits again with the arrivals merged on top, or the gauge is cleared. What arrived stays pending.
  abbrev pub Accounted : ℕ → List SyncTargetState → Loop store × Turn → Type 0
  Accounted target arrivals (m, again) =
      (m.sync_healthy ≡ true) × (m.pending ≡ update_all none arrivals)
  Accounted target arrivals (m, returned) =
      ((b : BlockNumHash) × (store.get_latest_block_number m.stored ≡ ok (some b))
        × (target ≤ b.0)
        × (m.pending ≡ update_all none arrivals))
      ⊎ ((m.pending ≡ update_all (some (sync_up_to target)) arrivals)
          ⊎ ((m.sync_healthy ≡ false) × (m.pending ≡ update_all none arrivals)))

  requeued :
      (target : SyncTargetState) (arrivals : List SyncTargetState)
      (pending : Option SyncTargetState)
      → pending ≡ update_all none arrivals
      → requeue_state pending target ≡ update_all (some target) arrivals
  unfolding take_state
  requeued target arrivals pending h =
      ap (λ z. requeue_state z target) h ∙ requeue_state-take_state target arrivals

  after_batch-Accounted :
      (target : ℕ) (arrivals : List SyncTargetState) (m : Loop store)
      (o : store.State × Result StorageError ⊤)
      → m.pending ≡ update_all none arrivals
      → Accounted target arrivals (after_batch target m o)
  unfolding after_batch set_sync_healthy requeue_sync_up_to
  after_batch-Accounted target arrivals m (s, ok _) h = (refl, h)
  after_batch-Accounted target arrivals m (s, err e) h =
      elim (Bool-cases (is_retryable_sync_error e)) [
        | inl r ↦ rw r (inr (inl (requeued (sync_up_to target) arrivals m.pending h)))
        | inr r ↦ rw r (inr (inr (refl, h)))
      ]

  run_batch-Accounted :
      (target : ℕ) (arrivals : List SyncTargetState) (m : Loop store)
      (batch : Batch store recovered_block interval)
      → m.pending ≡ update_all none arrivals
      → Accounted target arrivals (run_batch store recovered_block interval target m batch)
  unfolding run_batch requeue_sync_up_to
  run_batch-Accounted target arrivals m (cache, err e) h =
      inr (inl (requeued (sync_up_to target) arrivals m.pending h))
  run_batch-Accounted target arrivals m (cache, ok batch) h =
      after_batch-Accounted target arrivals (with_cache cache m)
        (store.execute_and_store_batch m.stored batch) h

  turn_from-Accounted :
      (target : ℕ) (arrivals : List SyncTargetState) (m : Loop store)
      (latest : Result StorageError (Option BlockNumHash))
      → m.pending ≡ update_all none arrivals
      → store.get_latest_block_number m.stored ≡ latest
      → Accounted target arrivals (turn_from store recovered_block interval target m latest)
  unfolding turn_from set_sync_healthy requeue_sync_up_to
  turn_from-Accounted target arrivals m (err e) h l =
      inr (inl (requeued (sync_up_to target) arrivals m.pending h))
  turn_from-Accounted target arrivals m (ok none) h l = inr (inr (refl, h))
  turn_from-Accounted target arrivals m (ok (some (latest, hash))) h l =
      elim (Bool-cases (leb target latest)) [
        | inl reached ↦ rw reached (inl ((latest, hash), l, ground arith, h))
        | inr short ↦ rw short (run_batch-Accounted target arrivals m _ h)
      ]

  -- No target and no notification is lost: a turn of `sync_forward` that starts with nothing pending
  -- either goes on with the gauge set, or returns with the target stored, with the gauge cleared, or with
  -- the target pending again below all that arrived in the turn, whatever the store and the provider
  -- answer; in the other cases what arrived in the turn is pending, merged in its order.
  pub sync_turn-Accounted :
      (target : ℕ) (arrivals : List SyncTargetState) (m : Loop store)
      → m.pending ≡ none
      → Accounted target arrivals (sync_turn store recovered_block interval target arrivals m)
  unfolding sync_turn has_pending_state
  sync_turn-Accounted target arrivals m h =
      let nothing : is_some m.pending ≡ false = ap is_some h in
      rw nothing (
        turn_from-Accounted target arrivals (with_pending (update_all m.pending arrivals) m)
          (store.get_latest_block_number m.stored) (ap (λ z. update_all z arrivals) h) refl)
