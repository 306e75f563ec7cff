-- ===== src/Proofs/Pruner/Run.antt =====
-- The turns of the pruner of crates/proofs/src/prune/pruner.rs, over any store and any reader of block
-- hashes, and the fuel of its loop.
use morph_reth.Common.{
  ℕ, zero, suc, ◌-◌, ◌≤◌, ◌<◌, min, ◌≡◌, refl, inl, inr, true, Option, none, some, Result, ok, err,
  ltb, leb, is_some, Bool-cases, arith,
}
use morph_reth.Common.Words.{u64_max, IsU64, saturating_add}
use morph_reth.Proofs.Api.{StorageError, BlockNumHash, ProofsStore}
use morph_reth.Proofs.Pruner.{
  PrunerError, PrunerOutput, pruned, extend_ref, Pruner, target_earliest_block, prune_batch,
  then_next, prune_batches, run_from, run_inner,
}

module _ {P : Type 0} (store : ProofsStore) (block_hash : ℕ → Result P (Option ℕ))
    (p : Pruner) where
  then_next-is_some :
      (next : store.State
        → PrunerOutput
        → store.State × Option (Result (PrunerError P) PrunerOutput))
      (o : store.State × Result (PrunerError P) PrunerOutput)
      → ((s : store.State) (out : PrunerOutput) → is_some (next s out).1 ≡ true)
      → is_some (then_next store block_hash p next o).1 ≡ true
  unfolding then_next
  then_next-is_some next (s, ok out) h = h s out
  then_next-is_some next (s, err e) h = refl

  abbrev pub batch_end : ℕ → ℕ → ℕ
  batch_end current target = min (saturating_add u64_max current p.prune_batch_size) target

  pub prune_batches_reached :
      (fuel : ℕ) (s : store.State) (current target : ℕ) (out : PrunerOutput)
      → target ≤ current
      → prune_batches store block_hash p fuel s current target out ≡ (s, some (ok out))
  unfolding prune_batches
  prune_batches_reached zero s current target out h = ground arith
  prune_batches_reached (suc fuel) s current target out h = ground arith

  pub prune_batches_turn :
      (fuel : ℕ) (s : store.State) (current target : ℕ) (out : PrunerOutput)
      → current < target
      → prune_batches store block_hash p (suc fuel) s current target out
        ≡ then_next store block_hash p
            (λ s'. λ o.
              prune_batches store block_hash p fuel s'
                (batch_end current target)
                target
                (extend_ref out o))
            (prune_batch store block_hash p s current (batch_end current target))
  unfolding prune_batches
  prune_batches_turn fuel s current target out h = ground arith

  prune_batches-is_some :
      (fuel : ℕ) (s : store.State) (current target : ℕ) (out : PrunerOutput)
      → 0 < p.prune_batch_size
      → IsU64 target
      → target - current ≤ fuel
      → is_some (prune_batches store block_hash p fuel s current target out).1 ≡ true
  prune_batches-is_some zero s current target out size fits enough =
      rw (prune_batches_reached 0 s current target out (omega arith))
  prune_batches-is_some (suc fuel) s current target out size fits enough =
      elim (Bool-cases (ltb current target)) [
        | inr h ↦ rw (prune_batches_reached (suc fuel) s current target out (ground arith))
        | inl h ↦ rw (prune_batches_turn fuel s current target out (ground arith)) (
            then_next-is_some _
              (prune_batch store block_hash p s current (batch_end current target))
              (λ s'. λ o.
                prune_batches-is_some fuel s' (batch_end current target) target (extend_ref out o)
                  size fits (let low : current < target = ground arith in omega arith)))
      ]

  run_from-is_some :
      (s : store.State) (earliest latest : Result StorageError (Option BlockNumHash))
      → 0 < p.prune_batch_size
      → ((b : BlockNumHash) → latest ≡ ok (some b) → IsU64 b.0)
      → is_some (run_from store block_hash p s earliest latest).1 ≡ true
  unfolding run_from target_earliest_block
  run_from-is_some s (err e) latest size fits = refl
  run_from-is_some s (ok earliest) (err e) size fits = refl
  run_from-is_some s (ok none) (ok latest) size fits = refl
  run_from-is_some s (ok (some earliest)) (ok none) size fits = refl
  run_from-is_some s (ok (some (earliest, he))) (ok (some (latest, hl))) size fits =
      let bound : IsU64 latest = fits (latest, hl) refl in
      let target = latest - p.retention_blocks in
      elim (Bool-cases (leb target earliest)) [
        | inl h ↦ rw h
        | inr h ↦ rw h (
            prune_batches-is_some (target - earliest) s earliest target (pruned earliest target)
              size (omega arith) (omega arith))
      ]

  -- A run never runs out of fuel: with a positive batch size, and a latest block that is a u64, it
  -- answers an output or an error, whatever the store and the reader of hashes answer.
  pub run_inner-is_some :
      (s : store.State)
      → 0 < p.prune_batch_size
      → ((b : BlockNumHash) → store.get_latest_block_number s ≡ ok (some b) → IsU64 b.0)
      → is_some (run_inner store block_hash p s).1 ≡ true
  unfolding run_inner
  run_inner-is_some s size fits = run_from-is_some s _ _ size fits
