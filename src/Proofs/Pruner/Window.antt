-- ===== src/Proofs/Pruner/Window.antt =====
-- The window of the store before and after a run of the pruner of crates/proofs/src/prune/pruner.rs, over
-- a store that is an interface with laws.
use morph_reth.Common.{
  ℕ, zero, suc, ◌-◌, ◌≤◌, ◌<◌, max, ◌≡◌, refl, sym, subst, inl, inr, false, Option, none, some,
  Result, ok, err, ltb, leb, ◌==◌, Bool-cases, arith,
}
use morph_reth.Common.Words.{IsU64}
use morph_reth.ProofsExex.SyncTarget.{BlockWithParent}
use morph_reth.Proofs.Api.{StorageError, BlockNumHash, WriteCounts, ProofsStore}
use morph_reth.Proofs.Pruner.{
  PrunerError, PrunerOutput, pruned, extend_ref, Pruner, target_earliest_block, Outcome,
  batch_output, prune_to, prune_batch, then_next, prune_batches, run_from, run_inner,
}
use morph_reth.Proofs.Pruner.Run.{batch_end}

module _ (store : ProofsStore) where
  -- The blocks that the store serves, from the earliest to the latest.
  pub record Window (s : store.State) (earliest latest : BlockNumHash) : Type 0 where
    pub is_earliest : store.get_earliest_block_number s ≡ ok (some earliest)
    pub is_latest : store.get_latest_block_number s ≡ ok (some latest)

  -- What the pruner relies on: pruning to a block of the window makes it the earliest block, and a
  -- refused pruning leaves the store as it was.
  pub record MovesEarliest : Type 0 where
    pub moves :
        (s s' : store.State) (b : BlockWithParent) (earliest latest : BlockNumHash)
        (c : WriteCounts)
        → Window s earliest latest
        → earliest.0 < b.number
        → b.number ≤ latest.0
        → store.prune_earliest_state s b ≡ (s', ok c)
        → Window s' (b.number, b.hash) latest
    pub keeps :
        (s s' : store.State) (b : BlockWithParent) (e : StorageError)
        → store.prune_earliest_state s b ≡ (s', err e)
        → s' ≡ s

module _ {P : Type 0} (store : ProofsStore) (block_hash : ℕ → Result P (Option ℕ))
    (p : Pruner) where
  -- The window after one batch up to `end`.
  abbrev Moved : BlockNumHash → BlockNumHash → ℕ → Outcome store block_hash p PrunerOutput → Type 0
  Moved earliest latest end (s, ok out) = (hash : ℕ) × Window store s (end, hash) latest
  Moved earliest latest end (s, err e) = Window store s earliest latest

  batch_output-Moved :
      MovesEarliest store
      → (s : store.State) (start : ℕ) (b : BlockWithParent) (earliest latest : BlockNumHash)
      → Window store s earliest latest
      → earliest.0 < b.number
      → b.number ≤ latest.0
      → (o : store.State × Result StorageError WriteCounts) → store.prune_earliest_state s b ≡ o
      → Moved earliest latest b.number (batch_output store block_hash p start b.number o)
  unfolding batch_output
  batch_output-Moved m s start b earliest latest w lo hi (s', ok c) h =
      (b.hash, m.moves s s' b earliest latest c w lo hi h)
  batch_output-Moved m s start b earliest latest w lo hi (s', err e) h =
      subst (λ z. Window store z earliest latest) (sym (m.keeps s s' b e h)) w

  prune_to-Moved :
      MovesEarliest store
      → (s : store.State) (start end : ℕ) (earliest latest : BlockNumHash)
      → Window store s earliest latest
      → earliest.0 < end
      → end ≤ latest.0
      → (hash : Result P (Option ℕ))
      → Moved earliest latest end (prune_to store block_hash p s start end hash)
  unfolding prune_to
  prune_to-Moved m s start end earliest latest w lo hi (ok (some hash)) =
      let b : BlockWithParent = record { parent = 0; number = end; hash = hash } in
      batch_output-Moved m s start b earliest latest w lo hi (store.prune_earliest_state s b) refl
  prune_to-Moved m s start end earliest latest w lo hi (ok none) = w
  prune_to-Moved m s start end earliest latest w lo hi (err e) = w

  prune_batch-Moved :
      MovesEarliest store
      → (s : store.State) (start end : ℕ) (earliest latest : BlockNumHash)
      → Window store s earliest latest
      → earliest.0 < end
      → end ≤ latest.0
      → Moved earliest latest end (prune_batch store block_hash p s start end)
  unfolding prune_batch
  prune_batch-Moved m s start end earliest latest w lo hi =
      let not_genesis : (end == 0) ≡ false = ground arith in
      rw not_genesis (prune_to-Moved m s start end earliest latest w lo hi (block_hash end))

  -- The window after a run: the earliest block has not moved back, and not beyond the target; it is at
  -- the target if the run answered an output.
  pub record Pruned (from latest : BlockNumHash) (target : ℕ)
      (o : store.State × Option (Result (PrunerError P) PrunerOutput)) : Type 0 where
    pub earliest : BlockNumHash
    pub window : Window store o.0 earliest latest
    pub forward : from.0 ≤ earliest.0
    pub within : earliest.0 ≤ max from.0 target
    pub done : (out : PrunerOutput) → o.1 ≡ some (ok out) → earliest.0 ≡ max from.0 target

  then_next-Pruned :
      (earliest latest : BlockNumHash) (end target : ℕ)
      → earliest.0 ≤ end
      → end ≤ target
      → (next : store.State
          → PrunerOutput
          → store.State × Option (Result (PrunerError P) PrunerOutput))
      → ((s : store.State) (hash : ℕ) (out : PrunerOutput)
          → Window store s (end, hash) latest
          → Pruned (end, hash) latest target (next s out))
      → (o : Outcome store block_hash p PrunerOutput) → Moved earliest latest end o
      → Pruned earliest latest target (then_next store block_hash p next o)
  unfolding then_next
  then_next-Pruned earliest latest end target lo hi next h (s, ok out) (hash, w) =
      let rest = h s hash out w in
      record {
        earliest = rest.earliest;
        window = rest.window;
        forward = let f = rest.forward in omega arith;
        within = let f = rest.within in omega arith;
        done = λ o. λ e. let f = rest.done o e in omega arith;
      }
  then_next-Pruned earliest latest end target lo hi next h (s, err e) w = record {
    earliest = earliest;
    window = w;
    forward = omega arith;
    within = omega arith;
    done = λ o. λ e. cc;
  }

  -- A run that ends without a turn.
  unmoved :
      (earliest latest : BlockNumHash) (target : ℕ) (s : store.State)
      (r : Option (Result (PrunerError P) PrunerOutput))
      → Window store s earliest latest
      → ((out : PrunerOutput) → r ≡ some (ok out) → target ≤ earliest.0)
      → Pruned earliest latest target (s, r)
  unmoved earliest latest target s r w reached = record {
    earliest = earliest;
    window = w;
    forward = omega arith;
    within = omega arith;
    done = λ o. λ e. let h = reached o e in omega arith;
  }

  prune_batches-Pruned :
      MovesEarliest store
      → (fuel : ℕ) (s : store.State) (current latest : BlockNumHash) (target : ℕ)
        (out : PrunerOutput)
      → Window store s current latest
      → target ≤ latest.0
      → IsU64 target
      → 0 < p.prune_batch_size
      → Pruned current latest target (prune_batches store block_hash p fuel s current.0 target out)
  unfolding prune_batches
  prune_batches-Pruned m zero s current latest target out w in_window fits size =
      elim (Bool-cases (ltb current.0 target)) [
        | inr h ↦ rw h (unmoved current latest target s _ w (λ o. λ e. ground arith))
        | inl h ↦ rw h (unmoved current latest target s _ w (λ o. λ e. cc))
      ]
  prune_batches-Pruned m (suc fuel) s current latest target out w in_window fits size =
      elim (Bool-cases (ltb current.0 target)) [
        | inr h ↦ rw h (unmoved current latest target s _ w (λ o. λ e. ground arith))
        | inl h ↦
            let low : current.0 < target = ground arith in
            let end = batch_end store block_hash p current.0 target in
            rw h (
              then_next-Pruned current latest end target (omega arith) (omega arith) _
                (λ s'. λ hash. λ o. λ w'.
                  prune_batches-Pruned m fuel s' (end, hash) latest target (extend_ref out o) w'
                    in_window fits size)
                (prune_batch store block_hash p s current.0 end)
                (prune_batch-Moved m s current.0 end current latest w (omega arith) (omega arith)))
      ]

  run_from-Pruned :
      MovesEarliest store
      → (s : store.State) (earliest latest : BlockNumHash) → Window store s earliest latest
      → IsU64 latest.0
      → 0 < p.prune_batch_size
      → Pruned earliest latest
          (target_earliest_block p latest.0)
          (run_from store block_hash p s (ok (some earliest)) (ok (some latest)))
  unfolding run_from target_earliest_block
  run_from-Pruned m s (earliest, he) (latest, hl) w fits size =
      let target = latest - p.retention_blocks in
      elim (Bool-cases (leb target earliest)) [
        | inl h ↦ rw h (unmoved (earliest, he) (latest, hl) target s _ w (λ o. λ e. ground arith))
        | inr h ↦ rw h (
            prune_batches-Pruned m (target - earliest) s (earliest, he) (latest, hl) target
              (pruned earliest target) w (omega arith) (omega arith) size)
      ]

  -- Over a store whose pruning moves the earliest block and whose refusals change nothing, with a
  -- positive batch size and a latest block that is a u64, a run from the window `earliest`, `latest`
  -- leaves a window with the same latest block and an earliest block that has not moved back and not
  -- beyond `latest - retention_blocks`; if the run answers an output, the earliest block is exactly the
  -- larger of the old one and that target.
  pub run_inner-Pruned :
      MovesEarliest store
      → (s : store.State) (earliest latest : BlockNumHash) → Window store s earliest latest
      → IsU64 latest.0
      → 0 < p.prune_batch_size
      → Pruned earliest latest (target_earliest_block p latest.0) (run_inner store block_hash p s)
  unfolding run_inner
  run_inner-Pruned m s earliest latest w fits size =
      rw (w.is_earliest, w.is_latest) (run_from-Pruned m s earliest latest w fits size)
