-- ===== src/Proofs/Pruner.antt =====
-- crates/proofs/src/prune/pruner.rs and error.rs: the pruner. The clock, the logs and the metrics are not
-- modelled. The reader of block hashes answers the same at every call of one run.
pub mod Run
pub mod Window
use morph_reth.Common.{
  ℕ, zero, suc, ◌+◌, ◌-◌, min, Option, none, some, Result, ok, err, ltb, leb, ◌==◌, if◌then◌else◌,
}
use morph_reth.Common.Words.{u64_max, saturating_add}
use morph_reth.ProofsExex.SyncTarget.{BlockWithParent}
use morph_reth.Proofs.Api.{StorageError, BlockNumHash, WriteCounts, add_assign, ProofsStore}

pub data PrunerError (P : Type 0) : Type 0 where
  storage : StorageError → PrunerError P
  provider : P → PrunerError P
  block_not_found : ℕ → PrunerError P

pub record PrunerOutput : Type 0 where
  pub start_block : ℕ
  pub end_block : ℕ
  pub write_counts : WriteCounts

abbrev pub no_counts : WriteCounts
no_counts = record {
  account_trie_updates_written_total = 0;
  storage_trie_updates_written_total = 0;
  hashed_accounts_written_total = 0;
  hashed_storages_written_total = 0;
}

-- `PrunerOutput::default()`, and the output of a run from one block to another before any pruning
abbrev pub pruned : ℕ → ℕ → PrunerOutput
pruned from to = record { start_block = from; end_block = to; write_counts = no_counts }

unfoldable pub extend_ref : PrunerOutput → PrunerOutput → PrunerOutput
unfolding add_assign
extend_ref a b = record {
  start_block = if ltb b.start_block a.start_block then b.start_block else a.start_block;
  end_block = if ltb a.end_block b.end_block then b.end_block else a.end_block;
  write_counts = add_assign a.write_counts b.write_counts;
}

pub record Pruner : Type 0 where
  pub retention_blocks : ℕ
  pub prune_batch_size : ℕ

unfoldable pub target_earliest_block : Pruner → ℕ → ℕ
target_earliest_block p latest_block = latest_block - p.retention_blocks

module _ {P : Type 0} (store : ProofsStore) (block_hash : ℕ → Result P (Option ℕ))
    (p : Pruner) where
  abbrev pub Outcome : Type 0 → Type 0
  Outcome A = store.State × Result (PrunerError P) A

  -- `prune_earliest_state(block)?` and the output of the batch
  unfoldable pub batch_output :
      ℕ → ℕ → store.State × Result StorageError WriteCounts → Outcome PrunerOutput
  batch_output start end (s, ok counts) =
      (s, ok (record { start_block = start; end_block = end; write_counts = counts }))
  batch_output start end (s, err e) = (s, err (storage e))

  unfoldable pub prune_to : store.State → ℕ → ℕ → Result P (Option ℕ) → Outcome PrunerOutput
  unfolding batch_output
  prune_to s start end (ok (some hash)) =
      batch_output start end
        (store.prune_earliest_state s (record { parent = 0; number = end; hash = hash }))
  prune_to s start end (ok none) = (s, err (block_not_found end))
  prune_to s start end (err e) = (s, err (provider e))

  unfoldable pub prune_batch : store.State → ℕ → ℕ → Outcome PrunerOutput
  unfolding prune_to
  prune_batch s start end =
      if end == 0 then (s, ok (pruned start end)) else prune_to s start end (block_hash end)

  -- An answer `none` stands for fuel that ran out.
  abbrev pub Looped : Type 0
  Looped = store.State × Option (Result (PrunerError P) PrunerOutput)

  -- `prune_batch(..)?` and the rest of the loop
  unfoldable pub then_next : (store.State → PrunerOutput → Looped) → Outcome PrunerOutput → Looped
  then_next next (s, ok out) = next s out
  then_next next (s, err e) = (s, some (err e))

  -- The loop of `run_inner`, on fuel: `while current < target`.
  unfoldable pub prune_batches : ℕ → store.State → ℕ → ℕ → PrunerOutput → Looped
  unfolding prune_batch extend_ref then_next
  prune_batches zero s current target out =
      if ltb current target then (s, none) else (s, some (ok out))
  prune_batches (suc fuel) s current target out =
      let end = min (saturating_add u64_max current p.prune_batch_size) target in
      let rest =
        then_next (λ s. λ o. prune_batches fuel s end target (extend_ref out o))
          (prune_batch s current end) in
      if ltb current target then rest else (s, some (ok out))

  -- `run_inner` with the two reads of the window made
  unfoldable pub run_from :
      store.State
      → Result StorageError (Option BlockNumHash)
      → Result StorageError (Option BlockNumHash)
      → Looped
  unfolding prune_batches target_earliest_block
  run_from s (err e) latest = (s, some (err (storage e)))
  run_from s (ok earliest) (err e) = (s, some (err (storage e)))
  run_from s (ok none) (ok latest) = (s, some (ok (pruned 0 0)))
  run_from s (ok (some earliest)) (ok none) = (s, some (ok (pruned 0 0)))
  run_from s (ok (some (earliest, _))) (ok (some (latest, _))) =
      let target = target_earliest_block p latest in
      if leb target earliest
      then (s, some (ok (pruned 0 0)))
      else prune_batches (target - earliest) s earliest target (pruned earliest target)

  unfoldable pub run_inner : store.State → Looped
  unfolding run_from
  run_inner s = run_from s (store.get_earliest_block_number s) (store.get_latest_block_number s)
