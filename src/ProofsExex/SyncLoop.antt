-- ===== src/ProofsExex/SyncLoop.antt =====
-- crates/proofs-exex/src/lib.rs: the sync loop. A turn and a run are functions of the loop's state and of
-- the notifications that arrive during each turn, after it looked for a pending state and before it is done
-- with the target: they are merged into the pending state before a requeue. What they do to the cache while
-- a turn takes from it is not modelled.
-- The store with its collector, and the provider of blocks, are parameters. The gauge of health is kept;
-- the other metrics, the logs and the waits are not modelled.
pub mod Turns
pub mod OnChain
use morph_reth.Common.{
  ℕ, zero, suc, ◌+◌, ◌-◌, ◌%◌, ◌*◌, min, Bool, true, false, not, ◌&&◌, Option, none, some, List, [],
  ◌∷◌, Result, ok, err, ltb, leb, ◌==◌, if◌then◌else◌, is_some, ⊤, unwrap_or,
}
use morph_reth.Common.Words.{u64_max, saturating_add}
use morph_reth.Proofs.Api.{
  StorageError, no_blocks_found, database_error, provider_error, try_lock_error, BlockNumHash,
}
use morph_reth.ProofsExex.SyncTarget.{
  BlockWithParent, SyncTargetState, sync_up_to, revert_then_sync, revert, update_state,
  requeue_state, take_state, has_pending_state, mark_revert_complete,
}
use morph_reth.ProofsExex.SyncTarget.Merge.{update_all}
use morph_reth.ProofsExex.Cache.{take}

abbrev pub sync_blocks_per_turn : ℕ
sync_blocks_per_turn = 50

unfoldable pub is_retryable_sync_error : StorageError → Bool
is_retryable_sync_error database_error = true
is_retryable_sync_error provider_error = true
is_retryable_sync_error try_lock_error = true
is_retryable_sync_error _ = false

pub record CachedBlockTrieData (D : Type 0) : Type 0 where
  pub block_with_parent : BlockWithParent
  pub trie_data : D

pub data BatchBlock (B D : Type 0) : Type 0 where
  cached : BlockWithParent → D → BatchBlock B D
  execute : B → BatchBlock B D

-- What `build_batch_entry` returns as an error: one of the provider, or a block that it has not.
pub data EntryError (P : Type 0) : Type 0 where
  provider : P → EntryError P
  missing_block : ℕ → EntryError P

-- The store with its collector: `LiveTrieCollector` on a `MorphProofsStorage`.
pub record SyncStore (B D : Type 0) : Type 1 where
  pub State : Type 0
  pub get_earliest_block_number : State → Result StorageError (Option BlockNumHash)
  pub get_latest_block_number : State → Result StorageError (Option BlockNumHash)
  pub unwind_history : State → BlockWithParent → State × Result StorageError ⊤
  pub execute_and_store_batch : State → List (BatchBlock B D) → State × Result StorageError ⊤

pub data InitError : Type 0 where
  storage : StorageError → InitError
  not_initialized : InitError
  -- blocks to prune, threshold
  too_many_blocks_to_prune : ℕ → ℕ → InitError

-- `ensure_initialized`, with the two reads made: the window and the threshold are its first arguments.
unfoldable pub ensure_initialized :
    ℕ
    → ℕ
    → Result StorageError (Option BlockNumHash)
    → Result StorageError (Option BlockNumHash)
    → Result InitError ⊤
ensure_initialized window max_prune (err e) latest = err (storage e)
ensure_initialized window max_prune (ok none) latest = err not_initialized
ensure_initialized window max_prune (ok (some earliest)) (err e) = err (storage e)
ensure_initialized window max_prune (ok (some earliest)) (ok none) = err not_initialized
ensure_initialized window max_prune (ok (some (earliest, _))) (ok (some (latest, _))) =
    let target_earliest = latest - window in
    let blocks_to_prune = target_earliest - earliest in
    if ltb earliest target_earliest && ltb max_prune blocks_to_prune
    then err (too_many_blocks_to_prune blocks_to_prune max_prune)
    else ok tt

-- The pending state that `run` starts with, from the best block and the latest stored one.
unfoldable pub initial_state : ℕ → Option BlockNumHash → Option SyncTargetState
initial_state best_block none =
    if ltb 0 best_block then update_state none (sync_up_to best_block) else none
initial_state best_block (some (latest_stored, _)) =
    if ltb latest_stored best_block then update_state none (sync_up_to best_block) else none

unfoldable pub should_verify : ℕ → ℕ → Bool
should_verify interval n = ltb 0 interval && (n % interval == 0)

module _ {P B D : Type 0} (recovered_block : ℕ → Result P (Option B)) where
  unfoldable pub executed_entry : ℕ → Result P (Option B) → Result (EntryError P) (BatchBlock B D)
  executed_entry n (ok (some block)) = ok (execute block)
  executed_entry n (ok none) = err (missing_block n)
  executed_entry n (err e) = err (provider e)

  unfoldable pub build_batch_entry :
      ℕ → Option (CachedBlockTrieData D) → ℕ → Result (EntryError P) (BatchBlock B D)
  unfolding executed_entry should_verify
  build_batch_entry n none interval = executed_entry n (recovered_block n)
  build_batch_entry n (some c) interval =
      if should_verify interval n
      then executed_entry n (recovered_block n)
      else ok (cached c.block_with_parent c.trie_data)

-- The state of the loop: the store, the pending state and the cache of the sync target, and the gauge.
pub record Loop {B D : Type 0} (store : SyncStore B D) : Type 0 where
  pub stored : store.State
  pub pending : Option SyncTargetState
  pub cache : List (ℕ × CachedBlockTrieData D)
  pub sync_healthy : Bool

pub data Turn : Type 0 where
  returned : Turn
  again : Turn

module _ {B D : Type 0} {store : SyncStore B D} where
  unfoldable pub set_sync_healthy : Bool → Loop store → Loop store
  set_sync_healthy healthy m = record {
    stored = m.stored;
    pending = m.pending;
    cache = m.cache;
    sync_healthy = healthy;
  }

  unfoldable pub requeue_sync_up_to : ℕ → Loop store → Loop store
  requeue_sync_up_to target m = record {
    stored = m.stored;
    pending = requeue_state m.pending (sync_up_to target);
    cache = m.cache;
    sync_healthy = m.sync_healthy;
  }

  abbrev pub with_cache : List (ℕ × CachedBlockTrieData D) → Loop store → Loop store
  with_cache cache m = record {
    stored = m.stored;
    pending = m.pending;
    cache = cache;
    sync_healthy = m.sync_healthy;
  }

  abbrev pub with_stored : store.State → Loop store → Loop store
  with_stored s m = record {
    stored = s;
    pending = m.pending;
    cache = m.cache;
    sync_healthy = m.sync_healthy;
  }

  abbrev pub with_pending : Option SyncTargetState → Loop store → Loop store
  with_pending pending m = record {
    stored = m.stored;
    pending = pending;
    cache = m.cache;
    sync_healthy = m.sync_healthy;
  }

  -- What follows `execute_and_store_batch`.
  unfoldable pub after_batch :
      ℕ → Loop store → store.State × Result StorageError ⊤ → Loop store × Turn
  unfolding is_retryable_sync_error requeue_sync_up_to set_sync_healthy
  after_batch target m (s, ok _) = (set_sync_healthy true (with_stored s m), again)
  after_batch target m (s, err e) =
      if is_retryable_sync_error e
      then (requeue_sync_up_to target (with_stored s m), returned)
      else (set_sync_healthy false (with_stored s m), returned)

module _ {P B D : Type 0} (store : SyncStore B D) (recovered_block : ℕ → Result P (Option B))
    (interval : ℕ) where
  abbrev pub Batch : Type 0
  Batch = List (ℕ × CachedBlockTrieData D) × Result (EntryError P) (List (BatchBlock B D))

  abbrev pub prepend : BatchBlock B D → Batch → Batch
  prepend entry (cache, ok batch) = (cache, ok (entry ∷ batch))
  prepend entry (cache, err e) = (cache, err e)

  abbrev pub batch_with :
      List (ℕ × CachedBlockTrieData D) → Batch → Result (EntryError P) (BatchBlock B D) → Batch
  batch_with cache rest (ok entry) = prepend entry rest
  batch_with cache rest (err e) = (cache, err e)

  -- The loop that takes a number of blocks from one on: an error ends it.
  unfoldable pub build_batch : ℕ → ℕ → List (ℕ × CachedBlockTrieData D) → Batch
  unfolding build_batch_entry take
  build_batch zero n cache = (cache, ok [])
  build_batch (suc count) n cache =
      let taken = take n cache in
      batch_with taken.1 (build_batch count (n + 1) taken.1)
        (build_batch_entry recovered_block n taken.0 interval)

  -- What follows the preparation of the batch.
  unfoldable pub run_batch : ℕ → Loop store → Batch → Loop store × Turn
  unfolding after_batch requeue_sync_up_to
  run_batch target m (cache, err e) = (requeue_sync_up_to target (with_cache cache m), returned)
  run_batch target m (cache, ok batch) =
      after_batch target (with_cache cache m) (store.execute_and_store_batch m.stored batch)

  unfoldable pub turn_from :
      ℕ → Loop store → Result StorageError (Option BlockNumHash) → Loop store × Turn
  unfolding run_batch build_batch set_sync_healthy requeue_sync_up_to
  turn_from target m (err e) = (requeue_sync_up_to target m, returned)
  turn_from target m (ok none) = (set_sync_healthy false m, returned)
  turn_from target m (ok (some (latest, _))) =
      let end = min (saturating_add u64_max latest sync_blocks_per_turn) target in
      if leb target latest
      then (m, returned)
      else run_batch target m (build_batch (end - latest) (latest + 1) m.cache)

  -- One pass through the loop of `sync_forward`, with what arrives during it.
  unfoldable pub sync_turn : ℕ → List SyncTargetState → Loop store → Loop store × Turn
  unfolding turn_from has_pending_state
  sync_turn target arrivals m =
      if has_pending_state m.pending
      then (with_pending (update_all m.pending arrivals) m, returned)
      else turn_from target (with_pending (update_all m.pending arrivals) m)
          (store.get_latest_block_number m.stored)

  -- `sync_forward` on fuel, with what arrives in each turn; `again` is fuel that ran out.
  abbrev pub next_turn : (Loop store → Loop store × Turn) → Loop store × Turn → Loop store × Turn
  next_turn next (m, returned) = (m, returned)
  next_turn next (m, again) = next m

  unfoldable pub sync_forward : (ℕ → List SyncTargetState) → ℕ → ℕ → Loop store → Loop store × Turn
  unfolding sync_turn
  sync_forward arrivals zero target m = (m, again)
  sync_forward arrivals (suc fuel) target m =
      next_turn (sync_forward arrivals fuel target) (sync_turn target (arrivals fuel) m)

  -- `handle_revert` with the latest block read.
  unfoldable pub revert_from :
      BlockWithParent
      → store.State
      → Result StorageError (Option BlockNumHash)
      → store.State × Result StorageError ⊤
  revert_from to s (err e) = (s, err e)
  revert_from to s (ok none) = (s, err no_blocks_found)
  revert_from to s (ok (some (latest, _))) =
      if leb to.number latest then store.unwind_history s to else (s, ok tt)

  unfoldable pub handle_revert : BlockWithParent → store.State → store.State × Result StorageError ⊤
  unfolding revert_from
  handle_revert to s = revert_from to s (store.get_latest_block_number s)

  -- `run_revert`: whether the revert landed
  unfoldable pub after_revert : Loop store → store.State × Result StorageError ⊤ → Loop store × Bool
  unfolding set_sync_healthy is_retryable_sync_error
  after_revert m (s, ok _) = (set_sync_healthy true (with_stored s m), true)
  after_revert m (s, err e) =
      if is_retryable_sync_error e
      then (with_stored s m, false)
      else (set_sync_healthy false (with_stored s m), false)

  unfoldable pub run_revert : BlockWithParent → Loop store → Loop store × Bool
  unfolding handle_revert after_revert
  run_revert to m = after_revert m (handle_revert to m.stored)

  unfoldable pub complete_revert : BlockWithParent → Loop store → Loop store
  unfolding mark_revert_complete
  complete_revert to m = with_pending (mark_revert_complete m.pending to) m

  unfoldable pub reverted : BlockWithParent → Loop store × Bool → Loop store
  unfolding complete_revert
  reverted to (m, true) = complete_revert to m
  reverted to (m, false) = m

  unfoldable pub reverted_then :
      (ℕ → List SyncTargetState) → ℕ → BlockWithParent → ℕ → Loop store × Bool → Loop store
  unfolding complete_revert sync_forward
  reverted_then arrivals fuel to target (m, true) =
      (sync_forward arrivals fuel target (complete_revert to m)).0
  reverted_then arrivals fuel to target (m, false) = m

  -- The body of `sync_loop` with the state that it took.
  unfoldable pub dispatch :
      (ℕ → List SyncTargetState)
      → List SyncTargetState
      → ℕ
      → SyncTargetState
      → Loop store
      → Loop store
  unfolding run_revert reverted reverted_then sync_forward
  dispatch arrivals first fuel (revert to) m =
      reverted to (run_revert to (with_pending (update_all m.pending first) m))
  dispatch arrivals first fuel (revert_then_sync to target) m =
      reverted_then arrivals fuel to target
        (run_revert to (with_pending (update_all m.pending first) m))
  dispatch arrivals first fuel (sync_up_to target) m = (sync_forward arrivals fuel target m).0

  -- `first` is what arrives while a revert runs.
  unfoldable pub sync_loop_step :
      (ℕ → List SyncTargetState) → List SyncTargetState → ℕ → Loop store → Loop store
  unfolding dispatch take_state
  sync_loop_step arrivals first fuel m = elim (take_state m.pending).0 [
    | none ↦ m
    | some state ↦ dispatch arrivals first fuel state (with_pending (take_state m.pending).1 m)
  ]
