-- ===== src/Proofs/Api.antt =====
-- crates/proofs/src/api.rs and error.rs: what a store of proof history offers to the code that runs on it.
-- The store's state is passed on explicitly; an error that carries a third-party value is a constructor
-- with no argument.
use morph_reth.Common.{ℕ, ◌+◌, Option, Result, ⊤}
use morph_reth.ProofsExex.SyncTarget.{BlockWithParent}

-- `MorphProofsStorageError`: those that the modelled operations return, and those that
-- `is_retryable_sync_error` names.
pub data StorageError : Type 0 where
  no_blocks_found : StorageError
  unknown_parent : StorageError
  -- block number, hash of its parent, hash of the latest stored block
  out_of_order : ℕ → ℕ → ℕ → StorageError
  -- block number, number of its parent, latest stored number
  missing_parent_block : ℕ → ℕ → ℕ → StorageError
  -- block number, root that was computed, root of the header
  state_root_mismatch : ℕ → ℕ → ℕ → StorageError
  -- block to unwind, earliest stored block
  unwind_beyond_earliest : ℕ → ℕ → StorageError
  -- target of the pruning, latest stored block
  prune_beyond_latest : ℕ → ℕ → StorageError
  database_error : StorageError
  try_lock_error : StorageError
  execution_error : StorageError
  provider_error : StorageError
  batch_session_closed : StorageError

-- `BlockNumHash`
abbrev pub BlockNumHash : Type 0
BlockNumHash = ℕ × ℕ

pub record WriteCounts : Type 0 where
  pub account_trie_updates_written_total : ℕ
  pub storage_trie_updates_written_total : ℕ
  pub hashed_accounts_written_total : ℕ
  pub hashed_storages_written_total : ℕ

-- `AddAssign`
unfoldable pub add_assign : WriteCounts → WriteCounts → WriteCounts
add_assign a b = record {
  account_trie_updates_written_total =
      a.account_trie_updates_written_total + b.account_trie_updates_written_total;
  storage_trie_updates_written_total =
      a.storage_trie_updates_written_total + b.storage_trie_updates_written_total;
  hashed_accounts_written_total = a.hashed_accounts_written_total + b.hashed_accounts_written_total;
  hashed_storages_written_total = a.hashed_storages_written_total + b.hashed_storages_written_total;
}

-- The part of `MorphProofsStore` that the pruner and the sync loop call.
pub record ProofsStore : Type 1 where
  pub State : Type 0
  pub get_earliest_block_number : State → Result StorageError (Option BlockNumHash)
  pub get_latest_block_number : State → Result StorageError (Option BlockNumHash)
  pub prune_earliest_state : State → BlockWithParent → State × Result StorageError WriteCounts
  pub unwind_history : State → BlockWithParent → State × Result StorageError ⊤
