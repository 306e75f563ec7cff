-- ===== src/Proofs/Store.antt =====
-- crates/proofs/src/db/store.rs: the proof store on MDBX, `MdbxProofsStorage`. The tables are those of
-- Proofs/Tables; a step inside a transaction answers the new tables or an error, and `commit_update`
-- keeps the old ones on an error. The lists that the source sorts before it deletes their rows one by
-- one are not sorted here. The clock, the logs and the metrics are not modelled.
pub mod Write
pub mod Delete
pub mod Reads
pub mod Window
pub mod Rows
pub mod Listed
pub mod Ranges
pub mod Unwind
pub mod Survivors
pub mod Plan
pub mod Candidates
pub mod Prune
pub mod Appends
pub mod Distinct
pub mod Stored
pub mod Extended
pub mod RoundTrip
pub mod ReadBack
pub mod Replace
use morph_reth.Common.{
  ℕ, ◌+◌, ◌-◌, Bool, true, false, ◌&&◌, Option, none, some, List, [], ◌∷◌, ◌++◌, Result, ok, err,
  ◌>>=◌, ◌>>◌, fail_if, map, leb, ltb, ◌==◌, not, if◌then◌else◌, or_else, ⊤,
}
use morph_reth.ProofsExex.SyncTarget.{BlockWithParent}
use morph_reth.Proofs.Api.{StorageError, BlockNumHash, WriteCounts, ProofsStore}
use morph_reth.Proofs.Tables.{TableName, Database}

-- `ProofWindowValue`
pub record ProofWindow : Type 0 where
  pub earliest : BlockNumHash
  pub latest : BlockNumHash

-- The state: the rows of `ProofWindow`, the history tables and `BlockChangeSet`.
pub record Tables (db : Database) : Type 0 where
  pub earliest_block : Option BlockNumHash
  pub latest_block : Option BlockNumHash
  pub history : (t : TableName) → db.Rows t
  pub block_change_set : db.ChangeSets

abbrev pub window_of : Option BlockNumHash → Option BlockNumHash → Option ProofWindow
window_of none latest = none
window_of (some e) (some l) = some (record { earliest = e; latest = l })
window_of (some e) none = some (record { earliest = e; latest = e })

module _ {db : Database} where
  unfoldable pub inner_get_latest_block_number_hash : Tables db → Option BlockNumHash
  inner_get_latest_block_number_hash s = or_else s.latest_block s.earliest_block

  unfoldable pub inner_get_earliest_block_number_hash : Tables db → Option BlockNumHash
  inner_get_earliest_block_number_hash s = s.earliest_block

  unfoldable pub inner_get_proof_window : Tables db → Option ProofWindow
  inner_get_proof_window s = window_of s.earliest_block s.latest_block

  unfoldable pub inner_set_earliest_block_number : Tables db → BlockNumHash → Tables db
  inner_set_earliest_block_number s b = record {
    earliest_block = some b;
    latest_block = s.latest_block;
    history = s.history;
    block_change_set = s.block_change_set;
  }

  unfoldable pub inner_set_latest_block_number : Tables db → BlockNumHash → Tables db
  inner_set_latest_block_number s b = record {
    earliest_block = s.earliest_block;
    latest_block = some b;
    history = s.history;
    block_change_set = s.block_change_set;
  }

  -- `commit_update`: what a transaction leaves, and what it answers
  unfoldable pub commit_update :
      {A : Type 0}
      → Tables db
      → Result StorageError (Tables db × A)
      → Tables db × Result StorageError A
  commit_update s (ok (s', a)) = (s', ok a)
  commit_update s (err e) = (s, err e)
