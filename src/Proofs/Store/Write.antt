-- ===== src/Proofs/Store/Write.antt =====
-- crates/proofs/src/db/store.rs: the calls that write the history of a block.
use morph_reth.Common.{
  ℕ, Bool, false, Option, none, some, List, [], ◌∷◌, ◌++◌, Result, ok, err, ◌>>=◌, ◌>>◌, fail_if,
  map, ◌==◌, not, if◌then◌else◌, length,
}
use morph_reth.Common.Words.{wrapping_sub}
use morph_reth.ProofsExex.Cache.{put}
use morph_reth.ProofsExex.SyncTarget.{BlockWithParent}
use morph_reth.Proofs.Api.{StorageError, database_error, out_of_order, BlockNumHash, WriteCounts}
use morph_reth.Proofs.Tables.{
  TableName, account_trie, storage_trie, hashed_account, hashed_storage, Key, four, ChangeSet,
  Database,
}
use morph_reth.Proofs.Cursor.{walk_address}
use morph_reth.Proofs.Store.{
  Tables, inner_get_latest_block_number_hash, inner_set_latest_block_number, commit_update,
}

-- The nodes of one hashed address, or its slots: `StorageTrieUpdatesSorted`, `HashedStorageSorted`.
pub record StorageDiff (V : Type 0) : Type 0 where
  pub hashed_address : ℕ
  -- `is_deleted`, or `is_wiped`
  pub is_wiped : Bool
  pub entries : List (ℕ × V)

pub record BlockStateDiff : Type 0 where
  pub account_nodes : List (ℕ × Option ℕ)
  pub storage_tries : List (StorageDiff (Option ℕ))
  pub accounts : List (ℕ × Option ℕ)
  pub storages : List (StorageDiff ℕ)

abbrev pub Step : Type 0 → Type 0
Step A = Result StorageError A

-- The merge of `wipe_and_overlay`: tombstones, then the new entries.
unfoldable pub overlay : List (ℕ × Option ℕ) → List (ℕ × Option ℕ) → List (ℕ × Option ℕ)
overlay merged [] = merged
overlay merged ((k, v) ∷ entries) = overlay (put k v merged) entries

unfoldable pub tombstones : List ℕ → List (ℕ × Option ℕ) → List (ℕ × Option ℕ)
tombstones [] merged = merged
tombstones (k ∷ ks) merged = tombstones ks (put k none merged)

unfoldable pub wiped_entries : List ℕ → List (ℕ × Option ℕ) → List (ℕ × Option ℕ)
unfolding overlay tombstones
wiped_entries live entries = overlay (tombstones live []) entries

-- How a table of storage makes its keys, and which of its values a cursor takes for deleted.
pub record StorageTable (t : TableName) : Type 0 where
  pub key : ℕ → ℕ → Key t
  pub unkey : Key t → ℕ × ℕ
  pub is_deleted : ℕ → Bool

abbrev pub trie_nodes : StorageTable storage_trie
trie_nodes = record { key = λ a. λ k. (a, k); unkey = λ k. k; is_deleted = λ v. false }

abbrev pub slots : StorageTable hashed_storage
slots = record { key = λ a. λ k. (a, k); unkey = λ k. k; is_deleted = λ v. v == 0 }

-- The values of slots are no tombstones.
unfoldable pub slot_entries : StorageDiff ℕ → StorageDiff (Option ℕ)
slot_entries d = record {
  hashed_address = d.hashed_address;
  is_wiped = d.is_wiped;
  entries = map (λ e. (e.0, some e.1)) d.entries;
}

unfoldable pub count_keys : ChangeSet → WriteCounts
count_keys c = record {
  account_trie_updates_written_total = length (c account_trie);
  storage_trie_updates_written_total = length (c storage_trie);
  hashed_accounts_written_total = length (c hashed_account);
  hashed_storages_written_total = length (c hashed_storage);
}

unfoldable pub latest_hash : Option BlockNumHash → ℕ
latest_hash none = 0
latest_hash (some b) = b.1

module _ (db : Database) where
  unfoldable pub appended : {t : TableName} → Option (db.Rows t) → Step (db.Rows t)
  appended none = err database_error
  appended (some rows) = ok rows

  -- The loop `cur.append_dup(..)?`.
  unfoldable pub append_all :
      {t : TableName} → ℕ → List (Key t × Option ℕ) → db.Rows t → Step (db.Rows t)
  unfolding appended
  append_all block_number [] rows = ok rows
  append_all {t = t} block_number ((k, v) ∷ items) rows =
      appended (db.append_dup t rows k (record { block_number = block_number; value = v }))
      >>= append_all block_number items

  -- `persist_history_batch` in append mode, with the keys that it answers
  unfoldable pub persist_history_batch :
      {t : TableName} → ℕ → List (Key t × Option ℕ) → db.Rows t → Step (db.Rows t × List (Key t))
  unfolding append_all
  persist_history_batch block_number items rows = do
    rows' ← append_all block_number items rows
    ok (rows', map (λ i. i.0) items)

  -- The entries that one hashed address gets in a block.
  unfoldable pub entries_to_write :
      {t : TableName}
      → StorageTable t
      → ℕ
      → StorageDiff (Option ℕ)
      → db.Rows t
      → List (ℕ × Option ℕ)
  unfolding wiped_entries walk_address
  entries_to_write {t = t} table block_number diff rows =
      let start = table.key diff.hashed_address 0 in
      let live =
        walk_address db t table.unkey table.is_deleted rows (wrapping_sub 64 block_number 1)
          diff.hashed_address (db.keys_from t rows start) in
      if diff.is_wiped then wiped_entries live diff.entries else diff.entries

  -- The loop on the hashed addresses of a block.
  unfoldable pub persist_storages :
      {t : TableName}
      → StorageTable t
      → ℕ
      → List (StorageDiff (Option ℕ))
      → db.Rows t
      → Step (db.Rows t × List (Key t))
  unfolding persist_history_batch entries_to_write
  persist_storages table block_number [] rows = ok (rows, [])
  persist_storages {t = t} table block_number (diff ∷ diffs) rows = do
    written ←
        persist_history_batch block_number
          (map (λ e. (table.key diff.hashed_address e.0, e.1))
            (entries_to_write table block_number diff rows))
          rows
    rest ← persist_storages table block_number diffs written.0
    ok (rest.0, written.1 ++ rest.1)

  -- `store_trie_updates_for_block` in append mode
  unfoldable pub store_trie_updates_for_block :
      ℕ → BlockStateDiff → Tables db → Step (Tables db × ChangeSet)
  unfolding persist_history_batch persist_storages slot_entries
  store_trie_updates_for_block block_number diff s = do
    account_nodes ← persist_history_batch block_number diff.account_nodes (s.history account_trie)
    accounts ← persist_history_batch block_number diff.accounts (s.history hashed_account)
    nodes ← persist_storages trie_nodes block_number diff.storage_tries (s.history storage_trie)
    storages ←
        persist_storages slots block_number (map slot_entries diff.storages)
          (s.history hashed_storage)
    ok (
      record {
        earliest_block = s.earliest_block;
        latest_block = s.latest_block;
        history = four db.Rows account_nodes.0 nodes.0 accounts.0 storages.0;
        block_change_set = s.block_change_set;
      },
      four (λ t. List (Key t)) account_nodes.1 nodes.1 accounts.1 storages.1,
    )

  -- `change_set_cursor.append(block_number, change_set)?`
  unfoldable pub record_change_set :
      ℕ → ChangeSet → Tables db → Option db.ChangeSets → Step (Tables db)
  record_change_set block_number c s none = err database_error
  record_change_set block_number c s (some change_sets) = ok (record {
    earliest_block = s.earliest_block;
    latest_block = s.latest_block;
    history = s.history;
    block_change_set = change_sets;
  })

  unfoldable pub store_trie_updates_append_only :
      BlockWithParent → BlockStateDiff → Tables db → Step (Tables db × WriteCounts)
  unfolding store_trie_updates_for_block record_change_set latest_hash
      inner_get_latest_block_number_hash inner_set_latest_block_number count_keys
  store_trie_updates_append_only block_ref diff s =
      let latest_block_hash = latest_hash (inner_get_latest_block_number_hash s) in
      do
        fail_if (not (latest_block_hash == block_ref.parent))
            (out_of_order block_ref.number block_ref.parent latest_block_hash)
        written ← store_trie_updates_for_block block_ref.number diff s
        recorded ←
            record_change_set block_ref.number written.1 written.0
              (db.append s.block_change_set block_ref.number written.1)
        ok (
          inner_set_latest_block_number recorded (block_ref.number, block_ref.hash),
          count_keys written.1,
        )

  unfoldable pub store_trie_updates :
      BlockWithParent → BlockStateDiff → Tables db → Tables db × Step WriteCounts
  unfolding store_trie_updates_append_only commit_update
  store_trie_updates block_ref diff s =
      commit_update s (store_trie_updates_append_only block_ref diff s)
