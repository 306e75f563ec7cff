-- ===== src/Proofs/Tests.antt =====
-- Concrete stores and runs of the code under crates/proofs.
use morph_reth.Common.{
  ℕ, ◌==◌, ◌≡◌, refl, ◌∙◌, ap, subst, ◌*◌, Option, none, some, List, [], ◌∷◌, All, Bool, Result, ok,
  is_err, is_some, true, false, arith,
}
use morph_reth.ProofsExex.SyncTarget.{BlockWithParent}
use morph_reth.Proofs.Api.{StorageError, BlockNumHash, WriteCounts}
use morph_reth.Proofs.Tables.{
  TableName, account_trie, storage_trie, hashed_account, hashed_storage, Key, same_key, has_change,
  four, VersionedValue,
}
use morph_reth.Proofs.Cursor.{latest_version_for_key}
use morph_reth.Proofs.MemoryDatabase.{memory_db, memory_db-IsDatabase}
use morph_reth.Proofs.Store.{
  Tables, inner_get_earliest_block_number_hash, inner_get_latest_block_number_hash,
}
use morph_reth.Proofs.Store.Write.{BlockStateDiff, store_trie_updates}
use morph_reth.Proofs.Store.Delete.{
  collect_history, prune_earliest_state, unwind_history, mdbx_store,
}
use morph_reth.Proofs.Store.Reads.{latest_version_for_key_lem, latest_at, AscendingFrom}
use morph_reth.Proofs.Store.Rows.{IsSorted}
use morph_reth.Proofs.Store.Listed.{AllListed, IsStore}
use morph_reth.Proofs.Store.Unwind.{Unwound, unwind_history-Unwound}
use morph_reth.Proofs.Store.Prune.{
  PrunedTo, prune_earliest_state-PrunedTo, mdbx_store-MovesEarliest,
}
use morph_reth.Proofs.Store.Extended.{Extended, store_trie_updates-Extended}
use morph_reth.Proofs.Store.ReadBack.{ReadsEntries, store_trie_updates-ReadsEntries}
use morph_reth.Proofs.Store.RoundTrip.{SameTables, unwind_history-store_trie_updates}
use morph_reth.Proofs.Store.Delete.{sort_by_number, replace_updates}
use morph_reth.Proofs.Store.Distinct.{IsDiff}
use morph_reth.Proofs.Store.Replace.{Replaced, replace_updates-Replaced}
use morph_reth.Proofs.Pruner.{Pruner, target_earliest_block, run_inner}
use morph_reth.Common.Words.{IsU64}
use morph_reth.Proofs.Pruner.Run.{run_inner-is_some}
use morph_reth.Proofs.Pruner.Window.{Window, Pruned, MovesEarliest, run_inner-Pruned}

abbrev version : ℕ → Option ℕ → VersionedValue
version b v = record { block_number = b; value = v }

-- Block 7 is the earliest; blocks 8 and 9 write the account 4, and block 9 deletes the node 5.
abbrev account_rows : ℕ → List VersionedValue
account_rows k = elim (k == 4) [ true ↦ version 0 (some 1) ∷ [] | false ↦ [] ]

abbrev node_rows : ℕ → List VersionedValue
node_rows k = elim (k == 5) [ true ↦ version 0 (some 6) ∷ [] | false ↦ [] ]

abbrev initial : Tables memory_db
initial = record {
  earliest_block = some (7, 70);
  latest_block = none;
  history = four (λ t. Key t → List VersionedValue) node_rows (λ k. []) account_rows (λ k. []);
  block_change_set = [];
}

one_row-AscendingFrom :
    (b : Bool) (v : ℕ)
    → AscendingFrom 0
        (elim b as (λ _. List VersionedValue) [ true ↦ version 0 (some v) ∷ [] | false ↦ [] ])
one_row-AscendingFrom true v = (omega arith, tt)
one_row-AscendingFrom false v = tt

initial-IsSorted : (t : TableName) → IsSorted memory_db t (initial.history t)
initial-IsSorted account_trie k = one_row-AscendingFrom (k == 5) 6
initial-IsSorted storage_trie k = tt
initial-IsSorted hashed_account k = one_row-AscendingFrom (k == 4) 1
initial-IsSorted hashed_storage k = tt

one_row-All :
    (b : Bool) (v e : ℕ) (P : VersionedValue → Type 0)
    → P (version 0 (some v))
    → All P (elim b as (λ _. List VersionedValue) [ true ↦ version 0 (some v) ∷ [] | false ↦ [] ])
one_row-All true v e P p = (p, tt)
one_row-All false v e P p = tt

initial-listed :
    (e : ℕ) (t : TableName) (k : Key t)
    → AllListed t k e [] (memory_db.versions t (initial.history t) k)
initial-listed e account_trie k = one_row-All (k == 5) 6 e _ (λ h. ground arith)
initial-listed e storage_trie k = tt
initial-listed e hashed_account k = one_row-All (k == 4) 1 e _ (λ h. ground arith)
initial-listed e hashed_storage k = tt

initial-IsStore : IsStore memory_db initial
unfolding collect_history
initial-IsStore = record {
  sorted = initial-IsSorted;
  all_listed = λ e. λ he. initial-listed e.0;
  has_listed = λ t. λ k. λ b. λ h. cc;
  after_earliest = λ e. λ he. tt;
}

abbrev block_8 : BlockWithParent
block_8 = record { parent = 70; number = 8; hash = 80 }

abbrev block_9 : BlockWithParent
block_9 = record { parent = 80; number = 9; hash = 90 }

abbrev diff_8 : BlockStateDiff
diff_8 = record {
  account_nodes = [];
  storage_tries = [];
  accounts = (4, some 2) ∷ [];
  storages = [];
}

abbrev diff_9 : BlockStateDiff
diff_9 = record {
  account_nodes = (5, none) ∷ [];
  storage_tries = [];
  accounts = (4, some 3) ∷ [];
  storages = [];
}

abbrev counts : ℕ → ℕ → WriteCounts
counts nodes accounts = record {
  account_trie_updates_written_total = nodes;
  storage_trie_updates_written_total = 0;
  hashed_accounts_written_total = accounts;
  hashed_storages_written_total = 0;
}

diff_8-IsDiff : IsDiff diff_8
diff_8-IsDiff = record {
  nodes_once = λ n. omega arith;
  accounts_once = λ n. ground arith;
  tries_once = λ n. omega arith;
  storages_once = λ n. omega arith;
  trie_entries_once = tt;
  slot_entries_once = tt;
}

diff_9-IsDiff : IsDiff diff_9
diff_9-IsDiff = record {
  nodes_once = λ n. ground arith;
  accounts_once = λ n. ground arith;
  tries_once = λ n. omega arith;
  storages_once = λ n. omega arith;
  trie_entries_once = tt;
  slot_entries_once = tt;
}

-- The tables after the two blocks.
unfoldable tables_8 : Tables memory_db
unfolding store_trie_updates
tables_8 = (store_trie_updates memory_db block_8 diff_8 initial).0

unfoldable tables_9 : Tables memory_db
unfolding store_trie_updates
tables_9 = (store_trie_updates memory_db block_9 diff_9 tables_8).0

stored_8 : store_trie_updates memory_db block_8 diff_8 initial ≡ (tables_8, ok (counts 0 1))
unfolding store_trie_updates tables_8
stored_8 = refl

stored_9 : store_trie_updates memory_db block_9 diff_9 tables_8 ≡ (tables_9, ok (counts 1 1))
unfolding store_trie_updates tables_8 tables_9 same_key
stored_9 = refl

store_trie_updates-Extended_example :
    Extended memory_db memory_db-IsDatabase initial tables_8 block_8
store_trie_updates-Extended_example =
    store_trie_updates-Extended memory_db memory_db-IsDatabase initial tables_8 (7, 70) block_8
      diff_8 (counts 0 1) initial-IsStore refl (omega arith) diff_8-IsDiff stored_8

tables_8-Extended : Extended memory_db memory_db-IsDatabase initial tables_8 block_8
tables_8-Extended =
    store_trie_updates-Extended memory_db memory_db-IsDatabase initial tables_8 (7, 70) block_8
      diff_8 (counts 0 1) initial-IsStore refl (omega arith) diff_8-IsDiff stored_8

tables_9-Extended : Extended memory_db memory_db-IsDatabase tables_8 tables_9 block_9
tables_9-Extended =
    store_trie_updates-Extended memory_db memory_db-IsDatabase tables_8 tables_9 (7, 70) block_9
      diff_9 (counts 1 1) tables_8-Extended.is_store tables_8-Extended.same_earliest (omega arith)
      diff_9-IsDiff stored_9

tables_9-earliest : tables_9.earliest_block ≡ some (7, 70)
tables_9-earliest = tables_9-Extended.same_earliest ∙ tables_8-Extended.same_earliest

tables_9-latest : inner_get_latest_block_number_hash tables_9 ≡ some (9, 90)
unfolding tables_9 tables_8 store_trie_updates inner_get_latest_block_number_hash same_key
tables_9-latest = refl

tables_8-latest : inner_get_latest_block_number_hash tables_8 ≡ some (8, 80)
unfolding tables_8 store_trie_updates inner_get_latest_block_number_hash
tables_8-latest = refl

tables_9-has_change : has_change 8 (memory_db.changes tables_9.block_change_set) ≡ true
unfolding tables_9 tables_8 store_trie_updates same_key
tables_9-has_change = refl

unwind_history-Unwound_example :
    ((unwind_history memory_db tables_9 block_9).1 ≡ ok tt)
    × Unwound memory_db memory_db-IsDatabase tables_9
        (unwind_history memory_db tables_9 block_9).0
        block_9
unwind_history-Unwound_example =
    unwind_history-Unwound memory_db memory_db-IsDatabase tables_9 (7, 70) (9, 90) block_9
      tables_9-Extended.is_store tables_9-earliest tables_9-latest (omega arith) (omega arith)

prune_earliest_state-PrunedTo_example :
    (is_err (prune_earliest_state memory_db tables_9 block_8).1 ≡ false)
    × PrunedTo memory_db memory_db-IsDatabase tables_9
        (prune_earliest_state memory_db tables_9 block_8).0
        block_8
prune_earliest_state-PrunedTo_example =
    prune_earliest_state-PrunedTo memory_db memory_db-IsDatabase tables_9 (7, 70) (9, 90) block_8
      tables_9-Extended.is_store tables_9-earliest tables_9-latest (omega arith) (omega arith)
      tables_9-has_change

unwind_history-store_trie_updates_example :
    ((unwind_history memory_db tables_9 block_9).1 ≡ ok tt)
    × SameTables memory_db memory_db-IsDatabase tables_8
        (unwind_history memory_db tables_9 block_9).0
unwind_history-store_trie_updates_example =
    unwind_history-store_trie_updates memory_db memory_db-IsDatabase tables_8 tables_9 (7, 70)
      (8, 80) block_9 diff_9 (counts 1 1) tables_8-Extended.is_store tables_8-Extended.same_earliest
      tables_8-latest (omega arith) refl stored_9

mdbx_store-MovesEarliest_example : MovesEarliest (mdbx_store memory_db)
mdbx_store-MovesEarliest_example = mdbx_store-MovesEarliest memory_db memory_db-IsDatabase

abbrev hash_of : ℕ → Result ℕ (Option ℕ)
hash_of n = ok (some (n * 10))

abbrev pruner : Pruner
pruner = record { retention_blocks = 0; prune_batch_size = 1 }

tables_9-Window : Window (mdbx_store memory_db) tables_9 (7, 70) (9, 90)
unfolding inner_get_earliest_block_number_hash
tables_9-Window = record {
  is_earliest = ap ok tables_9-earliest;
  is_latest = ap ok tables_9-latest;
}

run_inner-Pruned_example :
    Pruned
      (mdbx_store memory_db)
      hash_of
      pruner
      (7, 70)
      (9, 90)
      (target_earliest_block pruner 9)
      (run_inner (mdbx_store memory_db) hash_of pruner tables_9)
run_inner-Pruned_example =
    run_inner-Pruned (mdbx_store memory_db) hash_of pruner
      (mdbx_store-MovesEarliest memory_db memory_db-IsDatabase) tables_9 (7, 70) (9, 90)
      tables_9-Window (omega arith) (omega arith)

latest_IsU64 :
    (b : BlockNumHash)
    → ◌≡◌ {A = Result StorageError (Option BlockNumHash)}
        (ok (inner_get_latest_block_number_hash tables_9))
        (ok (some b))
    → IsU64 b.0
latest_IsU64 b h =
    let same : (9, 90) ≡ b = let latest = tables_9-latest in cc in
    subst (λ z. IsU64 z.0) same (omega arith)

run_inner-is_some_example :
    is_some (run_inner (mdbx_store memory_db) hash_of pruner tables_9).1 ≡ true
run_inner-is_some_example =
    run_inner-is_some (mdbx_store memory_db) hash_of pruner tables_9 (omega arith)
      (λ b. λ h. latest_IsU64 b (h))

latest_version_for_key_lem_example :
    latest_version_for_key (version 0 (some 1) ∷ version 8 (some 2) ∷ []) 7
    ≡ latest_at 7 (version 0 (some 1) ∷ version 8 (some 2) ∷ [])
latest_version_for_key_lem_example =
    latest_version_for_key_lem 0 7 (version 0 (some 1) ∷ version 8 (some 2) ∷ [])
      (omega arith, (omega arith, tt))

-- Another block 9 in place of the first.
abbrev other_9 : BlockWithParent
other_9 = record { parent = 80; number = 9; hash = 91 }

unfoldable replaced : Tables memory_db
unfolding replace_updates tables_9
replaced = (replace_updates memory_db tables_9 (8, 80) ((other_9, diff_8) ∷ [])).0

replaced_by :
    replace_updates memory_db tables_9 (8, 80) ((other_9, diff_8) ∷ []) ≡ (replaced, ok tt)
unfolding replaced replace_updates tables_9 tables_8 store_trie_updates same_key
replaced_by = refl

replace_updates-Replaced_example :
    Replaced memory_db memory_db-IsDatabase
      (8, 80)
      (sort_by_number ((other_9, diff_8) ∷ []))
      tables_9
      replaced
replace_updates-Replaced_example =
    replace_updates-Replaced memory_db memory_db-IsDatabase tables_9 replaced (7, 70) (8, 80)
      ((other_9, diff_8) ∷ []) tables_9-Extended.is_store tables_9-earliest (omega arith)
      ((omega arith, diff_8-IsDiff), tt) replaced_by

store_trie_updates-ReadsEntries_example :
    ReadsEntries memory_db memory_db-IsDatabase account_trie 12 diff_9.account_nodes tables_8
      tables_9
    × ReadsEntries memory_db memory_db-IsDatabase hashed_account 12 diff_9.accounts tables_8
        tables_9
store_trie_updates-ReadsEntries_example =
    store_trie_updates-ReadsEntries memory_db memory_db-IsDatabase tables_8 tables_9 (7, 70) block_9
      diff_9 (counts 1 1) 12 tables_8-Extended.is_store tables_8-Extended.same_earliest
      (omega arith) diff_9-IsDiff stored_9 (omega arith)
