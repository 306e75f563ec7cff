-- ===== src/Proofs/Store/Delete.antt =====
-- crates/proofs/src/db/store.rs: the calls that delete history, and those that move the window by them.
use morph_reth.Common.{
  ℕ, suc, ◌+◌, ◌-◌, Bool, ◌&&◌, Option, none, some, List, [], ◌∷◌, ◌++◌, ok, err, ◌>>=◌, map, leb,
  ltb, ◌==◌, not, if◌then◌else◌, is_some, ⊤,
}
use morph_reth.ProofsExex.SyncTarget.{BlockWithParent}
use morph_reth.Proofs.Api.{
  prune_beyond_latest, unwind_beyond_earliest, BlockNumHash, WriteCounts, ProofsStore,
}
use morph_reth.Proofs.Tables.{
  TableName, account_trie, storage_trie, hashed_account, hashed_storage, Key, same_key,
  VersionedValue, Change, Database,
}
use morph_reth.Proofs.Cursor.{seek_by_key_subkey}
use morph_reth.Proofs.Store.{
  ProofWindow, Tables, inner_get_latest_block_number_hash, inner_get_earliest_block_number_hash,
  inner_get_proof_window, inner_set_earliest_block_number, inner_set_latest_block_number,
  commit_update,
}
use morph_reth.Proofs.Store.Write.{Step, BlockStateDiff, store_trie_updates_append_only}

-- `entry(k).or_insert(block_number)` for each of the keys; the new entries go to the end.
unfoldable pub or_insert : (t : TableName) → Key t → ℕ → List (Key t × ℕ) → List (Key t × ℕ)
or_insert t k b [] = (k, b) ∷ []
or_insert t k b ((k', b') ∷ candidates) =
    let rest = or_insert t k b candidates in
    if same_key t k k' then (k', b') ∷ candidates else (k', b') ∷ rest

unfoldable pub or_insert_all :
    (t : TableName) → List (Key t) → ℕ → List (Key t × ℕ) → List (Key t × ℕ)
unfolding or_insert
or_insert_all t [] b candidates = candidates
or_insert_all t (k ∷ ks) b candidates = or_insert_all t ks b (or_insert t k b candidates)

-- The walk back of `calculate_prune_plan` for one table: it ends at the earliest block.
unfoldable pub candidates_of :
    (t : TableName) → ℕ → List Change → List (Key t × ℕ) → List (Key t × ℕ)
unfolding or_insert_all
candidates_of t earliest [] candidates = candidates
candidates_of t earliest ((b, change_set) ∷ rows) candidates =
    let rest = candidates_of t earliest rows (or_insert_all t (change_set t) b candidates) in
    if leb b earliest then candidates else rest

pub record PrunePlan : Type 0 where
  pub earliest_block : ℕ
  pub survivors : (t : TableName) → List (Key t × ℕ)

-- The blocks of `range` in the change sets, with an end that is left out when it is unbounded.
unfoldable pub in_range : ℕ → Option ℕ → ℕ → Bool
in_range from none b = leb from b
in_range from (some to) b = leb from b && leb b to

unfoldable pub walk_range : ℕ → Option ℕ → List Change → List Change
unfolding in_range
walk_range from to [] = []
walk_range from to (row ∷ rows) =
    let rest = walk_range from to rows in if in_range from to row.0 then row ∷ rest else rest

-- `collect_history_ranged` for one table, on the rows of the range
unfoldable pub collect_history : (t : TableName) → List Change → List (Key t × ℕ)
collect_history t [] = []
collect_history t ((b, change_set) ∷ rows) =
    map (λ k. (k, b)) (change_set t) ++ collect_history t rows

-- `sort_unstable_by_key` on the numbers of the blocks
unfoldable pub insert_by_number :
    BlockWithParent × BlockStateDiff
    → List (BlockWithParent × BlockStateDiff)
    → List (BlockWithParent × BlockStateDiff)
insert_by_number b [] = b ∷ []
insert_by_number b (c ∷ cs) =
    let rest = insert_by_number b cs in if leb b.0.number c.0.number then b ∷ c ∷ cs else c ∷ rest

unfoldable pub sort_by_number :
    List (BlockWithParent × BlockStateDiff) → List (BlockWithParent × BlockStateDiff)
unfolding insert_by_number
sort_by_number [] = []
sort_by_number (b ∷ bs) = insert_by_number b (sort_by_number bs)

module _ (db : Database) where
  unfoldable pub calculate_prune_plan : Tables db → ℕ → Option ProofWindow → Step (Option PrunePlan)
  unfolding candidates_of
  calculate_prune_plan s target_block none = ok none
  calculate_prune_plan s target_block (some window) =
      if ltb window.latest.0 target_block
      then err (prune_beyond_latest target_block window.latest.0)
      else if leb target_block window.earliest.0
      then ok none
      else ok (
          some (record {
            earliest_block = window.earliest.0;
            survivors = λ t.
                candidates_of t window.earliest.0 (db.walk_back s.block_change_set target_block) [];
          }))

  abbrev pub Deleted : TableName → Type 0
  Deleted t = db.Rows t × ℕ

  abbrev pub counted : {t : TableName} → Deleted t → Deleted t
  counted (rows, n) = (rows, suc n)

  -- The loop on the versions of one key, up to the survivor.
  unfoldable pub prune_key :
      (t : TableName) → Key t → ℕ → List VersionedValue → db.Rows t → Deleted t
  prune_key t k survivor [] rows = (rows, 0)
  prune_key t k survivor (v ∷ vs) rows =
      let deleted = db.delete_row t rows k v.block_number in
      let older = counted (prune_key t k survivor vs deleted) in
      if leb survivor v.block_number
      then (if v.block_number == survivor && not (is_some v.value) then (deleted, 1) else (rows, 0))
      else older

  unfoldable pub prune_history_preceding :
      (t : TableName) → List (Key t × ℕ) → db.Rows t → Deleted t
  unfolding prune_key
  prune_history_preceding t [] rows = (rows, 0)
  prune_history_preceding t ((k, survivor) ∷ items) rows =
      let one = prune_key t k survivor (db.versions t rows k) rows in
      let rest = prune_history_preceding t items one.0 in (rest.0, one.1 + rest.1)

  -- The row that a seek found, if it is the row of the block.
  unfoldable pub delete_found :
      (t : TableName) → Key t → ℕ → Option VersionedValue → db.Rows t → db.Rows t
  delete_found t k b none rows = rows
  delete_found t k b (some v) rows = if v.block_number == b then db.delete_row t rows k b else rows

  unfoldable pub delete_dup_sorted : (t : TableName) → List (Key t × ℕ) → db.Rows t → db.Rows t
  unfolding delete_found
  delete_dup_sorted t [] rows = rows
  delete_dup_sorted t ((k, b) ∷ items) rows =
      delete_dup_sorted t items
        (delete_found t k b (seek_by_key_subkey (db.versions t rows k) b) rows)

  -- `while let Some(row) = walker.next() { walker.delete_current()?; }`
  unfoldable pub delete_changes : List Change → db.ChangeSets → db.ChangeSets
  delete_changes [] change_sets = change_sets
  delete_changes (row ∷ rows) change_sets = delete_changes rows (db.delete_change change_sets row.0)

  -- `collect_history_ranged` and `delete_history_ranged` over `from..`
  unfoldable pub delete_history_from : ℕ → Tables db → Tables db
  unfolding walk_range collect_history delete_dup_sorted delete_changes
  delete_history_from from s =
      let rows = walk_range from none (db.changes s.block_change_set) in
      record {
        earliest_block = s.earliest_block;
        latest_block = s.latest_block;
        history = λ t. delete_dup_sorted t (collect_history t rows) (s.history t);
        block_change_set = delete_changes rows s.block_change_set;
      }

  -- The transaction of `prune_earliest_state` with its plan made.
  unfoldable pub apply_prune_plan :
      BlockWithParent → Tables db → Option PrunePlan → Step (Tables db × WriteCounts)
  unfolding prune_history_preceding delete_changes walk_range inner_set_earliest_block_number
  apply_prune_plan block s none = ok (
    s,
    record {
      account_trie_updates_written_total = 0;
      storage_trie_updates_written_total = 0;
      hashed_accounts_written_total = 0;
      hashed_storages_written_total = 0;
    },
  )
  apply_prune_plan block s (some plan) =
      let deleted : (t : TableName) → Deleted t =
        λ t. prune_history_preceding t (plan.survivors t) (s.history t) in
      let rows =
        walk_range (plan.earliest_block + 1) (some block.number) (db.changes s.block_change_set) in
      let left : Tables db = record {
        earliest_block = s.earliest_block;
        latest_block = s.latest_block;
        history = λ t. (deleted t).0;
        block_change_set = delete_changes rows s.block_change_set;
      } in
      ok (
        inner_set_earliest_block_number left (block.number, block.hash),
        record {
          account_trie_updates_written_total = (deleted account_trie).1;
          storage_trie_updates_written_total = (deleted storage_trie).1;
          hashed_accounts_written_total = (deleted hashed_account).1;
          hashed_storages_written_total = (deleted hashed_storage).1;
        },
      )

  unfoldable pub prune_earliest_state : Tables db → BlockWithParent → Tables db × Step WriteCounts
  unfolding calculate_prune_plan apply_prune_plan inner_get_proof_window commit_update
  prune_earliest_state s block =
      commit_update s (
        calculate_prune_plan s block.number (inner_get_proof_window s) >>= apply_prune_plan block s)

  -- The transaction of `unwind_history` with the window read.
  unfoldable pub unwind_from :
      BlockWithParent → Tables db → Option ProofWindow → Step (Tables db × ⊤)
  unfolding delete_history_from inner_set_latest_block_number
  unwind_from to s none = ok (s, tt)
  unwind_from to s (some window) =
      if ltb window.latest.0 to.number
      then ok (s, tt)
      else if leb to.number window.earliest.0
      then err (unwind_beyond_earliest to.number window.earliest.0)
      else ok (
        inner_set_latest_block_number (delete_history_from to.number s) (to.number - 1, to.parent),
        tt,
      )

  unfoldable pub unwind_history : Tables db → BlockWithParent → Tables db × Step ⊤
  unfolding unwind_from inner_get_proof_window commit_update
  unwind_history s to = commit_update s (unwind_from to s (inner_get_proof_window s))

  unfoldable pub store_all : List (BlockWithParent × BlockStateDiff) → Tables db → Step (Tables db)
  unfolding store_trie_updates_append_only
  store_all [] s = ok s
  store_all ((block, diff) ∷ blocks) s = do
    stored ← store_trie_updates_append_only db block diff s
    store_all blocks stored.0

  unfoldable pub replace_updates :
      Tables db → BlockNumHash → List (BlockWithParent × BlockStateDiff) → Tables db × Step ⊤
  unfolding sort_by_number delete_history_from inner_set_latest_block_number store_all commit_update
  replace_updates s common blocks = commit_update s (do
    stored ←
        store_all (sort_by_number blocks)
          (inner_set_latest_block_number (delete_history_from (common.0 + 1) s) common)
    ok (stored, tt))

  -- The store as the pruner and the sync loop see it.
  abbrev pub mdbx_store : ProofsStore
  mdbx_store = record {
    State = Tables db;
    get_earliest_block_number = λ s. ok (inner_get_earliest_block_number_hash s);
    get_latest_block_number = λ s. ok (inner_get_latest_block_number_hash s);
    prune_earliest_state = prune_earliest_state;
    unwind_history = unwind_history;
  }
