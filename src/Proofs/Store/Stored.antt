-- ===== src/Proofs/Store/Stored.antt =====
-- What `store_trie_updates_append_only` of crates/proofs/src/db/store.rs adds to the tables.
use morph_reth.Common.{
  ℕ, ◌≤◌, arith, ap, ◌<◌, ◌≡◌, refl, inl, inr, not, some, List, [], ◌∷◌, ◌++◌, ◌==◌, Bool-cases,
  ==_iff, ⊤, Option-cases, All, ok, fail_if, split_ok, subst_ok, map,
}
use morph_reth.ProofsExex.SyncTarget.{BlockWithParent}
use morph_reth.Proofs.Api.{StorageError, out_of_order, WriteCounts}
use morph_reth.Proofs.Tables.{
  TableName, account_trie, storage_trie, hashed_account, hashed_storage, Key, four, Change,
  ChangeSet, Database, IsDatabase,
}
use morph_reth.Proofs.Store.{
  Tables, inner_get_latest_block_number_hash, inner_set_latest_block_number,
}
use morph_reth.Proofs.Store.Write.{
  BlockStateDiff, persist_history_batch, persist_storages, store_trie_updates_for_block,
  record_change_set, store_trie_updates_append_only, trie_nodes, slots, slot_entries, latest_hash,
}
use morph_reth.Proofs.Store.Distinct.{
  IsDiff, keys_of, times, persist_history_batch_keys, account_nodes-count_key, accounts-count_key,
  trie_nodes-Splits, slots-Splits, persist_storages-count_key, slot_entries-IsOnce,
  slot_entries_addresses,
}
use morph_reth.Proofs.Store.Appends.{
  count_key, Appended, persist_history_batch-Appended, persist_storages-Appended,
}

child : (a b : ℕ) (e : StorageError) {u : ⊤} → fail_if (not (a == b)) e ≡ ok u → a ≡ b
child a b e h = elim (Bool-cases (a == b)) [
  | inl same ↦ (==_iff a b).0 same
  | inr other ↦ let failed = rw other at h in cc
]

module _ (db : Database) (laws : IsDatabase db) where
  -- What a block that is stored adds to the tables.
  pub record Stored (s s' : Tables db) (block : BlockWithParent) (diff : BlockStateDiff)
      : Type 0 where
    pub keys : ChangeSet
    pub is_child : latest_hash (inner_get_latest_block_number_hash s) ≡ block.parent
    pub appended :
        (t : TableName) → Appended db laws t block.number (s.history t) (s'.history t) (keys t)
    -- the keys, when the block gives each of its own once
    pub keys_once : IsDiff diff → (t : TableName) (k : Key t) → count_key t k (keys t) ≤ 1
    pub changes :
        db.changes s'.block_change_set
        ≡ db.changes s.block_change_set ++ ((block.number, keys) ∷ [])
    pub changes_before :
        All (λ (row : Change). row.0 < block.number) (db.changes s.block_change_set)
    pub same_earliest : s'.earliest_block ≡ s.earliest_block
    pub is_latest : s'.latest_block ≡ some (block.number, block.hash)

  abbrev AppendedAll : ℕ → BlockStateDiff → Tables db → Tables db × ChangeSet → Type 0
  AppendedAll block diff s w =
      (IsDiff diff → (t : TableName) (k : Key t) → count_key t k (w.1 t) ≤ 1)
      × ((t : TableName) → Appended db laws t block (s.history t) (w.0.history t) (w.1 t))
      × (w.0.earliest_block ≡ s.earliest_block)
      × (w.0.block_change_set ≡ s.block_change_set)

  abbrev Written : TableName → Type 0
  Written t = db.Rows t × List (Key t)

  four_Appended :
      (block : ℕ) (history : (t : TableName) → db.Rows t) (a : Written account_trie)
      (n : Written storage_trie) (h : Written hashed_account) (r : Written hashed_storage)
      (t : TableName)
      → Appended db laws account_trie block (history account_trie) a.0 a.1
      → Appended db laws storage_trie block (history storage_trie) n.0 n.1
      → Appended db laws hashed_account block (history hashed_account) h.0 h.1
      → Appended db laws hashed_storage block (history hashed_storage) r.0 r.1
      → Appended db laws t block
          (history t)
          (four db.Rows a.0 n.0 h.0 r.0 t)
          (four (λ t. List (Key t)) a.1 n.1 h.1 r.1 t)
  four_Appended block history a n h r account_trie p q v w = p
  four_Appended block history a n h r storage_trie p q v w = q
  four_Appended block history a n h r hashed_account p q v w = v
  four_Appended block history a n h r hashed_storage p q v w = w

  abbrev OnceIn : (t : TableName) → List (Key t) → Type 0
  OnceIn t ks = (k : Key t) → count_key t k ks ≤ 1

  four_Once :
      (a : List (Key account_trie)) (n : List (Key storage_trie)) (h : List (Key hashed_account))
      (r : List (Key hashed_storage)) (t : TableName)
      → OnceIn account_trie a
      → OnceIn storage_trie n
      → OnceIn hashed_account h
      → OnceIn hashed_storage r
      → OnceIn t (four (λ t. List (Key t)) a n h r t)
  four_Once a n h r account_trie p q v w = p
  four_Once a n h r storage_trie p q v w = q
  four_Once a n h r hashed_account p q v w = v
  four_Once a n h r hashed_storage p q v w = w

  nodes_once :
      (block : ℕ) (diff : BlockStateDiff) (rows : db.Rows account_trie) (w : Written account_trie)
      → IsDiff diff
      → persist_history_batch db block diff.account_nodes rows ≡ ok w
      → OnceIn account_trie w.1
  nodes_once block diff rows w d run k =
      rw
        (
          persist_history_batch_keys account_trie db block diff.account_nodes rows w run,
          account_nodes-count_key k (keys_of diff.account_nodes),
        )
        (d.nodes_once k)

  accounts_once :
      (block : ℕ) (diff : BlockStateDiff) (rows : db.Rows hashed_account)
      (w : Written hashed_account)
      → IsDiff diff
      → persist_history_batch db block diff.accounts rows ≡ ok w
      → OnceIn hashed_account w.1
  accounts_once block diff rows w d run k =
      rw
        (
          persist_history_batch_keys hashed_account db block diff.accounts rows w run,
          accounts-count_key k (keys_of diff.accounts),
        )
        (d.accounts_once k)

  tries_once :
      (block : ℕ) (diff : BlockStateDiff) (rows : db.Rows storage_trie) (w : Written storage_trie)
      → IsDiff diff
      → persist_storages db trie_nodes block diff.storage_tries rows ≡ ok w
      → OnceIn storage_trie w.1
  tries_once block diff rows w d run k =
      let s = trie_nodes-Splits k in
      let low =
        persist_storages-count_key storage_trie trie_nodes db k s block diff.storage_tries rows w
          d.trie_entries_once run in
      let once = d.tries_once (s.0) in omega (arith, low, once)

  storages_once :
      (block : ℕ) (diff : BlockStateDiff) (rows : db.Rows hashed_storage)
      (w : Written hashed_storage)
      → IsDiff diff
      → persist_storages db slots block (map slot_entries diff.storages) rows ≡ ok w
      → OnceIn hashed_storage w.1
  storages_once block diff rows w d run k =
      let s = slots-Splits k in
      let low =
        persist_storages-count_key hashed_storage slots db k s block
          (map slot_entries diff.storages) rows w
          (slot_entries-IsOnce diff.storages d.slot_entries_once) run in
      let same = ap (times (s.0)) (slot_entries_addresses diff.storages) in
      let once = d.storages_once (s.0) in omega (arith, low, same, once)

  store_trie_updates_for_block-AppendedAll :
      (block : ℕ) (diff : BlockStateDiff) (s : Tables db) (written : Tables db × ChangeSet)
      → store_trie_updates_for_block db block diff s ≡ ok written
      → AppendedAll block diff s written
  unfolding store_trie_updates_for_block
  store_trie_updates_for_block-AppendedAll block diff s written h =
      let (nodes, run_nodes, h1) =
        split_ok (persist_history_batch db block diff.account_nodes (s.history account_trie)) _ h in
      let (accounts, run_accounts, h2) =
        split_ok (persist_history_batch db block diff.accounts (s.history hashed_account)) _ h1 in
      let (tries, run_tries, h3) =
        split_ok (persist_storages db trie_nodes block diff.storage_tries (s.history storage_trie))
          _ h2 in
      let (storages, run_storages, last) =
        split_ok
          (persist_storages db slots block (map slot_entries diff.storages)
            (s.history hashed_storage))
          _ h3 in
      subst_ok (AppendedAll block diff s) last (
        λ d t.
            four_Once nodes.1 tries.1 accounts.1 storages.1 t
              (nodes_once block diff (s.history account_trie) nodes d run_nodes)
              (tries_once block diff (s.history storage_trie) tries d run_tries)
              (accounts_once block diff (s.history hashed_account) accounts d run_accounts)
              (storages_once block diff (s.history hashed_storage) storages d run_storages),
        λ t.
            four_Appended block s.history nodes tries accounts storages t
              (persist_history_batch-Appended db laws account_trie block diff.account_nodes
                (s.history account_trie) nodes run_nodes)
              (persist_storages-Appended db laws storage_trie trie_nodes block diff.storage_tries
                (s.history storage_trie) tries run_tries)
              (persist_history_batch-Appended db laws hashed_account block diff.accounts
                (s.history hashed_account) accounts run_accounts)
              (persist_storages-Appended db laws hashed_storage slots block
                (map slot_entries diff.storages) (s.history hashed_storage) storages run_storages),
        refl,
        refl,
      )

  -- A block that is stored was the child of the latest block, and is recorded in full.
  pub store_trie_updates_append_only-Stored :
      (block : BlockWithParent) (diff : BlockStateDiff) (s : Tables db)
      (stored : Tables db × WriteCounts)
      → store_trie_updates_append_only db block diff s ≡ ok stored
      → Stored s stored.0 block diff
  unfolding store_trie_updates_append_only latest_hash record_change_set
      inner_set_latest_block_number
  store_trie_updates_append_only-Stored block diff s stored h =
      let latest_block_hash = latest_hash (inner_get_latest_block_number_hash s) in
      let (checked, check, h1) =
        split_ok
          (fail_if (not (latest_block_hash == block.parent))
            (out_of_order block.number block.parent latest_block_hash))
          _ h in
      let (written, run, h2) =
        split_ok (store_trie_updates_for_block db block.number diff s) _ h1 in
      let all = store_trie_updates_for_block-AppendedAll block.number diff s written run in
      elim (Option-cases (db.append s.block_change_set block.number written.1)) [
        | inl refused ↦ let failed = rw refused at h2 in cc
        | inr recorded ↦
            subst_ok (λ z. Stored s z.0 block diff) (rw recorded.1 at h2)
              (record {
                keys = written.1;
                is_child =
                    child latest_block_hash block.parent
                      (out_of_order block.number block.parent latest_block_hash) check;
                appended = all.1;
                keys_once = all.0;
                changes =
                    laws.append_changes s.block_change_set recorded.0 block.number written.1
                      recorded.1;
                changes_before =
                    laws.append_above s.block_change_set recorded.0 block.number written.1
                      recorded.1;
                same_earliest = all.2;
                is_latest = refl;
              })
      ]
