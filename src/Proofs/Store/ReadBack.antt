-- ===== src/Proofs/Store/ReadBack.antt =====
-- What is read after `store_trie_updates` of crates/proofs/src/db/store.rs of the accounts and the account
-- nodes of the block.
use morph_reth.Common.{
  ℕ, ◌≤◌, ◌<◌, ◌≡◌, refl, sym, ap, subst, ◌∙◌, inl, inr, true, not, Option, none, some, List, [],
  ◌∷◌, ◌++◌, map, ◌==◌, leb, if◌then◌else◌, Bool-cases, Option-cases, arith, ok, fail_if, split_ok,
  subst_ok,
}
use morph_reth.ProofsExex.SyncTarget.{BlockWithParent}
use morph_reth.Proofs.Api.{out_of_order, BlockNumHash, WriteCounts}
use morph_reth.Proofs.Tables.{
  TableName, account_trie, storage_trie, hashed_account, hashed_storage, Key, same_key,
  VersionedValue, ChangeSet, Database, IsDatabase,
}
use morph_reth.Proofs.Cursor.{live_value, seek_exact}
use morph_reth.Proofs.Store.{
  Tables, inner_get_latest_block_number_hash, inner_set_latest_block_number,
}
use morph_reth.Proofs.Store.Write.{
  BlockStateDiff, appended, append_all, persist_history_batch, persist_storages,
  store_trie_updates_for_block, record_change_set, latest_hash, store_trie_updates_append_only,
  store_trie_updates, trie_nodes, slots, slot_entries,
}
use morph_reth.Proofs.Store.Reads.{latest_at, latest_at-append}
use morph_reth.Proofs.Store.Rows.{same_key_iff}
use morph_reth.Proofs.Store.Listed.{IsStore}
use morph_reth.Proofs.Store.Unwind.{seek_exact-latest_at}
use morph_reth.Proofs.Store.Distinct.{IsDiff, keys_of, account_nodes-count_key, accounts-count_key}
use morph_reth.Proofs.Store.Appends.{count_key, GrownBy, append-nil, append_all-Appended}
use morph_reth.Proofs.Store.Extended.{committed, store_trie_updates-Extended}

-- The first entry of a key in what a block writes.
abbrev pub entry_of : (t : TableName) → Key t → List (Key t × Option ℕ) → Option (Option ℕ)
entry_of t k [] = none
entry_of t k ((k', v) ∷ items) = if same_key t k k' then some v else entry_of t k items

-- The last version of a key is the one of the block, with a value.
abbrev pub EndsWith : ℕ → Option ℕ → List VersionedValue → Type 0
EndsWith block value vs =
    (us : List VersionedValue) × (vs ≡ us ++ (record { block_number = block; value = value } ∷ []))

EndsWith-latest_at :
    (n block : ℕ) (value : Option ℕ) (vs : List VersionedValue)
    → block ≤ n
    → EndsWith block value vs
    → live_value (latest_at n vs) ≡ value
EndsWith-latest_at n block value vs h (us, e) =
    let here : leb block n ≡ true = ground arith in
    rw (e, latest_at-append n (record { block_number = block; value = value }) us, here)

GrownBy-zero : (block : ℕ) (vs ws : List VersionedValue) → GrownBy block vs ws 0 → ws ≡ vs
GrownBy-zero block vs ws ([], e, l, a) = e ∙ append-nil vs
GrownBy-zero block vs ws (u ∷ us, e, l, a) = absurd (omega (arith, l))

-- What a block writes of a key, or else what was there.
abbrev pub written_or : Option (Option ℕ) → Option ℕ → Option ℕ
written_or none before = before
written_or (some value) before = value

-- The versions of a key before and after a block with that entry of the key, if it has one.
abbrev pub Entry : ℕ → Option (Option ℕ) → List VersionedValue → List VersionedValue → Type 0
Entry block none vs ws = ws ≡ vs
Entry block (some value) vs ws = EndsWith block value ws

Entry-latest_at :
    (n block : ℕ) (entry : Option (Option ℕ)) (vs ws : List VersionedValue)
    → block ≤ n
    → Entry block entry vs ws
    → live_value (latest_at n ws) ≡ written_or entry (live_value (latest_at n vs))
Entry-latest_at n block none vs ws h e = ap (λ z. live_value (latest_at n z)) e
Entry-latest_at n block (some value) vs ws h e = EndsWith-latest_at n block value ws h e

entry_of-count_key :
    (t : TableName) (k : Key t) (items : List (Key t × Option ℕ))
    → entry_of t k items ≡ none
    → count_key t k (map (λ i. i.0) items) ≡ 0
entry_of-count_key t k [] none_found = refl
entry_of-count_key t k ((k', v) ∷ items) none_found = elim (Bool-cases (same_key t k k')) [
  | inl same ↦ let found = rw same at none_found in cc
  | inr differ ↦ rw (differ, entry_of-count_key t k items (rw differ at none_found)) (omega arith)
]

module _ (db : Database) (laws : IsDatabase db) where
  append_all-EndsWith :
      (t : TableName) (block : ℕ) (items : List (Key t × Option ℕ)) (rows rows' : db.Rows t)
      (k : Key t) (value : Option ℕ)
      → count_key t k (map (λ i. i.0) items) ≤ 1
      → entry_of t k items ≡ some value
      → append_all db block items rows ≡ ok rows'
      → EndsWith block value (db.versions t rows' k)
  unfolding append_all appended
  append_all-EndsWith t block [] rows rows' k value once found h = cc
  append_all-EndsWith t block ((k', v) ∷ items) rows rows' k value once found h =
      elim (Option-cases (db.append_dup t rows k' (record { block_number = block; value = v }))) [
        | inl refused ↦ let failed = rw refused at h in cc
        | inr row ↦
            let r = row.0 in
            let rest = rw row.1 at h in
            elim (Bool-cases (same_key t k k')) [
              | inr differ ↦
                  append_all-EndsWith t block items r rows' k value
                    (let tail = rw differ at once in omega (arith, tail)) (rw differ at found) rest
              | inl same ↦
                  let is_key : k ≡ k' = (same_key_iff t k k').0 same in
                  let this : v ≡ value = let f = rw same at found in cc in
                  let first : EndsWith block v (db.versions t r k) = (
                    db.versions t rows k,
                    subst
                        (λ z.
                          db.versions t r z
                          ≡ db.versions t rows z
                            ++ (record { block_number = block; value = v } ∷ []))
                        (sym is_key) (laws.append_dup_key t rows r k' _ row.1),
                  ) in
                  let none_left : count_key t k (map (λ i. i.0) items) ≡ 0 =
                    let all = rw same at once in omega (arith, all) in
                  let stays = GrownBy-zero block (db.versions t r k) (db.versions t rows' k) (
                    subst (GrownBy block (db.versions t r k) (db.versions t rows' k)) none_left
                      (append_all-Appended db laws t block items r rows' rest k)) in
                  subst (EndsWith block value) (sym stays)
                    (subst (λ z. EndsWith block z (db.versions t r k)) this first)
            ]
      ]

  -- What the entries of a block make of the versions of each key.
  abbrev pub Entries :
      (t : TableName) → ℕ → List (Key t × Option ℕ) → db.Rows t → db.Rows t → Type 0
  Entries t block items rows rows' =
      (k : Key t) → Entry block (entry_of t k items) (db.versions t rows k) (db.versions t rows' k)

  persist_history_batch-Entries :
      (t : TableName) (block : ℕ) (items : List (Key t × Option ℕ)) (rows : db.Rows t)
      (written : db.Rows t × List (Key t))
      → ((k : Key t) → count_key t k (map (λ i. i.0) items) ≤ 1)
      → persist_history_batch db block items rows ≡ ok written
      → Entries t block items rows written.0
  unfolding persist_history_batch
  persist_history_batch-Entries t block items rows written once h =
      let (r, run, last) = split_ok (append_all db block items rows) _ h in
      let same : (r, map (λ i. i.0) items) ≡ written = cc in
      subst (λ z. Entries t block items rows z.0) same
        (λ k. elim (Option-cases (entry_of t k items)) [
          | inl none_found ↦ rw none_found (
              GrownBy-zero block (db.versions t rows k) (db.versions t r k) (
                subst (GrownBy block (db.versions t rows k) (db.versions t r k))
                  (entry_of-count_key t k items none_found)
                  (append_all-Appended db laws t block items rows r run k)))
          | inr found ↦
              rw found.1 (append_all-EndsWith t block items rows r k found.0 (once k) found.1 run)
        ])

  abbrev pub HasEntries : ℕ → BlockStateDiff → Tables db → Tables db → Type 0
  HasEntries block diff s s' =
      Entries account_trie block diff.account_nodes (s.history account_trie)
        (s'.history account_trie)
      × Entries hashed_account block diff.accounts (s.history hashed_account)
          (s'.history hashed_account)

  store_trie_updates_for_block-HasEntries :
      (block : ℕ) (diff : BlockStateDiff) (s : Tables db) (written : Tables db × ChangeSet)
      → IsDiff diff
      → store_trie_updates_for_block db block diff s ≡ ok written
      → HasEntries block diff s written.0
  unfolding store_trie_updates_for_block
  store_trie_updates_for_block-HasEntries block diff s written d h =
      let (nodes, run_nodes, h1) =
        split_ok (persist_history_batch db block diff.account_nodes (s.history account_trie)) _ h in
      let (accounts, run_accounts, h2) =
        split_ok (persist_history_batch db block diff.accounts (s.history hashed_account)) _ h1 in
      let (tries, run_tries, h3) =
        split_ok (persist_storages db trie_nodes block diff.storage_tries (s.history storage_trie))
          _ h2 in
      let (storages, run_storages, last) =
        split_ok
          (persist_storages db slots block (map slot_entries diff.storages)
            (s.history hashed_storage))
          _ h3 in
      subst_ok (λ z. HasEntries block diff s z.0) last
        (
          persist_history_batch-Entries account_trie block diff.account_nodes
              (s.history account_trie) nodes
              (λ k. rw (account_nodes-count_key k (keys_of diff.account_nodes)) (d.nodes_once k))
              run_nodes,
          persist_history_batch-Entries hashed_account block diff.accounts
              (s.history hashed_account) accounts
              (λ k. rw (accounts-count_key k (keys_of diff.accounts)) (d.accounts_once k))
              run_accounts,
        )

  pub store_trie_updates_append_only-HasEntries :
      (block : BlockWithParent) (diff : BlockStateDiff) (s : Tables db)
      (stored : Tables db × WriteCounts)
      → IsDiff diff
      → store_trie_updates_append_only db block diff s ≡ ok stored
      → HasEntries block.number diff s stored.0
  unfolding store_trie_updates_append_only latest_hash record_change_set
      inner_set_latest_block_number
  store_trie_updates_append_only-HasEntries block diff s stored d h =
      let latest_block_hash = latest_hash (inner_get_latest_block_number_hash s) in
      let (checked, check, h1) =
        split_ok
          (fail_if (not (latest_block_hash == block.parent))
            (out_of_order block.number block.parent latest_block_hash))
          _ h in
      let (written, run, h2) =
        split_ok (store_trie_updates_for_block db block.number diff s) _ h1 in
      let all = store_trie_updates_for_block-HasEntries block.number diff s written d run in
      elim (Option-cases (db.append s.block_change_set block.number written.1)) [
        | inl refused ↦ let failed = rw refused at h2 in cc
        | inr recorded ↦
            subst_ok (λ z. HasEntries block.number diff s z.0) (rw recorded.1 at h2) all
      ]

  -- The reads as of `n` of one table after a block with these entries.
  abbrev pub ReadsEntries :
      (t : TableName) → ℕ → List (Key t × Option ℕ) → Tables db → Tables db → Type 0
  ReadsEntries t n items s s' =
      (k : Key t)
      → seek_exact db t (s'.history t) n k
        ≡ written_or (entry_of t k items) (seek_exact db t (s.history t) n k)

  pub Entries-ReadsEntries :
      (t : TableName) (n block : ℕ) (items : List (Key t × Option ℕ)) (s s' : Tables db)
      → IsStore db s
      → IsStore db s'
      → block ≤ n
      → Entries t block items (s.history t) (s'.history t)
      → ReadsEntries t n items s s'
  Entries-ReadsEntries t n block items s s' is is' from all k =
      rw (seek_exact-latest_at db laws s' t n k is', seek_exact-latest_at db laws s t n k is)
        (Entry-latest_at n block (entry_of t k items) _ _ from (all k))

  -- On tables in order, with `e` as the earliest block, after `store_trie_updates` stored a block after
  -- `e` whose diff gives every key once, a read as of the block or of a later number, of any account or
  -- account node, answers the value of the key's entry in the block, nothing where the entry deletes the
  -- key, and what it answered before where the block has no entry of the key.
  pub store_trie_updates-ReadsEntries :
      (s s' : Tables db) (e : BlockNumHash) (block : BlockWithParent) (diff : BlockStateDiff)
      (counts : WriteCounts) (n : ℕ)
      → IsStore db s
      → s.earliest_block ≡ some e
      → e.0 < block.number
      → IsDiff diff
      → store_trie_updates db block diff s ≡ (s', ok counts)
      → block.number ≤ n
      → ReadsEntries account_trie n diff.account_nodes s s'
        × ReadsEntries hashed_account n diff.accounts s s'
  unfolding store_trie_updates
  store_trie_updates-ReadsEntries s s' e block diff counts n is he lo d h from =
      let is' =
        (store_trie_updates-Extended db laws s s' e block diff counts is he lo d h).is_store in
      let all =
        store_trie_updates_append_only-HasEntries block diff s (s', counts) d
          (committed db laws s s' (store_trie_updates_append_only db block diff s) counts h) in
      (
        Entries-ReadsEntries account_trie n block.number diff.account_nodes s s' is is' from all.0,
        Entries-ReadsEntries hashed_account n block.number diff.accounts s s' is is' from all.1,
      )
