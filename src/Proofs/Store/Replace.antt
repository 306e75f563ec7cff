-- ===== src/Proofs/Store/Replace.antt =====
-- `replace_updates` of crates/proofs/src/db/store.rs.
use morph_reth.Common.{
  ℕ, Option, if◌then◌else◌, ◌+◌, ◌-◌, ◌≤◌, ◌<◌, min, ◌≡◌, refl, ap, ◌∙◌, inl, inr, some, List, [],
  ◌∷◌, ok, leb, Bool-cases, arith, All, split_ok, subst_ok,
}
use morph_reth.ProofsExex.SyncTarget.{BlockWithParent}
use morph_reth.Proofs.Api.{BlockNumHash}
use morph_reth.Proofs.Tables.{TableName, account_trie, hashed_account, Key, Database, IsDatabase}
use morph_reth.Proofs.Cursor.{live_value, seek_exact}
use morph_reth.Proofs.Store.{Tables, inner_set_latest_block_number}
use morph_reth.Proofs.Store.Write.{BlockStateDiff, store_trie_updates_append_only}
use morph_reth.Proofs.Store.Delete.{
  delete_history_from, store_all, insert_by_number, sort_by_number, replace_updates,
}
use morph_reth.Proofs.Store.Reads.{latest_at}
use morph_reth.Proofs.Store.Distinct.{IsDiff}
use morph_reth.Proofs.Store.ReadBack.{
  written_or, entry_of, store_trie_updates_append_only-HasEntries, Entries-ReadsEntries,
}
use morph_reth.Proofs.Store.Listed.{IsStore}
use morph_reth.Proofs.Store.Unwind.{
  versions_of, seek_exact-latest_at, delete_history_from-latest_at, delete_history_from-IsStore,
}
use morph_reth.Proofs.Store.Stored.{store_trie_updates_append_only-Stored}
use morph_reth.Proofs.Store.Extended.{committed, Stored-Extended}

abbrev pub NewBlock : Type 0
NewBlock = BlockWithParent × BlockStateDiff

-- Every new block is after the common one, and gives every key once.
abbrev pub AllNew : ℕ → List NewBlock → Type 0
AllNew n blocks = All (λ (b : NewBlock). (n < b.0.number) × IsDiff b.1) blocks

insert_by_number-AllNew :
    (n : ℕ) (b : NewBlock) (blocks : List NewBlock)
    → (n < b.0.number) × IsDiff b.1
    → AllNew n blocks
    → AllNew n (insert_by_number b blocks)
unfolding insert_by_number
insert_by_number-AllNew n b [] h a = (h, tt)
insert_by_number-AllNew n b (c ∷ cs) h a = elim (Bool-cases (leb b.0.number c.0.number)) [
  | inl e ↦ rw e (h, a)
  | inr e ↦ rw e (a.0, insert_by_number-AllNew n b cs h a.1)
]

sort_by_number-AllNew :
    (n : ℕ) (blocks : List NewBlock) → AllNew n blocks → AllNew n (sort_by_number blocks)
unfolding sort_by_number
sort_by_number-AllNew n [] a = tt
sort_by_number-AllNew n (b ∷ bs) a =
    insert_by_number-AllNew n b (sort_by_number bs) a.0 (sort_by_number-AllNew n bs a.1)

-- The last of the blocks, or the common one.
abbrev pub last_block : BlockNumHash → List NewBlock → BlockNumHash
last_block common [] = common
last_block common ((block, diff) ∷ blocks) = last_block (block.number, block.hash) blocks

-- What the blocks up to a number make of a value of a key, by their entries of it.
abbrev pub replay :
    (t : TableName)
    → (BlockStateDiff → List (Key t × Option ℕ))
    → ℕ
    → Key t
    → List NewBlock
    → Option ℕ
    → Option ℕ
replay t entries m k [] value = value
replay t entries m k ((block, diff) ∷ blocks) value =
    replay t entries m k blocks
      (if leb block.number m then written_or (entry_of t k (entries diff)) value else value)

module _ (db : Database) (laws : IsDatabase db) where
  -- The reads of one table after blocks: they replay the entries of the blocks.
  abbrev pub Replays :
      (t : TableName)
      → (BlockStateDiff → List (Key t × Option ℕ))
      → List NewBlock
      → ℕ
      → Tables db
      → Tables db
      → Type 0
  Replays t entries blocks n s s' =
      (m : ℕ) (k : Key t)
      → seek_exact db t (s'.history t) m k
        ≡ replay t entries m k blocks (seek_exact db t (s.history t) (min m n) k)

  -- Tables in order with the same earliest block and the last of the blocks as the latest. A read as of a
  -- block is what it was as of that block or the common one, `n`, with the entries of the new blocks up to
  -- the block on top for accounts and account nodes; in all tables, a read up to the common block is what
  -- it was.
  pub record Replaced (common : BlockNumHash) (blocks : List NewBlock) (s s' : Tables db)
      : Type 0 where
    pub is_store : IsStore db s'
    pub same_earliest : s'.earliest_block ≡ s.earliest_block
    pub is_latest : s'.latest_block ≡ some (last_block common blocks)
    pub reads :
        (t : TableName) (m : ℕ) (k : Key t)
        → m ≤ common.0
        → seek_exact db t (s'.history t) m k ≡ seek_exact db t (s.history t) m k
    pub nodes : Replays account_trie (λ d. d.account_nodes) blocks common.0 s s'
    pub accounts : Replays hashed_account (λ d. d.accounts) blocks common.0 s s'

  -- One table after a block: a read as of an earlier block is as before, and a later one has its entries.
  step-replay :
      (t : TableName) (entries : BlockStateDiff → List (Key t × Option ℕ)) (block : BlockWithParent)
      (diff : BlockStateDiff) (s s' : Tables db) (m : ℕ) (k : Key t)
      → (m < block.number → seek_exact db t (s'.history t) m k ≡ seek_exact db t (s.history t) m k)
      → (block.number ≤ m
          → seek_exact db t (s'.history t) m k
            ≡ written_or (entry_of t k (entries diff)) (seek_exact db t (s.history t) m k))
      → seek_exact db t (s'.history t) m k ≡ (
          if leb block.number m
          then written_or (entry_of t k (entries diff)) (seek_exact db t (s.history t) m k)
          else seek_exact db t (s.history t) m k)
  step-replay t entries block diff s s' m k before after = elim (Bool-cases (leb block.number m)) [
    | inl e ↦ rw e (after (ground arith))
    | inr e ↦ rw e (before (ground arith))
  ]

  -- What storing blocks one after the other makes of tables.
  record StoredAll (n : ℕ) (start : BlockNumHash) (blocks : List NewBlock) (s s' : Tables db)
      : Type 0 where
    is_store : IsStore db s'
    same_earliest : s'.earliest_block ≡ s.earliest_block
    is_latest : s'.latest_block ≡ some (last_block start blocks)
    reads :
        (t : TableName) (m : ℕ) (k : Key t)
        → m ≤ n
        → seek_exact db t (s'.history t) m k ≡ seek_exact db t (s.history t) m k
    nodes :
        (m : ℕ) (k : Key account_trie)
        → seek_exact db account_trie (s'.history account_trie) m k
          ≡ replay account_trie
              (λ d. d.account_nodes)
              m
              k
              blocks
              (seek_exact db account_trie (s.history account_trie) m k)
    accounts :
        (m : ℕ) (k : Key hashed_account)
        → seek_exact db hashed_account (s'.history hashed_account) m k
          ≡ replay hashed_account
              (λ d. d.accounts)
              m
              k
              blocks
              (seek_exact db hashed_account (s.history hashed_account) m k)

  store_all-StoredAll :
      (n : ℕ) (start : BlockNumHash) (blocks : List NewBlock) (s s' : Tables db) (e : BlockNumHash)
      → IsStore db s
      → s.earliest_block ≡ some e
      → s.latest_block ≡ some start
      → e.0 ≤ n
      → AllNew n blocks
      → store_all db blocks s ≡ ok s'
      → StoredAll n start blocks s s'
  unfolding store_all
  store_all-StoredAll n start [] s s' e is he hl lo a h =
      subst_ok (StoredAll n start [] s) h (record {
        is_store = is;
        same_earliest = refl;
        is_latest = hl;
        reads = λ t. λ m. λ k. λ _. refl;
        nodes = λ m. λ k. refl;
        accounts = λ m. λ k. refl;
      })
  store_all-StoredAll n start ((block, diff) ∷ blocks) s s' e is he hl lo a h =
      let (stored, run, more) = split_ok (store_trie_updates_append_only db block diff s) _ h in
      let d = a.0.1 in
      let after : n < block.number = a.0.0 in
      let ext =
        Stored-Extended db laws s stored.0 e block diff is he (omega arith) d
          (store_trie_updates_append_only-Stored db laws block diff s stored run) in
      let entries = store_trie_updates_append_only-HasEntries db laws block diff s stored d run in
      let rest =
        store_all-StoredAll n (block.number, block.hash) blocks stored.0 s' e ext.is_store
          (ext.same_earliest ∙ he) ext.is_latest lo a.1 more in
      record {
        is_store = rest.is_store;
        same_earliest = rest.same_earliest ∙ ext.same_earliest;
        is_latest = rest.is_latest;
        reads = λ t. λ m. λ k. λ low. rest.reads t m k low ∙ ext.reads t m k (omega arith);
        nodes = λ m. λ k.
            rest.nodes m k
            ∙ ap (replay account_trie (λ d. d.account_nodes) m k blocks) (
                step-replay account_trie (λ d. d.account_nodes) block diff s stored.0 m k
                  (ext.reads account_trie m k)
                  (λ from.
                    Entries-ReadsEntries db laws account_trie m block.number diff.account_nodes s
                      stored.0 is ext.is_store from entries.0 k));
        accounts = λ m. λ k.
            rest.accounts m k
            ∙ ap (replay hashed_account (λ d. d.accounts) m k blocks) (
                step-replay hashed_account (λ d. d.accounts) block diff s stored.0 m k
                  (ext.reads hashed_account m k)
                  (λ from.
                    Entries-ReadsEntries db laws hashed_account m block.number diff.accounts s
                      stored.0 is ext.is_store from entries.1 k));
      }

  -- The tables after the deletion of all that follows the common block.
  abbrev cut : BlockNumHash → Tables db → Tables db
  cut common s = inner_set_latest_block_number (delete_history_from db (common.0 + 1) s) common

  cut-IsStore :
      (s : Tables db) (e common : BlockNumHash)
      → IsStore db s
      → s.earliest_block ≡ some e
      → e.0 ≤ common.0
      → IsStore db (cut common s)
  cut-IsStore s e common is he lo =
      delete_history_from-IsStore db laws s e (common.0 + 1) is he (omega arith) common

  cut-reads :
      (s : Tables db) (e common : BlockNumHash)
      → IsStore db s
      → s.earliest_block ≡ some e
      → e.0 ≤ common.0
      → (t : TableName) (m : ℕ) (k : Key t)
      → seek_exact db t ((cut common s).history t) m k
        ≡ seek_exact db t (s.history t) (min m common.0) k
  unfolding inner_set_latest_block_number delete_history_from
  cut-reads s e common is he lo t m k =
      let from = common.0 + 1 in
      let same : min m (from - 1) ≡ min m common.0 = omega arith in
      rw
        (
          seek_exact-latest_at db laws (cut common s) t m k (cut-IsStore s e common is he lo),
          seek_exact-latest_at db laws s t (min m common.0) k is,
        )
        (ap live_value (
          delete_history_from-latest_at db laws s e from m t k is he (omega arith)
          ∙ ap (λ z. latest_at z (versions_of db laws t s k)) same))

  -- On tables in order, with `e` as the earliest block and not after the common block, a replacement
  -- that succeeds, by blocks after the common one that each give every key once, leaves tables in order
  -- with the same earliest block and with the last new block by number as the latest, or the common one
  -- where there is none. Every read as of the common block or an earlier one is what it was. A read of an
  -- account or an account node as of any block is what it was as of that block or the common one,
  -- whichever is first, with the entries of the new blocks up to that block on top: nothing of the branch
  -- that is abandoned is read.
  pub replace_updates-Replaced :
      (s s' : Tables db) (e common : BlockNumHash) (blocks : List NewBlock)
      → IsStore db s
      → s.earliest_block ≡ some e
      → e.0 ≤ common.0
      → AllNew common.0 blocks
      → replace_updates db s common blocks ≡ (s', ok tt)
      → Replaced common (sort_by_number blocks) s s'
  unfolding replace_updates inner_set_latest_block_number delete_history_from
  replace_updates-Replaced s s' e common blocks is he lo a h =
      let start : Tables db = cut common s in
      let done = committed db laws s s' _ tt h in
      let (stored, run, last) = split_ok (store_all db (sort_by_number blocks) start) _ done in
      let all =
        store_all-StoredAll common.0 common (sort_by_number blocks) start stored e
          (cut-IsStore s e common is he lo) he refl lo (sort_by_number-AllNew common.0 blocks a)
          run in
      let kept = cut-reads s e common is he lo in
      subst_ok (λ z. Replaced common (sort_by_number blocks) s z.0) last
        (record {
          is_store = all.is_store;
          same_earliest = all.same_earliest;
          is_latest = all.is_latest;
          reads = λ t. λ m. λ k. λ low.
              let same : min m common.0 ≡ m = omega arith in
              all.reads t m k low ∙ kept t m k ∙ ap (λ z. seek_exact db t (s.history t) z k) same;
          nodes = λ m. λ k.
              all.nodes m k
              ∙ ap (replay account_trie (λ d. d.account_nodes) m k (sort_by_number blocks))
                  (kept account_trie m k);
          accounts = λ m. λ k.
              all.accounts m k
              ∙ ap (replay hashed_account (λ d. d.accounts) m k (sort_by_number blocks))
                  (kept hashed_account m k);
        })
