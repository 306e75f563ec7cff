-- ===== src/Proofs/Store/Extended.antt =====
-- `store_trie_updates` of crates/proofs/src/db/store.rs on tables in order.
use morph_reth.Common.{
  ℕ, ◌<◌, ◌≡◌, refl, sym, ap, subst, ◌∙◌, inl, inr, Bool, true, false, ◌&&◌, ◌||◌, some, List, [],
  ◌∷◌, ◌++◌, ◌==◌, leb, Bool-cases, arith, All, Result, ok, err, is_err, map,
}
use morph_reth.ProofsExex.SyncTarget.{BlockWithParent}
use morph_reth.Proofs.Api.{StorageError, BlockNumHash, WriteCounts}
use morph_reth.Proofs.Tables.{
  TableName, Key, same_key, VersionedValue, Change, ChangeSet, Database, IsDatabase,
}
use morph_reth.Proofs.Cursor.{live_value, seek_exact}
use morph_reth.Proofs.Store.{Tables, inner_get_latest_block_number_hash, commit_update}
use morph_reth.Proofs.Store.Write.{
  BlockStateDiff, latest_hash, store_trie_updates_append_only, store_trie_updates,
}
use morph_reth.Proofs.Store.Delete.{collect_history}
use morph_reth.Proofs.Store.Reads.{latest_at, AscendingFrom, latest_at-append, AscendingFrom-append}
use morph_reth.Proofs.Store.Rows.{listed}
use morph_reth.Proofs.Store.Listed.{
  AllListed, IsStore, has_version, listed_append, All-append, listed_within,
}
use morph_reth.Proofs.Store.Ranges.{All_mono}
use morph_reth.Proofs.Store.Unwind.{versions_of, seek_exact-latest_at}
use morph_reth.Proofs.Store.Appends.{has_key, Grown, count_key, has_key-count_key, GrownBy-Grown}
use morph_reth.Proofs.Store.Distinct.{IsDiff}
use morph_reth.Proofs.Store.Stored.{Stored, store_trie_updates_append_only-Stored}

listed-map_key :
    (t : TableName) (k : Key t) (b b' : ℕ) (ks : List (Key t))
    → listed t k b (map (λ k. (k, b')) ks) ≡ (b == b') && has_key t k ks
listed-map_key t k b b' [] = ground arith
listed-map_key t k b b' (k' ∷ ks) =
    let rest = listed-map_key t k b b' ks in
    rw rest (elim (Bool-cases (same_key t k k')) [ inl h ↦ rw h (ground arith) | inr h ↦ rw h ])

-- The rows that a further change set lists.
pub listed_last :
    (t : TableName) (k : Key t) (b b' : ℕ) (c : ChangeSet) (rows : List Change)
    → listed t k b (collect_history t (rows ++ ((b', c) ∷ [])))
      ≡ listed t k b (collect_history t rows) || ((b == b') && has_key t k (c t))
unfolding collect_history
listed_last t k b b' c [] =
    listed_append t k b (map (λ k. (k, b')) (c t)) []
    ∙ (rw (listed-map_key t k b b' (c t)) (ground arith))
listed_last t k b b' c ((b'', c') ∷ rows) =
    let here : List (Key t × ℕ) = map (λ k. (k, b'')) (c' t) in
    rw
      (
        listed_append t k b here (collect_history t (rows ++ ((b', c) ∷ []))),
        listed_append t k b here (collect_history t rows),
        listed_last t k b b' c rows,
      )
      (ground arith)

latest_at-Grown :
    (n block : ℕ) (vs ws : List VersionedValue) (p : Bool)
    → n < block
    → Grown block vs ws p
    → latest_at n ws ≡ latest_at n vs
latest_at-Grown n block vs ws false h g = ap (latest_at n) g
latest_at-Grown n block vs ws true h (v, at, e, below) =
    let later : leb v.block_number n ≡ false = ground arith in
    rw (e, latest_at-append n v vs, later)

AscendingFrom-Grown :
    (block : ℕ) (vs ws : List VersionedValue) (p : Bool)
    → AscendingFrom 0 vs
    → Grown block vs ws p
    → AscendingFrom 0 ws
AscendingFrom-Grown block vs ws false s g = subst (AscendingFrom 0) (sym g) s
AscendingFrom-Grown block vs ws true s (v, at, e, below) = rw e (
    AscendingFrom-append 0 v vs (omega arith) s
      (subst (λ z. All (λ u. u.block_number < z) vs) (sym at) below))

AllListed-Grown :
    (t : TableName) (k : Key t) (e block : ℕ) (items items' : List (Key t × ℕ))
    (vs ws : List VersionedValue) (p : Bool)
    → ((b : ℕ) → listed t k b items' ≡ listed t k b items || ((b == block) && p))
    → AllListed t k e items vs
    → Grown block vs ws p
    → AllListed t k e items' ws
AllListed-Grown t k e block items items' vs ws false same a g =
    subst (AllListed t k e items') (sym g) (
      All_mono _ _ vs
        (λ v. λ h. λ after. let was = h after in rw (same v.block_number) (ground arith)) a)
AllListed-Grown t k e block items items' vs ws true same a (v, at, eq, below) = rw eq (
    All-append _ vs (v ∷ [])
      (All_mono _ _ vs
        (λ v. λ h. λ after. let was = h after in rw (same v.block_number) (ground arith)) a)
      (λ _. rw (same v.block_number) (ground arith), tt))

has_version-append :
    (b : ℕ) (vs ws : List VersionedValue)
    → has_version b (vs ++ ws) ≡ has_version b vs || has_version b ws
has_version-append b [] ws = refl
has_version-append b (v ∷ vs) ws = rw (has_version-append b vs ws) (ground arith)

has_version-Grown :
    (b block : ℕ) (vs ws : List VersionedValue) (p : Bool)
    → Grown block vs ws p
    → has_version b vs || ((b == block) && p) ≡ true
    → has_version b ws ≡ true
has_version-Grown b block vs ws false g h = rw g (ground arith)
has_version-Grown b block vs ws true (v, at, e, below) h =
    rw (e, has_version-append b vs (v ∷ [])) (ground arith)

module _ (db : Database) (laws : IsDatabase db) where
  listed_stored :
      (s s' : Tables db) (block : BlockWithParent) (diff : BlockStateDiff)
      (st : Stored db laws s s' block diff) (t : TableName) (k : Key t) (b : ℕ)
      → listed t k b (collect_history t (db.changes s'.block_change_set))
        ≡ listed t k b (collect_history t (db.changes s.block_change_set))
          || ((b == block.number) && has_key t k (st.keys t))
  listed_stored s s' block diff st t k b =
      rw (st.changes) (listed_last t k b block.number st.keys (db.changes s.block_change_set))

  had_version :
      (s : Tables db) (t : TableName) (k : Key t) (b : ℕ) (added : Bool)
      → IsStore db s
      → listed t k b (collect_history t (db.changes s.block_change_set)) || added ≡ true
      → has_version b (versions_of db laws t s k) || added ≡ true
  had_version s t k b added is h =
      elim (Bool-cases (listed t k b (collect_history t (db.changes s.block_change_set)))) [
        | inl was ↦ rw (is.has_listed t k b was)
        | inr unlisted_before ↦ let new : added ≡ true = rw unlisted_before at h in ground arith
      ]

  -- The versions are of blocks before one that comes after all change sets.
  pub versions_before :
      (s s' : Tables db) (e : BlockNumHash) (block : BlockWithParent) (diff : BlockStateDiff)
      → IsStore db s
      → s.earliest_block ≡ some e
      → e.0 < block.number
      → Stored db laws s s' block diff
      → (t : TableName) (k : Key t)
      → All (λ v. v.block_number < block.number) (versions_of db laws t s k)
  versions_before s s' e block diff is he lo st t k =
      All_mono _ _ (versions_of db laws t s k)
        (λ v.
          λ (h : e.0 < v.block_number
              → listed t k v.block_number (collect_history t (db.changes s.block_change_set))
                ≡ true).
            elim (Bool-cases (leb v.block_number e.0)) [
              | inl low ↦ ground arith
              | inr after ↦
                  listed_within t k v.block_number (λ b. b < block.number)
                    (db.changes s.block_change_set) st.changes_before (h (ground arith))
            ])
        (is.all_listed e he t k)

  stored-Grown :
      (s s' : Tables db) (e : BlockNumHash) (block : BlockWithParent) (diff : BlockStateDiff)
      → IsStore db s
      → s.earliest_block ≡ some e
      → e.0 < block.number
      → IsDiff diff
      → (st : Stored db laws s s' block diff) (t : TableName) (k : Key t)
      → Grown block.number
          (versions_of db laws t s k)
          (versions_of db laws t s' k)
          (has_key t k (st.keys t))
  stored-Grown s s' e block diff is he lo d st t k = rw (has_key-count_key t k (st.keys t)) (
      GrownBy-Grown block.number (versions_of db laws t s k) (versions_of db laws t s' k)
        (count_key t k (st.keys t)) (versions_before s s' e block diff is he lo st t k)
        (st.keys_once d t k) (st.appended t k))

  pub Stored-IsStore :
      (s s' : Tables db) (block : BlockWithParent) (diff : BlockStateDiff)
      → IsStore db s
      → ((e : BlockNumHash) → s.earliest_block ≡ some e → e.0 < block.number)
      → (st : Stored db laws s s' block diff)
      → ((t : TableName) (k : Key t)
          → Grown block.number
              (versions_of db laws t s k)
              (versions_of db laws t s' k)
              (has_key t k (st.keys t)))
      → IsStore db s'
  Stored-IsStore s s' block diff is lo st grown = record {
    sorted = λ t. λ k.
        AscendingFrom-Grown block.number (versions_of db laws t s k) (versions_of db laws t s' k)
          (has_key t k (st.keys t)) (is.sorted t k) (grown t k);
    all_listed = λ e. λ he. λ t. λ k.
        AllListed-Grown t k e.0 block.number (collect_history t (db.changes s.block_change_set)) _
          (versions_of db laws t s k) (versions_of db laws t s' k) (has_key t k (st.keys t))
          (listed_stored s s' block diff st t k) (is.all_listed e (sym st.same_earliest ∙ he) t k)
          (grown t k);
    has_listed = λ t. λ k. λ b. λ h.
        has_version-Grown b block.number (versions_of db laws t s k) (versions_of db laws t s' k)
          (has_key t k (st.keys t)) (grown t k)
          (had_version s t k b ((b == block.number) && has_key t k (st.keys t)) is
            (sym (listed_stored s s' block diff st t k b) ∙ h));
    after_earliest = λ e. λ he.
        let was = sym st.same_earliest ∙ he in
        rw st.changes
          (All-append _ (db.changes s.block_change_set) _ (is.after_earliest e was) (lo e was, tt));
  }

  pub committed :
      {A : Type 0} (s s' : Tables db) (r : Result StorageError (Tables db × A)) (a : A)
      → commit_update s r ≡ (s', ok a)
      → r ≡ ok (s', a)
  unfolding commit_update
  committed {A = A} s s' (ok (s'', a')) a h =
      let left : s'' ≡ s' = ap (λ z. z.0) h in
      let answer : ◌≡◌ {A = Result StorageError A} (ok a') (ok a) = ap (λ z. z.1) h in
      let same : a' ≡ a = cc in λ i. ok (left i, same i)
  committed s s' (err e) a h = let answer = ap (λ z. is_err z.1) h in cc

  pub stored :
      (s s' : Tables db) (block : BlockWithParent) (diff : BlockStateDiff) (counts : WriteCounts)
      → store_trie_updates db block diff s ≡ (s', ok counts)
      → Stored db laws s s' block diff
  unfolding store_trie_updates
  stored s s' block diff counts h =
      store_trie_updates_append_only-Stored db laws block diff s (s', counts)
        (committed s s' (store_trie_updates_append_only db block diff s) counts h)

  pub record Extended (s s' : Tables db) (block : BlockWithParent) : Type 0 where
    pub is_store : IsStore db s'
    pub is_child : latest_hash (inner_get_latest_block_number_hash s) ≡ block.parent
    pub is_latest : s'.latest_block ≡ some (block.number, block.hash)
    pub same_earliest : s'.earliest_block ≡ s.earliest_block
    pub reads :
        (t : TableName) (n : ℕ) (k : Key t)
        → n < block.number
        → seek_exact db t (s'.history t) n k ≡ seek_exact db t (s.history t) n k

  pub Stored-Extended :
      (s s' : Tables db) (e : BlockNumHash) (block : BlockWithParent) (diff : BlockStateDiff)
      → IsStore db s
      → s.earliest_block ≡ some e
      → e.0 < block.number
      → IsDiff diff
      → Stored db laws s s' block diff
      → Extended s s' block
  Stored-Extended s s' e block diff is he lo d st =
      let grown = stored-Grown s s' e block diff is he lo d st in
      let is' =
        Stored-IsStore s s' block diff is
          (λ e'. λ he'. let same : e ≡ e' = cc in subst (λ z. z.0 < block.number) same lo) st
          grown in
      record {
        is_store = is';
        is_child = st.is_child;
        is_latest = st.is_latest;
        same_earliest = st.same_earliest;
        reads = λ t. λ n. λ k. λ before.
            rw (seek_exact-latest_at db laws s' t n k is', seek_exact-latest_at db laws s t n k is)
              (ap live_value (
                latest_at-Grown n block.number (versions_of db laws t s k)
                  (versions_of db laws t s' k) (has_key t k (st.keys t)) before (grown t k)));
      }

  -- On tables in order, with `e` as the earliest block, a block after `e` whose diff gives every key once
  -- and that `store_trie_updates` stores is the child of the latest block, and it leaves tables in order
  -- with the same earliest block and with the block as the latest, and every read as of an earlier block is
  -- what it was.
  pub store_trie_updates-Extended :
      (s s' : Tables db) (e : BlockNumHash) (block : BlockWithParent) (diff : BlockStateDiff)
      (counts : WriteCounts)
      → IsStore db s
      → s.earliest_block ≡ some e
      → e.0 < block.number
      → IsDiff diff
      → store_trie_updates db block diff s ≡ (s', ok counts)
      → Extended s s' block
  store_trie_updates-Extended s s' e block diff counts is he lo d h =
      Stored-Extended s s' e block diff is he lo d (stored s s' block diff counts h)
