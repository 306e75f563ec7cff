-- ===== src/Proofs/Store/RoundTrip.antt =====
-- `unwind_history` after `store_trie_updates`, of crates/proofs/src/db/store.rs.
use morph_reth.Common.{
  ℕ, ◌+◌, ◌-◌, ◌≤◌, ◌<◌, ◌≡◌, refl, sym, ap, subst, ◌∙◌, inl, inr, true, false, ◌&&◌, Option, none,
  some, List, [], ◌∷◌, ◌++◌, ◌==◌, ltb, length, leb, Bool-cases, arith, All, ok,
}
use morph_reth.ProofsExex.SyncTarget.{BlockWithParent}
use morph_reth.Proofs.Api.{BlockNumHash, WriteCounts}
use morph_reth.Proofs.Tables.{
  TableName, Key, VersionedValue, Change, ChangeSet, without_change, Database, IsDatabase,
}
use morph_reth.Proofs.Store.{
  Tables, inner_get_latest_block_number_hash, inner_set_latest_block_number,
}
use morph_reth.Proofs.Store.Write.{BlockStateDiff, latest_hash, store_trie_updates}
use morph_reth.Proofs.Store.Delete.{
  in_range, walk_range, collect_history, delete_changes, delete_history_from, unwind_history,
}
use morph_reth.Proofs.Store.Rows.{listed, unlisted, ClimbsFrom, ClimbsFrom-mono, IsClimbing}
use morph_reth.Proofs.Store.Reads.{AscendingFrom}
use morph_reth.Proofs.Store.Listed.{IsStore}
use morph_reth.Proofs.Store.Ranges.{All_mono}
use morph_reth.Proofs.Store.Unwind.{versions_of}
use morph_reth.Proofs.Store.Appends.{count_key, has_key-count_key, GrownBy, append-nil}
use morph_reth.Proofs.Store.Stored.{Stored}
use morph_reth.Proofs.Store.Unwind.{delete_history_from-unlisted, unwind_history_step}
use morph_reth.Proofs.Store.Extended.{listed_last, stored, versions_before}

-- The rows from a block on, when they are all before it but the last.
walk_range_last :
    (b : ℕ) (c : ChangeSet) (rows : List Change)
    → All (λ (row : Change). row.0 < b) rows
    → walk_range b none (rows ++ ((b, c) ∷ [])) ≡ (b, c) ∷ []
unfolding walk_range in_range
walk_range_last b c [] a = let here : leb b b ≡ true = ground arith in rw here
walk_range_last b c (row ∷ rows) a =
    let before : leb b row.0 ≡ false = ground (arith, a.0) in
    rw (before, walk_range_last b c rows a.1)

without_change_last :
    (b : ℕ) (c : ChangeSet) (rows : List Change)
    → All (λ (row : Change). row.0 < b) rows
    → without_change b (rows ++ ((b, c) ∷ [])) ≡ rows
without_change_last b c [] a = let here : (b == b) ≡ true = ground arith in rw here
without_change_last b c (row ∷ rows) a =
    let before : (row.0 == b) ≡ false = ground (arith, a.0) in
    rw (before, without_change_last b c rows a.1)

unlisted-append :
    (t : TableName) (k : Key t) (items : List (Key t × ℕ)) (vs ws : List VersionedValue)
    → unlisted t k items (vs ++ ws) ≡ unlisted t k items vs ++ unlisted t k items ws
unlisted-append t k items [] ws = refl
unlisted-append t k items (v ∷ vs) ws =
    let rest = unlisted-append t k items vs ws in
    elim (Bool-cases (listed t k v.block_number items)) [
      | inl h ↦ rw (h, rest)
      | inr h ↦ rw (h, rest)
    ]

unlisted_nothing :
    (t : TableName) (k : Key t) (items : List (Key t × ℕ)) (vs : List VersionedValue)
    → All (λ v. listed t k v.block_number items ≡ false) vs
    → unlisted t k items vs ≡ vs
unlisted_nothing t k items [] a = refl
unlisted_nothing t k items (v ∷ vs) a = rw (a.0, unlisted_nothing t k items vs a.1)

unlisted_all :
    (t : TableName) (k : Key t) (items : List (Key t × ℕ)) (vs : List VersionedValue)
    → All (λ v. listed t k v.block_number items ≡ true) vs
    → unlisted t k items vs ≡ []
unlisted_all t k items [] a = refl
unlisted_all t k items (v ∷ vs) a = rw (a.0, unlisted_all t k items vs a.1)

added-listed :
    (t : TableName) (k : Key t) (block n : ℕ) (items : List (Key t × ℕ)) (us : List VersionedValue)
    → ((b : ℕ) → listed t k b items ≡ (b == block) && ltb 0 n)
    → 0 < n
    → All (λ u. u.block_number ≡ block) us
    → All (λ u. listed t k u.block_number items ≡ true) us
added-listed t k block n items us same pos a =
    All_mono (λ u. u.block_number ≡ block) _ us
      (λ u. λ (at : u.block_number ≡ block). rw (same u.block_number) (ground arith)) a

unlisted-GrownBy :
    (t : TableName) (k : Key t) (block : ℕ) (items : List (Key t × ℕ)) (vs ws : List VersionedValue)
    (n : ℕ)
    → ((b : ℕ) → listed t k b items ≡ (b == block) && ltb 0 n)
    → All (λ u. u.block_number < block) vs
    → GrownBy block vs ws n
    → unlisted t k items ws ≡ vs
unlisted-GrownBy t k block items vs ws n same below (us, e, l, a) =
    let before : All (λ u. listed t k u.block_number items ≡ false) vs =
      All_mono (λ u. u.block_number < block) _ vs
        (λ u. λ (low : u.block_number < block). rw (same u.block_number) (ground arith)) below in
    let kept = unlisted_nothing t k items vs before in
    let gone : unlisted t k items us ≡ [] = added_gone us a l in
    rw (e, unlisted-append t k items vs us, kept, gone) (append-nil vs)
  where
    added_gone :
        (us : List VersionedValue)
        → All (λ u. u.block_number ≡ block) us
        → length us ≡ n
        → unlisted t k items us ≡ []
    added_gone [] a l = refl
    added_gone (u ∷ us) a l =
        unlisted_all t k items (u ∷ us)
          (added-listed t k block n items (u ∷ us) same (omega (arith, l)) a)

-- The versions of the block come last.
ClimbsFrom-GrownBy :
    (lo block : ℕ) (vs us : List VersionedValue)
    → AscendingFrom lo vs
    → lo ≤ block
    → All (λ u. u.block_number < block) vs
    → All (λ u. u.block_number ≡ block) us
    → ClimbsFrom lo (vs ++ us)
ClimbsFrom-GrownBy lo block [] [] s h below a = tt
ClimbsFrom-GrownBy lo block [] (u ∷ us) s h below a =
    let at : u.block_number ≡ block = a.0 in
    (omega arith, ClimbsFrom-GrownBy u.block_number block [] us tt (omega arith) tt a.1)
ClimbsFrom-GrownBy lo block (v ∷ vs) us s h below a =
    let low : v.block_number < block = below.0 in
    (
      s.0,
      ClimbsFrom-mono (v.block_number + 1) v.block_number (vs ++ us) (omega arith)
          (ClimbsFrom-GrownBy (v.block_number + 1) block vs us s.1 (omega arith) below.1 a),
    )

module _ (db : Database) (laws : IsDatabase db) where
  stored-IsClimbing :
      (s s' : Tables db) (e : BlockNumHash) (block : BlockWithParent) (diff : BlockStateDiff)
      → IsStore db s
      → s.earliest_block ≡ some e
      → e.0 < block.number
      → Stored db laws s s' block diff
      → (t : TableName) → IsClimbing db t (s'.history t)
  stored-IsClimbing s s' e block diff is he lo st t k =
      let (us, added, count, at) = st.appended t k in
      subst (ClimbsFrom 0) (sym added) (
        ClimbsFrom-GrownBy 0 block.number (versions_of db laws t s k) us (is.sorted t k)
          (omega arith) (versions_before db laws s s' e block diff is he lo st t k) at)

  undone_versions :
      (s s' : Tables db) (e : BlockNumHash) (block : BlockWithParent) (diff : BlockStateDiff)
      → IsStore db s
      → s.earliest_block ≡ some e
      → e.0 < block.number
      → Stored db laws s s' block diff
      → (t : TableName) (k : Key t)
      → versions_of db laws t (delete_history_from db block.number s') k ≡ versions_of db laws t s k
  unfolding collect_history
  undone_versions s s' e block diff is he lo st t k =
      rw
        (
          delete_history_from-unlisted db laws s' block.number t k
              (stored-IsClimbing s s' e block diff is he lo st t),
          st.changes,
          walk_range_last block.number st.keys (db.changes s.block_change_set) st.changes_before,
        )
        (unlisted-GrownBy t k block.number (collect_history t ((block.number, st.keys) ∷ []))
          (versions_of db laws t s k) (versions_of db laws t s' k) (count_key t k (st.keys t))
          (λ b.
            listed_last t k b block.number st.keys []
            ∙ ap (λ z. (b == block.number) && z) (has_key-count_key t k (st.keys t)))
          (versions_before db laws s s' e block diff is he lo st t k) (st.appended t k))

  undone_changes :
      (s s' : Tables db) (block : BlockWithParent) (diff : BlockStateDiff)
      (st : Stored db laws s s' block diff)
      → db.changes (delete_history_from db block.number s').block_change_set
        ≡ db.changes s.block_change_set
  unfolding delete_history_from delete_changes
  undone_changes s s' block diff st =
      rw
        (
          st.changes,
          walk_range_last block.number st.keys (db.changes s.block_change_set) st.changes_before,
          laws.delete_change_changes s'.block_change_set block.number,
          st.changes,
        )
        (without_change_last block.number st.keys (db.changes s.block_change_set) st.changes_before)

  latest_of :
      (s : Tables db) (b : BlockNumHash)
      → s.latest_block ≡ some b
      → inner_get_latest_block_number_hash s ≡ some b
  unfolding inner_get_latest_block_number_hash
  latest_of s b h = rw h

  undone_latest :
      (s s' : Tables db) (l : BlockNumHash) (block : BlockWithParent) (diff : BlockStateDiff)
      (st : Stored db laws s s' block diff)
      → inner_get_latest_block_number_hash s ≡ some l
      → block.number ≡ l.0 + 1
      → ◌≡◌ {A = Option BlockNumHash}
          (some (block.number - 1, block.parent))
          (inner_get_latest_block_number_hash s)
  unfolding latest_hash
  undone_latest s s' l block diff st hl next =
      let parent : l.1 ≡ block.parent = ap latest_hash (sym hl) ∙ st.is_child in
      let number : block.number - 1 ≡ l.0 = omega arith in
      (λ i. some (number i, sym parent i)) ∙ sym hl

  -- The same rows, change sets and window.
  pub record SameTables (s s' : Tables db) : Type 0 where
    pub same_versions :
        (t : TableName) (k : Key t) → db.versions t (s'.history t) k ≡ db.versions t (s.history t) k
    pub same_changes : db.changes s'.block_change_set ≡ db.changes s.block_change_set
    pub same_earliest : s'.earliest_block ≡ s.earliest_block
    pub same_latest : inner_get_latest_block_number_hash s' ≡ inner_get_latest_block_number_hash s

  -- Storing a block and unwinding to it is undone: on tables in order, with the window from `e` to `l`
  -- and `e` not after `l`, a block with the number after that of `l` that `store_trie_updates` stores is
  -- taken back by `unwind_history` to it: the unwinding succeeds, and the versions of every key, the
  -- change sets and the window are those of before.
  pub unwind_history-store_trie_updates :
      (s s' : Tables db) (e l : BlockNumHash) (block : BlockWithParent) (diff : BlockStateDiff)
      (counts : WriteCounts)
      → IsStore db s
      → s.earliest_block ≡ some e
      → inner_get_latest_block_number_hash s ≡ some l
      → e.0 ≤ l.0
      → block.number ≡ l.0 + 1
      → store_trie_updates db block diff s ≡ (s', ok counts)
      → ((unwind_history db s' block).1 ≡ ok tt) × SameTables s (unwind_history db s' block).0
  unfolding inner_set_latest_block_number delete_history_from inner_get_latest_block_number_hash
  unwind_history-store_trie_updates s s' e l block diff counts is he hl lo next h =
      let st = stored db laws s s' block diff counts h in
      let step =
        unwind_history_step db laws s' e (block.number, block.hash) block (st.same_earliest ∙ he)
          (latest_of s' (block.number, block.hash) st.is_latest) (omega arith) (omega arith) in
      (
        step.1,
        subst (SameTables s) (sym step.0) (record {
          same_versions = λ t. λ k. undone_versions s s' e block diff is he (omega arith) st t k;
          same_changes = undone_changes s s' block diff st;
          same_earliest = st.same_earliest;
          same_latest = undone_latest s s' l block diff st hl next;
        }),
      )
