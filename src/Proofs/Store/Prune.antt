-- ===== src/Proofs/Store/Prune.antt =====
-- `prune_earliest_state` of crates/proofs/src/db/store.rs.
use morph_reth.Common.{
  ℕ, ◌+◌, ◌≤◌, ◌<◌, ◌≡◌, refl, sym, ap, subst, ◌∙◌, true, false, Option, none, some, List, [], leb,
  ltb, or_else, arith, All, Result, ok, err, ◌>>=◌, is_err, ⊤,
}
use morph_reth.ProofsExex.SyncTarget.{BlockWithParent}
use morph_reth.Proofs.Api.{StorageError, BlockNumHash}
use morph_reth.Proofs.Tables.{TableName, Key, Change, has_change, Database, IsDatabase}
use morph_reth.Proofs.Cursor.{seek_exact}
use morph_reth.Proofs.Store.{
  Tables, inner_get_latest_block_number_hash, inner_get_earliest_block_number_hash,
  inner_get_proof_window, inner_set_earliest_block_number, commit_update,
}
use morph_reth.Proofs.Store.Delete.{
  in_range, collect_history, candidates_of, calculate_prune_plan, apply_prune_plan,
  prune_history_preceding, prune_earliest_state, mdbx_store,
}
use morph_reth.Proofs.Store.Reads.{AscendingFrom}
use morph_reth.Proofs.Store.Window.{inner_get_proof_window_lem}
use morph_reth.Proofs.Store.Rows.{same_key_iff, listed}
use morph_reth.Proofs.Pruner.Window.{Window, MovesEarliest}
use morph_reth.Proofs.Store.Listed.{
  AllListed, IsStore, has_version, AllListed-collect_history, listed_within,
}
use morph_reth.Proofs.Store.Ranges.{
  All_mono, All_trivial, deleted_range, deleted_range-All, deleted_range_outside,
  listed-deleted_range,
}
use morph_reth.Proofs.Store.Survivors.{
  AscendingFrom-prune_versions, All-prune_versions, has_version-prune_versions,
}
use morph_reth.Proofs.Store.Plan.{
  pruned_by, pruned_by-live_value, pruned_by_keeps, prune_history_preceding-versions,
}
use morph_reth.Proofs.Store.Candidates.{candidates_of-Distinct, candidates_listed}
use morph_reth.Proofs.Store.Unwind.{versions_of, seek_exact-latest_at}

module _ (db : Database) (laws : IsDatabase db) where
  abbrev survivors_of : Tables db → ℕ → ℕ → (t : TableName) → List (Key t × ℕ)
  survivors_of s earliest target t =
      candidates_of t earliest (db.walk_back s.block_change_set target) []

  survivors_of-listed :
      (s : Tables db) (earliest target : ℕ) (t : TableName)
      → has_change target (db.changes s.block_change_set) ≡ true
      → All
          (λ (i : Key t × ℕ).
            (i.1 ≤ target)
            × (listed t i.0 i.1 (collect_history t (db.changes s.block_change_set)) ≡ true))
          (survivors_of s earliest target t)
  survivors_of-listed s earliest target t h =
      rw (laws.walk_back_down s.block_change_set target h)
        (candidates_listed t earliest target (db.changes s.block_change_set))

  -- The tables that a plan from `earliest` to the block leaves.
  abbrev pruned_tables : Tables db → ℕ → BlockWithParent → Tables db
  pruned_tables s earliest block = record {
    earliest_block = some (block.number, block.hash);
    latest_block = s.latest_block;
    history = λ t.
        (prune_history_preceding db t (survivors_of s earliest block.number t) (s.history t)).0;
    block_change_set = deleted_range db laws (earliest + 1) (some block.number) s.block_change_set;
  }

  pruned_tables-versions :
      (s : Tables db) (earliest : ℕ) (block : BlockWithParent) (t : TableName) (k : Key t)
      → IsStore db s
      → versions_of db laws t (pruned_tables s earliest block) k
        ≡ pruned_by t k (survivors_of s earliest block.number t) (versions_of db laws t s k)
  pruned_tables-versions s earliest block t k is =
      prune_history_preceding-versions db laws t k (survivors_of s earliest block.number t)
        (s.history t) (is.sorted t)

  in_range_after : (b e target : ℕ) → target < b → in_range (e + 1) (some target) b ≡ false
  unfolding in_range
  in_range_after b e target h = ground arith

  outside_range : (b e target : ℕ) → e < b → in_range (e + 1) (some target) b ≡ false → target < b
  unfolding in_range
  outside_range b e target h i = ground arith

  pruned_tables-IsStore :
      (s : Tables db) (e : BlockNumHash) (block : BlockWithParent)
      → IsStore db s
      → s.earliest_block ≡ some e
      → e.0 < block.number
      → has_change block.number (db.changes s.block_change_set) ≡ true
      → IsStore db (pruned_tables s e.0 block)
  pruned_tables-IsStore s e block is he lo h =
      let cs = s.block_change_set in
      let below : (t : TableName)
          → All (λ (i : Key t × ℕ). i.1 ≤ block.number) (survivors_of s e.0 block.number t) =
        λ t.
          All_mono _ _ (survivors_of s e.0 block.number t) (λ i. λ p. p.0)
            (survivors_of-listed s e.0 block.number t h) in
      record {
        sorted = λ t. λ k. rw (pruned_tables-versions s e.0 block t k is) (
            pruned_by_keeps (AscendingFrom 0) t k block.number (survivors_of s e.0 block.number t)
              (versions_of db laws t s k)
              (λ survivor. λ ws. λ _. AscendingFrom-prune_versions 0 survivor ws) (below t)
              (is.sorted t k));
        all_listed = λ e'. λ he'. λ t. λ k.
            let at : (block.number, block.hash) ≡ e' = cc in
            let number : block.number ≡ e'.0 = ap (λ z. z.0) at in
            let all = collect_history t (db.changes cs) in
            rw (pruned_tables-versions s e.0 block t k is) (
              AllListed-collect_history t k e.0 e'.0 (λ _. ⊤) all _ _
                (pruned_by_keeps (AllListed t k e.0 all) t k block.number
                  (survivors_of s e.0 block.number t) (versions_of db laws t s k)
                  (λ survivor. λ ws. λ _. All-prune_versions _ survivor ws) (below t)
                  (is.all_listed e he t k))
                (All_mono (λ _. ⊤) _ _ (λ _. λ _. tt) (All_trivial _)) (omega arith)
                (λ b. λ _. λ after.
                  listed-deleted_range db laws t k b (e.0 + 1) (some block.number) cs
                    (in_range_after b e.0 block.number (omega arith))));
        has_listed = λ t. λ k. λ b. λ hb.
            let outside = deleted_range_outside db laws t k b (e.0 + 1) (some block.number) cs hb in
            let was_listed =
              sym (listed-deleted_range db laws t k b (e.0 + 1) (some block.number) cs outside)
              ∙ hb in
            let later =
              outside_range b e.0 block.number
                (listed_within t k b (λ z. e.0 < z) (db.changes cs) (is.after_earliest e he)
                  was_listed)
                outside in
            rw (pruned_tables-versions s e.0 block t k is) (
              pruned_by_keeps (λ ws. has_version b ws ≡ true) t k block.number
                (survivors_of s e.0 block.number t) (versions_of db laws t s k)
                (λ survivor. λ ws. λ before. has_version-prune_versions b survivor ws (omega arith))
                (below t) (is.has_listed t k b was_listed));
        after_earliest = λ e'. λ he'.
            let at : (block.number, block.hash) ≡ e' = cc in
            let number : block.number ≡ e'.0 = ap (λ z. z.0) at in
            All_mono _ _ _
              (λ row. λ p. let after = outside_range row.0 e.0 block.number p.0 p.1 in omega arith)
              (deleted_range-All db laws (λ (row : Change). e.0 < row.0) (e.0 + 1)
                (some block.number) cs (is.after_earliest e he));
      }

  prune_earliest_state_step :
      (s : Tables db) (e l : BlockNumHash) (block : BlockWithParent)
      → s.earliest_block ≡ some e
      → inner_get_latest_block_number_hash s ≡ some l
      → e.0 < block.number
      → block.number ≤ l.0
      → ((prune_earliest_state db s block).0 ≡ pruned_tables s e.0 block)
        × (is_err (prune_earliest_state db s block).1 ≡ false)
  unfolding prune_earliest_state calculate_prune_plan apply_prune_plan commit_update
      inner_set_earliest_block_number
  prune_earliest_state_step s e l block he hl lo hi =
      let reached : ltb l.0 block.number ≡ false = ground arith in
      let after : leb block.number e.0 ≡ false = ground arith in
      rw (inner_get_proof_window_lem s e l he hl, reached, after) (refl, refl)

  pub record PrunedTo (s s' : Tables db) (block : BlockWithParent) : Type 0 where
    pub is_store : IsStore db s'
    pub is_earliest : s'.earliest_block ≡ some (block.number, block.hash)
    pub same_latest : inner_get_latest_block_number_hash s' ≡ inner_get_latest_block_number_hash s
    pub reads :
        (t : TableName) (n : ℕ) (k : Key t)
        → block.number ≤ n
        → seek_exact db t (s'.history t) n k ≡ seek_exact db t (s.history t) n k

  same_latest :
      (latest earliest : Option BlockNumHash) (e l b : BlockNumHash)
      → earliest ≡ some e
      → or_else latest earliest ≡ some l
      → e.0 < l.0
      → or_else latest (some b) ≡ or_else latest earliest
  same_latest none earliest e l b he hl lo =
      let same : e ≡ l = cc in
      let at : e.0 ≡ l.0 = ap (λ z. z.0) same in
      let no : ltb e.0 l.0 ≡ false = ground arith in
      let yes : ltb e.0 l.0 ≡ true = ground arith in cc
  same_latest (some x) earliest e l b he hl lo = refl

  pruned_tables-PrunedTo :
      (s : Tables db) (e l : BlockNumHash) (block : BlockWithParent)
      → IsStore db s
      → s.earliest_block ≡ some e
      → inner_get_latest_block_number_hash s ≡ some l
      → e.0 < block.number
      → block.number ≤ l.0
      → has_change block.number (db.changes s.block_change_set) ≡ true
      → PrunedTo s (pruned_tables s e.0 block) block
  unfolding inner_get_latest_block_number_hash
  pruned_tables-PrunedTo s e l block is he hl lo hi h =
      let s' : Tables db = pruned_tables s e.0 block in
      let is' = pruned_tables-IsStore s e block is he lo h in
      record {
        is_store = is';
        is_earliest = refl;
        same_latest =
            same_latest s.latest_block s.earliest_block e l (block.number, block.hash) he hl
              (omega arith);
        reads = λ t. λ n. λ k. λ after.
            let items = survivors_of s e.0 block.number t in
            rw
              (
                seek_exact-latest_at db laws s' t n k is',
                seek_exact-latest_at db laws s t n k is,
                pruned_tables-versions s e.0 block t k is,
              )
              (pruned_by-live_value t k n block.number items (versions_of db laws t s k) after
                (candidates_of-Distinct t e.0 (db.walk_back s.block_change_set block.number) [] tt)
                (All_mono _ _ items
                  (λ i. λ p. (
                    p.0,
                    λ same. is.has_listed t k i.1 (
                        subst
                          (λ z.
                            listed t z i.1 (collect_history t (db.changes s.block_change_set))
                            ≡ true)
                          (sym ((same_key_iff t k i.0).0 same)) p.1),
                  ))
                  (survivors_of-listed s e.0 block.number t h)));
      }

  -- On tables in order, with the window from `e` to `l`, `prune_earliest_state` to a block after `e`, not
  -- after `l`, that has a change set succeeds: it leaves tables in order with the block as the earliest
  -- and with the same latest block, and every read as of that block or a later one is what it was.
  pub prune_earliest_state-PrunedTo :
      (s : Tables db) (e l : BlockNumHash) (block : BlockWithParent)
      → IsStore db s
      → s.earliest_block ≡ some e
      → inner_get_latest_block_number_hash s ≡ some l
      → e.0 < block.number
      → block.number ≤ l.0
      → has_change block.number (db.changes s.block_change_set) ≡ true
      → (is_err (prune_earliest_state db s block).1 ≡ false)
        × PrunedTo s (prune_earliest_state db s block).0 block
  prune_earliest_state-PrunedTo s e l block is he hl lo hi h =
      let step = prune_earliest_state_step s e l block he hl lo hi in
      (
        step.1,
        subst (λ z. PrunedTo s z block) (sym step.0)
            (pruned_tables-PrunedTo s e l block is he hl lo hi h),
      )

  commit_update-keeps :
      {A : Type 0} (s s' : Tables db) (r : Result StorageError (Tables db × A)) (x : StorageError)
      → commit_update s r ≡ (s', err x)
      → s' ≡ s
  unfolding commit_update
  commit_update-keeps s s' (ok (s'', a)) x h = let answer = ap (λ z. is_err z.1) h in cc
  commit_update-keeps s s' (err e) x h = sym (ap (λ z. z.0) h)

  unwrap_ok : {A : Type 0} {a b : A} → ◌≡◌ {A = Result StorageError A} (ok a) (ok b) → a ≡ b
  unwrap_ok h = cc

  -- The store on MDBX keeps what the pruner relies on: pruning to a block of the window makes that block
  -- the earliest and keeps the latest, and a pruning that answers an error leaves the tables as they were.
  pub mdbx_store-MovesEarliest : MovesEarliest (mdbx_store db)
  unfolding prune_earliest_state inner_get_latest_block_number_hash
      inner_get_earliest_block_number_hash
  mdbx_store-MovesEarliest = record {
    moves = λ s. λ s'. λ b. λ e. λ l. λ c. λ w. λ lo. λ hi. λ h.
        let he : s.earliest_block ≡ some e = unwrap_ok w.is_earliest in
        let hl : inner_get_latest_block_number_hash s ≡ some l = unwrap_ok w.is_latest in
        let step = prune_earliest_state_step s e l b he hl lo hi in
        let left : pruned_tables s e.0 b ≡ s' = sym step.0 ∙ ap (λ z. z.0) h in
        subst (λ z. Window (mdbx_store db) z (b.number, b.hash) l) left
          (record {
            is_earliest = refl;
            is_latest = ap ok (
                same_latest s.latest_block s.earliest_block e l (b.number, b.hash) he hl
                  (omega arith)
                ∙ hl);
          });
    keeps = λ s. λ s'. λ b. λ x. λ h.
        commit_update-keeps s s'
          (calculate_prune_plan db s b.number (inner_get_proof_window s)
            >>= apply_prune_plan db b s)
          x h;
  }
