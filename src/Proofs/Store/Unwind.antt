-- ===== src/Proofs/Store/Unwind.antt =====
-- `unwind_history` of crates/proofs/src/db/store.rs.
use morph_reth.Common.{
  ℕ, ◌-◌, ◌≤◌, ◌<◌, min, ◌≡◌, refl, sym, ap, subst, ◌∙◌, inl, inr, false, none, some, List, [], ◌∷◌,
  leb, ltb, Bool-cases, arith, All, ok,
}
use morph_reth.ProofsExex.SyncTarget.{BlockWithParent}
use morph_reth.Proofs.Api.{BlockNumHash}
use morph_reth.Proofs.Tables.{TableName, Key, VersionedValue, Database, IsDatabase}
use morph_reth.Proofs.Cursor.{live_value, seek_exact}
use morph_reth.Proofs.Store.{
  Tables, inner_get_latest_block_number_hash, inner_set_latest_block_number, commit_update,
}
use morph_reth.Proofs.Store.Delete.{
  in_range, walk_range, collect_history, delete_history_from, unwind_from, unwind_history,
}
use morph_reth.Proofs.Store.Reads.{latest_at, latest_version_for_key_lem}
use morph_reth.Proofs.Store.Rows.{
  AscendingFrom-ClimbsFrom, IsClimbing, listed, unlisted, delete_dup_sorted-versions,
  latest_at-unlisted, AscendingFrom-unlisted,
}
use morph_reth.Proofs.Store.Window.{inner_get_proof_window_lem}
use morph_reth.Proofs.Store.Listed.{
  AllListed, IsStore, listed-walk_range, collect_history_after, All-unlisted,
  AllListed-collect_history, All-delete_changes, has_version-unlisted,
}
use morph_reth.Proofs.Store.Ranges.{
  listed-walk_range_other, deleted_range_outside, listed-deleted_range,
}

-- The deletion of what is listed from a block on leaves the versions before it.
unlisted_below :
    (t : TableName) (k : Key t) (earliest to : ℕ) (all items : List (Key t × ℕ))
    (vs : List VersionedValue)
    → earliest < to
    → ((b : ℕ) → to ≤ b → listed t k b items ≡ listed t k b all)
    → AllListed t k earliest all vs
    → All (λ v. v.block_number < to) (unlisted t k items vs)
unlisted_below t k earliest to all items [] lo same a = tt
unlisted_below t k earliest to all items (v ∷ vs) lo same a =
    let rest = unlisted_below t k earliest to all items vs lo same a.1 in
    elim (Bool-cases (listed t k v.block_number items)) [
      | inl h ↦ rw h rest
      | inr h ↦ rw h (
        elim (Bool-cases (ltb v.block_number to)) [
          | inl low ↦ ground arith
          | inr high ↦
              let kept = same v.block_number (ground arith) in
              let is_listed = a.0 (ground arith) in cc
        ],
        rest,
      )
    ]

latest_at_below :
    (n to : ℕ) (vs : List VersionedValue)
    → 0 < to
    → All (λ v. v.block_number < to) vs
    → latest_at n vs ≡ latest_at (min n (to - 1)) vs
latest_at_below n to [] pos h = refl
latest_at_below n to (v ∷ vs) pos h =
    let same : leb v.block_number n ≡ leb v.block_number (min n (to - 1)) = ground (arith, h.0) in
    rw (same, latest_at_below n to vs pos h.1)

in_range_below : (b from : ℕ) → b < from → in_range from none b ≡ false
unfolding in_range
in_range_below b from h = ground arith

module _ (db : Database) (laws : IsDatabase db) where
  abbrev pub versions_of : (t : TableName) → Tables db → Key t → List VersionedValue
  versions_of t s k = db.versions t (s.history t) k

  -- The read as of a block, on tables in order.
  pub seek_exact-latest_at :
      (s : Tables db) (t : TableName) (n : ℕ) (k : Key t)
      → IsStore db s
      → seek_exact db t (s.history t) n k ≡ live_value (latest_at n (versions_of t s k))
  unfolding seek_exact
  seek_exact-latest_at s t n k is =
      ap live_value (latest_version_for_key_lem 0 n (versions_of t s k) (is.sorted t k))

  pub delete_history_from-unlisted :
      (s : Tables db) (from : ℕ) (t : TableName) (k : Key t)
      → IsClimbing db t (s.history t)
      → versions_of t (delete_history_from db from s) k
        ≡ unlisted t k
            (collect_history t (walk_range from none (db.changes s.block_change_set)))
            (versions_of t s k)
  unfolding delete_history_from
  delete_history_from-unlisted s from t k climbs =
      delete_dup_sorted-versions db laws t k _ (s.history t) climbs

  delete_history_from-versions :
      (s : Tables db) (from : ℕ) (t : TableName) (k : Key t)
      → IsStore db s
      → versions_of t (delete_history_from db from s) k
        ≡ unlisted t k
            (collect_history t (walk_range from none (db.changes s.block_change_set)))
            (versions_of t s k)
  delete_history_from-versions s from t k is =
      delete_history_from-unlisted s from t k
        (λ k'. AscendingFrom-ClimbsFrom 0 (versions_of t s k') (is.sorted t k'))

  delete_history_from_below :
      (s : Tables db) (e : BlockNumHash) (from : ℕ) (t : TableName) (k : Key t)
      → IsStore db s
      → s.earliest_block ≡ some e
      → e.0 < from
      → All
          (λ v. v.block_number < from)
          (unlisted t k
            (collect_history t (walk_range from none (db.changes s.block_change_set)))
            (versions_of t s k))
  delete_history_from_below s e from t k is he lo =
      let rows = db.changes s.block_change_set in
      unlisted_below t k e.0 from (collect_history t rows)
        (collect_history t (walk_range from none rows)) (versions_of t s k) lo
        (λ b. λ h. listed-walk_range t k b from rows h) (is.all_listed e he t k)

  pub delete_history_from-latest_at :
      (s : Tables db) (e : BlockNumHash) (from n : ℕ) (t : TableName) (k : Key t)
      → IsStore db s
      → s.earliest_block ≡ some e
      → e.0 < from
      → latest_at n (versions_of t (delete_history_from db from s) k)
        ≡ latest_at (min n (from - 1)) (versions_of t s k)
  delete_history_from-latest_at s e from n t k is he lo =
      let rows = db.changes s.block_change_set in
      let items = collect_history t (walk_range from none rows) in
      let below = delete_history_from_below s e from t k is he lo in
      rw
        (
          delete_history_from-versions s from t k is,
          latest_at_below n from (unlisted t k items (versions_of t s k)) (omega arith) below,
        )
        (latest_at-unlisted t (min n (from - 1)) k items (versions_of t s k)
          (collect_history_after t (min n (from - 1)) from rows (omega arith)))

  pub delete_history_from-IsStore :
      (s : Tables db) (e : BlockNumHash) (from : ℕ)
      → IsStore db s
      → s.earliest_block ≡ some e
      → e.0 < from
      → (latest : BlockNumHash)
      → IsStore db (inner_set_latest_block_number (delete_history_from db from s) latest)
  unfolding delete_history_from inner_set_latest_block_number
  delete_history_from-IsStore s e from is he lo latest = record {
    sorted = λ t. λ k.
        rw (delete_history_from-versions s from t k is)
          (AscendingFrom-unlisted t 0 k _ (versions_of t s k) (is.sorted t k));
    all_listed = λ e'. λ he'. λ t. λ k.
        let rows = db.changes s.block_change_set in
        let items = collect_history t (walk_range from none rows) in
        rw (delete_history_from-versions s from t k is) (
          AllListed-collect_history t k e'.0 e'.0 (λ b. b < from) (collect_history t rows) _
            (unlisted t k items (versions_of t s k))
            (All-unlisted _ t k items (versions_of t s k) (is.all_listed e' he' t k))
            (delete_history_from_below s e from t k is he lo) (omega arith)
            (λ b. λ low. λ _.
              listed-deleted_range db laws t k b from none s.block_change_set
                (in_range_below b from low)));
    has_listed = λ t. λ k. λ b. λ h.
        let outside = deleted_range_outside db laws t k b from none s.block_change_set h in
        let was_listed =
          sym (listed-deleted_range db laws t k b from none s.block_change_set outside) ∙ h in
        rw
          (
            delete_history_from-versions s from t k is,
            has_version-unlisted t k b _ (versions_of t s k)
                (listed-walk_range_other t k b from none (db.changes s.block_change_set) outside),
          )
          (is.has_listed t k b was_listed);
    after_earliest = λ e'. λ he'.
        All-delete_changes _ db laws (walk_range from none (db.changes s.block_change_set))
          s.block_change_set (is.after_earliest e' he');
  }

  pub record Unwound (s s' : Tables db) (to : BlockWithParent) : Type 0 where
    pub is_store : IsStore db s'
    pub same_earliest : s'.earliest_block ≡ s.earliest_block
    pub is_latest : inner_get_latest_block_number_hash s' ≡ some (to.number - 1, to.parent)
    pub reads :
        (t : TableName) (n : ℕ) (k : Key t)
        → seek_exact db t (s'.history t) n k
          ≡ seek_exact db t (s.history t) (min n (to.number - 1)) k

  -- Deleting from a block on and setting the latest block to its parent.
  pub delete_history_from-Unwound :
      (s : Tables db) (e : BlockNumHash) (to : BlockWithParent)
      → IsStore db s
      → s.earliest_block ≡ some e
      → e.0 < to.number
      → Unwound s
          (inner_set_latest_block_number
            (delete_history_from db to.number s)
            (to.number - 1, to.parent))
          to
  unfolding inner_set_latest_block_number inner_get_latest_block_number_hash delete_history_from
  delete_history_from-Unwound s e to is he lo =
      let s' : Tables db =
        inner_set_latest_block_number (delete_history_from db to.number s)
          (to.number - 1, to.parent) in
      let is' = delete_history_from-IsStore s e to.number is he lo (to.number - 1, to.parent) in
      record {
        is_store = is';
        same_earliest = refl;
        is_latest = refl;
        reads = λ t. λ n. λ k.
            rw
              (
                seek_exact-latest_at s' t n k is',
                seek_exact-latest_at s t (min n (to.number - 1)) k is,
              )
              (ap live_value (delete_history_from-latest_at s e to.number n t k is he lo));
      }

  pub unwind_history_step :
      (s : Tables db) (e l : BlockNumHash) (to : BlockWithParent)
      → s.earliest_block ≡ some e
      → inner_get_latest_block_number_hash s ≡ some l
      → e.0 < to.number
      → to.number ≤ l.0
      → ((unwind_history db s to).0
          ≡ inner_set_latest_block_number
              (delete_history_from db to.number s)
              (to.number - 1, to.parent))
        × ((unwind_history db s to).1 ≡ ok tt)
  unfolding unwind_history unwind_from commit_update
  unwind_history_step s e l to he hl lo hi =
      let reached : ltb l.0 to.number ≡ false = ground arith in
      let after : leb to.number e.0 ≡ false = ground arith in
      rw (inner_get_proof_window_lem s e l he hl, reached, after) (refl, refl)

  -- On tables in order, with the window from `e` to `l`, `unwind_history` to a block after `e` and not
  -- after `l` succeeds: it leaves tables in order with the same earliest block and with the parent of
  -- the block as the latest, and every read as of a block `n` is what the read as of the smaller of `n`
  -- and the parent's number was before.
  pub unwind_history-Unwound :
      (s : Tables db) (e l : BlockNumHash) (to : BlockWithParent)
      → IsStore db s
      → s.earliest_block ≡ some e
      → inner_get_latest_block_number_hash s ≡ some l
      → e.0 < to.number
      → to.number ≤ l.0
      → ((unwind_history db s to).1 ≡ ok tt) × Unwound s (unwind_history db s to).0 to
  unwind_history-Unwound s e l to is he hl lo hi =
      let step = unwind_history_step s e l to he hl lo hi in
      (
        step.1,
        subst (λ z. Unwound s z to) (sym step.0) (delete_history_from-Unwound s e to is he lo),
      )
