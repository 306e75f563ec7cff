-- ===== src/Proofs/Store/Candidates.antt =====
-- The survivors that `calculate_prune_plan` of crates/proofs/src/db/store.rs collects.
use morph_reth.Common.{
  ℕ, ◌≤◌, ◌≡◌, refl, inl, inr, true, false, List, [], ◌∷◌, map, leb, Bool-cases, arith, All,
}
use morph_reth.Proofs.Tables.{TableName, Key, same_key, Change, walk_down}
use morph_reth.Proofs.Store.Delete.{or_insert, or_insert_all, candidates_of, collect_history}
use morph_reth.Proofs.Store.Rows.{same_key_iff, listed}
use morph_reth.Proofs.Store.Listed.{listed_append, All-append}
use morph_reth.Proofs.Store.Ranges.{All_mono}
use morph_reth.Proofs.Store.Plan.{Distinct}

module _ (t : TableName) (Q : Key t × ℕ → Type 0) where
  or_insert-All :
      (k : Key t) (b : ℕ) (items : List (Key t × ℕ))
      → Q (k, b)
      → All Q items
      → All Q (or_insert t k b items)
  unfolding or_insert
  or_insert-All k b [] q a = (q, tt)
  or_insert-All k b ((k', b') ∷ items) q a = elim (Bool-cases (same_key t k k')) [
    | inl h ↦ rw h a
    | inr h ↦ rw h (a.0, or_insert-All k b items q a.1)
  ]

  or_insert_all-All :
      (ks : List (Key t)) (b : ℕ) (items : List (Key t × ℕ))
      → All (λ k. Q (k, b)) ks
      → All Q items
      → All Q (or_insert_all t ks b items)
  unfolding or_insert_all
  or_insert_all-All [] b items q a = a
  or_insert_all-All (k ∷ ks) b items q a =
      or_insert_all-All ks b (or_insert t k b items) q.1 (or_insert-All k b items q.0 a)

  pub candidates_of-All :
      (earliest : ℕ) (rows : List Change) (items : List (Key t × ℕ))
      → All (λ (row : Change). All (λ k. Q (k, row.0)) (row.1 t)) rows
      → All Q items
      → All Q (candidates_of t earliest rows items)
  unfolding candidates_of
  candidates_of-All earliest [] items q a = a
  candidates_of-All earliest ((b, c) ∷ rows) items q a = elim (Bool-cases (leb b earliest)) [
    | inl h ↦ rw h a
    | inr h ↦ rw h (
        candidates_of-All earliest rows (or_insert_all t (c t) b items) q.1
          (or_insert_all-All (c t) b items q.0 a))
  ]

or_insert-Distinct :
    (t : TableName) (k : Key t) (b : ℕ) (items : List (Key t × ℕ))
    → Distinct t items
    → Distinct t (or_insert t k b items)
unfolding or_insert
or_insert-Distinct t k b [] d = (tt, tt)
or_insert-Distinct t k b ((k', b') ∷ items) d = elim (Bool-cases (same_key t k k')) [
  | inl h ↦ rw h d
  | inr h ↦ rw h (
    or_insert-All t (λ (i : Key t × ℕ). same_key t i.0 k' ≡ false) k b items h d.0,
    or_insert-Distinct t k b items d.1,
  )
]

or_insert_all-Distinct :
    (t : TableName) (ks : List (Key t)) (b : ℕ) (items : List (Key t × ℕ))
    → Distinct t items
    → Distinct t (or_insert_all t ks b items)
unfolding or_insert_all
or_insert_all-Distinct t [] b items d = d
or_insert_all-Distinct t (k ∷ ks) b items d =
    or_insert_all-Distinct t ks b (or_insert t k b items) (or_insert-Distinct t k b items d)

pub candidates_of-Distinct :
    (t : TableName) (earliest : ℕ) (rows : List Change) (items : List (Key t × ℕ))
    → Distinct t items
    → Distinct t (candidates_of t earliest rows items)
unfolding candidates_of
candidates_of-Distinct t earliest [] items d = d
candidates_of-Distinct t earliest ((b, c) ∷ rows) items d = elim (Bool-cases (leb b earliest)) [
  | inl h ↦ rw h d
  | inr h ↦ rw h (
      candidates_of-Distinct t earliest rows (or_insert_all t (c t) b items)
        (or_insert_all-Distinct t (c t) b items d))
]

pub listed-map :
    (t : TableName) (b : ℕ) (ks : List (Key t))
    → All (λ (k : Key t). listed t k b (map (λ k. (k, b)) ks) ≡ true) ks
listed-map t b [] = tt
listed-map t b (k ∷ ks) =
    let same = (same_key_iff t k k).1 refl in
    (
      ground arith,
      All_mono (λ (k' : Key t). listed t k' b (map (λ k. (k, b)) ks) ≡ true) _ ks
          (λ k'. λ h. ground arith) (listed-map t b ks),
    )

-- The keys of every row are listed at its block.
collect_history-All :
    (t : TableName) (rows : List Change)
    → All
        (λ (row : Change).
          All (λ (k : Key t). listed t k row.0 (collect_history t rows) ≡ true) (row.1 t))
        rows
unfolding collect_history
collect_history-All t [] = tt
collect_history-All t ((b, c) ∷ rows) =
    let here : List (Key t × ℕ) = map (λ k. (k, b)) (c t) in
    (
      All_mono (λ (k : Key t). listed t k b here ≡ true) _ (c t)
          (λ k. λ h. rw (listed_append t k b here (collect_history t rows), h))
          (listed-map t b (c t)),
      All_mono
          (λ (row : Change).
            All (λ (k : Key t). listed t k row.0 (collect_history t rows) ≡ true) (row.1 t))
          _ rows
          (λ row. λ a.
            All_mono (λ (k : Key t). listed t k row.0 (collect_history t rows) ≡ true) _ (row.1 t)
              (λ k.
                λ h. rw (listed_append t k row.0 here (collect_history t rows), h) (ground arith))
              a)
          (collect_history-All t rows),
    )

walk_down-All :
    (P : Change → Type 0) (b : ℕ) (rows : List Change)
    → All P rows
    → All (λ (row : Change). (row.0 ≤ b) × P row) (walk_down b rows)
walk_down-All P b [] a = tt
walk_down-All P b (row ∷ rows) a =
    let rest = walk_down-All P b rows a.1 in
    elim (Bool-cases (leb row.0 b)) [
      | inl h ↦ rw h (All-append _ (walk_down b rows) (row ∷ []) rest ((ground arith, a.0), tt))
      | inr h ↦ rw h (All-append _ (walk_down b rows) [] rest tt)
    ]

-- Each survivor is listed, at or before the target.
pub candidates_listed :
    (t : TableName) (earliest target : ℕ) (rows : List Change)
    → All
        (λ (i : Key t × ℕ). (i.1 ≤ target) × (listed t i.0 i.1 (collect_history t rows) ≡ true))
        (candidates_of t earliest (walk_down target rows) [])
candidates_listed t earliest target rows =
    candidates_of-All t _ earliest (walk_down target rows) []
      (All_mono _ _ (walk_down target rows)
        (λ row. λ p. All_mono _ _ (row.1 t) (λ k. λ h. (p.0, h)) p.1)
        (walk_down-All _ target rows (collect_history-All t rows)))
      tt
