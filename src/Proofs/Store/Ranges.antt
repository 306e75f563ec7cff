-- ===== src/Proofs/Store/Ranges.antt =====
-- The change sets of crates/proofs/src/db/store.rs after those of a range of blocks are deleted.
use morph_reth.Common.{
  ℕ, ◌≡◌, inl, inr, Bool, true, false, ◌||◌, Option, List, [], ◌∷◌, ◌==◌, Bool-cases, arith, All, ⊤,
}
use morph_reth.Proofs.Tables.{TableName, Key, Change, without_change, Database, IsDatabase}
use morph_reth.Proofs.Store.Delete.{in_range, walk_range, collect_history, delete_changes}
use morph_reth.Proofs.Store.Rows.{listed}
use morph_reth.Proofs.Store.Listed.{
  listed-delete_changes, walk_range_other, listed_within, All-delete_changes,
}

has_block : ℕ → List Change → Bool
has_block b [] = false
has_block b (row ∷ rows) = b == row.0 || has_block b rows

pub All_mono :
    {A : Type 0} (P Q : A → Type 0) (xs : List A) → ((x : A) → P x → Q x) → All P xs → All Q xs
All_mono P Q [] f a = tt
All_mono P Q (x ∷ xs) f a = (f x a.0, All_mono P Q xs f a.1)

pub All_trivial : {A : Type 0} (xs : List A) → All (λ _. ⊤) xs
All_trivial [] = tt
All_trivial (x ∷ xs) = (tt, All_trivial xs)

All_both :
    {A : Type 0} (P Q : A → Type 0) (xs : List A) → All P xs → All Q xs → All (λ x. P x × Q x) xs
All_both P Q [] a b = tt
All_both P Q (x ∷ xs) a b = ((a.0, b.0), All_both P Q xs a.1 b.1)

pub walk_range_in :
    (from : ℕ) (to : Option ℕ) (rows : List Change)
    → All (λ (row : Change). in_range from to row.0 ≡ true) (walk_range from to rows)
unfolding walk_range
walk_range_in from to [] = tt
walk_range_in from to (row ∷ rows) =
    let rest = walk_range_in from to rows in
    elim (Bool-cases (in_range from to row.0)) [ inl h ↦ rw h (h, rest) | inr h ↦ rw h rest ]

-- A block outside the range is not among the items of the range.
pub listed-walk_range_other :
    (t : TableName) (k : Key t) (b from : ℕ) (to : Option ℕ) (rows : List Change)
    → in_range from to b ≡ false
    → listed t k b (collect_history t (walk_range from to rows)) ≡ false
listed-walk_range_other t k b from to rows h =
    elim (Bool-cases (listed t k b (collect_history t (walk_range from to rows)))) [
      | inr e ↦ e
      | inl e ↦
          let within =
            listed_within t k b (λ z. in_range from to z ≡ true) (walk_range from to rows)
              (walk_range_in from to rows) e in
          cc
    ]

-- A row of the range is still to be deleted.
abbrev Pending : ℕ → Option ℕ → List Change → Change → Type 0
Pending from to rows row = in_range from to row.0 ≡ true → has_block row.0 rows ≡ true

walk_range-Pending :
    (from : ℕ) (to : Option ℕ) (rows : List Change)
    → All (Pending from to (walk_range from to rows)) rows
unfolding walk_range has_block
walk_range-Pending from to [] = tt
walk_range-Pending from to (row ∷ rows) =
    let rest = walk_range-Pending from to rows in
    elim (Bool-cases (in_range from to row.0)) [
      | inl h ↦ rw h (
        λ _. ground arith,
        All_mono (Pending from to (walk_range from to rows)) _ rows
            (λ c. λ p. λ i. let q = p i in ground arith) rest,
      )
      | inr h ↦ (
        λ i. cc,
        All_mono (Pending from to (walk_range from to rows)) _ rows (λ c. λ p. λ i. rw h (p i))
            rest,
      )
    ]

without_change-Pending :
    (from : ℕ) (to : Option ℕ) (row : Change) (rows cs : List Change)
    → All (Pending from to (row ∷ rows)) cs
    → All (Pending from to rows) (without_change row.0 cs)
unfolding has_block
without_change-Pending from to row rows [] a = tt
without_change-Pending from to row rows (c ∷ cs) a =
    let rest = without_change-Pending from to row rows cs a.1 in
    elim (Bool-cases (c.0 == row.0)) [
      | inl h ↦ rw h rest
      | inr h ↦ rw h (λ i. let p = a.0 i in rw h at p, rest)
    ]

module _ (db : Database) (laws : IsDatabase db) where
  delete_changes-Pending :
      (from : ℕ) (to : Option ℕ) (rows : List Change) (cs : db.ChangeSets)
      → All (Pending from to rows) (db.changes cs)
      → All (Pending from to []) (db.changes (delete_changes db rows cs))
  unfolding delete_changes
  delete_changes-Pending from to [] cs a = a
  delete_changes-Pending from to (row ∷ rows) cs a =
      delete_changes-Pending from to rows (db.delete_change cs row.0) (
        rw (laws.delete_change_changes cs row.0)
          (without_change-Pending from to row rows (db.changes cs) a))

  abbrev pub deleted_range : ℕ → Option ℕ → db.ChangeSets → db.ChangeSets
  deleted_range from to cs = delete_changes db (walk_range from to (db.changes cs)) cs

  -- What is listed after the deletion is outside the range.
  pub deleted_range_outside :
      (t : TableName) (k : Key t) (b from : ℕ) (to : Option ℕ) (cs : db.ChangeSets)
      → listed t k b (collect_history t (db.changes (deleted_range from to cs))) ≡ true
      → in_range from to b ≡ false
  unfolding has_block
  deleted_range_outside t k b from to cs h =
      let gone : in_range from to b ≡ true → false ≡ true =
        listed_within t k b (λ z. in_range from to z ≡ true → false ≡ true) _
          (delete_changes-Pending from to (walk_range from to (db.changes cs)) cs
            (walk_range-Pending from to (db.changes cs)))
          h in
      elim (Bool-cases (in_range from to b)) [ inr e ↦ e | inl e ↦ let absurd = gone e in cc ]

  pub listed-deleted_range :
      (t : TableName) (k : Key t) (b from : ℕ) (to : Option ℕ) (cs : db.ChangeSets)
      → in_range from to b ≡ false
      → listed t k b (collect_history t (db.changes (deleted_range from to cs)))
        ≡ listed t k b (collect_history t (db.changes cs))
  listed-deleted_range t k b from to cs h =
      listed-delete_changes db laws t k b _ cs (walk_range_other b from to (db.changes cs) h)

  -- The rows after the deletion are rows from before it, outside the range.
  pub deleted_range-All :
      (P : Change → Type 0) (from : ℕ) (to : Option ℕ) (cs : db.ChangeSets)
      → All P (db.changes cs)
      → All
          (λ (row : Change). P row × (in_range from to row.0 ≡ false))
          (db.changes (deleted_range from to cs))
  unfolding has_block
  deleted_range-All P from to cs a =
      All_both P (λ (row : Change). in_range from to row.0 ≡ false) _
        (All-delete_changes P db laws (walk_range from to (db.changes cs)) cs a)
        (All_mono (Pending from to []) _ _
          (λ row. λ gone. elim (Bool-cases (in_range from to row.0)) [
            | inr e ↦ e
            | inl e ↦ let absurd = gone e in cc
          ])
          (delete_changes-Pending from to (walk_range from to (db.changes cs)) cs
            (walk_range-Pending from to (db.changes cs))))
