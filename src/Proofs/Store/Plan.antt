-- ===== src/Proofs/Store/Plan.antt =====
-- What a plan of `calculate_prune_plan` in crates/proofs/src/db/store.rs does to the versions of a key.
use morph_reth.Common.{
  ℕ, ◌+◌, ◌≤◌, ◌≡◌, ◌≢◌, refl, sym, ap, subst, ◌∙◌, inl, inr, true, false, not, ◌&&◌, List, [], ◌∷◌,
  ◌==◌, leb, if◌then◌else◌, is_some, Bool-cases, arith, All, ⊤,
}
use morph_reth.Proofs.Tables.{
  TableName, Key, same_key, VersionedValue, without_version, Database, IsDatabase,
}
use morph_reth.Proofs.Cursor.{live_value}
use morph_reth.Proofs.Store.Delete.{prune_key, prune_history_preceding}
use morph_reth.Proofs.Store.Reads.{latest_at, AscendingFrom}
use morph_reth.Proofs.Store.Rows.{IsSorted, same_key_iff, key_cases}
use morph_reth.Proofs.Store.Listed.{has_version}
use morph_reth.Proofs.Store.Survivors.{
  prune_versions, without_first, prune_versions-live_value, AscendingFrom-prune_versions,
}

-- The versions of a key after a plan.
abbrev pub pruned_by :
    (t : TableName) → Key t → List (Key t × ℕ) → List VersionedValue → List VersionedValue
pruned_by t k [] vs = vs
pruned_by t k ((k', survivor) ∷ items) vs =
    pruned_by t k items (if same_key t k k' then prune_versions survivor vs else vs)

-- No key stands twice in a plan.
abbrev pub Distinct : (t : TableName) → List (Key t × ℕ) → Type 0
Distinct t [] = ⊤
Distinct t ((k, survivor) ∷ items) =
    All (λ (i : Key t × ℕ). same_key t i.0 k ≡ false) items × Distinct t items

-- The survivors of a plan are versions at or before the target.
abbrev pub Survives : (t : TableName) → Key t → ℕ → List VersionedValue → Key t × ℕ → Type 0
Survives t k target vs i = (i.1 ≤ target) × (same_key t k i.0 ≡ true → has_version i.1 vs ≡ true)

pruned_by_other :
    (t : TableName) (k : Key t) (items : List (Key t × ℕ)) (vs : List VersionedValue)
    → All (λ (i : Key t × ℕ). same_key t i.0 k ≡ false) items
    → pruned_by t k items vs ≡ vs
pruned_by_other t k [] vs a = refl
pruned_by_other t k ((k', survivor) ∷ items) vs a =
    let other : same_key t k k' ≡ false = elim (key_cases t k k') [
      | inl e ↦ let same = (same_key_iff t k' k).1 (sym e) in let differ = a.0 in cc
      | inr d ↦ d.1
    ] in
    rw (other, pruned_by_other t k items vs a.1)

pub pruned_by-live_value :
    (t : TableName) (k : Key t) (n target : ℕ) (items : List (Key t × ℕ)) (vs : List VersionedValue)
    → target ≤ n
    → Distinct t items
    → All (Survives t k target vs) items
    → live_value (latest_at n (pruned_by t k items vs)) ≡ live_value (latest_at n vs)
pruned_by-live_value t k n target [] vs h d a = refl
pruned_by-live_value t k n target ((k', survivor) ∷ items) vs h d a = elim (key_cases t k k') [
  | inl e ↦
      let same = (same_key_iff t k k').1 e in
      let rest : All (λ (i : Key t × ℕ). same_key t i.0 k ≡ false) items =
        subst (λ z. All (λ (i : Key t × ℕ). same_key t i.0 z ≡ false) items) (sym e) d.0 in
      rw (same, pruned_by_other t k items (prune_versions survivor vs) rest)
        (prune_versions-live_value n survivor vs (omega (arith, a.0.0)) (a.0.1 same))
  | inr other ↦ rw other.1 (pruned_by-live_value t k n target items vs h d.1 a.1)
]

-- A property that the pruning of one key keeps.
pub pruned_by_keeps :
    (P : List VersionedValue → Type 0) (t : TableName) (k : Key t) (target : ℕ)
    (items : List (Key t × ℕ)) (vs : List VersionedValue)
    → ((survivor : ℕ) (ws : List VersionedValue)
        → survivor ≤ target
        → P ws
        → P (prune_versions survivor ws))
    → All (λ (i : Key t × ℕ). i.1 ≤ target) items
    → P vs
    → P (pruned_by t k items vs)
pruned_by_keeps P t k target [] vs keeps a p = p
pruned_by_keeps P t k target ((k', survivor) ∷ items) vs keeps a p =
    elim (Bool-cases (same_key t k k')) [
      | inl same ↦
          rw same (pruned_by_keeps P t k target items _ keeps a.1 (keeps survivor vs a.0 p))
      | inr other ↦ rw other (pruned_by_keeps P t k target items vs keeps a.1 p)
    ]

module _ (db : Database) (laws : IsDatabase db) where
  prune_key-versions :
      (t : TableName) (k : Key t) (survivor lo : ℕ) (vs : List VersionedValue) (rows : db.Rows t)
      → AscendingFrom lo vs
      → db.versions t rows k ≡ vs
      → db.versions t (prune_key db t k survivor vs rows).0 k ≡ prune_versions survivor vs
  unfolding prune_key
  prune_key-versions t k survivor lo [] rows s e = e
  prune_key-versions t k survivor lo (v ∷ vs) rows s e =
      let deleted : db.versions t (db.delete_row t rows k v.block_number) k ≡ vs =
        laws.delete_row_key t rows k v.block_number
        ∙ ap (without_version v.block_number) e
        ∙ without_first v vs s.1 in
      elim (Bool-cases (leb survivor v.block_number)) [
        | inl reached ↦ elim (Bool-cases (v.block_number == survivor && not (is_some v.value))) [
          | inl tombstone ↦ rw (reached, tombstone) deleted
          | inr kept ↦ rw (reached, kept) e
        ]
        | inr before ↦ rw before (
            prune_key-versions t k survivor (v.block_number + 1) vs
              (db.delete_row t rows k v.block_number) s.1 deleted)
      ]

  prune_key-versions_other :
      (t : TableName) (k other : Key t) (survivor : ℕ) (vs : List VersionedValue) (rows : db.Rows t)
      → other ≢ k
      → db.versions t (prune_key db t k survivor vs rows).0 other ≡ db.versions t rows other
  unfolding prune_key
  prune_key-versions_other t k other survivor [] rows d = refl
  prune_key-versions_other t k other survivor (v ∷ vs) rows d =
      let deleted = laws.delete_row_other t rows k other v.block_number d in
      elim (Bool-cases (leb survivor v.block_number)) [
        | inl reached ↦ elim (Bool-cases (v.block_number == survivor && not (is_some v.value))) [
          | inl tombstone ↦ rw (reached, tombstone) deleted
          | inr kept ↦ rw (reached, kept)
        ]
        | inr before ↦ rw before (
            prune_key-versions_other t k other survivor vs (db.delete_row t rows k v.block_number) d
            ∙ deleted)
      ]

  abbrev pruned_rows : (t : TableName) → Key t → ℕ → db.Rows t → db.Rows t
  pruned_rows t k survivor rows = (prune_key db t k survivor (db.versions t rows k) rows).0

  pruned_rows-versions :
      (t : TableName) (k k' : Key t) (survivor : ℕ) (rows : db.Rows t)
      → IsSorted db t rows
      → db.versions t (pruned_rows t k' survivor rows) k ≡ (
          if same_key t k k'
          then prune_versions survivor (db.versions t rows k)
          else db.versions t rows k)
  pruned_rows-versions t k k' survivor rows sorted = elim (key_cases t k k') [
    | inl e ↦ rw ((same_key_iff t k k').1 e) (
        subst
          (λ z.
            db.versions t (pruned_rows t k' survivor rows) z
            ≡ prune_versions survivor (db.versions t rows z))
          (sym e)
          (prune_key-versions t k' survivor 0 (db.versions t rows k') rows (sorted k') refl))
    | inr d ↦ rw d.1 (prune_key-versions_other t k' k survivor (db.versions t rows k') rows d.0)
  ]

  pruned_rows-IsSorted :
      (t : TableName) (k' : Key t) (survivor : ℕ) (rows : db.Rows t)
      → IsSorted db t rows
      → IsSorted db t (pruned_rows t k' survivor rows)
  pruned_rows-IsSorted t k' survivor rows sorted = λ k.
      rw (pruned_rows-versions t k k' survivor rows sorted) (elim (Bool-cases (same_key t k k')) [
        | inl h ↦ rw h (AscendingFrom-prune_versions 0 survivor (db.versions t rows k) (sorted k))
        | inr h ↦ rw h (sorted k)
      ])

  pub prune_history_preceding-versions :
      (t : TableName) (k : Key t) (items : List (Key t × ℕ)) (rows : db.Rows t)
      → IsSorted db t rows
      → db.versions t (prune_history_preceding db t items rows).0 k
        ≡ pruned_by t k items (db.versions t rows k)
  unfolding prune_history_preceding
  prune_history_preceding-versions t k [] rows sorted = refl
  prune_history_preceding-versions t k ((k', survivor) ∷ items) rows sorted =
      prune_history_preceding-versions t k items (pruned_rows t k' survivor rows)
        (pruned_rows-IsSorted t k' survivor rows sorted)
      ∙ ap (pruned_by t k items) (pruned_rows-versions t k k' survivor rows sorted)
