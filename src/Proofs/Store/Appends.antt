-- ===== src/Proofs/Store/Appends.antt =====
-- The versions of a key after the appends of crates/proofs/src/db/store.rs for one block.
use morph_reth.Common.{
  ℕ, ◌<◌, ◌≡◌, refl, sym, ap, subst, ◌∙◌, inl, inr, Bool, true, false, ◌||◌, Option, some, List, [],
  ◌∷◌, ◌++◌, map, ◌+◌, ◌≤◌, ltb, length, if◌then◌else◌, Option-cases, arith, All, ok, split_ok,
}
use morph_reth.Proofs.Tables.{TableName, Key, same_key, VersionedValue, Database, IsDatabase}
use morph_reth.Proofs.Store.Write.{
  appended, append_all, persist_history_batch, StorageDiff, StorageTable, entries_to_write,
  persist_storages,
}
use morph_reth.Proofs.Store.Rows.{same_key_iff, key_cases}
use morph_reth.Proofs.Store.Listed.{All-append}

-- How often a key is among those that a step answers.
abbrev pub count_key : (t : TableName) → Key t → List (Key t) → ℕ
count_key t k [] = 0
count_key t k (k' ∷ ks) = (if same_key t k k' then 1 else 0) + count_key t k ks

-- The versions of a key before and after the appends of a block: so many of the block are added at the
-- end.
abbrev pub GrownBy : ℕ → List VersionedValue → List VersionedValue → ℕ → Type 0
GrownBy block vs ws n =
    (us : List VersionedValue) × (ws ≡ vs ++ us)
    × (length us ≡ n)
    × All (λ u. u.block_number ≡ block) us

-- Whether a key is among those that a step answers.
abbrev pub has_key : (t : TableName) → Key t → List (Key t) → Bool
has_key t k [] = false
has_key t k (k' ∷ ks) = same_key t k k' || has_key t k ks

pub has_key-count_key :
    (t : TableName) (k : Key t) (ks : List (Key t)) → has_key t k ks ≡ ltb 0 (count_key t k ks)
has_key-count_key t k [] = ground arith
has_key-count_key t k (k' ∷ ks) = ground (arith, has_key-count_key t k ks)

-- As before, or with one version of the block after those of earlier blocks.
abbrev pub Grown : ℕ → List VersionedValue → List VersionedValue → Bool → Type 0
Grown block vs ws false = ws ≡ vs
Grown block vs ws true =
    (v : VersionedValue) × (v.block_number ≡ block)
    × (ws ≡ vs ++ (v ∷ []))
    × All (λ u. u.block_number < block) vs

append_assoc_lem : {A : Type 0} (xs ys zs : List A) → (xs ++ ys) ++ zs ≡ xs ++ (ys ++ zs)
append_assoc_lem [] ys zs = refl
append_assoc_lem (x ∷ xs) ys zs = ap (λ z. x ∷ z) (append_assoc_lem xs ys zs)

length-append : {A : Type 0} (xs ys : List A) → length (xs ++ ys) ≡ length xs + length ys
length-append [] ys = omega arith
length-append (x ∷ xs) ys = let rest = length-append xs ys in omega arith

pub append-nil : {A : Type 0} (xs : List A) → xs ++ [] ≡ xs
append-nil [] = refl
append-nil (x ∷ xs) = ap (λ z. x ∷ z) (append-nil xs)

GrownBy-refl : (block : ℕ) (vs : List VersionedValue) → GrownBy block vs vs 0
GrownBy-refl block vs = ([], sym (append-nil vs), refl, tt)

GrownBy-append :
    (block : ℕ) (us vs ws : List VersionedValue) (n m : ℕ)
    → GrownBy block us vs n
    → GrownBy block vs ws m
    → GrownBy block us ws (n + m)
GrownBy-append block us vs ws n m (x, e, l, a) (y, e', l', a') = (
  x ++ y,
  e' ∙ ap (λ z. z ++ y) e ∙ append_assoc_lem us x y,
  length-append x y ∙ (omega arith),
  All-append (λ u. u.block_number ≡ block) x y a a',
)

pub count_key-append :
    (t : TableName) (k : Key t) (xs ys : List (Key t))
    → count_key t k (xs ++ ys) ≡ count_key t k xs + count_key t k ys
count_key-append t k [] ys = omega arith
count_key-append t k (x ∷ xs) ys = let rest = count_key-append t k xs ys in omega arith

pub GrownBy-Grown :
    (block : ℕ) (vs ws : List VersionedValue) (n : ℕ)
    → All (λ u. u.block_number < block) vs
    → n ≤ 1
    → GrownBy block vs ws n
    → Grown block vs ws (ltb 0 n)
GrownBy-Grown block vs ws n below once ([], e, l, a) =
    let none_new : ltb 0 n ≡ false = ground (arith, l) in rw none_new (e ∙ append-nil vs)
GrownBy-Grown block vs ws n below once (u ∷ [], e, l, a) =
    let one_new : ltb 0 n ≡ true = ground (arith, l) in rw one_new (u, a.0, e, below)
GrownBy-Grown block vs ws n below once (u ∷ u' ∷ us, e, l, a) = absurd (omega (arith, l, once))

module _ (db : Database) (laws : IsDatabase db) where
  abbrev pub Appended : (t : TableName) → ℕ → db.Rows t → db.Rows t → List (Key t) → Type 0
  Appended t block rows rows' keys =
      (k : Key t)
      → GrownBy block (db.versions t rows k) (db.versions t rows' k) (count_key t k keys)

  append_dup-GrownBy :
      (t : TableName) (block : ℕ) (rows rows' : db.Rows t) (k' : Key t) (value : Option ℕ)
      (k : Key t)
      → db.append_dup t rows k' (record { block_number = block; value = value }) ≡ some rows'
      → GrownBy block
          (db.versions t rows k)
          (db.versions t rows' k)
          (if same_key t k k' then 1 else 0)
  append_dup-GrownBy t block rows rows' k' value k h =
      let v : VersionedValue = record { block_number = block; value = value } in
      elim (key_cases t k k') [
        | inl e ↦ rw ((same_key_iff t k k').1 e) (
            subst (λ z. GrownBy block (db.versions t rows z) (db.versions t rows' z) 1) (sym e)
              (v ∷ [], laws.append_dup_key t rows rows' k' v h, refl, (refl, tt)))
        | inr d ↦
            rw (d.1, laws.append_dup_other t rows rows' k' k v h d.0)
              (GrownBy-refl block (db.versions t rows k))
      ]

  pub append_all-Appended :
      (t : TableName) (block : ℕ) (items : List (Key t × Option ℕ)) (rows rows' : db.Rows t)
      → append_all db block items rows ≡ ok rows'
      → Appended t block rows rows' (map (λ i. i.0) items)
  unfolding append_all appended
  append_all-Appended t block [] rows rows' h =
      let same : rows ≡ rows' = cc in
      λ k.
        subst (λ z. GrownBy block (db.versions t rows k) (db.versions t z k) 0) same
          (GrownBy-refl block (db.versions t rows k))
  append_all-Appended t block ((k', value) ∷ items) rows rows' h =
      elim (Option-cases
        (db.append_dup t rows k' (record { block_number = block; value = value }))) [
          | inl refused ↦ let failed = rw refused at h in cc
          | inr appended_row ↦
              let r = appended_row.0 in
              let rest = append_all-Appended t block items r rows' (rw appended_row.1 at h) in
              λ k.
                GrownBy-append block (db.versions t rows k) (db.versions t r k)
                  (db.versions t rows' k) (if same_key t k k' then 1 else 0)
                  (count_key t k (map (λ i. i.0) items))
                  (append_dup-GrownBy t block rows r k' value k appended_row.1) (rest k)
        ]

  pub persist_history_batch-Appended :
      (t : TableName) (block : ℕ) (items : List (Key t × Option ℕ)) (rows : db.Rows t)
      (written : db.Rows t × List (Key t))
      → persist_history_batch db block items rows ≡ ok written
      → Appended t block rows written.0 written.1
  unfolding persist_history_batch
  persist_history_batch-Appended t block items rows written h =
      let (r, run, last) = split_ok (append_all db block items rows) _ h in
      let same : (r, map (λ i. i.0) items) ≡ written = cc in
      subst (λ z. Appended t block rows z.0 z.1) same (append_all-Appended t block items rows r run)

  pub persist_storages-Appended :
      (t : TableName) (table : StorageTable t) (block : ℕ) (diffs : List (StorageDiff (Option ℕ)))
      (rows : db.Rows t) (written : db.Rows t × List (Key t))
      → persist_storages db table block diffs rows ≡ ok written
      → Appended t block rows written.0 written.1
  unfolding persist_storages
  persist_storages-Appended t table block [] rows written h =
      let same : (rows, []) ≡ written = cc in
      subst (λ z. Appended t block rows z.0 z.1) same
        (λ k. GrownBy-refl block (db.versions t rows k))
  persist_storages-Appended t table block (diff ∷ diffs) rows written h =
      let items : List (Key t × Option ℕ) =
        map (λ e. (table.key diff.hashed_address e.0, e.1))
          (entries_to_write db table block diff rows) in
      let (one, run, more) = split_ok (persist_history_batch db block items rows) _ h in
      let (rest, run', last) = split_ok (persist_storages db table block diffs one.0) _ more in
      let same : (rest.0, one.1 ++ rest.1) ≡ written = cc in
      subst (λ z. Appended t block rows z.0 z.1) same
        (λ k. rw (count_key-append t k one.1 rest.1) (
          GrownBy-append block (db.versions t rows k) (db.versions t one.0 k)
            (db.versions t rest.0 k) (count_key t k one.1) (count_key t k rest.1)
            (persist_history_batch-Appended t block items rows one run k)
            (persist_storages-Appended t table block diffs one.0 rest run' k)))
