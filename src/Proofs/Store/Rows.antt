-- ===== src/Proofs/Store/Rows.antt =====
-- The versions of a key after the deletions of `delete_dup_sorted` in crates/proofs/src/db/store.rs.
use morph_reth.Common.{
  ℕ, ◌+◌, ◌<◌, ◌≤◌, ⊤, ◌≡◌, ◌≢◌, ◌↔◌, refl, sym, ap, subst, ◌⊎◌, inl, inr, Bool, true, false, ◌&&◌,
  ◌||◌, Option, none, some, List, [], ◌∷◌, ◌==◌, leb, if◌then◌else◌, Bool-cases, ==_iff, arith, All,
}
use morph_reth.Proofs.Tables.{
  TableName, account_trie, storage_trie, hashed_account, hashed_storage, Key, same_key,
  VersionedValue, without_version, Database, IsDatabase,
}
use morph_reth.Proofs.Cursor.{seek_by_key_subkey}
use morph_reth.Proofs.Store.Delete.{delete_found, delete_dup_sorted}
use morph_reth.Proofs.Store.Reads.{latest_at, or_else-none, AscendingFrom, AscendingFrom-mono}

pair_iff : (a k b l : ℕ) → ((a == b && k == l) ≡ true) ↔ (◌≡◌ {A = ℕ × ℕ} (a, k) (b, l))
pair_iff a k b l = (
  λ h.
      let first : a ≡ b = ground arith in
      let second : k ≡ l = ground arith in λ i. (first i, second i),
  λ p. let first : a ≡ b = ap (λ x. x.0) p in let second : k ≡ l = ap (λ x. x.1) p in ground arith,
)

pub same_key_iff : (t : TableName) (a b : Key t) → (same_key t a b ≡ true) ↔ (a ≡ b)
unfolding same_key
same_key_iff account_trie a b = ==_iff a b
same_key_iff hashed_account a b = ==_iff a b
same_key_iff storage_trie (a, k) (b, l) = pair_iff a k b l
same_key_iff hashed_storage (a, k) (b, l) = pair_iff a k b l

pub key_cases : (t : TableName) (a b : Key t) → (a ≡ b) ⊎ ((a ≢ b) × (same_key t a b ≡ false))
key_cases t a b = elim (Bool-cases (same_key t a b)) [
  | inl h ↦ inl ((same_key_iff t a b).0 h)
  | inr h ↦ inr (λ e. let h' = (same_key_iff t a b).1 e in cc, h)
]

-- Whether a row is among those to delete.
abbrev pub listed : (t : TableName) → Key t → ℕ → List (Key t × ℕ) → Bool
listed t k b [] = false
listed t k b ((k', b') ∷ items) = (same_key t k k' && b == b') || listed t k b items

abbrev pub unlisted :
    (t : TableName) → Key t → List (Key t × ℕ) → List VersionedValue → List VersionedValue
unlisted t k items [] = []
unlisted t k items (v ∷ vs) =
    if listed t k v.block_number items then unlisted t k items vs else v ∷ unlisted t k items vs

-- The blocks of versions ascend from `lo` on, and one block may have several.
abbrev pub ClimbsFrom : ℕ → List VersionedValue → Type 0
ClimbsFrom lo [] = ⊤
ClimbsFrom lo (v ∷ vs) = (lo ≤ v.block_number) × ClimbsFrom v.block_number vs

pub ClimbsFrom-mono :
    (lo lo' : ℕ) (vs : List VersionedValue) → lo' ≤ lo → ClimbsFrom lo vs → ClimbsFrom lo' vs
ClimbsFrom-mono lo lo' [] h s = tt
ClimbsFrom-mono lo lo' (v ∷ vs) h s = (omega (arith, s.0), s.1)

pub AscendingFrom-ClimbsFrom :
    (lo : ℕ) (vs : List VersionedValue) → AscendingFrom lo vs → ClimbsFrom lo vs
AscendingFrom-ClimbsFrom lo [] s = tt
AscendingFrom-ClimbsFrom lo (v ∷ vs) s = (
  s.0,
  ClimbsFrom-mono (v.block_number + 1) v.block_number vs (omega arith)
      (AscendingFrom-ClimbsFrom (v.block_number + 1) vs s.1),
)

ClimbsFrom-without_version :
    (lo b : ℕ) (vs : List VersionedValue) → ClimbsFrom lo vs → ClimbsFrom lo (without_version b vs)
ClimbsFrom-without_version lo b [] s = tt
ClimbsFrom-without_version lo b (v ∷ vs) s =
    let rest = ClimbsFrom-without_version v.block_number b vs s.1 in
    elim (Bool-cases (v.block_number == b)) [
      | inl e ↦ rw e (ClimbsFrom-mono v.block_number lo (without_version b vs) (s.0) rest)
      | inr e ↦ rw e (s.0, rest)
    ]

pub without_version_above :
    (b lo : ℕ) (vs : List VersionedValue) → ClimbsFrom lo vs → b < lo → without_version b vs ≡ vs
without_version_above b lo [] s h = refl
without_version_above b lo (v ∷ vs) s h =
    let rest = without_version_above b v.block_number vs s.1 (omega (arith, s.0)) in
    let other : (v.block_number == b) ≡ false = ground (arith, s.0) in rw (other, rest)

-- What a seek says of a row that it does not find.
abbrev Missed : ℕ → List VersionedValue → Option VersionedValue → Type 0
Missed b vs none = without_version b vs ≡ vs
Missed b vs (some v) = (v.block_number == b) ≡ false → without_version b vs ≡ vs

Missed-cons :
    (b : ℕ) (v : VersionedValue) (vs : List VersionedValue) (o : Option VersionedValue)
    → (v.block_number == b) ≡ false
    → Missed b vs o
    → Missed b (v ∷ vs) o
Missed-cons b v vs none other m = rw (other, m)
Missed-cons b v vs (some w) other m = λ h. rw (other, m h)

seek_by_key_subkey-Missed :
    (b lo : ℕ) (vs : List VersionedValue) → ClimbsFrom lo vs → Missed b vs (seek_by_key_subkey vs b)
unfolding seek_by_key_subkey
seek_by_key_subkey-Missed b lo [] s = refl
seek_by_key_subkey-Missed b lo (v ∷ vs) s = elim (Bool-cases (leb b v.block_number)) [
  | inl h ↦ rw h (λ other.
      let above = without_version_above b v.block_number vs s.1 (ground arith) in rw (other, above))
  | inr h ↦
      let other : (v.block_number == b) ≡ false = ground arith in
      rw h (
        Missed-cons b v vs (seek_by_key_subkey vs b) other
          (seek_by_key_subkey-Missed b v.block_number vs s.1))
]

unlisted_none : (t : TableName) (k : Key t) (vs : List VersionedValue) → unlisted t k [] vs ≡ vs
unlisted_none t k [] = refl
unlisted_none t k (v ∷ vs) = rw (unlisted_none t k vs)

unlisted_same :
    (t : TableName) (k k' : Key t) (b : ℕ) (items : List (Key t × ℕ)) (vs : List VersionedValue)
    → same_key t k k' ≡ true
    → unlisted t k ((k', b) ∷ items) vs ≡ unlisted t k items (without_version b vs)
unlisted_same t k k' b items [] h = refl
unlisted_same t k k' b items (v ∷ vs) h =
    let rest = unlisted_same t k k' b items vs h in
    elim (Bool-cases (v.block_number == b)) [ inl e ↦ rw (h, e, rest) | inr e ↦ rw (h, e, rest) ]

unlisted_other :
    (t : TableName) (k k' : Key t) (b : ℕ) (items : List (Key t × ℕ)) (vs : List VersionedValue)
    → same_key t k k' ≡ false
    → unlisted t k ((k', b) ∷ items) vs ≡ unlisted t k items vs
unlisted_other t k k' b items [] h = refl
unlisted_other t k k' b items (v ∷ vs) h = rw (h, unlisted_other t k k' b items vs h)

module _ (db : Database) where
  -- The versions of every key ascend.
  abbrev pub IsSorted : (t : TableName) → db.Rows t → Type 0
  IsSorted t rows = (k : Key t) → AscendingFrom 0 (db.versions t rows k)

  abbrev pub IsClimbing : (t : TableName) → db.Rows t → Type 0
  IsClimbing t rows = (k : Key t) → ClimbsFrom 0 (db.versions t rows k)

module _ (db : Database) (laws : IsDatabase db) where
  delete_found-versions :
      (t : TableName) (k : Key t) (b : ℕ) (rows : db.Rows t) (o : Option VersionedValue)
      → Missed b (db.versions t rows k) o
      → db.versions t (delete_found db t k b o rows) k ≡ without_version b (db.versions t rows k)
  unfolding delete_found
  delete_found-versions t k b rows none m = sym m
  delete_found-versions t k b rows (some v) m = elim (Bool-cases (v.block_number == b)) [
    | inl e ↦ rw e (laws.delete_row_key t rows k b)
    | inr e ↦ rw e (sym (m e))
  ]

  delete_found-versions_other :
      (t : TableName) (k other : Key t) (b : ℕ) (rows : db.Rows t) (o : Option VersionedValue)
      → other ≢ k
      → db.versions t (delete_found db t k b o rows) other ≡ db.versions t rows other
  unfolding delete_found
  delete_found-versions_other t k other b rows none d = refl
  delete_found-versions_other t k other b rows (some v) d =
      elim (Bool-cases (v.block_number == b)) [
        | inl e ↦ rw e (laws.delete_row_other t rows k other b d)
        | inr e ↦ rw e
      ]

  -- The rows after the deletion of one item.
  abbrev without_item : (t : TableName) → Key t → ℕ → db.Rows t → db.Rows t
  without_item t k b rows = delete_found db t k b (seek_by_key_subkey (db.versions t rows k) b) rows

  without_item-versions :
      (t : TableName) (k k' : Key t) (b : ℕ) (rows : db.Rows t)
      → IsClimbing db t rows
      → db.versions t (without_item t k' b rows) k ≡ (
          if same_key t k k'
          then without_version b (db.versions t rows k)
          else db.versions t rows k)
  without_item-versions t k k' b rows sorted = elim (key_cases t k k') [
    | inl e ↦ rw ((same_key_iff t k k').1 e) (
        subst
          (λ z.
            db.versions t (without_item t k' b rows) z ≡ without_version b (db.versions t rows z))
          (sym e)
          (delete_found-versions t k' b rows _
            (seek_by_key_subkey-Missed b 0 (db.versions t rows k') (sorted k'))))
    | inr d ↦ rw d.1 (delete_found-versions_other t k' k b rows _ d.0)
  ]

  without_item-IsClimbing :
      (t : TableName) (k' : Key t) (b : ℕ) (rows : db.Rows t)
      → IsClimbing db t rows
      → IsClimbing db t (without_item t k' b rows)
  without_item-IsClimbing t k' b rows sorted = λ k.
      rw (without_item-versions t k k' b rows sorted) (elim (Bool-cases (same_key t k k')) [
        | inl h ↦ rw h (ClimbsFrom-without_version 0 b (db.versions t rows k) (sorted k))
        | inr h ↦ rw h (sorted k)
      ])

  pub delete_dup_sorted-versions :
      (t : TableName) (k : Key t) (items : List (Key t × ℕ)) (rows : db.Rows t)
      → IsClimbing db t rows
      → db.versions t (delete_dup_sorted db t items rows) k
        ≡ unlisted t k items (db.versions t rows k)
  unfolding delete_dup_sorted
  delete_dup_sorted-versions t k [] rows sorted = sym (unlisted_none t k (db.versions t rows k))
  delete_dup_sorted-versions t k ((k', b) ∷ items) rows sorted =
      rw
        (
          delete_dup_sorted-versions t k items (without_item t k' b rows)
              (without_item-IsClimbing t k' b rows sorted),
          without_item-versions t k k' b rows sorted,
        )
        (elim (key_cases t k k') [
          | inl e ↦
              let h = (same_key_iff t k k').1 e in
              rw h (sym (unlisted_same t k k' b items (db.versions t rows k) h))
          | inr d ↦ rw d.1 (sym (unlisted_other t k k' b items (db.versions t rows k) d.1))
        ])

-- A deletion after a block does not change what is read as of that block.
listed_above :
    (t : TableName) (n b : ℕ) (k : Key t) (items : List (Key t × ℕ))
    → All (λ i. n < i.1) items
    → listed t k b items ≡ true
    → n < b
listed_above t n b k [] above h = cc
listed_above t n b k ((k', b') ∷ items) above h = elim (Bool-cases (same_key t k k' && b == b')) [
  | inl e ↦ let same : b ≡ b' = ground arith in omega (arith, above.0)
  | inr e ↦ listed_above t n b k items above.1 (rw e at h)
]

pub latest_at-unlisted :
    (t : TableName) (n : ℕ) (k : Key t) (items : List (Key t × ℕ)) (vs : List VersionedValue)
    → All (λ i. n < i.1) items
    → latest_at n (unlisted t k items vs) ≡ latest_at n vs
latest_at-unlisted t n k items [] above = refl
latest_at-unlisted t n k items (v ∷ vs) above =
    let rest = latest_at-unlisted t n k items vs above in
    elim (Bool-cases (listed t k v.block_number items)) [
      | inl h ↦
          let after : leb v.block_number n ≡ false =
            let later = listed_above t n v.block_number k items above h in ground arith in
          rw (h, after, rest, or_else-none (latest_at n vs))
      | inr h ↦ rw (h, rest)
    ]

pub AscendingFrom-unlisted :
    (t : TableName) (lo : ℕ) (k : Key t) (items : List (Key t × ℕ)) (vs : List VersionedValue)
    → AscendingFrom lo vs
    → AscendingFrom lo (unlisted t k items vs)
AscendingFrom-unlisted t lo k items [] s = tt
AscendingFrom-unlisted t lo k items (v ∷ vs) s =
    let rest = AscendingFrom-unlisted t (v.block_number + 1) k items vs s.1 in
    elim (Bool-cases (listed t k v.block_number items)) [
      | inl h ↦ rw h (AscendingFrom-mono (v.block_number + 1) lo _ (omega (arith, s.0)) rest)
      | inr h ↦ rw h (s.0, rest)
    ]
