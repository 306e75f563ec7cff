-- ===== src/Proofs/MemoryDatabase.antt =====
-- A database in memory, as an instance of the interface of Proofs/Tables: the rows of a table are a
-- function of the key, the change sets a list.
use morph_reth.Common.{
  ℕ, ◌<◌, ◌≡◌, ◌≢◌, refl, sym, ap, ◌∙◌, Bool, true, false, ◌&&◌, none, some, List, [], ◌∷◌, ◌++◌,
  ◌+◌, ◌||◌, ◌==◌, Option, ltb, if◌then◌else◌, arith, All, inl, inr,
}
use morph_reth.Proofs.Tables.{
  TableName, Key, same_key, VersionedValue, Change, without_version, without_change, walk_down,
  Database, IsDatabase,
}
use morph_reth.Proofs.Store.Rows.{same_key_iff, key_cases}

abbrev pub MemoryRows : TableName → Type 0
MemoryRows t = Key t → List VersionedValue

-- The bytes of a row: the block, then the value.
abbrev pub value_rank : Option ℕ → ℕ
value_rank none = 0
value_rank (some x) = x + 1

abbrev pub row_before : VersionedValue → VersionedValue → Bool
row_before v w =
    ltb v.block_number w.block_number
    || (v.block_number == w.block_number && ltb (value_rank v.value) (value_rank w.value))

abbrev pub all_before : VersionedValue → List VersionedValue → Bool
all_before w [] = true
all_before w (v ∷ vs) = row_before v w && all_before w vs

abbrev pub changes_before : ℕ → List Change → Bool
changes_before b [] = true
changes_before b (c ∷ cs) = ltb c.0 b && changes_before b cs

abbrev pub set_versions :
    (t : TableName) → Key t → List VersionedValue → MemoryRows t → MemoryRows t
set_versions t k vs rows = λ k'. if same_key t k' k then vs else rows k'

abbrev pub memory_db : Database
memory_db = record {
  Rows = MemoryRows;
  versions = λ t. λ rows. λ k. rows k;
  keys_from = λ t. λ rows. λ k. [];
  append_dup = λ t. λ rows. λ k. λ v.
      if all_before v (rows k) then some (set_versions t k (rows k ++ (v ∷ [])) rows) else none;
  delete_row = λ t. λ rows. λ k. λ b. set_versions t k (without_version b (rows k)) rows;
  ChangeSets = List Change;
  changes = λ cs. cs;
  append = λ cs. λ b. λ c. if changes_before b cs then some (cs ++ ((b, c) ∷ [])) else none;
  delete_change = λ cs. λ b. without_change b cs;
  walk_back = λ cs. λ b. walk_down b cs;
}

guard_some :
    {A : Type 0} (b : Bool) (a a' : A)
    → (if b then some a else none) ≡ some a'
    → (b ≡ true) × (a ≡ a')
guard_some true a a' h = (refl, cc)
guard_some false a a' h = cc

changes_before-All :
    (b : ℕ) (cs : List Change) → changes_before b cs ≡ true → All (λ (c : Change). c.0 < b) cs
changes_before-All b [] h = tt
changes_before-All b (c ∷ cs) h =
    let rest : changes_before b cs ≡ true = ground arith in
    (ground arith, changes_before-All b cs rest)

set_versions_same :
    (t : TableName) (k : Key t) (vs : List VersionedValue) (rows : MemoryRows t)
    → set_versions t k vs rows k ≡ vs
set_versions_same t k vs rows = let same = (same_key_iff t k k).1 refl in rw same

set_versions_other :
    (t : TableName) (k other : Key t) (vs : List VersionedValue) (rows : MemoryRows t)
    → other ≢ k
    → set_versions t k vs rows other ≡ rows other
set_versions_other t k other vs rows d = elim (key_cases t other k) [
  | inl e ↦ elim (d e) [ ]
  | inr differ ↦ rw differ.1
]

pub memory_db-IsDatabase : IsDatabase memory_db
memory_db-IsDatabase = record {
  append_dup_key = λ t. λ rows. λ rows'. λ k. λ v. λ h.
      let taken = guard_some (all_before v (rows k)) _ rows' h in
      ap (λ r. r k) (sym taken.1) ∙ set_versions_same t k (rows k ++ (v ∷ [])) rows;
  append_dup_other = λ t. λ rows. λ rows'. λ k. λ other. λ v. λ h. λ d.
      let taken = guard_some (all_before v (rows k)) _ rows' h in
      ap (λ r. r other) (sym taken.1) ∙ set_versions_other t k other (rows k ++ (v ∷ [])) rows d;
  delete_row_key = λ t. λ rows. λ k. λ b. set_versions_same t k (without_version b (rows k)) rows;
  delete_row_other = λ t. λ rows.
      λ k. λ other. λ b. λ d. set_versions_other t k other (without_version b (rows k)) rows d;
  append_changes = λ cs.
      λ cs'. λ b. λ c. λ h. sym (guard_some (changes_before b cs) (cs ++ ((b, c) ∷ [])) cs' h).1;
  append_above = λ cs. λ cs'. λ b. λ c.
      λ h. changes_before-All b cs (guard_some (changes_before b cs) (cs ++ ((b, c) ∷ [])) cs' h).0;
  delete_change_changes = λ cs. λ b. refl;
  walk_back_down = λ cs. λ b. λ h. refl;
}
