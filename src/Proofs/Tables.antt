-- ===== src/Proofs/Tables.antt =====
-- crates/proofs/src/db/models: the tables of the proof database. The database itself, libmdbx through
-- reth_db, is an interface: its tables, what a cursor walks on them, and the calls that write.
use morph_reth.Common.{
  ℕ, ◌<◌, ◌≡◌, ◌≢◌, ◌++◌, Bool, true, false, ◌&&◌, ◌||◌, Option, some, List, [], ◌∷◌, ◌==◌, leb,
  if◌then◌else◌, All,
}

-- The four history tables.
pub data TableName : Type 0 where
  account_trie : TableName
  storage_trie : TableName
  hashed_account : TableName
  hashed_storage : TableName

-- `StorageTrieKey` and `HashedStorageKey` are a hashed address and a path, or a slot.
abbrev pub Key : TableName → Type 0
Key account_trie = ℕ
Key storage_trie = ℕ × ℕ
Key hashed_account = ℕ
Key hashed_storage = ℕ × ℕ

unfoldable pub same_key : (t : TableName) → Key t → Key t → Bool
same_key account_trie a b = a == b
same_key storage_trie a b = a.0 == b.0 && a.1 == b.1
same_key hashed_account a b = a == b
same_key hashed_storage a b = a.0 == b.0 && a.1 == b.1

-- One thing for each of the tables.
abbrev pub four :
    (F : TableName → Type 0)
    → F account_trie
    → F storage_trie
    → F hashed_account
    → F hashed_storage
    → (t : TableName) → F t
four F a s h r account_trie = a
four F a s h r storage_trie = s
four F a s h r hashed_account = h
four F a s h r hashed_storage = r

-- `VersionedValue` with its `MaybeDeleted` value: no value is a tombstone.
pub record VersionedValue : Type 0 where
  pub block_number : ℕ
  pub value : Option ℕ

-- The four lists of keys of a `ChangeSet`.
abbrev pub ChangeSet : Type 0
ChangeSet = (t : TableName) → List (Key t)

-- A row of `BlockChangeSet`.
abbrev pub Change : Type 0
Change = ℕ × ChangeSet

pub record Database : Type 1 where
  pub Rows : TableName → Type 0
  -- the rows of one key, as a cursor on its first row walks them by `next_dup_val`
  pub versions : (t : TableName) → Rows t → Key t → List VersionedValue
  -- the distinct keys from one on, as `seek` and `next_no_dup` walk them
  pub keys_from : (t : TableName) → Rows t → Key t → List (Key t)
  -- no answer when the database refuses the row
  pub append_dup : (t : TableName) → Rows t → Key t → VersionedValue → Option (Rows t)
  -- `delete_current` on the row of a key and a block
  pub delete_row : (t : TableName) → Rows t → Key t → ℕ → Rows t
  pub ChangeSets : Type 0
  -- the rows of `BlockChangeSet`, as `walk_range(..)` walks them
  pub changes : ChangeSets → List Change
  pub append : ChangeSets → ℕ → ChangeSet → Option ChangeSets
  -- `delete_current` on the row of a block
  pub delete_change : ChangeSets → ℕ → ChangeSets
  -- the rows that `walk_back(Some(block))` walks
  pub walk_back : ChangeSets → ℕ → List Change

abbrev pub without_version : ℕ → List VersionedValue → List VersionedValue
without_version b [] = []
without_version b (v ∷ vs) =
    if v.block_number == b then without_version b vs else v ∷ without_version b vs

abbrev pub without_change : ℕ → List Change → List Change
without_change b [] = []
without_change b (c ∷ cs) = if c.0 == b then without_change b cs else c ∷ without_change b cs

abbrev pub has_change : ℕ → List Change → Bool
has_change b [] = false
has_change b (row ∷ rows) = row.0 == b || has_change b rows

-- The rows at or before a block, from the last one on.
abbrev pub walk_down : ℕ → List Change → List Change
walk_down b [] = []
walk_down b (row ∷ rows) = walk_down b rows ++ (if leb row.0 b then row ∷ [] else [])

-- The documented behaviour of the calls.
pub record IsDatabase (db : Database) : Type 0 where
  -- MDBX_APPENDDUP: the new row comes after the other rows of its key, or is refused; a row of the same
  -- key and block may be taken, as rows are ordered by block and then by value
  pub append_dup_key :
      (t : TableName) (rows rows' : db.Rows t) (k : Key t) (v : VersionedValue)
      → db.append_dup t rows k v ≡ some rows'
      → db.versions t rows' k ≡ db.versions t rows k ++ (v ∷ [])
  pub append_dup_other :
      (t : TableName) (rows rows' : db.Rows t) (k other : Key t) (v : VersionedValue)
      → db.append_dup t rows k v ≡ some rows'
      → other ≢ k
      → db.versions t rows' other ≡ db.versions t rows other
  pub delete_row_key :
      (t : TableName) (rows : db.Rows t) (k : Key t) (b : ℕ)
      → db.versions t (db.delete_row t rows k b) k ≡ without_version b (db.versions t rows k)
  pub delete_row_other :
      (t : TableName) (rows : db.Rows t) (k other : Key t) (b : ℕ)
      → other ≢ k
      → db.versions t (db.delete_row t rows k b) other ≡ db.versions t rows other
  -- MDBX_APPEND: the new row comes after all others, or is refused
  pub append_changes :
      (cs cs' : db.ChangeSets) (b : ℕ) (c : ChangeSet)
      → db.append cs b c ≡ some cs'
      → db.changes cs' ≡ db.changes cs ++ ((b, c) ∷ [])
  pub append_above :
      (cs cs' : db.ChangeSets) (b : ℕ) (c : ChangeSet)
      → db.append cs b c ≡ some cs'
      → All (λ row. row.0 < b) (db.changes cs)
  pub delete_change_changes :
      (cs : db.ChangeSets) (b : ℕ)
      → db.changes (db.delete_change cs b) ≡ without_change b (db.changes cs)
  pub walk_back_down :
      (cs : db.ChangeSets) (b : ℕ)
      → has_change b (db.changes cs) ≡ true
      → db.walk_back cs b ≡ walk_down b (db.changes cs)
