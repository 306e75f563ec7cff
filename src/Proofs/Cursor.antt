-- ===== src/Proofs/Cursor.antt =====
-- crates/proofs/src/db/cursor.rs: the cursors that read a history table as of a block.
use morph_reth.Common.{
  ℕ, Bool, Option, none, some, List, [], ◌∷◌, ◌==◌, leb, ltb, if◌then◌else◌, get_last?,
}
use morph_reth.Proofs.Tables.{TableName, Key, VersionedValue, Database}

-- `seek_by_key_subkey`: the first version of the key at or after a block.
unfoldable pub seek_by_key_subkey : List VersionedValue → ℕ → Option VersionedValue
seek_by_key_subkey [] b = none
seek_by_key_subkey (v ∷ vs) b = if leb b v.block_number then some v else seek_by_key_subkey vs b

-- `prev_dup` after that seek: the version before the one that it found.
unfoldable pub prev_dup : Option VersionedValue → List VersionedValue → ℕ → Option VersionedValue
prev_dup before [] b = before
prev_dup before (v ∷ vs) b = if leb b v.block_number then before else prev_dup (some v) vs b

unfoldable pub version_from :
    Option VersionedValue → List VersionedValue → ℕ → Option VersionedValue
unfolding prev_dup
version_from (some found) vs max_block_number =
    if ltb max_block_number found.block_number
    then prev_dup none vs max_block_number
    else some found
version_from none vs max_block_number = get_last? vs

unfoldable pub latest_version_for_key : List VersionedValue → ℕ → Option VersionedValue
unfolding seek_by_key_subkey version_from
latest_version_for_key vs max_block_number =
    version_from (seek_by_key_subkey vs max_block_number) vs max_block_number

-- The value of a version that is no tombstone.
abbrev pub live_value : Option VersionedValue → Option ℕ
live_value none = none
live_value (some v) = v.value

module _ (db : Database) where
  unfoldable pub seek_exact : (t : TableName) → db.Rows t → ℕ → Key t → Option ℕ
  unfolding latest_version_for_key
  seek_exact t rows max_block_number k =
      live_value (latest_version_for_key (db.versions t rows k) max_block_number)

  -- A walk by `next` on one hashed address: it goes on to the next key that is live, ends at one of
  -- another address, and passes over values that the cursor takes for deleted.
  unfoldable pub walk_address :
      (t : TableName) → (Key t → ℕ × ℕ) → (ℕ → Bool) → db.Rows t → ℕ → ℕ → List (Key t) → List ℕ
  unfolding seek_exact
  walk_address t unkey is_deleted rows max_block_number address [] = []
  walk_address t unkey is_deleted rows max_block_number address (k ∷ ks) =
      let rest = walk_address t unkey is_deleted rows max_block_number address ks in
      elim (seek_exact t rows max_block_number k) [
        | none ↦ rest
        | some v ↦
            if (unkey k).0 == address
            then (if is_deleted v then rest else (unkey k).1 ∷ rest)
            else []
      ]
