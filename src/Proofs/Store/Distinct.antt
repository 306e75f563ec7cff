-- ===== src/Proofs/Store/Distinct.antt =====
-- The keys that crates/proofs/src/db/store.rs writes for one block. The sorted trie updates and post state
-- of reth give each hashed address, path and slot once.
use morph_reth.Common.{
  ℕ, ◌+◌, ◌≤◌, ◌<◌, ◌≡◌, refl, ap, subst, ◌∙◌, sym, inl, inr, false, ◌&&◌, Option, none, some, List,
  [], ◌∷◌, ◌++◌, map, ◌==◌, if◌then◌else◌, Bool-cases, arith, All, ok, split_ok,
}
use morph_reth.ProofsExex.Cache.{put}
use morph_reth.ProofsExex.Cache.Bounded.{SortedFrom, put-SortedFrom}
use morph_reth.Proofs.Tables.{
  TableName, account_trie, storage_trie, hashed_account, hashed_storage, Key, same_key, Database,
}
use morph_reth.Proofs.Store.Write.{
  BlockStateDiff, StorageDiff, StorageTable, trie_nodes, slots, slot_entries, overlay, tombstones,
  wiped_entries, entries_to_write, persist_history_batch, persist_storages, append_all,
}
use morph_reth.Common.Words.{wrapping_sub}
use morph_reth.Proofs.Cursor.{walk_address}
use morph_reth.Proofs.Store.Appends.{count_key, count_key-append}

-- How often a number is in a list.
abbrev pub times : ℕ → List ℕ → ℕ
times n [] = 0
times n (m ∷ ms) = (if n == m then 1 else 0) + times n ms

abbrev pub IsOnce : List ℕ → Type 0
IsOnce ns = (n : ℕ) → times n ns ≤ 1

abbrev pub keys_of : {V : Type 0} → List (ℕ × V) → List ℕ
keys_of items = map (λ i. i.0) items

-- Every account, node and address is there once, and so is every node and slot of an address.
pub record IsDiff (diff : BlockStateDiff) : Type 0 where
  pub nodes_once : IsOnce (keys_of diff.account_nodes)
  pub accounts_once : IsOnce (keys_of diff.accounts)
  pub tries_once :
      IsOnce (map (λ (d : StorageDiff (Option ℕ)). d.hashed_address) diff.storage_tries)
  pub storages_once : IsOnce (map (λ (d : StorageDiff ℕ). d.hashed_address) diff.storages)
  pub trie_entries_once :
      All (λ (d : StorageDiff (Option ℕ)). IsOnce (keys_of d.entries)) diff.storage_tries
  pub slot_entries_once : All (λ (d : StorageDiff ℕ). IsOnce (keys_of d.entries)) diff.storages

times_below :
    {V : Type 0} (n lo : ℕ) (c : List (ℕ × V)) → SortedFrom lo c → n < lo → times n (keys_of c) ≡ 0
times_below n lo [] s h = refl
times_below n lo ((k, d) ∷ c) s h =
    let rest = times_below n (k + 1) c s.1 (omega (arith, s.0)) in
    let other : (n == k) ≡ false = ground (arith, s.0) in rw (other, rest) (omega arith)

SortedFrom-IsOnce : {V : Type 0} (lo : ℕ) (c : List (ℕ × V)) → SortedFrom lo c → IsOnce (keys_of c)
SortedFrom-IsOnce lo [] s n = omega arith
SortedFrom-IsOnce lo ((k, d) ∷ c) s n = elim (Bool-cases (n == k)) [
  | inl e ↦
      let low : n < k + 1 = ground arith in rw (e, times_below n (k + 1) c s.1 low) (omega arith)
  | inr e ↦ rw e (let rest = SortedFrom-IsOnce (k + 1) c s.1 n in omega arith)
]

overlay-SortedFrom :
    (merged entries : List (ℕ × Option ℕ))
    → SortedFrom 0 merged
    → SortedFrom 0 (overlay merged entries)
unfolding overlay
overlay-SortedFrom merged [] s = s
overlay-SortedFrom merged ((k, v) ∷ entries) s =
    overlay-SortedFrom (put k v merged) entries (put-SortedFrom 0 k v merged s (omega arith))

tombstones-SortedFrom :
    (ks : List ℕ) (merged : List (ℕ × Option ℕ))
    → SortedFrom 0 merged
    → SortedFrom 0 (tombstones ks merged)
unfolding tombstones
tombstones-SortedFrom [] merged s = s
tombstones-SortedFrom (k ∷ ks) merged s =
    tombstones-SortedFrom ks (put k none merged) (put-SortedFrom 0 k none merged s (omega arith))

wiped_entries-IsOnce :
    (live : List ℕ) (entries : List (ℕ × Option ℕ)) → IsOnce (keys_of (wiped_entries live entries))
unfolding wiped_entries
wiped_entries-IsOnce live entries =
    SortedFrom-IsOnce 0 (overlay (tombstones live []) entries)
      (overlay-SortedFrom (tombstones live []) entries (tombstones-SortedFrom live [] tt))

slot_entries_keys :
    (es : List (ℕ × ℕ)) → keys_of (map (λ (e : ℕ × ℕ). (e.0, some e.1)) es) ≡ keys_of es
slot_entries_keys [] = refl
slot_entries_keys (e ∷ es) = ap (λ z. e.0 ∷ z) (slot_entries_keys es)

pub slot_entries-IsOnce :
    (ds : List (StorageDiff ℕ))
    → All (λ (d : StorageDiff ℕ). IsOnce (keys_of d.entries)) ds
    → All (λ (d : StorageDiff (Option ℕ)). IsOnce (keys_of d.entries)) (map slot_entries ds)
unfolding slot_entries
slot_entries-IsOnce [] a = tt
slot_entries-IsOnce (d ∷ ds) a =
    (subst IsOnce (sym (slot_entries_keys d.entries)) a.0, slot_entries-IsOnce ds a.1)

pub slot_entries_addresses :
    (ds : List (StorageDiff ℕ))
    → map (λ (d : StorageDiff (Option ℕ)). d.hashed_address) (map slot_entries ds)
      ≡ map (λ (d : StorageDiff ℕ). d.hashed_address) ds
unfolding slot_entries
slot_entries_addresses [] = refl
slot_entries_addresses (d ∷ ds) = ap (λ z. d.hashed_address ∷ z) (slot_entries_addresses ds)

-- A key of a table of storage has an address and a path or slot.
abbrev pub Splits : (t : TableName) → StorageTable t → Key t → Type 0
Splits t table k =
    (a : ℕ) × (p : ℕ) × ((a' p' : ℕ) → same_key t k (table.key a' p') ≡ (a == a') && (p == p'))

pub trie_nodes-Splits : (k : Key storage_trie) → Splits storage_trie trie_nodes k
unfolding same_key
trie_nodes-Splits (a, p) = (a, p, λ a' p'. refl)

pub slots-Splits : (k : Key hashed_storage) → Splits hashed_storage slots k
unfolding same_key
slots-Splits (a, p) = (a, p, λ a' p'. refl)

pub account_nodes-count_key :
    (k : Key account_trie) (ks : List ℕ) → count_key account_trie k ks ≡ times k ks
unfolding same_key
account_nodes-count_key k [] = refl
account_nodes-count_key k (k' ∷ ks) = let rest = account_nodes-count_key k ks in omega arith

pub accounts-count_key :
    (k : Key hashed_account) (ks : List ℕ) → count_key hashed_account k ks ≡ times k ks
unfolding same_key
accounts-count_key k [] = refl
accounts-count_key k (k' ∷ ks) = let rest = accounts-count_key k ks in omega arith

pub persist_history_batch_keys :
    (t : TableName) (db : Database) (block : ℕ) (items : List (Key t × Option ℕ)) (rows : db.Rows t)
    (written : db.Rows t × List (Key t))
    → persist_history_batch db block items rows ≡ ok written
    → written.1 ≡ map (λ i. i.0) items
unfolding persist_history_batch
persist_history_batch_keys t db block items rows written h =
    let (r, run, last) = split_ok (append_all db block items rows) _ h in
    let same : (r, map (λ i. i.0) items) ≡ written = cc in sym (ap (λ z. z.1) same)

module _ (t : TableName) (table : StorageTable t) where
  -- The keys of one address.
  abbrev address_items : ℕ → List (ℕ × Option ℕ) → List (Key t × Option ℕ)
  address_items address entries = map (λ e. (table.key address e.0, e.1)) entries

  address_items-count_key :
      (k : Key t) (s : Splits t table k) (address : ℕ) (entries : List (ℕ × Option ℕ))
      → count_key t k (map (λ i. i.0) (address_items address entries))
        ≡ (if s.0 == address then times (s.1) (keys_of entries) else 0)
  address_items-count_key k (a, p, f) address [] = ground arith
  address_items-count_key k (a, p, f) address ((q, v) ∷ entries) =
      rw (f address q, address_items-count_key k (a, p, f) address entries) (ground arith)

  module _ (db : Database) where
    entries_to_write-IsOnce :
        (block : ℕ) (diff : StorageDiff (Option ℕ)) (rows : db.Rows t)
        → IsOnce (keys_of diff.entries)
        → IsOnce (keys_of (entries_to_write db table block diff rows))
    unfolding entries_to_write
    entries_to_write-IsOnce block diff rows h = elim (Bool-cases (diff.is_wiped)) [
      | inl w ↦ rw w (
          wiped_entries-IsOnce
            (walk_address db t table.unkey table.is_deleted rows (wrapping_sub 64 block 1)
              diff.hashed_address (db.keys_from t rows (table.key diff.hashed_address 0)))
            diff.entries)
      | inr w ↦ rw w h
    ]

    pub persist_storages-count_key :
        (k : Key t) (s : Splits t table k) (block : ℕ) (diffs : List (StorageDiff (Option ℕ)))
        (rows : db.Rows t) (written : db.Rows t × List (Key t))
        → All (λ (d : StorageDiff (Option ℕ)). IsOnce (keys_of d.entries)) diffs
        → persist_storages db table block diffs rows ≡ ok written
        → count_key t k written.1
          ≤ times (s.0) (map (λ (d : StorageDiff (Option ℕ)). d.hashed_address) diffs)
    unfolding persist_storages
    persist_storages-count_key k s block [] rows written once h =
        let same : (rows, []) ≡ written = cc in
        subst (λ z. count_key t k z.1 ≤ 0) same (omega arith)
    persist_storages-count_key k s block (diff ∷ diffs) rows written once h =
        let entries = entries_to_write db table block diff rows in
        let items = address_items diff.hashed_address entries in
        let (one, run, more) = split_ok (persist_history_batch db block items rows) _ h in
        let (rest, run', last) = split_ok (persist_storages db table block diffs one.0) _ more in
        let same : (rest.0, one.1 ++ rest.1) ≡ written = cc in
        let here =
          ap (count_key t k) (persist_history_batch_keys t db block items rows one run)
          ∙ address_items-count_key k s diff.hashed_address entries in
        let low = entries_to_write-IsOnce block diff rows once.0 (s.1) in
        let below = persist_storages-count_key k s block diffs one.0 rest once.1 run' in
        let both = count_key-append t k one.1 rest.1 in
        let address = s.0 == diff.hashed_address in
        let total = times (s.0) (map (λ (d : StorageDiff (Option ℕ)). d.hashed_address) diffs) in
        subst (λ z. count_key t k z.1 ≤ (if address then 1 else 0) + total) same
          (rw both (elim (Bool-cases address) [
            | inl e ↦ rw e (let h1 = rw e at here in omega arith)
            | inr e ↦ rw e (let h1 = rw e at here in omega arith)
          ]))
