-- ===== src/ProofsExex/Cache.antt =====
-- crates/proofs-exex/src/sync_target.rs: the bounded cache of trie data, a `BTreeMap` from block numbers.
-- The map is the list of its entries in the order of their keys; the data are any type.
pub mod Bounded
use morph_reth.Common.{
  ℕ, suc, ◌+◌, Bool, Option, none, some, List, [], ◌∷◌, ltb, ◌==◌, if◌then◌else◌, length,
}

abbrev pub cache_capacity : ℕ
cache_capacity = 1024

module _ {D : Type 0} where
  abbrev pub lookup : ℕ → List (ℕ × D) → Option D
  lookup n [] = none
  lookup n ((k, d) ∷ c) = if n == k then some d else lookup n c

  -- `BTreeMap::insert`
  abbrev pub put : ℕ → D → List (ℕ × D) → List (ℕ × D)
  put n d [] = (n, d) ∷ []
  put n d ((k, e) ∷ c) =
      let later = (k, e) ∷ put n d c in
      if ltb n k then (n, d) ∷ (k, e) ∷ c else if n == k then (n, d) ∷ c else later

  -- `while cache.len() > CACHE_CAPACITY { cache.pop_first(); }`
  unfoldable pub evict : ℕ → List (ℕ × D) → List (ℕ × D)
  evict capacity [] = []
  evict capacity (e ∷ c) = if ltb capacity (length (e ∷ c)) then evict capacity c else e ∷ c

  unfoldable pub insert : ℕ → D → List (ℕ × D) → List (ℕ × D)
  insert n d c = evict cache_capacity (put n d c)

  -- `BTreeMap::remove`
  abbrev pub remove : ℕ → List (ℕ × D) → List (ℕ × D)
  remove n [] = []
  remove n ((k, d) ∷ c) = if n == k then c else (k, d) ∷ remove n c

  -- what is taken, and the cache that stays
  unfoldable pub take : ℕ → List (ℕ × D) → Option D × List (ℕ × D)
  take n c = (lookup n c, remove n c)

  -- What `split_off` leaves: the entries below the number.
  unfoldable pub clear_from : ℕ → List (ℕ × D) → List (ℕ × D)
  clear_from n [] = []
  clear_from n ((k, d) ∷ c) = if ltb k n then (k, d) ∷ clear_from n c else []
