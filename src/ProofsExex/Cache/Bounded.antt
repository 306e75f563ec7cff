-- ===== src/ProofsExex/Cache/Bounded.antt =====
-- The order and the bound of the cache of crates/proofs-exex/src/sync_target.rs.
use morph_reth.Common.{
  ℕ, ◌+◌, ◌≤◌, ◌<◌, ◌≡◌, Bool, false, ◌&&◌, none, some, List, [], ◌∷◌, ltb, ◌==◌, if◌then◌else◌,
  length, ⊤, arith, refl, ◌∙◌,
}
use morph_reth.ProofsExex.Cache.{
  cache_capacity, lookup, put, evict, insert, remove, take, clear_from,
}

module _ {D : Type 0} where
  -- Keys strictly ascend, from `lo` on.
  abbrev pub SortedFrom : ℕ → List (ℕ × D) → Type 0
  SortedFrom lo [] = ⊤
  SortedFrom lo ((k, d) ∷ c) = (lo ≤ k) × SortedFrom (k + 1) c

  pub record IsCache (c : List (ℕ × D)) : Type 0 where
    pub sorted : SortedFrom 0 c
    pub bounded : length c ≤ cache_capacity

  SortedFrom-mono : (lo lo' : ℕ) (c : List (ℕ × D)) → lo' ≤ lo → SortedFrom lo c → SortedFrom lo' c
  SortedFrom-mono lo lo' [] h s = tt
  SortedFrom-mono lo lo' ((k, d) ∷ c) h s = (omega arith, s.1)

  lookup_below : (lo j : ℕ) (c : List (ℕ × D)) → SortedFrom lo c → j < lo → lookup j c ≡ none
  lookup_below lo j [] s h = refl
  lookup_below lo j ((k, d) ∷ c) s h = ground (arith, lookup_below (k + 1) j c s.1)

  pub put-SortedFrom :
      (lo n : ℕ) (d : D) (c : List (ℕ × D)) → SortedFrom lo c → lo ≤ n → SortedFrom lo (put n d c)
  put-SortedFrom lo n d [] s h = ground arith
  put-SortedFrom lo n d ((k, e) ∷ c) s h = ground (arith, put-SortedFrom (k + 1) n d c s.1)

  length-put : (n : ℕ) (d : D) (c : List (ℕ × D)) → length (put n d c) ≤ length c + 1
  length-put n d [] = ground arith
  length-put n d ((k, e) ∷ c) = ground (arith, length-put n d c)

  lookup-put :
      (lo n j : ℕ) (d : D) (c : List (ℕ × D))
      → SortedFrom lo c
      → lookup j (put n d c) ≡ (if j == n then some d else lookup j c)
  lookup-put lo n j d [] s = refl
  lookup-put lo n j d ((k, e) ∷ c) s = ground (arith, lookup-put (k + 1) n j d c s.1)

  evict_within : (cap : ℕ) (c : List (ℕ × D)) → length c ≤ cap → evict cap c ≡ c
  unfolding evict
  evict_within cap [] h = refl
  evict_within cap (e ∷ c) h = ground arith

  -- The key that an insertion into a full cache drops.
  abbrev pub is_first : ℕ → List (ℕ × D) → Bool
  is_first j [] = false
  is_first j ((k, d) ∷ c) = j == k

  lookup-evict_one :
      (lo cap j : ℕ) (c : List (ℕ × D))
      → SortedFrom lo c
      → length c ≤ cap + 1
      → lookup j (evict cap c) ≡ (if ltb cap (length c) && is_first j c then none else lookup j c)
  unfolding evict
  lookup-evict_one lo cap j [] s h = ground arith
  lookup-evict_one lo cap j ((k, d) ∷ c) s h =
      ground (arith, evict_within cap c, lookup_below (k + 1) j c s.1)

  evict-SortedFrom : (lo cap : ℕ) (c : List (ℕ × D)) → SortedFrom lo c → SortedFrom lo (evict cap c)
  unfolding evict
  evict-SortedFrom lo cap [] s = tt
  evict-SortedFrom lo cap ((k, d) ∷ c) s =
      ground (arith, SortedFrom-mono (k + 1) lo (evict cap c), evict-SortedFrom (k + 1) cap c s.1)

  length-evict : (cap : ℕ) (c : List (ℕ × D)) → length (evict cap c) ≤ cap
  unfolding evict
  length-evict cap [] = omega arith
  length-evict cap (e ∷ c) = ground (arith, length-evict cap c)

  -- Inserting keeps the cache sorted and within 1024 entries. Afterwards every number has its new entry
  -- or its old one, but for the lowest number where the map had grown past the capacity.
  pub insert_lem :
      (n j : ℕ) (d : D) (c : List (ℕ × D))
      → IsCache c
      → IsCache (insert n d c)
        × (lookup j (insert n d c) ≡ (
            if ltb cache_capacity (length (put n d c)) && is_first j (put n d c)
            then none
            else if j == n
            then some d
            else lookup j c))
  unfolding insert
  insert_lem n j d c v =
      let s = put-SortedFrom 0 n d c v.sorted (omega arith) in
      (
        record {
          sorted = evict-SortedFrom 0 cache_capacity (put n d c) s;
          bounded = length-evict cache_capacity (put n d c);
        },
        lookup-evict_one 0 cache_capacity j (put n d c) s
              (omega (arith, length-put n d c, v.bounded))
            ∙ rw (lookup-put 0 n j d c v.sorted),
      )

  remove-SortedFrom : (lo n : ℕ) (c : List (ℕ × D)) → SortedFrom lo c → SortedFrom lo (remove n c)
  remove-SortedFrom lo n [] s = tt
  remove-SortedFrom lo n ((k, d) ∷ c) s =
      ground (arith, SortedFrom-mono (k + 1) lo c, remove-SortedFrom (k + 1) n c s.1)

  length-remove : (n : ℕ) (c : List (ℕ × D)) → length (remove n c) ≤ length c
  length-remove n [] = omega arith
  length-remove n ((k, d) ∷ c) = ground (arith, length-remove n c)

  lookup-remove :
      (lo n j : ℕ) (c : List (ℕ × D))
      → SortedFrom lo c
      → lookup j (remove n c) ≡ (if j == n then none else lookup j c)
  lookup-remove lo n j [] s = ground arith
  lookup-remove lo n j ((k, d) ∷ c) s =
      ground (arith, lookup_below (k + 1) j c s.1, lookup-remove (k + 1) n j c s.1)

  -- Taking an entry hands it over once: it is gone afterwards, and the others stay.
  pub take_lem :
      (n j : ℕ) (c : List (ℕ × D))
      → IsCache c
      → IsCache (take n c).1
        × ((take n c).0 ≡ lookup n c)
        × (lookup j (take n c).1 ≡ (if j == n then none else lookup j c))
  unfolding take
  take_lem n j c v = (
    record {
      sorted = remove-SortedFrom 0 n c v.sorted;
      bounded = omega (arith, length-remove n c, v.bounded);
    },
    refl,
    lookup-remove 0 n j c v.sorted,
  )

  clear_from-SortedFrom :
      (lo n : ℕ) (c : List (ℕ × D)) → SortedFrom lo c → SortedFrom lo (clear_from n c)
  unfolding clear_from
  clear_from-SortedFrom lo n [] s = tt
  clear_from-SortedFrom lo n ((k, d) ∷ c) s = ground (arith, clear_from-SortedFrom (k + 1) n c s.1)

  length-clear_from : (n : ℕ) (c : List (ℕ × D)) → length (clear_from n c) ≤ length c
  unfolding clear_from
  length-clear_from n [] = omega arith
  length-clear_from n ((k, d) ∷ c) = ground (arith, length-clear_from n c)

  lookup-clear_from :
      (lo n j : ℕ) (c : List (ℕ × D))
      → SortedFrom lo c
      → lookup j (clear_from n c) ≡ (if ltb j n then lookup j c else none)
  unfolding clear_from
  lookup-clear_from lo n j [] s = ground arith
  lookup-clear_from lo n j ((k, d) ∷ c) s =
      ground (arith, lookup_below (k + 1) j c s.1, lookup-clear_from (k + 1) n j c s.1)

  -- Clearing drops exactly the entries at or above the number.
  pub clear_from_lem :
      (n j : ℕ) (c : List (ℕ × D))
      → IsCache c
      → IsCache (clear_from n c)
        × (lookup j (clear_from n c) ≡ (if ltb j n then lookup j c else none))
  clear_from_lem n j c v = (
    record {
      sorted = clear_from-SortedFrom 0 n c v.sorted;
      bounded = omega (arith, length-clear_from n c, v.bounded);
    },
    lookup-clear_from 0 n j c v.sorted,
  )
