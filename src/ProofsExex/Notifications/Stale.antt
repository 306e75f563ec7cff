-- ===== src/ProofsExex/Notifications/Stale.antt =====
-- The cache after the notifications of crates/proofs-exex/src/lib.rs.
use morph_reth.Common.{
  ℕ, ◌≤◌, ◌≡◌, refl, ap, ◌∙◌, ◌⊎◌, inl, inr, false, ◌&&◌, Option, none, some, List, [], ◌∷◌, ok,
  ◌==◌, ltb, if◌then◌else◌, length, or_else, Bool-cases, arith, subst_ok,
}
use morph_reth.Proofs.Store.Reads.{or_else-none}
use morph_reth.ProofsExex.SyncTarget.{BlockWithParent, revert_then_sync, update_state}
use morph_reth.ProofsExex.Cache.{cache_capacity, lookup, put, clear_from}
use morph_reth.ProofsExex.Cache.Bounded.{IsCache, is_first, insert_lem, clear_from_lem}
use morph_reth.ProofsExex.SyncLoop.{CachedBlockTrieData}
use morph_reth.ProofsExex.Notifications.{
  ChainBlock, Chain, Target, cache_block, cache_blocks, same_block, handle_chain_reorged,
}

module _ {D : Type 0} where
  abbrev pub brought : ℕ → ℕ → BlockWithParent → Option D → Option (CachedBlockTrieData D)
  brought j n block none = none
  brought j n block (some d) =
      if j == n then some (record { block_with_parent = block; trie_data = d }) else none

  -- The trie data that the blocks of a chain bring for a number: those of the last block with it.
  abbrev pub offer : ℕ → List (ℕ × ChainBlock D) → Option (CachedBlockTrieData D)
  offer j [] = none
  offer j ((n, b) ∷ blocks) =
      or_else (offer j blocks) (brought j n b.block_with_parent b.trie_data_at)

  -- What is cached for a number is nothing, or what the blocks bring, or else what was cached.
  abbrev FromBlocks :
      ℕ
      → List (ℕ × ChainBlock D)
      → Option (CachedBlockTrieData D)
      → Option (CachedBlockTrieData D)
      → Type 0
  FromBlocks j blocks before after = (after ≡ none) ⊎ (after ≡ or_else (offer j blocks) before)

  cache_block-IsCache :
      (n : ℕ) (block : BlockWithParent) (d : Option D) (cache : List (ℕ × CachedBlockTrieData D))
      → IsCache cache
      → IsCache (cache_block n block d cache)
  unfolding cache_block
  cache_block-IsCache n block none cache v = v
  cache_block-IsCache n block (some d) cache v = (insert_lem n 0 _ cache v).0

  lookup-cache_block :
      (j n : ℕ) (block : BlockWithParent) (d : Option D) (cache : List (ℕ × CachedBlockTrieData D))
      → IsCache cache
      → (lookup j (cache_block n block d cache) ≡ none)
        ⊎ (lookup j (cache_block n block d cache) ≡ or_else (brought j n block d) (lookup j cache))
  unfolding cache_block
  lookup-cache_block j n block none cache v = inr refl
  lookup-cache_block j n block (some d) cache v =
      let entry : CachedBlockTrieData D = record { block_with_parent = block; trie_data = d } in
      let after = (insert_lem n j entry cache v).1 in
      elim (Bool-cases
        (ltb cache_capacity (length (put n entry cache)) && is_first j (put n entry cache))) [
          | inl evicted ↦ inl (after ∙ rw evicted refl)
          | inr kept ↦
              inr (after ∙ rw kept (elim (Bool-cases (j == n)) [ inl e ↦ rw e | inr e ↦ rw e ]))
        ]

  or_else_assoc :
      (a b c : Option (CachedBlockTrieData D)) → or_else a (or_else b c) ≡ or_else (or_else a b) c
  or_else_assoc none b c = refl
  or_else_assoc (some a) b c = refl

  FromBlocks-cons :
      (j : ℕ) (rest here before between after : Option (CachedBlockTrieData D))
      → (between ≡ none) ⊎ (between ≡ or_else here before)
      → (after ≡ none) ⊎ (after ≡ or_else rest between)
      → (after ≡ none) ⊎ (after ≡ or_else (or_else rest here) before)
  FromBlocks-cons j rest here before between after first (inl gone) = inl gone
  FromBlocks-cons j rest here before between after (inr one) (inr more) =
      inr (more ∙ ap (or_else rest) one ∙ or_else_assoc rest here before)
  FromBlocks-cons j none here before between after (inl gone) (inr more) = inl (more ∙ gone)
  FromBlocks-cons j (some r) here before between after (inl gone) (inr more) = inr more

  cache_blocks-FromBlocks :
      (j : ℕ) (blocks : List (ℕ × ChainBlock D)) (cache : List (ℕ × CachedBlockTrieData D))
      → IsCache cache
      → IsCache (cache_blocks blocks cache)
        × FromBlocks j blocks (lookup j cache) (lookup j (cache_blocks blocks cache))
  unfolding cache_blocks
  cache_blocks-FromBlocks j [] cache v = (v, inr refl)
  cache_blocks-FromBlocks j ((n, b) ∷ blocks) cache v =
      let next = cache_block n b.block_with_parent b.trie_data_at cache in
      let rest =
        cache_blocks-FromBlocks j blocks next
          (cache_block-IsCache n b.block_with_parent b.trie_data_at cache v) in
      (
        rest.0,
        FromBlocks-cons j (offer j blocks) (brought j n b.block_with_parent b.trie_data_at)
            (lookup j cache) (lookup j next) (lookup j (cache_blocks blocks next))
            (lookup-cache_block j n b.block_with_parent b.trie_data_at cache v) rest.1,
      )

  FromBlocks-nothing :
      (j : ℕ) (blocks : List (ℕ × ChainBlock D)) (before after : Option (CachedBlockTrieData D))
      → before ≡ none
      → FromBlocks j blocks before after
      → (after ≡ none) ⊎ (after ≡ offer j blocks)
  FromBlocks-nothing j blocks before after h (inl gone) = inl gone
  FromBlocks-nothing j blocks before after h (inr e) =
      inr (e ∙ ap (or_else (offer j blocks)) h ∙ or_else-none (offer j blocks))

  -- After a reorganisation.
  pub record Reorganised (old new : Chain D) (t t' : Target D) (j : ℕ) : Type 0 where
    pub is_cache : IsCache t'.cache
    pub pending : t'.pending ≡ update_state t.pending (revert_then_sync old.first new.tip.0)
    pub fresh : (lookup j t'.cache ≡ none) ⊎ (lookup j t'.cache ≡ offer j new.blocks)

  -- No trie data of the abandoned branch stays: when a reorganisation of a target whose cache is sorted
  -- and bounded is accepted, the cache is so afterwards, the pending state is merged with a revert to the
  -- first old block and a sync to the new tip, and what is cached for a number from that block on is
  -- nothing or what the new chain brings for it.
  pub handle_chain_reorged-Reorganised :
      (old new : Chain D) (t t' : Target D) (j : ℕ)
      → IsCache t.cache
      → old.first.number ≤ j
      → handle_chain_reorged old new t ≡ ok t'
      → Reorganised old new t t' j
  unfolding handle_chain_reorged
  handle_chain_reorged-Reorganised old new t t' j v from h =
      let cleared = clear_from_lem old.first.number j t.cache v in
      let all =
        cache_blocks-FromBlocks j new.blocks (clear_from old.first.number t.cache) cleared.0 in
      let outside : ltb j old.first.number ≡ false = ground arith in
      let nothing : lookup j (clear_from old.first.number t.cache) ≡ none =
        cleared.1 ∙ rw outside refl in
      elim (Bool-cases (same_block old.fork_block new.fork_block)) [
        | inr differ ↦ let refused = rw differ at h in cc
        | inl same ↦
            subst_ok (λ z. Reorganised old new t z j) (rw same at h)
              (record {
                is_cache = all.0;
                pending = refl;
                fresh = FromBlocks-nothing j new.blocks _ _ nothing all.1;
              })
      ]
