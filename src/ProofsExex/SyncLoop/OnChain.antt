-- ===== src/ProofsExex/SyncLoop/OnChain.antt =====
-- Runs of `sync_forward` in crates/proofs-exex/src/lib.rs, on the blocks of one chain.
use morph_reth.Common.{
  ℕ, ◌+◌, ◌≤◌, ◌≡◌, Option, none, some, List, [], ◌∷◌, Result, ok, length, ⊤, All,
}
use morph_reth.ProofsExex.SyncLoop.{
  CachedBlockTrieData, BatchBlock, SyncStore, Loop, cached, execute,
}

module _ {P B D : Type 0} (store : SyncStore B D) (recovered_block : ℕ → Result P (Option B))
    (interval : ℕ) where
  -- The blocks from a number on, one after the other, where `IsBlock` tells the block at each number.
  module _ (IsBlock : ℕ → BatchBlock B D → Type 0) where
    abbrev pub AreBlocks : ℕ → List (BatchBlock B D) → Type 0
    AreBlocks n [] = ⊤
    AreBlocks n (entry ∷ batch) = IsBlock n entry × AreBlocks (n + 1) batch

    -- The trie data in the cache are of the chain.
    abbrev pub IsCacheOfChain : List (ℕ × CachedBlockTrieData D) → Type 0
    IsCacheOfChain cache =
        All
          (λ (e : ℕ × CachedBlockTrieData D).
            IsBlock e.0 (cached e.1.block_with_parent e.1.trie_data))
          cache

    -- A store and a provider that work on a chain: from a latest block on the chain, the store takes the
    -- blocks of the chain that follow it, and the provider has the blocks up to the target.
    pub record WorksOn (chain_hash : ℕ → ℕ) (target : ℕ) : Type 0 where
      pub stores :
          (s : store.State) (latest : ℕ) (batch : List (BatchBlock B D))
          → store.get_latest_block_number s ≡ ok (some (latest, chain_hash latest))
          → AreBlocks (latest + 1) batch
          → (s' : store.State) × (store.execute_and_store_batch s batch ≡ (s', ok tt))
            × (store.get_latest_block_number s'
                ≡ ok (some (latest + length batch, chain_hash (latest + length batch))))
      pub has_block :
          (n : ℕ)
          → n ≤ target
          → (block : B) × (recovered_block n ≡ ok (some block)) × IsBlock n (execute block)

    -- What a turn needs and keeps: nothing pending, the latest block and the cache on the chain.
    pub record OnChain (chain_hash : ℕ → ℕ) (latest : ℕ) (m : Loop store) : Type 0 where
      pub nothing_pending : m.pending ≡ none
      pub is_latest : store.get_latest_block_number m.stored ≡ ok (some (latest, chain_hash latest))
      pub cache_of_chain : IsCacheOfChain m.cache
