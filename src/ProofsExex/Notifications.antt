-- ===== src/ProofsExex/Notifications.antt =====
-- crates/proofs-exex/src/lib.rs: what the notifications of the chain put into the sync target. A chain of
-- reth is a record of what the handlers read of it; the height that is sent as finished is an answer.
pub mod Stale
use morph_reth.Common.{
  ℕ, Bool, true, false, ◌&&◌, Option, none, some, List, [], ◌∷◌, Result, ok, err, ◌==◌,
  if◌then◌else◌,
}
use morph_reth.Proofs.Api.{BlockNumHash}
use morph_reth.ProofsExex.SyncTarget.{
  BlockWithParent, SyncTargetState, sync_up_to, revert_then_sync, revert, update_state,
}
use morph_reth.ProofsExex.Cache.{insert, clear_from}
use morph_reth.ProofsExex.SyncLoop.{CachedBlockTrieData}

-- A block of a chain, with the trie data that the notification has of it.
pub record ChainBlock (D : Type 0) : Type 0 where
  pub block_with_parent : BlockWithParent
  pub trie_data_at : Option D

pub record Chain (D : Type 0) : Type 0 where
  pub blocks : List (ℕ × ChainBlock D)
  pub first : BlockWithParent
  pub tip : BlockNumHash
  pub fork_block : BlockNumHash

pub data ExExNotification (D : Type 0) : Type 0 where
  chain_committed : Chain D → ExExNotification D
  -- old, new
  chain_reorged : Chain D → Chain D → ExExNotification D
  chain_reverted : Chain D → ExExNotification D

pub data NotificationError : Type 0 where
  -- old fork block, new fork block
  fork_blocks_do_not_match : BlockNumHash → BlockNumHash → NotificationError

-- The pending state and the cache of the sync target.
pub record Target (D : Type 0) : Type 0 where
  pub pending : Option SyncTargetState
  pub cache : List (ℕ × CachedBlockTrieData D)

unfoldable pub same_block : BlockNumHash → BlockNumHash → Bool
same_block a b = a.0 == b.0 && a.1 == b.1

module _ {D : Type 0} where
  unfoldable pub cache_block :
      ℕ
      → BlockWithParent
      → Option D
      → List (ℕ × CachedBlockTrieData D)
      → List (ℕ × CachedBlockTrieData D)
  unfolding insert
  cache_block n block none cache = cache
  cache_block n block (some trie_data) cache =
      insert n (record { block_with_parent = block; trie_data = trie_data }) cache

  -- The loop on the blocks of a new chain.
  unfoldable pub cache_blocks :
      List (ℕ × ChainBlock D) → List (ℕ × CachedBlockTrieData D) → List (ℕ × CachedBlockTrieData D)
  unfolding cache_block
  cache_blocks [] cache = cache
  cache_blocks ((n, b) ∷ blocks) cache =
      cache_blocks blocks (cache_block n b.block_with_parent b.trie_data_at cache)

  unfoldable pub handle_chain_committed : Chain D → Target D → Target D
  unfolding cache_blocks update_state
  handle_chain_committed new t = record {
    pending = update_state t.pending (sync_up_to new.tip.0);
    cache = cache_blocks new.blocks t.cache;
  }

  unfoldable pub handle_chain_reorged :
      Chain D → Chain D → Target D → Result NotificationError (Target D)
  unfolding cache_blocks update_state clear_from same_block
  handle_chain_reorged old new t =
      if same_block old.fork_block new.fork_block
      then ok (record {
        pending = update_state t.pending (revert_then_sync old.first new.tip.0);
        cache = cache_blocks new.blocks (clear_from old.first.number t.cache);
      })
      else err (fork_blocks_do_not_match old.fork_block new.fork_block)

  unfoldable pub handle_chain_reverted : Chain D → Target D → Target D
  unfolding update_state clear_from
  handle_chain_reverted old t = record {
    pending = update_state t.pending (revert old.first);
    cache = clear_from old.first.number t.cache;
  }

  -- With the tip of the committed chain, which is sent as the finished height.
  abbrev pub finished :
      BlockNumHash
      → Result NotificationError (Target D)
      → Result NotificationError (Target D × Option BlockNumHash)
  finished tip (ok t) = ok (t, some tip)
  finished tip (err e) = err e

  unfoldable pub handle_notification :
      ExExNotification D → Target D → Result NotificationError (Target D × Option BlockNumHash)
  unfolding handle_chain_committed handle_chain_reorged handle_chain_reverted
  handle_notification (chain_committed new) t = ok (handle_chain_committed new t, some new.tip)
  handle_notification (chain_reorged old new) t = finished new.tip (handle_chain_reorged old new t)
  handle_notification (chain_reverted old) t = ok (handle_chain_reverted old t, none)
