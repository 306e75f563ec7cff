-- ===== src/ProofsExex/Tests.antt =====
-- The sync target and the cache on concrete runs.
use morph_reth.Common.{
  err, ◌==◌, if◌then◌else◌, ⊤, ℕ, ◌+◌, ◌-◌, ◌≡◌, refl, false, Option, none, some, List, [], ◌∷◌,
  Result, ok, arith,
}
use morph_reth.ProofsExex.SyncLoop.{BatchBlock, cached, execute, SyncStore, Loop, sync_turn}
use morph_reth.ProofsExex.SyncLoop.Turns.{Accounted, sync_turn-Accounted}
use morph_reth.ProofsExex.SyncLoop.OnChain.{OnChain}
use morph_reth.Proofs.Api.{StorageError, out_of_order, BlockNumHash}
use morph_reth.ProofsExex.Notifications.{Chain, Target, handle_chain_reorged}
use morph_reth.ProofsExex.Notifications.Stale.{Reorganised, handle_chain_reorged-Reorganised}
use morph_reth.ProofsExex.SyncTarget.{
  BlockWithParent, SyncTargetState, sync_up_to, revert_then_sync, mark_revert_complete,
}
use morph_reth.ProofsExex.SyncTarget.Merge.{update_all}
use morph_reth.ProofsExex.SyncTarget.Reverts.{
  number_of, pending_revert, pending_target, Uncovered, Dropped, update_all_asks,
  mark_revert_complete_lem,
}
use morph_reth.ProofsExex.Cache.{lookup, insert}
use morph_reth.ProofsExex.Cache.Bounded.{IsCache, insert_lem}

abbrev block_at : ℕ → BlockWithParent
block_at n = record { parent = 100 + n; number = n; hash = 200 + n }

-- A reorg from 5, one from 3, and a later commit.
abbrev arrivals : List SyncTargetState
arrivals = revert_then_sync (block_at 5) 9 ∷ revert_then_sync (block_at 3) 7 ∷ sync_up_to 8 ∷ []

update_all_asks_example :
    (number_of (pending_revert (update_all none arrivals)) ≡ some 3)
    × (pending_target (update_all none arrivals) ≡ some 8)
update_all_asks_example = update_all_asks none arrivals

mark_revert_complete_lem_example :
    (pending_target (mark_revert_complete (some (revert_then_sync (block_at 5) 9)) (block_at 4))
      ≡ some 9)
    × Uncovered (block_at 4) (
        pending_revert (mark_revert_complete (some (revert_then_sync (block_at 5) 9)) (block_at 4)))
    × Dropped (block_at 4) (some (block_at 5)) (
        pending_revert (mark_revert_complete (some (revert_then_sync (block_at 5) 9)) (block_at 4)))
mark_revert_complete_lem_example =
    mark_revert_complete_lem (some (revert_then_sync (block_at 5) 9)) (block_at 4)

abbrev cache : List (ℕ × ℕ)
cache = (4, 40) ∷ (6, 60) ∷ []

cache-IsCache : IsCache cache
cache-IsCache = record { sorted = omega arith; bounded = omega arith }

insert_lem_example : IsCache (insert 5 50 cache) × (lookup 5 (insert 5 50 cache) ≡ some 50)
insert_lem_example = insert_lem 5 5 50 cache cache-IsCache

-- A store of the latest block that takes a block only on its parent, and a provider of one chain.
abbrev block_of : BatchBlock BlockWithParent ℕ → BlockWithParent
block_of (cached b d) = b
block_of (execute b) = b

abbrev extend :
    BlockNumHash → List (BatchBlock BlockWithParent ℕ) → Result StorageError BlockNumHash
extend tip [] = ok tip
extend tip (entry ∷ batch) =
    let b = block_of entry in
    let rest = extend (b.number, b.hash) batch in
    if b.parent == tip.1 then rest else err (out_of_order b.number b.parent tip.1)

abbrev commit :
    BlockNumHash → Result StorageError BlockNumHash → BlockNumHash × Result StorageError ⊤
commit tip (ok tip') = (tip', ok tt)
commit tip (err e) = (tip, err e)

abbrev tip_store : SyncStore BlockWithParent ℕ
tip_store = record {
  State = BlockNumHash;
  get_earliest_block_number = λ s. ok (some (0, 200));
  get_latest_block_number = λ s. ok (some s);
  unwind_history = λ s. λ to. ((to.number - 1, to.parent), ok tt);
  execute_and_store_batch = λ s. λ batch. commit s (extend s batch);
}

abbrev hash_at : ℕ → ℕ
hash_at n = 200 + n

abbrev on_chain : ℕ → BlockWithParent
on_chain n = record { parent = hash_at (n - 1); number = n; hash = hash_at n }

abbrev provided : ℕ → Result ℕ (Option BlockWithParent)
provided n = ok (some (on_chain n))

abbrev IsOnChain : ℕ → BatchBlock BlockWithParent ℕ → Type 0
IsOnChain n entry = block_of entry ≡ on_chain n

refusal :
    (tip_store.execute_and_store_batch (5, 205) (execute (on_chain 7) ∷ [])).1
    ≡ err (out_of_order 7 206 205)
refusal = refl

-- Block 6 is cached.
abbrev at_five : Loop tip_store
at_five = record {
  stored = (5, 205);
  pending = none;
  cache = (6, record { block_with_parent = on_chain 6; trie_data = 60 }) ∷ [];
  sync_healthy = false;
}

-- A reorg arrives in the turn.
sync_turn-Accounted_example :
    Accounted tip_store provided 0 120 arrivals
      (sync_turn tip_store provided 0 120 arrivals at_five)
sync_turn-Accounted_example = sync_turn-Accounted tip_store provided 0 120 arrivals at_five refl

-- Blocks 5 and 6 of an abandoned branch are cached; the new branch has trie data for block 5 alone.
abbrev old_target : Target ℕ
old_target = record {
  pending = none;
  cache =
      (5, record { block_with_parent = block_at 5; trie_data = 50 })
      ∷ (6, record { block_with_parent = block_at 6; trie_data = 60 })
      ∷ [];
}

old_target-IsCache : IsCache old_target.cache
old_target-IsCache = record { sorted = (omega arith, (omega arith, tt)); bounded = omega arith }

abbrev old_chain : Chain ℕ
old_chain = record { blocks = []; first = block_at 5; tip = (6, 206); fork_block = (4, 204) }

abbrev new_chain : Chain ℕ
new_chain = record {
  blocks = (5, record { block_with_parent = block_at 5; trie_data_at = some 55 }) ∷ [];
  first = block_at 5;
  tip = (5, 305);
  fork_block = (4, 204);
}

unfoldable reorganised : Target ℕ
unfolding handle_chain_reorged
reorganised = elim (handle_chain_reorged old_chain new_chain old_target) [
  | ok t ↦ t
  | err e ↦ old_target
]

accepted : handle_chain_reorged old_chain new_chain old_target ≡ ok reorganised
unfolding reorganised handle_chain_reorged
accepted = refl

handle_chain_reorged-Reorganised_example : Reorganised old_chain new_chain old_target reorganised 6
handle_chain_reorged-Reorganised_example =
    handle_chain_reorged-Reorganised old_chain new_chain old_target reorganised 6 old_target-IsCache
      (omega arith) accepted
