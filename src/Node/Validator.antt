-- ===== src/Node/Validator.antt =====
-- crates/node/src/validator.rs, the parent-aware check of the L1 message index. The parent's header
-- comes from the engine's tree, or from the provider, whose errors are the type `E`: both are arguments.
pub mod L1Index
use morph_reth.Common.{
  ℕ, ◌+◌, Bool, true, false, not, Option, none, some, List, [], ◌∷◌, ◌==◌, if◌then◌else◌, Result,
  ok, err, ◌>>=◌, ◌>>◌, fail_if, ok_or, map_err, ⊤,
}
use morph_reth.Common.Words.{u64_max, checked_add}
use morph_reth.Chainspec.Hardfork.{ForkSchedule, is_jade_active_at_timestamp}
use morph_reth.Primitives.Envelope.{MorphTxEnvelope, is_l1_msg, queue_index}
use morph_reth.Primitives.Block.{MorphHeader, SealedHeader, BlockBody, SealedBlock}
use morph_reth.Consensus.Error.{
  ConsensusError, msg, missing_queue_index, next_l1_msg_index_mismatch,
}

-- The loop over the leading L1 messages, on the variable `expected`.
unfoldable pub expected_loop : ℕ → List MorphTxEnvelope → ℕ → Result ConsensusError ℕ
unfolding is_l1_msg queue_index
expected_loop actual [] expected = ok expected
expected_loop actual (tx ∷ txs) expected =
    if is_l1_msg tx
    then (do
      index ← ok_or (queue_index tx) (msg missing_queue_index)
      next ← ok_or (checked_add u64_max index 1) (msg (next_l1_msg_index_mismatch u64_max actual))
      expected_loop actual txs next)
    else ok expected

-- the comparison with a parent that was found
unfoldable pub check_against_parent : MorphHeader → SealedBlock → Result ConsensusError ⊤
unfolding expected_loop
check_against_parent parent block = do
  let actual = block.sealed_header.header.next_l1_msg_index
  expected ← expected_loop actual block.body.transactions parent.next_l1_msg_index
  fail_if (not (actual == expected)) (msg (next_l1_msg_index_mismatch expected actual))

-- `InsertBlockErrorKind`: an error of the provider, or of consensus.
pub data InsertBlockErrorKind (E : Type 0) : Type 0 where
  provider : E → InsertBlockErrorKind E
  consensus : ConsensusError → InsertBlockErrorKind E

module _ {E : Type 0} (s : ForkSchedule) (in_tree : ℕ → Option MorphHeader)
    (in_provider : ℕ → Result E (Option MorphHeader)) where
  -- the tree's header, else the provider's
  abbrev find_parent : ℕ → Option MorphHeader → Result (InsertBlockErrorKind E) (Option MorphHeader)
  find_parent parent_hash (some p) = ok (some p)
  find_parent parent_hash none = map_err provider (in_provider parent_hash)

  -- A missing parent is left to reth, which reports it.
  abbrev check_found : SealedBlock → Option MorphHeader → Result (InsertBlockErrorKind E) ⊤
  check_found block none = ok tt
  check_found block (some parent) = map_err consensus (check_against_parent parent block)

  unfoldable pub validate_next_l1_msg_index : SealedBlock → Result (InsertBlockErrorKind E) ⊤
  validate_next_l1_msg_index block =
      let h = block.sealed_header.header in
      let check =
        find_parent h.parent_hash (in_tree h.parent_hash) >>= λ parent. check_found block parent in
      if not (is_jade_active_at_timestamp s h.timestamp) then ok tt else check
