-- ===== src/Consensus/Body.antt =====
-- The checks of a block's body in crates/consensus/src/validation.rs: payload size, MorphTx activation,
-- and `validate_block_pre_execution`. The encoded length of a transaction, the check of the transaction
-- root and the hash of an empty ommers list belong to alloy and reth: they are arguments.
pub mod Payload
pub mod Activation
pub mod PreExecution
use morph_reth.Common.{
  ℕ, Bool, true, false, not, ◌&&◌, Option, none, some, List, [], ◌∷◌, ltb, ◌==◌, is_some, length,
  Result, ok, err, ◌>>=◌, ◌>>◌, fail_if, map_err, ⊤,
}
use morph_reth.Common.Words.{u64_max, saturating_add}
use morph_reth.Chainspec.Constants.{morph_max_tx_payload_bytes_per_block}
use morph_reth.Chainspec.Hardfork.{
  ForkSchedule, is_emerald_active_at_timestamp, is_jade_active_at_timestamp,
  is_celadon_active_at_timestamp,
}
use morph_reth.Primitives.MorphTx.{TxMorph, morph_tx_version_1, morph_tx_version_2, validate}
use morph_reth.Primitives.Envelope.{
  MorphTxEnvelope, legacy, eip2930, eip1559, eip7702, l1_msg, morph, is_l1_msg,
}
use morph_reth.Primitives.Block.{MorphHeader, SealedHeader, BlockBody, SealedBlock}
use morph_reth.Consensus.Error.{
  BodyReason, morph_tx_before_emerald, version_1_before_jade, version_2_before_celadon, invalid_tx,
  ConsensusError, msg, uncles_not_allowed, body_ommers_hash_diff, body_transaction_root_diff, other,
  withdrawals_non_empty, invalid_body, invalid_block_payload_size,
}
use morph_reth.Consensus.L1Messages.{validate_l1_messages_in_block}

-- `Vec::len` of the ommers, or 0
abbrev ommers_len : Option (List ℕ) → ℕ
ommers_len none = 0
ommers_len (some o) = length o

module _ (encode_2718_len : MorphTxEnvelope → ℕ) where
  -- the fold over the lengths of the L2 transactions, from an accumulator
  payload_fold : ℕ → List MorphTxEnvelope → ℕ
  payload_fold acc [] = acc
  payload_fold acc (tx ∷ txs) =
      payload_fold
        (elim (is_l1_msg tx) [
          | true ↦ acc
          | false ↦ saturating_add u64_max acc (encode_2718_len tx)
        ])
        txs

  unfoldable pub l2_tx_payload_bytes : List MorphTxEnvelope → ℕ
  unfolding payload_fold is_l1_msg
  l2_tx_payload_bytes txs = payload_fold 0 txs

  unfoldable pub validate_l2_tx_payload_size : List MorphTxEnvelope → Result ConsensusError ⊤
  validate_l2_tx_payload_size txs =
      let size = l2_tx_payload_bytes txs in
      fail_if (ltb morph_max_tx_payload_bytes_per_block size)
        (other (invalid_block_payload_size size morph_max_tx_payload_bytes_per_block))

abbrev invalid : BodyReason → ConsensusError
invalid r = other (invalid_body r)

-- the checks of one MorphTx
unfoldable pub validate_morph_tx_active : Bool → Bool → Bool → TxMorph → Result ConsensusError ⊤
validate_morph_tx_active is_emerald is_jade is_celadon tx = do
  fail_if (not is_emerald) (invalid morph_tx_before_emerald)
  fail_if (not is_jade && tx.version == morph_tx_version_1) (invalid version_1_before_jade)
  fail_if (not is_celadon && tx.version == morph_tx_version_2) (invalid version_2_before_celadon)
  map_err (λ reason. invalid (invalid_tx reason)) (validate tx)

unfoldable pub validate_morph_txs :
    List MorphTxEnvelope → Bool → Bool → Bool → Result ConsensusError ⊤
validate_morph_txs [] is_emerald is_jade is_celadon = ok tt
validate_morph_txs (morph tx signature ∷ txs) is_emerald is_jade is_celadon = do
  validate_morph_tx_active is_emerald is_jade is_celadon tx
  validate_morph_txs txs is_emerald is_jade is_celadon
validate_morph_txs (tx ∷ txs) is_emerald is_jade is_celadon =
    validate_morph_txs txs is_emerald is_jade is_celadon

-- `ensure_transaction_root_valid` answers the mismatch as (got, expected).
module _ (s : ForkSchedule) (encode_2718_len : MorphTxEnvelope → ℕ) (empty_ommer_root_hash : ℕ)
    (ensure_transaction_root_valid : SealedBlock → Result (ℕ × ℕ) ⊤) where
  unfoldable pub validate_block_pre_execution : SealedBlock → Result ConsensusError ⊤
  validate_block_pre_execution block = do
    let h = block.sealed_header.header
    let txs = block.body.transactions
    fail_if (ltb 0 (ommers_len block.body.ommers)) (msg uncles_not_allowed)
    fail_if (not (h.ommers_hash == empty_ommer_root_hash))
        (body_ommers_hash_diff h.ommers_hash empty_ommer_root_hash)
    map_err (λ e. body_transaction_root_diff e.0 e.1) (ensure_transaction_root_valid block)
    fail_if (is_some block.body.withdrawals) (other withdrawals_non_empty)
    validate_l2_tx_payload_size encode_2718_len txs
    let is_emerald = is_emerald_active_at_timestamp s h.timestamp
    let is_jade = is_jade_active_at_timestamp s h.timestamp
    let is_celadon = is_celadon_active_at_timestamp s h.timestamp
    validate_morph_txs txs is_emerald is_jade is_celadon
    validate_l1_messages_in_block txs h.next_l1_msg_index is_jade
