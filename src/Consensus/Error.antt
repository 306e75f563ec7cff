-- ===== src/Consensus/Error.antt =====
-- crates/consensus/src/error.rs, and the errors of reth that the validation returns.
-- The texts of `InvalidBody` and of `ConsensusError::msg` are data types.
use Prim.Native.String.{String}
use morph_reth.Common.{ℕ, List}
use morph_reth.Primitives.MorphTx.{TxReason}

-- the reasons that `validate_morph_txs` gives
pub data BodyReason : Type 0 where
  morph_tx_before_emerald version_1_before_jade version_2_before_celadon : BodyReason
  invalid_tx : TxReason → BodyReason

pub data MorphConsensusError : Type 0 where
  invalid_l1_message_order malformed_l1_message withdrawals_non_empty : MorphConsensusError
  -- expected, actual
  l1_messages_not_in_order invalid_next_l1_message_index : ℕ → ℕ → MorphConsensusError
  base_fee_over_limit invalid_coinbase : ℕ → MorphConsensusError
  invalid_header transaction_decode_error : String → MorphConsensusError
  invalid_body : BodyReason → MorphConsensusError
  -- size, limit
  invalid_block_payload_size : ℕ → ℕ → MorphConsensusError

pub data Message : Type 0 where
  uncles_not_allowed missing_prev_queue_index missing_queue_index : Message
  -- expected, actual
  next_l1_msg_index_mismatch withdraw_trie_root_mismatch : ℕ → ℕ → Message

-- reth's `ConsensusError`, as far as it is built here; `upstream` is an error of one of reth's own
-- checks.
pub data ConsensusError : Type 0 where
  extra_data_exceeds_max : ℕ → ConsensusError
  nonce_is_not_zero ommer_root_is_not_empty difficulty_is_not_zero : ConsensusError
  base_fee_missing : ConsensusError
  -- timestamp, present timestamp
  timestamp_is_in_future : ℕ → ℕ → ConsensusError
  header_gas_limit_exceeds_max : ℕ → ConsensusError
  -- gas used, gas limit
  header_gas_used_exceeds_gas_limit : ℕ → ℕ → ConsensusError
  -- parent, child
  timestamp_is_in_past gas_limit_invalid_increase gas_limit_invalid_decrease :
      ℕ → ℕ → ConsensusError
  gas_limit_invalid_minimum : ℕ → ConsensusError
  -- got, expected
  body_ommers_hash_diff body_transaction_root_diff : ℕ → ℕ → ConsensusError
  body_receipt_root_diff body_bloom_log_diff : ℕ → ℕ → ConsensusError
  -- got, expected, gas spent by each transaction
  block_gas_used : ℕ → ℕ → List (ℕ × ℕ) → ConsensusError
  msg : Message → ConsensusError
  other : MorphConsensusError → ConsensusError
  upstream : ℕ → ConsensusError
