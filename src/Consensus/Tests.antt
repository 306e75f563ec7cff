-- ===== src/Consensus/Tests.antt =====
-- The theorems on consensus validation at a concrete chain of two blocks.
use morph_reth.Common.{
  ℕ, ◌^◌, ◌≤◌, ◌≡◌, refl, true, false, none, ok, err, [], ◌∷◌, Result, ⊤, arith, All,
}
use morph_reth.Chainspec.Constants.{morph_max_tx_payload_bytes_per_block}
use morph_reth.Chainspec.Hardfork.{
  is_emerald_active_at_timestamp, is_jade_active_at_timestamp, is_celadon_active_at_timestamp,
}
use morph_reth.Primitives.MorphTx.Rules.{version_1}
use morph_reth.Primitives.Envelope.{MorphTxEnvelope, legacy, morph, is_l1_msg}
use morph_reth.Primitives.Block.{MorphHeader, SealedHeader, SealedBlock}
use morph_reth.Primitives.Samples.{
  schedule, tx_v1, message, header, parent, sealed_parent, transactions, block,
}
use morph_reth.Consensus.Error.{
  ConsensusError, timestamp_is_in_future, header_gas_limit_exceeds_max,
}
use morph_reth.Consensus.Header.{validate_header, validate_header_iff, is_transient_error}
use morph_reth.Consensus.Parent.{
  IsChildOf, validate_header_against_parent, validate_header_against_parent_iff,
}
use morph_reth.Consensus.L1Messages.{validate_l1_messages_in_block}
use morph_reth.Consensus.L1Messages.Order.{IsOrdered, validate_l1_messages_in_block_iff}
use morph_reth.Consensus.Body.{validate_block_pre_execution}
use morph_reth.Consensus.Body.Payload.{payload_sum}
use morph_reth.Consensus.Body.Activation.{IsActive, IsMorphTxOk}
use morph_reth.Consensus.Body.PreExecution.{IsValidBlock, validate_block_pre_execution_iff}
use morph_reth.Consensus.Execution.{
  logs_bloom_of, validate_block_post_execution, validate_block_post_execution_iff,
}
use morph_reth.Consensus.Chain.{IsChain, QueueBelow, chain_index_ahead}

validate_header_iff_example : validate_header 1 true 60 header ≡ ok tt
validate_header_iff_example = (validate_header_iff 1 true 60 header).1 (record {
  extra_data_empty = refl;
  nonce_zero = refl;
  no_ommers = refl;
  difficulty_zero = refl;
  coinbase_zero = λ e. refl;
  not_in_future = omega arith;
  gas_limit_bounded = omega arith;
  gas_used_bounded = omega arith;
  base_fee = 1000000;
  base_fee_set = refl;
  base_fee_bounded = omega arith;
})

-- A header from the future that also has too high a gas limit.
abbrev future : MorphHeader
future = record header { gas_limit = 2 ^ 63 }

future_now : validate_header 1 true 50 future ≡ err (timestamp_is_in_future 55 50)
unfolding validate_header
future_now = refl

future_later : validate_header 1 true 60 future ≡ err (header_gas_limit_exceeds_max (2 ^ 63))
unfolding validate_header
future_later = refl

is_transient_future : is_transient_error (timestamp_is_in_future 55 50) ≡ true
unfolding is_transient_error
is_transient_future = refl

-- The check of hash and number, as reth documents it.
abbrev hash_number : MorphHeader → SealedHeader → Result ConsensusError ⊤
hash_number h p = ok tt

child : IsChildOf schedule parent header
child = record {
  not_in_past = omega arith;
  strictly_later = λ e. omega arith;
  gas_limit_up = omega arith;
  gas_limit_down = omega arith;
  gas_limit_minimum = omega arith;
  next_l1_msg_index_grows = omega arith;
}

validate_header_against_parent_iff_example :
    validate_header_against_parent schedule hash_number block.sealed_header sealed_parent ≡ ok tt
validate_header_against_parent_iff_example =
    (validate_header_against_parent_iff schedule hash_number block.sealed_header sealed_parent).1
      (refl, child)

ordered : IsOrdered transactions 8 true
unfolding is_l1_msg
ordered = record {
  first = 6;
  messages = message 6 ∷ message 7 ∷ [];
  rest = legacy 1 ∷ morph tx_v1 0 ∷ [];
  layout = refl;
  rest_is_l2 = (refl, (refl, tt));
  sequential = (refl, (refl, tt));
  index_follows = λ e. omega arith;
  index_exact = λ e e'. refl;
}

validate_l1_messages_in_block_iff_example :
    validate_l1_messages_in_block transactions 8 true ≡ ok tt
validate_l1_messages_in_block_iff_example =
    (validate_l1_messages_in_block_iff transactions 8 true (omega arith)).1 ordered

abbrev encoded_len : MorphTxEnvelope → ℕ
encoded_len tx = 110

payload : payload_sum encoded_len transactions ≤ morph_max_tx_payload_bytes_per_block
unfolding payload_sum is_l1_msg
payload = omega arith

tx_v1-IsActive : IsActive true true false tx_v1
tx_v1-IsActive = record {
  emerald_active = refl;
  jade_active = λ e. refl;
  celadon_active = λ e. absurd (omega arith);
  is_valid = record {
    fees_ordered = omega arith;
    memo_short = omega arith;
    rules = version_1 refl (λ e. refl) refl;
  };
}

morph_txs_ok : All (IsMorphTxOk true true false) transactions
morph_txs_ok = (tt, (tt, (tt, (tx_v1-IsActive, tt))))

abbrev transaction_root : SealedBlock → Result (ℕ × ℕ) ⊤
transaction_root b = ok tt

block-IsValidBlock : IsValidBlock schedule encoded_len 1 transaction_root block
unfolding is_emerald_active_at_timestamp is_jade_active_at_timestamp is_celadon_active_at_timestamp
block-IsValidBlock = record {
  no_ommers = refl;
  ommers_hash_empty = refl;
  transaction_root_valid = refl;
  no_withdrawals = refl;
  payload_bounded = payload;
  morph_txs_ok = morph_txs_ok;
  l1_messages_ordered = ordered;
}

validate_block_pre_execution_iff_example :
    validate_block_pre_execution schedule encoded_len 1 transaction_root block ≡ ok tt
validate_block_pre_execution_iff_example =
    (validate_block_pre_execution_iff schedule encoded_len 1 transaction_root block (omega arith)).1
      block-IsValidBlock

accepted : validate_block_pre_execution schedule encoded_len 1 transaction_root block ≡ ok tt
accepted =
    (validate_block_pre_execution_iff schedule encoded_len 1 transaction_root block (omega arith)).1
      block-IsValidBlock

accepted_child :
    validate_header_against_parent schedule hash_number block.sealed_header sealed_parent ≡ ok tt
accepted_child =
    (validate_header_against_parent_iff schedule hash_number block.sealed_header sealed_parent).1
      (refl, child)

one_block-IsChain :
    IsChain schedule encoded_len 1 transaction_root hash_number sealed_parent (block ∷ [])
one_block-IsChain = ((accepted_child, accepted, omega arith), tt)

chain_index_ahead_example :
    (6 ≤ 8)
    × (54 ≤ 55)
    × All (λ (b : SealedBlock). All (QueueBelow 8) b.body.transactions) (block ∷ [])
chain_index_ahead_example =
    chain_index_ahead schedule encoded_len 1 transaction_root hash_number sealed_parent (block ∷ [])
      one_block-IsChain

-- A receipt is its gas counter; every receipt has the bloom 6, and any list the root 33.
validate_block_post_execution_iff_example :
    validate_block_post_execution
      (λ (r : ℕ). r)
      (λ r. 6)
      (λ a b. b)
      (λ rs. 33)
      (λ rs. [])
      header
      (7000 ∷ 21000 ∷ [])
      none
    ≡ ok tt
unfolding logs_bloom_of
validate_block_post_execution_iff_example =
    (validate_block_post_execution_iff (λ (r : ℕ). r) (λ r. 6) (λ a b. b) (λ rs. 33) (λ rs. [])
        header (7000 ∷ 21000 ∷ []) none).1
      (refl, refl, refl)
