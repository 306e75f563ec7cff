-- ===== src/Consensus/Body/PreExecution.antt =====
-- What `validate_block_pre_execution` accepts.
use morph_reth.Common.{ℕ, ◌≤◌, ◌≡◌, ◌↔◌, Option, none, some, List, [], All, ⊤, ok, Result, arith}
use morph_reth.Common.Words.{IsU64}
use morph_reth.Chainspec.Constants.{morph_max_tx_payload_bytes_per_block}
use morph_reth.Chainspec.Hardfork.{
  ForkSchedule, is_emerald_active_at_timestamp, is_jade_active_at_timestamp,
  is_celadon_active_at_timestamp,
}
use morph_reth.Primitives.Envelope.{MorphTxEnvelope}
use morph_reth.Primitives.Block.{SealedBlock}
use morph_reth.Consensus.L1Messages.{validate_l1_messages_in_block}
use morph_reth.Consensus.L1Messages.Order.{IsOrdered, validate_l1_messages_in_block_iff}
use morph_reth.Consensus.Body.{
  validate_l2_tx_payload_size, validate_morph_txs, validate_block_pre_execution,
}
use morph_reth.Consensus.Body.Payload.{payload_sum, validate_l2_tx_payload_size_iff}
use morph_reth.Consensus.Body.Activation.{IsMorphTxOk, validate_morph_txs_iff}

-- No list of ommers, or an empty one.
abbrev pub NoOmmers : Option (List ℕ) → Type 0
NoOmmers none = ⊤
NoOmmers (some o) = o ≡ []

module _ (s : ForkSchedule) (encode_2718_len : MorphTxEnvelope → ℕ) (empty_ommer_root_hash : ℕ)
    (ensure_transaction_root_valid : SealedBlock → Result (ℕ × ℕ) ⊤) where
  -- The rules of a block before execution.
  pub record IsValidBlock (block : SealedBlock) : Type 0 where
    pub no_ommers : NoOmmers block.body.ommers
    pub ommers_hash_empty : block.sealed_header.header.ommers_hash ≡ empty_ommer_root_hash
    pub transaction_root_valid : ensure_transaction_root_valid block ≡ ok tt
    pub no_withdrawals : block.body.withdrawals ≡ none
    pub payload_bounded :
        payload_sum encode_2718_len block.body.transactions ≤ morph_max_tx_payload_bytes_per_block
    pub morph_txs_ok :
        All
          (IsMorphTxOk
            (is_emerald_active_at_timestamp s block.sealed_header.header.timestamp)
            (is_jade_active_at_timestamp s block.sealed_header.header.timestamp)
            (is_celadon_active_at_timestamp s block.sealed_header.header.timestamp))
          block.body.transactions
    pub l1_messages_ordered :
        IsOrdered block.body.transactions block.sealed_header.header.next_l1_msg_index
          (is_jade_active_at_timestamp s block.sealed_header.header.timestamp)

  -- the checks that stand before those of the transactions, and the three of the transactions
  pre_execution_parts :
      (block : SealedBlock)
      → (validate_block_pre_execution s encode_2718_len empty_ommer_root_hash
            ensure_transaction_root_valid block
          ≡ ok tt)
        ↔ (NoOmmers block.body.ommers
            × (block.sealed_header.header.ommers_hash ≡ empty_ommer_root_hash)
            × (ensure_transaction_root_valid block ≡ ok tt)
            × (block.body.withdrawals ≡ none)
            × (validate_l2_tx_payload_size encode_2718_len block.body.transactions ≡ ok tt)
            × (validate_morph_txs block.body.transactions
                  (is_emerald_active_at_timestamp s block.sealed_header.header.timestamp)
                  (is_jade_active_at_timestamp s block.sealed_header.header.timestamp)
                  (is_celadon_active_at_timestamp s block.sealed_header.header.timestamp)
                ≡ ok tt)
            × (validate_l1_messages_in_block block.body.transactions
                  block.sealed_header.header.next_l1_msg_index
                  (is_jade_active_at_timestamp s block.sealed_header.header.timestamp)
                ≡ ok tt))
  unfolding validate_block_pre_execution
  pre_execution_parts block = (λ h. ground arith, λ h. ground arith)

  -- For a header whose L1 message index fits a u64, `validate_block_pre_execution` accepts a block
  -- exactly when there are no ommers and no withdrawals, the ommers hash is the empty one, the
  -- transaction root is valid, the L2 payload fits, every MorphTx is active and valid, and the L1
  -- messages are in order and agree with the header.
  pub validate_block_pre_execution_iff :
      (block : SealedBlock)
      → IsU64 block.sealed_header.header.next_l1_msg_index
      → (validate_block_pre_execution s encode_2718_len empty_ommer_root_hash
            ensure_transaction_root_valid block
          ≡ ok tt)
        ↔ IsValidBlock block
  validate_block_pre_execution_iff block h =
      let t = block.sealed_header.header.timestamp in
      let txs = block.body.transactions in
      let parts = pre_execution_parts block in
      let payload = validate_l2_tx_payload_size_iff encode_2718_len txs in
      let morph_txs =
        validate_morph_txs_iff txs (is_emerald_active_at_timestamp s t)
          (is_jade_active_at_timestamp s t) (is_celadon_active_at_timestamp s t) in
      let messages =
        validate_l1_messages_in_block_iff txs block.sealed_header.header.next_l1_msg_index
          (is_jade_active_at_timestamp s t) h in
      (
        λ e.
            let (a, b, c, d, p, m, l) = parts.0 e in
            record {
              no_ommers = a;
              ommers_hash_empty = b;
              transaction_root_valid = c;
              no_withdrawals = d;
              payload_bounded = payload.0 p;
              morph_txs_ok = morph_txs.0 m;
              l1_messages_ordered = messages.0 l;
            },
        λ v. parts.1 (
          v.no_ommers,
          v.ommers_hash_empty,
          v.transaction_root_valid,
          v.no_withdrawals,
          payload.1 v.payload_bounded,
          morph_txs.1 v.morph_txs_ok,
          messages.1 v.l1_messages_ordered,
        ),
      )
