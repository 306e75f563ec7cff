-- ===== src/Consensus/Body/Payload.antt =====
-- The payload size of a block's L2 transactions.
use morph_reth.Common.{
  ℕ, ◌+◌, ◌≤◌, ◌≡◌, ◌↔◌, List, [], ◌∷◌, if◌then◌else◌, ok, arith, min, Bool-cases, inl, inr,
}
use morph_reth.Common.Words.{u64_max}
use morph_reth.Chainspec.Constants.{morph_max_tx_payload_bytes_per_block}
use morph_reth.Primitives.Envelope.{MorphTxEnvelope, is_l1_msg}
use morph_reth.Consensus.Body.{payload_fold, l2_tx_payload_bytes, validate_l2_tx_payload_size}

-- The exact sum of the lengths of the L2 transactions.
unfoldable pub payload_sum : (MorphTxEnvelope → ℕ) → List MorphTxEnvelope → ℕ
payload_sum len [] = 0
payload_sum len (tx ∷ txs) = (if is_l1_msg tx then 0 else len tx) + payload_sum len txs

payload_fold-sum :
    (len : MorphTxEnvelope → ℕ) (acc : ℕ) (txs : List MorphTxEnvelope)
    → acc ≤ u64_max
    → payload_fold len acc txs ≡ min (acc + payload_sum len txs) u64_max
unfolding payload_fold payload_sum
payload_fold-sum len acc [] h = omega arith
payload_fold-sum len acc (tx ∷ txs) h = elim (Bool-cases (is_l1_msg tx)) [
  | inl e ↦ rw (e, payload_fold-sum len acc txs h) (omega arith)
  | inr e ↦
      rw (e, payload_fold-sum len (min (acc + len tx) u64_max) txs (omega arith)) (omega arith)
]

-- The saturating sum of the source decides the size limit as the exact sum does: a block passes exactly
-- when the encoded L2 transactions, L1 messages left out, take at most 720 KiB.
pub validate_l2_tx_payload_size_iff :
    (len : MorphTxEnvelope → ℕ) (txs : List MorphTxEnvelope)
    → (validate_l2_tx_payload_size len txs ≡ ok tt)
      ↔ (payload_sum len txs ≤ morph_max_tx_payload_bytes_per_block)
unfolding validate_l2_tx_payload_size l2_tx_payload_bytes
validate_l2_tx_payload_size_iff len txs =
    let e = payload_fold-sum len 0 txs (omega arith) in
    (λ h. ground (arith, e), λ h. ground (arith, e))
