-- ===== src/Consensus/Execution.antt =====
-- `validate_block_post_execution` of crates/consensus/src/validation.rs. The receipts are read through
-- the traits of alloy: the gas counter, the bloom of a receipt, the union of blooms and the root of a
-- list of receipts are arguments, and so is reth's list of the gas spent by each transaction.
use morph_reth.Common.{
  ℕ, ◌≡◌, ◌↔◌, not, Option, none, some, List, [], ◌∷◌, ◌==◌, get_last?, Result, ok, ◌>>◌, fail_if,
  ⊤, arith, refl,
}
use morph_reth.Primitives.Block.{MorphHeader}
use morph_reth.Consensus.Error.{
  ConsensusError, block_gas_used, body_receipt_root_diff, body_bloom_log_diff,
}

unfoldable pub verify_receipts_precomputed : ℕ → ℕ → ℕ → ℕ → Result ConsensusError ⊤
verify_receipts_precomputed expected_root expected_bloom root bloom = do
  fail_if (not (root == expected_root)) (body_receipt_root_diff root expected_root)
  fail_if (not (bloom == expected_bloom)) (body_bloom_log_diff bloom expected_bloom)

module _ {Receipt : Type 0} (cumulative_gas_used bloom_ref : Receipt → ℕ) (bloom_or : ℕ → ℕ → ℕ)
    (calculate_receipt_root : List Receipt → ℕ)
    (gas_spent_by_transactions : List Receipt → List (ℕ × ℕ)) where
  -- `fold(Bloom::ZERO, |bloom, r| bloom | r.bloom_ref())`, from any bloom
  abbrev union_from : ℕ → List Receipt → ℕ
  union_from bloom [] = bloom
  union_from bloom (r ∷ rs) = union_from (bloom_or bloom (bloom_ref r)) rs

  unfoldable pub logs_bloom_of : List Receipt → ℕ
  logs_bloom_of receipts = union_from 0 receipts

  unfoldable pub verify_receipts : ℕ → ℕ → List Receipt → Result ConsensusError ⊤
  verify_receipts expected_root expected_bloom receipts = do
    let root = calculate_receipt_root receipts
    let bloom = logs_bloom_of receipts
    fail_if (not (root == expected_root)) (body_receipt_root_diff root expected_root)
    fail_if (not (bloom == expected_bloom)) (body_bloom_log_diff bloom expected_bloom)

  -- `receipts.last().map(|r| r.cumulative_gas_used()).unwrap_or(0)`
  abbrev last_gas : Option Receipt → ℕ
  last_gas none = 0
  last_gas (some r) = cumulative_gas_used r

  abbrev verify_either : MorphHeader → List Receipt → Option (ℕ × ℕ) → Result ConsensusError ⊤
  verify_either h receipts none = verify_receipts h.receipts_root h.logs_bloom receipts
  verify_either h receipts (some (root, bloom)) =
      verify_receipts_precomputed h.receipts_root h.logs_bloom root bloom

  unfoldable pub validate_block_post_execution :
      MorphHeader → List Receipt → Option (ℕ × ℕ) → Result ConsensusError ⊤
  unfolding verify_receipts verify_receipts_precomputed
  validate_block_post_execution h receipts receipt_root_bloom = do
    let gas = last_gas (get_last? receipts)
    fail_if (not (h.gas_used == gas))
        (block_gas_used gas h.gas_used (gas_spent_by_transactions receipts))
    verify_either h receipts receipt_root_bloom

  -- The root and the bloom to compare with: the executor's, or those computed from the receipts.
  abbrev pub root_bloom : List Receipt → Option (ℕ × ℕ) → ℕ × ℕ
  root_bloom receipts none = (calculate_receipt_root receipts, logs_bloom_of receipts)
  root_bloom receipts (some rb) = rb

  -- `validate_block_post_execution` accepts exactly when the header's gas is the last receipt's counter (0
  -- for a block without receipts) and the header's receipts root and bloom are the executor's, or those
  -- of the receipts where the executor gives none.
  pub validate_block_post_execution_iff :
      (h : MorphHeader) (receipts : List Receipt) (rb : Option (ℕ × ℕ))
      → (validate_block_post_execution h receipts rb ≡ ok tt) ↔ (
          (h.gas_used ≡ last_gas (get_last? receipts))
          × (h.receipts_root ≡ (root_bloom receipts rb).0)
          × (h.logs_bloom ≡ (root_bloom receipts rb).1))
  unfolding validate_block_post_execution
  validate_block_post_execution_iff h receipts none = (λ e. ground arith, λ e. ground arith)
  validate_block_post_execution_iff h receipts (some rb) = (λ e. ground arith, λ e. ground arith)

  -- An executor that hands over the root and the bloom of the receipts gets the answer, also the error,
  -- that the check computes without them.
  pub validate_block_post_execution_precomputed :
      (h : MorphHeader) (receipts : List Receipt)
      → validate_block_post_execution h receipts
          (some (calculate_receipt_root receipts, logs_bloom_of receipts))
        ≡ validate_block_post_execution h receipts none
  unfolding validate_block_post_execution
  validate_block_post_execution_precomputed h receipts = refl
