-- ===== src/Txpool/MorphTxValidation/Charge.antt =====
-- Admission by the pool (crates/txpool) beside the charge of execution (crates/revm).
use morph_reth.Common.{ℕ, ◌+◌, ◌-◌, ◌*◌, ◌≤◌, ◌<◌, ◌≡◌, List, arith, Result, ok}
use morph_reth.Common.Words.{u128_max, u256_max}
use morph_reth.Primitives.MorphTx.{TxMorph}
use morph_reth.Primitives.Envelope.{Signature, morph}
use morph_reth.Revm.Handler.{calculate_caller_fee_with_l1_cost, FeeTx}
use morph_reth.Revm.Handler.Fees.{enforced, calculate_caller_fee_with_l1_cost_iff}
use morph_reth.Txpool.MorphTxValidation.{
  MorphTxValidationInput, MorphTxValidationResult, total_eth_fee, validate_eth_fee,
  validate_morph_tx, as_morph,
}
use native.Mathlib.Nat.{mul-le-mul_left}

-- what the balance check of execution reads of a MorphTx
abbrev pub fee_tx : TxMorph → FeeTx
fee_tx tx = record {
  gas_limit = tx.gas_limit;
  max_fee_per_gas = tx.max_fee_per_gas;
  value = tx.value;
}

module _ (keccak256 : List ℕ → ℕ) {E : Type 0} (storage : ℕ → ℕ → Result E ℕ)
    (evm_call_balance_of : ℕ → ℕ → Result E ℕ) where
  admitted_eth_fee :
      (input : MorphTxValidationInput) (tx : TxMorph) (signature : Signature)
      (r : MorphTxValidationResult)
      → input.consensus_tx ≡ morph tx signature
      → tx.fee_token_id ≡ 0
      → input.eth_balance < u256_max
      → validate_morph_tx keccak256 storage evm_call_balance_of input ≡ ok r
      → tx.gas_limit * tx.max_fee_per_gas + tx.value + input.l1_data_fee ≤ input.eth_balance
  unfolding validate_morph_tx as_morph validate_eth_fee total_eth_fee
  admitted_eth_fee input tx signature r t n b e = ground arith

  -- When the pool admits a MorphTx that pays in ETH, from a balance below the largest U256, and the gas at
  -- the fee cap fits a u128, then for every gas price of at most the fee cap and every L1 fee of at most
  -- the one it was checked with, execution takes the fee and leaves the rest of the balance.
  pub validate_morph_tx-calculate_caller_fee :
      (input : MorphTxValidationInput) (tx : TxMorph) (signature : Signature)
      (r : MorphTxValidationResult) (price l1_data_fee : ℕ)
      → input.consensus_tx ≡ morph tx signature
      → tx.fee_token_id ≡ 0
      → input.eth_balance < u256_max
      → tx.gas_limit * tx.max_fee_per_gas ≤ u128_max
      → validate_morph_tx keccak256 storage evm_call_balance_of input ≡ ok r
      → price ≤ tx.max_fee_per_gas
      → l1_data_fee ≤ input.l1_data_fee
      → calculate_caller_fee_with_l1_cost {E = E} enforced
          (ok (tx.gas_limit * price + tx.value))
          input.eth_balance
          (fee_tx tx)
          l1_data_fee
        ≡ ok (input.eth_balance - (tx.gas_limit * price + l1_data_fee))
  validate_morph_tx-calculate_caller_fee input tx signature r price l1_data_fee t n b o e p l =
      let covered = admitted_eth_fee input tx signature r t n b e in
      let gas : tx.gas_limit * price ≤ tx.gas_limit * tx.max_fee_per_gas =
        mul-le-mul_left tx.gas_limit p in
      (calculate_caller_fee_with_l1_cost_iff input.eth_balance (fee_tx tx) l1_data_fee price _
          (omega arith) p).1
        (record { no_overflow = o; covered = omega arith }, omega arith)
