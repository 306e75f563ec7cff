-- ===== src/Revm/L1Block.antt =====
-- crates/revm/src/l1block.rs: the fee for posting a transaction's data on L1. The state is the argument
-- `storage`, a read of a slot of an account, which may fail. The gas of the bytes is at most 16 for each,
-- so its sum in a u64 does not wrap for any input that fits in memory.
pub mod Exact
use morph_reth.Common.{
  ℕ, ◌+◌, ◌/◌, not, Bool, List, [], ◌∷◌, ◌==◌, if◌then◌else◌, length, min, Result, ok, ◌>>=◌,
}
use morph_reth.Common.Words.{u64_max, u256_max, saturating_add, saturating_mul}
use morph_reth.Chainspec.Hardfork.{MorphHardfork, is_curie}

abbrev pub zero_byte_cost : ℕ
zero_byte_cost = 4

abbrev pub non_zero_byte_cost : ℕ
non_zero_byte_cost = 16

abbrev pub tx_l1_commit_extra_cost : ℕ
tx_l1_commit_extra_cost = 64

abbrev pub tx_l1_fee_precision : ℕ
tx_l1_fee_precision = 1_000_000_000

abbrev pub l1_gas_price_oracle_address : ℕ
l1_gas_price_oracle_address = 0x530000000000000000000000000000000000000F

abbrev pub l1_fee_cap : ℕ
l1_fee_cap = u64_max

pub record L1BlockInfo : Type 0 where
  pub l1_base_fee : ℕ
  pub l1_fee_overhead : ℕ
  pub l1_base_fee_scalar : ℕ
  pub l1_blob_base_fee : ℕ
  pub l1_commit_scalar : ℕ
  pub l1_blob_scalar : ℕ
  pub calldata_gas : ℕ

-- The slots are those of the constants `GPO_*_SLOT`.
unfoldable pub try_fetch :
    {E : Type 0} → (ℕ → ℕ → Result E ℕ) → MorphHardfork → Result E L1BlockInfo
try_fetch storage hardfork = do
  l1_base_fee ← storage l1_gas_price_oracle_address 1
  l1_fee_overhead ← storage l1_gas_price_oracle_address 2
  l1_base_fee_scalar ← storage l1_gas_price_oracle_address 3
  let before_curie : L1BlockInfo = record {
    l1_base_fee = l1_base_fee;
    l1_fee_overhead = l1_fee_overhead;
    l1_base_fee_scalar = l1_base_fee_scalar;
    l1_blob_base_fee = 0;
    l1_commit_scalar = 0;
    l1_blob_scalar = 0;
    calldata_gas = 0;
  }
  if not (is_curie hardfork) then ok before_curie else (do
    l1_blob_base_fee ← storage l1_gas_price_oracle_address 6
    l1_commit_scalar ← storage l1_gas_price_oracle_address 7
    l1_blob_scalar ← storage l1_gas_price_oracle_address 8
    ok (record {
      l1_base_fee = l1_base_fee;
      l1_fee_overhead = l1_fee_overhead;
      l1_base_fee_scalar = l1_base_fee_scalar;
      l1_blob_base_fee = l1_blob_base_fee;
      l1_commit_scalar = l1_commit_scalar;
      l1_blob_scalar = l1_blob_scalar;
      calldata_gas = saturating_mul u256_max l1_commit_scalar l1_base_fee;
    }))

-- the fold over the bytes, from an accumulator
calldata_fold : ℕ → List ℕ → ℕ
calldata_fold acc [] = acc
calldata_fold acc (byte ∷ input) =
    calldata_fold (acc + (if byte == 0 then zero_byte_cost else non_zero_byte_cost)) input

unfoldable pub data_gas : L1BlockInfo → List ℕ → MorphHardfork → ℕ
unfolding calldata_fold
data_gas info input hardfork =
    if not (is_curie hardfork)
    then saturating_add u256_max
        (saturating_add u256_max (calldata_fold 0 input) info.l1_fee_overhead)
        tx_l1_commit_extra_cost
    else saturating_mul u256_max (saturating_mul u256_max (length input) info.l1_blob_base_fee)
        info.l1_blob_scalar

unfoldable pub calculate_tx_l1_cost_pre_curie : L1BlockInfo → List ℕ → MorphHardfork → ℕ
calculate_tx_l1_cost_pre_curie info input hardfork =
    let tx_l1_gas = data_gas info input hardfork in
    saturating_mul u256_max (saturating_mul u256_max tx_l1_gas info.l1_base_fee)
      info.l1_base_fee_scalar
    / tx_l1_fee_precision

unfoldable pub calculate_tx_l1_cost_curie : L1BlockInfo → List ℕ → MorphHardfork → ℕ
calculate_tx_l1_cost_curie info input hardfork =
    let blob_gas = data_gas info input hardfork in
    saturating_add u256_max info.calldata_gas blob_gas / tx_l1_fee_precision

unfoldable pub calculate_tx_l1_cost : L1BlockInfo → List ℕ → MorphHardfork → ℕ
unfolding calculate_tx_l1_cost_pre_curie calculate_tx_l1_cost_curie
calculate_tx_l1_cost info input hardfork =
    let fee =
      if not (is_curie hardfork)
      then calculate_tx_l1_cost_pre_curie info input hardfork
      else calculate_tx_l1_cost_curie info input hardfork in
    min fee l1_fee_cap
