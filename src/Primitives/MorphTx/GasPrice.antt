-- ===== src/Primitives/MorphTx/GasPrice.antt =====
-- The gas price that a MorphTx pays.
use morph_reth.Common.{ℕ, ◌+◌, ◌≤◌, ◌≡◌, Option, none, some, min, arith}
use morph_reth.Primitives.MorphTx.{TxMorph, effective_gas_price}

-- The effective gas price is the EIP-1559 price, min (max fee, base fee + priority fee), whenever the
-- max fee covers the base fee.
pub effective_gas_price-min :
    (tx : TxMorph) (base_fee : ℕ)
    → base_fee ≤ tx.max_fee_per_gas
    → effective_gas_price tx (some base_fee)
      ≡ min tx.max_fee_per_gas (base_fee + tx.max_priority_fee_per_gas)
unfolding effective_gas_price
effective_gas_price-min tx base_fee h = ground arith

-- The caller never pays more than the max fee, with or without a base fee.
pub effective_gas_price-le :
    (tx : TxMorph) (base_fee : Option ℕ) → effective_gas_price tx base_fee ≤ tx.max_fee_per_gas
unfolding effective_gas_price
effective_gas_price-le tx none = ground arith
effective_gas_price-le tx (some b) = ground arith
