-- ===== src/Revm/Tests.antt =====
-- The theorems on the fees at concrete inputs.
use morph_reth.Common.{
  ◌*◌, false, ℕ, ◌+◌, ◌-◌, ◌≤◌, ◌≡◌, refl, true, some, [], ◌∷◌, Result, ok, ltb, if◌then◌else◌,
  arith, min, ⊤,
}
use morph_reth.Chainspec.Hardfork.{MorphHardfork, is_curie, is_celadon}
use morph_reth.Revm.L1Block.{L1BlockInfo, calculate_tx_l1_cost, try_fetch, l1_fee_cap}
use morph_reth.Revm.L1Block.Exact.{exact_fee_curie, calculate_tx_l1_cost-exact_curie}
use morph_reth.Primitives.MorphTx.{validate, is_create}
use morph_reth.Primitives.Samples.{tx_v1}
use morph_reth.Revm.Handler.{
  FeeTx, calculate_caller_fee_with_l1_cost, beneficiary_reward, total_token_eth_fee, token_charge,
  reimburse_eth, token_refund, validate_morph_tx_authorization_list,
}
use morph_reth.Revm.Handler.Fees.{
  enforced, calculate_caller_fee_with_l1_cost_iff, beneficiary_reward-conserves,
  validate-validate_morph_tx_authorization_list, token_charge-token_refund,
}
use morph_reth.Revm.TokenFee.{
  effective_fee_limit, TokenFeeInfo, eth_to_token_amount, eth_to_token_amount_with_credit,
  eth_to_token_amount_floor,
}
use morph_reth.Revm.TokenFee.Rounding.{Fits, eth_to_token_amount_floor-net, eth_to_token_amount-net}

-- The slots 1 to 5 hold 10 and the others 10^9.
abbrev oracle : ℕ → ℕ → Result ⊤ ℕ
oracle account slot = if ltb slot 6 then ok 10 else ok 1_000_000_000

abbrev from_oracle : L1BlockInfo
from_oracle = record {
  l1_base_fee = 10;
  l1_fee_overhead = 10;
  l1_base_fee_scalar = 10;
  l1_blob_base_fee = 1_000_000_000;
  l1_commit_scalar = 1_000_000_000;
  l1_blob_scalar = 1_000_000_000;
  calldata_gas = 10_000_000_000;
}

calculate_tx_l1_cost-exact_curie_example :
    calculate_tx_l1_cost from_oracle (0 ∷ 7 ∷ []) MorphHardfork.celadon
    ≡ min (exact_fee_curie from_oracle (0 ∷ 7 ∷ [])) l1_fee_cap
unfolding try_fetch is_curie
calculate_tx_l1_cost-exact_curie_example =
    calculate_tx_l1_cost-exact_curie oracle from_oracle (0 ∷ 7 ∷ []) MorphHardfork.celadon refl refl

abbrev token : TokenFeeInfo
token = record {
  token_address = 77;
  is_active = true;
  decimals = 6;
  price_ratio = 7;
  scale = 3;
  caller = 1;
  balance = 1000;
  balance_slot = some 2;
}

token-Fits : Fits token 100
token-Fits = record {
  price_ratio_pos = omega arith;
  scale_pos = omega arith;
  scaled_fits = omega arith;
}

eth_to_token_amount_floor-net_example :
    let charged = eth_to_token_amount_with_credit token 100 in
    let returned = eth_to_token_amount_floor token 41 charged.1 in
    (returned ≤ charged.0) × (charged.0 - returned ≡ eth_to_token_amount token 59)
eth_to_token_amount_floor-net_example =
    eth_to_token_amount_floor-net token 100 41 token-Fits (omega arith)

eth_to_token_amount-net_example :
    let charged = eth_to_token_amount token 100 in
    let returned = eth_to_token_amount token 41 in
    let exact = eth_to_token_amount token 59 in
    (returned ≤ charged) × (charged - returned ≤ exact) × (exact ≤ charged - returned + 1)
eth_to_token_amount-net_example = eth_to_token_amount-net token 100 41 token-Fits (omega arith)

abbrev fee_tx : FeeTx
fee_tx = record { gas_limit = 100; max_fee_per_gas = 10; value = 50 }

calculate_caller_fee_with_l1_cost_iff_example :
    calculate_caller_fee_with_l1_cost {E = ⊤} enforced (ok (100 * 7 + 50)) 2000 fee_tx 30 ≡ ok 1270
calculate_caller_fee_with_l1_cost_iff_example =
    (calculate_caller_fee_with_l1_cost_iff 2000 fee_tx 30 7 1270 (omega arith) (omega arith)).1
      (record { no_overflow = omega arith; covered = omega arith }, omega arith)

beneficiary_reward-conserves_example : 1270 + 40 * 7 + beneficiary_reward 7 60 30 ≡ 2000
beneficiary_reward-conserves_example =
    beneficiary_reward-conserves {E = ⊤} 2000 fee_tx 30 7 40 1270 (omega arith) (omega arith)
      (omega arith) calculate_caller_fee_with_l1_cost_iff_example

validate-validate_morph_tx_authorization_list_example :
    validate_morph_tx_authorization_list 1 0 true false ≡ ok tt
unfolding validate is_create
validate-validate_morph_tx_authorization_list_example =
    validate-validate_morph_tx_authorization_list tx_v1 refl

-- 10 units of gas at 9 wei, and 10 wei for the data
total-Fits : Fits token (total_token_eth_fee 10 9 10)
unfolding total_token_eth_fee
total-Fits = token-Fits

charge_lem : token_charge token 10 500 9 10 ≡ ok (43, 1)
unfolding token_charge total_token_eth_fee eth_to_token_amount_with_credit effective_fee_limit
charge_lem = refl

token_charge-token_refund_example :
    let back = reimburse_eth 9 3 1 in
    let refund = token_refund MorphHardfork.celadon token back 1 in
    (43 ≤ 1000)
    × (refund ≤ 43)
    × (43 - refund ≡ eth_to_token_amount token (total_token_eth_fee 10 9 10 - back))
unfolding is_celadon
token_charge-token_refund_example =
    token_charge-token_refund MorphHardfork.celadon token 10 500 9 10 3 1 (43, 1) refl (omega arith)
      total-Fits charge_lem
