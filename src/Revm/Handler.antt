-- ===== src/Revm/Handler.antt =====
-- crates/revm/src/handler.rs: what a transaction pays, in ETH or in a token, and the static rules of a
-- MorphTx's authorizations. revm's configuration, its `effective_gas_price`, its
-- `effective_balance_spending` and the counters of its `Gas` are arguments.
pub mod Fees
use morph_reth.Common.{
  ℕ, ◌+◌, ◌-◌, ◌%◌, ◌^◌, Bool, true, false, not, Option, none, some, ltb, ◌==◌, if◌then◌else◌, min,
  max, Result, ok, err, ◌>>=◌, ◌>>◌, fail_if, ok_or, map_err, List, ⊤,
}
use morph_reth.Common.Words.{
  u64_max, u128_max, u256_max, saturating_add, saturating_mul, checked_add, checked_mul,
  wrapping_sub,
}
use morph_reth.Chainspec.Hardfork.{MorphHardfork, is_celadon}
use morph_reth.Primitives.MorphTx.{morph_tx_version_2}
use morph_reth.Revm.TokenFee.{
  UsableError, ensure_usable, into_fee_info, read_registry_entry, read_token_balance_with_fallback,
  TokenFeeInfo, eth_to_token_amount, eth_to_token_amount_with_credit, eth_to_token_amount_floor,
  effective_fee_limit,
}

-- the errors of revm's `InvalidTransaction` that the handler raises, and the others of revm, `E`
pub data InvalidTransaction (E : Type 0) : Type 0 where
  overflow_payment_in_transaction : InvalidTransaction E
  -- fee, balance
  lack_of_fund_for_max_fee : ℕ → ℕ → InvalidTransaction E
  eip7702_not_supported : InvalidTransaction E
  from_revm : E → InvalidTransaction E

-- `Cfg` of revm: the switches of a simulation.
pub record Cfg : Type 0 where
  pub is_fee_charge_disabled : Bool
  pub is_balance_check_disabled : Bool

-- What the balance check reads of a transaction.
pub record FeeTx : Type 0 where
  pub gas_limit : ℕ
  pub max_fee_per_gas : ℕ
  pub value : ℕ

module _ {E : Type 0} where
  -- the most that the transaction may spend
  unfoldable pub max_spending : FeeTx → ℕ → Result (InvalidTransaction E) ℕ
  max_spending tx l1_data_fee = do
    max_gas_spending ←
        ok_or (checked_mul u128_max tx.gas_limit tx.max_fee_per_gas) overflow_payment_in_transaction
    with_value ←
        ok_or (checked_add u256_max max_gas_spending tx.value) overflow_payment_in_transaction
    ok_or (checked_add u256_max with_value l1_data_fee) overflow_payment_in_transaction

  unfoldable pub check_max_spending : ℕ → FeeTx → ℕ → Result (InvalidTransaction E) ⊤
  unfolding max_spending
  check_max_spending balance tx l1_data_fee = do
    spending ← max_spending tx l1_data_fee
    fail_if (ltb balance spending) (lack_of_fund_for_max_fee spending balance)

  -- `effective_balance_spending` is what revm answers for the transaction at the block's base fee.
  unfoldable pub calculate_caller_fee_with_l1_cost :
      Cfg → Result (InvalidTransaction E) ℕ → ℕ → FeeTx → ℕ → Result (InvalidTransaction E) ℕ
  unfolding check_max_spending
  calculate_caller_fee_with_l1_cost cfg effective_balance_spending balance tx l1_data_fee =
      let deducted = (do
        if cfg.is_balance_check_disabled then ok tt else check_max_spending balance tx l1_data_fee
        spending ← effective_balance_spending
        let gas_balance_spending = wrapping_sub 256 spending tx.value
        let total_fee_deduction = saturating_add u256_max gas_balance_spending l1_data_fee
        let new_balance = balance - total_fee_deduction
        ok (if cfg.is_balance_check_disabled then max new_balance tx.value else new_balance)) in
      if cfg.is_fee_charge_disabled then ok balance else deducted

-- What `reward_beneficiary` adds to the balance of the beneficiary.
unfoldable pub beneficiary_reward : ℕ → ℕ → ℕ → ℕ
beneficiary_reward effective_gas_price gas_used l1_data_fee =
    saturating_add u256_max (saturating_mul u256_max effective_gas_price gas_used) l1_data_fee

pub data TokenChargeError : Type 0 where
  -- required, available
  insufficient_token_balance : ℕ → ℕ → TokenChargeError

-- The total fee in wei that a token pays for.
unfoldable pub total_token_eth_fee : ℕ → ℕ → ℕ → ℕ
total_token_eth_fee gas_limit effective_gas_price l1_data_fee =
    saturating_add u256_max (saturating_mul u256_max gas_limit effective_gas_price) l1_data_fee

-- The amount that `validate_and_deduct_token_fee` takes, and the credit that it keeps.
unfoldable pub token_charge : TokenFeeInfo → ℕ → ℕ → ℕ → ℕ → Result TokenChargeError (ℕ × ℕ)
token_charge info gas_limit fee_limit effective_gas_price l1_data_fee = do
  let charge =
      eth_to_token_amount_with_credit info
        (total_token_eth_fee gas_limit effective_gas_price l1_data_fee)
  let limit = effective_fee_limit info fee_limit
  fail_if (ltb limit charge.0) (insufficient_token_balance charge.0 limit)
  ok charge

-- What `validate_and_deduct_token_fee` refuses a token charge for.
pub data TokenFeeError (E : Type 0) : Type 0 where
  from_state : E → TokenFeeError E
  token_not_registered : ℕ → TokenFeeError E
  not_usable : UsableError → TokenFeeError E
  not_covered : TokenChargeError → TokenFeeError E

-- `validate_and_deduct_token_fee` from the registry to the accepted charge, where fees are enforced.
unfoldable pub token_fee_charge :
    (List ℕ → ℕ)
    → {E : Type 0} → (ℕ → ℕ → Result E ℕ)
    → (ℕ → ℕ → Result E ℕ)
    → ℕ
    → ℕ
    → ℕ
    → ℕ
    → ℕ
    → ℕ
    → Result (TokenFeeError E) (ℕ × ℕ)
unfolding read_registry_entry read_token_balance_with_fallback into_fee_info ensure_usable
    token_charge
token_fee_charge keccak256 storage evm_call_balance_of token_id caller gas_limit fee_limit
      effective_gas_price l1_data_fee =
    do
      found ← map_err from_state (read_registry_entry keccak256 storage token_id)
      entry ← ok_or found (token_not_registered token_id)
      usable ← map_err not_usable (ensure_usable entry token_id)
      balance ← map_err from_state (
          read_token_balance_with_fallback keccak256 storage evm_call_balance_of
            usable.token_address caller usable.balance_slot)
      map_err not_covered (
          token_charge (into_fee_info usable caller balance) gas_limit fee_limit effective_gas_price
            l1_data_fee)

unfoldable pub reimburse_eth : ℕ → ℕ → ℕ → ℕ
reimburse_eth effective_gas_price remaining refunded =
    saturating_mul u128_max effective_gas_price (saturating_add u64_max remaining refunded)

-- The amount that `reimburse_caller_token_fee` gives back; 0 is no transfer.
unfoldable pub token_refund : MorphHardfork → TokenFeeInfo → ℕ → ℕ → ℕ
unfolding is_celadon
token_refund hardfork info reimburse rounding_credit =
    if reimburse == 0
    then 0
    else if is_celadon hardfork
    then eth_to_token_amount_floor info reimburse rounding_credit
    else eth_to_token_amount info reimburse

pub data AuthorizationError : Type 0 where
  authorization_list_not_supported : ℕ → AuthorizationError
  authorization_eip7702_not_supported : AuthorizationError
  authorization_list_create : AuthorizationError

-- `prague` is whether the SpecId of the hardfork enables Prague.
unfoldable pub validate_morph_tx_authorization_list :
    ℕ → ℕ → Bool → Bool → Result AuthorizationError ⊤
validate_morph_tx_authorization_list version auth_list_len prague is_create =
    if ltb version morph_tx_version_2
    then fail_if (not (auth_list_len == 0)) (authorization_list_not_supported version)
    else if auth_list_len == 0
    then ok tt
    else (do
      fail_if (not prague) authorization_eip7702_not_supported
      fail_if is_create authorization_list_create)
