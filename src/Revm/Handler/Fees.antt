-- ===== src/Revm/Handler/Fees.antt =====
-- What a transaction pays in ETH and in tokens, from the deduction to the refund.
use morph_reth.Common.{
  ℕ, ◌+◌, ◌-◌, ◌*◌, ◌≤◌, ◌≡◌, ◌↔◌, true, false, ◌==◌, length, arith, ok, split_ok, refl, Bool-cases,
  ==_iff, inl, inr, ◌<◌, ap, sym,
}
use morph_reth.Common.Words.{u64_max, u128_max, IsU256, saturating_add}
use morph_reth.Chainspec.Hardfork.{MorphHardfork, is_celadon}
use morph_reth.Primitives.MorphTx.{TxMorph, is_create, validate}
use morph_reth.Primitives.MorphTx.Rules.{validate_iff}
use morph_reth.Revm.TokenFee.{
  TokenFeeInfo, eth_to_token_amount, eth_to_token_amount_floor, eth_to_token_amount_with_credit,
  effective_fee_limit,
}
use morph_reth.Revm.TokenFee.Rounding.{
  Fits, Fits-mono, floor-eq, with_credit-IsCeil, sub-mul, eth_to_token_amount_floor-net,
}
use morph_reth.Revm.Handler.{
  Cfg, FeeTx, max_spending, check_max_spending, calculate_caller_fee_with_l1_cost,
  beneficiary_reward, total_token_eth_fee, token_charge, reimburse_eth, token_refund,
  validate_morph_tx_authorization_list,
}
use native.Mathlib.Nat.{mul_comm, div-eq_of_lt, mul-le-mul_right, mul-le-mul_left}

-- A configuration of a block's execution: nothing is switched off.
abbrev pub enforced : Cfg
enforced = record { is_fee_charge_disabled = false; is_balance_check_disabled = false }

-- What the sender of a transaction can pay for at the fee cap.
pub record CanPay (balance : ℕ) (tx : FeeTx) (l1_data_fee : ℕ) : Type 0 where
  pub no_overflow : tx.gas_limit * tx.max_fee_per_gas ≤ u128_max
  pub covered : tx.gas_limit * tx.max_fee_per_gas + tx.value + l1_data_fee ≤ balance

module _ {E : Type 0} where
  check_max_spending_iff :
      (balance : ℕ) (tx : FeeTx) (l1_data_fee : ℕ)
      → IsU256 balance
      → (check_max_spending {E = E} balance tx l1_data_fee ≡ ok tt) ↔ CanPay balance tx l1_data_fee
  unfolding check_max_spending max_spending
  check_max_spending_iff balance tx l1_data_fee u =
      (λ e. record { no_overflow = ground arith; covered = ground arith }, λ c. ground arith)

  -- In a block, from a balance that fits a U256, where revm's spending of the transaction is its gas
  -- at a price of at most the fee cap, and its value: the fee is taken exactly when the balance covers
  -- the gas at the fee cap, the value and the L1 fee, and the gas at the cap fits a u128; the new
  -- balance is then the old one less the gas at the price and less the L1 fee.
  pub calculate_caller_fee_with_l1_cost_iff :
      (balance : ℕ) (tx : FeeTx) (l1_data_fee price : ℕ) (after : ℕ)
      → IsU256 balance
      → price ≤ tx.max_fee_per_gas
      → (calculate_caller_fee_with_l1_cost {E = E} enforced
            (ok (tx.gas_limit * price + tx.value))
            balance
            tx
            l1_data_fee
          ≡ ok after)
        ↔ (CanPay balance tx l1_data_fee × (after + tx.gas_limit * price + l1_data_fee ≡ balance))
  unfolding calculate_caller_fee_with_l1_cost
  calculate_caller_fee_with_l1_cost_iff balance tx l1_data_fee price after u p =
      let cheaper : tx.gas_limit * price ≤ tx.gas_limit * tx.max_fee_per_gas =
        mul-le-mul_left tx.gas_limit p in
      let checked = check_max_spending_iff balance tx l1_data_fee u in
      (
        λ e.
            let accepted = split_ok (check_max_spending {E = E} balance tx l1_data_fee) _ e in
            let c = checked.0 accepted.1 in (c, ground (arith, accepted.2, c.covered, cheaper)),
        λ c. rw (checked.1 c.0) (ground (arith, c.0.covered, cheaper)),
      )

-- In a block, from a balance that fits a U256 and at a price of at most the fee cap: when the fee is
-- taken and `back` of the gas is given back, at most the gas limit, then the new balance, the gas
-- given back at the price, and what the beneficiary gets for the rest of the gas and the L1 fee add up
-- to the old balance.
pub beneficiary_reward-conserves :
    {E : Type 0} (balance : ℕ) (tx : FeeTx) (l1_data_fee price back after : ℕ)
    → IsU256 balance
    → price ≤ tx.max_fee_per_gas
    → back ≤ tx.gas_limit
    → calculate_caller_fee_with_l1_cost {E = E} enforced
        (ok (tx.gas_limit * price + tx.value))
        balance
        tx
        l1_data_fee
      ≡ ok after
    → after + back * price + beneficiary_reward price (tx.gas_limit - back) l1_data_fee ≡ balance
unfolding beneficiary_reward
beneficiary_reward-conserves balance tx l1_data_fee price back after u p b e =
    let paid = (calculate_caller_fee_with_l1_cost_iff balance tx l1_data_fee price after u p).0 e in
    omega (
      arith,
      sub-mul tx.gas_limit back price,
      mul-le-mul_right price b,
      mul_comm price (tx.gas_limit - back),
      mul_comm price tx.gas_limit,
      paid.1,
    )

-- A MorphTx that `validate` accepts keeps the rules of `validate_morph_tx_authorization_list`, once
-- Prague is enabled.
pub validate-validate_morph_tx_authorization_list :
    (tx : TxMorph)
    → validate tx ≡ ok tt
    → validate_morph_tx_authorization_list tx.version
        (length tx.authorization_list)
        true
        (is_create tx.to)
      ≡ ok tt
unfolding validate_morph_tx_authorization_list is_create
validate-validate_morph_tx_authorization_list tx h =
    let valid = (validate_iff tx).0 h in ground arith

-- The two amounts of wei fit: what is given back is at most what the gas cost.
reimburse_eth-le :
    (gas_limit price remaining refunded l1_data_fee : ℕ)
    → remaining + refunded ≤ gas_limit
    → reimburse_eth price remaining refunded ≤ total_token_eth_fee gas_limit price l1_data_fee
unfolding reimburse_eth total_token_eth_fee
reimburse_eth-le gas_limit price remaining refunded l1_data_fee h =
    let less : price * saturating_add u64_max remaining refunded ≤ price * gas_limit =
      mul-le-mul_left price (omega arith) in
    ground (arith, mul_comm price gas_limit)

-- A refund of nothing is also what the rounding down gives for it.
token_refund-floor :
    (f : MorphHardfork) (info : TokenFeeInfo) (back credit : ℕ)
    → is_celadon f ≡ true
    → Fits info back
    → credit < info.price_ratio
    → token_refund f info back credit ≡ eth_to_token_amount_floor info back credit
unfolding token_refund
token_refund-floor f info back credit c fits h = elim (Bool-cases (back == 0)) [
  | inl e ↦
      rw
        (
          e,
          (==_iff back 0).0 e,
          floor-eq info 0 credit (Fits-mono info 0 back (omega arith) fits) h,
        )
        (sym (div-eq_of_lt (omega arith)))
  | inr e ↦ rw (e, c) refl
]

-- An accepted charge is that of the total fee, and within the limit.
token_charge_sound :
    (info : TokenFeeInfo) (gas_limit fee_limit price l1_data_fee : ℕ) (charge : ℕ × ℕ)
    → token_charge info gas_limit fee_limit price l1_data_fee ≡ ok charge
    → (charge
        ≡ eth_to_token_amount_with_credit info (total_token_eth_fee gas_limit price l1_data_fee))
      × (charge.0 ≤ effective_fee_limit info fee_limit)
unfolding token_charge
token_charge_sound info gas_limit fee_limit price l1_data_fee charge e = ground arith

effective_fee_limit-le :
    (info : TokenFeeInfo) (limit : ℕ) → effective_fee_limit info limit ≤ info.balance
unfolding effective_fee_limit
effective_fee_limit-le info limit = ground arith

-- From Celadon on, for a usable token and a total fee whose scaled value with one price ratio more
-- fits a U256, and unused and refunded gas that together are at most the gas limit: when the charge is
-- accepted, it is at most the balance, the refund is at most the charge, and the two differ by the
-- token amount of the total fee less the wei given back.
pub token_charge-token_refund :
    (f : MorphHardfork) (info : TokenFeeInfo)
    (gas_limit fee_limit price l1_data_fee remaining refunded : ℕ) (charge : ℕ × ℕ)
    → is_celadon f ≡ true
    → remaining + refunded ≤ gas_limit
    → Fits info (total_token_eth_fee gas_limit price l1_data_fee)
    → token_charge info gas_limit fee_limit price l1_data_fee ≡ ok charge
    → let back = reimburse_eth price remaining refunded in
      let refund = token_refund f info back charge.1 in
      (charge.0 ≤ info.balance)
      × (refund ≤ charge.0)
      × (charge.0 - refund
          ≡ eth_to_token_amount info (total_token_eth_fee gas_limit price l1_data_fee - back))
token_charge-token_refund f info gas_limit fee_limit price l1_data_fee remaining refunded charge c h
      fits e =
    let total = total_token_eth_fee gas_limit price l1_data_fee in
    let back = reimburse_eth price remaining refunded in
    let le = reimburse_eth-le gas_limit price remaining refunded l1_data_fee h in
    let taken = token_charge_sound info gas_limit fee_limit price l1_data_fee charge e in
    let ceil = with_credit-IsCeil info total fits in
    let refund =
      token_refund-floor f info back _ c (Fits-mono info back total le fits) ceil.least in
    let net = eth_to_token_amount_floor-net info total back fits le in
    rw (taken.0, refund)
      (
        omega (
          arith,
          ap (λ (x : ℕ × ℕ). x.0) taken.0,
          taken.1,
          effective_fee_limit-le info fee_limit,
        ),
        net.0,
        net.1,
      )
