-- ===== src/Txpool/MorphTxValidation.antt =====
-- crates/txpool/src/morph_tx_validation.rs and error.rs: the checks of a MorphTx at admission. The reads
-- of the state, keccak256 and the `balanceOf` call are the arguments that `load_for_caller` takes; an
-- error of theirs is carried in place of its text.
pub mod Charge
use morph_reth.Common.{
  ℕ, ◌-◌, Bool, true, false, not, ◌&&◌, Option, none, some, List, ltb, ◌==◌, if◌then◌else◌, Result,
  ok, err, ◌>>=◌, ◌>>◌, fail_if, ok_or, map_err, ⊤,
}
use morph_reth.Common.Words.{u256_max, saturating_add, saturating_mul}
use morph_reth.Chainspec.Hardfork.{MorphHardfork, is_jade, is_celadon}
use morph_reth.Primitives.MorphTx.{
  TxMorph, TxReason, morph_tx_version_1, morph_tx_version_2, validate,
}
use morph_reth.Primitives.Envelope.{MorphTxEnvelope, morph}
use morph_reth.Revm.TokenFee.{
  TokenFeeInfo, eth_to_token_amount, effective_fee_limit, load_for_caller,
}

pub record MorphTxValidationInput : Type 0 where
  pub consensus_tx : MorphTxEnvelope
  pub sender : ℕ
  pub eth_balance : ℕ
  pub l1_data_fee : ℕ
  pub hardfork : MorphHardfork

pub record MorphTxValidationResult : Type 0 where
  pub uses_token_fee : Bool
  pub token_info : Option TokenFeeInfo
  pub required_token_amount : ℕ
  pub amount_to_pay : ℕ

pub data FormatReason : Type 0 where
  version_1_not_active version_2_not_active : FormatReason
  invalid_fields : TxReason → FormatReason

pub data MorphTxError (E : Type 0) : Type 0 where
  invalid_token_id : MorphTxError E
  token_not_found token_not_active invalid_price_ratio : ℕ → MorphTxError E
  -- token id, token address, balance, required
  insufficient_token_balance : ℕ → ℕ → ℕ → ℕ → MorphTxError E
  -- balance, value
  insufficient_eth_for_value : ℕ → ℕ → MorphTxError E
  token_info_fetch_failed : ℕ → E → MorphTxError E
  invalid_format : FormatReason → MorphTxError E

-- the fee in wei at the fee cap, with the fee for the data
unfoldable pub total_eth_fee : TxMorph → ℕ → ℕ
total_eth_fee tx l1_data_fee =
    saturating_add u256_max (saturating_mul u256_max tx.gas_limit tx.max_fee_per_gas) l1_data_fee

module _ {E : Type 0} where
  unfoldable pub as_morph : MorphTxEnvelope → Result (MorphTxError E) TxMorph
  as_morph (morph tx signature) = ok tx
  as_morph tx = err invalid_token_id

  -- the checks of version and fields
  unfoldable pub check_format : MorphHardfork → TxMorph → Result (MorphTxError E) ⊤
  unfolding is_jade is_celadon
  check_format hardfork tx = do
    fail_if (not (is_jade hardfork) && tx.version == morph_tx_version_1)
        (invalid_format version_1_not_active)
    fail_if (not (is_celadon hardfork) && tx.version == morph_tx_version_2)
        (invalid_format version_2_not_active)
    map_err (λ reason. invalid_format (invalid_fields reason)) (validate tx)

  -- a MorphTx that pays in ETH
  unfoldable pub validate_eth_fee :
      TxMorph → ℕ → ℕ → Result (MorphTxError E) MorphTxValidationResult
  validate_eth_fee tx l1_data_fee eth_balance = do
    let total_eth_cost = saturating_add u256_max (total_eth_fee tx l1_data_fee) tx.value
    fail_if (ltb eth_balance total_eth_cost) (insufficient_eth_for_value eth_balance total_eth_cost)
    ok (record {
      uses_token_fee = false;
      token_info = none;
      required_token_amount = 0;
      amount_to_pay = 0;
    })

  -- a MorphTx that pays in a token, with the token's information
  unfoldable pub validate_token_fee :
      TxMorph → ℕ → TokenFeeInfo → Result (MorphTxError E) MorphTxValidationResult
  validate_token_fee tx l1_data_fee info = do
    fail_if (not info.is_active) (token_not_active tx.fee_token_id)
    fail_if (info.price_ratio == 0) (invalid_price_ratio tx.fee_token_id)
    let required = eth_to_token_amount info (total_eth_fee tx l1_data_fee)
    let limit = effective_fee_limit info tx.fee_limit
    fail_if (ltb limit required)
        (insufficient_token_balance tx.fee_token_id info.token_address limit required)
    ok (record {
      uses_token_fee = true;
      token_info = some info;
      required_token_amount = required;
      amount_to_pay = required;
    })

module _ (keccak256 : List ℕ → ℕ) {E : Type 0} (storage : ℕ → ℕ → Result E ℕ)
    (evm_call_balance_of : ℕ → ℕ → Result E ℕ) where
  abbrev pub fetch_token_info : ℕ → ℕ → Result (MorphTxError E) TokenFeeInfo
  fetch_token_info token_id sender =
      map_err (token_info_fetch_failed token_id)
        (load_for_caller keccak256 storage evm_call_balance_of token_id sender)
      >>= λ found. ok_or found (token_not_found token_id)

  unfoldable pub validate_morph_tx :
      MorphTxValidationInput → Result (MorphTxError E) MorphTxValidationResult
  validate_morph_tx input = do
    tx ← as_morph input.consensus_tx
    check_format input.hardfork tx
    fail_if (ltb input.eth_balance tx.value) (insufficient_eth_for_value input.eth_balance tx.value)
    let pay_token =
        fetch_token_info tx.fee_token_id input.sender >>= validate_token_fee tx input.l1_data_fee
    if tx.fee_token_id == 0
        then validate_eth_fee tx input.l1_data_fee input.eth_balance
        else pay_token
