-- ===== src/Txpool/Tests.antt =====
-- The theorems on admission at concrete transactions.
use morph_reth.Common.{
  ℕ, ◌+◌, ◌-◌, ◌*◌, ◌≡◌, ◌==◌, if◌then◌else◌, refl, true, false, none, some, List, [], ◌∷◌, Result,
  ok, arith, ⊤,
}
use morph_reth.Chainspec.Hardfork.{MorphHardfork, is_jade, is_celadon}
use morph_reth.Primitives.MorphTx.{TxMorph, validate}
use morph_reth.Primitives.Envelope.{morph}
use morph_reth.Primitives.Samples.{tx_v1, tx_token}
use morph_reth.Revm.TokenFee.{TokenRegistryEntry, TokenFeeInfo}
use morph_reth.Revm.Handler.{calculate_caller_fee_with_l1_cost}
use morph_reth.Revm.Handler.Fees.{enforced}
use morph_reth.Txpool.MorphTxValidation.{
  MorphTxValidationInput, MorphTxValidationResult, validate_morph_tx, as_morph, check_format,
  total_eth_fee, validate_eth_fee,
}
use morph_reth.Txpool.MorphTxValidation.Charge.{fee_tx, validate_morph_tx-calculate_caller_fee}

abbrev sum : List ℕ → ℕ
sum [] = 0
sum (b ∷ bytes) = b + sum bytes

abbrev digest : List ℕ → ℕ
digest bytes = 1000 * sum bytes

-- The registry has token 3 at address 77, with balances of 5000000.
abbrev storage : ℕ → ℕ → Result ⊤ ℕ
storage account slot =
    if account == 77
    then ok 5_000_000
    else if slot == 154_000
    then ok 77
    else if slot == 154_001
    then ok 3
    else if slot == 154_002
    then ok 1537
    else if slot == 154_003
    then ok 3
    else if slot == 156_000
    then ok 7
    else ok 0

abbrev no_call : ℕ → ℕ → Result ⊤ ℕ
no_call token account = ok 0

abbrev paid_in_token : TxMorph
paid_in_token = record tx_token { fee_limit = 0 }

abbrev input_of : TxMorph → MorphTxValidationInput
input_of tx = record {
  consensus_tx = morph tx 1;
  sender = 8;
  eth_balance = 3_000_000;
  l1_data_fee = 400;
  hardfork = MorphHardfork.jade;
}

abbrev token_info : TokenFeeInfo
token_info = record {
  token_address = 77;
  is_active = true;
  decimals = 6;
  price_ratio = 7;
  scale = 3;
  caller = 8;
  balance = 5_000_000;
  balance_slot = some 2;
}

abbrev token_result : MorphTxValidationResult
token_result = record {
  uses_token_fee = true;
  token_info = some token_info;
  required_token_amount = 900_172;
  amount_to_pay = 900_172;
}

abbrev entry : TokenRegistryEntry
entry = record {
  token_address = 77;
  is_active = true;
  decimals = 6;
  price_ratio = 7;
  scale = 3;
  balance_slot = some 2;
}

abbrev eth_result : MorphTxValidationResult
eth_result = record {
  uses_token_fee = false;
  token_info = none;
  required_token_amount = 0;
  amount_to_pay = 0;
}

eth_result_lem : validate_morph_tx digest storage no_call (input_of tx_v1) ≡ ok eth_result
unfolding validate_morph_tx as_morph check_format validate_eth_fee total_eth_fee validate is_jade
    is_celadon
eth_result_lem = refl

validate_morph_tx-calculate_caller_fee_example :
    calculate_caller_fee_with_l1_cost {E = ⊤} enforced
      (ok (21_000 * 90 + 5))
      3_000_000
      (fee_tx tx_v1)
      300
    ≡ ok (3_000_000 - (21_000 * 90 + 300))
validate_morph_tx-calculate_caller_fee_example =
    validate_morph_tx-calculate_caller_fee digest storage no_call (input_of tx_v1) tx_v1 1
      eth_result 90 300 refl refl (omega arith) (omega arith) eth_result_lem (omega arith)
      (omega arith)
