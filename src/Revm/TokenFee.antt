-- ===== src/Revm/TokenFee.antt =====
-- crates/revm/src/token_fee.rs: fees in ERC20 tokens. keccak256 and the reads of the state are
-- arguments; the `balanceOf` call for a token with no known balance slot, which runs the EVM, is one too.
pub mod Rounding
pub mod Mono
use morph_reth.Common.{
  ℕ, zero, suc, ◌+◌, ◌-◌, ◌/◌, ◌%◌, ◌^◌, not, Bool, ◌||◌, Option, none, some, List, [], ◌∷◌, ◌++◌,
  ◌==◌, if◌then◌else◌, min, Result, ok, err, ◌>>=◌,
}
use morph_reth.Common.Words.{u256_max, saturating_add, saturating_mul}

abbrev pub l2_token_registry_address : ℕ
l2_token_registry_address = 0x5300000000000000000000000000000000000021

abbrev pub token_registry_slot : ℕ
token_registry_slot = 151

abbrev pub price_ratio_slot : ℕ
price_ratio_slot = 153

pub record TokenFeeInfo : Type 0 where
  pub token_address : ℕ
  pub is_active : Bool
  pub decimals : ℕ
  pub price_ratio : ℕ
  pub scale : ℕ
  pub caller : ℕ
  pub balance : ℕ
  pub balance_slot : Option ℕ

pub record TokenRegistryEntry : Type 0 where
  pub token_address : ℕ
  pub is_active : Bool
  pub decimals : ℕ
  pub price_ratio : ℕ
  pub scale : ℕ
  pub balance_slot : Option ℕ

unfoldable pub into_fee_info : TokenRegistryEntry → ℕ → ℕ → TokenFeeInfo
into_fee_info e caller balance = record {
  token_address = e.token_address;
  is_active = e.is_active;
  decimals = e.decimals;
  price_ratio = e.price_ratio;
  scale = e.scale;
  caller = caller;
  balance = balance;
  balance_slot = e.balance_slot;
}

-- the errors of `MorphInvalidTransaction` that `ensure_usable` gives, with the token's id
pub data UsableError : Type 0 where
  token_not_active invalid_token_config : ℕ → UsableError

unfoldable pub ensure_usable : TokenRegistryEntry → ℕ → Result UsableError TokenRegistryEntry
ensure_usable e token_id =
    if not e.is_active
    then err (token_not_active token_id)
    else if e.price_ratio == 0 || e.scale == 0
    then err (invalid_token_config token_id)
    else ok e

unfoldable pub effective_fee_limit : TokenFeeInfo → ℕ → ℕ
effective_fee_limit info fee_limit =
    if fee_limit == 0 then info.balance else min info.balance fee_limit

-- The amount of tokens, rounded up, and the numerator that the rounding overcharged.
unfoldable pub eth_to_token_amount_with_credit : TokenFeeInfo → ℕ → ℕ × ℕ
eth_to_token_amount_with_credit info eth_amount =
    let scaled = saturating_mul u256_max eth_amount info.scale in
    let token_amount = scaled / info.price_ratio in
    let remainder = scaled % info.price_ratio in
    if info.price_ratio == 0 || info.scale == 0
    then (u256_max, 0)
    else if remainder == 0
    then (token_amount, 0)
    else (saturating_add u256_max token_amount 1, info.price_ratio - remainder)

unfoldable pub eth_to_token_amount : TokenFeeInfo → ℕ → ℕ
unfolding eth_to_token_amount_with_credit
eth_to_token_amount info eth_amount = (eth_to_token_amount_with_credit info eth_amount).0

unfoldable pub eth_to_token_amount_floor : TokenFeeInfo → ℕ → ℕ → ℕ
eth_to_token_amount_floor info eth_amount rounding_credit =
    if info.price_ratio == 0 || info.scale == 0
    then 0
    else saturating_add u256_max (saturating_mul u256_max eth_amount info.scale) rounding_credit
      / info.price_ratio

-- `U256::to_be_bytes::<n>`: the n lowest bytes, highest first.
abbrev pub to_be_bytes : ℕ → ℕ → List ℕ
to_be_bytes zero v = []
to_be_bytes (suc n) v = to_be_bytes n (v / 256) ++ (v % 256 ∷ [])

module _ (keccak256 : List ℕ → ℕ) where
  -- `key` is 32 bytes long.
  unfoldable pub compute_mapping_slot : ℕ → List ℕ → ℕ
  compute_mapping_slot base_slot key = keccak256 (key ++ to_be_bytes 32 base_slot)

  -- The key is the address, 20 bytes, padded on the left.
  unfoldable pub compute_mapping_slot_for_address : ℕ → ℕ → ℕ
  unfolding compute_mapping_slot
  compute_mapping_slot_for_address base_slot account =
      compute_mapping_slot base_slot (to_be_bytes 32 account)

  module _ {E : Type 0} (storage : ℕ → ℕ → Result E ℕ) where
    unfoldable pub read_mapping_value : ℕ → ℕ → List ℕ → Result E ℕ
    unfolding compute_mapping_slot
    read_mapping_value contract base_slot key =
        storage contract (compute_mapping_slot base_slot key)

    -- A stored balance slot is one more than the slot; 0 is none.
    abbrev balance_slot_of : ℕ → Option ℕ
    balance_slot_of raw = if not (raw == 0) then some (raw - 1) else none

    -- A zero address is a token that is not registered. Sums of slots wrap at 2^256.
    unfoldable pub read_registry_entry : ℕ → Result E (Option TokenRegistryEntry)
    unfolding compute_mapping_slot read_mapping_value
    read_registry_entry token_id =
        let key = to_be_bytes 32 token_id in
        let base = compute_mapping_slot token_registry_slot key in
        storage l2_token_registry_address base >>= λ slot_0.
        let token_address = slot_0 % 2 ^ 160 in
        let rest : Result E (Option TokenRegistryEntry) = (do
          balance_slot_raw ← storage l2_token_registry_address ((base + 1) % 2 ^ 256)
          slot_2 ← storage l2_token_registry_address ((base + 2) % 2 ^ 256)
          scale ← storage l2_token_registry_address ((base + 3) % 2 ^ 256)
          price_ratio ← read_mapping_value l2_token_registry_address price_ratio_slot key
          ok (
              some (record {
                token_address = token_address;
                is_active = not (slot_2 % 256 == 0);
                decimals = slot_2 / 256 % 256;
                price_ratio = price_ratio;
                scale = scale;
                balance_slot = balance_slot_of balance_slot_raw;
              }))) in
        if token_address == 0 then ok none else rest

    unfoldable pub read_balance_from_storage : ℕ → ℕ → ℕ → Result E ℕ
    unfolding read_mapping_value
    read_balance_from_storage token account balance_slot =
        read_mapping_value token balance_slot (to_be_bytes 32 account)

    -- `load_storage_only` of an entry: with no known slot the balance is 0.
    unfoldable pub load_storage_only_entry : TokenRegistryEntry → ℕ → Result E TokenFeeInfo
    unfolding read_balance_from_storage into_fee_info
    load_storage_only_entry e caller = do
      balance ← elim e.balance_slot [
        | none ↦ ok 0
        | some slot ↦ read_balance_from_storage e.token_address caller slot
      ]
      ok (into_fee_info e caller balance)

    -- `evm_call_balance_of` is the call of the token's contract.
    module _ (evm_call_balance_of : ℕ → ℕ → Result E ℕ) where
      unfoldable pub read_token_balance_with_fallback : ℕ → ℕ → Option ℕ → Result E ℕ
      unfolding read_balance_from_storage
      read_token_balance_with_fallback token account none = evm_call_balance_of token account
      read_token_balance_with_fallback token account (some slot) =
          read_balance_from_storage token account slot

      unfoldable pub load_for_caller : ℕ → ℕ → Result E (Option TokenFeeInfo)
      unfolding read_registry_entry read_token_balance_with_fallback into_fee_info
      load_for_caller token_id caller = read_registry_entry token_id >>= elim [
        | none ↦ ok none
        | some e ↦
            read_token_balance_with_fallback e.token_address caller e.balance_slot >>= λ balance.
            ok (some (into_fee_info e caller balance))
      ]
