-- ===== src/Primitives/MorphTx.antt =====
-- crates/primitives/src/transaction/morph_transaction.rs: the MorphTx (type 0x7F), its versions and
-- its validation. Byte strings are lists of numbers; hashes, addresses and U256 values are numbers.
-- An entry of the access list or of the authorization list belongs to alloy and is only carried: it is
-- the type `Item`, a number. The reasons that the source reports as strings are a data type.
pub mod Rules
pub mod GasPrice
use morph_reth.Common.{
  ℕ, ◌+◌, ◌-◌, Bool, true, false, not, ◌&&◌, ◌||◌, Option, none, some, List, [], ltb, ◌==◌,
  if◌then◌else◌, is_empty, length, Result, ok, err, ◌>>◌, fail_if, ⊤,
}

abbrev pub morph_tx_version_0 : ℕ
morph_tx_version_0 = 0

abbrev pub morph_tx_version_1 : ℕ
morph_tx_version_1 = 1

abbrev pub morph_tx_version_2 : ℕ
morph_tx_version_2 = 2

abbrev pub max_memo_length : ℕ
max_memo_length = 64

abbrev pub Item : Type 0
Item = ℕ

-- alloy's `TxKind`
pub data TxKind : Type 0 where
  create : TxKind
  call : ℕ → TxKind

unfoldable pub is_create : TxKind → Bool
is_create create = true
is_create (call a) = false

unfoldable pub is_call : TxKind → Bool
is_call create = false
is_call (call a) = true

pub record TxMorph : Type 0 where
  pub chain_id : ℕ
  pub nonce : ℕ
  pub gas_limit : ℕ
  pub max_fee_per_gas : ℕ
  pub max_priority_fee_per_gas : ℕ
  pub to : TxKind
  pub value : ℕ
  pub access_list : List Item
  pub version : ℕ
  pub fee_token_id : ℕ
  pub fee_limit : ℕ
  pub reference : Option ℕ
  pub memo : Option (List ℕ)
  pub authorization_list : List Item
  pub input : List ℕ

-- The reasons of `validate` and `validate_version`, in the order of the source.
pub data TxReason : Type 0 where
  priority_fee_exceeds_max_fee memo_too_long : TxReason
  v0_requires_fee_token v0_reference v0_memo v0_authorizations : TxReason
  v1_fee_limit v1_authorizations : TxReason
  v2_fee_limit v2_create : TxReason
  unsupported_version : TxReason

unfoldable pub has_authorizations : TxMorph → Bool
has_authorizations tx = not (is_empty tx.authorization_list)

-- `reference.is_some_and(|r| r != B256::ZERO)`
abbrev nonzero_reference : Option ℕ → Bool
nonzero_reference none = false
nonzero_reference (some r) = not (r == 0)

-- `memo.is_some_and(|m| !m.is_empty())`
abbrev nonempty_memo : Option (List ℕ) → Bool
nonempty_memo none = false
nonempty_memo (some m) = not (is_empty m)

-- the test of a memo that is longer than allowed
abbrev long_memo : Option (List ℕ) → Bool
long_memo none = false
long_memo (some m) = ltb max_memo_length (length m)

validate_version_0 : TxMorph → Result TxReason ⊤
unfolding has_authorizations
validate_version_0 tx = do
  fail_if (tx.fee_token_id == 0) v0_requires_fee_token
  fail_if (nonzero_reference tx.reference) v0_reference
  fail_if (nonempty_memo tx.memo) v0_memo
  fail_if (has_authorizations tx) v0_authorizations

validate_version_1 : TxMorph → Result TxReason ⊤
unfolding has_authorizations
validate_version_1 tx = do
  fail_if (tx.fee_token_id == 0 && ltb 0 tx.fee_limit) v1_fee_limit
  fail_if (has_authorizations tx) v1_authorizations

validate_version_2 : TxMorph → Result TxReason ⊤
unfolding has_authorizations is_create
validate_version_2 tx = do
  fail_if (tx.fee_token_id == 0 && ltb 0 tx.fee_limit) v2_fee_limit
  fail_if (has_authorizations tx && is_create tx.to) v2_create

unfoldable pub validate_version : TxMorph → Result TxReason ⊤
unfolding validate_version_0 validate_version_1 validate_version_2
validate_version tx =
    if tx.version == morph_tx_version_0
    then validate_version_0 tx
    else if tx.version == morph_tx_version_1
    then validate_version_1 tx
    else if tx.version == morph_tx_version_2
    then validate_version_2 tx
    else err unsupported_version

unfoldable pub validate : TxMorph → Result TxReason ⊤
unfolding validate_version
validate tx = do
  fail_if (ltb tx.max_fee_per_gas tx.max_priority_fee_per_gas) priority_fee_exceeds_max_fee
  fail_if (long_memo tx.memo) memo_too_long
  validate_version tx

unfoldable pub inferred_version : Bool → ℕ
inferred_version authorizations = if authorizations then morph_tx_version_2 else morph_tx_version_1

unfoldable pub with_inferred_version : TxMorph → TxMorph
unfolding inferred_version has_authorizations
with_inferred_version tx = record tx { version = inferred_version (has_authorizations tx) }

-- The sum of the tip and the base fee is at most `max_fee_per_gas` where it is taken, so it cannot
-- wrap.
unfoldable pub effective_gas_price : TxMorph → Option ℕ → ℕ
effective_gas_price tx none = tx.max_fee_per_gas
effective_gas_price tx (some base_fee) =
    if ltb tx.max_priority_fee_per_gas (tx.max_fee_per_gas - base_fee)
    then tx.max_priority_fee_per_gas + base_fee
    else tx.max_fee_per_gas

-- The version that the first byte after the type byte selects, and whether it is a version byte to
-- skip; `none` is an unsupported version.
unfoldable pub wire_version : ℕ → Option (ℕ × Bool)
wire_version first_byte =
    if first_byte == morph_tx_version_0 || ltb 0xbf first_byte
    then some (morph_tx_version_0, false)
    else if first_byte == morph_tx_version_1 || first_byte == morph_tx_version_2
    then some (first_byte, true)
    else none
