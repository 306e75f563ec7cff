-- ===== src/Primitives/MorphTx/Rules.antt =====
-- The rules that the documentation of `TxMorph::validate` lists, and its decision.
use morph_reth.Common.{
  ℕ, ◌≤◌, ◌≡◌, ◌≢◌, inl, inr, ◌↔◌, Option, none, some, List, [], length, ok, arith, ⊤, ◌==◌,
  Bool-cases,
}
use morph_reth.Primitives.MorphTx.{
  TxMorph, create, validate_version_0, validate_version_1, validate_version_2, validate_version,
  validate, with_inferred_version, max_memo_length,
}

-- An absent reference, or the zero one.
abbrev pub NoReference : Option ℕ → Type 0
NoReference none = ⊤
NoReference (some r) = r ≡ 0

-- An absent memo, or the empty one.
abbrev pub NoMemo : Option (List ℕ) → Type 0
NoMemo none = ⊤
NoMemo (some m) = m ≡ []

abbrev pub ShortMemo : Option (List ℕ) → Type 0
ShortMemo none = ⊤
ShortMemo (some m) = length m ≤ max_memo_length

-- Without a fee token there is no fee limit.
abbrev pub FeeLimitRule : TxMorph → Type 0
FeeLimitRule tx = tx.fee_token_id ≡ 0 → tx.fee_limit ≡ 0

-- The rules of each version, as the documentation of `validate_version` lists them.
pub data VersionRules (tx : TxMorph) : Type 0 where
  version_0 :
      tx.version ≡ 0
      → tx.fee_token_id ≢ 0
      → NoReference tx.reference
      → NoMemo tx.memo
      → tx.authorization_list ≡ []
      → VersionRules tx
  version_1 : tx.version ≡ 1 → FeeLimitRule tx → tx.authorization_list ≡ [] → VersionRules tx
  version_2 :
      tx.version ≡ 2
      → FeeLimitRule tx
      → (tx.to ≡ create → tx.authorization_list ≡ [])
      → VersionRules tx

pub record IsValidTx (tx : TxMorph) : Type 0 where
  pub fees_ordered : tx.max_priority_fee_per_gas ≤ tx.max_fee_per_gas
  pub memo_short : ShortMemo tx.memo
  pub rules : VersionRules tx

v0_sound :
    (tx : TxMorph)
    → validate_version_0 tx ≡ ok tt
    → (tx.fee_token_id ≢ 0)
      × NoReference tx.reference
      × NoMemo tx.memo
      × (tx.authorization_list ≡ [])
unfolding validate_version_0
v0_sound tx h = ground arith

v1_sound :
    (tx : TxMorph) → validate_version_1 tx ≡ ok tt → FeeLimitRule tx × (tx.authorization_list ≡ [])
unfolding validate_version_1
v1_sound tx h = ground arith

v2_sound :
    (tx : TxMorph)
    → validate_version_2 tx ≡ ok tt
    → FeeLimitRule tx × (tx.to ≡ create → tx.authorization_list ≡ [])
unfolding validate_version_2
v2_sound tx h = ground arith

validate_version_sound : (tx : TxMorph) → validate_version tx ≡ ok tt → VersionRules tx
unfolding validate_version
validate_version_sound tx h = elim (Bool-cases (tx.version == 0)) [
  | inl e0 ↦ let (a, b, c, d) = v0_sound tx (ground arith) in version_0 (ground arith) a b c d
  | inr n0 ↦ elim (Bool-cases (tx.version == 1)) [
    | inl e1 ↦ let (a, b) = v1_sound tx (ground arith) in version_1 (ground arith) a b
    | inr n1 ↦ elim (Bool-cases (tx.version == 2)) [
      | inl e2 ↦ let (a, b) = v2_sound tx (ground arith) in version_2 (ground arith) a b
      | inr n2 ↦ absurd (ground arith)
    ]
  ]
]

validate_version_complete : (tx : TxMorph) → VersionRules tx → validate_version tx ≡ ok tt
unfolding validate_version
validate_version_complete tx (version_0 v f r m a) = ground arith
validate_version_complete tx (version_1 v f a) = ground arith
validate_version_complete tx (version_2 v f a) = ground arith

-- `validate` accepts a transaction exactly when its fees are ordered, its memo is at most 64 bytes
-- long, and the rules of its version hold.
pub validate_iff : (tx : TxMorph) → (validate tx ≡ ok tt) ↔ IsValidTx tx
unfolding validate
validate_iff tx = (
  λ h. record {
    fees_ordered = ground arith;
    memo_short = ground arith;
    rules = validate_version_sound tx (ground arith);
  },
  λ h. ground (arith, validate_version_complete tx h.rules),
)

-- A transaction built by `with_inferred_version` is never of version 0, and its version can carry
-- its list: the checks of its version come down to the rules on the fee limit and on CREATE.
pub with_inferred_version_iff :
    (tx : TxMorph)
    → (validate_version (with_inferred_version tx) ≡ ok tt)
      ↔ (FeeLimitRule tx × (tx.to ≡ create → tx.authorization_list ≡ []))
unfolding with_inferred_version validate_version
with_inferred_version_iff tx = (λ h. ground arith, λ h. ground arith)
