-- ===== src/Consensus/Header.antt =====
-- `validate_header` of crates/consensus/src/validation.rs. The clock, the flag of the fee vault and the
-- hash of an empty ommers list (a constant of alloy) are arguments.
use morph_reth.Common.{
  ℕ, ◌≤◌, ◌<◌, ◌≡◌, ◌↔◌, ◌≢◌, inl, inr, Option-cases, Bool, true, false, not, ◌&&◌, Option, none,
  some, [], ltb, ◌==◌, length, is_empty, Result, ok, err, ◌>>=◌, ◌>>◌, fail_if, ok_or, ⊤, arith,
}
use morph_reth.Primitives.Block.{MorphHeader}
use morph_reth.Consensus.Error.{
  ConsensusError, extra_data_exceeds_max, nonce_is_not_zero, ommer_root_is_not_empty,
  difficulty_is_not_zero, base_fee_missing, timestamp_is_in_future, header_gas_limit_exceeds_max,
  header_gas_used_exceeds_gas_limit, other, invalid_coinbase, base_fee_over_limit,
}

abbrev pub morph_maximum_base_fee : ℕ
morph_maximum_base_fee = 10_000_000_000

abbrev pub max_gas_limit : ℕ
max_gas_limit = 0x7fffffffffffffff

-- `nonce.is_some_and(|nonce| nonce.is_zero())`
abbrev zero_nonce : Option ℕ → Bool
zero_nonce none = false
zero_nonce (some n) = n == 0

module _ (empty_ommer_root_hash : ℕ) (is_fee_vault_enabled : Bool) (now : ℕ) where
  unfoldable pub validate_header : MorphHeader → Result ConsensusError ⊤
  validate_header h = do
    fail_if (not (is_empty h.extra_data)) (extra_data_exceeds_max (length h.extra_data))
    fail_if (not (zero_nonce h.nonce)) nonce_is_not_zero
    fail_if (not (h.ommers_hash == empty_ommer_root_hash)) ommer_root_is_not_empty
    fail_if (not (h.difficulty == 0)) difficulty_is_not_zero
    fail_if (is_fee_vault_enabled && not (h.beneficiary == 0))
        (other (invalid_coinbase h.beneficiary))
    fail_if (ltb now h.timestamp) (timestamp_is_in_future h.timestamp now)
    fail_if (ltb max_gas_limit h.gas_limit) (header_gas_limit_exceeds_max h.gas_limit)
    fail_if (ltb h.gas_limit h.gas_used) (header_gas_used_exceeds_gas_limit h.gas_used h.gas_limit)
    base_fee ← ok_or h.base_fee_per_gas base_fee_missing
    fail_if (ltb morph_maximum_base_fee base_fee) (other (base_fee_over_limit base_fee))

  -- The rules of the header, as the documentation lists them.
  pub record IsValidHeader (h : MorphHeader) : Type 0 where
    pub extra_data_empty : h.extra_data ≡ []
    pub nonce_zero : h.nonce ≡ some 0
    pub no_ommers : h.ommers_hash ≡ empty_ommer_root_hash
    pub difficulty_zero : h.difficulty ≡ 0
    pub coinbase_zero : is_fee_vault_enabled ≡ true → h.beneficiary ≡ 0
    pub not_in_future : h.timestamp ≤ now
    pub gas_limit_bounded : h.gas_limit ≤ max_gas_limit
    pub gas_used_bounded : h.gas_used ≤ h.gas_limit
    pub base_fee : ℕ
    pub base_fee_set : h.base_fee_per_gas ≡ some base_fee
    pub base_fee_bounded : base_fee ≤ morph_maximum_base_fee

  header_rules :
      (h : MorphHeader) (base_fee : ℕ)
      → h.base_fee_per_gas ≡ some base_fee
      → validate_header h ≡ ok tt
      → IsValidHeader h
  unfolding validate_header
  header_rules h base_fee b e = record {
    extra_data_empty = ground arith;
    nonce_zero = ground arith;
    no_ommers = ground arith;
    difficulty_zero = ground arith;
    coinbase_zero = ground arith;
    not_in_future = ground arith;
    gas_limit_bounded = ground arith;
    gas_used_bounded = ground arith;
    base_fee = base_fee;
    base_fee_set = b;
    base_fee_bounded = ground arith;
  }

  no_base_fee : (h : MorphHeader) → h.base_fee_per_gas ≡ none → validate_header h ≢ ok tt
  unfolding validate_header
  no_base_fee h b e = ground arith

  -- `validate_header` accepts a header exactly when all its rules hold.
  pub validate_header_iff : (h : MorphHeader) → (validate_header h ≡ ok tt) ↔ IsValidHeader h
  unfolding validate_header
  validate_header_iff h = (
    λ e. elim (Option-cases h.base_fee_per_gas) [
      | inl b ↦ absurd (no_base_fee h b e)
      | inr (base_fee, b) ↦ header_rules h base_fee b e
    ],
    λ v. ground arith,
  )

-- `matches!(error, TimestampIsInFuture { .. })`
unfoldable pub is_transient_error : ConsensusError → Bool
is_transient_error (timestamp_is_in_future t n) = true
is_transient_error e = false

-- A transient error comes from the clock alone: once the clock has reached the timestamp of the header,
-- no error of `validate_header` is transient.
pub validate_header_transient :
    (empty : ℕ) (vault : Bool) (now later : ℕ) (h : MorphHeader) (e e' : ConsensusError)
    → validate_header empty vault now h ≡ err e
    → is_transient_error e ≡ true
    → h.timestamp ≤ later
    → validate_header empty vault later h ≡ err e'
    → (now < h.timestamp) × (is_transient_error e' ≡ false)
unfolding validate_header is_transient_error
validate_header_transient empty vault now later h e e' r t l r' = ground arith
