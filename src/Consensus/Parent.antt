-- ===== src/Consensus/Parent.antt =====
-- `validate_header_against_parent` of crates/consensus/src/validation.rs. The first check, of the
-- parent's hash and number, is reth's `validate_against_parent_hash_number`: an argument.
use morph_reth.Common.{
  ℕ, ◌+◌, ◌/◌, ◌≤◌, ◌<◌, ◌≡◌, ◌↔◌, Bool, false, not, ◌&&◌, ◌||◌, ltb, leb, ◌==◌, if◌then◌else◌,
  Result, ok, err, ◌>>◌, fail_if, ⊤, arith,
}
use morph_reth.Common.Words.{abs_diff}
use morph_reth.Chainspec.Constants.{minimum_gas_limit}
use morph_reth.Chainspec.Hardfork.{ForkSchedule, is_emerald_active_at_timestamp}
use morph_reth.Primitives.Block.{MorphHeader, SealedHeader}
use morph_reth.Consensus.Error.{
  ConsensusError, timestamp_is_in_past, gas_limit_invalid_increase, gas_limit_invalid_decrease,
  gas_limit_invalid_minimum, other, invalid_next_l1_message_index,
}

abbrev pub gas_limit_bound_divisor : ℕ
gas_limit_bound_divisor = 1024

unfoldable pub validate_against_parent_timestamp :
    MorphHeader → MorphHeader → Bool → Result ConsensusError ⊤
validate_against_parent_timestamp h parent is_emerald =
    fail_if
      (ltb h.timestamp parent.timestamp || (h.timestamp == parent.timestamp && not is_emerald))
      (timestamp_is_in_past parent.timestamp h.timestamp)

unfoldable pub validate_against_parent_gas_limit :
    MorphHeader → MorphHeader → Result ConsensusError ⊤
validate_against_parent_gas_limit h parent =
    let diff = abs_diff h.gas_limit parent.gas_limit in
    let limit = parent.gas_limit / gas_limit_bound_divisor in
    if leb limit diff
    then (if ltb parent.gas_limit h.gas_limit
        then err (gas_limit_invalid_increase parent.gas_limit h.gas_limit)
        else err (gas_limit_invalid_decrease parent.gas_limit h.gas_limit))
    else fail_if (ltb h.gas_limit minimum_gas_limit) (gas_limit_invalid_minimum h.gas_limit)

module _ (s : ForkSchedule) where
  -- What a header owes to its parent. The gas limit moves by less than 1/1024 of the parent's.
  pub record IsChildOf (parent h : MorphHeader) : Type 0 where
    pub not_in_past : parent.timestamp ≤ h.timestamp
    pub strictly_later :
        is_emerald_active_at_timestamp s h.timestamp ≡ false → parent.timestamp < h.timestamp
    pub gas_limit_up : h.gas_limit < parent.gas_limit + parent.gas_limit / gas_limit_bound_divisor
    pub gas_limit_down : parent.gas_limit < h.gas_limit + parent.gas_limit / gas_limit_bound_divisor
    pub gas_limit_minimum : minimum_gas_limit ≤ h.gas_limit
    pub next_l1_msg_index_grows : parent.next_l1_msg_index ≤ h.next_l1_msg_index

module _ (s : ForkSchedule)
    (validate_against_parent_hash_number : MorphHeader
      → SealedHeader
      → Result ConsensusError ⊤) where
  unfoldable pub validate_header_against_parent :
      SealedHeader → SealedHeader → Result ConsensusError ⊤
  unfolding validate_against_parent_timestamp validate_against_parent_gas_limit
  validate_header_against_parent h parent = do
    validate_against_parent_hash_number h.header parent
    let is_emerald = is_emerald_active_at_timestamp s h.header.timestamp
    validate_against_parent_timestamp h.header parent.header is_emerald
    validate_against_parent_gas_limit h.header parent.header
    fail_if (ltb h.header.next_l1_msg_index parent.header.next_l1_msg_index) (
        other (
          invalid_next_l1_message_index parent.header.next_l1_msg_index h.header.next_l1_msg_index))

  -- `validate_header_against_parent` accepts a header exactly when reth's check of hash and number
  -- accepts it and the header keeps the bounds on timestamp, gas limit and L1 message index.
  pub validate_header_against_parent_iff :
      (h parent : SealedHeader)
      → (validate_header_against_parent h parent ≡ ok tt) ↔ (
          (validate_against_parent_hash_number h.header parent ≡ ok tt)
          × IsChildOf s parent.header h.header)
  unfolding validate_header_against_parent
  validate_header_against_parent_iff h parent = (
    λ e. (
      ground arith,
      record {
        not_in_past = ground arith;
        strictly_later = ground arith;
        gas_limit_up = ground arith;
        gas_limit_down = ground arith;
        gas_limit_minimum = ground arith;
        next_l1_msg_index_grows = ground arith;
      },
    ),
    λ e. ground arith,
  )
