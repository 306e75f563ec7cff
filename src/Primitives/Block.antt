-- ===== src/Primitives/Block.antt =====
-- crates/primitives/src/header.rs and the block types. The header of the source wraps alloy's header,
-- whose fields stand here beside `next_l1_msg_index`. Hashes, roots, blooms and addresses are numbers.
use morph_reth.Common.{ℕ, Option, List}
use morph_reth.Primitives.Envelope.{MorphTxEnvelope}

pub record MorphHeader : Type 0 where
  pub next_l1_msg_index : ℕ
  pub parent_hash : ℕ
  pub ommers_hash : ℕ
  pub beneficiary : ℕ
  pub state_root : ℕ
  pub transactions_root : ℕ
  pub receipts_root : ℕ
  pub withdrawals_root : Option ℕ
  pub logs_bloom : ℕ
  pub difficulty : ℕ
  pub number : ℕ
  pub gas_limit : ℕ
  pub gas_used : ℕ
  pub timestamp : ℕ
  pub extra_data : List ℕ
  pub mix_hash : ℕ
  pub nonce : Option ℕ
  pub base_fee_per_gas : Option ℕ
  pub blob_gas_used : Option ℕ
  pub excess_blob_gas : Option ℕ
  pub parent_beacon_block_root : Option ℕ
  pub requests_hash : Option ℕ

-- A header with its hash, `SealedHeader`.
pub record SealedHeader : Type 0 where
  pub header : MorphHeader
  pub hash : ℕ

-- `ommers` and `withdrawals` hold what alloy's headers and withdrawals are: only their presence and
-- their number is read.
pub record BlockBody : Type 0 where
  pub transactions : List MorphTxEnvelope
  pub ommers : Option (List ℕ)
  pub withdrawals : Option (List ℕ)

pub record SealedBlock : Type 0 where
  pub sealed_header : SealedHeader
  pub body : BlockBody
