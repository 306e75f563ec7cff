-- ===== src/Chainspec/Constants.antt =====
-- crates/chainspec/src/constants.rs: the protocol constants that several parts share.
use morph_reth.Common.{ℕ, ◌*◌}

abbrev pub morph_max_tx_payload_bytes_per_block : ℕ
morph_max_tx_payload_bytes_per_block = 720 * 1024

abbrev pub minimum_gas_limit : ℕ
minimum_gas_limit = 5000
