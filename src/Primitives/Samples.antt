-- ===== src/Primitives/Samples.antt =====
-- Sample transactions, headers and blocks for the tests.
use morph_reth.Common.{ℕ, ◌*◌, true, none, some, List, [], ◌∷◌, leb}
use morph_reth.Chainspec.Hardfork.{ForkSchedule, rank}
use morph_reth.Primitives.MorphTx.{TxMorph, call}
use morph_reth.Primitives.Envelope.{TxL1Msg, MorphTxEnvelope, legacy, l1_msg, morph}
use morph_reth.Primitives.Block.{MorphHeader, SealedHeader, SealedBlock}

-- Each fork starts ten seconds after the one before it.
abbrev pub schedule : ForkSchedule
schedule = record {
  active_at_block = λ f n. true;
  active_at_timestamp = λ f t. leb (10 * rank f) t;
}

abbrev pub tx_v1 : TxMorph
tx_v1 = record {
  chain_id = 2818;
  nonce = 4;
  gas_limit = 21000;
  max_fee_per_gas = 100;
  max_priority_fee_per_gas = 10;
  to = call 9;
  value = 5;
  access_list = [];
  version = 1;
  fee_token_id = 0;
  fee_limit = 0;
  reference = some 7;
  memo = some (1 ∷ 2 ∷ []);
  authorization_list = [];
  input = [];
}

abbrev pub tx_token : TxMorph
tx_token = record tx_v1 { fee_token_id = 3; fee_limit = 1000 }

abbrev pub message : ℕ → TxL1Msg
message q = record { queue_index = q; gas_limit = 50; to = 1; value = 0; sender = 2; input = [] }

abbrev pub header : MorphHeader
header = record {
  next_l1_msg_index = 8;
  parent_hash = 70;
  ommers_hash = 1;
  beneficiary = 0;
  state_root = 31;
  transactions_root = 32;
  receipts_root = 33;
  withdrawals_root = none;
  logs_bloom = 6;
  difficulty = 0;
  number = 12;
  gas_limit = 30000000;
  gas_used = 21000;
  timestamp = 55;
  extra_data = [];
  nonce = some 0;
  base_fee_per_gas = some 1000000;
  mix_hash = 0;
  blob_gas_used = none;
  excess_blob_gas = none;
  parent_beacon_block_root = none;
  requests_hash = none;
}

abbrev pub parent : MorphHeader
parent = record header { next_l1_msg_index = 6; timestamp = 54; number = 11; parent_hash = 60 }

abbrev pub sealed_parent : SealedHeader
sealed_parent = record { header = parent; hash = 70 }

-- Two L1 messages, then a transfer and a MorphTx.
abbrev pub transactions : List MorphTxEnvelope
transactions = l1_msg (message 6) ∷ l1_msg (message 7) ∷ legacy 1 ∷ morph tx_v1 0 ∷ []

abbrev pub block : SealedBlock
block = record {
  sealed_header = record { header = header; hash = 71 };
  body = record { transactions = transactions; ommers = some []; withdrawals = none };
}

-- The same parent's index, no L1 messages.
abbrev pub quiet_block : SealedBlock
quiet_block = record {
  sealed_header = record { header = record header { next_l1_msg_index = 6 }; hash = 72 };
  body = record { transactions = legacy 1 ∷ []; ommers = none; withdrawals = none };
}
