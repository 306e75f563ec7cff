-- ===== src/Primitives/Envelope.antt =====
-- crates/primitives/src/transaction/envelope.rs and the L1 message of l1_transaction.rs: the six kinds
-- of transactions of a block. What a transaction of a standard kind holds belongs to alloy and is
-- never looked into: it is the type `ForeignTx`, a number, and so is the `Signature` of a MorphTx.
use morph_reth.Common.{ℕ, Bool, true, false, Option, none, some, List}
use morph_reth.Primitives.MorphTx.{TxMorph}

abbrev pub ForeignTx : Type 0
ForeignTx = ℕ

abbrev pub Signature : Type 0
Signature = ℕ

pub record TxL1Msg : Type 0 where
  pub queue_index : ℕ
  pub gas_limit : ℕ
  pub to : ℕ
  pub value : ℕ
  pub sender : ℕ
  pub input : List ℕ

pub data MorphTxEnvelope : Type 0 where
  legacy eip2930 eip1559 eip7702 : ForeignTx → MorphTxEnvelope
  l1_msg : TxL1Msg → MorphTxEnvelope
  morph : TxMorph → Signature → MorphTxEnvelope

unfoldable pub is_l1_msg : MorphTxEnvelope → Bool
is_l1_msg (l1_msg m) = true
is_l1_msg tx = false

unfoldable pub is_morph_tx : MorphTxEnvelope → Bool
is_morph_tx (morph tx s) = true
is_morph_tx tx = false

unfoldable pub queue_index : MorphTxEnvelope → Option ℕ
queue_index (l1_msg m) = some m.queue_index
queue_index tx = none
