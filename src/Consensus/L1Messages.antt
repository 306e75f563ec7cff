-- ===== src/Consensus/L1Messages.antt =====
-- `validate_l1_messages_in_block` of crates/consensus/src/validation.rs.
pub mod Loop
pub mod Order
use morph_reth.Common.{
  ℕ, ◌+◌, Bool, true, false, not, Option, none, some, List, [], ◌∷◌, ltb, ◌==◌, if◌then◌else◌,
  Result, ok, err, ◌>>=◌, ◌>>◌, fail_if, ok_or, ⊤,
}
use morph_reth.Common.Words.{u64_max, checked_add}
use morph_reth.Primitives.Envelope.{MorphTxEnvelope, is_l1_msg, queue_index}
use morph_reth.Consensus.Error.{
  ConsensusError, msg, missing_prev_queue_index, other, invalid_l1_message_order,
  malformed_l1_message, l1_messages_not_in_order, invalid_next_l1_message_index,
}

-- The test that a queue index follows the one before it, if there is one.
unfoldable pub check_sequential : Option ℕ → ℕ → Result ConsensusError ⊤
check_sequential none tx_queue_index = ok tt
check_sequential (some prev) tx_queue_index = do
  expected ←
      ok_or (checked_add u64_max prev 1) (other (l1_messages_not_in_order u64_max tx_queue_index))
  fail_if (not (tx_queue_index == expected))
      (other (l1_messages_not_in_order expected tx_queue_index))

-- The loop over the transactions, on the variables `l1_msg_count`, `saw_l2_transaction` and
-- `prev_queue_index`; it gives the first and the last of them back. The count is below the number of
-- transactions, so it cannot wrap.
unfoldable pub l1_messages_loop :
    List MorphTxEnvelope → ℕ → Bool → Option ℕ → Result ConsensusError (ℕ × Option ℕ)
unfolding is_l1_msg queue_index check_sequential
l1_messages_loop [] l1_msg_count saw_l2 prev = ok (l1_msg_count, prev)
l1_messages_loop (tx ∷ txs) l1_msg_count saw_l2 prev =
    let after_l2 = l1_messages_loop txs l1_msg_count true prev in
    if is_l1_msg tx
    then (do
      fail_if saw_l2 (other invalid_l1_message_order)
      tx_queue_index ← ok_or (queue_index tx) (other malformed_l1_message)
      check_sequential prev tx_queue_index
      l1_messages_loop txs (l1_msg_count + 1) saw_l2 (some tx_queue_index))
    else after_l2

-- The comparison with the header, for a block that has L1 messages.
unfoldable pub check_header_index : ℕ → Bool → Option ℕ → Result ConsensusError ⊤
check_header_index header_next is_jade prev = do
  last_queue_index ← ok_or prev (msg missing_prev_queue_index)
  expected ←
      ok_or (checked_add u64_max last_queue_index 1)
        (other (invalid_next_l1_message_index u64_max header_next))
  fail_if (if is_jade then not (header_next == expected) else ltb header_next expected)
      (other (invalid_next_l1_message_index expected header_next))

unfoldable pub validate_l1_messages_in_block :
    List MorphTxEnvelope → ℕ → Bool → Result ConsensusError ⊤
unfolding check_header_index
validate_l1_messages_in_block txs header_next is_jade = do
  (l1_msg_count, prev) ← l1_messages_loop txs 0 false none
  if ltb 0 l1_msg_count then check_header_index header_next is_jade prev else ok tt
