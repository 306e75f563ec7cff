-- ===== src/Node/Validator/L1Index.antt =====
-- What the engine's check of the L1 message index adds to the consensus checks.
use morph_reth.Common.{
  ℕ, suc, ◌+◌, ◌≤◌, ◌<◌, ◌≡◌, ◌≢◌, ◌↔◌, true, Option, some, List, [], ◌∷◌, All, length, Result, ok,
  arith, refl, ◌∙◌, ap,
}
use morph_reth.Common.Words.{u64_max, IsU64}
use morph_reth.Chainspec.Hardfork.{ForkSchedule, is_jade_active_at_timestamp}
use morph_reth.Primitives.Envelope.{TxL1Msg, MorphTxEnvelope, legacy, l1_msg}
use morph_reth.Primitives.Block.{MorphHeader, SealedBlock}
use morph_reth.Consensus.L1Messages.Loop.{messages_then, IsL2, CountsFrom}
use morph_reth.Consensus.L1Messages.Order.{IsOrdered}
use morph_reth.Node.Validator.{expected_loop, check_against_parent, validate_next_l1_msg_index}

-- The index after the messages; without messages, the parent's.
abbrev pub index_after : ℕ → ℕ → List TxL1Msg → ℕ
index_after parent_next first [] = parent_next
index_after parent_next first (m ∷ ms) = first + length (m ∷ ms)

index_after-suc :
    (q first : ℕ) (ms : List TxL1Msg)
    → q ≡ first
    → index_after (q + 1) (first + 1) ms ≡ first + suc (length ms)
index_after-suc q first [] h = omega arith
index_after-suc q first (m ∷ ms) h = omega arith

expected_loop-l2 :
    (actual expected : ℕ) (txs : List MorphTxEnvelope)
    → All IsL2 txs
    → expected_loop actual txs expected ≡ ok expected
unfolding expected_loop
expected_loop-l2 actual expected [] h = refl
expected_loop-l2 actual expected (legacy t ∷ txs) h = refl
expected_loop-l2 actual expected (l1_msg m ∷ txs) h = absurd (cc (h.0))
expected_loop-l2 actual expected (tx ∷ txs) h = refl

expected_loop-message :
    (actual expected : ℕ) (m : TxL1Msg) (txs : List MorphTxEnvelope)
    → m.queue_index < u64_max
    → expected_loop actual (l1_msg m ∷ txs) expected ≡ expected_loop actual txs (m.queue_index + 1)
unfolding expected_loop
expected_loop-message actual expected m txs h = ground arith

expected_loop-messages :
    (actual expected first : ℕ) (ms : List TxL1Msg) (rest : List MorphTxEnvelope)
    → All IsL2 rest
    → CountsFrom first ms
    → (ms ≢ [] → first + length ms ≤ u64_max)
    → expected_loop actual (messages_then ms rest) expected ≡ ok (index_after expected first ms)
expected_loop-messages actual expected first [] rest l2 c h =
    expected_loop-l2 actual expected rest l2
expected_loop-messages actual expected first (m ∷ ms) rest l2 (e, c) h =
    let fits : first + length (m ∷ ms) ≤ u64_max = h (λ z. cc) in
    expected_loop-message actual expected m (messages_then ms rest) (omega arith)
    ∙ expected_loop-messages actual (m.queue_index + 1) (first + 1) ms rest l2 c (λ z. omega arith)
    ∙ ap ok (index_after-suc m.queue_index first ms e)

-- The check against a parent that was found, on a block whose messages are in order: the header's index
-- is the index after the messages.
check_against_parent_iff :
    (parent : MorphHeader) (block : SealedBlock)
    → IsU64 block.sealed_header.header.next_l1_msg_index
    → (o : IsOrdered block.body.transactions block.sealed_header.header.next_l1_msg_index true)
    → (check_against_parent parent block ≡ ok tt) ↔ (
        block.sealed_header.header.next_l1_msg_index
        ≡ index_after parent.next_l1_msg_index o.first o.messages)
unfolding check_against_parent
check_against_parent_iff parent block h o =
    let next = block.sealed_header.header.next_l1_msg_index in
    let run =
      expected_loop-messages next parent.next_l1_msg_index o.first o.messages o.rest o.rest_is_l2
        o.sequential (λ z. omega (arith, o.index_follows z)) in
    let run' : expected_loop next block.body.transactions parent.next_l1_msg_index
        ≡ ok (index_after parent.next_l1_msg_index o.first o.messages) =
      rw o.layout run in
    (λ e. ground (arith, run'), λ e. ground (arith, run'))

exact-index_after :
    (parent_next first next : ℕ) (ms : List TxL1Msg)
    → (ms ≢ [] → true ≡ true → next ≡ first + length ms)
    → (next ≡ index_after parent_next first ms) ↔ (ms ≡ [] → next ≡ parent_next)
exact-index_after p first next [] x = (λ e z. e, λ e. e refl)
exact-index_after p first next (m ∷ ms) x = (λ e z. cc, λ e. x (λ z. cc) refl)

module _ {E : Type 0} (s : ForkSchedule) (in_tree : ℕ → Option MorphHeader)
    (in_provider : ℕ → Result E (Option MorphHeader)) where
  -- For a Jade block whose L1 messages the consensus check accepts, with its parent in the engine's tree,
  -- the engine's check adds one condition: without L1 messages the index is the parent's.
  pub validate_next_l1_msg_index_iff :
      (block : SealedBlock) (parent : MorphHeader)
      → is_jade_active_at_timestamp s block.sealed_header.header.timestamp ≡ true
      → in_tree block.sealed_header.header.parent_hash ≡ some parent
      → IsU64 block.sealed_header.header.next_l1_msg_index
      → (o : IsOrdered block.body.transactions block.sealed_header.header.next_l1_msg_index true)
      → (validate_next_l1_msg_index s in_tree in_provider block ≡ ok tt) ↔ (
          o.messages ≡ [] → block.sealed_header.header.next_l1_msg_index ≡ parent.next_l1_msg_index)
  unfolding validate_next_l1_msg_index
  validate_next_l1_msg_index_iff block parent j f h o =
      let c = check_against_parent_iff parent block h o in
      let x = exact-index_after parent.next_l1_msg_index o.first _ o.messages o.index_exact in
      (λ e. x.0 (c.0 (ground arith)), λ e. ground (arith, c.1 (x.1 e)))
