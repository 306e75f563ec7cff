-- ===== src/Consensus/L1Messages/Order.antt =====
-- What `validate_l1_messages_in_block` accepts: the layout that its documentation describes.
use morph_reth.Common.{
  ℕ, ◌+◌, ◌≤◌, ◌≡◌, ◌≢◌, ◌↔◌, Bool, true, false, none, some, List, [], ◌∷◌, length, ok, ltb,
  if◌then◌else◌, All, arith, split_ok, refl,
}
use morph_reth.Common.Words.{IsU64}
use morph_reth.Primitives.Envelope.{TxL1Msg, MorphTxEnvelope}
use morph_reth.Consensus.L1Messages.{
  l1_messages_loop, check_header_index, validate_l1_messages_in_block,
}
use morph_reth.Consensus.L1Messages.Loop.{
  messages_then, IsL2, CountsFrom, last_index, loop-All_l2, loop_sound, loop_complete,
}

-- A block of L1 messages first to last, then L2 transactions; the header's index follows the last
-- message, exactly from Jade on and at least before.
pub record IsOrdered (txs : List MorphTxEnvelope) (next : ℕ) (is_jade : Bool) : Type 0 where
  pub first : ℕ
  pub messages : List TxL1Msg
  pub rest : List MorphTxEnvelope
  pub layout : txs ≡ messages_then messages rest
  pub rest_is_l2 : All IsL2 rest
  pub sequential : CountsFrom first messages
  pub index_follows : messages ≢ [] → first + length messages ≤ next
  pub index_exact : messages ≢ [] → is_jade ≡ true → next ≡ first + length messages

check_header_index_iff :
    (next : ℕ) (is_jade : Bool) (last : ℕ)
    → IsU64 next
    → (check_header_index next is_jade (some last) ≡ ok tt)
      ↔ ((last + 1 ≤ next) × (is_jade ≡ true → next ≡ last + 1))
unfolding check_header_index
check_header_index_iff next is_jade last h = (λ e. ground arith, λ e. ground arith)

header_iff :
    (ms : List TxL1Msg) (first next : ℕ) (is_jade : Bool)
    → IsU64 next
    → ((if ltb 0 (0 + length ms)
          then check_header_index next is_jade (last_index none first ms)
          else ok tt)
        ≡ ok tt)
      ↔ ((ms ≢ [] → first + length ms ≤ next)
          × (ms ≢ [] → is_jade ≡ true → next ≡ first + length ms))
header_iff [] first next is_jade h = (λ e. (λ n. absurd (n refl), λ n. absurd (n refl)), λ e. refl)
header_iff (m ∷ ms) first next is_jade h =
    let (to, from) = check_header_index_iff next is_jade (first + length ms) h in
    (
      λ e. let (a, b) = to (ground arith) in (λ n. omega arith, λ n j. omega (arith, b j)),
      λ e. ground (arith, from (omega (arith, e.0 (λ z. cc)), λ j. omega (arith, e.1 (λ z. cc) j))),
    )

order_sound :
    (txs : List MorphTxEnvelope) (next : ℕ) (is_jade : Bool)
    → IsU64 next
    → validate_l1_messages_in_block txs next is_jade ≡ ok tt
    → IsOrdered txs next is_jade
unfolding validate_l1_messages_in_block
order_sound txs next is_jade h e =
    let (r, run, check) = split_ok (l1_messages_loop txs 0 false none) _ e in
    let reads = loop_sound txs 0 none r run in
    let (follows, exact) =
      (header_iff reads.messages reads.first next is_jade h).0 (rw reads.counted at check) in
    record {
      first = reads.first;
      messages = reads.messages;
      rest = reads.rest;
      layout = reads.layout;
      rest_is_l2 = reads.rest_is_l2;
      sequential = reads.sequential;
      index_follows = follows;
      index_exact = exact;
    }

order_complete :
    (ms : List TxL1Msg) (rest : List MorphTxEnvelope) (first next : ℕ) (is_jade : Bool)
    → IsU64 next
    → All IsL2 rest
    → CountsFrom first ms
    → (ms ≢ [] → first + length ms ≤ next)
    → (ms ≢ [] → is_jade ≡ true → next ≡ first + length ms)
    → validate_l1_messages_in_block (messages_then ms rest) next is_jade ≡ ok tt
unfolding validate_l1_messages_in_block
order_complete [] rest first next is_jade h l2 c f x = rw (loop-All_l2 rest 0 false none l2)
order_complete (m ∷ ms) rest first next is_jade h l2 c f x =
    rw (loop_complete (m ∷ ms) rest first 0 none l2 tt c (omega (arith, f (λ z. cc))))
      ((header_iff (m ∷ ms) first next is_jade h).1 (f, x))

-- For a header index that fits a u64, `validate_l1_messages_in_block` accepts the transactions of a
-- block exactly when they are L1 messages with consecutive queue indices followed by L2 transactions
-- only, and, if there is a message, the header's index is at least the index after the last message,
-- and equal to it from Jade on.
pub validate_l1_messages_in_block_iff :
    (txs : List MorphTxEnvelope) (next : ℕ) (is_jade : Bool)
    → IsU64 next
    → (validate_l1_messages_in_block txs next is_jade ≡ ok tt) ↔ IsOrdered txs next is_jade
validate_l1_messages_in_block_iff txs next is_jade h = (
  order_sound txs next is_jade h,
  λ o. rw o.layout (
      order_complete o.messages o.rest o.first next is_jade h o.rest_is_l2 o.sequential
        o.index_follows o.index_exact),
)
