-- ===== src/Consensus/L1Messages/Loop.antt =====
-- The loop of `validate_l1_messages_in_block`: what a successful run has read, and the runs that
-- succeed.
use morph_reth.Common.{
  ℕ, ◌+◌, ◌≤◌, ◌≡◌, Bool, true, false, Option, none, some, List, [], ◌∷◌, length, ok, ap, ◌∙◌, All,
  ⊤, arith, refl,
}
use morph_reth.Common.Words.{u64_max, IsU64}
use morph_reth.Primitives.Envelope.{TxL1Msg, MorphTxEnvelope, legacy, l1_msg, is_l1_msg}
use morph_reth.Consensus.L1Messages.{check_sequential, l1_messages_loop}

-- L1 messages, then the other transactions.
abbrev pub messages_then : List TxL1Msg → List MorphTxEnvelope → List MorphTxEnvelope
messages_then [] rest = rest
messages_then (m ∷ ms) rest = l1_msg m ∷ messages_then ms rest

abbrev pub IsL2 : MorphTxEnvelope → Type 0
IsL2 tx = is_l1_msg tx ≡ false

-- Queue indices that count up from `first`.
abbrev pub CountsFrom : ℕ → List TxL1Msg → Type 0
CountsFrom first [] = ⊤
CountsFrom first (m ∷ ms) = (m.queue_index ≡ first) × CountsFrom (first + 1) ms

-- After an L2 transaction the loop accepts L2 transactions only, and changes nothing.
loop_saw_sound :
    (txs : List MorphTxEnvelope) (count : ℕ) (prev : Option ℕ) (r : ℕ × Option ℕ)
    → l1_messages_loop txs count true prev ≡ ok r
    → All IsL2 txs × (r ≡ (count, prev))
unfolding l1_messages_loop
loop_saw_sound [] count prev r h = ground arith
loop_saw_sound (legacy t ∷ txs) count prev r h = ground (arith, loop_saw_sound txs count prev r)
loop_saw_sound (tx ∷ txs) count prev r h = ground (arith, loop_saw_sound txs count prev r)

pub loop-All_l2 :
    (txs : List MorphTxEnvelope) (count : ℕ) (saw : Bool) (prev : Option ℕ)
    → All IsL2 txs
    → l1_messages_loop txs count saw prev ≡ ok (count, prev)
unfolding l1_messages_loop
loop-All_l2 [] count saw prev h = refl
loop-All_l2 (legacy t ∷ txs) count saw prev h = ground (arith, loop-All_l2 txs count true prev)
loop-All_l2 (tx ∷ txs) count saw prev h = ground (arith, loop-All_l2 txs count true prev)

-- The index that the loop must see next; before the first message any will do.
abbrev pub Follows : Option ℕ → ℕ → Type 0
Follows none q = ⊤
Follows (some prev) q = prev + 1 ≡ q

-- The last index after the messages.
abbrev pub last_index : Option ℕ → ℕ → List TxL1Msg → Option ℕ
last_index prev first [] = prev
last_index prev first (m ∷ ms) = some (first + length ms)

-- What a run of the loop from `prev` has read.
pub record Reads (txs : List MorphTxEnvelope) (count : ℕ) (prev : Option ℕ) (r : ℕ × Option ℕ)
    : Type 0 where
  pub first : ℕ
  pub messages : List TxL1Msg
  pub rest : List MorphTxEnvelope
  pub layout : txs ≡ messages_then messages rest
  pub rest_is_l2 : All IsL2 rest
  pub follows : Follows prev first
  pub sequential : CountsFrom first messages
  pub counted : r ≡ (count + length messages, last_index prev first messages)

last_index-suc :
    (q first : ℕ) (ms : List TxL1Msg)
    → q + 1 ≡ first
    → last_index (some q) first ms ≡ some (q + length ms)
last_index-suc q first [] h = ground arith
last_index-suc q first (m ∷ ms) h = ground arith

abbrev index_after : Option ℕ → ℕ
index_after none = 0
index_after (some prev) = prev + 1

Follows-index_after : (prev : Option ℕ) → Follows prev (index_after prev)
Follows-index_after none = tt
Follows-index_after (some prev) = refl

Reads-All_l2 :
    (txs : List MorphTxEnvelope) (count : ℕ) (prev : Option ℕ) (r : ℕ × Option ℕ)
    → All IsL2 txs
    → r ≡ (count, prev)
    → Reads txs count prev r
Reads-All_l2 txs count prev r l2 e = record {
  first = index_after prev;
  messages = [];
  rest = txs;
  layout = refl;
  rest_is_l2 = l2;
  follows = Follows-index_after prev;
  sequential = tt;
  counted = ground arith;
}

check_sequential-Follows :
    (prev : Option ℕ) (q : ℕ) → check_sequential prev q ≡ ok tt → Follows prev q
unfolding check_sequential
check_sequential-Follows none q h = tt
check_sequential-Follows (some p) q h = ground arith

Reads-message :
    (m : TxL1Msg) (txs : List MorphTxEnvelope) (count : ℕ) (prev : Option ℕ) (r : ℕ × Option ℕ)
    → Follows prev m.queue_index
    → Reads txs (count + 1) (some m.queue_index) r
    → Reads (l1_msg m ∷ txs) count prev r
Reads-message m txs count prev r f ih = record {
  first = m.queue_index;
  messages = m ∷ ih.messages;
  rest = ih.rest;
  layout = ap (λ l. l1_msg m ∷ l) ih.layout;
  rest_is_l2 = ih.rest_is_l2;
  follows = f;
  sequential = (refl, rw ih.follows ih.sequential);
  counted = ground (arith, last_index-suc m.queue_index ih.first ih.messages ih.follows);
}

loop_step :
    (m : TxL1Msg) (txs : List MorphTxEnvelope) (count : ℕ) (prev : Option ℕ) (r : ℕ × Option ℕ)
    → l1_messages_loop (l1_msg m ∷ txs) count false prev ≡ ok r
    → (check_sequential prev m.queue_index ≡ ok tt)
      × (l1_messages_loop txs (count + 1) false (some m.queue_index) ≡ ok r)
unfolding l1_messages_loop
loop_step m txs count prev r h = ground arith

-- A successful run has read a layout of L1 messages before L2 transactions.
pub loop_sound :
    (txs : List MorphTxEnvelope) (count : ℕ) (prev : Option ℕ) (r : ℕ × Option ℕ)
    → l1_messages_loop txs count false prev ≡ ok r
    → Reads txs count prev r
unfolding l1_messages_loop
loop_sound [] count prev r h = Reads-All_l2 [] count prev r tt (ground arith)
loop_sound (l1_msg m ∷ txs) count prev r h =
    let (f, e) = loop_step m txs count prev r h in
    Reads-message m txs count prev r (check_sequential-Follows prev m.queue_index f)
      (loop_sound txs (count + 1) (some m.queue_index) r e)
loop_sound (tx ∷ txs) count prev r h =
    let (l2, e) = loop_saw_sound txs count prev r h in
    Reads-All_l2 (tx ∷ txs) count prev r (refl, l2) e

loop_message :
    (m : TxL1Msg) (txs : List MorphTxEnvelope) (count : ℕ) (prev : Option ℕ)
    → IsU64 m.queue_index
    → Follows prev m.queue_index
    → l1_messages_loop (l1_msg m ∷ txs) count false prev
      ≡ l1_messages_loop txs (count + 1) false (some m.queue_index)
unfolding l1_messages_loop
loop_message m txs count none h f = ground arith
loop_message m txs count (some p) h f = ground arith

-- On such a layout the loop succeeds, if the index after the last message fits a u64.
pub loop_complete :
    (ms : List TxL1Msg) (rest : List MorphTxEnvelope) (first count : ℕ) (prev : Option ℕ)
    → All IsL2 rest
    → Follows prev first
    → CountsFrom first ms
    → first + length ms ≤ u64_max + 1
    → l1_messages_loop (messages_then ms rest) count false prev
      ≡ ok (count + length ms, last_index prev first ms)
loop_complete [] rest first count prev l2 f c fits =
    ground (arith, loop-All_l2 rest count false prev l2)
loop_complete (m ∷ ms) rest first count prev l2 f (e, c) fits =
    loop_message m (messages_then ms rest) count prev (omega arith) (rw e f)
    ∙ ground (
      arith,
      loop_complete ms rest (first + 1) (count + 1) (some m.queue_index) l2 (omega arith) c
          (omega arith),
      last_index-suc m.queue_index (first + 1) ms,
    )
