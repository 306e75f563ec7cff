-- ===== src/Consensus/Chain.antt =====
-- Chains of blocks that the consensus checks accept one after the other.
use morph_reth.Common.{
  ℕ, ◌+◌, ◌≤◌, ◌<◌, ◌≡◌, ◌≢◌, Bool, some, List, [], ◌∷◌, All, length, Result, ok, ⊤, arith,
}
use morph_reth.Common.Words.{IsU64}
use morph_reth.Chainspec.Hardfork.{ForkSchedule}
use morph_reth.Primitives.Envelope.{
  TxL1Msg, MorphTxEnvelope, legacy, l1_msg, is_l1_msg, queue_index,
}
use morph_reth.Primitives.Block.{MorphHeader, SealedHeader, SealedBlock}
use morph_reth.Consensus.Error.{ConsensusError}
use morph_reth.Consensus.Parent.{validate_header_against_parent, validate_header_against_parent_iff}
use morph_reth.Consensus.L1Messages.Loop.{messages_then, IsL2, CountsFrom}
use morph_reth.Consensus.L1Messages.Order.{IsOrdered}
use morph_reth.Consensus.Body.{validate_block_pre_execution}
use morph_reth.Consensus.Body.PreExecution.{validate_block_pre_execution_iff}

-- A transaction whose queue index, if it has one, is below `n`.
abbrev pub QueueBelow : ℕ → MorphTxEnvelope → Type 0
QueueBelow n tx = (q : ℕ) → queue_index tx ≡ some q → q < n

All-QueueBelow_l2 : (n : ℕ) (txs : List MorphTxEnvelope) → All IsL2 txs → All (QueueBelow n) txs
unfolding is_l1_msg queue_index
All-QueueBelow_l2 n [] h = tt
All-QueueBelow_l2 n (legacy t ∷ txs) h = (λ q e. cc, All-QueueBelow_l2 n txs h.1)
All-QueueBelow_l2 n (l1_msg m ∷ txs) h = absurd (cc (h.0))
All-QueueBelow_l2 n (tx ∷ txs) h = (λ q e. cc, All-QueueBelow_l2 n txs h.1)

All-QueueBelow_messages :
    (n first : ℕ) (ms : List TxL1Msg) (rest : List MorphTxEnvelope)
    → All IsL2 rest
    → CountsFrom first ms
    → (ms ≢ [] → first + length ms ≤ n)
    → All (QueueBelow n) (messages_then ms rest)
unfolding queue_index
All-QueueBelow_messages n first [] rest l2 c b = All-QueueBelow_l2 n rest l2
All-QueueBelow_messages n first (m ∷ ms) rest l2 (e, c) b =
    let bound : first + length (m ∷ ms) ≤ n = b (λ z. cc) in
    (λ q e'. ground arith, All-QueueBelow_messages n (first + 1) ms rest l2 c (λ z. omega arith))

IsOrdered-QueueBelow :
    (txs : List MorphTxEnvelope) (next : ℕ) (j : Bool)
    → IsOrdered txs next j
    → All (QueueBelow next) txs
IsOrdered-QueueBelow txs next j o = rw o.layout (
    All-QueueBelow_messages next o.first o.messages o.rest o.rest_is_l2 o.sequential
      o.index_follows)

QueueBelow-mono :
    (n n' : ℕ) (txs : List MorphTxEnvelope)
    → n ≤ n'
    → All (QueueBelow n) txs
    → All (QueueBelow n') txs
QueueBelow-mono n n' [] h a = tt
QueueBelow-mono n n' (tx ∷ txs) h a =
    (λ q e. omega (arith, a.0 q e), QueueBelow-mono n n' txs h a.1)

module _ (s : ForkSchedule) (encode_2718_len : MorphTxEnvelope → ℕ) (empty_ommer_root_hash : ℕ)
    (ensure_transaction_root_valid : SealedBlock → Result (ℕ × ℕ) ⊤)
    (validate_against_parent_hash_number : MorphHeader
      → SealedHeader
      → Result ConsensusError ⊤) where
  -- A block that both the check against its parent and the check of its body accept.
  abbrev pub Accepts : SealedHeader → SealedBlock → Type 0
  Accepts parent block =
      (validate_header_against_parent s validate_against_parent_hash_number block.sealed_header
          parent
        ≡ ok tt)
      × (validate_block_pre_execution s encode_2718_len empty_ommer_root_hash
            ensure_transaction_root_valid block
          ≡ ok tt)
      × IsU64 block.sealed_header.header.next_l1_msg_index

  -- Each block is accepted with the one before it as its parent.
  abbrev pub IsChain : SealedHeader → List SealedBlock → Type 0
  IsChain parent [] = ⊤
  IsChain parent (b ∷ bs) = Accepts parent b × IsChain b.sealed_header bs

  -- The header of the last block.
  abbrev pub tip : SealedHeader → List SealedBlock → SealedHeader
  tip parent [] = parent
  tip parent (b ∷ bs) = tip b.sealed_header bs

  tip_mono :
      (parent : SealedHeader) (bs : List SealedBlock)
      → IsChain parent bs
      → (parent.header.next_l1_msg_index ≤ (tip parent bs).header.next_l1_msg_index)
        × (parent.header.timestamp ≤ (tip parent bs).header.timestamp)
  tip_mono parent [] c = omega arith
  tip_mono parent (b ∷ bs) (a, c) =
      let child =
        ((validate_header_against_parent_iff s validate_against_parent_hash_number b.sealed_header
            parent).0
          a.0).1 in
      let (i, t) = tip_mono b.sealed_header bs c in
      (omega (arith, child.next_l1_msg_index_grows), omega (arith, child.not_in_past))

  tip_ahead :
      (parent : SealedHeader) (bs : List SealedBlock)
      → IsChain parent bs
      → All
          (λ (b : SealedBlock).
            All (QueueBelow (tip parent bs).header.next_l1_msg_index) b.body.transactions)
          bs
  tip_ahead parent [] c = tt
  tip_ahead parent (b ∷ bs) (a, c) =
      let valid =
        (validate_block_pre_execution_iff s encode_2718_len empty_ommer_root_hash
            ensure_transaction_root_valid b a.2).0
          a.1 in
      (
        QueueBelow-mono _ _ b.body.transactions (tip_mono b.sealed_header bs c).0
            (IsOrdered-QueueBelow b.body.transactions _ _ valid.l1_messages_ordered),
        tip_ahead b.sealed_header bs c,
      )

  -- Along a chain of accepted blocks, neither the header's L1 message index nor the timestamp goes back,
  -- and the index of the last header is above the queue index of every L1 message of every block.
  pub chain_index_ahead :
      (parent : SealedHeader) (bs : List SealedBlock)
      → IsChain parent bs
      → (parent.header.next_l1_msg_index ≤ (tip parent bs).header.next_l1_msg_index)
        × (parent.header.timestamp ≤ (tip parent bs).header.timestamp)
        × All
            (λ (b : SealedBlock).
              All (QueueBelow (tip parent bs).header.next_l1_msg_index) b.body.transactions)
            bs
  chain_index_ahead parent bs c = let (i, t) = tip_mono parent bs c in (i, t, tip_ahead parent bs c)
