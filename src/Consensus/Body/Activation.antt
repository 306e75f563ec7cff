-- ===== src/Consensus/Body/Activation.antt =====
-- The activation of MorphTx versions.
use morph_reth.Common.{◌≡◌, ◌↔◌, Bool, true, List, [], ◌∷◌, All, ⊤, ok, arith, refl, split_ok}
use morph_reth.Primitives.MorphTx.{TxMorph}
use morph_reth.Primitives.MorphTx.Rules.{IsValidTx, validate_iff}
use morph_reth.Primitives.Envelope.{MorphTxEnvelope, morph}
use morph_reth.Consensus.Body.{validate_morph_tx_active, validate_morph_txs}

-- The forks that a MorphTx waits for: Emerald for any, Jade for version 1, Celadon for version 2.
pub record IsActive (is_emerald is_jade is_celadon : Bool) (tx : TxMorph) : Type 0 where
  pub emerald_active : is_emerald ≡ true
  pub jade_active : tx.version ≡ 1 → is_jade ≡ true
  pub celadon_active : tx.version ≡ 2 → is_celadon ≡ true
  pub is_valid : IsValidTx tx

-- Every MorphTx of a block is active and valid; other transactions are free.
abbrev pub IsMorphTxOk : Bool → Bool → Bool → MorphTxEnvelope → Type 0
IsMorphTxOk e j c (morph tx s) = IsActive e j c tx
IsMorphTxOk e j c tx = ⊤

validate_morph_tx_active_iff :
    (e j c : Bool) (tx : TxMorph) → (validate_morph_tx_active e j c tx ≡ ok tt) ↔ IsActive e j c tx
unfolding validate_morph_tx_active
validate_morph_tx_active_iff e j c tx =
    let (to, from) = validate_iff tx in
    (
      λ h. record {
        emerald_active = ground arith;
        jade_active = ground arith;
        celadon_active = ground arith;
        is_valid = to (ground arith);
      },
      λ a. ground (arith, from a.is_valid),
    )

-- `validate_morph_txs` accepts a block exactly when every MorphTx of it is of an active version and
-- valid by itself.
pub validate_morph_txs_iff :
    (txs : List MorphTxEnvelope) (e j c : Bool)
    → (validate_morph_txs txs e j c ≡ ok tt) ↔ All (IsMorphTxOk e j c) txs
unfolding validate_morph_txs
validate_morph_txs_iff [] e j c = (λ h. tt, λ h. refl)
validate_morph_txs_iff (morph tx s ∷ txs) e j c =
    let (to, from) = validate_morph_tx_active_iff e j c tx in
    let (to', from') = validate_morph_txs_iff txs e j c in
    (
      λ h.
          let (_, one, more) = split_ok (validate_morph_tx_active e j c tx) _ h in
          (to one, to' more),
      λ h. rw (from h.0) (from' h.1),
    )
validate_morph_txs_iff (tx ∷ txs) e j c =
    let (to, from) = validate_morph_txs_iff txs e j c in (λ h. (tt, to h), λ h. from h.1)
