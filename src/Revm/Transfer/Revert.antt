-- ===== src/Revm/Transfer/Revert.antt =====
-- `transfer_erc20_with_slot` of crates/revm/src/handler.rs where it fails.
use morph_reth.Common.{
  ℕ, ◌+◌, ◌≡◌, Bool, true, false, List, ltb, ◌==◌, if◌then◌else◌, Result, ok, err, ap, sym, subst,
  ◌∙◌,
}
use morph_reth.Common.Words.{u256_max}
use morph_reth.Revm.Journal.{Journal, JournalLaws, Same}
use morph_reth.Revm.Transfer.{
  TransferError, Step, then_, commit_or_revert, with_journal_checkpoint, write_balances,
  move_balance, transfer_erc20_with_slot,
}

module _ {E : Type 0} (j : Journal E) (laws : JournalLaws j) where
  -- what follows a step keeps the checkpoint open, if the step does
  then-Open :
      {A B : Type 0} (c : j.Checkpoint) (m : j.State × Result E A) (next : j.State → A → Step j B)
      → laws.Open m.0 c
      → ((s : j.State) (a : A) → laws.Open s c → laws.Open (next s a).0 c)
      → laws.Open (then_ j m next).0 c
  unfolding then_
  then-Open c (s, ok a) next h k = k s a h
  then-Open c (s, err e) next h k = h

  write_balances-Open :
      (c : j.Checkpoint) (token from_slot to_slot new_from new_to : ℕ) (s : j.State)
      → laws.Open s c
      → laws.Open (write_balances j token from_slot to_slot new_from new_to s).0 c
  unfolding write_balances
  write_balances-Open c token from_slot to_slot new_from new_to s h =
      then-Open c _ _ (laws.sstore_Open s c token from_slot new_from h) (λ t.
        λ u. λ o. then-Open c _ _ (laws.sstore_Open t c token to_slot new_to o) (λ t. λ u. λ o. o))

  either-Open :
      {B : Type 0} (c : j.Checkpoint) (b : Bool) (x y : Step j B)
      → laws.Open x.0 c
      → laws.Open y.0 c
      → laws.Open (if b then x else y).0 c
  either-Open c true x y h k = h
  either-Open c false x y h k = k

  move_balance-Open :
      (c : j.Checkpoint) (token token_amount from_slot to_slot : ℕ) (s : j.State) (from_balance : ℕ)
      → laws.Open s c
      → laws.Open (move_balance j token token_amount from_slot to_slot s from_balance).0 c
  unfolding move_balance
  move_balance-Open c token token_amount from_slot to_slot s from_balance h =
      either-Open c (ltb from_balance token_amount) _ _ h (
        either-Open c (from_slot == to_slot) _ _ h (
          then-Open c _ _ (laws.sload_Open s c token to_slot h) (λ t. λ b. λ o.
            either-Open c (ltb u256_max (b + token_amount)) _ _ o
              (write_balances-Open c token from_slot to_slot _ _ t o))))

  reverted_to :
      {A : Type 0} (c : j.Checkpoint) (r : Step j A) (t : j.State) (e : TransferError E)
      → commit_or_revert j c r ≡ (t, err e)
      → j.checkpoint_revert r.0 c ≡ t
  unfolding commit_or_revert
  reverted_to c (s, ok a) t e h = cc
  reverted_to {A = A} c (s, err x) t e h = ap (λ (r : Step j A). r.0) h

  -- a failure under a checkpoint gives the values of the checkpoint back
  checkpoint_reverts :
      {A : Type 0} (s t : j.State) (f : j.State → Step j A) (e : TransferError E)
      → ((s : j.State) (c : j.Checkpoint) → laws.Open s c → laws.Open (f s).0 c)
      → with_journal_checkpoint j s f ≡ (t, err e)
      → Same j s t
  unfolding with_journal_checkpoint
  checkpoint_reverts s t f e stays h account slot =
      let saved = j.checkpoint s in
      let back = reverted_to saved.0 (f saved.1) t e h in
      ap (λ u. j.value u account slot) (sym back)
      ∙ laws.revert_value _ saved.0 account slot (stays saved.1 saved.0 (laws.checkpoint_Open s))
      ∙ laws.checkpoint_saved s account slot

  then_fails :
      {A B : Type 0} (s t : j.State) (m : j.State × Result E A) (next : j.State → A → Step j B)
      (e : TransferError E)
      → Same j s m.0
      → ((s1 : j.State) (a : A) → Same j s s1 → next s1 a ≡ (t, err e) → Same j s t)
      → then_ j m next ≡ (t, err e)
      → Same j s t
  unfolding then_
  then_fails s t (s1, ok a) next e same k h = k s1 a same h
  then_fails {B = B} s t (s1, err x) next e same k h =
      subst (λ s2. Same j s s2) (ap (λ (r : Step j B). r.0) h) same

module _ (keccak256 : List ℕ → ℕ) {E : Type 0} (j : Journal E) (laws : JournalLaws j) where
  -- On a journal that keeps its laws, a transfer that fails, for whatever reason, leaves the value of
  -- every slot of every account as it was.
  pub transfer_erc20_with_slot-reverts :
      (s t : j.State) (from to token token_amount token_balance_slot : ℕ) (e : TransferError E)
      → transfer_erc20_with_slot keccak256 j s from to token token_amount token_balance_slot
        ≡ (t, err e)
      → Same j s t
  unfolding transfer_erc20_with_slot
  transfer_erc20_with_slot-reverts s t from to token token_amount token_balance_slot e h =
      then_fails j laws s t (j.load_account_mut s token) _ e (laws.load_Same s token)
        (λ s1. λ u. λ same. λ k. λ account. λ slot.
          checkpoint_reverts j laws (j.touch s1 token) t _ e
            (λ s2. λ c. λ o.
              then-Open j laws c _ _ (laws.sload_Open s2 c token _ o)
                (λ s3. λ b. λ p. move_balance-Open j laws c token token_amount _ _ s3 b p))
            k account slot
          ∙ laws.touch_Same s1 token account slot
          ∙ same account slot)
        h
