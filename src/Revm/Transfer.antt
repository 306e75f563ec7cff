-- ===== src/Revm/Transfer.antt =====
-- crates/revm/src/handler.rs: `transfer_erc20_with_slot` and `with_journal_checkpoint`, on a journal that
-- is a parameter. A step answers the journal after it and the result.
pub mod Revert
pub mod Conserve
use morph_reth.Common.{ℕ, ◌+◌, ◌-◌, List, ltb, ◌==◌, if◌then◌else◌, Result, ok, err}
use morph_reth.Common.Words.{u256_max}
use morph_reth.Revm.TokenFee.{compute_mapping_slot_for_address}
use morph_reth.Revm.Journal.{Journal}

-- `EVMError`: an error of the database, or of the transaction.
pub data TransferError (E : Type 0) : Type 0 where
  database : E → TransferError E
  -- required, available
  insufficient_token_balance : ℕ → ℕ → TransferError E
  recipient_balance_overflow : TransferError E

module _ {E : Type 0} (j : Journal E) where
  abbrev pub Step : Type 0 → Type 0
  Step A = j.State × Result (TransferError E) A

  -- the operator `?` on a step of the journal
  unfoldable pub then_ : {A B : Type 0} → j.State × Result E A → (j.State → A → Step B) → Step B
  then_ (s, ok a) next = next s a
  then_ (s, err e) next = (s, err (database e))

  unfoldable pub commit_or_revert : {A : Type 0} → j.Checkpoint → Step A → Step A
  commit_or_revert c (s, ok a) = (j.checkpoint_commit s, ok a)
  commit_or_revert c (s, err e) = (j.checkpoint_revert s c, err e)

  unfoldable pub with_journal_checkpoint : {A : Type 0} → j.State → (j.State → Step A) → Step A
  with_journal_checkpoint s f = let saved = j.checkpoint s in commit_or_revert saved.0 (f saved.1)

  -- the credit of the recipient, after both balances are known to allow it
  unfoldable pub write_balances : ℕ → ℕ → ℕ → ℕ → ℕ → j.State → Step (ℕ × ℕ)
  write_balances token from_slot to_slot new_from new_to s =
      then_ (j.sstore s token from_slot new_from)
        (λ s. λ _. then_ (j.sstore s token to_slot new_to) (λ s. λ _. (s, ok (from_slot, to_slot))))

  -- the part of the transfer with the sender's balance read
  unfoldable pub move_balance : ℕ → ℕ → ℕ → ℕ → j.State → ℕ → Step (ℕ × ℕ)
  move_balance token token_amount from_slot to_slot s from_balance =
      let new_from = from_balance - token_amount in
      let credit = then_ (j.sload s token to_slot) (λ s. λ to_balance.
        if ltb u256_max (to_balance + token_amount)
        then (s, err recipient_balance_overflow)
        else write_balances token from_slot to_slot new_from (to_balance + token_amount) s) in
      if ltb from_balance token_amount
      then (s, err (insufficient_token_balance token_amount from_balance))
      else if from_slot == to_slot
      then (s, ok (from_slot, to_slot))
      else credit

module _ (keccak256 : List ℕ → ℕ) {E : Type 0} (j : Journal E) where
  unfoldable pub transfer_erc20_with_slot : j.State → ℕ → ℕ → ℕ → ℕ → ℕ → Step j (ℕ × ℕ)
  transfer_erc20_with_slot s from to token token_amount token_balance_slot =
      let from_slot = compute_mapping_slot_for_address keccak256 token_balance_slot from in
      let to_slot = compute_mapping_slot_for_address keccak256 token_balance_slot to in
      then_ j (j.load_account_mut s token) (λ s. λ _.
        with_journal_checkpoint j (j.touch s token) (λ s.
          then_ j (j.sload s token from_slot)
            (move_balance j token token_amount from_slot to_slot)))
