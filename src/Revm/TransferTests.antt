-- ===== src/Revm/TransferTests.antt =====
-- The theorems on token transfers at concrete balances.
use morph_reth.Common.{ℕ, ◌+◌, ◌≡◌, ◌==◌, if◌then◌else◌, refl, List, [], ◌∷◌, ok, err}
use morph_reth.Revm.TokenFee.{compute_mapping_slot_for_address, compute_mapping_slot}
use morph_reth.Revm.Journal.{Same}
use morph_reth.Revm.MemoryJournal.{Values, write, memory, memory_laws}
use morph_reth.Revm.Transfer.{
  insufficient_token_balance, transfer_erc20_with_slot, with_journal_checkpoint, then_,
  commit_or_revert, move_balance, write_balances,
}
use morph_reth.Revm.Transfer.Conserve.{Moved, transfer_erc20_with_slot-Moved}
use morph_reth.Revm.Transfer.Revert.{transfer_erc20_with_slot-reverts}

-- The balances of token 77 are in slot 2: account 1 has 100 and account 8 has 5, by the toy hash of the sum.
abbrev sum : List ℕ → ℕ
sum [] = 0
sum (b ∷ bytes) = b + sum bytes

abbrev balances : Values
balances account slot = if slot == 3 then 100 else if slot == 10 then 5 else 0

abbrev after_transfer : Values
after_transfer = write (write balances 77 3 60) 77 10 45

transferred :
    transfer_erc20_with_slot sum memory balances 1 8 77 40 2 ≡ (after_transfer, ok (3, 10))
unfolding transfer_erc20_with_slot compute_mapping_slot_for_address compute_mapping_slot
    with_journal_checkpoint then_ commit_or_revert move_balance write_balances
transferred = refl

transfer_erc20_with_slot-Moved_example :
    (◌≡◌ {A = ℕ × ℕ} (3, 10) (3, 10)) × Moved memory 77 40 3 10 balances after_transfer
unfolding compute_mapping_slot_for_address compute_mapping_slot
transfer_erc20_with_slot-Moved_example =
    transfer_erc20_with_slot-Moved sum memory memory_laws balances after_transfer 1 8 77 40 2
      (3, 10) transferred

refused :
    transfer_erc20_with_slot sum memory balances 1 8 77 101 2
    ≡ (balances, err (insufficient_token_balance 101 100))
unfolding transfer_erc20_with_slot compute_mapping_slot_for_address compute_mapping_slot
    with_journal_checkpoint then_ commit_or_revert move_balance write_balances
refused = refl

transfer_erc20_with_slot-reverts_example : Same memory balances balances
transfer_erc20_with_slot-reverts_example =
    transfer_erc20_with_slot-reverts sum memory memory_laws balances balances 1 8 77 101 2
      (insufficient_token_balance 101 100) refused
