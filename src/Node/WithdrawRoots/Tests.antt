-- ===== src/Node/WithdrawRoots/Tests.antt =====
-- The theorems on the expected withdraw roots at a concrete state.
use morph_reth.Common.{◌≡◌, ◌↔◌, refl, none, some, [], ◌∷◌, ok, arith}
use morph_reth.Node.WithdrawRoots.{
  MorphEngineValidator, skip_validation, verify, find_root, record_withdraw_trie_root_expectation,
  validate_withdraw_trie_root_update, expectation_of,
}
use morph_reth.Node.WithdrawRoots.Kept.{IsKept, record_withdraw_trie_root_expectation-IsKept}
use morph_reth.Node.WithdrawRoots.Taken.{Agrees, validate_withdraw_trie_root_update_iff}

-- Blocks 7 and 9 are pending.
abbrev pending : MorphEngineValidator
pending = record {
  expected_withdraw_trie_roots = (7, verify 70) ∷ (9, skip_validation) ∷ [];
  expected_withdraw_trie_root_order = 7 ∷ 9 ∷ [];
}

pending-IsKept : IsKept pending
pending-IsKept = record {
  in_step = refl;
  distinct = ((λ e. omega (arith, e), tt), (tt, tt));
  bounded = omega arith;
}

record_withdraw_trie_root_expectation-IsKept_example :
    IsKept (record_withdraw_trie_root_expectation pending 11 (verify 5))
    × (find_root
          (record_withdraw_trie_root_expectation pending 11 (verify 5)).expected_withdraw_trie_roots
          11
        ≡ some (verify 5))
record_withdraw_trie_root_expectation-IsKept_example =
    record_withdraw_trie_root_expectation-IsKept pending 11 (verify 5) pending-IsKept

validate_withdraw_trie_root_update_iff_example :
    let converted = record_withdraw_trie_root_expectation pending 7 (expectation_of (some 71)) in
    let validated = validate_withdraw_trie_root_update converted 7 (some 70) in
    ((validated.1 ≡ ok tt) ↔ Agrees (some 71) (some 70))
    × (find_root validated.0.expected_withdraw_trie_roots 7 ≡ none)
validate_withdraw_trie_root_update_iff_example =
    validate_withdraw_trie_root_update_iff pending 7 (some 71) (some 70) pending-IsKept
