-- ===== src/Node/WithdrawRoots.antt =====
-- crates/node/src/validator.rs, the expected roots of the withdraw trie that the engine keeps between the
-- conversion of a payload and its validation. The concurrent map is an association list, its `insert`
-- replaces an entry in place; each call is one step on the state.
pub mod Kept
pub mod Taken
mod Tests
use morph_reth.Common.{
  ℕ, Bool, true, false, not, Option, none, some, List, [], ◌∷◌, ◌++◌, ltb, ◌==◌, if◌then◌else◌,
  is_some, is_err, length, Result, ok, err, fail_if, ⊤,
}
use morph_reth.Consensus.Error.{ConsensusError}

pub data WithdrawTrieRootExpectation : Type 0 where
  skip_validation : WithdrawTrieRootExpectation
  verify : ℕ → WithdrawTrieRootExpectation

abbrev pub Roots : Type 0
Roots = List (ℕ × WithdrawTrieRootExpectation)

pub record MorphEngineValidator : Type 0 where
  pub expected_withdraw_trie_roots : Roots
  pub expected_withdraw_trie_root_order : List ℕ

abbrev pub max_expected_withdraw_trie_roots : ℕ
max_expected_withdraw_trie_roots = 4096

unfoldable pub find_root : Roots → ℕ → Option WithdrawTrieRootExpectation
find_root [] hash = none
find_root ((k, x) ∷ m) hash = let later = find_root m hash in if k == hash then some x else later

unfoldable pub insert_root : Roots → ℕ → WithdrawTrieRootExpectation → Roots
insert_root [] hash expectation = (hash, expectation) ∷ []
insert_root ((k, x) ∷ m) hash expectation =
    let later = insert_root m hash expectation in
    if k == hash then (k, expectation) ∷ m else (k, x) ∷ later

unfoldable pub remove_root : Roots → ℕ → Roots
remove_root [] hash = []
remove_root ((k, x) ∷ m) hash =
    let later = remove_root m hash in if k == hash then m else (k, x) ∷ later

-- `order.retain(|hash| *hash != block_hash)`
unfoldable pub retain_other : ℕ → List ℕ → List ℕ
retain_other hash [] = []
retain_other hash (h ∷ order) =
    let rest = retain_other hash order in if h == hash then rest else h ∷ rest

-- the loop that evicts the oldest entries
unfoldable pub evict_roots : Roots → List ℕ → MorphEngineValidator
unfolding remove_root
evict_roots m [] = record {
  expected_withdraw_trie_roots = m;
  expected_withdraw_trie_root_order = [];
}
evict_roots m (evicted_hash ∷ order) =
    let rest = evict_roots (remove_root m evicted_hash) order in
    if ltb max_expected_withdraw_trie_roots (length m) then rest else record {
      expected_withdraw_trie_roots = m;
      expected_withdraw_trie_root_order = evicted_hash ∷ order;
    }

unfoldable pub record_withdraw_trie_root_expectation :
    MorphEngineValidator → ℕ → WithdrawTrieRootExpectation → MorphEngineValidator
record_withdraw_trie_root_expectation v block_hash expectation =
    let roots = insert_root v.expected_withdraw_trie_roots block_hash expectation in
    let evicted = evict_roots roots (v.expected_withdraw_trie_root_order ++ (block_hash ∷ [])) in
    if is_some (find_root v.expected_withdraw_trie_roots block_hash)
    then record v { expected_withdraw_trie_roots = roots }
    else evicted

unfoldable pub take_withdraw_trie_root_expectation :
    MorphEngineValidator → ℕ → MorphEngineValidator × Option WithdrawTrieRootExpectation
take_withdraw_trie_root_expectation v block_hash =
    let removed = find_root v.expected_withdraw_trie_roots block_hash in
    let order = v.expected_withdraw_trie_root_order in
    (
      record {
        expected_withdraw_trie_roots = remove_root v.expected_withdraw_trie_roots block_hash;
        expected_withdraw_trie_root_order =
            if is_some removed then retain_other block_hash order else order;
      },
      removed,
    )

unfoldable pub clear_withdraw_trie_root_expectation_on_error :
    {T E : Type 0} → MorphEngineValidator → ℕ → Result E T → MorphEngineValidator × Result E T
clear_withdraw_trie_root_expectation_on_error v block_hash result =
    let cleared = (take_withdraw_trie_root_expectation v block_hash).0 in
    ((if is_err result then cleared else v), result)

pub data RootError : Type 0 where
  -- expected, got
  withdraw_trie_root_mismatch : ℕ → ℕ → RootError

-- `updated` is what the block wrote to the slot of the root, if it wrote to it.
unfoldable pub check_root : Option WithdrawTrieRootExpectation → Option ℕ → Result RootError ⊤
check_root (some (verify expected)) (some actual) =
    fail_if (not (actual == expected)) (withdraw_trie_root_mismatch expected actual)
check_root expectation updated = ok tt

unfoldable pub validate_withdraw_trie_root_update :
    MorphEngineValidator → ℕ → Option ℕ → MorphEngineValidator × Result RootError ⊤
validate_withdraw_trie_root_update v block_hash updated =
    let taken = take_withdraw_trie_root_expectation v block_hash in
    (taken.0, check_root taken.1 updated)

-- what `convert_payload_to_block` expects of a payload's optional root
unfoldable pub expectation_of : Option ℕ → WithdrawTrieRootExpectation
expectation_of none = skip_validation
expectation_of (some root) = if root == 0 then skip_validation else verify root
