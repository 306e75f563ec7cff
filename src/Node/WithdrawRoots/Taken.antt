-- ===== src/Node/WithdrawRoots/Taken.antt =====
-- Taking an expected root, and the validation of a block by it (crates/node/src/validator.rs).
use morph_reth.Common.{
  ℕ, ◌≤◌, ◌≡◌, ◌≢◌, ◌↔◌, false, Option, none, some, List, [], ◌∷◌, ◌==◌, if◌then◌else◌, is_some,
  length, All, arith, refl, ap, sym, subst, ◌∙◌, Bool-cases, Option-cases, inl, inr, ok, ⊤,
}
use morph_reth.Node.WithdrawRoots.{
  skip_validation, verify, Roots, MorphEngineValidator, find_root, remove_root, retain_other,
  record_withdraw_trie_root_expectation, take_withdraw_trie_root_expectation, check_root,
  validate_withdraw_trie_root_update, expectation_of,
}
use morph_reth.Node.WithdrawRoots.Kept.{
  keys, AllDistinct, IsKept, absent-All, record_withdraw_trie_root_expectation-IsKept,
}

retain_absent : (h : ℕ) (xs : List ℕ) → All (λ y. y ≢ h) xs → retain_other h xs ≡ xs
unfolding retain_other
retain_absent h [] a = refl
retain_absent h (x ∷ xs) a =
    let other : (x == h) ≡ false = ground (arith, a.0) in
    rw other (ap (λ ys. x ∷ ys) (retain_absent h xs a.1))

retain-All : (h i : ℕ) (xs : List ℕ) → All (λ y. y ≢ i) xs → All (λ y. y ≢ i) (retain_other h xs)
unfolding retain_other
retain-All h i [] a = tt
retain-All h i (x ∷ xs) a = elim (Bool-cases (x == h)) [
  | inl e ↦ rw e (retain-All h i xs a.1)
  | inr e ↦ rw e (a.0, retain-All h i xs a.1)
]

retain-AllDistinct : (h : ℕ) (xs : List ℕ) → AllDistinct xs → AllDistinct (retain_other h xs)
unfolding retain_other
retain-AllDistinct h [] d = tt
retain-AllDistinct h (x ∷ xs) d = elim (Bool-cases (x == h)) [
  | inl e ↦ rw e (retain-AllDistinct h xs d.1)
  | inr e ↦ rw e (retain-All h x xs d.0, retain-AllDistinct h xs d.1)
]

keys-remove :
    (h : ℕ) (m : Roots) → AllDistinct (keys m) → keys (remove_root m h) ≡ retain_other h (keys m)
unfolding remove_root retain_other
keys-remove h [] d = refl
keys-remove h ((k, x) ∷ m) d = elim (Bool-cases (k == h)) [
  | inl e ↦
      let same : k ≡ h = ground arith in
      rw e (sym (retain_absent h (keys m) (subst (λ i. All (λ y. y ≢ i) (keys m)) same d.0)))
  | inr e ↦ rw e (ap (λ ks. k ∷ ks) (keys-remove h m d.1))
]

length-remove : (h : ℕ) (m : Roots) → length (remove_root m h) ≤ length m
unfolding remove_root
length-remove h [] = omega arith
length-remove h ((k, x) ∷ m) = elim (Bool-cases (k == h)) [
  | inl e ↦ rw e (omega arith)
  | inr e ↦ rw e (omega (arith, length-remove h m))
]

find_absent : (h : ℕ) (m : Roots) → All (λ y. y ≢ h) (keys m) → find_root m h ≡ none
unfolding find_root
find_absent h [] a = refl
find_absent h ((k, x) ∷ m) a =
    let other : (k == h) ≡ false = ground (arith, a.0) in rw other (find_absent h m a.1)

find_removed : (h : ℕ) (m : Roots) → AllDistinct (keys m) → find_root (remove_root m h) h ≡ none
unfolding remove_root find_root
find_removed h [] d = refl
find_removed h ((k, x) ∷ m) d = elim (Bool-cases (k == h)) [
  | inl e ↦
      let same : k ≡ h = ground arith in
      rw e (find_absent h m (subst (λ i. All (λ y. y ≢ i) (keys m)) same d.0))
  | inr e ↦ rw (e, e) (find_removed h m d.1)
]

-- whether or not there was an entry, the order that is left lists the keys that are left
order_step :
    (m : Roots) (h : ℕ) (order : List ℕ)
    → keys m ≡ order
    → AllDistinct (keys m)
    → keys (remove_root m h) ≡ (if is_some (find_root m h) then retain_other h order else order)
order_step m h order e d = elim (Option-cases (find_root m h)) [
  | inr (y, f) ↦ rw f (keys-remove h m d ∙ ap (retain_other h) e)
  | inl f ↦ rw f (keys-remove h m d ∙ retain_absent h (keys m) (absent-All m h f) ∙ e)
]

-- A given root other than zero is the one that was written, if one was.
abbrev pub Agrees : Option ℕ → Option ℕ → Type 0
Agrees root updated = (r actual : ℕ) → root ≡ some r → r ≢ 0 → updated ≡ some actual → actual ≡ r

verify_iff :
    (x : ℕ) (updated : Option ℕ)
    → x ≢ 0
    → (check_root (some (verify x)) updated ≡ ok tt) ↔ Agrees (some x) updated
unfolding check_root
verify_iff x none n = (λ e r a p m q. cc, λ h. refl)
verify_iff x (some a) n =
    (λ e r b p m q. ground arith, λ h. let same : a ≡ x = h x a refl n refl in ground arith)

skip_iff : (updated : Option ℕ) → (check_root (some skip_validation) updated ≡ ok tt) ↔ ⊤
unfolding check_root
skip_iff none = (λ e. tt, λ u. refl)
skip_iff (some a) = (λ e. tt, λ u. refl)

-- the decision by the root that was given and the root that was written
check_root_iff :
    (root updated : Option ℕ)
    → (check_root (some (expectation_of root)) updated ≡ ok tt) ↔ Agrees root updated
unfolding expectation_of
check_root_iff none updated = (λ e r a p n q. cc, λ h. (skip_iff updated).1 tt)
check_root_iff (some x) updated = elim (Bool-cases (x == 0)) [
  | inl zero ↦ rw zero (λ e r a p n q. ground arith, λ h. (skip_iff updated).1 tt)
  | inr other ↦ rw other (verify_iff x updated (ground arith))
]

-- From a validator that is kept, taking the expectation of a block gives one whose order is in step
-- with the map, every block once and at most 4096 of them, and the block has none afterwards.
pub take_withdraw_trie_root_expectation-IsKept :
    (v : MorphEngineValidator) (block_hash : ℕ)
    → IsKept v
    → IsKept (take_withdraw_trie_root_expectation v block_hash).0
      × (find_root
            (take_withdraw_trie_root_expectation v block_hash).0.expected_withdraw_trie_roots
            block_hash
          ≡ none)
unfolding take_withdraw_trie_root_expectation
take_withdraw_trie_root_expectation-IsKept v h k =
    let roots = v.expected_withdraw_trie_roots in
    let removed = keys-remove h roots k.distinct in
    (
      record {
        in_step = order_step roots h v.expected_withdraw_trie_root_order k.in_step k.distinct;
        distinct = subst AllDistinct (sym removed) (retain-AllDistinct h (keys roots) k.distinct);
        bounded = omega (arith, length-remove h roots, k.bounded);
      },
      find_removed h roots k.distinct,
    )

-- In a validator that is kept (`IsKept`), after a payload with an optional root was converted, the
-- validation of its block accepts exactly when a given non-zero root is the one that the block wrote,
-- if it wrote one, whatever was kept before; and the block has no expectation afterwards.
pub validate_withdraw_trie_root_update_iff :
    (v : MorphEngineValidator) (block_hash : ℕ) (root updated : Option ℕ)
    → IsKept v
    → let converted = record_withdraw_trie_root_expectation v block_hash (expectation_of root) in
      let validated = validate_withdraw_trie_root_update converted block_hash updated in
      ((validated.1 ≡ ok tt) ↔ Agrees root updated)
      × (find_root validated.0.expected_withdraw_trie_roots block_hash ≡ none)
unfolding validate_withdraw_trie_root_update take_withdraw_trie_root_expectation
validate_withdraw_trie_root_update_iff v h root updated k =
    let kept = record_withdraw_trie_root_expectation-IsKept v h (expectation_of root) k in
    let taken = take_withdraw_trie_root_expectation-IsKept _ h kept.0 in
    let given = kept.1 in
    (
      subst (λ o. (check_root o updated ≡ ok tt) ↔ Agrees root updated) (sym given)
          (check_root_iff root updated),
      taken.1,
    )
