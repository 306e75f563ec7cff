-- ===== src/Node/WithdrawRoots/Kept.antt =====
-- The map of expected roots and its order (crates/node/src/validator.rs), and the invariant on them.
use morph_reth.Common.{
  ℕ, ◌+◌, ◌≤◌, ◌≡◌, ◌≢◌, true, false, none, some, List, [], ◌∷◌, ◌++◌, ltb, ◌==◌, is_some, length,
  length-append, All, arith, refl, ap, sym, subst, ◌∙◌, Bool-cases, Option-cases, inl, inr, ⊤,
}
use morph_reth.Node.WithdrawRoots.{
  WithdrawTrieRootExpectation, Roots, MorphEngineValidator, max_expected_withdraw_trie_roots,
  find_root, insert_root, remove_root, evict_roots, record_withdraw_trie_root_expectation,
}

abbrev pub keys : Roots → List ℕ
keys [] = []
keys ((k, x) ∷ m) = k ∷ keys m

abbrev pub AllDistinct : List ℕ → Type 0
AllDistinct [] = ⊤
AllDistinct (x ∷ xs) = All (λ y. y ≢ x) xs × AllDistinct xs

-- The order lists the keys of the map, each once, and there are at most 4096.
pub record IsKept (v : MorphEngineValidator) : Type 0 where
  pub in_step : keys v.expected_withdraw_trie_roots ≡ v.expected_withdraw_trie_root_order
  pub distinct : AllDistinct (keys v.expected_withdraw_trie_roots)
  pub bounded : length v.expected_withdraw_trie_roots ≤ max_expected_withdraw_trie_roots

pub absent-All : (m : Roots) (h : ℕ) → find_root m h ≡ none → All (λ y. y ≢ h) (keys m)
unfolding find_root
absent-All [] h e = tt
absent-All ((k, x) ∷ m) h e = (ground arith, absent-All m h (ground arith))

insert_absent :
    (m : Roots) (h : ℕ) (x : WithdrawTrieRootExpectation)
    → find_root m h ≡ none
    → insert_root m h x ≡ m ++ ((h, x) ∷ [])
unfolding find_root insert_root
insert_absent [] h x e = refl
insert_absent ((k, y) ∷ m) h x e =
    let rest = insert_absent m h x (ground arith) in
    let other : (k == h) ≡ false = ground arith in rw (other, rest) refl

insert_present :
    (m : Roots) (h : ℕ) (x : WithdrawTrieRootExpectation)
    → is_some (find_root m h) ≡ true
    → keys (insert_root m h x) ≡ keys m
unfolding find_root insert_root
insert_present [] h x e = cc
insert_present ((k, y) ∷ m) h x e = elim (Bool-cases (k == h)) [
  | inl same ↦ rw same refl
  | inr other ↦
      let later : is_some (find_root m h) ≡ true = ground arith in
      rw other (ap (λ ks. k ∷ ks) (insert_present m h x later))
]

find_inserted :
    (m : Roots) (h : ℕ) (x : WithdrawTrieRootExpectation) → find_root (insert_root m h x) h ≡ some x
unfolding find_root insert_root
find_inserted [] h x = ground arith
find_inserted ((k, y) ∷ m) h x = elim (Bool-cases (k == h)) [
  | inl same ↦ rw (same, same) refl
  | inr other ↦ rw (other, other) (find_inserted m h x)
]

find_remove_other : (m : Roots) (k h : ℕ) → k ≢ h → find_root (remove_root m k) h ≡ find_root m h
unfolding find_root remove_root
find_remove_other [] k h n = refl
find_remove_other ((i, y) ∷ m) k h n = elim (Bool-cases (i == k)) [
  | inl same ↦ let apart : (i == h) ≡ false = ground arith in rw (same, apart) refl
  | inr other ↦ rw (other, find_remove_other m k h n) refl
]

keys-append : (m n : Roots) → keys (m ++ n) ≡ keys m ++ keys n
keys-append [] n = refl
keys-append ((k, x) ∷ m) n = ap (λ ks. k ∷ ks) (keys-append m n)

length-keys : (m : Roots) → length (keys m) ≡ length m
length-keys [] = refl
length-keys ((k, x) ∷ m) = omega (arith, length-keys m)

All-append :
    (h i : ℕ) (xs : List ℕ) → All (λ y. y ≢ i) xs → h ≢ i → All (λ y. y ≢ i) (xs ++ (h ∷ []))
All-append h i [] a n = (n, tt)
All-append h i (x ∷ xs) a n = (a.0, All-append h i xs a.1 n)

AllDistinct-append :
    (h : ℕ) (xs : List ℕ) → AllDistinct xs → All (λ y. y ≢ h) xs → AllDistinct (xs ++ (h ∷ []))
AllDistinct-append h [] d a = (tt, tt)
AllDistinct-append h (x ∷ xs) d a =
    (All-append h x xs d.0 (λ e. a.0 (sym e)), AllDistinct-append h xs d.1 a.1)

-- within the bound nothing is evicted
evict_none :
    (m : Roots) (order : List ℕ)
    → length m ≤ max_expected_withdraw_trie_roots
    → evict_roots m order
      ≡ record { expected_withdraw_trie_roots = m; expected_withdraw_trie_root_order = order }
unfolding evict_roots
evict_none m [] h = refl
evict_none m (k ∷ order) h =
    let within : ltb max_expected_withdraw_trie_roots (length m) ≡ false = ground arith in
    rw within refl

remove_first :
    (k : ℕ) (y : WithdrawTrieRootExpectation) (m : Roots) → remove_root ((k, y) ∷ m) k ≡ m
unfolding remove_root
remove_first k y m = let same : (k == k) ≡ true = ground arith in rw same refl

-- One entry over the bound, the oldest one goes.
evict_one :
    (k : ℕ) (y : WithdrawTrieRootExpectation) (m : Roots) (order : List ℕ)
    → length m ≡ max_expected_withdraw_trie_roots
    → evict_roots ((k, y) ∷ m) (k ∷ order)
      ≡ record { expected_withdraw_trie_roots = m; expected_withdraw_trie_root_order = order }
unfolding evict_roots
evict_one k y m order h =
    let over : ltb max_expected_withdraw_trie_roots (length ((k, y) ∷ m)) ≡ true = ground arith in
    rw (over, remove_first k y m) (evict_none m order (omega arith))

-- The eviction of a map in step with its order and at most one entry over the bound keeps the invariant.
evict_roots-IsKept :
    (m : Roots)
    → AllDistinct (keys m)
    → length m ≤ max_expected_withdraw_trie_roots + 1
    → IsKept (evict_roots m (keys m))
evict_roots-IsKept [] d h =
    rw (evict_none [] [] (omega arith))
      (record { in_step = refl; distinct = d; bounded = omega arith })
evict_roots-IsKept ((k, y) ∷ m) d h =
    elim (Bool-cases (ltb max_expected_withdraw_trie_roots (length ((k, y) ∷ m)))) [
      | inl over ↦
          rw (evict_one k y m (keys m) (ground arith))
            (record { in_step = refl; distinct = d.1; bounded = ground arith })
      | inr within ↦
          rw (evict_none ((k, y) ∷ m) (k ∷ keys m) (ground arith))
            (record { in_step = refl; distinct = d; bounded = ground arith })
    ]

find_last :
    (m : Roots) (h : ℕ) (x : WithdrawTrieRootExpectation)
    → find_root m h ≡ none
    → find_root (m ++ ((h, x) ∷ [])) h ≡ some x
find_last m h x e =
    subst (λ n. find_root n h ≡ some x) (insert_absent m h x e) (find_inserted m h x)

absent_later :
    (k : ℕ) (y : WithdrawTrieRootExpectation) (m : Roots) (h : ℕ)
    → find_root ((k, y) ∷ m) h ≡ none
    → find_root m h ≡ none
unfolding find_root
absent_later k y m h e = ground arith

-- an entry that is not the oldest one survives the eviction
find_evicted :
    (m : Roots) (h : ℕ) (x : WithdrawTrieRootExpectation)
    → length m ≤ max_expected_withdraw_trie_roots
    → find_root m h ≡ none
    → find_root
        (evict_roots (m ++ ((h, x) ∷ [])) (keys (m ++ ((h, x) ∷ [])))).expected_withdraw_trie_roots
        h
      ≡ some x
find_evicted [] h x b e = rw (evict_none ((h, x) ∷ []) (h ∷ []) (omega arith)) (find_last [] h x e)
find_evicted ((k, y) ∷ m) h x b e =
    let more = length-append m ((h, x) ∷ []) in
    elim (Bool-cases
      (ltb max_expected_withdraw_trie_roots (length ((k, y) ∷ (m ++ ((h, x) ∷ [])))))) [
        | inl over ↦
            rw
              (evict_one k y (m ++ ((h, x) ∷ [])) (keys (m ++ ((h, x) ∷ [])))
                (ground (arith, more)))
              (find_last m h x (absent_later k y m h e))
        | inr within ↦
            rw
              (evict_none ((k, y) ∷ (m ++ ((h, x) ∷ []))) (k ∷ keys (m ++ ((h, x) ∷ [])))
                (ground arith))
              (find_last ((k, y) ∷ m) h x e)
      ]

-- From a validator that is kept, recording an expectation gives one whose order is in step with the
-- map, every block once and at most 4096 of them, and the expectation of the block is then the one
-- recorded.
pub record_withdraw_trie_root_expectation-IsKept :
    (v : MorphEngineValidator) (block_hash : ℕ) (expectation : WithdrawTrieRootExpectation)
    → IsKept v
    → IsKept (record_withdraw_trie_root_expectation v block_hash expectation)
      × (find_root
            (record_withdraw_trie_root_expectation v block_hash
              expectation).expected_withdraw_trie_roots
            block_hash
          ≡ some expectation)
unfolding record_withdraw_trie_root_expectation
record_withdraw_trie_root_expectation-IsKept v h x k =
    let roots = v.expected_withdraw_trie_roots in
    elim (Option-cases (find_root roots h)) [
      | inr (y, e) ↦
          let same = insert_present roots h x (ap is_some e) in
          let sizes = length-keys (insert_root roots h x) in
          rw e (
            record {
              in_step = same ∙ k.in_step;
              distinct = subst AllDistinct (sym same) k.distinct;
              bounded = omega (arith, sizes, length-keys roots, ap length same, k.bounded);
            },
            find_inserted roots h x,
          )
      | inl e ↦
          let more = roots ++ ((h, x) ∷ []) in
          let in_step : keys more ≡ v.expected_withdraw_trie_root_order ++ (h ∷ []) =
            keys-append roots ((h, x) ∷ []) ∙ ap (λ order. order ++ (h ∷ [])) k.in_step in
          let distinct : AllDistinct (keys more) =
            subst AllDistinct (sym (keys-append roots ((h, x) ∷ [])))
              (AllDistinct-append h (keys roots) k.distinct (absent-All roots h e)) in
          let size = length-append roots ((h, x) ∷ []) in
          rw (e, insert_absent roots h x e)
            (subst
              (λ order.
                IsKept (evict_roots more order)
                × (find_root (evict_roots more order).expected_withdraw_trie_roots h ≡ some x))
              in_step
              (
                evict_roots-IsKept more distinct (omega (arith, size, k.bounded)),
                find_evicted roots h x k.bounded e,
              ))
    ]
