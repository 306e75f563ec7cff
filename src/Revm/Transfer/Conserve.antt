-- ===== src/Revm/Transfer/Conserve.antt =====
-- `transfer_erc20_with_slot` of crates/revm/src/handler.rs where it succeeds.
use morph_reth.Common.{
  ℕ, ◌+◌, ◌-◌, ◌≤◌, ◌≡◌, ◌≢◌, ◌⊎◌, Bool, true, false, List, ltb, ◌==◌, ==_iff, if◌then◌else◌,
  Result, ok, err, ap, sym, subst, ◌∙◌, refl, Bool-cases, inl, inr, arith,
}
use morph_reth.Common.Words.{u256_max}
use morph_reth.Revm.TokenFee.{compute_mapping_slot_for_address}
use morph_reth.Revm.Journal.{Journal, JournalLaws, Same}
use morph_reth.Revm.Transfer.{
  TransferError, recipient_balance_overflow, Step, then_, commit_or_revert, with_journal_checkpoint,
  write_balances, move_balance, transfer_erc20_with_slot,
}

-- What a successful transfer of `amount` between two slots of the token does to the values.
pub data Moved {E : Type 0} (j : Journal E) (token amount from_slot to_slot : ℕ) (s t : j.State)
    : Type 0 where
  unmoved :
      from_slot ≡ to_slot
      → amount ≤ j.value s token from_slot
      → Same j s t
      → Moved j token amount from_slot to_slot s t
  moved :
      from_slot ≢ to_slot
      → j.value t token from_slot + amount ≡ j.value s token from_slot
      → j.value t token to_slot ≡ j.value s token to_slot + amount
      → j.value t token to_slot ≤ u256_max
      → ((a k : ℕ)
          → (a ≢ token) ⊎ ((k ≢ from_slot) × (k ≢ to_slot))
          → j.value t a k ≡ j.value s a k)
      → Moved j token amount from_slot to_slot s t

module _ {E : Type 0} (j : Journal E) (laws : JournalLaws j) where
  -- A chain that succeeds had a step that succeeded.
  then_split :
      {A B : Type 0} (m : j.State × Result E A) (next : j.State → A → Step j B) (t : j.State)
      (b : B)
      → then_ j m next ≡ (t, ok b)
      → (a : A) × (m.1 ≡ ok a) × (next m.0 a ≡ (t, ok b))
  unfolding then_
  then_split (s, ok a) next t b h = (a, refl, h)
  then_split (s, err e) next t b h = cc

  -- both writes, to slots that differ
  write_balances_sound :
      (token from_slot to_slot new_from new_to : ℕ) (s t : j.State) (slots : ℕ × ℕ)
      → from_slot ≢ to_slot
      → write_balances j token from_slot to_slot new_from new_to s ≡ (t, ok slots)
      → (slots ≡ (from_slot, to_slot))
        × (j.value t token from_slot ≡ new_from)
        × (j.value t token to_slot ≡ new_to)
        × ((a k : ℕ)
            → (a ≢ token) ⊎ ((k ≢ from_slot) × (k ≢ to_slot))
            → j.value t a k ≡ j.value s a k)
  unfolding write_balances
  write_balances_sound token from_slot to_slot new_from new_to s t slots n h =
      let first = then_split _ _ t slots h in
      let second = then_split _ _ t slots first.2 in
      let w1 = laws.sstore_Written s token from_slot new_from first.1 in
      let w2 =
        laws.sstore_Written (j.sstore s token from_slot new_from).0 token to_slot new_to second.1 in
      let final = ap (λ (r : Step j (ℕ × ℕ)). r.0) second.2 in
      let at = λ (a k : ℕ). ap (λ u. j.value u a k) (sym final) in
      (
        cc,
        at token from_slot ∙ w2.1 token from_slot (inr n) ∙ w1.0,
        at token to_slot ∙ w2.0,
        λ a k. elim [
          | inl other ↦ at a k ∙ w2.1 a k (inl other) ∙ w1.1 a k (inl other)
          | inr (f, g) ↦ at a k ∙ w2.1 a k (inr g) ∙ w1.1 a k (inr f)
        ],
      )

  -- a guard that answers an error was passed
  guard_passed :
      {B : Type 0} (b : Bool) (s t : j.State) (e : TransferError E) (rest : Step j B) (x : B)
      → (if b then (s, err e) else rest) ≡ (t, ok x)
      → (b ≡ false) × (rest ≡ (t, ok x))
  guard_passed true s t e rest x h = cc
  guard_passed false s t e rest x h = (refl, h)

  -- the transfer between two slots that differ, by a sender that has the amount
  credit_sound :
      (token amount from_slot to_slot : ℕ) (s t : j.State) (slots : ℕ × ℕ)
      → from_slot ≢ to_slot
      → amount ≤ j.value s token from_slot
      → then_ j (j.sload s token to_slot) (λ s1. λ to_balance.
        if ltb u256_max (to_balance + amount)
        then (s1, err recipient_balance_overflow)
        else write_balances j token from_slot to_slot
            (j.value s token from_slot - amount)
            (to_balance + amount)
            s1)
        ≡ (t, ok slots)
      → (slots ≡ (from_slot, to_slot)) × Moved j token amount from_slot to_slot s t
  credit_sound token amount from_slot to_slot s t slots n le h =
      let read = then_split _ _ t slots h in
      let to_balance : read.0 ≡ j.value s token to_slot =
        laws.sload_value s token to_slot read.0 read.1 in
      let fits = guard_passed (ltb u256_max (read.0 + amount)) _ t _ _ slots read.2 in
      let wrote = write_balances_sound token from_slot to_slot _ _ _ t slots n fits.1 in
      let small : read.0 + amount ≤ u256_max = ground (arith, fits.0) in
      (
        wrote.0,
        moved n (omega (arith, wrote.1)) (omega (arith, wrote.2, to_balance))
            (omega (arith, wrote.2, small))
            (λ a k others. wrote.3 a k others ∙ laws.sload_Same s token to_slot a k),
      )

  branch_taken : {A : Type 0} (b : Bool) (x y z : A) → b ≡ true → (if b then x else y) ≡ z → x ≡ z
  branch_taken true x y z e h = h
  branch_taken false x y z e h = cc

  branch_left : {A : Type 0} (b : Bool) (x y z : A) → b ≡ false → (if b then x else y) ≡ z → y ≡ z
  branch_left true x y z e h = cc
  branch_left false x y z e h = h

  move_balance_sound :
      (token amount from_slot to_slot : ℕ) (s t : j.State) (slots : ℕ × ℕ)
      → move_balance j token amount from_slot to_slot s (j.value s token from_slot) ≡ (t, ok slots)
      → (slots ≡ (from_slot, to_slot)) × Moved j token amount from_slot to_slot s t
  unfolding move_balance
  move_balance_sound token amount from_slot to_slot s t slots h =
      let rich = guard_passed (ltb (j.value s token from_slot) amount) _ t _ _ slots h in
      let enough : amount ≤ j.value s token from_slot = ground (arith, rich.0) in
      elim (Bool-cases (from_slot == to_slot)) [
        | inl same ↦
            let stays = branch_taken (from_slot == to_slot) _ _ _ same rich.1 in
            (
              cc,
              unmoved ((==_iff from_slot to_slot).0 same) enough
                  (λ a k. ap (λ (r : Step j (ℕ × ℕ)). j.value r.0 a k) (sym stays)),
            )
        | inr other ↦
            credit_sound token amount from_slot to_slot s t slots (ground arith) enough
              (branch_left (from_slot == to_slot) _ _ _ other rich.1)
      ]

  -- States with the same values before and after move the same amount.
  Moved-Same :
      (token amount from_slot to_slot : ℕ) (s s1 u t : j.State)
      → Same j s s1
      → Same j u t
      → Moved j token amount from_slot to_slot s1 u
      → Moved j token amount from_slot to_slot s t
  Moved-Same token amount from_slot to_slot s s1 u t b a (unmoved e h same) =
      unmoved e (omega (arith, h, b token from_slot)) (λ x k. a x k ∙ same x k ∙ b x k)
  Moved-Same token amount from_slot to_slot s s1 u t b a (moved n paid credited fits others) =
      moved n (omega (arith, a token from_slot, paid, b token from_slot))
        (omega (arith, a token to_slot, credited, b token to_slot))
        (omega (arith, a token to_slot, fits)) (λ x k o. a x k ∙ others x k o ∙ b x k)

  committed :
      {A : Type 0} (c : j.Checkpoint) (r : Step j A) (t : j.State) (x : A)
      → commit_or_revert j c r ≡ (t, ok x)
      → (r ≡ (r.0, ok x)) × (j.checkpoint_commit r.0 ≡ t)
  unfolding commit_or_revert
  committed c (s, ok a) t x h = (cc, cc)
  committed c (s, err e) t x h = cc

  -- the transfer under its checkpoint
  checkpoint_moves :
      (token amount from_slot to_slot : ℕ) (s t : j.State) (slots : ℕ × ℕ)
      → with_journal_checkpoint j s (λ s1.
        then_ j (j.sload s1 token from_slot) (move_balance j token amount from_slot to_slot))
        ≡ (t, ok slots)
      → (slots ≡ (from_slot, to_slot)) × Moved j token amount from_slot to_slot s t
  unfolding with_journal_checkpoint
  checkpoint_moves token amount from_slot to_slot s t slots h =
      let s1 = (j.checkpoint s).1 in
      let s2 = (j.sload s1 token from_slot).0 in
      let run =
        then_ j (j.sload s1 token from_slot) (move_balance j token amount from_slot to_slot) in
      let kept = committed _ run t slots h in
      let read =
        then_split (j.sload s1 token from_slot) (move_balance j token amount from_slot to_slot) _
          slots kept.0 in
      let same : Same j s1 s2 = laws.sload_Same s1 token from_slot in
      let balance : read.0 ≡ j.value s2 token from_slot =
        laws.sload_value s1 token from_slot read.0 read.1 ∙ sym (same token from_slot) in
      let sound = move_balance_sound token amount from_slot to_slot s2 _ slots (
        subst (λ b. move_balance j token amount from_slot to_slot s2 b ≡ (run.0, ok slots)) balance
          read.2) in
      (
        sound.0,
        Moved-Same token amount from_slot to_slot s s2 _ t
            (λ a k. same a k ∙ laws.checkpoint_Same s a k)
            (λ a k. ap (λ v. j.value v a k) (sym kept.1) ∙ laws.commit_Same _ a k) sound.1,
      )

module _ (keccak256 : List ℕ → ℕ) {E : Type 0} (j : Journal E) (laws : JournalLaws j) where
  -- On a journal that keeps its laws, a transfer that succeeds answers the balance slots of both
  -- accounts, and the sender's slot held the amount. If the two slots are one, no value changes;
  -- otherwise the sender's balance is less by the amount and the recipient's more by it, which still
  -- fits a U256, and every other slot is as it was.
  pub transfer_erc20_with_slot-Moved :
      (s t : j.State) (from to token token_amount token_balance_slot : ℕ) (slots : ℕ × ℕ)
      → transfer_erc20_with_slot keccak256 j s from to token token_amount token_balance_slot
        ≡ (t, ok slots)
      → let from_slot = compute_mapping_slot_for_address keccak256 token_balance_slot from in
        let to_slot = compute_mapping_slot_for_address keccak256 token_balance_slot to in
        (slots ≡ (from_slot, to_slot)) × Moved j token token_amount from_slot to_slot s t
  unfolding transfer_erc20_with_slot
  transfer_erc20_with_slot-Moved s t from to token token_amount token_balance_slot slots h =
      let loaded = then_split j laws (j.load_account_mut s token) _ t slots h in
      let s1 = (j.load_account_mut s token).0 in
      let result =
        checkpoint_moves j laws token token_amount _ _ (j.touch s1 token) t slots loaded.2 in
      (
        result.0,
        Moved-Same j laws token token_amount _ _ s (j.touch s1 token) t t
            (λ a k. laws.touch_Same s1 token a k ∙ laws.load_Same s token a k) (λ a k. refl)
            result.1,
      )
