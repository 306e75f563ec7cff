-- ===== src/Revm/MemoryJournal.antt =====
-- A journal in memory, which keeps the laws: its state is a function from accounts and slots to values,
-- a checkpoint is such a function, and no operation fails.
use morph_reth.Common.{ℕ, ◌≡◌, ◌≢◌, ◌⊎◌, ◌==◌, if◌then◌else◌, inl, inr, refl, ok, ⊤, arith}
use morph_reth.Revm.Journal.{Journal, JournalLaws}

abbrev pub Values : Type 0
Values = ℕ → ℕ → ℕ

abbrev pub write : Values → ℕ → ℕ → ℕ → Values
write s account slot v = λ a k. if a == account then (if k == slot then v else s a k) else s a k

abbrev pub memory : Journal ⊤
memory = record {
  State = Values;
  Checkpoint = Values;
  value = λ s. s;
  load_account_mut = λ s a. (s, ok tt);
  touch = λ s a. s;
  sload = λ s a k. (s, ok (s a k));
  sstore = λ s a k v. (write s a k v, ok tt);
  checkpoint = λ s. (s, s);
  checkpoint_commit = λ s. s;
  checkpoint_revert = λ s c. c;
}

write_same : (s : Values) (a k v : ℕ) → write s a k v a k ≡ v
write_same s a k v = ground arith

write_other :
    (s : Values) (account slot v a k : ℕ)
    → (a ≢ account) ⊎ (k ≢ slot)
    → write s account slot v a k ≡ s a k
write_other s account slot v a k (inl n) = ground arith
write_other s account slot v a k (inr n) = ground arith

pub memory_laws : JournalLaws memory
memory_laws = record {
  saved = λ c. c;
  Open = λ s c. ⊤;
  load_Same = λ s a x k. refl;
  touch_Same = λ s a x k. refl;
  sload_Same = λ s a k x y. refl;
  sload_value = λ s a k v e. cc;
  sstore_Written = λ s a k v e. (write_same s a k v, write_other s a k v);
  checkpoint_Same = λ s x k. refl;
  checkpoint_saved = λ s a k. refl;
  commit_Same = λ s x k. refl;
  checkpoint_Open = λ s. tt;
  sload_Open = λ s c a k o. tt;
  sstore_Open = λ s c a k v o. tt;
  revert_value = λ s c a k o. refl;
}
