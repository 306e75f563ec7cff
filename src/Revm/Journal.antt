-- ===== src/Revm/Journal.antt =====
-- revm's journal as the token transfers use it. Its operations are a parameter: the record `Journal`;
-- what the transfers rely on is the record `JournalLaws`. The type `E` is that of the errors.
use morph_reth.Common.{ℕ, ◌≡◌, ◌≢◌, ◌⊎◌, Result, ok, ⊤}

-- `value` is the present value of an account's slot. A read or a write may fail, as the database may.
pub record Journal (E : Type 0) : Type 1 where
  pub State : Type 0
  pub Checkpoint : Type 0
  pub value : State → ℕ → ℕ → ℕ
  pub load_account_mut : State → ℕ → State × Result E ⊤
  pub touch : State → ℕ → State
  pub sload : State → ℕ → ℕ → State × Result E ℕ
  pub sstore : State → ℕ → ℕ → ℕ → State × Result E ⊤
  pub checkpoint : State → Checkpoint × State
  pub checkpoint_commit : State → State
  pub checkpoint_revert : State → Checkpoint → State

module _ {E : Type 0} (j : Journal E) where
  -- Two states have the same values in every slot.
  abbrev pub Same : j.State → j.State → Type 0
  Same s t = (account slot : ℕ) → j.value t account slot ≡ j.value s account slot

  -- The slot has been written, and every other slot is as it was.
  abbrev pub Written : j.State → j.State → ℕ → ℕ → ℕ → Type 0
  Written s t account slot v =
      (j.value t account slot ≡ v)
      × ((a k : ℕ) → (a ≢ account) ⊎ (k ≢ slot) → j.value t a k ≡ j.value s a k)

-- The behaviour that revm documents for its journal. `saved` are the values at a checkpoint, and `Open`
-- says that a state has come from a checkpoint by reads and writes alone.
pub record JournalLaws {E : Type 0} (j : Journal E) : Type 1 where
  pub saved : j.Checkpoint → ℕ → ℕ → ℕ
  pub Open : j.State → j.Checkpoint → Type 0
  pub load_Same : (s : j.State) (a : ℕ) → Same j s (j.load_account_mut s a).0
  pub touch_Same : (s : j.State) (a : ℕ) → Same j s (j.touch s a)
  pub sload_Same : (s : j.State) (a k : ℕ) → Same j s (j.sload s a k).0
  pub sload_value : (s : j.State) (a k v : ℕ) → (j.sload s a k).1 ≡ ok v → v ≡ j.value s a k
  pub sstore_Written :
      (s : j.State) (a k v : ℕ)
      → (j.sstore s a k v).1 ≡ ok tt
      → Written j s (j.sstore s a k v).0 a k v
  pub checkpoint_Same : (s : j.State) → Same j s (j.checkpoint s).1
  pub checkpoint_saved : (s : j.State) (a k : ℕ) → saved (j.checkpoint s).0 a k ≡ j.value s a k
  pub commit_Same : (s : j.State) → Same j s (j.checkpoint_commit s)
  pub checkpoint_Open : (s : j.State) → Open (j.checkpoint s).1 (j.checkpoint s).0
  pub sload_Open : (s : j.State) (c : j.Checkpoint) (a k : ℕ) → Open s c → Open (j.sload s a k).0 c
  pub sstore_Open :
      (s : j.State) (c : j.Checkpoint) (a k v : ℕ) → Open s c → Open (j.sstore s a k v).0 c
  pub revert_value :
      (s : j.State) (c : j.Checkpoint) (a k : ℕ)
      → Open s c
      → j.value (j.checkpoint_revert s c) a k ≡ saved c a k
