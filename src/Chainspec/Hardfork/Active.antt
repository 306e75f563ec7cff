-- ===== src/Chainspec/Hardfork/Active.antt =====
-- What `morph_hardfork_at` answers, for any schedule.
use morph_reth.Common.{ℕ, ◌≤◌, ◌≡◌, ◌⊎◌, inl, inr, Bool, true, arith}
use morph_reth.Chainspec.Hardfork.{
  MorphHardfork, bernoulli, curie, morph203, viridian, emerald, jade, celadon, rank, ForkSchedule,
  is_bernoulli_active_at_block, morph_hardfork_at,
}

-- The test by which the source asks for a fork: Bernoulli and Curie by block, the others by time.
abbrev pub is_active : ForkSchedule → ℕ → ℕ → MorphHardfork → Bool
is_active s n t bernoulli = is_bernoulli_active_at_block s n
is_active s n t curie = s.active_at_block curie n
is_active s n t morph203 = s.active_at_timestamp morph203 t
is_active s n t viridian = s.active_at_timestamp viridian t
is_active s n t emerald = s.active_at_timestamp emerald t
is_active s n t jade = s.active_at_timestamp jade t
is_active s n t celadon = s.active_at_timestamp celadon t

-- A condition that holds goes on to hold at later blocks and later timestamps.
pub record IsLasting (s : ForkSchedule) : Type 0 where
  pub block_lasts :
      (f : MorphHardfork) (n n' : ℕ)
      → n ≤ n'
      → s.active_at_block f n ≡ true
      → s.active_at_block f n' ≡ true
  pub timestamp_lasts :
      (f : MorphHardfork) (t t' : ℕ)
      → t ≤ t'
      → s.active_at_timestamp f t ≡ true
      → s.active_at_timestamp f t' ≡ true

morph_hardfork_at-is_active :
    (s : ForkSchedule) (n t : ℕ)
    → (is_active s n t (morph_hardfork_at s n t) ≡ true) ⊎ (morph_hardfork_at s n t ≡ bernoulli)
unfolding morph_hardfork_at
morph_hardfork_at-is_active s n t = ground arith

rank-le-morph_hardfork_at :
    (s : ForkSchedule) (n t : ℕ) (f : MorphHardfork)
    → is_active s n t f ≡ true
    → rank f ≤ rank (morph_hardfork_at s n t)
unfolding morph_hardfork_at
rank-le-morph_hardfork_at s n t bernoulli h = ground arith
rank-le-morph_hardfork_at s n t f h = ground arith

-- `morph_hardfork_at` answers a fork that is active at the block and the timestamp, or else Bernoulli,
-- whether or not Bernoulli is active; and no active fork comes later in the order of the forks.
pub morph_hardfork_at_latest :
    (s : ForkSchedule) (n t : ℕ)
    → ((is_active s n t (morph_hardfork_at s n t) ≡ true) ⊎ (morph_hardfork_at s n t ≡ bernoulli))
      × ((f : MorphHardfork) → is_active s n t f ≡ true → rank f ≤ rank (morph_hardfork_at s n t))
morph_hardfork_at_latest s n t =
    (morph_hardfork_at-is_active s n t, rank-le-morph_hardfork_at s n t)

is_active_lasts :
    (s : ForkSchedule) (n n' t t' : ℕ) (f : MorphHardfork)
    → IsLasting s
    → n ≤ n'
    → t ≤ t'
    → is_active s n t f ≡ true
    → is_active s n' t' f ≡ true
unfolding is_bernoulli_active_at_block
is_active_lasts s n n' t t' bernoulli l hn ht h = l.block_lasts bernoulli n n' hn h
is_active_lasts s n n' t t' curie l hn ht h = l.block_lasts curie n n' hn h
is_active_lasts s n n' t t' f l hn ht h = l.timestamp_lasts f t t' ht h

-- If conditions go on to hold once they hold, the fork that `morph_hardfork_at` answers never goes
-- back from a block to a later one.
pub morph_hardfork_at_mono :
    (s : ForkSchedule) (n n' t t' : ℕ)
    → IsLasting s
    → n ≤ n'
    → t ≤ t'
    → rank (morph_hardfork_at s n t) ≤ rank (morph_hardfork_at s n' t')
morph_hardfork_at_mono s n n' t t' l hn ht =
    let fork = morph_hardfork_at s n t in
    elim (morph_hardfork_at-is_active s n t) [
      | inl h ↦ rank-le-morph_hardfork_at s n' t' fork (is_active_lasts s n n' t t' fork l hn ht h)
      | inr e ↦ rw e (omega arith)
    ]
