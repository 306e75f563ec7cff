-- ===== src/Chainspec/Hardfork.antt =====
-- crates/chainspec/src/hardfork.rs: the hardforks, their order, and the fork active at a block.
-- `ForkCondition` belongs to reth: what the source asks of it, whether a fork's condition holds at a
-- block number or at a timestamp, is the record `ForkSchedule`, a parameter of all that uses it.
pub mod Active
pub mod Spec
use morph_reth.Common.{ℕ, Bool, leb, if◌then◌else◌}

pub data MorphHardfork : Type 0 where
  bernoulli curie morph203 viridian emerald jade celadon : MorphHardfork

-- The derived `PartialOrd` compares variants by their place in the declaration.
abbrev pub rank : MorphHardfork → ℕ
rank bernoulli = 0
rank curie = 1
rank morph203 = 2
rank viridian = 3
rank emerald = 4
rank jade = 5
rank celadon = 6

unfoldable pub is_curie : MorphHardfork → Bool
is_curie f = leb (rank curie) (rank f)

unfoldable pub is_morph203 : MorphHardfork → Bool
is_morph203 f = leb (rank morph203) (rank f)

unfoldable pub is_viridian : MorphHardfork → Bool
is_viridian f = leb (rank viridian) (rank f)

unfoldable pub is_emerald : MorphHardfork → Bool
is_emerald f = leb (rank emerald) (rank f)

unfoldable pub is_jade : MorphHardfork → Bool
is_jade f = leb (rank jade) (rank f)

unfoldable pub is_celadon : MorphHardfork → Bool
is_celadon f = leb (rank celadon) (rank f)

-- `morph_fork_activation(fork).active_at_block(n)` and `.active_at_timestamp(t)`.
pub record ForkSchedule : Type 0 where
  pub active_at_block : MorphHardfork → ℕ → Bool
  pub active_at_timestamp : MorphHardfork → ℕ → Bool

module _ (s : ForkSchedule) where
  unfoldable pub is_bernoulli_active_at_block : ℕ → Bool
  is_bernoulli_active_at_block n = s.active_at_block bernoulli n

  unfoldable pub is_curie_active_at_block : ℕ → Bool
  is_curie_active_at_block n = s.active_at_block curie n

  unfoldable pub is_morph203_active_at_timestamp : ℕ → Bool
  is_morph203_active_at_timestamp t = s.active_at_timestamp morph203 t

  unfoldable pub is_viridian_active_at_timestamp : ℕ → Bool
  is_viridian_active_at_timestamp t = s.active_at_timestamp viridian t

  unfoldable pub is_emerald_active_at_timestamp : ℕ → Bool
  is_emerald_active_at_timestamp t = s.active_at_timestamp emerald t

  unfoldable pub is_jade_active_at_timestamp : ℕ → Bool
  is_jade_active_at_timestamp t = s.active_at_timestamp jade t

  unfoldable pub is_celadon_active_at_timestamp : ℕ → Bool
  is_celadon_active_at_timestamp t = s.active_at_timestamp celadon t

  unfoldable pub morph_hardfork_at : ℕ → ℕ → MorphHardfork
  unfolding is_curie_active_at_block is_morph203_active_at_timestamp is_viridian_active_at_timestamp
      is_emerald_active_at_timestamp is_jade_active_at_timestamp is_celadon_active_at_timestamp
  morph_hardfork_at n t =
      if is_celadon_active_at_timestamp t
      then celadon
      else if is_jade_active_at_timestamp t
      then jade
      else if is_emerald_active_at_timestamp t
      then emerald
      else if is_viridian_active_at_timestamp t
      then viridian
      else if is_morph203_active_at_timestamp t
      then morph203
      else if is_curie_active_at_block n
      then curie
      else bernoulli
