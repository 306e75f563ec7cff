-- ===== src/Chainspec/Hardfork/Spec.antt =====
-- crates/chainspec/src/hardfork.rs: the maps between Morph's forks and revm's `SpecId`.
-- `SpecId` belongs to revm: an ordered enumeration, of which the source names three members.
use morph_reth.Common.{ℕ, ◌≤◌, ◌<◌, ◌≡◌, leb, if◌then◌else◌, arith}
use morph_reth.Chainspec.Hardfork.{
  MorphHardfork, bernoulli, curie, morph203, viridian, emerald, jade, celadon, rank,
}

-- The members as numbers in revm's order; `a.is_enabled_in(b)` is `b ≤ a` there.
pub record SpecIds : Type 0 where
  pub cancun : ℕ
  pub prague : ℕ
  pub osaka : ℕ
  pub cancun_lt : cancun < prague
  pub prague_lt : prague < osaka

module _ (ids : SpecIds) where
  unfoldable pub to_spec_id : MorphHardfork → ℕ
  to_spec_id bernoulli = ids.cancun
  to_spec_id curie = ids.cancun
  to_spec_id morph203 = ids.cancun
  to_spec_id viridian = ids.prague
  to_spec_id emerald = ids.osaka
  to_spec_id jade = ids.osaka
  to_spec_id celadon = ids.osaka

  unfoldable pub from_spec_id : ℕ → MorphHardfork
  from_spec_id spec =
      if leb ids.osaka spec then celadon else if leb ids.prague spec then viridian else morph203

  keeps_spec_id : (f : MorphHardfork) → to_spec_id (from_spec_id (to_spec_id f)) ≡ to_spec_id f
  unfolding to_spec_id from_spec_id
  keeps_spec_id bernoulli = ground arith
  keeps_spec_id f = ground arith

  is_latest :
      (f g : MorphHardfork)
      → to_spec_id g ≡ to_spec_id f
      → rank g ≤ rank (from_spec_id (to_spec_id f))
  unfolding to_spec_id from_spec_id
  is_latest bernoulli bernoulli = ground arith
  is_latest f g = ground arith

  -- The way from a fork to its SpecId and back keeps the SpecId, and answers the latest of all forks
  -- that have that SpecId.
  pub from_spec_id-to_spec_id :
      (f : MorphHardfork)
      → (to_spec_id (from_spec_id (to_spec_id f)) ≡ to_spec_id f)
        × ((g : MorphHardfork)
            → to_spec_id g ≡ to_spec_id f
            → rank g ≤ rank (from_spec_id (to_spec_id f)))
  from_spec_id-to_spec_id f = (keeps_spec_id f, is_latest f)
