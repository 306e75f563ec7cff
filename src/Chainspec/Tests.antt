-- ===== src/Chainspec/Tests.antt =====
-- The theorems on hardforks at a concrete schedule.
use morph_reth.Common.{◌*◌, ◌≡◌, ◌⊎◌, refl, true, leb, arith}
use morph_reth.Chainspec.Hardfork.{bernoulli, emerald, rank, ForkSchedule, morph_hardfork_at}
use morph_reth.Chainspec.Hardfork.Active.{is_active, IsLasting, morph_hardfork_at_latest}
use morph_reth.Chainspec.Hardfork.Spec.{SpecIds}

-- Each fork starts ten seconds after the one before it.
abbrev schedule : ForkSchedule
schedule = record {
  active_at_block = λ f n. true;
  active_at_timestamp = λ f t. leb (10 * rank f) t;
}

schedule-IsLasting : IsLasting schedule
schedule-IsLasting = record {
  block_lasts = λ f n n' h e. refl;
  timestamp_lasts = λ f t t' h e. ground arith;
}

at_45 : morph_hardfork_at schedule 100 45 ≡ emerald
unfolding morph_hardfork_at
at_45 = refl

morph_hardfork_at_latest_example :
    (is_active schedule 100 45 (morph_hardfork_at schedule 100 45) ≡ true)
    ⊎ (morph_hardfork_at schedule 100 45 ≡ bernoulli)
morph_hardfork_at_latest_example = (morph_hardfork_at_latest schedule 100 45).0

abbrev spec_ids : SpecIds
spec_ids = record {
  cancun = 17;
  prague = 18;
  osaka = 19;
  cancun_lt = omega arith;
  prague_lt = omega arith;
}
