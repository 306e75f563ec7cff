-- ===== src/Primitives/Tests.antt =====
-- The theorems on MorphTx at concrete transactions.
use morph_reth.Common.{◌≡◌, refl, ok, arith}
use morph_reth.Primitives.MorphTx.{validate}
use morph_reth.Primitives.MorphTx.Rules.{version_1, validate_iff}
use morph_reth.Primitives.Samples.{tx_v1}

validate_iff_example : validate tx_v1 ≡ ok tt
validate_iff_example = (validate_iff tx_v1).1 (record {
  fees_ordered = omega arith;
  memo_short = omega arith;
  rules = version_1 refl (λ e. refl) refl;
})
