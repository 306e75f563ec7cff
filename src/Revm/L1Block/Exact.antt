-- ===== src/Revm/L1Block/Exact.antt =====
-- The saturating arithmetic of crates/revm/src/l1block.rs beside the formulas over unbounded numbers.
use morph_reth.Common.{
  ℕ, suc, zero, ◌+◌, ◌*◌, ◌/◌, ◌≤◌, ◌≡◌, true, false, List, [], ◌∷◌, ◌++◌, ◌==◌, if◌then◌else◌,
  length, min, arith, Result, ok, inl, inr, Bool-cases,
}
use morph_reth.Common.Words.{u256_max, saturating_mul, saturating_add}
use morph_reth.Chainspec.Hardfork.{MorphHardfork, is_curie}
use morph_reth.Revm.L1Block.{
  L1BlockInfo, tx_l1_commit_extra_cost, tx_l1_fee_precision, l1_fee_cap, calldata_fold, data_gas,
  calculate_tx_l1_cost, try_fetch,
}

-- 4 for a zero byte, 16 for any other.
unfoldable pub calldata_gas_of : List ℕ → ℕ
calldata_gas_of [] = 0
calldata_gas_of (b ∷ input) = (if b == 0 then 4 else 16) + calldata_gas_of input

calldata_fold-eq :
    (acc : ℕ) (input : List ℕ) → calldata_fold acc input ≡ acc + calldata_gas_of input
unfolding calldata_fold calldata_gas_of
calldata_fold-eq acc [] = omega arith
calldata_fold-eq acc (b ∷ input) = elim (Bool-cases (b == 0)) [
  | inl e ↦ rw (e, calldata_fold-eq (acc + 4) input) (omega arith)
  | inr e ↦ rw (e, calldata_fold-eq (acc + 16) input) (omega arith)
]

-- A saturated factor saturates the product, unless the other factor is 0.
saturating_mul-min : (top x s : ℕ) → min (min x top * s) top ≡ min (x * s) top
saturating_mul-min top x zero = omega arith
saturating_mul-min top x (suc s) = grind arith

-- The formulas without any bound on the numbers.
abbrev pub exact_fee_pre_curie : L1BlockInfo → List ℕ → ℕ
exact_fee_pre_curie info input =
    (calldata_gas_of input + info.l1_fee_overhead + tx_l1_commit_extra_cost)
    * info.l1_base_fee
    * info.l1_base_fee_scalar
    / tx_l1_fee_precision

abbrev pub exact_fee_curie : L1BlockInfo → List ℕ → ℕ
exact_fee_curie info input =
    (info.l1_commit_scalar * info.l1_base_fee
      + length input * info.l1_blob_base_fee * info.l1_blob_scalar)
    / tx_l1_fee_precision

-- The cap lies below the quotient of a saturated number, so it hides the saturation.
cap_hides :
    (x : ℕ)
    → min (min x u256_max / tx_l1_fee_precision) l1_fee_cap
      ≡ min (x / tx_l1_fee_precision) l1_fee_cap
cap_hides x = omega arith

cap_hides_mul :
    (g b s : ℕ)
    → min
        (saturating_mul u256_max (saturating_mul u256_max (min g u256_max) b) s
          / tx_l1_fee_precision)
        l1_fee_cap
      ≡ min (g * b * s / tx_l1_fee_precision) l1_fee_cap
cap_hides_mul g b s =
    rw (saturating_mul-min u256_max g b, saturating_mul-min u256_max (g * b) s)
      (cap_hides (g * b * s))

cap_hides_add :
    (c n f s : ℕ)
    → min
        (saturating_add u256_max
            (min c u256_max)
            (saturating_mul u256_max (saturating_mul u256_max n f) s)
          / tx_l1_fee_precision)
        l1_fee_cap
      ≡ min ((c + n * f * s) / tx_l1_fee_precision) l1_fee_cap
cap_hides_add c n f s = rw (saturating_mul-min u256_max (n * f) s) (omega arith)

gas_saturates :
    (g o : ℕ)
    → saturating_add u256_max (saturating_add u256_max (0 + g) o) tx_l1_commit_extra_cost
      ≡ min (g + o + tx_l1_commit_extra_cost) u256_max
gas_saturates g o = omega arith

-- Before Curie the fee is the exact formula over the gas of the bytes, capped at u64::MAX: the
-- saturation of the intermediate products is never seen.
pub calculate_tx_l1_cost-exact_pre_curie :
    (info : L1BlockInfo) (input : List ℕ) (f : MorphHardfork)
    → is_curie f ≡ false
    → calculate_tx_l1_cost info input f ≡ min (exact_fee_pre_curie info input) l1_fee_cap
unfolding calculate_tx_l1_cost data_gas
calculate_tx_l1_cost-exact_pre_curie info input f h =
    rw (h, calldata_fold-eq 0 input, gas_saturates (calldata_gas_of input) info.l1_fee_overhead)
      (cap_hides_mul _ info.l1_base_fee info.l1_base_fee_scalar)

-- What `try_fetch` reads from Curie on has the product of the commit scalar and the base fee.
try_fetch-calldata_gas :
    {E : Type 0} (storage : ℕ → ℕ → Result E ℕ) (f : MorphHardfork) (info : L1BlockInfo)
    → is_curie f ≡ true
    → try_fetch storage f ≡ ok info
    → info.calldata_gas ≡ saturating_mul u256_max info.l1_commit_scalar info.l1_base_fee
unfolding try_fetch
try_fetch-calldata_gas storage f info c e = ground arith

-- From Curie on the fee of an input, with the oracle's values as `try_fetch` reads them, is the exact
-- formula (commitScalar * l1BaseFee + length * l1BlobBaseFee * blobScalar) / 10^9, capped at u64::MAX.
pub calculate_tx_l1_cost-exact_curie :
    {E : Type 0} (storage : ℕ → ℕ → Result E ℕ) (info : L1BlockInfo) (input : List ℕ)
    (f : MorphHardfork)
    → is_curie f ≡ true
    → try_fetch storage f ≡ ok info
    → calculate_tx_l1_cost info input f ≡ min (exact_fee_curie info input) l1_fee_cap
unfolding calculate_tx_l1_cost data_gas
calculate_tx_l1_cost-exact_curie storage info input f h e =
    rw (h, try_fetch-calldata_gas storage f info h e)
      (cap_hides_add (info.l1_commit_scalar * info.l1_base_fee) (length input) info.l1_blob_base_fee
        info.l1_blob_scalar)

calldata_gas_of-append :
    (input more : List ℕ) → calldata_gas_of input ≤ calldata_gas_of (input ++ more)
unfolding calldata_gas_of
calldata_gas_of-append [] more = omega arith
calldata_gas_of-append (b ∷ input) more = omega (arith, calldata_gas_of-append input more)
