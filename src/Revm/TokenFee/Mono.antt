-- ===== src/Revm/TokenFee/Mono.antt =====
-- The token amounts of crates/revm/src/token_fee.rs for fees of different sizes, saturation included.
use morph_reth.Common.{
  ℕ, ◌*◌, ◌≤◌, ◌<◌, ◌≡◌, ◌||◌, ◌==◌, true, false, Bool-cases, min, arith, inl, inr,
}
use morph_reth.Common.Words.{u256_max}
use morph_reth.Revm.TokenFee.{TokenFeeInfo, eth_to_token_amount_with_credit, eth_to_token_amount}
use morph_reth.Revm.TokenFee.Rounding.{le_of_worth, ceil_of, ceil_of-IsCeil}
use native.Mathlib.Nat.{div-le_self, mul-le-mul_right}

ceil_of_mono : (s t p : ℕ) → 0 < p → s ≤ t → (ceil_of s p).0 ≤ (ceil_of t p).0
ceil_of_mono s t p h le =
    let low = ceil_of-IsCeil s p h in
    let high = ceil_of-IsCeil t p h in
    le_of_worth p _ _ (omega (arith, low.worth, low.least, high.worth))

amount-min :
    (info : TokenFeeInfo) (x : ℕ)
    → (info.price_ratio == 0 || info.scale == 0) ≡ false
    → eth_to_token_amount info x
      ≡ min (ceil_of (min (x * info.scale) u256_max) info.price_ratio).0 u256_max
unfolding eth_to_token_amount eth_to_token_amount_with_credit
amount-min info x h = ground (arith, div-le_self (min (x * info.scale) u256_max) info.price_ratio)

amount_unusable :
    (info : TokenFeeInfo) (x : ℕ)
    → (info.price_ratio == 0 || info.scale == 0) ≡ true
    → eth_to_token_amount info x ≡ u256_max
unfolding eth_to_token_amount eth_to_token_amount_with_credit
amount_unusable info x h = ground arith

pub eth_to_token_amount_mono :
    (info : TokenFeeInfo) (x y : ℕ)
    → x ≤ y
    → eth_to_token_amount info x ≤ eth_to_token_amount info y
eth_to_token_amount_mono info x y h = elim (Bool-cases (info.price_ratio == 0 || info.scale == 0)) [
  | inl e ↦ rw (amount_unusable info x e, amount_unusable info y e) (omega arith)
  | inr e ↦
      let scaled : x * info.scale ≤ y * info.scale = mul-le-mul_right info.scale h in
      let mono =
        ceil_of_mono (min (x * info.scale) u256_max) (min (y * info.scale) u256_max)
          info.price_ratio (ground arith) (omega arith) in
      rw (amount-min info x e, amount-min info y e) (omega (arith, mono))
]
