-- ===== src/Revm/TokenFee/Rounding.antt =====
-- The rounding of token amounts: what is charged up front, and what is given back.
use morph_reth.Common.{
  ℕ, suc, ◌+◌, ◌-◌, ◌*◌, ◌/◌, ◌%◌, ◌≤◌, ◌<◌, ◌≡◌, ◌==◌, if◌then◌else◌, arith, subst, ◌∙◌,
  Bool-cases, inl, inr,
}
use morph_reth.Common.Words.{u256_max}
use morph_reth.Revm.TokenFee.{
  TokenFeeInfo, eth_to_token_amount_with_credit, eth_to_token_amount, eth_to_token_amount_floor,
}
use native.Mathlib.Nat.{
  mul_comm, mul-sub, div-add-mod, div-add-mod', mod-lt, mul-le-mul_right, lt_of_mul-lt-mul_right,
}

-- A token that is usable, and an amount whose scaled value fits a U256 with room for one credit.
pub record Fits (info : TokenFeeInfo) (eth_amount : ℕ) : Type 0 where
  pub price_ratio_pos : 0 < info.price_ratio
  pub scale_pos : 0 < info.scale
  pub scaled_fits : eth_amount * info.scale + info.price_ratio ≤ u256_max

pub Fits-mono : (info : TokenFeeInfo) (x y : ℕ) → x ≤ y → Fits info y → Fits info x
Fits-mono info x y h f = record {
  price_ratio_pos = f.price_ratio_pos;
  scale_pos = f.scale_pos;
  scaled_fits = ground (arith, mul-le-mul_right info.scale h);
}

-- The amount is the least number of tokens that is worth the scaled ETH amount, and the credit is what
-- the tokens are worth beyond it.
pub record IsCeil (price_ratio scaled amount credit : ℕ) : Type 0 where
  pub worth : amount * price_ratio ≡ scaled + credit
  pub least : credit < price_ratio

-- One more token than `b` is worth more than `a` tokens, so `a` is at most `b`.
pub le_of_worth : (p a b : ℕ) → a * p < b * p + p → a ≤ b
le_of_worth p a b h = omega (arith, lt_of_mul-lt-mul_right p {m = a} {n = suc b} (ground arith))

-- A number of tokens that is worth the amount with less than a token over is the only one.
IsCeil-unique : (p s a b c d : ℕ) → IsCeil p s a c → IsCeil p s b d → a ≡ b
IsCeil-unique p s a b c d f g =
    omega (arith, le_of_worth p a b (ground arith), le_of_worth p b a (ground arith))

abbrev pub ceil_of : ℕ → ℕ → ℕ × ℕ
ceil_of s p = if s % p == 0 then (s / p, 0) else (s / p + 1, p - s % p)

pub ceil_of-IsCeil : (s p : ℕ) → 0 < p → IsCeil p s (ceil_of s p).0 (ceil_of s p).1
ceil_of-IsCeil s p h = elim (Bool-cases (s % p == 0)) [
  | inl e ↦ rw e (record { worth = grind (arith, div-add-mod s p); least = h })
  | inr e ↦
      rw e (record { worth = grind (arith, div-add-mod s p, mod-lt s h); least = ground arith })
]

with_credit-ceil_of :
    (info : TokenFeeInfo) (x : ℕ)
    → Fits info x
    → eth_to_token_amount_with_credit info x ≡ ceil_of (x * info.scale) info.price_ratio
unfolding eth_to_token_amount_with_credit
with_credit-ceil_of info x f = ground arith

pub floor-eq :
    (info : TokenFeeInfo) (x credit : ℕ)
    → Fits info x
    → credit < info.price_ratio
    → eth_to_token_amount_floor info x credit ≡ (x * info.scale + credit) / info.price_ratio
unfolding eth_to_token_amount_floor
floor-eq info x credit f h = ground arith

pub with_credit-IsCeil :
    (info : TokenFeeInfo) (x : ℕ)
    → Fits info x
    → IsCeil info.price_ratio
        (x * info.scale)
        (eth_to_token_amount_with_credit info x).0
        (eth_to_token_amount_with_credit info x).1
with_credit-IsCeil info x f =
    rw (with_credit-ceil_of info x f)
      (ceil_of-IsCeil (x * info.scale) info.price_ratio f.price_ratio_pos)

pub sub-mul : (m n k : ℕ) → (m - n) * k ≡ m * k - n * k
sub-mul m n k = mul_comm (m - n) k ∙ mul-sub k m n ∙ omega arith

difference-IsCeil :
    (info : TokenFeeInfo) (prepaid refund : ℕ)
    → Fits info prepaid
    → IsCeil info.price_ratio
        (prepaid * info.scale - refund * info.scale)
        (eth_to_token_amount info (prepaid - refund))
        (eth_to_token_amount_with_credit info (prepaid - refund)).1
unfolding eth_to_token_amount
difference-IsCeil info prepaid refund f =
    subst
      (λ s.
        IsCeil info.price_ratio s (eth_to_token_amount info (prepaid - refund))
          (eth_to_token_amount_with_credit info (prepaid - refund)).1)
      (sub-mul prepaid refund info.scale)
      (with_credit-IsCeil info (prepaid - refund) (Fits-mono info _ prepaid (omega arith) f))

-- Giving back the amount `r` and the credit, rounded down, leaves the rounding up of the difference.
give_back-IsCeil :
    (p s r a c : ℕ)
    → IsCeil p s a c
    → r ≤ s
    → ((r + c) / p ≤ a) × IsCeil p (s - r) (a - (r + c) / p) ((r + c) % p)
give_back-IsCeil p s r a c f h =
    let pos : 0 < p = ground arith in
    let back : (r + c) / p * p + (r + c) % p ≡ r + c = div-add-mod' (r + c) p in
    let fits : (r + c) / p ≤ a = le_of_worth p _ a (ground arith) in
    (
      fits,
      record {
        worth = omega (arith, sub-mul a ((r + c) / p) p, mul-le-mul_right p fits);
        least = mod-lt (r + c) pos;
      },
    )

-- For a usable token, `prepaid` wei whose scaled value with one price ratio more fits a U256, and
-- `refund` wei of at most those: the refund in tokens, rounded down with the credit of the charge as
-- from Celadon on, is at most the charge, and the two differ by exactly the token amount of the
-- difference in wei, rounded up.
pub eth_to_token_amount_floor-net :
    (info : TokenFeeInfo) (prepaid refund : ℕ)
    → Fits info prepaid
    → refund ≤ prepaid
    → let charged = eth_to_token_amount_with_credit info prepaid in
      let returned = eth_to_token_amount_floor info refund charged.1 in
      (returned ≤ charged.0) × (charged.0 - returned ≡ eth_to_token_amount info (prepaid - refund))
unfolding eth_to_token_amount
eth_to_token_amount_floor-net info prepaid refund f h =
    let c = with_credit-IsCeil info prepaid f in
    let scaled : refund * info.scale ≤ prepaid * info.scale = mul-le-mul_right info.scale h in
    let given = give_back-IsCeil _ _ (refund * info.scale) _ _ c scaled in
    rw (floor-eq info refund _ (Fits-mono info refund prepaid h f) c.least)
      (given.0, IsCeil-unique _ _ _ _ _ _ given.1 (difference-IsCeil info prepaid refund f))

net-bounds :
    (p s r a b e c d g : ℕ)
    → IsCeil p s a c
    → IsCeil p r b d
    → IsCeil p (s - r) e g
    → r ≤ s
    → (b ≤ a) × (a - b ≤ e) × (e ≤ a - b + 1)
net-bounds p s r a b e c d g x y z h =
    let le : b ≤ a = le_of_worth p b a (ground arith) in
    let upper : a ≤ e + b = le_of_worth p a (e + b) (ground arith) in
    let lower : e + b ≤ a + 1 = le_of_worth p (e + b) (a + 1) (ground arith) in
    (le, omega arith, omega arith)

-- For a usable token, `prepaid` wei whose scaled value with one price ratio more fits a U256, and
-- `refund` wei of at most those, with both amounts rounded up as before Celadon: the refund in tokens is
-- at most the charge, and the charge less the refund is at most the token amount of the difference in
-- wei, and at most one token unit less than it.
pub eth_to_token_amount-net :
    (info : TokenFeeInfo) (prepaid refund : ℕ)
    → Fits info prepaid
    → refund ≤ prepaid
    → let charged = eth_to_token_amount info prepaid in
      let returned = eth_to_token_amount info refund in
      let exact = eth_to_token_amount info (prepaid - refund) in
      (returned ≤ charged) × (charged - returned ≤ exact) × (exact ≤ charged - returned + 1)
unfolding eth_to_token_amount
eth_to_token_amount-net info prepaid refund f h =
    net-bounds _ _ _ _ _ _ _ _ _ (with_credit-IsCeil info prepaid f)
      (with_credit-IsCeil info refund (Fits-mono info refund prepaid h f))
      (difference-IsCeil info prepaid refund f) (mul-le-mul_right info.scale h)
