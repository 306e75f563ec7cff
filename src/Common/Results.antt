-- ===== src/Common/Results.antt =====
-- Rust's `Result`, with the error type first so that a `do` block fixes it.
use mathlib.Core.Path.{◌≡◌, refl, subst}
use mathlib.Core.Bool.{Bool, true, false}
use mathlib.Core.Option.{Option, none, some}

pub data Result {ℓ κ} (E : Type ℓ) (A : Type κ) : Type (ℓ ⊔ κ) where
  ok : A → Result E A
  err : E → Result E A

infixl 5 ◌>>=◌ ◌>>◌
-- the operator `?` and what follows it
abbrev pub ◌>>=◌ {ℓ κ μ} :
    {E : Type ℓ} {A : Type κ} {B : Type μ} → Result E A → (A → Result E B) → Result E B
ok a >>= f = f a
err e >>= f = err e

abbrev pub ◌>>◌ {ℓ κ μ} :
    {E : Type ℓ} {A : Type κ} {B : Type μ} → Result E A → Result E B → Result E B
m >> k = m >>= λ _. k

module _ {ℓ} {E : Type ℓ} where
  -- `if b { return Err(e); }`
  abbrev pub fail_if : Bool → E → Result E (Unit {0})
  fail_if true e = err e
  fail_if false e = ok tt

module _ {ℓ κ} {E : Type ℓ} {A : Type κ} where
  -- `Option::ok_or`
  abbrev pub ok_or : Option A → E → Result E A
  ok_or none e = err e
  ok_or (some a) e = ok a

  abbrev pub is_err : Result E A → Bool
  is_err (ok a) = false
  is_err (err e) = true

  -- `Result::map_err`
  abbrev pub map_err {μ} : {F : Type μ} → (E → F) → Result E A → Result F A
  map_err f (ok a) = ok a
  map_err f (err e) = err (f e)

module _ {ℓ κ μ} {Failure : Type ℓ} {First : Type κ} {Last : Type μ} where
  -- A chain that succeeds had a first step that succeeded.
  pub split_ok :
      (first : Result Failure First) (next : First → Result Failure Last) {last : Last}
      → (first >>= next) ≡ ok last
      → (x : First) × (first ≡ ok x) × (next x ≡ ok last)
  split_ok (err e) next h = cc
  split_ok (ok x) next h = (x, refl, h)

module _ {ℓ κ μ} {E : Type ℓ} {A : Type κ} (P : A → Type μ) {a b : A} where
  -- What holds of the value of a success.
  pub subst_ok : ◌≡◌ {A = Result E A} (ok a) (ok b) → P a → P b
  subst_ok h p = let same : a ≡ b = cc in subst P same p
