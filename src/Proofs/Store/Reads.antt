-- ===== src/Proofs/Store/Reads.antt =====
-- The reads of crates/proofs/src/db/cursor.rs as of a block, on the versions of one key.
use morph_reth.Common.{
  ℕ, ◌+◌, ◌≤◌, ◌<◌, ◌≡◌, refl, inl, inr, true, false, Option, none, some, List, [], ◌∷◌, ◌++◌, ◌==◌,
  leb, ltb, if◌then◌else◌, or_else, get_last?, Bool-cases, ⊤, arith, All,
}
use morph_reth.Proofs.Tables.{VersionedValue, without_version}
use morph_reth.Proofs.Cursor.{seek_by_key_subkey, prev_dup, version_from, latest_version_for_key}

-- The last of the versions at or before a block.
abbrev pub latest_at : ℕ → List VersionedValue → Option VersionedValue
latest_at n [] = none
latest_at n (v ∷ vs) = or_else (latest_at n vs) (if leb v.block_number n then some v else none)

-- The blocks of the versions strictly ascend, from `lo` on.
abbrev pub AscendingFrom : ℕ → List VersionedValue → Type 0
AscendingFrom lo [] = ⊤
AscendingFrom lo (v ∷ vs) = (lo ≤ v.block_number) × AscendingFrom (v.block_number + 1) vs

pub AscendingFrom-mono :
    (lo lo' : ℕ) (vs : List VersionedValue) → lo' ≤ lo → AscendingFrom lo vs → AscendingFrom lo' vs
AscendingFrom-mono lo lo' [] h s = tt
AscendingFrom-mono lo lo' (v ∷ vs) h s = (omega arith, s.1)

pub latest_at_before :
    (n lo : ℕ) (vs : List VersionedValue) → AscendingFrom lo vs → n < lo → latest_at n vs ≡ none
latest_at_before n lo [] s h = refl
latest_at_before n lo (v ∷ vs) s h =
    rw (latest_at_before n (v.block_number + 1) vs s.1 (omega arith)) (ground arith)

pub or_else-none : {A : Type 0} (o : Option A) → or_else o none ≡ o
or_else-none none = refl
or_else-none (some a) = refl

get_last?-is_some : {A : Type 0} (a : A) (l : List A) → (x : A) × (get_last? (a ∷ l) ≡ some x)
get_last?-is_some a [] = (a, refl)
get_last?-is_some a (b ∷ l) = get_last?-is_some b l

get_last?_cons :
    {A : Type 0} (a : A) (l : List A) → get_last? (a ∷ l) ≡ or_else (get_last? l) (some a)
get_last?_cons a [] = refl
get_last?_cons a (b ∷ l) = let last = get_last?-is_some b l in rw last.1

-- `version_from` with a version known to come before the list.
abbrev after_seek :
    Option VersionedValue → Option VersionedValue → List VersionedValue → ℕ → Option VersionedValue
after_seek before none vs n = or_else (get_last? vs) before
after_seek before (some found) vs n =
    if ltb n found.block_number then prev_dup before vs n else some found

or_else_found :
    {A : Type 0} (o : Option A) (a : A) (b : Option A)
    → or_else (or_else o (some a)) b ≡ or_else o (some a)
or_else_found none a b = refl
or_else_found (some c) a b = refl

after_seek_later :
    (n : ℕ) (before o : Option VersionedValue) (v : VersionedValue) (vs : List VersionedValue)
    → leb n v.block_number ≡ false
    → after_seek before o (v ∷ vs) n ≡ after_seek (some v) o vs n
unfolding prev_dup
after_seek_later n before none v vs h =
    rw (get_last?_cons v vs) (or_else_found (get_last? vs) v before)
after_seek_later n before (some found) v vs h = rw h

after_seek_lem :
    (lo n : ℕ) (before : Option VersionedValue) (vs : List VersionedValue)
    → AscendingFrom lo vs
    → after_seek before (seek_by_key_subkey vs n) vs n ≡ or_else (latest_at n vs) before
unfolding seek_by_key_subkey prev_dup
after_seek_lem lo n before [] s = refl
after_seek_lem lo n before (v ∷ vs) s = elim (Bool-cases (leb n v.block_number)) [
  | inl h ↦
      let none_later : latest_at n vs ≡ none =
        latest_at_before n (v.block_number + 1) vs s.1 (ground arith) in
      rw none_later (ground arith)
  | inr h ↦
      let rest = after_seek_lem (v.block_number + 1) n (some v) vs s.1 in
      let here : leb v.block_number n ≡ true = ground arith in
      rw
        (
          h,
          here,
          or_else_found (latest_at n vs) v before,
          after_seek_later n before (seek_by_key_subkey vs n) v vs h,
        )
        rest
]

version_from-after_seek :
    (n : ℕ) (o : Option VersionedValue) (vs : List VersionedValue)
    → version_from o vs n ≡ after_seek none o vs n
unfolding version_from
version_from-after_seek n none vs = rw (or_else-none (get_last? vs))
version_from-after_seek n (some found) vs = refl

-- On versions whose blocks ascend, the seek of the cursor finds the last version at or before the block.
pub latest_version_for_key_lem :
    (lo n : ℕ) (vs : List VersionedValue)
    → AscendingFrom lo vs
    → latest_version_for_key vs n ≡ latest_at n vs
unfolding latest_version_for_key
latest_version_for_key_lem lo n vs s =
    rw (version_from-after_seek n (seek_by_key_subkey vs n) vs, after_seek_lem lo n none vs s)
      (or_else-none (latest_at n vs))

pub latest_at-without_version :
    (n b : ℕ) (vs : List VersionedValue)
    → n < b
    → latest_at n (without_version b vs) ≡ latest_at n vs
latest_at-without_version n b [] h = refl
latest_at-without_version n b (v ∷ vs) h =
    let rest = latest_at-without_version n b vs h in
    elim (Bool-cases (v.block_number == b)) [
      | inl e ↦
          let after : leb v.block_number n ≡ false = ground arith in
          rw (e, after, rest, or_else-none (latest_at n vs))
      | inr e ↦ rw (e, rest)
    ]

pub latest_at-append :
    (n : ℕ) (v : VersionedValue) (vs : List VersionedValue)
    → latest_at n (vs ++ (v ∷ []))
      ≡ or_else (if leb v.block_number n then some v else none) (latest_at n vs)
latest_at-append n v [] = rw (or_else-none (if leb v.block_number n then some v else none))
latest_at-append n v (w ∷ vs) =
    rw (latest_at-append n v vs)
      (elim (Bool-cases (leb v.block_number n)) [ inl h ↦ rw h | inr h ↦ rw h ])

pub AscendingFrom-without_version :
    (lo b : ℕ) (vs : List VersionedValue)
    → AscendingFrom lo vs
    → AscendingFrom lo (without_version b vs)
AscendingFrom-without_version lo b [] s = tt
AscendingFrom-without_version lo b (v ∷ vs) s =
    let rest = AscendingFrom-without_version (v.block_number + 1) b vs s.1 in
    elim (Bool-cases (v.block_number == b)) [
      | inl e ↦ rw e (
          AscendingFrom-mono (v.block_number + 1) lo (without_version b vs) (omega (arith, s.0))
            rest)
      | inr e ↦ rw e (s.0, rest)
    ]

pub AscendingFrom-append :
    (lo : ℕ) (v : VersionedValue) (vs : List VersionedValue)
    → lo ≤ v.block_number
    → AscendingFrom lo vs
    → All (λ w. w.block_number < v.block_number) vs
    → AscendingFrom lo (vs ++ (v ∷ []))
AscendingFrom-append lo v [] h s below = (h, tt)
AscendingFrom-append lo v (w ∷ vs) h s below =
    (s.0, AscendingFrom-append (w.block_number + 1) v vs (omega (arith, below.0)) s.1 below.1)
