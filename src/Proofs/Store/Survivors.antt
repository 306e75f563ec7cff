-- ===== src/Proofs/Store/Survivors.antt =====
-- The versions of a key after `prune_history_preceding` of crates/proofs/src/db/store.rs.
use morph_reth.Common.{
  ℕ, ◌+◌, ◌≤◌, ◌<◌, ◌≡◌, refl, sym, inl, inr, true, false, not, ◌&&◌, Option, none, some, List, [],
  ◌∷◌, ◌==◌, leb, if◌then◌else◌, is_some, or_else, Bool-cases, Option-cases, arith, All,
}
use morph_reth.Proofs.Tables.{VersionedValue, without_version}
use morph_reth.Proofs.Cursor.{live_value}
use morph_reth.Proofs.Store.Reads.{latest_at, AscendingFrom, AscendingFrom-mono}
use morph_reth.Proofs.Store.Rows.{AscendingFrom-ClimbsFrom, without_version_above}
use morph_reth.Proofs.Store.Listed.{has_version}

-- The versions that the pruning of one key leaves.
abbrev pub prune_versions : ℕ → List VersionedValue → List VersionedValue
prune_versions survivor [] = []
prune_versions survivor (v ∷ vs) =
    if leb survivor v.block_number
    then (if v.block_number == survivor && not (is_some v.value) then vs else v ∷ vs)
    else prune_versions survivor vs

pub without_first :
    (v : VersionedValue) (vs : List VersionedValue)
    → AscendingFrom (v.block_number + 1) vs
    → without_version v.block_number (v ∷ vs) ≡ vs
without_first v vs s =
    let same : (v.block_number == v.block_number) ≡ true = ground arith in
    rw (
      same,
      without_version_above v.block_number (v.block_number + 1) vs
          (AscendingFrom-ClimbsFrom (v.block_number + 1) vs s) (omega arith),
    )

latest_at-is_some :
    (n b : ℕ) (vs : List VersionedValue)
    → b ≤ n
    → has_version b vs ≡ true
    → (v : VersionedValue) × (latest_at n vs ≡ some v)
latest_at-is_some n b [] h e = cc
latest_at-is_some n b (v ∷ vs) h e = elim (Option-cases (latest_at n vs)) [
  | inr l ↦ (l.0, rw l.1)
  | inl l ↦ elim (Bool-cases (v.block_number == b)) [
    | inl same ↦ let here : leb v.block_number n ≡ true = ground arith in (v, rw (l, here))
    | inr other ↦ let later = latest_at-is_some n b vs h (rw other at e) in (later.0, cc)
  ]
]

tombstone_or :
    (o : Option VersionedValue) (v : VersionedValue)
    → is_some v.value ≡ false
    → live_value o ≡ live_value (or_else o (some v))
tombstone_or none v h = elim (Option-cases v.value) [
  | inl e ↦ sym e
  | inr e ↦ let present = rw e.1 at h in cc
]
tombstone_or (some w) v h = refl

-- Reads as of the survivor's block or later are the same.
pub prune_versions-live_value :
    (n survivor : ℕ) (vs : List VersionedValue)
    → survivor ≤ n
    → has_version survivor vs ≡ true
    → live_value (latest_at n (prune_versions survivor vs)) ≡ live_value (latest_at n vs)
prune_versions-live_value n survivor [] h e = refl
prune_versions-live_value n survivor (v ∷ vs) h e =
    elim (Bool-cases (leb survivor v.block_number)) [
      | inl reached ↦ elim (Bool-cases (v.block_number == survivor && not (is_some v.value))) [
        | inl tombstone ↦
            let here : leb v.block_number n ≡ true = ground arith in
            let deleted : is_some v.value ≡ false = ground arith in
            rw (reached, tombstone, here) (tombstone_or (latest_at n vs) v deleted)
        | inr kept ↦ rw (reached, kept)
      ]
      | inr before ↦
          let other : (v.block_number == survivor) ≡ false = ground arith in
          let later : has_version survivor vs ≡ true = rw other at e in
          let found = latest_at-is_some n survivor vs h later in
          rw (before, prune_versions-live_value n survivor vs h later, found.1)
    ]

pub AscendingFrom-prune_versions :
    (lo survivor : ℕ) (vs : List VersionedValue)
    → AscendingFrom lo vs
    → AscendingFrom lo (prune_versions survivor vs)
AscendingFrom-prune_versions lo survivor [] s = tt
AscendingFrom-prune_versions lo survivor (v ∷ vs) s =
    let later = AscendingFrom-mono (v.block_number + 1) lo in
    elim (Bool-cases (leb survivor v.block_number)) [
      | inl reached ↦ elim (Bool-cases (v.block_number == survivor && not (is_some v.value))) [
        | inl tombstone ↦ rw (reached, tombstone) (later vs (omega (arith, s.0)) s.1)
        | inr kept ↦ rw (reached, kept) s
      ]
      | inr before ↦ rw before (
          later (prune_versions survivor vs) (omega (arith, s.0))
            (AscendingFrom-prune_versions (v.block_number + 1) survivor vs s.1))
    ]

pub All-prune_versions :
    (P : VersionedValue → Type 0) (survivor : ℕ) (vs : List VersionedValue)
    → All P vs
    → All P (prune_versions survivor vs)
All-prune_versions P survivor [] a = tt
All-prune_versions P survivor (v ∷ vs) a = elim (Bool-cases (leb survivor v.block_number)) [
  | inl reached ↦ elim (Bool-cases (v.block_number == survivor && not (is_some v.value))) [
    | inl tombstone ↦ rw (reached, tombstone) a.1
    | inr kept ↦ rw (reached, kept) a
  ]
  | inr before ↦ rw before (All-prune_versions P survivor vs a.1)
]

pub has_version-prune_versions :
    (b survivor : ℕ) (vs : List VersionedValue)
    → survivor < b
    → has_version b vs ≡ true
    → has_version b (prune_versions survivor vs) ≡ true
has_version-prune_versions b survivor [] h e = e
has_version-prune_versions b survivor (v ∷ vs) h e =
    elim (Bool-cases (leb survivor v.block_number)) [
      | inl reached ↦ elim (Bool-cases (v.block_number == survivor && not (is_some v.value))) [
        | inl tombstone ↦
            let other : (v.block_number == b) ≡ false = ground arith in
            rw (reached, tombstone) (rw other at e)
        | inr kept ↦ rw (reached, kept) e
      ]
      | inr before ↦
          let other : (v.block_number == b) ≡ false = ground arith in
          rw before (has_version-prune_versions b survivor vs h (rw other at e))
    ]
