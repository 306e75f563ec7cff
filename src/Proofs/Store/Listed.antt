-- ===== src/Proofs/Store/Listed.antt =====
-- What crates/proofs/src/db/store.rs keeps true of its tables, and the rows that its change sets list.
use morph_reth.Common.{
  ℕ, ◌≤◌, ◌<◌, ◌≡◌, refl, sym, ap, subst, ◌∙◌, inl, inr, Bool, true, false, ◌&&◌, ◌||◌, Option,
  none, some, List, [], ◌∷◌, ◌++◌, ◌==◌, leb, Bool-cases, ==_iff, arith, All, map,
}
use morph_reth.Proofs.Api.{BlockNumHash}
use morph_reth.Proofs.Tables.{
  TableName, Key, same_key, VersionedValue, Change, without_change, Database, IsDatabase,
}
use morph_reth.Proofs.Store.{Tables}
use morph_reth.Proofs.Store.Delete.{in_range, walk_range, collect_history, delete_changes}
use morph_reth.Proofs.Store.Rows.{IsSorted, listed, unlisted}

abbrev pub has_version : ℕ → List VersionedValue → Bool
has_version b [] = false
has_version b (v ∷ vs) = v.block_number == b || has_version b vs

-- Every version after a block is listed in a change set.
abbrev pub AllListed : (t : TableName) → Key t → ℕ → List (Key t × ℕ) → List VersionedValue → Type 0
AllListed t k earliest items vs =
    All (λ v. earliest < v.block_number → listed t k v.block_number items ≡ true) vs

-- The tables are in order: the versions of a key ascend, the change sets are of blocks after the
-- earliest, and they list the versions at those blocks and no others.
pub record IsStore (db : Database) (s : Tables db) : Type 0 where
  pub sorted : (t : TableName) → IsSorted db t (s.history t)
  pub all_listed :
      (e : BlockNumHash)
      → s.earliest_block ≡ some e
      → (t : TableName) (k : Key t)
      → AllListed t k e.0
          (collect_history t (db.changes s.block_change_set))
          (db.versions t (s.history t) k)
  pub has_listed :
      (t : TableName) (k : Key t) (b : ℕ)
      → listed t k b (collect_history t (db.changes s.block_change_set)) ≡ true
      → has_version b (db.versions t (s.history t) k) ≡ true
  pub after_earliest :
      (e : BlockNumHash)
      → s.earliest_block ≡ some e
      → All (λ (row : Change). e.0 < row.0) (db.changes s.block_change_set)

pub listed_append :
    (t : TableName) (k : Key t) (b : ℕ) (xs ys : List (Key t × ℕ))
    → listed t k b (xs ++ ys) ≡ listed t k b xs || listed t k b ys
listed_append t k b [] ys = refl
listed_append t k b ((k', b') ∷ xs) ys =
    let rest = listed_append t k b xs ys in
    elim (Bool-cases (same_key t k k' && b == b')) [ inl h ↦ rw h | inr h ↦ rw (h, rest) ]

-- The items of one change set are at its block.
listed-map_other :
    (t : TableName) (k : Key t) (b b' : ℕ) (ks : List (Key t))
    → (b == b') ≡ false
    → listed t k b (map (λ k. (k, b')) ks) ≡ false
listed-map_other t k b b' [] h = refl
listed-map_other t k b b' (k' ∷ ks) h =
    let rest = listed-map_other t k b b' ks h in
    elim (Bool-cases (same_key t k k')) [ inl e ↦ rw (e, h, rest) | inr e ↦ rw (e, rest) ]

-- A walk from a block on meets all that is listed at a later block.
pub listed-walk_range :
    (t : TableName) (k : Key t) (b from : ℕ) (rows : List Change)
    → from ≤ b
    → listed t k b (collect_history t (walk_range from none rows))
      ≡ listed t k b (collect_history t rows)
unfolding walk_range in_range collect_history
listed-walk_range t k b from [] h = refl
listed-walk_range t k b from ((b', c) ∷ rows) h =
    let rest = listed-walk_range t k b from rows h in
    elim (Bool-cases (leb from b')) [
      | inl e ↦
          rw
            (e, listed_append t k b (map (λ k. (k, b')) (c t)) (collect_history t rows), (sym rest))
            (listed_append t k b (map (λ k. (k, b')) (c t)) _)
      | inr e ↦
          rw
            (
              e,
              listed_append t k b (map (λ k. (k, b')) (c t)) (collect_history t rows),
              listed-map_other t k b b' (c t) (ground arith),
            )
            rest
    ]

pub All-append :
    {A : Type 0} (P : A → Type 0) (xs ys : List A) → All P xs → All P ys → All P (xs ++ ys)
All-append P [] ys p q = q
All-append P (x ∷ xs) ys p q = (p.0, All-append P xs ys p.1 q)

collect_map_after :
    (t : TableName) (n b : ℕ) (ks : List (Key t))
    → n < b
    → All (λ (i : Key t × ℕ). n < i.1) (map (λ k. (k, b)) ks)
collect_map_after t n b [] h = tt
collect_map_after t n b (k ∷ ks) h = (h, collect_map_after t n b ks h)

pub collect_history_after :
    (t : TableName) (n from : ℕ) (rows : List Change)
    → n < from
    → All (λ (i : Key t × ℕ). n < i.1) (collect_history t (walk_range from none rows))
unfolding walk_range in_range collect_history
collect_history_after t n from [] h = tt
collect_history_after t n from ((b, c) ∷ rows) h =
    let rest = collect_history_after t n from rows h in
    elim (Bool-cases (leb from b)) [
      | inl e ↦ rw e (
          All-append (λ (i : Key t × ℕ). n < i.1) _ _ (collect_map_after t n b (c t) (ground arith))
            rest)
      | inr e ↦ rw e rest
    ]

listed-without_change :
    (t : TableName) (k : Key t) (b b' : ℕ) (rows : List Change)
    → (b == b') ≡ false
    → listed t k b (collect_history t (without_change b' rows))
      ≡ listed t k b (collect_history t rows)
unfolding collect_history
listed-without_change t k b b' [] h = refl
listed-without_change t k b b' ((b'', c) ∷ rows) h =
    let rest = listed-without_change t k b b' rows h in
    let here = listed_append t k b (map (λ k. (k, b'')) (c t)) in
    elim (Bool-cases (b'' == b')) [
      | inl e ↦
          let other : (b == b'') ≡ false = ground arith in
          rw (e, here (collect_history t rows), listed-map_other t k b b'' (c t) other) rest
      | inr e ↦ rw (
        e,
        here (collect_history t rows),
        here (collect_history t (without_change b' rows)),
        rest,
      )
    ]

module _ (db : Database) (laws : IsDatabase db) where
  -- Change sets that are deleted list nothing at other blocks.
  pub listed-delete_changes :
      (t : TableName) (k : Key t) (b : ℕ) (rows : List Change) (cs : db.ChangeSets)
      → All (λ (row : Change). (b == row.0) ≡ false) rows
      → listed t k b (collect_history t (db.changes (delete_changes db rows cs)))
        ≡ listed t k b (collect_history t (db.changes cs))
  unfolding delete_changes
  listed-delete_changes t k b [] cs h = refl
  listed-delete_changes t k b (row ∷ rows) cs h =
      rw
        (
          listed-delete_changes t k b rows (db.delete_change cs row.0) h.1,
          laws.delete_change_changes cs row.0,
        )
        (listed-without_change t k b row.0 (db.changes cs) h.0)

in_range_other :
    (b b' from : ℕ) (to : Option ℕ)
    → in_range from to b ≡ false
    → in_range from to b' ≡ true
    → (b == b') ≡ false
unfolding in_range
in_range_other b b' from none h e = ground arith
in_range_other b b' from (some to) h e = ground arith

pub walk_range_other :
    (b from : ℕ) (to : Option ℕ) (rows : List Change)
    → in_range from to b ≡ false
    → All (λ (row : Change). (b == row.0) ≡ false) (walk_range from to rows)
unfolding walk_range
walk_range_other b from to [] h = tt
walk_range_other b from to (row ∷ rows) h =
    let rest = walk_range_other b from to rows h in
    elim (Bool-cases (in_range from to row.0)) [
      | inl e ↦ rw e (in_range_other b row.0 from to h e, rest)
      | inr e ↦ rw e rest
    ]

pub All-unlisted :
    (P : VersionedValue → Type 0) (t : TableName) (k : Key t) (items : List (Key t × ℕ))
    (vs : List VersionedValue)
    → All P vs
    → All P (unlisted t k items vs)
All-unlisted P t k items [] a = tt
All-unlisted P t k items (v ∷ vs) a =
    let rest = All-unlisted P t k items vs a.1 in
    elim (Bool-cases (listed t k v.block_number items)) [
      | inl h ↦ rw h rest
      | inr h ↦ rw h (a.0, rest)
    ]

-- Versions that are listed stay so when the lists agree at their blocks.
pub AllListed-collect_history :
    (t : TableName) (k : Key t) (earliest earliest' : ℕ) (Q : ℕ → Type 0)
    (all all' : List (Key t × ℕ)) (vs : List VersionedValue)
    → AllListed t k earliest all vs
    → All (λ v. Q v.block_number) vs
    → earliest ≤ earliest'
    → ((b : ℕ) → Q b → earliest' < b → listed t k b all' ≡ listed t k b all)
    → AllListed t k earliest' all' vs
AllListed-collect_history t k earliest earliest' Q all all' [] a q lo same = tt
AllListed-collect_history t k earliest earliest' Q all all' (v ∷ vs) a q lo same = (
  λ h. same v.block_number q.0 h ∙ a.0 (omega arith),
  AllListed-collect_history t k earliest earliest' Q all all' vs a.1 q.1 lo same,
)

All-without_change :
    (P : Change → Type 0) (b : ℕ) (rows : List Change) → All P rows → All P (without_change b rows)
All-without_change P b [] a = tt
All-without_change P b (row ∷ rows) a =
    let rest = All-without_change P b rows a.1 in
    elim (Bool-cases (row.0 == b)) [ inl h ↦ rw h rest | inr h ↦ rw h (a.0, rest) ]

pub All-delete_changes :
    (P : Change → Type 0) (db : Database)
    → IsDatabase db
    → (rows : List Change) (cs : db.ChangeSets) → All P (db.changes cs)
    → All P (db.changes (delete_changes db rows cs))
unfolding delete_changes
All-delete_changes P db laws [] cs a = a
All-delete_changes P db laws (row ∷ rows) cs a =
    All-delete_changes P db laws rows (db.delete_change cs row.0)
      (rw (laws.delete_change_changes cs row.0) (All-without_change P row.0 (db.changes cs) a))

pub listed_within :
    (t : TableName) (k : Key t) (b : ℕ) (Q : ℕ → Type 0) (rows : List Change)
    → All (λ (row : Change). Q row.0) rows
    → listed t k b (collect_history t rows) ≡ true
    → Q b
unfolding collect_history
listed_within t k b Q [] a h = cc
listed_within t k b Q ((b', c) ∷ rows) a h = elim (Bool-cases (b == b')) [
  | inl e ↦ subst Q (sym ((==_iff b b').0 e)) a.0
  | inr e ↦ listed_within t k b Q rows a.1 (
      rw
        (
          listed_append t k b (map (λ k. (k, b')) (c t)) (collect_history t rows),
          listed-map_other t k b b' (c t) e,
        )
        at h)
]

pub has_version-unlisted :
    (t : TableName) (k : Key t) (b : ℕ) (items : List (Key t × ℕ)) (vs : List VersionedValue)
    → listed t k b items ≡ false
    → has_version b (unlisted t k items vs) ≡ has_version b vs
has_version-unlisted t k b items [] h = refl
has_version-unlisted t k b items (v ∷ vs) h =
    let rest = has_version-unlisted t k b items vs h in
    elim (Bool-cases (listed t k v.block_number items)) [
      | inl e ↦
          let other : (v.block_number == b) ≡ false = elim (Bool-cases (v.block_number == b)) [
            | inl same ↦
                let at = ap (λ z. listed t k z items) ((==_iff v.block_number b).0 same) in cc
            | inr d ↦ d
          ] in
          rw (e, other) rest
      | inr e ↦ rw (e, rest)
    ]
