-- ===== src/Queue/Selection.antt =====
-- What `claim` selects is claimable, is the first of the claimable jobs in the order of creation, and
-- is found under its own identifier.
use sisyphus_harness.Prelude.{
  ◌≡◌, refl, ◌⊎◌, inl, inr, true, false, Option, none, some, List, [], ◌∷◌, arith, eq_iff, eq_refl,
  All, Bool-cases,
}
use mathlib.Core.Path.{subst}
use sisyphus_harness.Prelude.Float.{Float}
use sisyphus_harness.Prelude.Text.{text_le_total, text_le_trans, text_le_antisymm}
use sisyphus_harness.Database.{JobRow}
use sisyphus_harness.Database.Rows.{lookup, Unique}
use sisyphus_harness.Queue.{job_key, select_job}
use sisyphus_harness.Queue.Order.{claimable, row_le, first_of_two, first_claimable}

module _ (current : Float) where
  pub first_claimable-claimable :
      (rows : List JobRow) (c : JobRow)
      → first_claimable current rows ≡ some c
      → claimable current c ≡ true
  unfolding first_claimable
  first_claimable-claimable [] c h = cc
  first_claimable-claimable (r ∷ rows) c h = ground (arith, first_claimable-claimable rows c)

  pub lookup-first_claimable :
      (rows : List JobRow) (c : JobRow)
      → Unique job_key rows
      → first_claimable current rows ≡ some c
      → select_job c.job_id rows ≡ some c
  unfolding first_claimable lookup
  lookup-first_claimable [] c u h = cc
  lookup-first_claimable (r ∷ rows) c u h =
      ground (arith, eq_iff r.job_id c.job_id, eq_refl c.job_id, lookup-first_claimable rows c u.1)

row_le_total : (r s : JobRow) → row_le r s ≡ false → row_le s r ≡ true
row_le_total r s h = ground (
  arith,
  eq_iff r.created_at s.created_at,
  eq_iff s.created_at r.created_at,
  text_le_total r.job_id s.job_id,
  text_le_total r.created_at s.created_at,
)

row_le_refl : (r : JobRow) → row_le r r ≡ true
row_le_refl r = ground (arith, eq_refl r.created_at, text_le_total r.job_id r.job_id)

row_le_trans : (r s u : JobRow) → row_le r s ≡ true → row_le s u ≡ true → row_le r u ≡ true
row_le_trans r s u h k = ground (
  arith,
  eq_iff r.created_at s.created_at,
  eq_iff s.created_at u.created_at,
  eq_iff r.created_at u.created_at,
  text_le_antisymm r.created_at s.created_at,
  text_le_trans r.created_at s.created_at u.created_at,
  text_le_trans r.job_id s.job_id u.job_id,
)

abbrev pub Before : Float → JobRow → JobRow → Type 0
Before current c r = (claimable current r ≡ false) ⊎ (row_le c r ≡ true)

Before-All :
    (current : Float) (b c : JobRow)
    → row_le b c ≡ true
    → (rows : List JobRow) → All (Before current c) rows
    → All (Before current b) rows
Before-All current b c le [] h = tt
Before-All current b c le (r ∷ rows) h = (
  elim h.0 [ inl out ↦ inl out | inr before ↦ inr (row_le_trans b c r le before) ],
  Before-All current b c le rows h.1,
)

nothing-Before :
    (current : Float) (c : JobRow) (rows : List JobRow)
    → first_claimable current rows ≡ none
    → All (Before current c) rows
unfolding first_claimable
nothing-Before current c [] h = tt
nothing-Before current c (r ∷ rows) h =
    (inl (ground arith), nothing-Before current c rows (ground arith))

-- Of a claimable job and the first of the others, the one in front is before all.
first_of_two-Before :
    (current : Float) (r : JobRow) (rows : List JobRow) (o : Option JobRow)
    → ((m : JobRow) → o ≡ some m → All (Before current m) rows)
    → (o ≡ none → (c : JobRow) → All (Before current c) rows)
    → (c : JobRow) → first_of_two r o ≡ some c
    → All (Before current c) (r ∷ rows)
first_of_two-Before current r rows none ih empty c h =
    let same : r ≡ c = ground arith in
    subst (λ x. All (Before current x) (r ∷ rows)) same (inr (row_le_refl r), empty refl r)
first_of_two-Before current r rows (some m) ih empty c h = elim (Bool-cases (row_le r m)) [
  | inl le ↦
      let same : r ≡ c = ground arith in
      subst (λ x. All (Before current x) (r ∷ rows)) same
        (inr (row_le_refl r), Before-All current r m le rows (ih m refl))
  | inr gt ↦
      let same : m ≡ c = ground arith in
      subst (λ x. All (Before current x) (r ∷ rows)) same (inr (row_le_total r m gt), ih m refl)
]

pub first_claimable_first :
    (current : Float) (rows : List JobRow) (c : JobRow)
    → first_claimable current rows ≡ some c
    → All (Before current c) rows
unfolding first_claimable
first_claimable_first current [] c h = tt
first_claimable_first current (r ∷ rows) c h = elim (Bool-cases (claimable current r)) [
  | inl can ↦
      first_of_two-Before current r rows (first_claimable current rows)
        (λ m. first_claimable_first current rows m) (λ e c. nothing-Before current c rows e) c
        (rw can at h)
  | inr cannot ↦ (inl cannot, first_claimable_first current rows c (rw cannot at h))
]

pub first_claimable-eq-none :
    (current : Float) (rows : List JobRow)
    → first_claimable current rows ≡ none
    → All (λ r. claimable current r ≡ false) rows
unfolding first_claimable
first_claimable-eq-none current [] h = tt
first_claimable-eq-none current (r ∷ rows) h =
    (ground arith, first_claimable-eq-none current rows (ground arith))
