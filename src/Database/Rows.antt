-- ===== src/Database/Rows.antt =====
-- Tables as lists of rows with a text key: what SELECT by key, UPDATE and INSERT do to a lookup.
use mathlib.Core.Option
use mathlib.Core.Path.{subst}
use sisyphus_harness.Prelude.{
  ℕ, String, ◌≡◌, refl, Bool, true, ◌&&◌, Option, none, some, List, [], ◌∷◌, ◌++◌, arith, ◌==◌,
  eq_iff, if◌then◌else◌, find, count_if, All, Bool-cases, inl, inr,
}

-- What UPDATE … SET f WHERE p does to one row.
abbrev pub set_where {ℓ} : {R : Type ℓ} → (R → Bool) → (R → R) → R → R
set_where p f r = if p r then f r else r

abbrev pub update {ℓ} : {R : Type ℓ} → (R → Bool) → (R → R) → List R → List R
update p f [] = []
update p f (r ∷ rows) = set_where p f r ∷ update p f rows

-- The row that a key selects, if any.
abbrev pub or_else {ℓ} : {R : Type ℓ} → Option R → Option R → Option R
or_else none o = o
or_else (some r) o = some r

abbrev pub one_if {ℓ} : {R : Type ℓ} → (R → Bool) → Option R → ℕ
one_if q none = 0
one_if q (some r) = if q r then 1 else 0

module _ {ℓ} {R : Type ℓ} (key : R → String) where
  abbrev pub by_key : String → R → Bool
  by_key k r = key r == k

  unfoldable pub lookup : String → List R → Option R
  lookup k rows = find (by_key k) rows

  -- No two rows have one key.
  abbrev pub Unique : List R → Type ℓ
  Unique [] = Unit
  Unique (r ∷ rows) = (lookup (key r) rows ≡ none) × Unique rows

module _ {ℓ} {R : Type ℓ} (key : R → String) where
  pub lookup_key : (k : String) (rows : List R) (r : R) → lookup key k rows ≡ some r → key r ≡ k
  unfolding lookup
  lookup_key k [] r h = cc
  lookup_key k (x ∷ rows) r h = ground (arith, eq_iff (key x) k, lookup_key k rows r)

  -- An update that keeps the key acts on the row that a key selects.
  pub lookup-update :
      (p : R → Bool) (f : R → R) (keeps : (r : R) → key (f r) ≡ key r) (k : String) (rows : List R)
      → lookup key k (update p f rows) ≡ Option.map (set_where p f) (lookup key k rows)
  unfolding lookup
  lookup-update p f keeps k [] = refl
  lookup-update p f keeps k (r ∷ rows) = ground (arith, keeps r, lookup-update p f keeps k rows)

  pub lookup-append :
      (k : String) (rows more : List R)
      → lookup key k (rows ++ more) ≡ or_else (lookup key k rows) (lookup key k more)
  unfolding lookup
  lookup-append k [] more = refl
  lookup-append k (r ∷ rows) more = ground (arith, lookup-append k rows more)

  pub Unique-update :
      (p : R → Bool) (f : R → R) (keeps : (r : R) → key (f r) ≡ key r) (rows : List R)
      → Unique key rows
      → Unique key (update p f rows)
  Unique-update p f keeps [] u = tt
  Unique-update p f keeps (r ∷ rows) u = (
    ground (arith, keeps r, lookup-update p f keeps (key r) rows),
    Unique-update p f keeps rows u.1,
  )

  pub Unique-append :
      (rows : List R) (r : R)
      → Unique key rows
      → lookup key (key r) rows ≡ none
      → Unique key (rows ++ r ∷ [])
  unfolding lookup
  Unique-append [] r u h = (refl, tt)
  Unique-append (x ∷ rows) r u h = (
    ground (
      arith,
      lookup-append (key x) rows (r ∷ []),
      eq_iff (key r) (key x),
      eq_iff (key x) (key r),
    ),
    Unique-append rows r u.1 (ground arith),
  )

  -- With unique keys, an UPDATE that names a key changes one row at most.
  pub count-by_key-none :
      (k : String) (q : R → Bool) (rows : List R)
      → lookup key k rows ≡ none
      → count_if (λ r. by_key key k r && q r) rows ≡ 0
  unfolding lookup
  count-by_key-none k q [] h = refl
  count-by_key-none k q (r ∷ rows) h = ground (arith, count-by_key-none k q rows)

  pub count-by_key :
      (k : String) (q : R → Bool) (rows : List R)
      → Unique key rows
      → count_if (λ r. by_key key k r && q r) rows ≡ one_if q (lookup key k rows)
  unfolding lookup
  count-by_key k q [] u = refl
  count-by_key k q (r ∷ rows) u =
      ground (arith, eq_iff (key r) k, count-by_key-none k q rows, count-by_key k q rows u.1)

  pub All-update {κ} :
      {P : R → Type κ} (p : R → Bool) (f : R → R)
      → ((r : R) → P r → P (set_where p f r))
      → (rows : List R) → All P rows
      → All P (update p f rows)
  All-update p f keep [] h = tt
  All-update p f keep (r ∷ rows) h = (keep r h.0, All-update p f keep rows h.1)

pub All-append {ℓ κ} :
    {R : Type ℓ} (P : R → Type κ) (rows more : List R)
    → All P rows
    → All P more
    → All P (rows ++ more)
All-append P [] more h k = k
All-append P (r ∷ rows) more h k = (h.0, All-append P rows more h.1 k)

pub All-lookup {ℓ κ} :
    {R : Type ℓ} (P : R → Type κ) (key : R → String) (k : String) (rows : List R) (r : R)
    → All P rows
    → lookup key k rows ≡ some r
    → P r
unfolding lookup
All-lookup P key k [] r h e = cc
All-lookup P key k (x ∷ rows) r h e = elim (Bool-cases (key x == k)) [
  | inl found ↦ let same : x ≡ r = ground arith in subst P same h.0
  | inr other ↦ All-lookup P key k rows r h.1 (rw other at e)
]

pub All-always {ℓ κ} :
    {R : Type ℓ} (P : R → Type κ) → ((r : R) → P r) → (rows : List R) → All P rows
All-always P h [] = tt
All-always P h (r ∷ rows) = (h r, All-always P h rows)

pub All-map {ℓ κ μ} :
    {R : Type ℓ} (P : R → Type κ) (Q : R → Type μ)
    → ((r : R) → P r → Q r)
    → (rows : List R) → All P rows
    → All Q rows
All-map P Q h [] a = tt
All-map P Q h (r ∷ rows) a = (h r a.0, All-map P Q h rows a.1)

-- Of rows with unique keys, the one that a lookup returns is the only one under its key.
no_row {ℓ} :
    {R : Type ℓ} (key : R → String) (k : String) (rows : List R) (c : R)
    → lookup key k rows ≡ none
    → All (λ r. by_key key k r ≡ true → c ≡ r) rows
unfolding lookup
no_row key k [] c h = tt
no_row key k (r ∷ rows) c h = (λ e. ground arith, no_row key k rows c (ground arith))

pub only_row {ℓ} :
    {R : Type ℓ} (key : R → String) (k : String) (rows : List R) (c : R)
    → Unique key rows
    → lookup key k rows ≡ some c
    → All (λ r. by_key key k r ≡ true → c ≡ r) rows
unfolding lookup
only_row key k [] c u h = tt
only_row key k (r ∷ rows) c u h = elim (Bool-cases (key r == k)) [
  | inl hit ↦ (λ e. ground arith, no_row key k rows c (ground (arith, eq_iff (key r) k)))
  | inr miss ↦ (λ e. cc, only_row key k rows c u.1 (rw miss at h))
]
