-- ===== src/Prelude/Equality.antt =====
-- Python's `==` of texts and of tuples of texts, and of numbers, as decisions.
use Prim.Native.String.{String}
use mathlib.Core.Path.{◌≡◌, refl, sym}
use mathlib.Core.Logic.{◌↔◌}
use mathlib.Core.List.{List}
use mathlib.Core.Bool.{Bool, true, false, not}
use native.Mathlib.Decide.{ℕ_discrete}
use text.Mathlib.Text.{◌==◌}
use text.Mathlib.TextEquality.{eq_iff}
use sisyphus_harness.Prelude.Float.{ℤ, Float}

pub differ : (s t : String) → (s == t) ≡ false → s ≡ t → ⊥
differ s t other e = cc ((eq_iff s t).1 e)

-- The decision that a test's result gives.
abbrev pub decision : (s t : String) (b : Bool) → (s == t) ≡ b → Dec (s ≡ t)
decision s t true same = yes ((eq_iff s t).0 same)
decision s t false other = no (λ e. differ s t other e)

unfoldable pub String-discrete : Discrete String
String-discrete s t = decision s t (s == t) refl

unfoldable pub texts-discrete : Discrete (List String)
unfolding String-discrete
texts-discrete = hlevel String-discrete

unfoldable pub ℤ-discrete : Discrete ℤ
unfolding ℕ_discrete
ℤ-discrete = hlevel ℕ_discrete

unfoldable pub Float-discrete : Discrete Float
Float-discrete = hlevel ℤ-discrete

-- `a == b`, by a decision.
abbrev pub equal {ℓ} : {A : Type ℓ} → Discrete A → A → A → Bool
equal d a b = elim (d a b) [ yes _ ↦ true | no _ ↦ false ]

equal-eq {ℓ} : {A : Type ℓ} (d : Discrete A) (a b : A) → equal d a b ≡ true → a ≡ b
equal-eq d a b h =
    elim (d a b) as (λ x. elim x as (λ _. Bool) [ yes _ ↦ true | no _ ↦ false ] ≡ true → a ≡ b) [
      | yes e ↦ λ _. e
      | no n ↦ λ k. absurd (cc)
    ]
      h

eq-equal {ℓ} : {A : Type ℓ} (d : Discrete A) (a b : A) → a ≡ b → equal d a b ≡ true
eq-equal d a b e =
    elim (d a b) as (λ x. elim x as (λ _. Bool) [ yes _ ↦ true | no _ ↦ false ] ≡ true) [
      | yes _ ↦ refl
      | no n ↦ absurd (n e)
    ]

pub equal_iff {ℓ} : {A : Type ℓ} (d : Discrete A) (a b : A) → (equal d a b ≡ true) ↔ (a ≡ b)
equal_iff d a b = (equal-eq d a b, eq-equal d a b)

-- `a == b` of two truth values.
abbrev pub same_bool : Bool → Bool → Bool
same_bool true b = b
same_bool false b = not b

pub same_bool-eq : (a b : Bool) → same_bool a b ≡ true → a ≡ b
same_bool-eq true b h = sym h
same_bool-eq false true h = absurd cc
same_bool-eq false false h = refl
