-- ===== src/Evidence/Expressions/Dual.antt =====
-- Laws between the connectives.
use mathlib.Core.Option
use sisyphus_harness.Prelude.{
  ℕ, suc, ◌+◌, ◌-◌, ◌≤◌, ◌<◌, String, ◌≡◌, refl, ◌∙◌, ap, Option, none, some, List, [], ◌∷◌, arith,
  any, all, count_if, length, ltb, leb, eqb, Option-cases, inl, inr, sym,
}
use sisyphus_harness.Evidence.{
  all_of, any_of, at_least, negated, Children, nil, child, LogicalResult, is_pass, is_fail,
  is_indeterminate,
}
use sisyphus_harness.Evidence.Expressions.{
  all_of_results, any_of_results, at_least_results, not_result, evaluate_expression,
  evaluate_children,
}

-- Every child negated.
abbrev pub negate_all : Children → Children
negate_all nil = nil
negate_all (child e rest) = child (negated e) (negate_all rest)

abbrev pub child_count : Children → ℕ
child_count nil = 0
child_count (child e rest) = suc (child_count rest)

negate_results : List LogicalResult → List LogicalResult
unfolding not_result
negate_results [] = []
negate_results (r ∷ rs) = not_result r ∷ negate_results rs

evaluate-negate_all :
    (p : String → Option LogicalResult) (children : Children)
    → evaluate_children p (negate_all children)
      ≡ Option.map negate_results (evaluate_children p children)
unfolding evaluate_expression negate_results
evaluate-negate_all p nil = refl
evaluate-negate_all p (child e rest) = ground (arith, evaluate-negate_all p rest)

evaluate-length :
    (p : String → Option LogicalResult) (children : Children) (rs : List LogicalResult)
    → evaluate_children p children ≡ some rs
    → length rs ≡ child_count children
unfolding evaluate_expression
evaluate-length p nil rs h = ground arith
evaluate-length p (child e rest) rs h = elim (Option-cases (evaluate_children p rest)) [
  | inl gone ↦ ground arith
  | inr (xs, k) ↦ ground (arith, evaluate-length p rest xs k)
]

counts_split :
    (rs : List LogicalResult)
    → count_if is_pass rs + count_if is_fail rs + count_if is_indeterminate rs ≡ length rs
counts_split [] = omega arith
counts_split (r ∷ rs) = ground (arith, counts_split rs)

counts-negate :
    (rs : List LogicalResult)
    → (count_if is_pass (negate_results rs) ≡ count_if is_fail rs)
      × (count_if is_indeterminate (negate_results rs) ≡ count_if is_indeterminate rs)
unfolding negate_results
counts-negate [] = (refl, refl)
counts-negate (r ∷ rs) = ground (arith, counts-negate rs)

at_least_dual :
    (minimum n : ℕ) (rs : List LogicalResult)
    → length rs ≡ n
    → 0 < minimum
    → minimum ≤ n
    → not_result (at_least_results minimum rs)
      ≡ at_least_results (n + 1 - minimum) (negate_results rs)
unfolding at_least_results not_result
at_least_dual minimum n rs e lo hi = ground (arith, counts_split rs, counts-negate rs)

any_pass-count : (rs : List LogicalResult) → any is_pass rs ≡ ltb 0 (count_if is_pass rs)
any_pass-count [] = refl
any_pass-count (r ∷ rs) = ground (arith, any_pass-count rs)

all_fail-count :
    (rs : List LogicalResult)
    → all is_fail rs ≡ eqb (count_if is_pass rs + count_if is_indeterminate rs) 0
all_fail-count [] = refl
all_fail-count (r ∷ rs) = ground (arith, all_fail-count rs)

any_fail-count :
    (rs : List LogicalResult)
    → any is_fail rs ≡ ltb (count_if is_pass rs + count_if is_indeterminate rs) (length rs)
any_fail-count [] = refl
any_fail-count (r ∷ rs) = ground (arith, any_fail-count rs, counts_split rs)

all_pass-count : (rs : List LogicalResult) → all is_pass rs ≡ leb (length rs) (count_if is_pass rs)
all_pass-count [] = refl
all_pass-count (r ∷ rs) = ground (arith, all_pass-count rs, counts_split rs)

any_of-at_least : (rs : List LogicalResult) → any_of_results rs ≡ at_least_results 1 rs
unfolding any_of_results at_least_results
any_of-at_least rs = ground (arith, any_pass-count rs, all_fail-count rs)

all_of-at_least : (rs : List LogicalResult) → all_of_results rs ≡ at_least_results (length rs) rs
unfolding all_of_results at_least_results
all_of-at_least rs = ground (arith, any_fail-count rs, all_pass-count rs, counts_split rs)

map-cong {ℓ κ} :
    {A : Type ℓ} {B : Type κ} (f g : A → B) (o : Option A)
    → ((a : A) → o ≡ some a → f a ≡ g a)
    → Option.map f o ≡ Option.map g o
map-cong f g none h = refl
map-cong f g (some a) h = ap some (h a refl)

-- `any_of` is `at_least` one, and `all_of` is `at_least` all of the children, on any dict of results, a
-- KeyError included.
pub all_any-at_least :
    (p : String → Option LogicalResult) (children : Children)
    → (evaluate_expression p (any_of children) ≡ evaluate_expression p (at_least 1 children))
      × (evaluate_expression p (all_of children)
          ≡ evaluate_expression p (at_least (child_count children) children))
unfolding evaluate_expression
all_any-at_least p children = (
  map-cong any_of_results (at_least_results 1) (evaluate_children p children)
      (λ rs _. any_of-at_least rs),
  map-cong all_of_results (at_least_results (child_count children)) (evaluate_children p children)
      λ rs h. rw (← evaluate-length p children rs h) (all_of-at_least rs),
)

dual_results :
    (minimum n : ℕ) (o : Option (List LogicalResult))
    → ((rs : List LogicalResult) → o ≡ some rs → length rs ≡ n)
    → 0 < minimum
    → minimum ≤ n
    → Option.map not_result (Option.map (at_least_results minimum) o)
      ≡ Option.map (at_least_results (n + 1 - minimum)) (Option.map negate_results o)
dual_results minimum n none len lo hi = refl
dual_results minimum n (some rs) len lo hi =
    ap some (at_least_dual minimum n rs (len rs refl) lo hi)

-- Negating `at_least` m of n children is the same as `at_least` n + 1 - m of the negated children, for
-- the m that the constructor allows. At m = 1 and m = n these are De Morgan's laws of `any_of` and
-- `all_of`.
pub not-at_least :
    (p : String → Option LogicalResult) (minimum : ℕ) (children : Children)
    → 0 < minimum
    → minimum ≤ child_count children
    → evaluate_expression p (negated (at_least minimum children))
      ≡ evaluate_expression p (at_least (child_count children + 1 - minimum) (negate_all children))
unfolding evaluate_expression
not-at_least p minimum children lo hi =
    dual_results minimum (child_count children) (evaluate_children p children)
      (evaluate-length p children) lo hi
    ∙ ap (Option.map (at_least_results (child_count children + 1 - minimum)))
        (sym (evaluate-negate_all p children))
