-- ===== src/Evidence/Expressions/Kleene.antt =====
-- The aggregation is strong Kleene logic: knowing more never overturns a decided result.
use mathlib.Core.Option
use sisyphus_harness.Prelude.{
  ℕ, ◌+◌, ◌≤◌, String, ◌≡◌, refl, ◌⊎◌, true, false, Option, none, some, List, [], ◌∷◌, arith, any,
  all, count_if,
}
use sisyphus_harness.Evidence.{
  EvidenceExpression, clause_ref, all_of, any_of, at_least, negated, Children, nil, child,
  LogicalResult, indeterminate, is_pass, is_fail, is_indeterminate,
}
use sisyphus_harness.Evidence.Expressions.{
  all_of_results, any_of_results, at_least_results, not_result, evaluate_expression,
  evaluate_children, cons_result,
}

-- The second result is the first, unless that was indeterminate.
abbrev pub Refines : LogicalResult → LogicalResult → Type 0
Refines r r' = (r ≡ indeterminate) ⊎ (r ≡ r')

abbrev pub RefinesAll : List LogicalResult → List LogicalResult → Type 0
RefinesAll [] [] = Unit
RefinesAll (r ∷ rs) (r' ∷ rs') = Refines r r' × RefinesAll rs rs'
RefinesAll _ _ = ⊥

-- The same where a result may be missing: on both sides or on none.
abbrev pub RefinesAt : Option LogicalResult → Option LogicalResult → Type 0
RefinesAt none none = Unit
RefinesAt (some r) (some r') = Refines r r'
RefinesAt _ _ = ⊥

abbrev RefinesLists : Option (List LogicalResult) → Option (List LogicalResult) → Type 0
RefinesLists none none = Unit
RefinesLists (some rs) (some rs') = RefinesAll rs rs'
RefinesLists _ _ = ⊥

any_fail_mono :
    (rs rs' : List LogicalResult)
    → RefinesAll rs rs'
    → any is_fail rs ≡ true
    → any is_fail rs' ≡ true
any_fail_mono [] [] h k = k
any_fail_mono [] (_ ∷ _) h k = cc
any_fail_mono (r ∷ rs) [] h k = absurd h
any_fail_mono (r ∷ rs) (r' ∷ rs') h k = ground (arith, any_fail_mono rs rs' h.1)

any_pass_mono :
    (rs rs' : List LogicalResult)
    → RefinesAll rs rs'
    → any is_pass rs ≡ true
    → any is_pass rs' ≡ true
any_pass_mono [] [] h k = k
any_pass_mono [] (_ ∷ _) h k = cc
any_pass_mono (r ∷ rs) [] h k = absurd h
any_pass_mono (r ∷ rs) (r' ∷ rs') h k = ground (arith, any_pass_mono rs rs' h.1)

all_pass_mono :
    (rs rs' : List LogicalResult)
    → RefinesAll rs rs'
    → all is_pass rs ≡ true
    → (all is_pass rs' ≡ true) × (any is_fail rs' ≡ false)
all_pass_mono [] [] h k = (k, refl)
all_pass_mono [] (_ ∷ _) h k = absurd h
all_pass_mono (r ∷ rs) [] h k = absurd h
all_pass_mono (r ∷ rs) (r' ∷ rs') h k = ground (arith, all_pass_mono rs rs' h.1)

all_fail_mono :
    (rs rs' : List LogicalResult)
    → RefinesAll rs rs'
    → all is_fail rs ≡ true
    → (all is_fail rs' ≡ true) × (any is_pass rs' ≡ false)
all_fail_mono [] [] h k = (k, refl)
all_fail_mono [] (_ ∷ _) h k = absurd h
all_fail_mono (r ∷ rs) [] h k = absurd h
all_fail_mono (r ∷ rs) (r' ∷ rs') h k = ground (arith, all_fail_mono rs rs' h.1)

counts_mono :
    (rs rs' : List LogicalResult)
    → RefinesAll rs rs'
    → (count_if is_pass rs ≤ count_if is_pass rs')
      × (count_if is_pass rs' + count_if is_indeterminate rs'
          ≤ count_if is_pass rs + count_if is_indeterminate rs)
counts_mono [] [] h = omega arith
counts_mono [] (_ ∷ _) h = absurd h
counts_mono (r ∷ rs) [] h = absurd h
counts_mono (r ∷ rs) (r' ∷ rs') h = ground (arith, counts_mono rs rs' h.1)

module _ (rs rs' : List LogicalResult) (h : RefinesAll rs rs') where
  all_of_mono : Refines (all_of_results rs) (all_of_results rs')
  unfolding all_of_results
  all_of_mono = ground (arith, any_fail_mono rs rs' h, all_pass_mono rs rs' h)

  any_of_mono : Refines (any_of_results rs) (any_of_results rs')
  unfolding any_of_results
  any_of_mono = ground (arith, any_pass_mono rs rs' h, all_fail_mono rs rs' h)

  at_least_mono :
      (minimum : ℕ) → Refines (at_least_results minimum rs) (at_least_results minimum rs')
  unfolding at_least_results
  at_least_mono minimum = ground (arith, counts_mono rs rs' h)

not_mono : (r r' : LogicalResult) → Refines r r' → Refines (not_result r) (not_result r')
unfolding not_result
not_mono r r' h = ground arith

-- A combination of the children that is monotone on their results.
combine_mono :
    (f : List LogicalResult → LogicalResult)
    → ((rs rs' : List LogicalResult) → RefinesAll rs rs' → Refines (f rs) (f rs'))
    → (o o' : Option (List LogicalResult)) → RefinesLists o o'
    → RefinesAt (Option.map f o) (Option.map f o')
combine_mono f mono none none h = tt
combine_mono f mono none (some _) h = absurd h
combine_mono f mono (some rs) none h = absurd h
combine_mono f mono (some rs) (some rs') h = mono rs rs' h

negate_mono :
    (o o' : Option LogicalResult)
    → RefinesAt o o'
    → RefinesAt (Option.map not_result o) (Option.map not_result o')
negate_mono none none h = tt
negate_mono none (some _) h = absurd h
negate_mono (some r) none h = absurd h
negate_mono (some r) (some r') h = not_mono r r' h

cons_mono :
    (o o' : Option LogicalResult) (l l' : Option (List LogicalResult))
    → RefinesAt o o'
    → RefinesLists l l'
    → RefinesLists (cons_result o l) (cons_result o' l')
cons_mono none none l l' h k = tt
cons_mono none (some _) l l' h k = absurd h
cons_mono (some r) none l l' h k = absurd h
cons_mono (some r) (some r') none none h k = tt
cons_mono (some r) (some r') none (some _) h k = absurd k
cons_mono (some r) (some r') (some rs) none h k = absurd k
cons_mono (some r) (some r') (some rs) (some rs') h k = (h, k)

mutual
  unfolding evaluate_expression

  evaluate_mono :
      (p p' : String → Option LogicalResult) (h : (id : String) → RefinesAt (p id) (p' id))
      (e : EvidenceExpression)
      → RefinesAt (evaluate_expression p e) (evaluate_expression p' e)
  evaluate_mono p p' h (clause_ref id) = h id
  evaluate_mono p p' h (all_of children) =
      combine_mono all_of_results all_of_mono (evaluate_children p children)
        (evaluate_children p' children) (children_mono p p' h children)
  evaluate_mono p p' h (any_of children) =
      combine_mono any_of_results any_of_mono (evaluate_children p children)
        (evaluate_children p' children) (children_mono p p' h children)
  evaluate_mono p p' h (at_least minimum children) =
      combine_mono (at_least_results minimum) (λ rs rs' k. at_least_mono rs rs' k minimum)
        (evaluate_children p children) (evaluate_children p' children)
        (children_mono p p' h children)
  evaluate_mono p p' h (negated e) =
      negate_mono (evaluate_expression p e) (evaluate_expression p' e) (evaluate_mono p p' h e)

  children_mono :
      (p p' : String → Option LogicalResult) (h : (id : String) → RefinesAt (p id) (p' id))
      (children : Children)
      → RefinesLists (evaluate_children p children) (evaluate_children p' children)
  children_mono p p' h nil = tt
  children_mono p p' h (child e rest) =
      cons_mono (evaluate_expression p e) (evaluate_expression p' e) (evaluate_children p rest)
        (evaluate_children p' rest) (evaluate_mono p p' h e) (children_mono p p' h rest)

-- If some indeterminate clauses become decided and the decided ones stay as they were, the result of an
-- expression stays as it was too, unless it was indeterminate: no pass and no fail is ever overturned
-- by more evidence.
pub evaluate_expression_mono :
    (p p' : String → Option LogicalResult) (e : EvidenceExpression)
    → ((id : String) → RefinesAt (p id) (p' id))
    → RefinesAt (evaluate_expression p e) (evaluate_expression p' e)
evaluate_expression_mono p p' e h = evaluate_mono p p' h e
