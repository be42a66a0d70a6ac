-- ===== src/Evidence/Evaluation/Missing.antt =====
-- Evaluation without evidence: nothing is known, so nothing passes and nothing fails.
use mathlib.Core.Path.{subst}
use sisyphus_harness.Prelude.{
  ℕ, ◌<◌, String, ◌≡◌, refl, sym, ◌∙◌, ap, Bool, true, false, ◌&&◌, Option, some, List, [], ◌∷◌,
  arith, any, all, count_if, length, ltb, leb, Option-cases, inl, inr,
}
use sisyphus_harness.Evidence.{
  EvidenceExpression, clause_ref, all_of, any_of, at_least, negated, Children, nil, child,
  LogicalResult, indeterminate, is_pass, is_fail, is_indeterminate, EvidenceContract,
  EvidenceClause, ContractEvaluation, completed,
}
use sisyphus_harness.Evidence.Expressions.{
  result_of, evaluate_expression, evaluate_children, all_of_results, any_of_results,
  at_least_results, not_result,
}
use sisyphus_harness.Evidence.Expressions.Dual.{child_count}
use sisyphus_harness.Evidence.Lint.{Limits}
use sisyphus_harness.Evidence.Evaluation.{
  Codec, evaluate_clauses, evaluate_evidence_contract, matches_of, judge,
}
use sisyphus_harness.Evidence.Evaluation.Totality.{
  has_completed, has_failed, evaluate_evidence_contract_lem,
}

-- What the constructors of `AllOf`, `AnyOf` and `AtLeast` require: a child at least, and a minimum between
-- 1 and the number of children.
unfoldable mutual
  pub is_valid : EvidenceExpression → Bool
  is_valid (clause_ref id) = true
  is_valid (all_of children) = ltb 0 (child_count children) && are_valid children
  is_valid (any_of children) = ltb 0 (child_count children) && are_valid children
  is_valid (at_least minimum children) =
      ltb 0 minimum && leb minimum (child_count children) && are_valid children
  is_valid (negated e) = is_valid e

  pub are_valid : Children → Bool
  are_valid nil = true
  are_valid (child e rest) = is_valid e && are_valid rest

counts_indeterminate :
    (rs : List LogicalResult)
    → all is_indeterminate rs ≡ true
    → (any is_pass rs ≡ false)
      × (any is_fail rs ≡ false)
      × (count_if is_pass rs ≡ 0)
      × (count_if is_indeterminate rs ≡ length rs)
counts_indeterminate [] h = (refl, refl, refl, refl)
counts_indeterminate (r ∷ rs) h = ground (arith, counts_indeterminate rs)

-- Every result that a dict holds is indeterminate.
abbrev Unknown : (String → Option LogicalResult) → Type 0
Unknown p = (id : String) (r : LogicalResult) → p id ≡ some r → r ≡ indeterminate

all_pass-any :
    (rs : List LogicalResult)
    → 0 < length rs
    → all is_indeterminate rs ≡ true
    → all is_pass rs ≡ false
all_pass-any [] h k = absurd (omega arith)
all_pass-any (r ∷ rs) h k = ground arith

all_fail-any :
    (rs : List LogicalResult)
    → 0 < length rs
    → all is_indeterminate rs ≡ true
    → all is_fail rs ≡ false
all_fail-any [] h k = absurd (omega arith)
all_fail-any (r ∷ rs) h k = ground arith

mutual
  unfolding evaluate_expression all_of_results any_of_results at_least_results not_result is_valid

  evaluate-Unknown :
      (p : String → Option LogicalResult) (e : EvidenceExpression) (r : LogicalResult)
      → Unknown p
      → is_valid e ≡ true
      → evaluate_expression p e ≡ some r
      → r ≡ indeterminate
  evaluate-Unknown p (clause_ref id) r u v h = u id r h
  evaluate-Unknown p (all_of children) r u v h =
      elim (Option-cases (evaluate_children p children)) [
        | inl gone ↦ ground arith
        | inr (rs, k) ↦ ground (
          arith,
          evaluate_children-Unknown p children rs u (ground arith) k,
          counts_indeterminate rs,
          all_pass-any rs,
        )
      ]
  evaluate-Unknown p (any_of children) r u v h =
      elim (Option-cases (evaluate_children p children)) [
        | inl gone ↦ ground arith
        | inr (rs, k) ↦ ground (
          arith,
          evaluate_children-Unknown p children rs u (ground arith) k,
          counts_indeterminate rs,
          all_fail-any rs,
        )
      ]
  evaluate-Unknown p (at_least minimum children) r u v h =
      elim (Option-cases (evaluate_children p children)) [
        | inl gone ↦ ground arith
        | inr (rs, k) ↦ ground (
          arith,
          evaluate_children-Unknown p children rs u (ground arith) k,
          counts_indeterminate rs,
        )
      ]
  evaluate-Unknown p (negated e) r u v h = elim (Option-cases (evaluate_expression p e)) [
    | inl gone ↦ ground arith
    | inr (s, k) ↦ ground (arith, evaluate-Unknown p e s u v k)
  ]

  evaluate_children-Unknown :
      (p : String → Option LogicalResult) (children : Children) (rs : List LogicalResult)
      → Unknown p
      → are_valid children ≡ true
      → evaluate_children p children ≡ some rs
      → (all is_indeterminate rs ≡ true) × (length rs ≡ child_count children)
  evaluate_children-Unknown p nil rs u v h = ground arith
  evaluate_children-Unknown p (child e rest) rs u v h =
      elim (Option-cases (evaluate_expression p e)) [
        | inl gone ↦ ground arith
        | inr (s, k) ↦ elim (Option-cases (evaluate_children p rest)) [
          | inl gone ↦ ground arith
          | inr (ss, l) ↦ ground (
            arith,
            evaluate-Unknown p e s u (ground arith) k,
            evaluate_children-Unknown p rest ss u (ground arith) l,
          )
        ]
      ]

nothing-Unknown : (cs : List EvidenceClause) → Unknown (result_of (evaluate_clauses cs []))
unfolding evaluate_clauses result_of judge matches_of
nothing-Unknown [] id r h = absurd cc
nothing-Unknown (c ∷ rest) id r h = ground (arith, nothing-Unknown rest id r)

-- A contract whose expression its constructors allow, evaluated without observations: where the
-- evaluation completes, its result is indeterminate, so that a missing check neither passes nor fails.
pub evaluate_nothing :
    (fuel : ℕ) (codec : Codec) (limits : Limits) (c : EvidenceContract) (r : ContractEvaluation)
    → is_valid c.task_success ≡ true
    → evaluate_evidence_contract fuel codec limits c [] ≡ some r
    → r.lifecycle ≡ completed
    → r.logical_result ≡ some indeterminate
evaluate_nothing fuel codec limits c r v h l =
    elim (evaluate_evidence_contract_lem fuel codec limits c [] r h) [
      | has_failed code a b d e ↦ absurd cc
      | has_completed root a b d e f ↦
          b
          ∙ ap some (
              evaluate-Unknown (result_of r.predicates) c.task_success root
                (subst (λ ps. Unknown (result_of ps)) (sym d) (nothing-Unknown c.clauses)) v e)
    ]
