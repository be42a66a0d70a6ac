-- ===== src/Evidence/Expressions.antt =====
-- evidence_contract.py: `_evaluate_expression`, over the results of the clauses.
pub mod Kleene
pub mod Dual
use mathlib.Core.Option
use sisyphus_harness.Prelude.{
  ℕ, suc, ◌+◌, String, Bool, true, false, ◌&&◌, Option, none, some, List, [], ◌∷◌, ◌==◌,
  if◌then◌else◌, ltb, leb, any, all, count_if,
}
use sisyphus_harness.Evidence.{
  EvidenceExpression, clause_ref, all_of, any_of, at_least, negated, Children, nil, child,
  LogicalResult, pass, fail, indeterminate, is_pass, is_fail, is_indeterminate, PredicateEvaluation,
}

-- The dict `{predicate.clause_id: predicate.result …}` read at a key: the last entry counts, and a
-- missing key is none, which stands for the KeyError.
unfoldable pub result_of : List PredicateEvaluation → String → Option LogicalResult
result_of [] id = none
result_of (p ∷ rest) id = elim (result_of rest id) [
  | some r ↦ some r
  | none ↦ if p.clause_id == id then some p.result else none
]

-- The branches of `_evaluate_expression` on the results of the children.
unfoldable pub all_of_results : List LogicalResult → LogicalResult
all_of_results results =
    if any is_fail results then fail else if all is_pass results then pass else indeterminate

unfoldable pub any_of_results : List LogicalResult → LogicalResult
any_of_results results =
    if any is_pass results then pass else if all is_fail results then fail else indeterminate

unfoldable pub at_least_results : ℕ → List LogicalResult → LogicalResult
at_least_results minimum results =
    let passes = count_if is_pass results in
    let unknown = count_if is_indeterminate results in
    if leb minimum passes
    then pass
    else if ltb (passes + unknown) minimum
    then fail
    else indeterminate

unfoldable pub not_result : LogicalResult → LogicalResult
not_result pass = fail
not_result fail = pass
not_result indeterminate = indeterminate

abbrev pub cons_result :
    Option LogicalResult → Option (List LogicalResult) → Option (List LogicalResult)
cons_result none rs = none
cons_result (some r) none = none
cons_result (some r) (some rs) = some (r ∷ rs)

-- `_evaluate_expression`, with a dict as a function; none stands for a KeyError. All children are
-- evaluated before they are combined.
unfoldable mutual
  unfolding all_of_results any_of_results at_least_results not_result

  pub evaluate_expression :
      (String → Option LogicalResult) → EvidenceExpression → Option LogicalResult
  evaluate_expression predicates (clause_ref id) = predicates id
  evaluate_expression predicates (all_of children) =
      Option.map all_of_results (evaluate_children predicates children)
  evaluate_expression predicates (any_of children) =
      Option.map any_of_results (evaluate_children predicates children)
  evaluate_expression predicates (at_least minimum children) =
      Option.map (at_least_results minimum) (evaluate_children predicates children)
  evaluate_expression predicates (negated e) =
      Option.map not_result (evaluate_expression predicates e)

  pub evaluate_children : (String → Option LogicalResult) → Children → Option (List LogicalResult)
  evaluate_children predicates nil = some []
  evaluate_children predicates (child e rest) =
      cons_result (evaluate_expression predicates e) (evaluate_children predicates rest)
