-- ===== src/Evidence/Evaluation.antt =====
-- evidence_contract.py: `evaluate_evidence_contract` and `evaluate_gap_closure_rule`, with the clauses'
-- predicates, and the order of observations that their digest is taken in.
pub mod Totality
pub mod Outcomes
pub mod Closure
pub mod Order
pub mod Missing
mod Samples
use mathlib.Core.Option
use sisyphus_harness.Prelude.{
  ℕ, String, Bool, true, false, not, ◌&&◌, ◌||◌, Option, none, some, List, [], ◌∷◌, map, ◌==◌,
  if◌then◌else◌, ltb, any, length, select_all,
}
use sisyphus_harness.Prelude.Sorting.{sort_by}
use sisyphus_harness.Prelude.Text.{text_le}
use sisyphus_harness.Evidence.{
  EvidenceValue, PredicateOperator, LogicalResult, pass, fail, indeterminate, EvaluationLifecycle,
  completed, GapClosureResult, closed, not_closed, EvidenceClause, EvidenceContract, GapClosureRule,
  Reading, observed, unavailable, error, EvidenceObservation, PredicateEvaluation,
  ContractEvaluation, GapClosureEvaluation, selector_eq,
}
use sisyphus_harness.Evidence.Predicates.{Verdict, evaluate_predicate}
use sisyphus_harness.Evidence.Expressions.{result_of, evaluate_expression}
use sisyphus_harness.Evidence.Lint.{Limits, LintIssue, lint_rule_set, has_id}

-- SHA-256 digests and canonical JSON sizes: of contracts, of rules, of observations, of a list of
-- observations, and of a rejected set, given its count and the limit.
pub record Codec : Type 0 where
  pub contract_digest : EvidenceContract → String
  pub contract_bytes : EvidenceContract → ℕ
  pub rule_digest : GapClosureRule → String
  pub rule_bytes : GapClosureRule → ℕ
  pub observation_digest : EvidenceObservation → String
  pub set_digest : List EvidenceObservation → String
  pub rejected_digest : ℕ → ℕ → String

-- The order of the keys `(item.observation_id, item.observation_digest)`.
abbrev pub key_le : Codec → EvidenceObservation → EvidenceObservation → Bool
key_le codec a b =
    if a.observation_id == b.observation_id
    then text_le (codec.observation_digest a) (codec.observation_digest b)
    else text_le a.observation_id b.observation_id

-- `observation_set_digest`, for a set within the limit.
unfoldable pub observation_set_digest : Codec → List EvidenceObservation → String
observation_set_digest codec observations = codec.set_digest (sort_by (key_le codec) observations)

abbrev pub observation_ids_of : List EvidenceObservation → List String
observation_ids_of [] = []
observation_ids_of (o ∷ rest) = o.observation_id ∷ observation_ids_of rest

-- `len(set(identifiers)) != len(identifiers)`
unfoldable pub has_duplicates : List String → Bool
has_duplicates [] = false
has_duplicates (id ∷ rest) = has_id id rest || has_duplicates rest

-- `_observation_input_error`
unfoldable pub observation_input_error : Limits → List EvidenceObservation → Option String
unfolding has_duplicates
observation_input_error limits observations =
    if ltb limits.max_observations (length observations)
    then some "too_many_observations"
    else if has_duplicates (observation_ids_of observations)
    then some "duplicate_observation_id"
    else none

-- The branches of `_evaluate_clauses` on the status of the one observation that matches.
unfoldable pub judge_reading : PredicateOperator → EvidenceValue → Reading → Verdict
unfolding evaluate_predicate
judge_reading operator expected (observed actual) = evaluate_predicate operator actual expected
judge_reading operator expected (unavailable _) = record {
  result = indeterminate;
  reason = "observation_unavailable";
}
judge_reading operator expected (error _) = record {
  result = indeterminate;
  reason = "observation_error";
}

-- The branches on the observations that match, which are sorted by their ids.
unfoldable pub judge : EvidenceClause → List EvidenceObservation → PredicateEvaluation
unfolding judge_reading
judge c [] = record {
  clause_id = c.clause_id;
  result = indeterminate;
  observation_ids = [];
  reason_code = "missing_observation";
}
judge c (o ∷ []) =
    let verdict = judge_reading c.operator c.expected o.reading in
    record {
      clause_id = c.clause_id;
      result = verdict.result;
      observation_ids = o.observation_id ∷ [];
      reason_code = verdict.reason;
    }
judge c (o ∷ p ∷ rest) = record {
  clause_id = c.clause_id;
  result = indeterminate;
  observation_ids = o.observation_id ∷ p.observation_id ∷ observation_ids_of rest;
  reason_code = "ambiguous_observation";
}

abbrev pub id_le : EvidenceObservation → EvidenceObservation → Bool
id_le a b = text_le a.observation_id b.observation_id

unfoldable pub matches_of : EvidenceClause → List EvidenceObservation → List EvidenceObservation
unfolding sort_by
matches_of c observations =
    sort_by id_le (select_all (λ o. selector_eq o.selector c.selector) observations)

-- `_evaluate_clauses`
unfoldable pub evaluate_clauses :
    List EvidenceClause → List EvidenceObservation → List PredicateEvaluation
unfolding judge matches_of
evaluate_clauses [] observations = []
evaluate_clauses (c ∷ rest) observations =
    judge c (matches_of c observations) ∷ evaluate_clauses rest observations

abbrev pub contract_error : String → String → String → ContractEvaluation
contract_error digest set_digest code = record {
  contract_digest = digest;
  observation_set_digest = set_digest;
  lifecycle = EvaluationLifecycle.error;
  logical_result = none;
  predicates = [];
  error_code = some code;
}

abbrev pub contract_completed :
    String → String → List PredicateEvaluation → LogicalResult → ContractEvaluation
contract_completed digest set_digest predicates root = record {
  contract_digest = digest;
  observation_set_digest = set_digest;
  lifecycle = completed;
  logical_result = some root;
  predicates = predicates;
  error_code = none;
}

-- `evaluate_evidence_contract` after the lint.
unfoldable pub contract_linted :
    Codec
    → Limits
    → EvidenceContract
    → List EvidenceObservation
    → List LintIssue
    → Option ContractEvaluation
unfolding observation_set_digest observation_input_error evaluate_clauses result_of
    evaluate_expression
contract_linted codec limits c observations (_ ∷ _) = some (
    contract_error (codec.contract_digest c) (observation_set_digest codec observations)
      "contract_lint_failed")
contract_linted codec limits c observations [] =
    let digest = observation_set_digest codec observations in
    let predicates = evaluate_clauses c.clauses observations in
    elim (observation_input_error limits observations) [
      | some code ↦ some (contract_error (codec.contract_digest c) digest code)
      | none ↦
          Option.map (contract_completed (codec.contract_digest c) digest predicates)
            (evaluate_expression (result_of predicates) c.task_success)
    ]

-- `evaluate_evidence_contract`, on fuel for the lint's loop; none stands for fuel that ran out or for
-- a KeyError.
unfoldable pub evaluate_evidence_contract :
    ℕ → Codec → Limits → EvidenceContract → List EvidenceObservation → Option ContractEvaluation
unfolding contract_linted lint_rule_set
evaluate_evidence_contract fuel codec limits c observations =
    if ltb limits.max_observations (length observations)
    then some (
        contract_error (codec.contract_digest c)
          (codec.rejected_digest (length observations) limits.max_observations)
          "too_many_observations")
    else elim (lint_rule_set fuel limits c.clauses c.task_success (codec.contract_bytes c)) [
      | none ↦ none
      | some issues ↦ contract_linted codec limits c observations issues
    ]

-- The dict from logical results to closure results.
unfoldable pub closure_of : LogicalResult → GapClosureResult
closure_of pass = closed
closure_of fail = not_closed
closure_of indeterminate = GapClosureResult.indeterminate

abbrev pub gap_error : Codec → GapClosureRule → ℕ → String → String → GapClosureEvaluation
gap_error codec rule revision set_digest code = record {
  rule_digest = codec.rule_digest rule;
  requirement_id = rule.requirement_id;
  gap_id = rule.gap_id;
  grounding_revision = revision;
  observation_set_digest = set_digest;
  lifecycle = EvaluationLifecycle.error;
  closure_result = none;
  predicates = [];
  error_code = some code;
}

abbrev pub gap_completed :
    Codec
    → GapClosureRule
    → ℕ
    → String
    → List PredicateEvaluation
    → LogicalResult
    → GapClosureEvaluation
gap_completed codec rule revision set_digest predicates logical = record {
  rule_digest = codec.rule_digest rule;
  requirement_id = rule.requirement_id;
  gap_id = rule.gap_id;
  grounding_revision = revision;
  observation_set_digest = set_digest;
  lifecycle = completed;
  closure_result = some (closure_of logical);
  predicates = predicates;
  error_code = none;
}

-- `evaluate_gap_closure_rule` after the lint.
unfoldable pub gap_linted :
    Codec
    → Limits
    → GapClosureRule
    → ℕ
    → List EvidenceObservation
    → List LintIssue
    → Option GapClosureEvaluation
unfolding observation_set_digest observation_input_error evaluate_clauses result_of
    evaluate_expression
gap_linted codec limits rule revision observations (_ ∷ _) = some (
    gap_error codec rule revision (observation_set_digest codec observations)
      "closure_rule_lint_failed")
gap_linted codec limits rule revision observations [] =
    let digest = observation_set_digest codec observations in
    let predicates = evaluate_clauses rule.clauses observations in
    elim (observation_input_error limits observations) [
      | some code ↦ some (gap_error codec rule revision digest code)
      | none ↦
          Option.map (gap_completed codec rule revision digest predicates)
            (evaluate_expression (result_of predicates) rule.closure_condition)
    ]

-- `evaluate_gap_closure_rule`, on fuel for the lint's loop.
unfoldable pub evaluate_gap_closure_rule :
    ℕ → Codec → Limits → GapClosureRule → ℕ → List EvidenceObservation → Option GapClosureEvaluation
unfolding gap_linted lint_rule_set
evaluate_gap_closure_rule fuel codec limits rule revision observations =
    if ltb limits.max_observations (length observations)
    then some (
        gap_error codec rule revision
          (codec.rejected_digest (length observations) limits.max_observations)
          "too_many_observations")
    else elim (lint_rule_set fuel limits rule.clauses rule.closure_condition
        (codec.rule_bytes rule)) [
          | none ↦ none
          | some issues ↦ gap_linted codec limits rule revision observations issues
        ]
