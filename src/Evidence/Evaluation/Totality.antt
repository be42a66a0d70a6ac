-- ===== src/Evidence/Evaluation/Totality.antt =====
-- What an evaluation returns: it always returns, and its fields fit its lifecycle.
use sisyphus_harness.Prelude.{
  ℕ, ◌≤◌, String, ◌≡◌, refl, true, none, some, List, [], ◌∷◌, arith, is_some, ltb, length, inl, inr,
  Bool-cases, Option-cases,
}
use sisyphus_harness.Evidence.{
  EvidenceContract, GapClosureRule, EvidenceObservation, ContractEvaluation, LogicalResult,
  EvaluationLifecycle, completed, EvidenceExpression,
}
use sisyphus_harness.Evidence.Expressions.{evaluate_expression, result_of}
use sisyphus_harness.Evidence.Lint.{Limits, LintIssue, Visited, lint_rule_set, lint_visited}
use sisyphus_harness.Evidence.Lint.Walk.{size, leaves, deepest}
use sisyphus_harness.Evidence.Lint.References.{lint_rule_set_lem, evaluate-linted}
use sisyphus_harness.Evidence.Evaluation.{
  Codec, evaluate_clauses, evaluate_evidence_contract, evaluate_gap_closure_rule, contract_linted,
  gap_linted, observation_input_error,
}

-- What the loop of the lint finds in an expression.
abbrev found : EvidenceExpression → Visited
found e = record { nodes = size e; max_depth = deepest e 1; references = leaves e }

contract_linted-is_some :
    (codec : Codec) (limits : Limits) (c : EvidenceContract)
    (observations : List EvidenceObservation)
    → is_some (
        contract_linted codec limits c observations
          (lint_visited limits c.clauses (codec.contract_bytes c) (found c.task_success)))
      ≡ true
unfolding contract_linted
contract_linted-is_some codec limits c observations = ground (
  arith,
  evaluate-linted limits c.clauses (codec.contract_bytes c) (found c.task_success) c.task_success
      observations refl,
)

gap_linted-is_some :
    (codec : Codec) (limits : Limits) (rule : GapClosureRule) (revision : ℕ)
    (observations : List EvidenceObservation)
    → is_some (
        gap_linted codec limits rule revision observations
          (lint_visited limits rule.clauses (codec.rule_bytes rule) (found rule.closure_condition)))
      ≡ true
unfolding gap_linted
gap_linted-is_some codec limits rule revision observations = ground (
  arith,
  evaluate-linted limits rule.clauses (codec.rule_bytes rule) (found rule.closure_condition)
      rule.closure_condition observations refl,
)

-- On fuel for the nodes of the contract's expression, or more, the evaluation of a contract returns: the
-- lint's loop ends, and no clause that the expression names is missing from the dict of results.
pub evaluate_evidence_contract-total :
    (fuel : ℕ) (codec : Codec) (limits : Limits) (c : EvidenceContract)
    (observations : List EvidenceObservation)
    → size c.task_success ≤ fuel
    → is_some (evaluate_evidence_contract fuel codec limits c observations) ≡ true
unfolding evaluate_evidence_contract
evaluate_evidence_contract-total fuel codec limits c observations h = ground (
  arith,
  lint_rule_set_lem fuel limits c.clauses c.task_success (codec.contract_bytes c) h,
  contract_linted-is_some codec limits c observations,
)

-- On fuel for the nodes of the rule's expression, or more, the evaluation of a gap closure rule returns.
pub evaluate_gap_closure_rule-total :
    (fuel : ℕ) (codec : Codec) (limits : Limits) (rule : GapClosureRule) (revision : ℕ)
    (observations : List EvidenceObservation)
    → size rule.closure_condition ≤ fuel
    → is_some (evaluate_gap_closure_rule fuel codec limits rule revision observations) ≡ true
unfolding evaluate_gap_closure_rule
evaluate_gap_closure_rule-total fuel codec limits rule revision observations h = ground (
  arith,
  lint_rule_set_lem fuel limits rule.clauses rule.closure_condition (codec.rule_bytes rule) h,
  gap_linted-is_some codec limits rule revision observations,
)

-- The checks of `ContractEvaluation.__post_init__`: an evaluation that completed has a result, its
-- predicates are those of the clauses, and no error code; one that failed has an error code alone.
pub data ContractEvaluated (c : EvidenceContract) (observations : List EvidenceObservation)
    : ContractEvaluation → Type 0 where
  has_completed :
      {r : ContractEvaluation} (root : LogicalResult)
      → r.lifecycle ≡ completed
      → r.logical_result ≡ some root
      → r.predicates ≡ evaluate_clauses c.clauses observations
      → evaluate_expression (result_of r.predicates) c.task_success ≡ some root
      → r.error_code ≡ none
      → ContractEvaluated c observations r
  has_failed :
      {r : ContractEvaluation} (code : String)
      → r.lifecycle ≡ EvaluationLifecycle.error
      → r.logical_result ≡ none
      → r.predicates ≡ []
      → r.error_code ≡ some code
      → ContractEvaluated c observations r

completed_lem :
    (codec : Codec) (limits : Limits) (c : EvidenceContract)
    (observations : List EvidenceObservation) (issues : List LintIssue) (r : ContractEvaluation)
    → contract_linted codec limits c observations issues ≡ some r
    → ContractEvaluated c observations r
unfolding contract_linted
completed_lem codec limits c observations (_ ∷ _) r h =
    has_failed "contract_lint_failed" (ground arith) (ground arith) (ground arith) (ground arith)
completed_lem codec limits c observations [] r h =
    let predicates = evaluate_clauses c.clauses observations in
    elim (Option-cases (observation_input_error limits observations)) [
      | inr (code, k) ↦ has_failed code (ground arith) (ground arith) (ground arith) (ground arith)
      | inl fine ↦ elim (Option-cases (evaluate_expression (result_of predicates) c.task_success)) [
        | inl missing ↦ absurd (ground arith)
        | inr (root, k) ↦
            has_completed root (ground arith) (ground arith) (ground arith) (ground arith)
              (ground arith)
      ]
    ]

-- An evaluation of the contract that returns has completed, with the results of all its clauses and the
-- value of its expression over them, and no error code; or it has failed, with an error code and
-- nothing else.
pub evaluate_evidence_contract_lem :
    (fuel : ℕ) (codec : Codec) (limits : Limits) (c : EvidenceContract)
    (observations : List EvidenceObservation) (r : ContractEvaluation)
    → evaluate_evidence_contract fuel codec limits c observations ≡ some r
    → ContractEvaluated c observations r
unfolding evaluate_evidence_contract
evaluate_evidence_contract_lem fuel codec limits c observations r h =
    let lint = lint_rule_set fuel limits c.clauses c.task_success (codec.contract_bytes c) in
    elim (Bool-cases (ltb limits.max_observations (length observations))) [
      | inl many ↦
          has_failed "too_many_observations" (ground arith) (ground arith) (ground arith)
            (ground arith)
      | inr few ↦ elim (Option-cases lint) [
        | inl out ↦ absurd (ground arith)
        | inr (issues, found) ↦ completed_lem codec limits c observations issues r (ground arith)
      ]
    ]
