-- ===== src/Evidence/Evaluation/Closure.antt =====
-- A gap closure rule is evaluated as a contract is.
use mathlib.Core.Option
use sisyphus_harness.Prelude.{
  ℕ, String, ◌≡◌, refl, List, [], ◌∷◌, ◌==◌, arith, if◌then◌else◌, ltb, length, inl, inr,
  Bool-cases, Option-cases,
}
use sisyphus_harness.Evidence.{
  EvidenceContract, GapClosureRule, EvidenceObservation, ContractEvaluation, GapClosureEvaluation,
}
use sisyphus_harness.Evidence.Lint.{Limits, LintIssue, lint_rule_set}
use sisyphus_harness.Evidence.Evaluation.{
  Codec, evaluate_evidence_contract, evaluate_gap_closure_rule, contract_linted, gap_linted,
  closure_of, observation_input_error,
}

-- The error codes of the two evaluations differ where the lint fails.
abbrev pub rule_code : String → String
rule_code code = if code == "contract_lint_failed" then "closure_rule_lint_failed" else code

-- The evaluation of a contract, read as that of a rule: pass is closed and fail is not closed.
abbrev pub as_closure : Codec → GapClosureRule → ℕ → ContractEvaluation → GapClosureEvaluation
as_closure codec rule revision r = record {
  rule_digest = codec.rule_digest rule;
  requirement_id = rule.requirement_id;
  gap_id = rule.gap_id;
  grounding_revision = revision;
  observation_set_digest = r.observation_set_digest;
  lifecycle = r.lifecycle;
  closure_result = Option.map closure_of r.logical_result;
  predicates = r.predicates;
  error_code = Option.map rule_code r.error_code;
}

linted :
    (codec : Codec) (limits : Limits) (c : EvidenceContract) (rule : GapClosureRule) (revision : ℕ)
    (observations : List EvidenceObservation) (issues : List LintIssue)
    → c.clauses ≡ rule.clauses
    → c.task_success ≡ rule.closure_condition
    → gap_linted codec limits rule revision observations issues
      ≡ Option.map
          (as_closure codec rule revision)
          (contract_linted codec limits c observations issues)
unfolding gap_linted contract_linted observation_input_error
linted codec limits c rule revision observations (_ ∷ _) p q = refl
linted codec limits c rule revision observations [] p q = ground arith

-- A rule and a contract with the same clauses, the same expression and the same size in bytes: the
-- evaluation of the rule is that of the contract on the same observations and limits, with closed for
-- pass, not closed for fail, and the rule's name for a failed lint.
pub evaluate_gap_closure_rule-contract :
    (fuel : ℕ) (codec : Codec) (limits : Limits) (c : EvidenceContract) (rule : GapClosureRule)
    (revision : ℕ) (observations : List EvidenceObservation)
    → c.clauses ≡ rule.clauses
    → c.task_success ≡ rule.closure_condition
    → codec.contract_bytes c ≡ codec.rule_bytes rule
    → evaluate_gap_closure_rule fuel codec limits rule revision observations
      ≡ Option.map
          (as_closure codec rule revision)
          (evaluate_evidence_contract fuel codec limits c observations)
unfolding evaluate_gap_closure_rule evaluate_evidence_contract
evaluate_gap_closure_rule-contract fuel codec limits c rule revision observations p q b =
    let of_contract = lint_rule_set fuel limits c.clauses c.task_success (codec.contract_bytes c) in
    let of_rule =
      lint_rule_set fuel limits rule.clauses rule.closure_condition (codec.rule_bytes rule) in
    let same : of_contract ≡ of_rule = cc in
    elim (Bool-cases (ltb limits.max_observations (length observations))) [
      | inl many ↦ ground arith
      | inr few ↦ elim (Option-cases of_rule) [
        | inl out ↦ ground arith
        | inr (issues, found) ↦
            ground (arith, linted codec limits c rule revision observations issues p q)
      ]
    ]
