-- ===== src/Evidence/Evaluation/Outcomes.antt =====
-- When `evaluate_evidence_contract` fails, with which code, and when it completes.
use sisyphus_harness.Prelude.{
  ℕ, ◌≤◌, ◌<◌, String, ◌≡◌, refl, false, none, some, List, [], ◌∷◌, arith, ltb, length, inl, inr,
  Bool-cases, Option-cases, All, eq_iff, ◌==◌,
}
use sisyphus_harness.Evidence.{
  EvidenceContract, EvidenceObservation, ContractEvaluation, LogicalResult, EvaluationLifecycle,
  completed,
}
use sisyphus_harness.Evidence.Expressions.{evaluate_expression, result_of}
use sisyphus_harness.Evidence.Lint.{Limits, LintIssue, lint_rule_set, has_id}
use sisyphus_harness.Evidence.Lint.Walk.{size}
use sisyphus_harness.Evidence.Lint.Clean.{IsClean, lint_rule_set-IsClean, IsClean-lint_rule_set}
use sisyphus_harness.Evidence.Evaluation.{
  Codec, evaluate_clauses, evaluate_evidence_contract, contract_linted, observation_input_error,
  observation_set_digest, observation_ids_of, has_duplicates,
}
use sisyphus_harness.Evidence.Evaluation.Totality.{evaluate_evidence_contract-total}

-- No two observations have one identifier.
abbrev pub Distinct : List EvidenceObservation → Type 0
Distinct [] = Unit
Distinct (o ∷ rest) =
    All (λ (p : EvidenceObservation). ¬ (p.observation_id ≡ o.observation_id)) rest × Distinct rest

has_id-All :
    (id : String) (os : List EvidenceObservation)
    → has_id id (observation_ids_of os) ≡ false
    → All (λ (p : EvidenceObservation). ¬ (p.observation_id ≡ id)) os
has_id-All id [] h = tt
has_id-All id (o ∷ os) h =
    ((λ e. absurd (ground (arith, e, eq_iff o.observation_id id))), has_id-All id os (ground arith))

All-has_id :
    (id : String) (os : List EvidenceObservation)
    → All (λ (p : EvidenceObservation). ¬ (p.observation_id ≡ id)) os
    → has_id id (observation_ids_of os) ≡ false
All-has_id id [] h = refl
All-has_id id (o ∷ os) h = elim (Bool-cases (o.observation_id == id)) [
  | inl same ↦ absurd (h.0 (ground (arith, eq_iff o.observation_id id)))
  | inr other ↦ ground (arith, All-has_id id os h.1)
]

has_duplicates-Distinct :
    (os : List EvidenceObservation) → has_duplicates (observation_ids_of os) ≡ false → Distinct os
unfolding has_duplicates
has_duplicates-Distinct [] h = tt
has_duplicates-Distinct (o ∷ os) h =
    (has_id-All o.observation_id os (ground arith), has_duplicates-Distinct os (ground arith))

Distinct-has_duplicates :
    (os : List EvidenceObservation) → Distinct os → has_duplicates (observation_ids_of os) ≡ false
unfolding has_duplicates
Distinct-has_duplicates [] d = refl
Distinct-has_duplicates (o ∷ os) d =
    ground (arith, All-has_id o.observation_id os d.0, Distinct-has_duplicates os d.1)

-- An evaluation that failed with the code, for the digest of the set of observations.
abbrev pub failed_with : String → String → String → ContractEvaluation
failed_with contract set code = record {
  contract_digest = contract;
  observation_set_digest = set;
  lifecycle = EvaluationLifecycle.error;
  logical_result = none;
  predicates = [];
  error_code = some code;
}

-- What an evaluation returns, and when.
pub data EvaluatedTo (codec : Codec) (limits : Limits) (c : EvidenceContract)
    (observations : List EvidenceObservation) (r : ContractEvaluation) : Type 0 where
  too_many :
      limits.max_observations < length observations
      → r
        ≡ failed_with
            (codec.contract_digest c)
            (codec.rejected_digest (length observations) limits.max_observations)
            "too_many_observations"
      → EvaluatedTo codec limits c observations r
  not_linted :
      length observations ≤ limits.max_observations
      → ¬ IsClean limits c.clauses c.task_success (codec.contract_bytes c)
      → r
        ≡ failed_with
            (codec.contract_digest c)
            (observation_set_digest codec observations)
            "contract_lint_failed"
      → EvaluatedTo codec limits c observations r
  duplicated :
      length observations ≤ limits.max_observations
      → IsClean limits c.clauses c.task_success (codec.contract_bytes c)
      → ¬ Distinct observations
      → r
        ≡ failed_with
            (codec.contract_digest c)
            (observation_set_digest codec observations)
            "duplicate_observation_id"
      → EvaluatedTo codec limits c observations r
  evaluated :
      (root : LogicalResult)
      → length observations ≤ limits.max_observations
      → IsClean limits c.clauses c.task_success (codec.contract_bytes c)
      → Distinct observations
      → evaluate_expression (result_of (evaluate_clauses c.clauses observations)) c.task_success
        ≡ some root
      → r ≡ record {
        contract_digest = codec.contract_digest c;
        observation_set_digest = observation_set_digest codec observations;
        lifecycle = completed;
        logical_result = some root;
        predicates = evaluate_clauses c.clauses observations;
        error_code = none;
      }
      → EvaluatedTo codec limits c observations r

module _ (fuel : ℕ) (codec : Codec) (limits : Limits) (c : EvidenceContract)
    (observations : List EvidenceObservation) (r : ContractEvaluation)
    (few : length observations ≤ limits.max_observations)
    (fuelled : size c.task_success ≤ fuel) where
  linted-EvaluatedTo :
      IsClean limits c.clauses c.task_success (codec.contract_bytes c)
      → contract_linted codec limits c observations [] ≡ some r
      → EvaluatedTo codec limits c observations r
  unfolding contract_linted observation_input_error
  linted-EvaluatedTo clean h =
      elim (Bool-cases (has_duplicates (observation_ids_of observations))) [
        | inl twice ↦
            duplicated few clean
              (λ d. absurd (ground (arith, twice, Distinct-has_duplicates observations d)))
              (ground arith)
        | inr once ↦
            let results = result_of (evaluate_clauses c.clauses observations) in
            elim (Option-cases (evaluate_expression results c.task_success)) [
              | inl missing ↦ absurd (ground arith)
              | inr (root, k) ↦
                  evaluated root few clean (has_duplicates-Distinct observations once) k
                    (ground arith)
            ]
      ]

  few-EvaluatedTo :
      (issues : List LintIssue)
      → lint_rule_set fuel limits c.clauses c.task_success (codec.contract_bytes c) ≡ some issues
      → contract_linted codec limits c observations issues ≡ some r
      → EvaluatedTo codec limits c observations r
  unfolding contract_linted
  few-EvaluatedTo (issue ∷ issues) found h =
      not_linted few
        (λ clean. absurd (
          ground (
            arith,
            found,
            IsClean-lint_rule_set limits c.clauses c.task_success (codec.contract_bytes c) fuel
                fuelled clean,
          )))
        (ground arith)
  few-EvaluatedTo [] found h =
      linted-EvaluatedTo
        (lint_rule_set-IsClean limits c.clauses c.task_success (codec.contract_bytes c) fuel fuelled
          found)
        h

returned-EvaluatedTo :
    (fuel : ℕ) (codec : Codec) (limits : Limits) (c : EvidenceContract)
    (observations : List EvidenceObservation) (r : ContractEvaluation)
    → size c.task_success ≤ fuel
    → evaluate_evidence_contract fuel codec limits c observations ≡ some r
    → EvaluatedTo codec limits c observations r
unfolding evaluate_evidence_contract
returned-EvaluatedTo fuel codec limits c observations r fuelled h =
    let lint = lint_rule_set fuel limits c.clauses c.task_success (codec.contract_bytes c) in
    elim (Bool-cases (ltb limits.max_observations (length observations))) [
      | inl many ↦ too_many (ground arith) (ground arith)
      | inr few ↦ elim (Option-cases lint) [
        | inl out ↦ absurd (ground arith)
        | inr (issues, found) ↦
            few-EvaluatedTo fuel codec limits c observations r (ground arith) fuelled issues found
              (ground arith)
      ]
    ]

-- On fuel for the nodes of the contract's expression, or more, an evaluation returns. Over the limit of
-- observations it has failed with `too_many_observations`; else, unless the contract is clean (within the
-- limits, its expression references each of its clauses, no other and none twice, and each expected value
-- fits its operator), with `contract_lint_failed`; else, with an identifier that two observations have,
-- with `duplicate_observation_id`; an evaluation that failed has neither a result nor predicates. Else it
-- has completed, with the results of all clauses and the value of the expression over them, and no error
-- code.
pub evaluate_evidence_contract-EvaluatedTo :
    (fuel : ℕ) (codec : Codec) (limits : Limits) (c : EvidenceContract)
    (observations : List EvidenceObservation)
    → size c.task_success ≤ fuel
    → (r : ContractEvaluation) × (evaluate_evidence_contract fuel codec limits c observations
        ≡ some r)
      × EvaluatedTo codec limits c observations r
evaluate_evidence_contract-EvaluatedTo fuel codec limits c observations h =
    let total = evaluate_evidence_contract-total fuel codec limits c observations h in
    elim (Option-cases (evaluate_evidence_contract fuel codec limits c observations)) [
      | inl out ↦ absurd (ground (arith, total, out))
      | inr (r, e) ↦ (r, e, returned-EvaluatedTo fuel codec limits c observations r h e)
    ]
