-- ===== src/Evidence/Evaluation/Samples.antt =====
-- Evaluations at concrete inputs.
use mathlib.Core.Option
use sisyphus_harness.Prelude.{
  ℕ, String, ◌≡◌, refl, ◌⊎◌, inl, inr, ◌↔◌, Bool, true, false, Option, none, some, List, [], ◌∷◌,
  is_some, arith, ◌==◌, if◌then◌else◌,
}
use sisyphus_harness.Prelude.Float.{pos}
use sisyphus_harness.Evidence.{
  integer, text, scalar, equals, not_equals, less_than, less_than_or_equal, greater_than,
  greater_than_or_equal, EvidenceSelector, EvidenceClause, clause_ref, all_of, any_of, at_least,
  negated, Children, nil, child, EvidenceContract, GapClosureRule, observed, EvidenceObservation,
  LogicalResult, pass, fail, indeterminate, completed, ContractEvaluation,
}
use sisyphus_harness.Evidence.Predicates.{typed_equal, evaluate_predicate, same_value_schema}
use sisyphus_harness.Evidence.Predicates.Complements.{
  typed_equal_lem, evaluate_predicate_complements,
}
use sisyphus_harness.Evidence.Expressions.{evaluate_expression, not_result}
use sisyphus_harness.Evidence.Expressions.Kleene.{RefinesAt, evaluate_expression_mono}
use sisyphus_harness.Evidence.Expressions.Dual.{all_any-at_least}
use sisyphus_harness.Evidence.Lint.{Limits, walk, unvisited}
use sisyphus_harness.Evidence.Lint.Walk.{size, deepest, leaves, walk_lem}
use sisyphus_harness.Evidence.Evaluation.{
  Codec, evaluate_evidence_contract, evaluate_gap_closure_rule, has_duplicates,
}
use sisyphus_harness.Evidence.Evaluation.Totality.{
  evaluate_evidence_contract-total, evaluate_gap_closure_rule-total,
}
use sisyphus_harness.Evidence.Evaluation.Outcomes.{
  EvaluatedTo, evaluate_evidence_contract-EvaluatedTo,
}
use sisyphus_harness.Evidence.Evaluation.Closure.{as_closure, evaluate_gap_closure_rule-contract}
use sisyphus_harness.Evidence.Evaluation.Order.{exchange, evaluate_evidence_contract-Reordering}
use sisyphus_harness.Evidence.Evaluation.Missing.{is_valid, evaluate_nothing}

abbrev codec : Codec
codec = record {
  contract_digest = λ c. c.contract_id;
  contract_bytes = λ c. 100;
  rule_digest = λ r. r.rule_id;
  rule_bytes = λ r. 100;
  observation_digest = λ o. o.artifact_digest;
  set_digest = λ os. if is_some (first os) then "observations" else "empty";
  rejected_digest = λ n m. "rejected";
}
  where
    first : List EvidenceObservation → Option EvidenceObservation
    first [] = none
    first (o ∷ _) = some o

abbrev limits : Limits
limits = record {
  max_clauses = 128;
  max_expression_nodes = 512;
  max_expression_depth = 32;
  max_contract_bytes = 262144;
  max_observations = 1024;
}

abbrev selector : String → EvidenceSelector
selector id = record {
  observation_type = "metric";
  stage = "verify";
  check_id = id;
  producer_authority = "verifier";
}

abbrev clauses : List EvidenceClause
clauses =
    record {
      clause_id = "exit";
      selector = selector "exit";
      operator = equals;
      expected = scalar (integer (pos 0));
    }
    ∷ record {
      clause_id = "failures";
      selector = selector "failures";
      operator = greater_than;
      expected = scalar (integer (pos 0));
    }
    ∷ []

abbrev both : Children
both = child (clause_ref "exit") (child (negated (clause_ref "failures")) nil)

abbrev contract : EvidenceContract
contract = record {
  contract_id = "contract";
  version = 1;
  requirement_ids = "requirement" ∷ [];
  gap_ids = [];
  task_basis_ids = [];
  verification_profile_digest = "profile";
  observation_adapter_digest = "adapter";
  clauses = clauses;
  task_success = all_of both;
}

abbrev rule : GapClosureRule
rule = record {
  rule_id = "rule";
  version = 1;
  requirement_id = "requirement";
  gap_id = "gap";
  clauses = clauses;
  closure_condition = all_of both;
}

abbrev measured : String → ℕ → EvidenceObservation
measured id n = record {
  observation_id = id;
  selector = selector id;
  subject_digest = "subject";
  source_run_id = "run";
  artifact_digest = "artifact";
  reading = observed (scalar (integer (pos n)));
}

abbrev observations : List EvidenceObservation
observations = measured "exit" 0 ∷ measured "failures" 0 ∷ []

abbrev outcome_of : Option ContractEvaluation → Option LogicalResult
outcome_of none = none
outcome_of (some r) = r.logical_result

evaluate_passes :
    outcome_of (evaluate_evidence_contract 4 codec limits contract observations) ≡ some pass
unfolding evaluate_evidence_contract
evaluate_passes = refl

walk_lem_example :
    walk 4 ((all_of both, 1) ∷ []) unvisited
    ≡ some (record { nodes = 4; max_depth = 3; references = "exit" ∷ "failures" ∷ [] })
unfolding size deepest leaves
walk_lem_example = walk_lem 4 (all_of both) (omega arith)

evaluate_evidence_contract-total_example :
    is_some (evaluate_evidence_contract 4 codec limits contract observations) ≡ true
unfolding size
evaluate_evidence_contract-total_example =
    evaluate_evidence_contract-total 4 codec limits contract observations (omega arith)

evaluate_gap_closure_rule-total_example :
    is_some (evaluate_gap_closure_rule 4 codec limits rule 1 observations) ≡ true
unfolding size
evaluate_gap_closure_rule-total_example =
    evaluate_gap_closure_rule-total 4 codec limits rule 1 observations (omega arith)

evaluation_example :
    (r : ContractEvaluation) × (evaluate_evidence_contract 4 codec limits contract [] ≡ some r)
    × (r.lifecycle ≡ completed)
unfolding evaluate_evidence_contract
evaluation_example = (_, refl, refl)

evaluate_evidence_contract-EvaluatedTo_example :
    (r : ContractEvaluation) × (evaluate_evidence_contract 4 codec limits contract observations
      ≡ some r)
    × EvaluatedTo codec limits contract observations r
unfolding size
evaluate_evidence_contract-EvaluatedTo_example =
    evaluate_evidence_contract-EvaluatedTo 4 codec limits contract observations (omega arith)

abbrev code_of : Option ContractEvaluation → Option String
code_of none = none
code_of (some r) = r.error_code

-- Two observations with one identifier.
evaluate_twice :
    code_of (
      evaluate_evidence_contract 4 codec limits contract
        (measured "exit" 0 ∷ measured "exit" 1 ∷ []))
    ≡ some "duplicate_observation_id"
unfolding evaluate_evidence_contract
evaluate_twice = refl

evaluate_nothing_example : evaluation_example.0.logical_result ≡ some indeterminate
unfolding is_valid
evaluate_nothing_example =
    evaluate_nothing 4 codec limits contract evaluation_example.0 refl evaluation_example.1
      evaluation_example.2

evaluate_gap_closure_rule-contract_example :
    evaluate_gap_closure_rule 4 codec limits rule 1 observations
    ≡ Option.map
        (as_closure codec rule 1)
        (evaluate_evidence_contract 4 codec limits contract observations)
evaluate_gap_closure_rule-contract_example =
    evaluate_gap_closure_rule-contract 4 codec limits contract rule 1 observations refl refl refl

evaluate_evidence_contract-Reordering_example :
    evaluate_evidence_contract 4 codec limits contract observations
    ≡ evaluate_evidence_contract 4 codec limits contract
        (measured "failures" 0 ∷ measured "exit" 0 ∷ [])
unfolding has_duplicates
evaluate_evidence_contract-Reordering_example =
    evaluate_evidence_contract-Reordering 4 codec limits contract
      (exchange (measured "exit" 0) (measured "failures" 0) []) refl

typed_equal_lem_example :
    (typed_equal (scalar (integer (pos 1))) (scalar (text "1")) ≡ true)
    ↔ (scalar (integer (pos 1)) ≡ scalar (text "1"))
typed_equal_lem_example = typed_equal_lem (scalar (integer (pos 1))) (scalar (text "1"))

evaluate_predicate_complements_example :
    let actual = scalar (text "1") in
    let expected = scalar (integer (pos 1)) in
    ((evaluate_predicate less_than actual expected).result
      ≡ not_result (evaluate_predicate greater_than_or_equal actual expected).result)
    × ((evaluate_predicate greater_than actual expected).result
        ≡ not_result (evaluate_predicate less_than_or_equal actual expected).result)
    × (((same_value_schema actual expected ≡ true)
          × ((evaluate_predicate not_equals actual expected).result
              ≡ not_result (evaluate_predicate equals actual expected).result))
        ⊎ ((same_value_schema actual expected ≡ false)
            × ((evaluate_predicate equals actual expected).result ≡ fail)
            × ((evaluate_predicate not_equals actual expected).result ≡ indeterminate)))
evaluate_predicate_complements_example =
    evaluate_predicate_complements (scalar (text "1")) (scalar (integer (pos 1)))

abbrev before : String → Option LogicalResult
before id = if id == "exit" then some pass else some indeterminate

abbrev after : String → Option LogicalResult
after id = if id == "exit" then some pass else some fail

all_any-at_least_example :
    (evaluate_expression before (any_of both) ≡ evaluate_expression before (at_least 1 both))
    × (evaluate_expression before (all_of both) ≡ evaluate_expression before (at_least 2 both))
all_any-at_least_example = all_any-at_least before both

abbrev refined :
    (b : Bool)
    → RefinesAt (if b then some pass else some indeterminate) (if b then some pass else some fail)
refined true = inr refl
refined false = inl refl

evaluate_expression_mono_example :
    RefinesAt (evaluate_expression before (all_of both)) (evaluate_expression after (all_of both))
evaluate_expression_mono_example =
    evaluate_expression_mono before after (all_of both) (λ id. refined (id == "exit"))
