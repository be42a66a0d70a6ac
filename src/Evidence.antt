-- ===== src/Evidence.antt =====
-- contracts/evidence_contract.py: evidence contracts, observations and evaluations. The values are those
-- that the constructors of the dataclasses let through.
pub mod Equality
pub mod Predicates
pub mod Expressions
pub mod Lint
pub mod Evaluation
use sisyphus_harness.Prelude.{ℕ, String, Bool, true, false, ◌&&◌, Option, List, ◌==◌}
use sisyphus_harness.Prelude.Float.{ℤ}

pub data Scalar : Type 0 where
  boolean : Bool → Scalar
  integer : ℤ → Scalar
  text : String → Scalar

pub data EvidenceValue : Type 0 where
  scalar : Scalar → EvidenceValue
  sequence : List Scalar → EvidenceValue

pub data PredicateOperator : Type 0 where
  equals not_equals less_than less_than_or_equal greater_than greater_than_or_equal :
      PredicateOperator
  contains subset disjoint : PredicateOperator

pub data LogicalResult : Type 0 where
  pass fail indeterminate : LogicalResult

pub data EvaluationLifecycle : Type 0 where
  completed error : EvaluationLifecycle

pub data GapClosureResult : Type 0 where
  closed not_closed indeterminate : GapClosureResult

pub record EvidenceSelector : Type 0 where
  pub observation_type : String
  pub stage : String
  pub check_id : String
  pub producer_authority : String

pub record EvidenceClause : Type 0 where
  pub clause_id : String
  pub selector : EvidenceSelector
  pub operator : PredicateOperator
  pub expected : EvidenceValue

mutual
  pub data EvidenceExpression : Type 0 where
    clause_ref : String → EvidenceExpression
    all_of : Children → EvidenceExpression
    any_of : Children → EvidenceExpression
    at_least : ℕ → Children → EvidenceExpression
    negated : EvidenceExpression → EvidenceExpression

  pub data Children : Type 0 where
    nil : Children
    child : EvidenceExpression → Children → Children

pub record EvidenceContract : Type 0 where
  pub contract_id : String
  pub version : ℕ
  pub requirement_ids : List String
  pub gap_ids : List String
  pub task_basis_ids : List String
  pub verification_profile_digest : String
  pub observation_adapter_digest : String
  pub clauses : List EvidenceClause
  pub task_success : EvidenceExpression

pub record GapClosureRule : Type 0 where
  pub rule_id : String
  pub version : ℕ
  pub requirement_id : String
  pub gap_id : String
  pub clauses : List EvidenceClause
  pub closure_condition : EvidenceExpression

-- The status of an observation, with its `value` where it is `observed` and its `reason_code` elsewhere.
pub data Reading : Type 0 where
  observed : EvidenceValue → Reading
  unavailable error : String → Reading

pub record EvidenceObservation : Type 0 where
  pub observation_id : String
  pub selector : EvidenceSelector
  pub subject_digest : String
  pub source_run_id : String
  pub artifact_digest : String
  pub reading : Reading

pub record PredicateEvaluation : Type 0 where
  pub clause_id : String
  pub result : LogicalResult
  pub observation_ids : List String
  pub reason_code : String

pub record ContractEvaluation : Type 0 where
  pub contract_digest : String
  pub observation_set_digest : String
  pub lifecycle : EvaluationLifecycle
  pub logical_result : Option LogicalResult
  pub predicates : List PredicateEvaluation
  pub error_code : Option String

pub record GapClosureEvaluation : Type 0 where
  pub rule_digest : String
  pub requirement_id : String
  pub gap_id : String
  pub grounding_revision : ℕ
  pub observation_set_digest : String
  pub lifecycle : EvaluationLifecycle
  pub closure_result : Option GapClosureResult
  pub predicates : List PredicateEvaluation
  pub error_code : Option String

abbrev pub is_pass : LogicalResult → Bool
is_pass pass = true
is_pass _ = false

abbrev pub is_fail : LogicalResult → Bool
is_fail fail = true
is_fail _ = false

abbrev pub is_indeterminate : LogicalResult → Bool
is_indeterminate indeterminate = true
is_indeterminate _ = false

abbrev pub selector_eq : EvidenceSelector → EvidenceSelector → Bool
selector_eq a b =
    a.observation_type == b.observation_type
    && a.stage == b.stage
    && a.check_id == b.check_id
    && a.producer_authority == b.producer_authority
