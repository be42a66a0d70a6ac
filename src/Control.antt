-- ===== src/Control.antt =====
-- contracts/control/outcomes.py: the decision on a task and the outcome that is published for it.
pub mod Authority
pub mod Service
mod Samples
use native.Mathlib.Decide.{ℕ_discrete}
use sisyphus_harness.Prelude.{
  ℕ, String, Bool, true, false, not, ◌&&◌, Option, none, some, List, [], ◌∷◌, ◌==◌, ltb, all,
  is_some, if◌then◌else◌,
}
use sisyphus_harness.Prelude.Checked.{Checked, accepted, raised, ensure, ◌>>=◌, ◌>>◌}
use sisyphus_harness.Prelude.Equality.{String-discrete, equal}
use sisyphus_harness.Prelude.Text.{has_null, is_sha256, join_text, padded_decimal}
use sisyphus_harness.Contracts.{ArtifactRef}
use sisyphus_harness.Contracts.Verification.{
  VerificationProfile, VerificationReceipt, VerifierExecutionIdentity,
}
use sisyphus_harness.Contracts.Equality.{
  artifact-discrete, profile-discrete, option_text-discrete, option_identity-discrete,
}
use sisyphus_harness.Evidence.{
  LogicalResult, pass, fail, EvaluationLifecycle, completed, error, EvidenceContract,
  ContractEvaluation,
}
use sisyphus_harness.Verification.{Digests, is_token}
use sisyphus_harness.Verification.Bindings.{is_text}
use sisyphus_harness.Evidence.Equality.{contract-discrete, evaluation-discrete}

pub data TaskOutcomeDecision : Type 0 where
  passed failed indeterminate : TaskOutcomeDecision

-- The dict from logical results to decisions.
abbrev pub decision_of : LogicalResult → TaskOutcomeDecision
decision_of pass = passed
decision_of fail = failed
decision_of LogicalResult.indeterminate = TaskOutcomeDecision.indeterminate

-- `TaskOutcomeDecision.from_evaluation`
unfoldable pub from_evaluation : ContractEvaluation → Checked TaskOutcomeDecision
from_evaluation evaluation = elim (evaluation.lifecycle) [
  | error ↦ accepted TaskOutcomeDecision.indeterminate
  | completed ↦ elim (evaluation.logical_result) [
    | none ↦ raised "completed task evaluation has no logical result"
    | some result ↦ accepted (decision_of result)
  ]
]

pub record TaskOutcome : Type 0 where
  pub job_id : String
  pub attempt : ℕ
  pub attempt_id : String
  pub attempt_digest : String
  pub source_bundle_id : String
  pub output_bundle_id : String
  pub contract_digest : String
  pub contract : EvidenceContract
  pub verification_run_id : String
  pub verification_request_digest : String
  pub verification_profile_digest : String
  pub verification_profile : VerificationProfile
  pub verification_receipt_digest : String
  pub verification_receipt_artifact : ArtifactRef
  pub producer_authority : String
  pub observation_set_digest : String
  pub evaluation_digest : String
  pub evaluation : ContractEvaluation
  pub decision : TaskOutcomeDecision
  pub evidence_finished_at : String
  pub verification_execution_identity_digest : Option String
  pub verification_execution_identity : Option VerifierExecutionIdentity
  pub schema_version : String

unfoldable pub decision-discrete : Discrete TaskOutcomeDecision
decision-discrete = hlevel

unfoldable pub outcome-discrete : Discrete TaskOutcome
outcome-discrete = hlevel (
  String-discrete, ℕ_discrete, contract-discrete, profile-discrete, artifact-discrete,
  evaluation-discrete, decision-discrete, option_text-discrete, option_identity-discrete,
)

-- SHA-256 digests of canonical JSON: those of Digests, of contracts, of evaluations and of receipts.
pub record OutcomeDigests : Type 0 where
  pub digests : Digests
  pub contract_digest : EvidenceContract → String
  pub evaluation_digest : ContractEvaluation → String
  pub receipt_digest : VerificationReceipt → String

-- `string` of contracts/control/_validation.py
unfoldable pub is_string : String → Bool
unfolding has_null
is_string s = not (s == "") && not (has_null s)

-- `validate_attempt_identity`
unfoldable pub is_attempt_identity : String → ℕ → String → Bool
unfolding is_string join_text padded_decimal
is_attempt_identity job_id attempt attempt_id =
    is_string job_id
    && ltb 0 attempt
    && is_string attempt_id
    && attempt_id == join_text job_id (join_text "/attempt-" (padded_decimal attempt))

-- `_validate_snapshots`
unfoldable pub check_snapshots : OutcomeDigests → TaskOutcome → Checked (Unit {0})
check_snapshots d o = do
  ensure (d.contract_digest o.contract == o.contract_digest)
      "task outcome contract digest is inconsistent"
  ensure (d.digests.profile_digest o.verification_profile == o.verification_profile_digest)
      "task outcome profile digest is inconsistent"
  ensure (o.contract.verification_profile_digest == d.digests.profile_digest o.verification_profile)
      "task outcome contract and profile are inconsistent"

-- The checks on the decision.
unfoldable pub check_decision : OutcomeDigests → TaskOutcome → Checked (Unit {0})
unfolding from_evaluation decision-discrete
check_decision d o = do
  ensure
      (o.evaluation.contract_digest == o.contract_digest
        && o.evaluation.observation_set_digest == o.observation_set_digest
        && d.evaluation_digest o.evaluation == o.evaluation_digest)
      "task outcome evaluation binding is inconsistent"
  decision ← from_evaluation o.evaluation
  ensure (equal decision-discrete o.decision decision)
      "task outcome decision is inconsistent with evaluation"

abbrev identifies : OutcomeDigests → Option VerifierExecutionIdentity → Option String → Bool
identifies d none digest = false
identifies d (some identity) digest = is_text (d.digests.identity_digest identity) digest

abbrev is_sha256_option : Option String → Bool
is_sha256_option none = false
is_sha256_option (some digest) = is_sha256 digest

-- The checks on the schema, and on what it lets an outcome bind.
unfoldable pub check_schema : OutcomeDigests → TaskOutcome → Checked (Unit {0})
unfolding is_sha256
check_schema d o =
    if o.schema_version == "sisyphus_harness.task_outcome.v1"
    then ensure
        (not (is_some o.verification_execution_identity_digest)
          && not (is_some o.verification_execution_identity))
        "v1 task outcome cannot bind execution identity"
    else (do
      ensure (o.schema_version == "sisyphus_harness.task_outcome.v2")
          "unsupported task-outcome schema"
      ensure (is_some o.verification_execution_identity)
          "v2 task outcome requires exact verifier execution identity"
      ensure (is_sha256_option o.verification_execution_identity_digest)
          "task outcome verifier execution identity digest must be SHA-256"
      ensure
          (identifies d o.verification_execution_identity o.verification_execution_identity_digest)
          "task outcome verifier execution identity digest is inconsistent"
      ensure
          (o.verification_profile.schema_version == "sisyphus_harness.verification_profile.v2"
            && is_some o.verification_profile.asset_bundle)
          "v2 task outcome requires a verifier-asset-bound profile")

-- `TaskOutcome.__post_init__`
unfoldable pub check_task_outcome : OutcomeDigests → TaskOutcome → Checked (Unit {0})
unfolding is_attempt_identity is_sha256 is_token check_snapshots join_text check_decision
    check_schema
check_task_outcome d o = do
  ensure (is_attempt_identity o.job_id o.attempt o.attempt_id) "attempt ID is inconsistent"
  ensure
      (all is_sha256 (
        o.attempt_digest ∷ o.contract_digest ∷ o.verification_request_digest
        ∷ o.verification_profile_digest ∷ o.verification_receipt_digest ∷ o.observation_set_digest
        ∷ o.evaluation_digest ∷ []))
      "task outcome digest must be SHA-256"
  ensure
      (all is_string (
        o.source_bundle_id ∷ o.output_bundle_id ∷ o.verification_run_id ∷ o.evidence_finished_at
        ∷ []))
      "task outcome field must be a non-empty string"
  ensure (is_token o.producer_authority) "task outcome producer authority must be a bounded token"
  check_snapshots d o
  ensure
      (o.verification_receipt_artifact.artifact_id
        == join_text o.verification_run_id "/receipt.json")
      "task outcome receipt artifact ID is inconsistent"
  check_decision d o
  check_schema d o
