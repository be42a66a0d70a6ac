-- ===== src/Verification/Adjudication.antt =====
-- services/evidence_contract.py: `ControlEvidenceContractService.adjudicate`, which has a finished attempt's
-- bundle verified and evaluates the facts of the receipt, and the values of ports/evidence_contracts.py.
-- The verifier and the adapter are what the service is given.
pub mod Independence
pub mod Bound
use sisyphus_harness.Prelude.{
  ℕ, String, Bool, true, false, not, ◌&&◌, Option, none, some, List, [], ◌∷◌, ◌==◌, is_some, eqb,
}
use sisyphus_harness.Prelude.Checked.{Checked, accepted, raised, ensure, ◌>>=◌, ◌>>◌}
use sisyphus_harness.Prelude.Equality.{equal}
use sisyphus_harness.Contracts.{ArtifactRef, AttemptFinished}
use sisyphus_harness.Contracts.Verification.{
  CommandResult, VerificationReceipt, VerificationProfile, VerifierExecutionIdentity,
  BundleVerificationRequest, VerificationServiceResult,
}
use sisyphus_harness.Contracts.Equality.{receipt-discrete}
use sisyphus_harness.Evidence.{EvidenceContract, EvidenceObservation, ContractEvaluation}
use sisyphus_harness.Evidence.Predicates.{int_eq}
use sisyphus_harness.Evidence.Lint.{Limits}
use sisyphus_harness.Evidence.Lint.Walk.{size}
use sisyphus_harness.Evidence.Evaluation.{Codec, evaluate_evidence_contract}
use sisyphus_harness.Verification.{Digests}
use sisyphus_harness.Verification.Bindings.{validate_final_verification_bindings}
use sisyphus_harness.Verification.Facts.{validate_final_command_observations}

-- `VerificationServicePort` and `ReceiptObservationPort`, whose calls may raise.
pub record Ports : Type 0 where
  pub execution_identity : Checked VerifierExecutionIdentity
  pub execute : BundleVerificationRequest → Checked VerificationServiceResult
  pub read_receipt : ArtifactRef → Checked VerificationReceipt
  pub adapter_digest : String
  pub adapt :
      BundleVerificationRequest
      → VerificationServiceResult
      → String
      → Checked (List EvidenceObservation)

pub record EvidenceAdjudicationRequest : Type 0 where
  pub job_result : AttemptFinished
  pub profile : VerificationProfile
  pub contract : EvidenceContract
  pub run_id : String
  pub producer_authority : String

pub record EvidenceAdjudicationResult : Type 0 where
  pub job_id : String
  pub attempt_id : String
  pub output_bundle_id : String
  pub agent_reported_success : Bool
  pub verification_request : BundleVerificationRequest
  pub verification_result : VerificationServiceResult
  pub observations : List EvidenceObservation
  pub evaluation : ContractEvaluation

-- `EvidenceContractLimits()`
abbrev pub default_limits : Limits
default_limits = record {
  max_clauses = 128;
  max_expression_nodes = 512;
  max_expression_depth = 32;
  max_contract_bytes = 262144;
  max_observations = 1024;
}

-- The tests on a request before the verifier is asked.
unfoldable pub check_profile : Ports → EvidenceAdjudicationRequest → Checked (Unit {0})
check_profile ports request = do
  ensure (ports.adapter_digest == request.contract.observation_adapter_digest)
      "observation adapter does not match the EvidenceContract"
  ensure
      (request.profile.schema_version == "sisyphus_harness.verification_profile.v2"
        && is_some request.profile.asset_bundle)
      "Control final verification requires a v2 verifier-asset profile"

abbrev pub verification_request_of :
    EvidenceAdjudicationRequest → VerifierExecutionIdentity → BundleVerificationRequest
verification_request_of request identity = record {
  run_id = request.run_id;
  workspace_bundle = request.job_result.output_bundle;
  profile = request.profile;
  execution_identity = some identity;
  schema_version = "sisyphus_harness.bundle_verification_request.v2";
}

-- The verifier's result, with the receipt as it was read.
unfoldable pub verified :
    Digests → Ports → BundleVerificationRequest → Checked VerificationServiceResult
unfolding validate_final_verification_bindings receipt-discrete
verified digests ports request = do
  result ← ports.execute request
  validate_final_verification_bindings digests true request result
  receipt ← ports.read_receipt result.receipt_artifact
  ensure (equal receipt-discrete receipt result.receipt)
      "inline verification receipt does not match its authoritative artifact"
  let final : VerificationServiceResult = record result { receipt = receipt }
  validate_final_verification_bindings digests true request final
  accepted final

unfoldable pub validated_observations :
    Ports
    → BundleVerificationRequest
    → VerificationServiceResult
    → String
    → Checked (List EvidenceObservation)
unfolding validate_final_command_observations
validated_observations ports request result authority = do
  observations ← ports.adapt request result authority
  validate_final_command_observations request result observations authority
  accepted observations

-- `evaluate_evidence_contract` with the default limits, and fuel for the lint of the whole expression.
unfoldable pub evaluated :
    Codec → EvidenceContract → List EvidenceObservation → Checked ContractEvaluation
unfolding evaluate_evidence_contract size
evaluated codec contract observations =
    elim (evaluate_evidence_contract (size contract.task_success) codec default_limits contract
      observations) [ none ↦ raised "KeyError" | some evaluation ↦ accepted evaluation ]

-- `EvidenceAdjudicationResult.__post_init__`
unfoldable pub check_adjudication : Digests → EvidenceAdjudicationResult → Checked (Unit {0})
check_adjudication digests r = do
  ensure (not (r.job_id == "") && not (r.attempt_id == "") && not (r.output_bundle_id == ""))
      "adjudication result identity must be non-empty"
  ensure (r.output_bundle_id == r.verification_request.workspace_bundle.bundle_id)
      "adjudication output bundle does not match the verification request"
  ensure (r.verification_result.request_digest == digests.request_digest r.verification_request)
      "adjudication verification result does not match its request"
  ensure (r.verification_result.workspace_bundle_id == r.output_bundle_id)
      "adjudication verification result does not match the output bundle"
  ensure
      (r.verification_result.profile_digest
        == digests.profile_digest r.verification_request.profile)
      "adjudication verification result does not match the profile"
  ensure (r.verification_result.receipt.run_id == r.verification_request.run_id)
      "adjudication receipt does not match the verification run"

abbrev pub adjudication_result :
    AttemptFinished
    → BundleVerificationRequest
    → VerificationServiceResult
    → List EvidenceObservation
    → ContractEvaluation
    → EvidenceAdjudicationResult
adjudication_result job_result request result observations evaluation = record {
  job_id = job_result.job_id;
  attempt_id = job_result.attempt_id;
  output_bundle_id = job_result.output_bundle.bundle_id;
  agent_reported_success = job_result.agent_result.success;
  verification_request = request;
  verification_result = result;
  observations = observations;
  evaluation = evaluation;
}

-- `adjudicate`
unfoldable pub adjudicate :
    Digests → Codec → Ports → EvidenceAdjudicationRequest → Checked EvidenceAdjudicationResult
unfolding check_profile verified validated_observations evaluated check_adjudication
adjudicate digests codec ports request = do
  check_profile ports request
  identity ← ports.execution_identity
  let asked = verification_request_of request identity
  result ← verified digests ports asked
  observations ← validated_observations ports asked result request.producer_authority
  evaluation ← evaluated codec request.contract observations
  check_adjudication digests
      (adjudication_result request.job_result asked result observations evaluation)
  accepted (adjudication_result request.job_result asked result observations evaluation)
