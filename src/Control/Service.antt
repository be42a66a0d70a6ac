-- ===== src/Control/Service.antt =====
-- services/control_outcomes.py: `ControlTaskOutcomeService.adjudicate`. Its three calls of the authority are
-- three transactions, so each has a database of its own: the one that it finds.
pub mod Decision
use sisyphus_harness.Prelude.{
  String, ◌≡◌, refl, sym, ap, ◌∙◌, Bool, true, false, not, ◌&&◌, ◌||◌, Option, none, some, ◌==◌,
  arith, is_some, inl, inr, if◌then◌else◌,
}
use sisyphus_harness.Prelude.Checked.{
  Checked, accepted, raised, ensure, ◌>>=◌, ◌>>◌, Checked-cases, >>=-accepted, ensure-accepted,
  accepted-after,
}
use sisyphus_harness.Prelude.Equality.{equal, equal_iff}
use sisyphus_harness.Contracts.{AttemptFinished, WorkspaceBundleRef}
use sisyphus_harness.Contracts.Verification.{
  VerificationProfile, VerifierExecutionIdentity, BundleVerificationRequest,
}
use sisyphus_harness.Contracts.Equality.{bundle-discrete, profile-discrete}
use sisyphus_harness.Evidence.{EvidenceContract}
use sisyphus_harness.Database.{
  Db, Result, ok, err, control_error, exception, require, Outcome, checked, Result-cases,
}
use sisyphus_harness.Verification.Bindings.{is_text, same_identity, same_option_text, asset_id}
use sisyphus_harness.Verification.Adjudication.{
  EvidenceAdjudicationRequest, EvidenceAdjudicationResult,
}
use sisyphus_harness.Control.{
  TaskOutcomeDecision, TaskOutcome, OutcomeDigests, from_evaluation, check_task_outcome,
}
use sisyphus_harness.Control.Authority.{
  OutcomeCodec, get_attempt_finished, get_task_outcome, publish_task_outcome,
}

pub record TaskOutcomeRequest : Type 0 where
  pub job_id : String
  pub profile : VerificationProfile
  pub contract : EvidenceContract
  pub run_id : String
  pub producer_authority : String

-- `EvidenceContractAdjudicationPort.adjudicate`
abbrev pub Adjudicator : Type 0
Adjudicator = EvidenceAdjudicationRequest → Checked EvidenceAdjudicationResult

abbrev pub adjudication_request : TaskOutcomeRequest → AttemptFinished → EvidenceAdjudicationRequest
adjudication_request request attempt = record {
  job_result = attempt;
  profile = request.profile;
  contract = request.contract;
  run_id = request.run_id;
  producer_authority = request.producer_authority;
}

-- The outcome that the job has was made from the same inputs.
unfoldable pub same_inputs : OutcomeDigests → TaskOutcomeRequest → TaskOutcome → Bool
same_inputs d request o =
    o.contract_digest == d.contract_digest request.contract
    && o.verification_profile_digest == d.digests.profile_digest request.profile
    && o.verification_run_id == request.run_id
    && o.producer_authority == request.producer_authority

-- The two tests on what the adjudicator returned.
unfoldable pub is_v2_verification : TaskOutcomeRequest → EvidenceAdjudicationResult → Bool
is_v2_verification request a =
    request.profile.schema_version == "sisyphus_harness.verification_profile.v2"
    && is_some request.profile.asset_bundle
    && a.verification_request.schema_version == "sisyphus_harness.bundle_verification_request.v2"
    && a.verification_result.schema_version == "sisyphus_harness.verification_service_result.v2"
    && a.verification_result.receipt.schema_version == "sisyphus_harness.verification.v3"

-- The verification request is for the attempt's bundle, with the profile and the run of the request.
unfoldable pub asks_for_attempt :
    TaskOutcomeRequest → AttemptFinished → BundleVerificationRequest → Bool
unfolding bundle-discrete profile-discrete
asks_for_attempt request attempt asked =
    asked.run_id == request.run_id
    && equal bundle-discrete asked.workspace_bundle attempt.output_bundle
    && equal profile-discrete asked.profile request.profile

-- The verification's result is the answer to its request.
unfoldable pub answers_request :
    OutcomeDigests
    → TaskOutcomeRequest
    → AttemptFinished
    → VerifierExecutionIdentity
    → EvidenceAdjudicationResult
    → Bool
answers_request d request attempt identity a =
    let asked = a.verification_request in
    let result = a.verification_result in
    let bundle_id = attempt.output_bundle.bundle_id in
    let profile_digest = d.digests.profile_digest request.profile in
    result.request_digest == d.digests.request_digest asked
    && result.workspace_bundle_id == bundle_id
    && result.profile_digest == profile_digest
    && same_identity result.execution_identity (some identity)
    && result.receipt.run_id == request.run_id
    && result.receipt.request_digest == d.digests.request_digest asked
    && is_text bundle_id result.receipt.workspace_bundle_id
    && is_text profile_digest result.receipt.profile_digest
    && is_text (d.digests.identity_digest identity) result.receipt.execution_identity_digest
    && same_option_text result.receipt.verifier_asset_bundle_id
        (asset_id request.profile.asset_bundle)

unfoldable pub is_bound_to_attempt :
    OutcomeDigests
    → TaskOutcomeRequest
    → AttemptFinished
    → VerifierExecutionIdentity
    → EvidenceAdjudicationResult
    → Bool
unfolding asks_for_attempt answers_request
is_bound_to_attempt d request attempt identity a =
    a.job_id == attempt.job_id
    && a.attempt_id == attempt.attempt_id
    && a.output_bundle_id == attempt.output_bundle.bundle_id
    && asks_for_attempt request attempt a.verification_request
    && answers_request d request attempt identity a

-- The identity that the verification is bound to.
unfoldable pub checked_identity :
    OutcomeDigests
    → TaskOutcomeRequest
    → AttemptFinished
    → EvidenceAdjudicationResult
    → Checked VerifierExecutionIdentity
unfolding is_v2_verification is_bound_to_attempt
checked_identity d request attempt a = elim (a.verification_request.execution_identity) [
  | none ↦ raised "Control outcome requires asset- and identity-bound v2 verification"
  | some identity ↦ (do
    ensure (is_v2_verification request a)
        "Control outcome requires asset- and identity-bound v2 verification"
    ensure (is_bound_to_attempt d request attempt identity a)
        "adjudication result is not bound to the authoritative attempt"
    accepted identity)
]

abbrev pub task_outcome_of :
    OutcomeDigests
    → OutcomeCodec
    → TaskOutcomeRequest
    → AttemptFinished
    → EvidenceAdjudicationResult
    → VerifierExecutionIdentity
    → TaskOutcomeDecision
    → TaskOutcome
task_outcome_of d codec request attempt a identity decision = record {
  job_id = attempt.job_id;
  attempt = attempt.attempt;
  attempt_id = attempt.attempt_id;
  attempt_digest = codec.attempt_digest attempt;
  source_bundle_id = attempt.source_bundle.bundle_id;
  output_bundle_id = attempt.output_bundle.bundle_id;
  contract_digest = d.contract_digest request.contract;
  contract = request.contract;
  verification_run_id = a.verification_request.run_id;
  verification_request_digest = a.verification_result.request_digest;
  verification_profile_digest = a.verification_result.profile_digest;
  verification_profile = request.profile;
  verification_receipt_digest = d.receipt_digest a.verification_result.receipt;
  verification_receipt_artifact = a.verification_result.receipt_artifact;
  producer_authority = request.producer_authority;
  observation_set_digest = a.evaluation.observation_set_digest;
  evaluation_digest = d.evaluation_digest a.evaluation;
  evaluation = a.evaluation;
  decision = decision;
  evidence_finished_at = a.verification_result.receipt.finished_at;
  verification_execution_identity_digest = some (d.digests.identity_digest identity);
  verification_execution_identity = some identity;
  schema_version = "sisyphus_harness.task_outcome.v2";
}

-- The outcome of an adjudication, with the checks of its constructor.
unfoldable pub outcome_of :
    OutcomeDigests
    → OutcomeCodec
    → TaskOutcomeRequest
    → AttemptFinished
    → EvidenceAdjudicationResult
    → Checked TaskOutcome
unfolding checked_identity from_evaluation check_task_outcome
outcome_of d codec request attempt a = do
  identity ← checked_identity d request attempt a
  decision ← from_evaluation a.evaluation
  check_task_outcome d (task_outcome_of d codec request attempt a identity decision)
  accepted (task_outcome_of d codec request attempt a identity decision)

abbrev pub from_checked {ℓ} : {A : Type ℓ} → Checked A → Result A
from_checked (accepted a) = ok a
from_checked (raised message) = err (exception message)

unfoldable pub adjudicated_outcome :
    OutcomeDigests
    → OutcomeCodec
    → Adjudicator
    → TaskOutcomeRequest
    → AttemptFinished
    → Checked TaskOutcome
unfolding outcome_of
adjudicated_outcome d codec adjudicator request attempt =
    adjudicator (adjudication_request request attempt) >>= outcome_of d codec request attempt

-- The branches on the outcome that the job has.
unfoldable pub outcome_to_publish :
    OutcomeDigests
    → OutcomeCodec
    → Adjudicator
    → TaskOutcomeRequest
    → AttemptFinished
    → Option TaskOutcome
    → Result TaskOutcome
unfolding same_inputs adjudicated_outcome
outcome_to_publish d codec adjudicator request attempt none =
    from_checked (adjudicated_outcome d codec adjudicator request attempt)
outcome_to_publish d codec adjudicator request attempt (some existing) =
    if same_inputs d request existing then ok existing else err control_error

-- The attempt and the outcome to publish for it.
unfoldable pub prepared :
    OutcomeDigests
    → OutcomeCodec
    → Adjudicator
    → TaskOutcomeRequest
    → Db
    → Db
    → Result (AttemptFinished × TaskOutcome)
unfolding get_attempt_finished get_task_outcome outcome_to_publish
prepared d codec adjudicator request first second =
    elim (get_attempt_finished codec request.job_id first) [
      | err e ↦ err e
      | ok none ↦ err control_error
      | ok (some attempt) ↦ elim (get_task_outcome codec request.job_id second) [
        | err e ↦ err e
        | ok existing ↦ elim (outcome_to_publish d codec adjudicator request attempt existing) [
          | err e ↦ err e
          | ok outcome ↦ ok (attempt, outcome)
        ]
      ]
    ]

-- `ControlTaskOutcomeService.adjudicate`, at the databases that its three transactions find.
unfoldable pub adjudicate_task :
    OutcomeDigests
    → OutcomeCodec
    → Adjudicator
    → TaskOutcomeRequest
    → String
    → Db
    → Db
    → Db
    → Outcome TaskOutcome
unfolding prepared publish_task_outcome
adjudicate_task d codec adjudicator request utc first second db =
    checked (prepared d codec adjudicator request first second) db
      λ (attempt, outcome). publish_task_outcome codec attempt outcome utc db
