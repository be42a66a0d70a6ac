-- ===== src/Verification/Samples.antt =====
-- A verification of one bundle by one command, and the theorems on it.
use mathlib.Core.List.{Memᴰ}
use sisyphus_harness.Prelude.{◌≡◌, refl, String, Bool, true, false, none, some, List, [], ◌∷◌}
use sisyphus_harness.Prelude.Checked.{accepted}
use sisyphus_harness.Prelude.Float.{pos, float_zero}
use sisyphus_harness.Prelude.Equality.{ℤ-discrete}
use sisyphus_harness.Contracts.Equality.{
  commands-discrete, command-discrete, exit_code-discrete, option_text-discrete,
}
use sisyphus_harness.Contracts.{WorkspaceBundleRef, AgentResult, AttemptFinished}
use sisyphus_harness.Contracts.Verification.{
  CommandSpec, CommandResult, VerificationReceipt, VerifierAssetBundleRef,
  VerifierExecutionIdentity, VerificationProfile, BundleVerificationRequest,
  VerificationServiceResult,
}
use sisyphus_harness.Evidence.{
  boolean, scalar, equals, pass, completed, clause_ref, EvidenceClause, EvidenceContract,
  EvidenceObservation, PredicateEvaluation,
}
use sisyphus_harness.Evidence.Predicates.{evaluate_predicate}
use sisyphus_harness.Evidence.Evaluation.{Codec}
use sisyphus_harness.Verification.{Digests, fact_selector, command_passed}
use sisyphus_harness.Verification.Bindings.{validate_final_verification_bindings}
use sisyphus_harness.Verification.Bindings.Accepted.{
  IsResultOf, validate_final_verification_bindings-IsResultOf,
}
use sisyphus_harness.Contracts.Checks.{check_verification_profile}
use sisyphus_harness.Verification.Facts.{validate_final_command_observations, command_facts}
use sisyphus_harness.Verification.Adapter.{adapt}
use sisyphus_harness.Verification.Adapter.Accepted.{adapt-accepted}
use sisyphus_harness.Verification.Adjudication.{
  Ports, EvidenceAdjudicationRequest, EvidenceAdjudicationResult, adjudicate,
}
use sisyphus_harness.Verification.Adjudication.Independence.{
  with_report, with_claim, adjudicate-with_report,
}
use sisyphus_harness.Verification.Adjudication.Bound.{
  IsAdjudication, adjudicate-IsAdjudication, adjudicated_clause,
}

abbrev pub sha : String
sha = "sha256:00112233445566778899aabbccddeeff00112233445566778899aabbccddeeff"

abbrev pub digests : Digests
digests = record {
  request_digest = λ _. sha;
  profile_digest = λ _. sha;
  identity_digest = λ _. sha;
}

abbrev spec : CommandSpec
spec = record {
  name = "unit";
  argv = "pytest" ∷ [];
  timeout_seconds = float_zero;
  criteria = "tests" ∷ [];
}

abbrev bundle : WorkspaceBundleRef
bundle = record {
  bundle_id = "bundle";
  archive_sha256 = sha;
  size_bytes = 1;
  source_commit_sha = "commit";
  source_state_hash = "state";
  tree_hash = "tree";
  changed_paths = [];
  entry_count = 1;
  schema_version = "";
}

abbrev assets : VerifierAssetBundleRef
assets = record {
  bundle_id = "assets";
  manifest_sha256 = sha;
  tree_hash = "tree";
  total_size_bytes = 1;
  entry_count = 1;
  schema_version = "";
}

abbrev pub profile : VerificationProfile
profile = record {
  profile_id = "profile";
  commands = spec ∷ [];
  asset_bundle = some assets;
  schema_version = "sisyphus_harness.verification_profile.v2";
}

abbrev identity : VerifierExecutionIdentity
identity = record {
  runtime = "docker";
  image_reference = "image";
  image_id = "id";
  schema_version = "";
}

abbrev request : BundleVerificationRequest
request = record {
  run_id = "run";
  workspace_bundle = bundle;
  profile = profile;
  execution_identity = some identity;
  schema_version = "sisyphus_harness.bundle_verification_request.v2";
}

abbrev command : CommandResult
command = record {
  name = "unit";
  argv = "pytest" ∷ [];
  criteria = "tests" ∷ [];
  passed = true;
  timed_out = false;
  exit_code = some (pos 0);
  duration_ms = 5;
  executable_path = none;
  executable_sha256 = none;
  stdout_path = "out";
  stderr_path = "err";
  workspace_state_before = "tree";
  workspace_state_after = "tree";
  workspace_unchanged = true;
  failure_category = none;
  error = none;
}

abbrev receipt : VerificationReceipt
receipt = record {
  run_id = "run";
  workspace = "bundle";
  worktree_commit_sha = "commit";
  started_at = "t0";
  finished_at = "t1";
  passed = true;
  commands = command ∷ [];
  workspace_state_before = "tree";
  workspace_state_after = "tree";
  workspace_unchanged = true;
  request_digest = sha;
  schema_version = "sisyphus_harness.verification.v3";
  workspace_bundle_id = some "bundle";
  profile_digest = some sha;
  execution_identity_digest = some sha;
  verifier_asset_bundle_id = some "assets";
}

abbrev result : VerificationServiceResult
result = record {
  request_digest = sha;
  workspace_bundle_id = "bundle";
  profile_digest = sha;
  receipt = receipt;
  receipt_artifact = record {
    artifact_id = "run/receipt.json";
    sha256 = sha;
    size_bytes = 1;
    media_type = "application/vnd.sisyphus-harness.verification-receipt+json";
    schema_version = "";
  };
  execution_identity = some identity;
  schema_version = "sisyphus_harness.verification_service_result.v2";
}

result_accepted : validate_final_verification_bindings digests true request result ≡ accepted tt
unfolding validate_final_verification_bindings
result_accepted = refl

validate_final_verification_bindings-IsResultOf_example : IsResultOf digests request result
validate_final_verification_bindings-IsResultOf_example =
    validate_final_verification_bindings-IsResultOf digests true request result result_accepted

profile_constructed : check_verification_profile request.profile ≡ accepted tt
unfolding check_verification_profile
profile_constructed = refl

adapted : (os : List EvidenceObservation) × (adapt digests request result "control" ≡ accepted os)
unfolding adapt
adapted = (_, refl)

adapt-accepted_example :
    validate_final_command_observations request result adapted.0 "control" ≡ accepted tt
adapt-accepted_example =
    adapt-accepted digests request result "control" adapted.0 profile_constructed adapted.1

abbrev clause : EvidenceClause
clause = record {
  clause_id = "unit passes";
  selector = fact_selector "unit" command_passed "control";
  operator = equals;
  expected = scalar (boolean true);
}

abbrev pub codec : Codec
codec = record {
  contract_digest = λ c. sha;
  contract_bytes = λ c. 100;
  rule_digest = λ r. r.rule_id;
  rule_bytes = λ r. 100;
  observation_digest = λ o. o.observation_id;
  set_digest = λ os. sha;
  rejected_digest = λ n m. "rejected";
}

abbrev pub contract : EvidenceContract
contract = record {
  contract_id = "contract";
  version = 1;
  requirement_ids = [];
  gap_ids = [];
  task_basis_ids = [];
  verification_profile_digest = sha;
  observation_adapter_digest = "adapter";
  clauses = clause ∷ [];
  task_success = clause_ref "unit passes";
}

abbrev report : Bool → AgentResult
report success = record {
  run_id = "attempt";
  success = success;
  reason = "";
  steps = 3;
  compactions = 0;
  verifications = 0;
  workspace_state_before = "state";
  workspace_state_after = "tree";
  changed_paths = [];
  artifact_path = "attempt";
  verification_artifacts = [];
  summary = none;
  schema_version = "";
}

abbrev pub attempt : AttemptFinished
attempt = record {
  job_id = "job";
  attempt = 1;
  attempt_id = "job/attempt-0001";
  source_bundle = bundle;
  output_bundle = bundle;
  agent_result = report true;
  schema_version = "";
}

abbrev adjudication_request : EvidenceAdjudicationRequest
adjudication_request = record {
  job_result = attempt;
  profile = profile;
  contract = contract;
  run_id = "run";
  producer_authority = "control";
}

abbrev pub ports : Ports
ports = record {
  execution_identity = accepted identity;
  execute = λ _. accepted result;
  read_receipt = λ _. accepted receipt;
  adapter_digest = "adapter";
  adapt = adapt digests;
}

adjudicated :
    (r : EvidenceAdjudicationResult) × (adjudicate digests codec ports adjudication_request
      ≡ accepted r)
    × (r.evaluation.lifecycle ≡ completed)
    × (r.verification_result.receipt ≡ receipt)
unfolding adjudicate adapt commands-discrete command-discrete exit_code-discrete ℤ-discrete
    option_text-discrete
adjudicated = (_, refl, refl, refl)

adjudicate-with_report_example :
    adjudicate digests codec ports (with_report (report false) adjudication_request)
    ≡ with_claim false (adjudicate digests codec ports adjudication_request)
adjudicate-with_report_example =
    adjudicate-with_report digests codec ports adjudication_request (report false)

adjudicate-IsAdjudication_example :
    IsAdjudication digests codec ports adjudication_request adjudicated.0
adjudicate-IsAdjudication_example =
    adjudicate-IsAdjudication digests codec ports adjudication_request adjudicated.0 adjudicated.1

adjudicated_clause_example :
    (p : PredicateEvaluation) × Memᴰ p adjudicated.0.evaluation.predicates
    × (p.clause_id ≡ "unit passes")
    × (p.result ≡ pass)
unfolding command_facts evaluate_predicate adjudicated
adjudicated_clause_example =
    adjudicated_clause digests codec ports adjudication_request adjudicated.0 clause command
      command_passed (some (boolean true)) adjudicated.1 adjudicated.2 (Memᴰ.head refl)
      (Memᴰ.head refl) (Memᴰ.head refl) refl
