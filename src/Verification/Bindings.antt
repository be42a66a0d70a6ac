-- ===== src/Verification/Bindings.antt =====
-- `validate_final_verification_bindings`: the verifier's result is that of the very request.
pub mod Accepted
pub mod Passing
use sisyphus_harness.Prelude.{
  ℕ, String, Bool, true, false, not, ◌&&◌, ◌||◌, Option, none, some, List, [], ◌∷◌, ◌==◌, eqb,
  if◌then◌else◌, length, is_some,
}
use sisyphus_harness.Prelude.Checked.{
  Checked, accepted, raised, ensure, refuse_if, ◌>>=◌, ◌>>◌, is_accepted,
}
use sisyphus_harness.Prelude.Equality.{
  String-discrete, texts-discrete, ℤ-discrete, equal, same_bool,
}
use sisyphus_harness.Prelude.Float.{ℤ, pos}
use sisyphus_harness.Prelude.Text.{join_text}
use sisyphus_harness.Contracts.Verification.{
  CommandSpec, CommandResult, VerificationReceipt, VerifierAssetBundleRef,
  VerifierExecutionIdentity, BundleVerificationRequest, VerificationServiceResult,
}
use sisyphus_harness.Contracts.Equality.{identity-discrete}
use sisyphus_harness.Verification.{Digests, command_fact_selector, command_passed}

abbrev pub is_text : String → Option String → Bool
is_text s none = false
is_text s (some t) = t == s

abbrev pub same_option_text : Option String → Option String → Bool
same_option_text none none = true
same_option_text (some a) (some b) = a == b
same_option_text _ _ = false

-- `result.execution_identity == request.execution_identity`, where neither is None.
abbrev pub same_identity :
    Option VerifierExecutionIdentity → Option VerifierExecutionIdentity → Bool
same_identity (some a) (some b) = equal identity-discrete a b
same_identity _ _ = false

abbrev pub is_zero : Option ℤ → Bool
is_zero (some (pos n)) = eqb n 0
is_zero _ = false

-- `command_should_pass`
unfoldable pub should_pass : CommandResult → Bool
should_pass c =
    not c.timed_out
    && is_zero c.exit_code
    && c.workspace_unchanged
    && not (is_some c.failure_category)
    && not (is_some c.error)

-- The checks on one command after `previous_state`.
unfoldable pub check_command : String → CommandSpec → CommandResult → Checked (Unit {0})
unfolding should_pass command_fact_selector texts-discrete
check_command previous spec command = do
  ensure
      (command.name == spec.name
        && equal texts-discrete command.argv spec.argv
        && equal texts-discrete command.criteria spec.criteria)
      "verification receipt command does not match the profile"
  ensure (same_bool command.passed (should_pass command))
      "verification receipt command pass claim is inconsistent"
  ensure
      (same_bool command.workspace_unchanged
        (command.workspace_state_before == command.workspace_state_after))
      "verification receipt command workspace state claim is inconsistent"
  ensure (command.workspace_state_before == previous)
      "verification receipt command breaks the workspace state chain"
  ensure (is_accepted (command_fact_selector command.name command_passed "binding-check"))
      "verification command cannot be used as a check ID"

-- The loop over the commands, which returns the last state.
unfoldable pub check_commands : String → List CommandSpec → List CommandResult → Checked String
unfolding check_command
check_commands previous [] [] = accepted previous
check_commands previous (spec ∷ specs) (command ∷ commands) = do
  check_command previous spec command
  check_commands command.workspace_state_after specs commands
check_commands previous _ _ = raised "zip() arguments have different lengths"

abbrev pub is_v2 : BundleVerificationRequest → Bool
is_v2 request = request.schema_version == "sisyphus_harness.bundle_verification_request.v2"

abbrev pub asset_id : Option VerifierAssetBundleRef → Option String
asset_id none = none
asset_id (some bundle) = some bundle.bundle_id

abbrev pub identity_digest_of : Digests → Option VerifierExecutionIdentity → Option String
identity_digest_of digests none = none
identity_digest_of digests (some identity) = some (digests.identity_digest identity)

-- The checks on the schemas and the execution identity.
unfoldable pub check_service :
    Bool → BundleVerificationRequest → VerificationServiceResult → Checked (Unit {0})
unfolding identity-discrete
check_service require_verifier_assets request result =
    if is_v2 request
    then (do
      ensure
          (result.schema_version == "sisyphus_harness.verification_service_result.v2"
            && same_identity result.execution_identity request.execution_identity)
          "verification result is bound to a different execution identity"
      refuse_if (require_verifier_assets && not (is_some request.profile.asset_bundle))
          "Control final verification requires verifier-owned assets")
    else ensure
        (result.schema_version == "sisyphus_harness.verification_service_result.v1"
          && not (is_some result.execution_identity))
        "legacy verification result has an unexpected execution identity"

-- The receipt names the bundle, the profile, the identity and the assets of the request.
unfoldable pub has_service_bindings :
    Digests → BundleVerificationRequest → VerificationReceipt → Bool
has_service_bindings digests request receipt =
    is_text request.workspace_bundle.bundle_id receipt.workspace_bundle_id
    && is_text (digests.profile_digest request.profile) receipt.profile_digest
    && same_option_text receipt.execution_identity_digest
        (identity_digest_of digests request.execution_identity)
    && same_option_text receipt.verifier_asset_bundle_id (asset_id request.profile.asset_bundle)

-- The checks on the receipt before those of its commands.
unfoldable pub check_receipt :
    Digests → BundleVerificationRequest → VerificationReceipt → Checked (Unit {0})
unfolding has_service_bindings
check_receipt digests request receipt = do
  ensure
      (receipt.schema_version == (
        if is_v2 request
        then "sisyphus_harness.verification.v3"
        else "sisyphus_harness.verification.v2"))
      "final verification requires the matching digest-bound receipt schema"
  ensure (receipt.run_id == request.run_id) "verification receipt is bound to a different run"
  ensure (receipt.request_digest == digests.request_digest request)
      "verification receipt is bound to a different request"
  refuse_if (is_v2 request && not (has_service_bindings digests request receipt))
      "verification receipt service bindings are inconsistent"
  ensure (receipt.worktree_commit_sha == request.workspace_bundle.source_commit_sha)
      "verification receipt is bound to a different source commit"
  ensure (receipt.workspace_state_before == request.workspace_bundle.tree_hash)
      "verification receipt is bound to a different workspace tree"
  ensure
      (same_bool receipt.workspace_unchanged
        (receipt.workspace_state_before == receipt.workspace_state_after))
      "verification receipt workspace state claim is inconsistent"

abbrev pub receipt_media_type : String
receipt_media_type = "application/vnd.sisyphus-harness.verification-receipt+json"

-- `validate_final_verification_bindings`
unfoldable pub validate_final_verification_bindings :
    Digests → Bool → BundleVerificationRequest → VerificationServiceResult → Checked (Unit {0})
unfolding check_service check_receipt check_commands join_text
validate_final_verification_bindings digests require_verifier_assets request result = do
  ensure (result.request_digest == digests.request_digest request)
      "verification result is bound to a different request"
  ensure (result.workspace_bundle_id == request.workspace_bundle.bundle_id)
      "verification result is bound to a different workspace bundle"
  ensure (result.profile_digest == digests.profile_digest request.profile)
      "verification result is bound to a different profile"
  check_service require_verifier_assets request result
  check_receipt digests request result.receipt
  ensure (result.receipt_artifact.artifact_id == join_text request.run_id "/receipt.json")
      "verification receipt artifact is bound to a different run"
  ensure (result.receipt_artifact.media_type == receipt_media_type)
      "verification receipt artifact has an unsupported media type"
  ensure (eqb (length request.profile.commands) (length result.receipt.commands))
      "verification receipt command count does not match the profile"
  reached ←
      check_commands result.receipt.workspace_state_before request.profile.commands
        result.receipt.commands
  ensure (reached == result.receipt.workspace_state_after)
      "verification receipt command chain does not reach the final state"
