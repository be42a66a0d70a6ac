-- ===== src/Verification/Bindings/Accepted.antt =====
-- What is known of a verification result that `validate_final_verification_bindings` accepts.
use sisyphus_harness.Prelude.{
  String, ◌≡◌, ap, ◌∙◌, Bool, true, not, ◌&&◌, List, [], ◌∷◌, ◌==◌, eq_iff, arith, eqb, length,
  if◌then◌else◌,
}
use sisyphus_harness.Prelude.Checked.{
  accepted, >>=-accepted, ensure-accepted, refuse_if-accepted, ensure-true,
}
use sisyphus_harness.Prelude.Equality.{texts-discrete, equal, equal_iff, same_bool, same_bool-eq}
use sisyphus_harness.Prelude.Text.{join_text}
use sisyphus_harness.Contracts.Verification.{
  CommandSpec, CommandResult, BundleVerificationRequest, VerificationServiceResult,
  VerificationReceipt,
}
use sisyphus_harness.Verification.{Digests}
use sisyphus_harness.Verification.Bindings.{
  is_v2, should_pass, check_command, check_commands, check_service, check_receipt,
  has_service_bindings, receipt_media_type, validate_final_verification_bindings,
}

-- A command as its spec and its results make it, after a state.
pub record IsCommand (previous : String) (spec : CommandSpec) (command : CommandResult)
    : Type 0 where
  pub name : command.name ≡ spec.name
  pub argv : command.argv ≡ spec.argv
  pub criteria : command.criteria ≡ spec.criteria
  pub passed : command.passed ≡ should_pass command
  pub unchanged :
      command.workspace_unchanged
      ≡ (command.workspace_state_before == command.workspace_state_after)
  pub before : command.workspace_state_before ≡ previous

check_command-IsCommand :
    (previous : String) (spec : CommandSpec) (command : CommandResult)
    → check_command previous spec command ≡ accepted tt
    → IsCommand previous spec command
unfolding check_command
check_command-IsCommand previous spec command h =
    let names = command.name == spec.name in
    let argvs = equal texts-discrete command.argv spec.argv in
    let criterias = equal texts-discrete command.criteria spec.criteria in
    let a = ensure-accepted (names && argvs && criterias) _ _ h in
    let b = ensure-accepted (same_bool command.passed (should_pass command)) _ _ a.1 in
    let c =
      ensure-accepted
        (same_bool command.workspace_unchanged
          (command.workspace_state_before == command.workspace_state_after))
        _ _ b.1 in
    let d = ensure-accepted (command.workspace_state_before == previous) _ _ c.1 in
    record {
      name = ground (arith, eq_iff command.name spec.name, a.0);
      argv = (equal_iff texts-discrete command.argv spec.argv).0 (ground (arith, a.0));
      criteria = (equal_iff texts-discrete command.criteria spec.criteria).0 (ground (arith, a.0));
      passed = same_bool-eq command.passed (should_pass command) b.0;
      unchanged = same_bool-eq command.workspace_unchanged _ c.0;
      before = (eq_iff command.workspace_state_before previous).0 d.0;
    }

-- The commands of a receipt are those of the profile, each starting in the state that the one before left.
abbrev pub Chain : String → List CommandSpec → List CommandResult → String → Type 0
Chain previous [] [] last = previous ≡ last
Chain previous (spec ∷ specs) (command ∷ commands) last =
    IsCommand previous spec command × Chain command.workspace_state_after specs commands last
Chain previous _ _ last = ⊥

check_commands-Chain :
    (previous : String) (specs : List CommandSpec) (commands : List CommandResult) (last : String)
    → check_commands previous specs commands ≡ accepted last
    → Chain previous specs commands last
unfolding check_commands
check_commands-Chain previous [] [] last h = ground arith
check_commands-Chain previous (spec ∷ specs) (command ∷ commands) last h =
    let tested = >>=-accepted (check_command previous spec command) _ h in
    (
      check_command-IsCommand previous spec command tested.1,
      check_commands-Chain command.workspace_state_after specs commands last tested.2,
    )
check_commands-Chain previous [] (command ∷ commands) last h = absurd cc
check_commands-Chain previous (spec ∷ specs) [] last h = absurd cc

-- What binds a receipt to a request.
pub record IsReceiptOf (digests : Digests) (request : BundleVerificationRequest)
    (receipt : VerificationReceipt) : Type 0 where
  pub run_id : receipt.run_id ≡ request.run_id
  pub request_digest : receipt.request_digest ≡ digests.request_digest request
  pub commit : receipt.worktree_commit_sha ≡ request.workspace_bundle.source_commit_sha
  pub before : receipt.workspace_state_before ≡ request.workspace_bundle.tree_hash
  pub unchanged :
      receipt.workspace_unchanged
      ≡ (receipt.workspace_state_before == receipt.workspace_state_after)

receipt_bound :
    (digests : Digests) (request : BundleVerificationRequest) (receipt : VerificationReceipt)
    → check_receipt digests request receipt ≡ accepted tt
    → IsReceiptOf digests request receipt
unfolding check_receipt
receipt_bound digests request receipt h =
    let a =
      ensure-accepted
        (receipt.schema_version == (
          if is_v2 request
          then "sisyphus_harness.verification.v3"
          else "sisyphus_harness.verification.v2"))
        _ _ h in
    let b = ensure-accepted (receipt.run_id == request.run_id) _ _ a.1 in
    let c = ensure-accepted (receipt.request_digest == digests.request_digest request) _ _ b.1 in
    let d =
      refuse_if-accepted (is_v2 request && not (has_service_bindings digests request receipt)) _ _
        c.1 in
    let e =
      ensure-accepted (receipt.worktree_commit_sha == request.workspace_bundle.source_commit_sha) _
        _ d.1 in
    let f =
      ensure-accepted (receipt.workspace_state_before == request.workspace_bundle.tree_hash) _ _
        e.1 in
    let unchanged =
      same_bool receipt.workspace_unchanged
        (receipt.workspace_state_before == receipt.workspace_state_after) in
    let last : unchanged ≡ true = ensure-true unchanged _ f.1 in
    record {
      run_id = (eq_iff _ _).0 b.0;
      request_digest = (eq_iff _ _).0 c.0;
      commit = (eq_iff _ _).0 e.0;
      before = (eq_iff _ _).0 f.0;
      unchanged = same_bool-eq receipt.workspace_unchanged _ last;
    }

-- What binds the verifier's result to the request.
pub record IsResultOf (digests : Digests) (request : BundleVerificationRequest)
    (result : VerificationServiceResult) : Type 0 where
  pub request_digest : result.request_digest ≡ digests.request_digest request
  pub bundle : result.workspace_bundle_id ≡ request.workspace_bundle.bundle_id
  pub profile : result.profile_digest ≡ digests.profile_digest request.profile
  pub receipt : IsReceiptOf digests request result.receipt
  pub artifact : result.receipt_artifact.artifact_id ≡ join_text request.run_id "/receipt.json"
  pub chain :
      Chain result.receipt.workspace_state_before request.profile.commands result.receipt.commands
        result.receipt.workspace_state_after

-- Where `validate_final_verification_bindings` accepts a result, its digests, its bundle, its run and its
-- artifact are the request's, the receipt starts at the bundle's tree, and its commands are those of the
-- request's profile in order: each has the name, the arguments and the criteria of its spec, claims to
-- have passed exactly where it exited with 0 in time without a failure or a change of the workspace, and
-- starts in the state in which the one before ended; the last ends in the receipt's final state.
pub validate_final_verification_bindings-IsResultOf :
    (digests : Digests) (assets : Bool) (request : BundleVerificationRequest)
    (result : VerificationServiceResult)
    → validate_final_verification_bindings digests assets request result ≡ accepted tt
    → IsResultOf digests request result
unfolding validate_final_verification_bindings
validate_final_verification_bindings-IsResultOf digests assets request result h =
    let a = ensure-accepted (result.request_digest == digests.request_digest request) _ _ h in
    let b =
      ensure-accepted (result.workspace_bundle_id == request.workspace_bundle.bundle_id) _ _ a.1 in
    let c =
      ensure-accepted (result.profile_digest == digests.profile_digest request.profile) _ _ b.1 in
    let d = >>=-accepted (check_service assets request result) _ c.1 in
    let e = >>=-accepted (check_receipt digests request result.receipt) _ d.2 in
    let f =
      ensure-accepted
        (result.receipt_artifact.artifact_id == join_text request.run_id "/receipt.json") _ _ e.2 in
    let g = ensure-accepted (result.receipt_artifact.media_type == receipt_media_type) _ _ f.1 in
    let k =
      ensure-accepted (eqb (length request.profile.commands) (length result.receipt.commands)) _ _
        g.1 in
    let (reached, chained, ends) =
      >>=-accepted
        (check_commands result.receipt.workspace_state_before request.profile.commands
          result.receipt.commands)
        _ k.1 in
    let end =
      (eq_iff _ _).0 (ensure-true (reached == result.receipt.workspace_state_after) _ ends) in
    record {
      request_digest = (eq_iff _ _).0 a.0;
      bundle = (eq_iff _ _).0 b.0;
      profile = (eq_iff _ _).0 c.0;
      receipt = receipt_bound digests request result.receipt e.1;
      artifact = (eq_iff _ _).0 f.0;
      chain =
          check_commands-Chain result.receipt.workspace_state_before request.profile.commands
            result.receipt.commands result.receipt.workspace_state_after
            (chained ∙ ap accepted end);
    }
