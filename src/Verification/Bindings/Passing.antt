-- ===== src/Verification/Bindings/Passing.antt =====
-- When the receipt of an accepted result claims to have passed.
use sisyphus_harness.Prelude.{
  String, ◌≡◌, sym, ◌∙◌, Bool, true, List, [], ◌∷◌, eq_iff, arith, all, Bool-cases, inl, inr,
}
use sisyphus_harness.Prelude.Checked.{accepted}
use sisyphus_harness.Contracts.Verification.{
  CommandSpec, CommandResult, BundleVerificationRequest, VerificationServiceResult,
}
use sisyphus_harness.Verification.{Digests}
use sisyphus_harness.Verification.Bindings.{should_pass, validate_final_verification_bindings}
use sisyphus_harness.Verification.Bindings.Accepted.{
  IsCommand, Chain, validate_final_verification_bindings-IsResultOf,
}

-- A command that passed left the workspace as it was.
passed_unchanged :
    (previous : String) (spec : CommandSpec) (command : CommandResult)
    → IsCommand previous spec command
    → command.passed ≡ true
    → previous ≡ command.workspace_state_after
unfolding should_pass
passed_unchanged previous spec command h passed =
    let unchanged : command.workspace_unchanged ≡ true =
      elim (Bool-cases command.workspace_unchanged) [
        | inl e ↦ e
        | inr e ↦ absurd (ground (arith, h.passed, passed, e))
      ] in
    sym h.before ∙ (eq_iff _ _).0 (sym h.unchanged ∙ unchanged)

Chain-passed :
    (previous : String) (specs : List CommandSpec) (commands : List CommandResult) (last : String)
    → Chain previous specs commands last
    → all (λ c. c.passed) commands ≡ true
    → previous ≡ last
Chain-passed previous [] [] last h k = h
Chain-passed previous (spec ∷ specs) (command ∷ commands) last h k =
    passed_unchanged previous spec command h.0 (ground arith)
    ∙ Chain-passed command.workspace_state_after specs commands last h.1 (ground arith)
Chain-passed previous [] (command ∷ commands) last h k = absurd h
Chain-passed previous (spec ∷ specs) [] last h k = absurd h

-- Where `validate_final_verification_bindings` accepts a result all of whose commands claim to have passed,
-- the receipt says that the workspace is unchanged, and ends in the tree of the request's bundle.
pub all_passed-unchanged :
    (digests : Digests) (assets : Bool) (request : BundleVerificationRequest)
    (result : VerificationServiceResult)
    → validate_final_verification_bindings digests assets request result ≡ accepted tt
    → all (λ c. c.passed) result.receipt.commands ≡ true
    → (result.receipt.workspace_unchanged ≡ true)
      × (result.receipt.workspace_state_after ≡ request.workspace_bundle.tree_hash)
all_passed-unchanged digests assets request result h passed =
    let bound = validate_final_verification_bindings-IsResultOf digests assets request result h in
    let same =
      Chain-passed result.receipt.workspace_state_before request.profile.commands
        result.receipt.commands result.receipt.workspace_state_after bound.chain passed in
    (bound.receipt.unchanged ∙ (eq_iff _ _).1 same, sym same ∙ bound.receipt.before)
