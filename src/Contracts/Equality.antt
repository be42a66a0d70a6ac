-- ===== src/Contracts/Equality.antt =====
-- `==` of the frozen dataclasses, which compares all fields, as decisions.
use native.Mathlib.Decide.{ℕ_discrete}
use sisyphus_harness.Prelude.{String, Option, List}
use sisyphus_harness.Prelude.Equality.{String-discrete, texts-discrete, ℤ-discrete, Float-discrete}
use sisyphus_harness.Prelude.Float.{ℤ}
use sisyphus_harness.Contracts.{ArtifactRef, WorkspaceBundleRef, AgentResult, AttemptFinished}
use sisyphus_harness.Contracts.Verification.{
  CommandSpec, CommandResult, VerificationReceipt, VerifierAssetBundleRef,
  VerifierExecutionIdentity, VerificationProfile,
}

unfoldable pub artifact-discrete : Discrete ArtifactRef
artifact-discrete = hlevel (String-discrete, ℕ_discrete)

unfoldable pub bundle-discrete : Discrete WorkspaceBundleRef
bundle-discrete = hlevel (String-discrete, texts-discrete, ℕ_discrete)

unfoldable pub artifacts-discrete : Discrete (List ArtifactRef)
artifacts-discrete = hlevel artifact-discrete

unfoldable pub option_text-discrete : Discrete (Option String)
option_text-discrete = hlevel String-discrete

unfoldable pub report-discrete : Discrete AgentResult
report-discrete =
    hlevel (String-discrete, texts-discrete, ℕ_discrete, artifacts-discrete, option_text-discrete)

unfoldable pub attempt-discrete : Discrete AttemptFinished
attempt-discrete = hlevel (String-discrete, ℕ_discrete, bundle-discrete, report-discrete)

unfoldable pub exit_code-discrete : Discrete (Option ℤ)
exit_code-discrete = hlevel ℤ-discrete

unfoldable pub command-discrete : Discrete CommandResult
command-discrete =
    hlevel (String-discrete, texts-discrete, ℕ_discrete, exit_code-discrete, option_text-discrete)

unfoldable pub commands-discrete : Discrete (List CommandResult)
commands-discrete = hlevel command-discrete

unfoldable pub receipt-discrete : Discrete VerificationReceipt
receipt-discrete = hlevel (String-discrete, commands-discrete, option_text-discrete)

unfoldable pub spec-discrete : Discrete CommandSpec
spec-discrete = hlevel (String-discrete, texts-discrete, Float-discrete)

unfoldable pub specs-discrete : Discrete (List CommandSpec)
specs-discrete = hlevel spec-discrete

unfoldable pub assets-discrete : Discrete VerifierAssetBundleRef
assets-discrete = hlevel (String-discrete, ℕ_discrete)

unfoldable pub option_assets-discrete : Discrete (Option VerifierAssetBundleRef)
option_assets-discrete = hlevel assets-discrete

unfoldable pub profile-discrete : Discrete VerificationProfile
profile-discrete = hlevel (String-discrete, specs-discrete, option_assets-discrete)

unfoldable pub identity-discrete : Discrete VerifierExecutionIdentity
identity-discrete = hlevel String-discrete

unfoldable pub option_identity-discrete : Discrete (Option VerifierExecutionIdentity)
option_identity-discrete = hlevel identity-discrete
