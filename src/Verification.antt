-- ===== src/Verification.antt =====
-- adapters/receipt_observations.py and services/evidence_contract.py: the final verification of an attempt,
-- whose receipt becomes the observations that a contract is evaluated on.
pub mod Bindings
pub mod Facts
pub mod Adapter
pub mod Adjudication
pub mod Samples
use sisyphus_harness.Prelude.{
  ℕ, String, Bool, true, false, not, ◌&&◌, ◌||◌, Option, none, some, List, [], ◌∷◌, ◌==◌, leb, ltb,
  any,
}
use sisyphus_harness.Prelude.Checked.{Checked, accepted, raised, ensure, ◌>>=◌, ◌>>◌}
use sisyphus_harness.Prelude.Text.{characters, strip, has_space, has_control}
use sisyphus_harness.Contracts.Verification.{
  VerificationProfile, VerifierExecutionIdentity, BundleVerificationRequest,
}
use sisyphus_harness.Evidence.{EvidenceSelector}

-- SHA-256 digests of canonical JSON.
pub record Digests : Type 0 where
  pub request_digest : BundleVerificationRequest → String
  pub profile_digest : VerificationProfile → String
  pub identity_digest : VerifierExecutionIdentity → String

-- `_validate_token` of contracts/evidence_contract.py
unfoldable pub is_token : String → Bool
unfolding characters strip has_space has_control
is_token value =
    not (value == "")
    && leb (characters value) 256
    && strip value == value
    && not (has_space value)
    && not (has_control value)

abbrev pub command_passed : String
command_passed = "verification.command.passed"

abbrev pub command_exit_code : String
command_exit_code = "verification.command.exit_code"

abbrev pub command_timed_out : String
command_timed_out = "verification.command.timed_out"

abbrev pub command_workspace_unchanged : String
command_workspace_unchanged = "verification.command.workspace_unchanged"

abbrev pub command_failure_category : String
command_failure_category = "verification.command.failure_category"

abbrev pub command_fact_types : List String
command_fact_types =
    command_passed ∷ command_exit_code ∷ command_timed_out ∷ command_workspace_unchanged
    ∷ command_failure_category ∷ []

abbrev pub final_verification_stage : String
final_verification_stage = "candidate_final"

abbrev pub fact_selector : String → String → String → EvidenceSelector
fact_selector name observation_type authority = record {
  observation_type = observation_type;
  stage = final_verification_stage;
  check_id = name;
  producer_authority = authority;
}

-- `command_fact_selector`, with the checks of `EvidenceSelector.__post_init__`.
unfoldable pub command_fact_selector : String → String → String → Checked EvidenceSelector
unfolding is_token
command_fact_selector name observation_type authority = do
  ensure (any (λ t. t == observation_type) command_fact_types)
      "unsupported command observation type"
  ensure (is_token observation_type)
      "evidence observation type must be a bounded non-whitespace token"
  ensure (is_token final_verification_stage) "evidence stage must be a bounded non-whitespace token"
  ensure (is_token name) "evidence check ID must be a bounded non-whitespace token"
  ensure (is_token authority) "evidence producer must be a bounded non-whitespace token"
  accepted (fact_selector name observation_type authority)
