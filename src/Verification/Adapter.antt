-- ===== src/Verification/Adapter.antt =====
-- adapters/receipt_observations.py: `ReceiptObservationAdapter`, which makes the facts of a receipt's
-- commands into observations, with the checks of `EvidenceObservation.__post_init__`. The observations of a command
-- are made in the order in which they are returned.
pub mod Made
pub mod Validated
pub mod Accepted
use sisyphus_harness.Prelude.{
  ℕ, ◌+◌, ◌-◌, ◌^◌, String, Bool, true, false, not, ◌&&◌, Option, none, some, List, [], ◌∷◌, ◌++◌,
  leb, all, length,
}
use sisyphus_harness.Prelude.Checked.{Checked, accepted, ensure, ◌>>=◌, ◌>>◌}
use sisyphus_harness.Prelude.Float.{pos, negsuc}
use sisyphus_harness.Prelude.Text.{join_text, padded_decimal, characters, has_null, is_sha256}
use sisyphus_harness.Contracts.Verification.{
  CommandResult, BundleVerificationRequest, VerificationServiceResult,
}
use sisyphus_harness.Evidence.{
  Scalar, boolean, integer, text, EvidenceValue, scalar, sequence, EvidenceSelector, Reading,
  observed, unavailable, error, EvidenceObservation,
}
use sisyphus_harness.Verification.{
  Digests, is_token, command_passed, command_exit_code, command_timed_out,
  command_workspace_unchanged, command_failure_category, command_fact_selector,
}
use sisyphus_harness.Verification.Bindings.{validate_final_verification_bindings}
use sisyphus_harness.Verification.Facts.{Binding, binding_of, command_facts}

-- `_normalize_evidence_value` on a scalar, and on a value.
unfoldable pub is_scalar_value : Scalar → Bool
unfolding characters has_null
is_scalar_value (boolean b) = true
is_scalar_value (integer (pos n)) = leb n (2 ^ 63 - 1)
is_scalar_value (integer (negsuc n)) = leb (n + 1) (2 ^ 63 - 1)
is_scalar_value (text s) = leb (characters s) 4096 && not (has_null s)

unfoldable pub is_evidence_value : EvidenceValue → Bool
unfolding is_scalar_value
is_evidence_value (scalar s) = is_scalar_value s
is_evidence_value (sequence items) = leb (length items) 256 && all is_scalar_value items

-- The checks of an observation on what its status carries.
unfoldable pub check_status : Reading → Checked (Unit {0})
unfolding is_evidence_value is_token
check_status (observed value) =
    ensure (is_evidence_value value) "evidence observation value is invalid"
check_status (unavailable reason) =
    ensure (is_token reason)
      "evidence observation reason code must be a bounded non-whitespace token"
check_status (error reason) =
    ensure (is_token reason)
      "evidence observation reason code must be a bounded non-whitespace token"

-- `EvidenceObservation.__post_init__`
unfoldable pub check_observation_fields : EvidenceObservation → Checked (Unit {0})
unfolding check_status is_token is_sha256
check_observation_fields o = do
  ensure (is_token o.observation_id)
      "evidence observation ID must be a bounded non-whitespace token"
  ensure (is_sha256 o.subject_digest) "evidence observation subject digest must be SHA-256"
  ensure (is_token o.source_run_id)
      "evidence observation source run ID must be a bounded non-whitespace token"
  ensure (is_sha256 o.artifact_digest) "evidence observation artifact digest must be SHA-256"
  check_status o.reading

-- The suffix of a fact's observation IDs.
abbrev pub fact_suffixes : List String
fact_suffixes =
    "passed" ∷ "exit-code" ∷ "timed-out" ∷ "workspace-unchanged" ∷ "failure-category" ∷ []

-- A value that is None is unavailable.
abbrev pub reading_of : Option Scalar → Reading
reading_of none = unavailable "command_not_started"
reading_of (some value) = observed (scalar value)

unfoldable pub observation_id : String → ℕ → String → String
unfolding join_text padded_decimal
observation_id run_id index suffix =
    join_text run_id
      (join_text ".command-" (join_text (padded_decimal index) (join_text "." suffix)))

abbrev pub made : Binding → EvidenceSelector → ℕ → String → Option Scalar → EvidenceObservation
made b selector index suffix value = record {
  observation_id = observation_id b.source_run_id index suffix;
  selector = selector;
  subject_digest = b.subject_digest;
  source_run_id = b.source_run_id;
  artifact_digest = b.artifact_digest;
  reading = reading_of value;
}

-- `observed`, and the branch where the exit code is None.
unfoldable pub fact_observation :
    Binding → String → ℕ → String → String × Option Scalar → Checked EvidenceObservation
unfolding command_fact_selector check_observation_fields observation_id
fact_observation b name index suffix (fact, value) = do
  selector ← command_fact_selector name fact b.producer_authority
  check_observation_fields (made b selector index suffix value)
  accepted (made b selector index suffix value)

unfoldable pub fact_observations :
    Binding
    → String
    → ℕ
    → List String
    → List (String × Option Scalar)
    → Checked (List EvidenceObservation)
unfolding fact_observation
fact_observations b name index (suffix ∷ suffixes) (fact ∷ facts) = do
  made ← fact_observation b name index suffix fact
  rest ← fact_observations b name index suffixes facts
  accepted (made ∷ rest)
fact_observations b name index _ _ = accepted []

-- `_command_observations`
unfoldable pub command_observations :
    Binding → ℕ → CommandResult → Checked (List EvidenceObservation)
unfolding fact_observations command_facts
command_observations b index command =
    fact_observations b command.name index fact_suffixes (command_facts command)

-- The loop of `adapt` from a command's index on.
unfoldable pub all_observations :
    Binding → ℕ → List CommandResult → Checked (List EvidenceObservation)
unfolding command_observations
all_observations b index [] = accepted []
all_observations b index (command ∷ commands) = do
  made ← command_observations b index command
  rest ← all_observations b (index + 1) commands
  accepted (made ++ rest)

-- `adapt`
unfoldable pub adapt :
    Digests
    → BundleVerificationRequest
    → VerificationServiceResult
    → String
    → Checked (List EvidenceObservation)
unfolding validate_final_verification_bindings command_fact_selector all_observations
adapt digests request result authority = do
  validate_final_verification_bindings digests false request result
  selector ← command_fact_selector "authority-check" command_passed authority
  all_observations
      (record (binding_of request result authority) { source_run_id = result.receipt.run_id }) 0
      result.receipt.commands
