-- ===== src/Verification/Facts.antt =====
-- adapters/receipt_observations.py: the facts of a receipt's commands and the test that observations are
-- those facts
-- (`validate_final_command_observations`).
pub mod Lookup
use sisyphus_harness.Prelude.{
  ℕ, ◌+◌, ◌*◌, String, Bool, true, false, not, ◌&&◌, Option, none, some, List, [], ◌∷◌, ◌++◌, ◌==◌,
  eqb, leb, length, find, any, if◌then◌else◌,
}
use sisyphus_harness.Prelude.Checked.{Checked, accepted, raised, ensure, refuse_if, ◌>>=◌, ◌>>◌}
use sisyphus_harness.Prelude.Float.{ℤ, pos, negsuc}
use sisyphus_harness.Prelude.Text.{join_text, padded_decimal, characters, has_null, is_sha256}
use sisyphus_harness.Contracts.Verification.{
  CommandResult, BundleVerificationRequest, VerificationServiceResult,
}
use sisyphus_harness.Evidence.{
  Scalar, boolean, integer, text, EvidenceValue, scalar, sequence, EvidenceSelector, Reading,
  observed, unavailable, error, EvidenceObservation,
}
use sisyphus_harness.Evidence.Predicates.{same_key}
use sisyphus_harness.Verification.{
  Digests, is_token, command_passed, command_exit_code, command_timed_out,
  command_workspace_unchanged, command_failure_category, command_fact_types,
  final_verification_stage, command_fact_selector,
}
use sisyphus_harness.Verification.Bindings.{validate_final_verification_bindings}

-- `command.failure_category or NO_FAILURE_CATEGORY`
abbrev pub category_or_none : Option String → String
category_or_none none = "none"
category_or_none (some category) = if category == "" then "none" else category

-- The facts of a command, by their types; a value that is None is none.
abbrev pub exit_fact : Option ℤ → Option Scalar
exit_fact none = none
exit_fact (some code) = some (integer code)

unfoldable pub command_facts : CommandResult → List (String × Option Scalar)
command_facts c =
    (command_passed, some (boolean c.passed))
    ∷ (command_exit_code, exit_fact c.exit_code)
    ∷ (command_timed_out, some (boolean c.timed_out))
    ∷ (command_workspace_unchanged, some (boolean c.workspace_unchanged))
    ∷ (command_failure_category, some (text (category_or_none c.failure_category)))
    ∷ []

-- `(selector.check_id, selector.observation_type) == (name, fact)`
abbrev pub has_fact_key : String → String → EvidenceObservation → Bool
has_fact_key name fact o = o.selector.check_id == name && o.selector.observation_type == fact

-- What the observations of a verification are bound to.
pub record Binding : Type 0 where
  pub subject_digest : String
  pub source_run_id : String
  pub artifact_digest : String
  pub producer_authority : String

-- The tests on one observation.
unfoldable pub check_observation : Binding → EvidenceObservation → Checked (Unit {0})
check_observation b o = do
  ensure (o.subject_digest == b.subject_digest)
      "receipt observation is bound to a different workspace bundle"
  ensure (o.source_run_id == b.source_run_id) "receipt observation is bound to a different run"
  ensure (o.artifact_digest == b.artifact_digest)
      "receipt observation is bound to a different artifact"
  ensure (o.selector.stage == final_verification_stage)
      "receipt observation is not candidate-final evidence"
  ensure (o.selector.producer_authority == b.producer_authority)
      "receipt observation is bound to a different producer"

-- The loop that fills the dict `by_selector`, with the last entry first.
unfoldable pub index_observations :
    Binding
    → List EvidenceObservation
    → List EvidenceObservation
    → Checked (List EvidenceObservation)
unfolding check_observation
index_observations b [] by_selector = accepted by_selector
index_observations b (o ∷ rest) by_selector = do
  check_observation b o
  refuse_if (any (has_fact_key o.selector.check_id o.selector.observation_type) by_selector)
      "receipt observation selector is duplicated"
  index_observations b rest (o ∷ by_selector)

-- The test of an observation against the value that the receipt has.
unfoldable pub check_reading : Option Scalar → Reading → Checked (Unit {0})
unfolding same_key
check_reading none (unavailable _) = accepted tt
check_reading none _ = raised "unavailable command fact was normalized incorrectly"
check_reading (some expected) (observed (scalar value)) =
    ensure (same_key value expected) "observed command fact does not match the receipt"
check_reading (some expected) _ = raised "observed command fact does not match the receipt"

unfoldable pub check_fact :
    List EvidenceObservation → String → String × Option Scalar → Checked (Unit {0})
unfolding check_reading
check_fact by_selector name (fact, expected) = elim (find (has_fact_key name fact) by_selector) [
  | none ↦ raised "receipt observation selector does not match command facts"
  | some o ↦ check_reading expected o.reading
]

unfoldable pub check_facts :
    List EvidenceObservation → String → List (String × Option Scalar) → Checked (Unit {0})
unfolding check_fact
check_facts by_selector name [] = accepted tt
check_facts by_selector name (fact ∷ facts) = do
  check_fact by_selector name fact
  check_facts by_selector name facts

unfoldable pub check_all_facts : List EvidenceObservation → List CommandResult → Checked (Unit {0})
unfolding check_facts command_facts
check_all_facts by_selector [] = accepted tt
check_all_facts by_selector (command ∷ commands) = do
  check_facts by_selector command.name (command_facts command)
  check_all_facts by_selector commands

abbrev pub binding_of : BundleVerificationRequest → VerificationServiceResult → String → Binding
binding_of request result authority = record {
  subject_digest = request.workspace_bundle.archive_sha256;
  source_run_id = request.run_id;
  artifact_digest = result.receipt_artifact.sha256;
  producer_authority = authority;
}

-- `validate_final_command_observations`
unfoldable pub validate_final_command_observations :
    BundleVerificationRequest
    → VerificationServiceResult
    → List EvidenceObservation
    → String
    → Checked (Unit {0})
unfolding index_observations check_all_facts
validate_final_command_observations request result observations authority = do
  ensure (eqb (length observations) (length result.receipt.commands * length command_fact_types))
      "receipt observation count does not match command facts"
  by_selector ← index_observations (binding_of request result authority) observations []
  check_all_facts by_selector result.receipt.commands
