-- ===== src/Contracts/Checks.antt =====
-- contracts/verification.py, contracts/verification_service.py and contracts/verifier_assets.py: the checks of
-- the constructors (`__post_init__`). Of a value of the right type, they test the fields.
use Prim.Native.Char.{code}
use Prim.Native.String.{[], ◌∷◌}
use sisyphus_harness.Prelude.{
  ℕ, String, Bool, true, false, not, ◌&&◌, ◌||◌, Option, none, some, List, ◌==◌, leb, ltb, eqb, any,
  all, is_some, length, map, if◌then◌else◌,
}
use sisyphus_harness.Prelude.Checked.{Checked, ensure, refuse_if, ◌>>◌}
use sisyphus_harness.Prelude.Equality.{same_bool}
use sisyphus_harness.Prelude.Float.{is_finite, float_le, float_zero}
use sisyphus_harness.Prelude.Text.{
  strip, characters, has_null, is_sha256, join_text, first_characters, drop_characters,
}
use sisyphus_harness.Contracts.Verification.{
  CommandSpec, VerificationReceipt, VerifierAssetBundleRef, VerificationProfile,
  BundleVerificationRequest,
}

-- The regular expression `[A-Za-z0-9][A-Za-z0-9._-]{0,127}`, matched in full.
abbrev pub is_alphanumeric : ℕ → Bool
is_alphanumeric c = (leb 48 c && leb c 57) || (leb 65 c && leb c 90) || (leb 97 c && leb c 122)

unfoldable pub is_id_rest : String → Bool
is_id_rest [] = true
is_id_rest (c ∷ s) =
    (is_alphanumeric (code c) || eqb (code c) 45 || eqb (code c) 46 || eqb (code c) 95)
    && is_id_rest s

-- `_validate_id` and `_validate_run_id`; the expression matches neither "." nor "..".
unfoldable pub is_safe_id : String → Bool
unfolding is_id_rest characters
is_safe_id [] = false
is_safe_id (c ∷ s) = is_alphanumeric (code c) && is_id_rest s && leb (characters s) 127

-- `_string`
unfoldable pub is_text_value : String → Bool
unfolding has_null
is_text_value s = not (s == "") && not (has_null s)

abbrev pub is_text_option : Option String → Bool
is_text_option none = false
is_text_option (some s) = is_text_value s

abbrev pub is_digest_option : Option String → Bool
is_digest_option none = false
is_digest_option (some s) = is_sha256 s

-- `len(set(names)) != len(names)`
unfoldable pub has_repeats : List String → Bool
has_repeats List.[] = false
has_repeats (List.◌∷◌ name rest) = any (λ other. other == name) rest || has_repeats rest

abbrev pub is_blank : String → Bool
is_blank s = strip s == ""

-- `CommandSpec.__post_init__`
unfoldable pub check_command_spec : CommandSpec → Checked (Unit {0})
unfolding strip has_null is_finite float_le has_repeats
check_command_spec spec = do
  refuse_if (is_blank spec.name) "verification command name must be non-empty"
  refuse_if (eqb (length spec.argv) 0 || any (λ item. is_blank item || has_null item) spec.argv)
      "verification command requires non-empty argv"
  ensure (is_finite spec.timeout_seconds && not (float_le spec.timeout_seconds float_zero))
      "verification command requires a positive timeout"
  refuse_if
      (eqb (length spec.criteria) 0 || any is_blank spec.criteria || has_repeats spec.criteria)
      "verification command requires unique acceptance criteria"

abbrev pub spec_name : CommandSpec → String
spec_name spec = spec.name

-- `VerificationProfile.__post_init__`
unfoldable pub check_verification_profile : VerificationProfile → Checked (Unit {0})
unfolding is_safe_id has_repeats
check_verification_profile profile = do
  ensure (is_safe_id profile.profile_id) "verification profile ID contains unsafe characters"
  ensure (ltb 0 (length profile.commands)) "verification profile requires exact CommandSpec values"
  refuse_if (has_repeats (map spec_name profile.commands))
      "verification profile command names must be unique"
  ensure
      (profile.schema_version == "sisyphus_harness.verification_profile.v1"
        || profile.schema_version == "sisyphus_harness.verification_profile.v2")
      "unsupported verification profile schema"
  refuse_if
      (profile.schema_version == "sisyphus_harness.verification_profile.v1"
        && is_some profile.asset_bundle)
      "v1 verification profile cannot bind verifier assets"

-- `VerifierAssetBundleRef.__post_init__`
unfoldable pub check_asset_bundle : VerifierAssetBundleRef → Checked (Unit {0})
unfolding is_sha256 join_text first_characters drop_characters
check_asset_bundle bundle = do
  ensure
      (first_characters 16 bundle.bundle_id == "verifier-assets:"
        && is_sha256 (drop_characters 16 bundle.bundle_id))
      "verifier asset bundle ID is invalid"
  ensure (is_sha256 bundle.manifest_sha256) "verifier asset manifest digest must be SHA-256"
  ensure (is_sha256 bundle.tree_hash) "verifier asset tree hash must be SHA-256"
  ensure (bundle.bundle_id == join_text "verifier-assets:" bundle.manifest_sha256)
      "verifier asset bundle ID and manifest digest differ"
  refuse_if (eqb bundle.entry_count 0) "verifier asset bundle must contain at least one file"
  ensure (bundle.schema_version == "sisyphus_harness.verifier_asset_bundle_ref.v1")
      "unsupported verifier asset bundle reference schema"

-- `BundleVerificationRequest.__post_init__`
unfoldable pub check_bundle_request : BundleVerificationRequest → Checked (Unit {0})
unfolding is_safe_id
check_bundle_request request = do
  ensure (is_safe_id request.run_id) "bundle verification run ID contains unsafe characters"
  if request.schema_version == "sisyphus_harness.bundle_verification_request.v1"
      then (do
        refuse_if (is_some request.execution_identity)
            "v1 bundle request cannot bind execution identity"
        ensure (request.profile.schema_version == "sisyphus_harness.verification_profile.v1")
            "v1 bundle request requires a v1 profile")
      else (do
        ensure (request.schema_version == "sisyphus_harness.bundle_verification_request.v2")
            "unsupported bundle verification request schema"
        ensure (is_some request.execution_identity)
            "v2 bundle request requires exact execution identity"
        ensure (request.profile.schema_version == "sisyphus_harness.verification_profile.v2")
            "v2 bundle request requires a v2 profile")

-- The values that a receipt binds by its schema.
unfoldable pub check_receipt_bindings : VerificationReceipt → Checked (Unit {0})
unfolding is_text_value is_sha256
check_receipt_bindings r =
    if r.schema_version == "sisyphus_harness.verification.v3"
    then (do
      ensure (is_text_option r.workspace_bundle_id)
          "verification receipt bundle ID must be a non-empty string"
      ensure (is_digest_option r.profile_digest)
          "verification receipt profile digest must be SHA-256"
      ensure (is_digest_option r.execution_identity_digest)
          "verification receipt execution identity digest must be SHA-256"
      refuse_if
          (is_some r.verifier_asset_bundle_id && not (is_text_option r.verifier_asset_bundle_id))
          "verification receipt verifier asset bundle ID must be a non-empty string")
    else refuse_if
        (is_some r.workspace_bundle_id
          || is_some r.profile_digest
          || is_some r.execution_identity_digest
          || is_some r.verifier_asset_bundle_id)
        "legacy verification receipt cannot contain v3 bindings"

-- `VerificationReceipt.__post_init__`, on a receipt that has its request's digest.
unfoldable pub check_verification_receipt : VerificationReceipt → Checked (Unit {0})
unfolding is_safe_id is_text_value is_sha256 check_receipt_bindings
check_verification_receipt r = do
  ensure (is_safe_id r.run_id) "verification run ID contains unsafe characters"
  ensure
      (is_text_value r.workspace
        && is_text_value r.worktree_commit_sha
        && is_text_value r.started_at
        && is_text_value r.finished_at
        && is_text_value r.workspace_state_before
        && is_text_value r.workspace_state_after)
      "verification receipt field must be a non-empty string"
  ensure (same_bool r.workspace_unchanged (r.workspace_state_before == r.workspace_state_after))
      "verification receipt workspace state claim is inconsistent"
  ensure
      (r.schema_version == "sisyphus_harness.verification.v1"
        || r.schema_version == "sisyphus_harness.verification.v2"
        || r.schema_version == "sisyphus_harness.verification.v3")
      "unsupported verification receipt schema"
  ensure (is_sha256 r.request_digest) "verification request digest must be SHA-256"
  check_receipt_bindings r
  ensure (same_bool r.passed (r.workspace_unchanged && all (λ c. c.passed) r.commands))
      "verification receipt pass status is inconsistent"
