-- ===== src/Contracts/Verification.antt =====
-- contracts/verification.py, contracts/verification_service.py and contracts/verifier_assets.py: what the
-- verifier is asked and what it answers. The values are those that the constructors let through.
use sisyphus_harness.Prelude.{ℕ, String, Bool, Option, List}
use sisyphus_harness.Prelude.Float.{ℤ, Float}
use sisyphus_harness.Contracts.{ArtifactRef, WorkspaceBundleRef}

pub record CommandSpec : Type 0 where
  pub name : String
  pub argv : List String
  pub timeout_seconds : Float
  pub criteria : List String

pub record CommandResult : Type 0 where
  pub name : String
  pub argv : List String
  pub criteria : List String
  pub passed : Bool
  pub timed_out : Bool
  pub exit_code : Option ℤ
  pub duration_ms : ℕ
  pub executable_path : Option String
  pub executable_sha256 : Option String
  pub stdout_path : String
  pub stderr_path : String
  pub workspace_state_before : String
  pub workspace_state_after : String
  pub workspace_unchanged : Bool
  pub failure_category : Option String
  pub error : Option String

pub record VerificationReceipt : Type 0 where
  pub run_id : String
  pub workspace : String
  pub worktree_commit_sha : String
  pub started_at : String
  pub finished_at : String
  pub passed : Bool
  pub commands : List CommandResult
  pub workspace_state_before : String
  pub workspace_state_after : String
  pub workspace_unchanged : Bool
  pub request_digest : String
  pub schema_version : String
  pub workspace_bundle_id : Option String
  pub profile_digest : Option String
  pub execution_identity_digest : Option String
  pub verifier_asset_bundle_id : Option String

pub record VerifierAssetBundleRef : Type 0 where
  pub bundle_id : String
  pub manifest_sha256 : String
  pub tree_hash : String
  pub total_size_bytes : ℕ
  pub entry_count : ℕ
  pub schema_version : String

pub record VerifierExecutionIdentity : Type 0 where
  pub runtime : String
  pub image_reference : String
  pub image_id : String
  pub schema_version : String

pub record VerificationProfile : Type 0 where
  pub profile_id : String
  pub commands : List CommandSpec
  pub asset_bundle : Option VerifierAssetBundleRef
  pub schema_version : String

pub record BundleVerificationRequest : Type 0 where
  pub run_id : String
  pub workspace_bundle : WorkspaceBundleRef
  pub profile : VerificationProfile
  pub execution_identity : Option VerifierExecutionIdentity
  pub schema_version : String

pub record VerificationServiceResult : Type 0 where
  pub request_digest : String
  pub workspace_bundle_id : String
  pub profile_digest : String
  pub receipt : VerificationReceipt
  pub receipt_artifact : ArtifactRef
  pub execution_identity : Option VerifierExecutionIdentity
  pub schema_version : String
