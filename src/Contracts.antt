-- ===== src/Contracts.antt =====
-- The immutable records that the components exchange: contracts/agent.py, contracts/artifacts.py,
-- contracts/workspace.py and contracts/control/attempts.py.
pub mod Json
pub mod Verification
pub mod Equality
pub mod Checks
use sisyphus_harness.Prelude.{ℕ, String, Bool, Option, List}

pub record WorkspaceSnapshot : Type 0 where
  pub commit_sha : String
  pub state_hash : String
  pub changed_paths : List String

pub record WorkspaceBundleRef : Type 0 where
  pub bundle_id : String
  pub archive_sha256 : String
  pub size_bytes : ℕ
  pub source_commit_sha : String
  pub source_state_hash : String
  pub tree_hash : String
  pub changed_paths : List String
  pub entry_count : ℕ
  pub schema_version : String

pub record ArtifactRef : Type 0 where
  pub artifact_id : String
  pub sha256 : String
  pub size_bytes : ℕ
  pub media_type : String
  pub schema_version : String

pub record AgentTask : Type 0 where
  pub instruction : String
  pub acceptance_criteria : List String

pub record AgentResult : Type 0 where
  pub run_id : String
  pub success : Bool
  pub reason : String
  pub steps : ℕ
  pub compactions : ℕ
  pub verifications : ℕ
  pub workspace_state_before : String
  pub workspace_state_after : String
  pub changed_paths : List String
  pub artifact_path : String
  pub verification_artifacts : List ArtifactRef
  pub summary : Option String
  pub schema_version : String

pub record AttemptFinished : Type 0 where
  pub job_id : String
  pub attempt : ℕ
  pub attempt_id : String
  pub source_bundle : WorkspaceBundleRef
  pub output_bundle : WorkspaceBundleRef
  pub agent_result : AgentResult
  pub schema_version : String
