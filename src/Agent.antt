-- ===== src/Agent.antt =====
-- protocol.py, config.py, contracts/policy.py, contracts/verification.py, agent_state.py: the values that an
-- agent run works on, and what it reads from outside.
pub mod Files
pub mod Protocol
pub mod Compaction
pub mod State
pub mod Transitions
pub mod Loop
use sisyphus_harness.Prelude.{ℕ, String, Bool, true, false, Option, none, some, List, [], ◌∷◌}
use sisyphus_harness.Prelude.Float.{ℤ}
use sisyphus_harness.Contracts.{ArtifactRef}
use sisyphus_harness.Contracts.Verification.{CommandResult, VerificationReceipt}
use sisyphus_harness.Contracts.Json.{Json, Fields}

-- The limits of a run that its loop reads.
pub record AgentLimits : Type 0 where
  pub max_steps : ℕ
  pub max_protocol_errors : ℕ
  pub max_compactions : ℕ

pub record CadencePolicy : Type 0 where
  pub compaction_interval_steps : ℕ
  pub context_char_limit : ℕ
  pub keep_recent_events : ℕ
  pub reflection_interval_steps : ℕ
  pub observation_interval_steps : ℕ
  pub verification_interval_mutations : ℕ
  pub stagnation_limit : ℕ

-- `AgentDecision` as `parse_agent_decision` builds it: a call of a tool with its arguments and reason, or
-- the end with its summary.
pub data AgentDecision : Type 0 where
  tool : String → Fields → String → AgentDecision
  finish : String → AgentDecision

-- An entry of `criteria` in a receipt's payload.
pub record CriterionOutcome : Type 0 where
  pub criterion : String
  pub command_name : String
  pub passed : Bool

-- A command as an event shows it.
pub record RenderedCommand : Type 0 where
  pub command : CommandResult
  pub feedback : Option String

pub record VerificationEvent : Type 0 where
  pub final : Bool
  pub run_id : String
  pub passed : Bool
  pub workspace_unchanged : Bool
  pub criteria : List CriterionOutcome
  pub commands : List RenderedCommand

-- `event["workspace_cycle"]`, without its constant fields.
pub record WorkspaceCycle : Type 0 where
  pub previous_step : ℕ
  pub repeat_count : ℕ

-- An event of the transcript: what it is, and the two entries that are put into it later.
pub data EventKind : Type 0 where
  tool_done : ℕ → String → Fields → String → Fields → Bool → EventKind
  tool_error : ℕ → String → Fields → String → Bool → EventKind
  verification : VerificationEvent → EventKind
  verification_rejected : String → EventKind
  protocol_error : ℕ → String → String → EventKind
  provider_error : ℕ → String → EventKind
  stagnation : ℕ → String → ℕ → EventKind

pub record Event : Type 0 where
  pub kind : EventKind
  pub workspace_cycle : Option WorkspaceCycle
  pub followup_verification : Option VerificationEvent

abbrev pub event : EventKind → Event
event kind = record { kind = kind; workspace_cycle = none; followup_verification = none }

pub record AgentTermination : Type 0 where
  pub success : Bool
  pub reason : String
  pub steps : ℕ

abbrev pub stop : Bool → String → ℕ → AgentTermination
stop success reason steps = record { success = success; reason = reason; steps = steps }

-- `ToolOutcome`, or the message of a `ToolError`.
pub data ToolReply : Type 0 where
  outcome : Fields → Bool → ToolReply
  failed : String → ToolReply

-- What the provider does: it answers, or raises `DeadlineExceeded` or `ProviderError`.
pub data ModelReply : Type 0 where
  content : String → ModelReply
  deadline_exceeded : ModelReply
  provider_failure : String → ModelReply

pub data Parsed : Type 0 where
  decision : AgentDecision → Parsed
  malformed : String → Parsed

-- What one step reads from outside: the clock against the deadline before the step and after the answer,
-- the provider's answer, the hashes of the workspace's snapshots in their order, the tool's reply, and
-- the verifier's receipt with the reference to it.
pub record StepInput : Type 0 where
  pub expired : Bool
  pub before : String
  pub reply : ModelReply
  pub expired_after : Bool
  pub tool_reply : ToolReply
  pub after_tool : String
  pub after_tool_error : String
  pub receipt : VerificationReceipt
  pub receipt_reference : ArtifactRef
  pub after_verification : String

-- Functions outside the run: the length of the events' JSON, SHA-256 of a decision's canonical JSON,
-- given its tool and arguments, `json.loads`, the text inside a code fence, where a text is fenced, and
-- `str.count` and `str.replace` of one.
pub record Outside : Type 0 where
  pub transcript_size : List Event → ℕ
  pub fingerprint : Option (String × Fields) → String
  pub loads : String → Option Json
  pub fenced : String → Option String
  pub occurrences : String → String → ℕ
  pub replace_first : String → String → String → String
