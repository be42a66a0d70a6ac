-- ===== src/Agent/Transitions/Counters.antt =====
-- The counters of a run across a tool call and a verification.
use sisyphus_harness.Prelude.{
  ℕ, ◌+◌, ◌≤◌, ◌<◌, String, ◌≡◌, ◌⊎◌, true, none, [], ◌∷◌, arith, length, length-append,
}
use sisyphus_harness.Contracts.Json.{Fields}
use sisyphus_harness.Agent.{StepInput, ToolReply, outcome, failed, Outside}
use sisyphus_harness.Agent.Compaction.{event_mutated}
use sisyphus_harness.Agent.State.{
  AgentRunState, observe_workspace_state, update_criterion_status, remember_verification_state,
}
use sisyphus_harness.Agent.Transitions.{
  AgentStepTransition, execute, after_tool, attempt_tool, settle_tool, ToolAttempt,
  count_verification,
}
use sisyphus_harness.Agent.Transitions

-- The counters that a tool call and a verification leave as they are.
abbrev pub Same : AgentRunState → AgentRunState → Type 0
Same s s' =
    (s'.compactions ≡ s.compactions)
    × (s'.protocol_errors ≡ s.protocol_errors)
    × (s'.repeated_fingerprint ≡ s.repeated_fingerprint)

pub settle_tool-counters :
    (limit step : ℕ) (a : ToolAttempt)
    → Same a.state (settle_tool limit step a).0
      × ((settle_tool limit step a).0.verifications ≡ a.state.verifications)
      × ((settle_tool limit step a).0.verification_artifacts ≡ a.state.verification_artifacts)
      × ((settle_tool limit step a).0.mutations_since_verify ≡ a.state.mutations_since_verify)
      × (event_mutated (settle_tool limit step a).1.event.kind ≡ event_mutated a.kind)
unfolding settle_tool
settle_tool-counters limit step a = ground arith

pub settle_tool-cycles :
    (limit step : ℕ) (a : ToolAttempt)
    → 0 < limit
    → a.state.workspace_cycle_streak < limit
    → (settle_tool limit step a).1.termination ≡ none
    → (settle_tool limit step a).0.workspace_cycle_streak < limit
unfolding settle_tool observe_workspace_state
settle_tool-cycles limit step a p h k = ground arith

pub attempt_tool-counters :
    (outside : Outside) (step : ℕ) (name : String) (arguments : Fields) (reason : String)
    (input : StepInput) (s : AgentRunState) (reply : ToolReply)
    → let a = attempt_tool outside step name arguments reason input s reply in
      Same s a.state
      × (a.state.verifications ≡ s.verifications)
      × (a.state.verification_artifacts ≡ s.verification_artifacts)
      × (a.state.workspace_cycle_streak ≡ s.workspace_cycle_streak)
      × ((a.state.mutations_since_verify ≡ s.mutations_since_verify)
          ⊎ ((a.state.mutations_since_verify ≡ s.mutations_since_verify + 1)
              × (event_mutated a.kind ≡ true)))
unfolding attempt_tool
attempt_tool-counters outside step name arguments reason input s (failed error) = ground arith
attempt_tool-counters outside step name arguments reason input s (outcome output mutated) =
    ground arith

pub after_tool-counters :
    (interval step : ℕ) (input : StepInput) (s : AgentRunState) (t : AgentStepTransition)
    → Same s (after_tool interval step input s t).0
      × ((after_tool interval step input s t).0.workspace_cycle_streak ≡ s.workspace_cycle_streak)
unfolding after_tool
after_tool-counters interval step input s t = ground arith

pub after_tool-receipts :
    (interval step : ℕ) (input : StepInput) (s : AgentRunState) (t : AgentStepTransition)
    → s.verifications ≡ length s.verification_artifacts
    → (after_tool interval step input s t).0.verifications
      ≡ length (after_tool interval step input s t).0.verification_artifacts
unfolding after_tool count_verification update_criterion_status remember_verification_state
after_tool-receipts interval step input s t h =
    ground (arith, length-append s.verification_artifacts (input.receipt_reference ∷ []))

pub after_tool-unverified :
    (interval step : ℕ) (input : StepInput) (s : AgentRunState) (t : AgentStepTransition)
    → 0 < interval
    → (event_mutated t.event.kind ≡ true) ⊎ (s.mutations_since_verify < interval)
    → (after_tool interval step input s t).0.mutations_since_verify < interval
unfolding after_tool remember_verification_state update_criterion_status
after_tool-unverified interval step input s t p h = ground arith

pub finish-counters :
    (step : ℕ) (summary : String) (input : StepInput) (s : AgentRunState)
    → Same s (Transitions.finish step summary input s).0
      × ((Transitions.finish step summary input s).0.workspace_cycle_streak
          ≡ s.workspace_cycle_streak)
      × ((Transitions.finish step summary input s).0.mutations_since_verify
          ≤ s.mutations_since_verify)
unfolding Transitions.finish count_verification update_criterion_status remember_verification_state
finish-counters step summary input s = ground arith

pub finish-receipts :
    (step : ℕ) (summary : String) (input : StepInput) (s : AgentRunState)
    → s.verifications ≡ length s.verification_artifacts
    → (Transitions.finish step summary input s).0.verifications
      ≡ length (Transitions.finish step summary input s).0.verification_artifacts
unfolding Transitions.finish count_verification update_criterion_status remember_verification_state
finish-receipts step summary input s h =
    ground (arith, length-append s.verification_artifacts (input.receipt_reference ∷ []))
