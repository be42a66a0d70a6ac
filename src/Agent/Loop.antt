-- ===== src/Agent/Loop.antt =====
-- agent_loop.py: `AgentRunLoop.run`, its steps, and agent_artifacts.py: `AgentRunRecorder.finish`.
pub mod Unrolling
pub mod Counters
pub mod Success
pub mod Budgets
mod Samples
use sisyphus_harness.Prelude.{
  ℕ, zero, suc, ◌+◌, ◌-◌, String, Bool, true, false, Option, none, some, List, [], ◌∷◌, ◌++◌,
  if◌then◌else◌, ltb,
}
use sisyphus_harness.Prelude.Text.{join_text}
use sisyphus_harness.Contracts.{AgentResult}
use sisyphus_harness.Contracts.Json.{Fields}
use sisyphus_harness.Agent.{
  AgentLimits, CadencePolicy, AgentDecision, tool, finish, EventKind, protocol_error,
  provider_error, stagnation, Event, event, AgentTermination, stop, ModelReply, content,
  deadline_exceeded, provider_failure, Parsed, decision, malformed, StepInput, Outside,
}
use sisyphus_harness.Agent.Protocol.{parse_agent_decision}
use sisyphus_harness.Agent.State.{
  AgentRunState, should_compact, compact, observe_decision, decision_payload,
}
use sisyphus_harness.Agent.Transitions.{AgentStepTransition, execute, after_tool, add_event}
use sisyphus_harness.Agent.Transitions

-- What a run is made with.
pub record AgentRunLoop : Type 0 where
  pub limits : AgentLimits
  pub cadence : CadencePolicy
  pub outside : Outside

-- `recorder.write_step`: the step, the workspace's hashes before and after, and the event.
pub record Written : Type 0 where
  pub step : ℕ
  pub before : String
  pub after : String
  pub event : Event

pub record StepOutcome : Type 0 where
  pub state : AgentRunState
  pub written : List Written
  pub termination : Option AgentTermination

abbrev pub of_transition : ℕ → String → AgentRunState × AgentStepTransition → StepOutcome
of_transition step before (s, t) = record {
  state = s;
  written = record { step = step; before = before; after = t.after; event = t.event } ∷ [];
  termination = t.termination;
}

-- The tool's transition, and the verification after it where it does not end the run.
unfoldable pub tool_step :
    AgentRunLoop
    → ℕ
    → String
    → Fields
    → String
    → StepInput
    → AgentRunState
    → AgentRunState × AgentStepTransition
unfolding execute after_tool
tool_step loop step name arguments reason input s =
    let (executed, t) =
      execute loop.outside loop.cadence.stagnation_limit step name arguments reason input s in
    elim t.termination [
      | some _ ↦ (executed, t)
      | none ↦ after_tool loop.cadence.verification_interval_mutations step input executed t
    ]

unfoldable pub decided_step :
    AgentRunLoop
    → ℕ
    → AgentDecision
    → StepInput
    → AgentRunState
    → AgentRunState × AgentStepTransition
unfolding tool_step Transitions.finish
decided_step loop step (AgentDecision.finish summary) input s =
    Transitions.finish step summary input s
decided_step loop step (tool name arguments reason) input s =
    tool_step loop step name arguments reason input s

-- The rest of a step, from the parsed answer on.
unfoldable pub parsed_step :
    AgentRunLoop → ℕ → String → Parsed → StepInput → AgentRunState → StepOutcome
unfolding decided_step observe_decision
parsed_step loop step answer (malformed error) input s =
    let e = event (protocol_error step error answer) in
    let counted = record s { protocol_errors = s.protocol_errors + 1 } in
    record {
      state = add_event e counted;
      written = record { step = step; before = input.before; after = input.before; event = e } ∷ [];
      termination =
          if ltb loop.limits.max_protocol_errors (s.protocol_errors + 1)
          then some (stop false "model protocol error budget exhausted" step)
          else none;
    }
parsed_step loop step answer (decision d) input s =
    let (observed, stagnant) = observe_decision loop.outside loop.cadence.stagnation_limit d s in
    let fingerprint = loop.outside.fingerprint (decision_payload d) in
    let e = event (stagnation step fingerprint observed.repeated_fingerprint) in
    if stagnant
    then record {
      state = observed;
      written = record { step = step; before = input.before; after = input.before; event = e } ∷ [];
      termination = some (stop false "stagnation threshold reached" step);
    }
    else of_transition step input.before (decided_step loop step d input observed)

abbrev pub out_of_time : ℕ → AgentRunState → StepOutcome
out_of_time step s = record {
  state = s;
  written = [];
  termination = some (stop false "runtime budget exhausted" (step - 1));
}

-- The answer of the provider.
unfoldable pub reply_step : AgentRunLoop → ℕ → ModelReply → StepInput → AgentRunState → StepOutcome
unfolding parsed_step parse_agent_decision
reply_step loop step (content answer) input s =
    if input.expired_after
    then out_of_time step s
    else parsed_step loop step answer (parse_agent_decision loop.outside answer) input s
reply_step loop step deadline_exceeded input s = out_of_time step s
reply_step loop step (provider_failure error) input s =
    let e = event (provider_error step error) in
    record {
      state = s;
      written = record { step = step; before = input.before; after = input.before; event = e } ∷ [];
      termination = some (stop false (join_text "provider failure: " error) (step - 1));
    }

-- `_run_step`; what the prompt shows is left out, since only the provider reads it.
unfoldable pub run_step : AgentRunLoop → ℕ → StepInput → AgentRunState → StepOutcome
unfolding reply_step should_compact compact
run_step loop step input s =
    let s' =
      if should_compact loop.outside loop.cadence loop.limits.max_compactions step s
      then compact loop.cadence s
      else s in
    reply_step loop step input.reply input s'

pub record Ended : Type 0 where
  pub state : AgentRunState
  pub written : List Written
  pub termination : AgentTermination

-- `run`, on the steps that are left, from a given step on; the inputs are given by step.
unfoldable pub run_from :
    AgentRunLoop → (ℕ → StepInput) → ℕ → ℕ → AgentRunState → List Written → Ended
unfolding run_step
run_from loop inputs zero step s written = record {
  state = s;
  written = written;
  termination = stop false "step budget exhausted" loop.limits.max_steps;
}
run_from loop inputs (suc left) step s written =
    if (inputs step).expired
    then record {
      state = s;
      written = written;
      termination = stop false "runtime budget exhausted" (step - 1);
    }
    else let r = run_step loop step (inputs step) s in
      elim r.termination [
        | some t ↦ record { state = r.state; written = written ++ r.written; termination = t }
        | none ↦ run_from loop inputs left (step + 1) r.state (written ++ r.written)
      ]

-- `AgentRunLoop.run` up to the recorder's `finish`.
unfoldable pub run : AgentRunLoop → (ℕ → StepInput) → AgentRunState → Ended
unfolding run_from
run loop inputs s = run_from loop inputs loop.limits.max_steps 1 s []

-- What the recorder's `finish` adds: the run's id and artifacts, and the snapshots before and after it.
pub record RecordedRun : Type 0 where
  pub run_id : String
  pub artifact_path : String
  pub initial_state : String
  pub final_state : String
  pub changed_paths : List String
  pub schema_version : String

-- `AgentRunRecorder.finish`
unfoldable pub agent_result : RecordedRun → Ended → AgentResult
agent_result recorded ended = record {
  run_id = recorded.run_id;
  success = ended.termination.success;
  reason = ended.termination.reason;
  steps = ended.termination.steps;
  compactions = ended.state.compactions;
  verifications = ended.state.verifications;
  workspace_state_before = recorded.initial_state;
  workspace_state_after = recorded.final_state;
  changed_paths = recorded.changed_paths;
  artifact_path = recorded.artifact_path;
  verification_artifacts = ended.state.verification_artifacts;
  summary = ended.state.final_summary;
  schema_version = recorded.schema_version;
}
