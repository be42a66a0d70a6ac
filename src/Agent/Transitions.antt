-- ===== src/Agent/Transitions.antt =====
-- agent_transitions.py: what a tool call and a verification do to the state of a run. An event that is
-- changed after it was put into the transcript is put there in its changed form.
pub mod Counters
use sisyphus_harness.Prelude.{
  ℕ, ◌+◌, String, Bool, true, false, not, ◌&&◌, ◌||◌, Option, none, some, List, [], ◌∷◌, ◌++◌, map,
  ◌==◌, if◌then◌else◌, ltb,
}
use sisyphus_harness.Contracts.{ArtifactRef}
use sisyphus_harness.Contracts.Verification.{CommandResult, VerificationReceipt}
use sisyphus_harness.Contracts.Json.{Fields}
use sisyphus_harness.Agent.{
  CadencePolicy, CriterionOutcome, RenderedCommand, VerificationEvent, WorkspaceCycle, EventKind,
  tool_done, tool_error, verification, verification_rejected, Event, event, AgentTermination, stop,
  ToolReply, outcome, failed, StepInput, Outside,
}
use sisyphus_harness.Agent.Files.{Dict, WorkingFile, update_known_file_state}
use sisyphus_harness.Agent.Compaction.{event_mutated}
use sisyphus_harness.Agent.State.{
  AgentRunState, observe_workspace_state, update_criterion_status, remember_verification_state,
  same_text,
}

pub record AgentStepTransition : Type 0 where
  pub event : Event
  pub after : String
  pub termination : Option AgentTermination

abbrev pub category_is : String → Option String → Bool
category_is name none = false
category_is name (some category) = category == name

-- The feedback on a command that did not pass.
unfoldable pub feedback_of : CommandResult → Option String
feedback_of c =
    if c.passed
    then none
    else if category_is "execution_error" c.failure_category
    then some
        "Verification could not complete its assertions normally. Inspect syntax, imports, referenced names, and runtime-valid control flow, then make a concrete repair before verification."
    else if category_is "timeout" c.failure_category
    then some
        "Verification timed out. Inspect termination conditions and bounded work, then make a concrete repair before verification."
    else some
        "Verification failed. Inspect the current workspace, compare the implementation with every acceptance criterion, and make a concrete repair before requesting verification again."

unfoldable pub rendered_commands : List CommandResult → List RenderedCommand
unfolding feedback_of
rendered_commands [] = []
rendered_commands (c ∷ rest) =
    record { command = c; feedback = feedback_of c } ∷ rendered_commands rest

unfoldable pub command_outcomes : CommandResult → List String → List CriterionOutcome
command_outcomes c [] = []
command_outcomes c (criterion ∷ rest) =
    record { criterion = criterion; command_name = c.name; passed = c.passed }
    ∷ command_outcomes c rest

-- `_criteria_payload`
unfoldable pub criteria_payload : List CommandResult → List CriterionOutcome
unfolding command_outcomes
criteria_payload [] = []
criteria_payload (c ∷ rest) = command_outcomes c c.criteria ++ criteria_payload rest

-- `verification_event`
unfoldable pub verification_event : VerificationReceipt → Bool → VerificationEvent
unfolding rendered_commands criteria_payload
verification_event receipt final = record {
  final = final;
  run_id = receipt.run_id;
  passed = receipt.passed;
  workspace_unchanged = receipt.workspace_unchanged;
  criteria = criteria_payload receipt.commands;
  commands = rendered_commands receipt.commands;
}

abbrev pub add_event : Event → AgentRunState → AgentRunState
add_event e s = record s { events = s.events ++ (e ∷ []) }

-- The body of the `try` of `AgentToolTransitionHandler.execute`, or its handler of `ToolError`: the
-- event, the snapshot's hash, whether the tool failed, and the state.
pub record ToolAttempt : Type 0 where
  pub kind : EventKind
  pub after : String
  pub tool_failed : Bool
  pub state : AgentRunState

abbrev pub tool_failure : ℕ → String → Fields → String → StepInput → AgentRunState → ToolAttempt
tool_failure step name arguments error input s = record {
  kind = tool_error step name arguments error (not (input.before == input.after_tool_error));
  after = input.after_tool_error;
  tool_failed = true;
  state = s;
}

abbrev pub tool_success :
    Outside → ℕ → String → Fields → String → Fields → Bool → StepInput → AgentRunState → ToolAttempt
tool_success outside step name arguments reason output mutated input s =
    let (known, working) =
      update_known_file_state outside s.known_file_hashes s.working_file name arguments output in
    record {
      kind = tool_done step name arguments reason output mutated;
      after = input.after_tool;
      tool_failed = false;
      state = record s {
        known_file_hashes = known;
        working_file = working;
        mutations_since_verify =
            if mutated then s.mutations_since_verify + 1 else s.mutations_since_verify;
      };
    }

abbrev pub mismatch : Bool → Bool → Bool
mismatch true mutated = not mutated
mismatch false mutated = mutated

unfoldable pub attempt_tool :
    Outside → ℕ → String → Fields → String → StepInput → AgentRunState → ToolReply → ToolAttempt
unfolding update_known_file_state
attempt_tool outside step name arguments reason input s (failed error) =
    tool_failure step name arguments error input s
attempt_tool outside step name arguments reason input s (outcome output mutated) =
    if mismatch (not (input.before == input.after_tool)) mutated
    then tool_failure step name arguments
        "tool mutation report does not match workspace state transition" input s
    else tool_success outside step name arguments reason output mutated input s

-- The rest of `execute`, from `state.events.append(event)` on.
unfoldable pub settle_tool : ℕ → ℕ → ToolAttempt → AgentRunState × AgentStepTransition
unfolding observe_workspace_state
settle_tool stagnation_limit step a =
    let plain = event a.kind in
    let (observed, cycle, stagnant) =
      observe_workspace_state stagnation_limit a.after step a.state in
    let marked = record plain { workspace_cycle = cycle } in
    if a.tool_failed && event_mutated a.kind
    then (
      add_event plain a.state,
      record {
        event = plain;
        after = a.after;
        termination = some (stop false "tool failed after mutating workspace" step);
      },
    )
    else if not (event_mutated a.kind)
    then (add_event plain a.state, record { event = plain; after = a.after; termination = none })
    else (
      add_event marked observed,
      record {
        event = marked;
        after = a.after;
        termination =
            if stagnant
            then some (stop false "workspace state cycle threshold reached" step)
            else none;
      },
    )

-- `AgentToolTransitionHandler.execute`
unfoldable pub execute :
    Outside
    → ℕ
    → ℕ
    → String
    → Fields
    → String
    → StepInput
    → AgentRunState
    → AgentRunState × AgentStepTransition
unfolding attempt_tool settle_tool
execute outside stagnation_limit step name arguments reason input s =
    settle_tool stagnation_limit step
      (attempt_tool outside step name arguments reason input s input.tool_reply)

-- `_verify`, for the receipt that the verifier returns.
unfoldable pub count_verification : StepInput → AgentRunState → AgentRunState
count_verification input s = record s {
  verifications = s.verifications + 1;
  verification_artifacts = s.verification_artifacts ++ (input.receipt_reference ∷ []);
}

-- `AgentVerificationTransitionHandler.finish`
unfoldable pub finish : ℕ → String → StepInput → AgentRunState → AgentRunState × AgentStepTransition
unfolding count_verification verification_event update_criterion_status remember_verification_state
finish step summary input s =
    let summarized = record s { final_summary = some summary } in
    let rejected = event (verification_rejected input.before) in
    let v = verification_event input.receipt true in
    let verified = add_event (event (verification v)) (
      remember_verification_state input.after_verification step
        (update_criterion_status v (count_verification input summarized))) in
    if same_text s.last_failed_verification_state input.before
    then (
      add_event rejected summarized,
      record { event = rejected; after = input.before; termination = none },
    )
    else if not input.receipt.workspace_unchanged
    then (
      verified,
      record {
        event = event (verification v);
        after = input.after_verification;
        termination = some (stop false "verification command mutated the workspace" step);
      },
    )
    else if input.receipt.passed
    then (
      verified,
      record {
        event = event (verification v);
        after = input.after_verification;
        termination = some (stop true "final verification passed" step);
      },
    )
    else (
      record verified {
        last_failed_verification_state = some input.after_verification;
        mutations_since_verify = 0;
      },
      record {
        event = event (verification v);
        after = input.after_verification;
        termination = none;
      },
    )

-- The transcript's last event, which the transition holds too, changed.
unfoldable pub set_last : Event → List Event → List Event
set_last e [] = []
set_last e (x ∷ []) = e ∷ []
set_last e (x ∷ y ∷ rest) = x ∷ set_last e (y ∷ rest)

-- `after_tool`
unfoldable pub after_tool :
    ℕ → ℕ → StepInput → AgentRunState → AgentStepTransition → AgentRunState × AgentStepTransition
unfolding count_verification verification_event update_criterion_status remember_verification_state
    set_last
after_tool verification_interval_mutations step input s t =
    let v = verification_event input.receipt false in
    let marked = record t.event { followup_verification = some v } in
    let remembered = remember_verification_state t.after step (
      update_criterion_status v
        (record (count_verification input s) { mutations_since_verify = 0 })) in
    let verified = record remembered {
      events = set_last marked s.events ++ (event (verification v) ∷ []);
    } in
    if not (event_mutated t.event.kind)
      || ltb s.mutations_since_verify verification_interval_mutations
    then (s, t)
    else if not input.receipt.workspace_unchanged
    then (
      verified,
      record {
        event = marked;
        after = input.after_verification;
        termination = some (stop false "verification command mutated the workspace" step);
      },
    )
    else (
      record verified {
        last_failed_verification_state = if input.receipt.passed then none else some t.after;
      },
      record { event = marked; after = t.after; termination = t.termination },
    )
