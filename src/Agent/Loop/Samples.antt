-- ===== src/Agent/Loop/Samples.antt =====
-- Runs of the agent's loop and a compaction at concrete inputs.
use sisyphus_harness.Prelude.{
  some, ℕ, ◌+◌, ◌≤◌, String, ◌≡◌, refl, ◌⊎◌, Bool, true, false, none, List, [], ◌∷◌, ◌++◌, length,
  count_if, is_some, arith, ◌==◌, if◌then◌else◌, eqb,
}
use sisyphus_harness.Contracts.{AgentTask}
use sisyphus_harness.Contracts.Json.{Fields, end, field, text, object}
use sisyphus_harness.Contracts.Verification.{VerificationReceipt}
use sisyphus_harness.Agent.{
  AgentDecision, Event, event, tool_done, tool_error, protocol_error, content, outcome, StepInput,
  Outside,
}
use sisyphus_harness.Agent.Compaction.{previous, but_last, compact_events}
use sisyphus_harness.Agent.Compaction.Counts.{total_count, calls_tool, compact_events_lem}
use sisyphus_harness.Agent.Protocol.{
  is_acceptable, parse_agent_decision, parse_agent_decision-is_acceptable,
}
use sisyphus_harness.Agent.State.{start}
use sisyphus_harness.Agent.Loop.{AgentRunLoop, run, run_step}
use sisyphus_harness.Agent.Loop.Success.{EndsWell, run-EndsWell}
use sisyphus_harness.Agent.Loop.Counters.{IsCounted, IsGoing}
use sisyphus_harness.Agent.Loop.Budgets.{run_step-Kept, run-IsCounted, start-IsGoing}

abbrev task : AgentTask
task = record { instruction = "repair"; acceptance_criteria = "tests pass" ∷ [] }

abbrev arguments : Fields
arguments = field "path" (text "a.py") end

-- The answer "done" ends the run, "write" writes a file, and any other is malformed.
abbrev outside : Outside
outside = record {
  transcript_size = λ events. length events;
  fingerprint = λ payload. if is_some payload then "tool" else "finish";
  loads = λ answer.
      if answer == "done"
      then some (object (field "type" (text "finish") (field "summary" (text "done") end)))
      else if answer == "write"
      then some (
          object (
            field "type" (text "tool")
              (field "tool" (text "write_file") (field "arguments" (object arguments) end))))
      else none;
  fenced = λ s. none;
  occurrences = λ old s. 0;
  replace_first = λ old new s. s;
}

abbrev loop : AgentRunLoop
loop = record {
  limits = record { max_steps = 3; max_protocol_errors = 1; max_compactions = 1 };
  cadence = record {
    compaction_interval_steps = 2;
    context_char_limit = 4000;
    keep_recent_events = 1;
    reflection_interval_steps = 4;
    observation_interval_steps = 3;
    verification_interval_mutations = 1;
    stagnation_limit = 2;
  };
  outside = outside;
}

abbrev receipt : Bool → VerificationReceipt
receipt passed = record {
  run_id = "r";
  workspace = "w";
  worktree_commit_sha = "c";
  started_at = "t0";
  finished_at = "t1";
  passed = passed;
  commands = [];
  workspace_state_before = "h1";
  workspace_state_after = "h1";
  workspace_unchanged = true;
  request_digest = "d";
  schema_version = "sisyphus_harness.verification.v2";
  workspace_bundle_id = none;
  profile_digest = none;
  execution_identity_digest = none;
  verifier_asset_bundle_id = none;
}

abbrev answered : String → Bool → StepInput
answered answer passed = record {
  expired = false;
  before = "h0";
  reply = content answer;
  expired_after = false;
  tool_reply = outcome end true;
  after_tool = "h1";
  after_tool_error = "h1";
  receipt = receipt passed;
  receipt_reference = record {
    artifact_id = "a";
    sha256 = "s";
    size_bytes = 1;
    media_type = "json";
    schema_version = "v1";
  };
  after_verification = "h1";
}

-- A malformed answer, a write, and the end.
abbrev inputs : ℕ → StepInput
inputs n =
    if eqb n 1
    then answered "?" false
    else if eqb n 2
    then answered "write" true
    else answered "done" true

run_test :
    ((run loop inputs (start task "h0")).termination.success ≡ true)
    × ((run loop inputs (start task "h0")).termination.steps ≡ 3)
    × ((run loop inputs (start task "h0")).state.verifications ≡ 2)
unfolding run start
run_test = (refl, refl, refl)

run-EndsWell_example : EndsWell loop inputs (run loop inputs (start task "h0"))
run-EndsWell_example = run-EndsWell loop inputs (start task "h0")

run_step-Kept_example :
    IsCounted loop (run_step loop 1 (inputs 2) (start task "h0")).state
    × ((is_some (run_step loop 1 (inputs 2) (start task "h0")).termination ≡ true)
        ⊎ IsGoing loop (run_step loop 1 (inputs 2) (start task "h0")).state)
run_step-Kept_example =
    run_step-Kept loop 1 (inputs 2) (start task "h0")
      (start-IsGoing loop task "h0" (omega arith) (omega arith))

run-IsCounted_example : IsCounted loop (run loop inputs (start task "h0")).state
run-IsCounted_example = run-IsCounted loop task "h0" inputs (omega arith) (omega arith)

abbrev transcript : List Event
transcript =
    event (tool_done 1 "read_file" arguments "why" arguments false)
    ∷ event (tool_error 2 "write_file" arguments "denied" false)
    ∷ event (protocol_error 3 "bad" "?")
    ∷ []

compact_events_lem_example :
    (but_last 1 transcript ++ (compact_events none transcript 1).1 ≡ transcript)
    × (length (compact_events none transcript 1).1 ≡ 1)
    × ((compact_events none transcript 1).0.compacted_event_count
          + length (compact_events none transcript 1).1
        ≡ (previous none).compacted_event_count + length transcript)
    × (total_count (compact_events none transcript 1).0.tool_counts
          + count_if calls_tool (compact_events none transcript 1).1
        ≡ total_count (previous none).tool_counts + count_if calls_tool transcript)
    × (length (compact_events none transcript 1).0.recent_errors ≤ 5)
compact_events_lem_example = compact_events_lem none transcript 1

parse_agent_decision-is_acceptable_example : is_acceptable (AgentDecision.finish "done") ≡ true
unfolding parse_agent_decision
parse_agent_decision-is_acceptable_example =
    parse_agent_decision-is_acceptable outside " done" (AgentDecision.finish "done") refl
