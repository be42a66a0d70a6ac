-- ===== src/Agent/State.antt =====
-- agent_state.py: `AgentRunState` and its methods.
use sisyphus_harness.Prelude.{
  ℕ, ◌+◌, ◌%◌, String, Bool, true, false, ◌&&◌, ◌||◌, Option, none, some, List, [], ◌∷◌, ◌==◌,
  if◌then◌else◌, ltb, leb, eqb, length,
}
use sisyphus_harness.Prelude.Sorting.{sort_by}
use sisyphus_harness.Prelude.Text.{text_le}
use sisyphus_harness.Contracts.{AgentTask, ArtifactRef}
use sisyphus_harness.Contracts.Json.{Fields}
use sisyphus_harness.Agent.{
  CadencePolicy, AgentDecision, tool, finish, Event, VerificationEvent, CriterionOutcome,
  WorkspaceCycle, Outside,
}
use sisyphus_harness.Agent.Files.{Dict, put, WorkingFile}
use sisyphus_harness.Agent.Compaction.{Summary, compact_events}

-- `StateCriterionKey`: a hash and the sorted items of the dict of criteria.
abbrev pub StateKey : Type 0
StateKey = String × List (String × String)

pub record AgentRunState : Type 0 where
  pub events : List Event
  pub compact_summary : Option Summary
  pub compactions : ℕ
  pub verifications : ℕ
  pub verification_artifacts : List ArtifactRef
  pub protocol_errors : ℕ
  pub mutations_since_verify : ℕ
  pub last_failed_verification_state : Option String
  pub known_file_hashes : Dict String
  pub working_file : Option WorkingFile
  pub criterion_status : Dict String
  pub state_visits : List (StateKey × ℕ)
  pub workspace_cycle_streak : ℕ
  pub last_fingerprint : Option String
  pub repeated_fingerprint : ℕ
  pub final_summary : Option String

abbrev pub item_le : String × String → String × String → Bool
item_le a b = text_le a.0 b.0

unfoldable pub state_criterion_key : String → Dict String → StateKey
state_criterion_key state_hash status = (state_hash, sort_by item_le status)

abbrev pub items_eq : List (String × String) → List (String × String) → Bool
items_eq [] [] = true
items_eq ((k, v) ∷ xs) ((k', v') ∷ ys) = (k == k') && (v == v') && items_eq xs ys
items_eq _ _ = false

abbrev pub state_key_eq : StateKey → StateKey → Bool
state_key_eq a b = (a.0 == b.0) && items_eq a.1 b.1

unfoldable pub visited_at : StateKey → List (StateKey × ℕ) → Option ℕ
visited_at key [] = none
visited_at key ((k, step) ∷ rest) = if state_key_eq k key then some step else visited_at key rest

unfoldable pub not_run : List String → Dict String → Dict String
unfolding put
not_run [] status = status
not_run (criterion ∷ rest) status = not_run rest (put criterion "not_run" status)

-- `AgentRunState.start`
unfoldable pub start : AgentTask → String → AgentRunState
unfolding not_run state_criterion_key
start task initial =
    let status = not_run task.acceptance_criteria [] in
    record {
      events = [];
      compact_summary = none;
      compactions = 0;
      verifications = 0;
      verification_artifacts = [];
      protocol_errors = 0;
      mutations_since_verify = 0;
      last_failed_verification_state = none;
      known_file_hashes = [];
      working_file = none;
      criterion_status = status;
      state_visits = (state_criterion_key initial status, 0) ∷ [];
      workspace_cycle_streak = 0;
      last_fingerprint = none;
      repeated_fingerprint = 0;
      final_summary = none;
    }

-- The remainder, for a divisor above 0.
abbrev pub divides : ℕ → ℕ → Bool
divides d n = eqb (n % d) 0

unfoldable pub should_compact : Outside → CadencePolicy → ℕ → ℕ → AgentRunState → Bool
should_compact outside cadence max_compactions step s =
    if leb max_compactions s.compactions
    then false
    else if leb (length s.events) cadence.keep_recent_events
    then false
    else divides cadence.compaction_interval_steps step
      || ltb cadence.context_char_limit (outside.transcript_size s.events)

-- `compact`, without the payload for the run's store.
unfoldable pub compact : CadencePolicy → AgentRunState → AgentRunState
unfolding compact_events
compact cadence s =
    let (summary, events) = compact_events s.compact_summary s.events cadence.keep_recent_events in
    record s { compact_summary = some summary; events = events; compactions = s.compactions + 1 }

-- What `json.dumps` renders of a decision: its tool and arguments where it is a tool's.
abbrev pub decision_payload : AgentDecision → Option (String × Fields)
decision_payload (tool name arguments reason) = some (name, arguments)
decision_payload (finish summary) = none

abbrev pub same_text : Option String → String → Bool
same_text none t = false
same_text (some s) t = s == t

-- `observe_decision`: the new state, and whether the threshold is reached.
unfoldable pub observe_decision : Outside → ℕ → AgentDecision → AgentRunState → AgentRunState × Bool
observe_decision outside stagnation_limit d s =
    let fingerprint = outside.fingerprint (decision_payload d) in
    let repeated =
      if same_text s.last_fingerprint fingerprint then s.repeated_fingerprint + 1 else 1 in
    (
      record s { last_fingerprint = some fingerprint; repeated_fingerprint = repeated },
      leb stagnation_limit repeated,
    )

abbrev pub set_default : StateKey → ℕ → List (StateKey × ℕ) → List (StateKey × ℕ)
set_default key step visits = elim (visited_at key visits) [
  | some _ ↦ visits
  | none ↦ (key, step) ∷ visits
]

-- `remember_verification_state`
unfoldable pub remember_verification_state : String → ℕ → AgentRunState → AgentRunState
unfolding visited_at state_criterion_key
remember_verification_state state_hash step s = record s {
  state_visits =
      set_default (state_criterion_key state_hash s.criterion_status) step s.state_visits;
}

unfoldable pub record_criteria : List CriterionOutcome → Dict String → Dict String
unfolding put
record_criteria [] status = status
record_criteria (c ∷ rest) status =
    record_criteria rest (put c.criterion (if c.passed then "passed" else "failed") status)

-- `update_criterion_status`
unfoldable pub update_criterion_status : VerificationEvent → AgentRunState → AgentRunState
unfolding record_criteria
update_criterion_status v s = record s {
  criterion_status = record_criteria v.criteria s.criterion_status;
}

-- `observe_workspace_state`: the new state, the entry put into the event, and whether the threshold is
-- reached.
unfoldable pub observe_workspace_state :
    ℕ → String → ℕ → AgentRunState → AgentRunState × Option WorkspaceCycle × Bool
unfolding visited_at state_criterion_key
observe_workspace_state stagnation_limit state_hash step s =
    let key = state_criterion_key state_hash s.criterion_status in
    let streak = s.workspace_cycle_streak + 1 in
    elim (visited_at key s.state_visits) [
      | none ↦ (
        record s { workspace_cycle_streak = 0; state_visits = (key, step) ∷ s.state_visits },
        none,
        false,
      )
      | some previous_step ↦ (
        record s { workspace_cycle_streak = streak },
        some (record { previous_step = previous_step; repeat_count = streak }),
        leb stagnation_limit streak,
      )
    ]
