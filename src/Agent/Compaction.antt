-- ===== src/Agent/Compaction.antt =====
-- compaction.py: `compact_events`. A `Counter` and a set are kept sorted as they grow, where the source
-- sorts them at the end.
pub mod Counts
use sisyphus_harness.Prelude.{
  ℕ, zero, suc, ◌+◌, ◌-◌, String, Bool, true, false, Option, none, some, List, [], ◌∷◌, ◌++◌, ◌==◌,
  if◌then◌else◌, length, take, drop,
}
use sisyphus_harness.Prelude.Text.{text_le}
use sisyphus_harness.Contracts.Json.{Fields}
use sisyphus_harness.Agent.{
  Event, EventKind, tool_done, tool_error, verification, verification_rejected, protocol_error,
  provider_error, stagnation, VerificationEvent, CriterionOutcome,
}
use sisyphus_harness.Agent.Files.{as_text, field_of}

pub record LatestVerification : Type 0 where
  pub passed : Bool
  pub run_id : String
  pub criteria : List CriterionOutcome

pub record Summary : Type 0 where
  pub compacted_event_count : ℕ
  pub tool_counts : List (String × ℕ)
  pub files_read : List String
  pub files_mutated : List String
  pub recent_errors : List String
  pub latest_verification : Option LatestVerification

abbrev pub empty_summary : Summary
empty_summary = record {
  compacted_event_count = 0;
  tool_counts = [];
  files_read = [];
  files_mutated = [];
  recent_errors = [];
  latest_verification = none;
}

-- `tools[tool] += 1`
unfoldable pub count_tool : String → List (String × ℕ) → List (String × ℕ)
count_tool name [] = (name, 1) ∷ []
count_tool name ((k, n) ∷ rest) =
    if k == name
    then (k, n + 1) ∷ rest
    else if text_le k name
    then (k, n) ∷ count_tool name rest
    else (name, 1) ∷ (k, n) ∷ rest

-- `files.add(path)`
unfoldable pub add_path : String → List String → List String
add_path path [] = path ∷ []
add_path path (p ∷ rest) =
    if p == path
    then p ∷ rest
    else if text_le p path
    then p ∷ add_path path rest
    else path ∷ p ∷ rest

abbrev pub event_tool : EventKind → Option String
event_tool (tool_done _ name _ _ _ _) = some name
event_tool (tool_error _ name _ _ _) = some name
event_tool _ = none

-- `event["output"]["path"]`, where it is a text.
abbrev pub event_path : EventKind → Option String
event_path (tool_done _ _ _ _ output _) = as_text (field_of "path" output)
event_path _ = none

abbrev pub event_mutated : EventKind → Bool
event_mutated (tool_done _ _ _ _ _ mutated) = mutated
event_mutated (tool_error _ _ _ _ mutated) = mutated
event_mutated _ = false

abbrev pub event_error : EventKind → Option String
event_error (tool_error _ _ _ error _) = some error
event_error (verification_rejected _) =
    some
      "Verification already failed on this unchanged workspace. Inspect or modify the implementation before requesting verification again."
event_error (protocol_error _ error _) = some error
event_error (provider_error _ error) = some error
event_error _ = none

abbrev pub event_verification : EventKind → Option LatestVerification
event_verification (verification v) =
    some (record { passed = v.passed; run_id = v.run_id; criteria = v.criteria })
event_verification _ = none

abbrev pub or_keep {ℓ} : {A : Type ℓ} → Option A → Option A → Option A
or_keep (some new) old = some new
or_keep none old = old

-- The body of `for event in compacted:`, with the errors in full.
unfoldable pub summarize : Event → Summary → Summary
unfolding count_tool add_path
summarize e s = record {
  compacted_event_count = s.compacted_event_count;
  tool_counts = elim (event_tool e.kind) [
    | none ↦ s.tool_counts
    | some name ↦ count_tool name s.tool_counts
  ];
  files_read = elim (event_path e.kind) [
    | none ↦ s.files_read
    | some path ↦ if event_mutated e.kind then s.files_read else add_path path s.files_read
  ];
  files_mutated = elim (event_path e.kind) [
    | none ↦ s.files_mutated
    | some path ↦ if event_mutated e.kind then add_path path s.files_mutated else s.files_mutated
  ];
  recent_errors = elim (event_error e.kind) [
    | none ↦ s.recent_errors
    | some error ↦ s.recent_errors ++ (error ∷ [])
  ];
  latest_verification = or_keep (event_verification e.kind) s.latest_verification;
}

unfoldable pub summarize_all : List Event → Summary → Summary
unfolding summarize
summarize_all [] s = s
summarize_all (e ∷ rest) s = summarize_all rest (summarize e s)

-- `xs[-n:]`, which is all of `xs` for 0.
unfoldable pub last {ℓ} : {A : Type ℓ} → ℕ → List A → List A
last zero xs = xs
last (suc n) xs = drop (length xs - suc n) xs

-- `xs[:-n]`, which is empty for 0.
unfoldable pub but_last {ℓ} : {A : Type ℓ} → ℕ → List A → List A
but_last zero xs = []
but_last (suc n) xs = take (length xs - suc n) xs

abbrev pub previous : Option Summary → Summary
previous none = empty_summary
previous (some s) = s

-- `compact_events`: the new summary and the events that stay.
unfoldable pub compact_events : Option Summary → List Event → ℕ → Summary × List Event
unfolding summarize_all last but_last
compact_events previous_summary events keep_recent =
    let compacted = but_last keep_recent events in
    let s = summarize_all compacted (previous previous_summary) in
    (
      record {
        compacted_event_count = s.compacted_event_count + length compacted;
        tool_counts = s.tool_counts;
        files_read = s.files_read;
        files_mutated = s.files_mutated;
        recent_errors = last 5 s.recent_errors;
        latest_verification = s.latest_verification;
      },
      last keep_recent events,
    )
