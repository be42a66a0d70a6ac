-- ===== src/Queue/Samples.antt =====
-- Runs of the queue at concrete inputs.
use sisyphus_harness.Prelude.{
  ℕ, ◌+◌, ◌≤◌, String, ◌≡◌, refl, true, none, some, List, [], ◌∷◌, ◌++◌, if◌then◌else◌,
}
use sisyphus_harness.Prelude.Float.{pos, Float, finite, float_zero, float_lt, float_le, is_finite}
use sisyphus_harness.Prelude.Text.{text_le, strip}
use sisyphus_harness.Contracts.{AttemptFinished, AgentResult, WorkspaceBundleRef}
use sisyphus_harness.Contracts.Json.{Json, null, text}
use sisyphus_harness.Database.{
  running, completed, failed, JobRow, Db, empty_db, lease_error, ok, err,
}
use sisyphus_harness.Database.Rows.{lookup}
use sisyphus_harness.Queue
use sisyphus_harness.Queue.{
  has_job_id, holds_lease, set_lease, select_job, job_key, request_key, set_finished, owns_attempt,
  expires_after, new_job,
}
use sisyphus_harness.Queue.Args.{
  Env, Moment, current_time, heartbeat_args, finish_args, finish_attempt_args, enqueue_args,
}
use sisyphus_harness.Queue.Machine.{Event, enqueue, claim, heartbeat, finish_attempt, step, run}
use sisyphus_harness.Queue.Invariant.{IsWellFormed, run-IsWellFormed}
use sisyphus_harness.Queue.Leases.{claim_exclusive}
use sisyphus_harness.Queue.Contract.{HasWindow, IsName, ended_row, extended_row}
use sisyphus_harness.Queue.Contract.Steps.{Moved, step-Move}
use sisyphus_harness.Queue.Contract.Calls.{
  Answer, claim-Answer, Fenced, complete-fail-Fenced, heartbeat-Fenced,
}
use sisyphus_harness.Queue.Fencing.{stale_worker, finished_attempt, finish_attempt_lem}
use sisyphus_harness.Queue.Requests.{enqueued, enqueue_lem, enqueue_again, SameRequest}
use sisyphus_harness.Queue.Histories.{Grows, run-terminal, run-attempts, run-Grows}
use sisyphus_harness.Queue.Rollback.{RollsBack, errors_write_nothing}

render : Json → String
render null = "null"
render (text s) = s
render _ = "?"

float_sum : Float → Float → Float
float_sum (finite (pos a)) (finite (pos b)) = finite (pos (a + b))
float_sum _ _ = Float.nan

abbrev env : Env
env = record {
  dumps = render;
  add = float_sum;
  attempt_json = λ a. a.attempt_id;
  attempt_digest = λ a. a.attempt_id;
}

abbrev at : ℕ → String → Moment
at n s = record { now = some (finite (pos n)); clock = float_zero; utc = s }

abbrev seconds : ℕ → Float
seconds n = finite (pos n)

abbrev bundle : WorkspaceBundleRef
bundle = record {
  bundle_id = "bundle";
  archive_sha256 = "archive";
  size_bytes = 1;
  source_commit_sha = "commit";
  source_state_hash = "state";
  tree_hash = "tree";
  changed_paths = [];
  entry_count = 1;
  schema_version = "sisyphus_harness.workspace_bundle_ref.v1";
}

abbrev agent_result : AgentResult
agent_result = record {
  run_id = "run";
  success = true;
  reason = "final verification passed";
  steps = 3;
  compactions = 0;
  verifications = 1;
  workspace_state_before = "a";
  workspace_state_after = "b";
  changed_paths = [];
  artifact_path = "run";
  verification_artifacts = [];
  summary = none;
  schema_version = "sisyphus_harness.agent_run.v2";
}

abbrev attempt : AttemptFinished
attempt = record {
  job_id = "job-1";
  attempt = 1;
  attempt_id = "job-1/attempt-0001";
  source_bundle = bundle;
  output_bundle = bundle;
  agent_result = agent_result;
  schema_version = "sisyphus_harness.attempt_finished.v1";
}

-- Two jobs, of which one worker takes the older.
abbrev submitted : List Event
submitted =
    enqueue "coding-agent" (text "p") "key-1" "job-1" (at 0 "2026-01-01")
    ∷ enqueue "coding-agent" (text "q") "key-2" "job-2" (at 0 "2026-01-02")
    ∷ []

abbrev taken : List Event
taken = submitted ++ claim "worker-a" (seconds 10) (at 100 "2026-01-03") ∷ []

abbrev ended : List Event
ended = taken ++ finish_attempt "job-1" "worker-a" attempt (at 105 "2026-01-04") ∷ []

abbrev job_1 : JobRow
job_1 = record {
  job_id = "job-1";
  idempotency_key = "key-1";
  kind = "coding-agent";
  payload_json = "p";
  status = running;
  lease_owner = some "worker-a";
  lease_expires_at = some (finite (pos 110));
  attempts = 1;
  result_json = none;
  created_at = "2026-01-01";
  updated_at = "2026-01-03";
}

taken_job : select_job "job-1" (run env taken empty_db).jobs ≡ some job_1
unfolding run step Queue.enqueue Queue.claim lookup render float_sum text_le
taken_job = refl

ended_job :
    select_job "job-1" (run env ended empty_db).jobs
    ≡ some (set_finished completed "job-1/attempt-0001" "2026-01-04" job_1)
unfolding run step Queue.enqueue Queue.claim Queue.finish_attempt lookup render float_sum text_le
    float_lt
ended_job = refl

run-IsWellFormed_example : IsWellFormed (run env ended empty_db)
run-IsWellFormed_example = run-IsWellFormed env ended

abbrev taken_db : Db
taken_db = run env taken empty_db

taken-IsWellFormed : IsWellFormed taken_db
taken-IsWellFormed = run-IsWellFormed env taken

abbrev ended_db : Db
ended_db = run env ended empty_db

ended-IsWellFormed : IsWellFormed ended_db
ended-IsWellFormed = run-IsWellFormed env ended

abbrev done_1 : JobRow
done_1 = set_finished completed "job-1/attempt-0001" "2026-01-04" job_1

step-Move_example :
    Moved env
      (heartbeat "job-1" "worker-a" (seconds 10) (at 105 "t"))
      "job-1"
      job_1
      (step env (heartbeat "job-1" "worker-a" (seconds 10) (at 105 "t")) taken_db)
step-Move_example =
    step-Move env (heartbeat "job-1" "worker-a" (seconds 10) (at 105 "t")) taken_db
      taken-IsWellFormed.unique_ids "job-1" job_1 taken_job

worker_b-IsName : IsName " worker-b"
unfolding strip
worker_b-IsName = λ e. cc

-- At time 120 the lease of the first job has run out.
late_window : HasWindow env (seconds 10) (at 120 "t")
unfolding current_time is_finite float_le float_sum
late_window = record {
  finite_seconds = refl;
  positive = refl;
  finite_start = refl;
  finite_end = refl;
}

claim-Answer_example :
    Answer
      (strip " worker-b")
      (current_time (at 120 "t"))
      (env.add (current_time (at 120 "t")) (seconds 10))
      "t"
      taken_db
      (Queue.claim env " worker-b" (seconds 10) (at 120 "t") taken_db)
claim-Answer_example =
    claim-Answer env " worker-b" (seconds 10) (at 120 "t") taken_db worker_b-IsName late_window
      taken-IsWellFormed.unique_ids

-- That call takes the first job over, with a second attempt.
reclaimed :
    (Queue.claim env " worker-b" (seconds 10) (at 120 "t") taken_db).0
    ≡ ok (
        some (record job_1 {
          lease_owner = some "worker-b";
          lease_expires_at = some (seconds 130);
          attempts = 2;
          updated_at = "t";
        }))
unfolding run step Queue.enqueue Queue.claim lookup render float_sum text_le float_le
reclaimed = refl

live_at_109 : expires_after (current_time (at 109 "t")) job_1.lease_expires_at ≡ true
unfolding current_time float_lt
live_at_109 = refl

claim_exclusive_example :
    select_job "job-1" (Queue.claim env "worker-b" (seconds 10) (at 109 "t") taken_db).1.jobs
    ≡ some job_1
claim_exclusive_example =
    claim_exclusive env "worker-b" (seconds 10) (at 109 "t") taken_db taken-IsWellFormed.unique_ids
      "job-1" job_1 taken_job refl live_at_109

b_beats :
    heartbeat_args env "job-1" "worker-b" (seconds 10) (at 105 "t")
    ≡ ok ("job-1", "worker-b", seconds 105, seconds 115)
unfolding heartbeat_args float_sum
b_beats = refl

b_finishes : finish_args "job-1" "worker-b" (at 105 "t") ≡ ok ("job-1", "worker-b", seconds 105)
unfolding finish_args
b_finishes = refl

b_attempts :
    finish_attempt_args "job-1" "worker-b" attempt (at 105 "t")
    ≡ ok ("job-1", "worker-b", seconds 105)
unfolding finish_attempt_args
b_attempts = refl

stale_worker_example :
    (Queue.heartbeat env "job-1" "worker-b" (seconds 10) (at 105 "t") taken_db
      ≡ (err lease_error, taken_db))
    × (Queue.finish env failed "job-1" "worker-b" null (at 105 "t") taken_db
        ≡ (err lease_error, taken_db))
    × (Queue.finish_attempt env "job-1" "worker-b" attempt (at 105 "t") taken_db
        ≡ (err lease_error, taken_db))
stale_worker_example =
    stale_worker env taken_db "job-1" "worker-b" (seconds 10) failed null attempt (at 105 "t")
      "job-1" "worker-b" (seconds 105) (seconds 115) job_1 taken-IsWellFormed.unique_ids taken_job
      refl b_beats b_finishes b_attempts

a_attempts :
    finish_attempt_args "job-1" "worker-a" attempt (at 105 "t")
    ≡ ok ("job-1", "worker-a", seconds 105)
unfolding finish_attempt_args
a_attempts = refl

finish_attempt_lem_example :
    Queue.finish_attempt env "job-1" "worker-a" attempt (at 105 "t") taken_db ≡ (
      if owns_attempt "worker-a" (seconds 105) 1 job_1
      then finished_attempt env "job-1"
          (owns_attempt "worker-a" (seconds 105) 1)
          attempt
          "t"
          job_1
          taken_db
      else (err lease_error, taken_db))
finish_attempt_lem_example =
    finish_attempt_lem env "job-1" "worker-a" attempt (at 105 "t") taken_db "job-1" "worker-a"
      (seconds 105) job_1 a_attempts taken-IsWellFormed.unique_ids taken_job

again_args : enqueue_args "coding-agent " "key-1" ≡ ok ("coding-agent", "key-1")
unfolding enqueue_args
again_args = refl

enqueue_lem_example :
    Queue.enqueue env "coding-agent " (text "x") "key-1" "job-9" (at 0 "t") taken_db
    ≡ enqueued
        (new_job "job-9" "key-1" "coding-agent" "x" "t")
        taken_db
        (lookup request_key "key-1" taken_db.jobs)
unfolding render
enqueue_lem_example =
    enqueue_lem env "coding-agent " (text "x") "key-1" "job-9" (at 0 "t") taken_db "coding-agent"
      "key-1" again_args

empty-IsWellFormed : IsWellFormed empty_db
empty-IsWellFormed = record {
  unique_ids = tt;
  unique_keys = tt;
  rows = tt;
  lineage = tt;
  one_attempt = tt;
}

abbrev new_row : JobRow
new_row = new_job "job-3" "key-3" "coding-agent" "p" "t"

enqueue_new :
    (Queue.enqueue env "coding-agent" (text "p") "key-3" "job-3" (at 0 "t") empty_db).0 ≡ ok new_row
unfolding Queue.enqueue lookup render
enqueue_new = refl

enqueue_again_example :
    let later =
      run env taken
        (Queue.enqueue env "coding-agent" (text "p") "key-3" "job-3" (at 0 "t") empty_db).1 in
    (r' : JobRow) × (Queue.enqueue env "coding-agent" (text "p") "key-3" "job-4" (at 9 "u") later
      ≡ (ok r', later))
    × SameRequest new_row r'
enqueue_again_example =
    enqueue_again env "coding-agent" (text "p") "key-3" "job-3" "job-4" (at 0 "t") (at 9 "u")
      empty_db new_row taken empty-IsWellFormed enqueue_new

run-terminal_example : select_job "job-1" (run env taken ended_db).jobs ≡ some done_1
run-terminal_example =
    run-terminal env taken ended_db ended-IsWellFormed "job-1" done_1 ended_job refl

run-attempts_example :
    (r' : JobRow) × (select_job "job-1" (run env ended taken_db).jobs ≡ some r')
    × SameRequest job_1 r'
    × (1 ≤ r'.attempts)
run-attempts_example = run-attempts env ended taken_db taken-IsWellFormed "job-1" job_1 taken_job

run-Grows_example : Grows ended_db.attempt_finished (run env taken ended_db).attempt_finished
run-Grows_example = run-Grows env taken ended_db ended-IsWellFormed

errors_write_nothing_example :
    RollsBack taken_db (Queue.enqueue env " " null "k" "job-1" (at 0 "t") taken_db)
    × RollsBack taken_db (Queue.claim env "w" (seconds 0) (at 0 "t") taken_db)
    × RollsBack taken_db (Queue.heartbeat env "job-1" "w" (seconds 0) (at 0 "t") taken_db)
    × RollsBack taken_db (Queue.complete env "job-1" "w" null (at 0 "t") taken_db)
    × RollsBack taken_db (Queue.fail env "job-1" "w" null (at 0 "t") taken_db)
    × RollsBack taken_db (Queue.finish_attempt env "job-1" "w" attempt (at 0 "t") taken_db)
errors_write_nothing_example =
    errors_write_nothing env taken_db "job-1" "w" " " "k" null null (seconds 0) attempt (at 0 "t")

job-IsName : IsName " job-1"
unfolding strip
job-IsName = λ e. cc

worker_a-IsName : IsName "worker-a"
unfolding strip
worker_a-IsName = λ e. cc

stripped_job : select_job (strip " job-1") taken_db.jobs ≡ some job_1
unfolding strip
stripped_job = taken_job

timed_105 : is_finite (current_time (at 105 "t")) ≡ true
unfolding current_time is_finite
timed_105 = refl

window_105 : HasWindow env (seconds 10) (at 105 "t")
unfolding current_time is_finite float_le float_sum
window_105 = record {
  finite_seconds = refl;
  positive = refl;
  finite_start = refl;
  finite_end = refl;
}

complete-fail-Fenced_example :
    Fenced
      (strip "worker-a")
      (current_time (at 105 "t"))
      job_1
      (ended_row completed "null" "t" job_1)
      taken_db
      (Queue.complete env " job-1" "worker-a" null (at 105 "t") taken_db)
    × Fenced
        (strip "worker-a")
        (current_time (at 105 "t"))
        job_1
        (ended_row failed "null" "t" job_1)
        taken_db
        (Queue.fail env " job-1" "worker-a" null (at 105 "t") taken_db)
unfolding render
complete-fail-Fenced_example =
    complete-fail-Fenced env " job-1" "worker-a" (at 105 "t") taken_db job_1 job-IsName
      worker_a-IsName taken-IsWellFormed.unique_ids stripped_job null timed_105

heartbeat-Fenced_example :
    Fenced
      (strip "worker-a")
      (current_time (at 105 "t"))
      job_1
      (extended_row (strip "worker-a") (env.add (current_time (at 105 "t")) (seconds 10)) "t" job_1)
      taken_db
      (Queue.heartbeat env " job-1" "worker-a" (seconds 10) (at 105 "t") taken_db)
heartbeat-Fenced_example =
    heartbeat-Fenced env " job-1" "worker-a" (at 105 "t") taken_db job_1 job-IsName worker_a-IsName
      taken-IsWellFormed.unique_ids stripped_job (seconds 10) window_105
