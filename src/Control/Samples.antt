-- ===== src/Control/Samples.antt =====
-- A finished attempt and its outcome, and the theorems on them.
use sisyphus_harness.Prelude.{◌≡◌, ◌≢◌, refl, ◌⊎◌, none, some, [], ◌∷◌, ◌++◌}
use native.Mathlib.Decide.{ℕ_discrete}
use sisyphus_harness.Prelude.Equality.{Float-discrete, ℤ-discrete}
use sisyphus_harness.Prelude.Checked.{accepted}
use sisyphus_harness.Prelude.Float.{pos, finite, float_zero, float_lt}
use sisyphus_harness.Contracts.Equality.{
  specs-discrete, spec-discrete, option_assets-discrete, assets-discrete, attempt-discrete,
  report-discrete, artifacts-discrete, option_text-discrete, commands-discrete, command-discrete,
  exit_code-discrete,
}
use sisyphus_harness.Database.{running, JobRow, Db, ok, err, outcome_conflict}
use sisyphus_harness.Database.Rows.{lookup}
use sisyphus_harness.Queue.{finish_attempt}
use sisyphus_harness.Queue.Args.{Env, Moment}
use sisyphus_harness.Verification.Samples.{sha, digests, profile, codec, contract, ports, attempt}
use sisyphus_harness.Verification.Adapter.{adapt}
use sisyphus_harness.Verification.Adjudication.{adjudicate}
use sisyphus_harness.Control.{TaskOutcome, OutcomeDigests}
use sisyphus_harness.Control.Authority.{
  OutcomeCodec, get_task_outcome, outcome_row, validate_outcome_binding, publish_task_outcome,
}
use sisyphus_harness.Control.Authority.Publication.{
  IsPublication, publish_task_outcome-IsPublication,
}
use sisyphus_harness.Control.Authority.Republication.{republish}
use sisyphus_harness.Control.Authority.Completion.{finish_attempt-publish_task_outcome}
use sisyphus_harness.Control.Service.{
  TaskOutcomeRequest, Adjudicator, adjudicated_outcome, adjudicate_task,
}
use sisyphus_harness.Control.Service.Decision.{IsDecided, adjudicate_task-IsDecided}

abbrev env : Env
env = record {
  dumps = λ _. "";
  add = λ a b. b;
  attempt_json = λ a. a.attempt_id;
  attempt_digest = λ a. sha;
}

abbrev outcome_digests : OutcomeDigests
outcome_digests = record {
  digests = digests;
  contract_digest = λ c. sha;
  evaluation_digest = λ e. sha;
  receipt_digest = λ r. sha;
}

abbrev request : TaskOutcomeRequest
request = record {
  job_id = "job";
  profile = profile;
  contract = contract;
  run_id = "run";
  producer_authority = "control";
}

abbrev adjudicator : Adjudicator
adjudicator = adjudicate digests codec ports

-- A codec that has read no outcome yet.
abbrev blank : OutcomeCodec
blank = record {
  attempt_digest = λ a. sha;
  read_attempt = λ s. some attempt;
  outcome_digest = λ o. "outcome";
  outcome_json = λ o. "text";
  read_outcome = λ s. none;
}

made :
    (o : TaskOutcome) × (adjudicated_outcome outcome_digests blank adjudicator request attempt
      ≡ accepted o)
unfolding adjudicated_outcome adjudicate adapt commands-discrete command-discrete exit_code-discrete
    option_text-discrete ℕ_discrete specs-discrete spec-discrete Float-discrete ℤ-discrete
    option_assets-discrete assets-discrete
made = (_, refl)

-- The codec that reads that outcome.
abbrev outcomes : OutcomeCodec
outcomes = record blank { read_outcome = λ s. some made.0 }

abbrev other : TaskOutcome
other = record (made.0) { evidence_finished_at = "later" }

abbrev at : Moment
at = record { now = some (finite (pos 5)); clock = float_zero; utc = "t5" }

abbrev running_db : Db
running_db = record {
  jobs =
      record {
        job_id = "job";
        idempotency_key = "key";
        kind = "coding-agent";
        payload_json = "p";
        status = running;
        lease_owner = some "worker";
        lease_expires_at = some (finite (pos 9));
        attempts = 1;
        result_json = none;
        created_at = "t0";
        updated_at = "t1";
      }
      ∷ [];
  attempt_finished = [];
  task_outcomes = [];
}

finished :
    (db : Db) × (row : JobRow) × (finish_attempt env "job" "worker" attempt at running_db
      ≡ (ok row, db))
unfolding finish_attempt float_lt lookup
finished = (_, _, refl)

made_bound : validate_outcome_binding outcomes attempt made.0 ≡ ok tt
unfolding validate_outcome_binding made
made_bound = refl

finish_attempt-publish_task_outcome_example :
    publish_task_outcome outcomes attempt made.0 "t6" finished.0 ≡ (
      ok made.0,
      record (finished.0) {
        task_outcomes = finished.0.task_outcomes ++ outcome_row outcomes made.0 "t6" ∷ [];
      },
    )
unfolding made lookup
finish_attempt-publish_task_outcome_example =
    finish_attempt-publish_task_outcome env outcomes "job" "worker" attempt at running_db finished.0
      finished.1 made.0 "t6" (refl, tt) finished.2 refl refl made_bound refl refl

abbrev published_db : Db
published_db = record (finished.0) {
  task_outcomes = finished.0.task_outcomes ++ outcome_row outcomes made.0 "t6" ∷ [];
}

publish_task_outcome-IsPublication_example :
    IsPublication outcomes attempt made.0 finished.0 made.0 published_db
publish_task_outcome-IsPublication_example =
    publish_task_outcome-IsPublication outcomes attempt made.0 "t6" finished.0 published_db made.0
      refl finish_attempt-publish_task_outcome_example

other_bound : validate_outcome_binding outcomes attempt other ≡ ok tt
unfolding validate_outcome_binding made
other_bound = refl

republish_example :
    ((made.0 ≡ other)
      × (publish_task_outcome outcomes attempt other "t7" published_db ≡ (ok other, published_db)))
    ⊎ ((made.0 ≢ other)
        × (publish_task_outcome outcomes attempt other "t7" published_db
            ≡ (err outcome_conflict, published_db)))
republish_example =
    republish outcomes attempt made.0 other "t6" "t7" finished.0 published_db made.0 refl
      finish_attempt-publish_task_outcome_example other_bound

decided :
    (adjudicate_task outcome_digests outcomes adjudicator request "t6" finished.0 finished.0
        finished.0
      ≡ (ok made.0, published_db))
    × (get_task_outcome outcomes request.job_id finished.0 ≡ ok none)
unfolding adjudicate_task adjudicate adapt made finished attempt-discrete report-discrete
    artifacts-discrete option_text-discrete commands-discrete command-discrete exit_code-discrete
    ℕ_discrete specs-discrete spec-discrete Float-discrete ℤ-discrete option_assets-discrete
    assets-discrete
decided = (refl, refl)

adjudicate_task-IsDecided_example :
    IsDecided outcome_digests outcomes adjudicator request "t6" finished.0 finished.0 made.0
      published_db
adjudicate_task-IsDecided_example =
    adjudicate_task-IsDecided outcome_digests outcomes adjudicator request "t6" finished.0
      finished.0 finished.0 published_db made.0 decided.1 decided.0
