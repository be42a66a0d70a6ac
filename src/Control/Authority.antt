-- ===== src/Control/Authority.antt =====
-- infra/control_outcomes.py: `SQLiteTaskOutcomeAuthority`, on the database of the queue.
pub mod Stored
pub mod Fence
pub mod Publication
pub mod Immutability
pub mod Republication
pub mod Completion
use sisyphus_harness.Prelude.{
  ℕ, String, Bool, true, false, not, ◌&&◌, ◌||◌, Option, none, some, List, [], ◌∷◌, ◌++◌, ◌==◌, eqb,
  ltb, any, find, if◌then◌else◌, is_some,
}
use sisyphus_harness.Prelude.Equality.{equal}
use sisyphus_harness.Contracts.{AttemptFinished}
use sisyphus_harness.Contracts.Equality.{attempt-discrete}
use sisyphus_harness.Database.{
  is_completed, JobRow, AttemptRow, OutcomeRow, Db, value_error, authority_error, stale_attempt,
  outcome_conflict, integrity_error, Result, ok, err, ◌>>=◌, ◌>>◌, require, Outcome, transaction,
  checked,
}
use sisyphus_harness.Database.Rows.{lookup}
use sisyphus_harness.Queue.{select_job}
use sisyphus_harness.Verification.Bindings.{is_text}
use sisyphus_harness.Control.{TaskOutcome, outcome-discrete}

-- The codecs: SHA-256 digests, canonical JSON, and what `from_dict` reads of a stored text, where none
-- stands for a ValueError.
pub record OutcomeCodec : Type 0 where
  pub attempt_digest : AttemptFinished → String
  pub read_attempt : String → Option AttemptFinished
  pub outcome_digest : TaskOutcome → String
  pub outcome_json : TaskOutcome → String
  pub read_outcome : String → Option TaskOutcome

abbrev pub parsed {ℓ} : {A : Type ℓ} → Option A → Result A
parsed none = err value_error
parsed (some a) = ok a

-- `_attempt_from_row`
unfoldable pub attempt_from_row : OutcomeCodec → AttemptRow → Result AttemptFinished
attempt_from_row codec row = do
  attempt ← parsed (codec.read_attempt row.payload_json)
  require
      (row.job_id == attempt.job_id
        && eqb row.attempt attempt.attempt
        && row.attempt_id == attempt.attempt_id
        && row.attempt_digest == codec.attempt_digest attempt)
      authority_error
  ok attempt

-- `_outcome_from_row`
unfoldable pub outcome_from_row : OutcomeCodec → OutcomeRow → Result TaskOutcome
outcome_from_row codec row = do
  outcome ← parsed (codec.read_outcome row.payload_json)
  require
      (row.job_id == outcome.job_id
        && eqb row.attempt outcome.attempt
        && row.attempt_digest == outcome.attempt_digest
        && row.outcome_digest == codec.outcome_digest outcome)
      authority_error
  ok outcome

-- SELECT … WHERE job_id = ? ORDER BY attempt DESC LIMIT 1
unfoldable pub last_attempt : String → List AttemptRow → Option AttemptRow
last_attempt job_id [] = none
last_attempt job_id (row ∷ rows) = elim (last_attempt job_id rows) [
  | none ↦ if row.job_id == job_id then some row else none
  | some later ↦
      if row.job_id == job_id && ltb later.attempt row.attempt then some row else some later
]

-- `get_attempt_finished`
unfoldable pub get_attempt_finished : OutcomeCodec → String → Db → Result (Option AttemptFinished)
unfolding last_attempt attempt_from_row
get_attempt_finished codec job_id db = elim (last_attempt job_id db.attempt_finished) [
  | none ↦ ok none
  | some row ↦ attempt_from_row codec row >>= λ attempt. ok (some attempt)
]

abbrev pub outcome_key : OutcomeRow → String
outcome_key row = row.job_id

-- SELECT … FROM task_outcomes WHERE job_id = ?
abbrev pub select_outcome : String → List OutcomeRow → Option OutcomeRow
select_outcome = lookup outcome_key

-- `get_task_outcome`
unfoldable pub get_task_outcome : OutcomeCodec → String → Db → Result (Option TaskOutcome)
unfolding outcome_from_row
get_task_outcome codec job_id db = elim (select_outcome job_id db.task_outcomes) [
  | none ↦ ok none
  | some row ↦ outcome_from_row codec row >>= λ outcome. ok (some outcome)
]

-- `_validate_outcome_binding`
unfoldable pub validate_outcome_binding :
    OutcomeCodec → AttemptFinished → TaskOutcome → Result (Unit {0})
validate_outcome_binding codec attempt outcome =
    require
      (outcome.job_id == attempt.job_id
        && eqb outcome.attempt attempt.attempt
        && outcome.attempt_id == attempt.attempt_id
        && outcome.attempt_digest == codec.attempt_digest attempt
        && outcome.source_bundle_id == attempt.source_bundle.bundle_id
        && outcome.output_bundle_id == attempt.output_bundle.bundle_id)
      stale_attempt

-- The row of `jobs JOIN attempt_finished` on the job and its current attempt.
abbrev pub is_attempt : String → ℕ → AttemptRow → Bool
is_attempt job_id attempt row = row.job_id == job_id && eqb row.attempt attempt

unfoldable pub current_attempt : String → Db → Result (JobRow × AttemptRow)
current_attempt job_id db = elim (select_job job_id db.jobs) [
  | none ↦ err stale_attempt
  | some job ↦ elim (find (is_attempt job_id job.attempts) db.attempt_finished) [
    | none ↦ err stale_attempt
    | some row ↦ ok (job, row)
  ]
]

-- The tests on the joined row.
unfoldable pub check_fence :
    OutcomeCodec → AttemptFinished → JobRow × AttemptRow → Result (Unit {0})
check_fence codec attempt (job, row) = do
  require (job.kind == "coding-agent") stale_attempt
  require (is_completed job.status) stale_attempt
  require (eqb job.attempts attempt.attempt) stale_attempt
  stored ← parsed (codec.read_attempt row.payload_json)
  require
      (equal attempt-discrete stored attempt
        && row.attempt_digest == codec.attempt_digest attempt
        && is_text row.payload_json job.result_json)
      stale_attempt

abbrev pub outcome_row : OutcomeCodec → TaskOutcome → String → OutcomeRow
outcome_row codec outcome utc = record {
  job_id = outcome.job_id;
  attempt = outcome.attempt;
  attempt_digest = outcome.attempt_digest;
  outcome_digest = codec.outcome_digest outcome;
  payload_json = codec.outcome_json outcome;
  published_at = utc;
}

-- INSERT INTO task_outcomes, with the constraints of the table.
unfoldable pub insert_outcome : OutcomeRow → Db → Result Db
insert_outcome row db = do
  require (ltb 0 row.attempt) integrity_error
  require (not (is_some (select_outcome row.job_id db.task_outcomes))) integrity_error
  require (not (any (λ old. old.outcome_digest == row.outcome_digest) db.task_outcomes))
      integrity_error
  require
      (any (λ a. is_attempt row.job_id row.attempt a && a.attempt_digest == row.attempt_digest)
        db.attempt_finished)
      integrity_error
  ok (record db { task_outcomes = db.task_outcomes ++ row ∷ [] })

-- The rest of the transaction, on the outcome that the job has already.
unfoldable pub publish_on :
    OutcomeCodec → TaskOutcome → String → Db → Option OutcomeRow → Result (TaskOutcome × Db)
unfolding outcome_from_row insert_outcome
publish_on codec outcome utc db (some existing) = do
  published ← outcome_from_row codec existing
  require (equal outcome-discrete published outcome) outcome_conflict
  ok (published, db)
publish_on codec outcome utc db none = do
  db' ← insert_outcome (outcome_row codec outcome utc) db
  ok (outcome, db')

unfoldable pub publish_rows :
    OutcomeCodec → AttemptFinished → TaskOutcome → String → Db → Result (TaskOutcome × Db)
unfolding current_attempt check_fence publish_on
publish_rows codec attempt outcome utc db = do
  current ← current_attempt attempt.job_id db
  check_fence codec attempt current
  publish_on codec outcome utc db (select_outcome attempt.job_id db.task_outcomes)

-- `publish_task_outcome`
unfoldable pub publish_task_outcome :
    OutcomeCodec → AttemptFinished → TaskOutcome → String → Db → Outcome TaskOutcome
unfolding validate_outcome_binding publish_rows
publish_task_outcome codec attempt outcome utc db =
    checked (validate_outcome_binding codec attempt outcome) db
      λ _. transaction db (publish_rows codec attempt outcome utc)
