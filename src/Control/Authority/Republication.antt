-- ===== src/Control/Authority/Republication.antt =====
-- `publish_task_outcome` after a publication.
use mathlib.Core.Path.{subst}
use sisyphus_harness.Prelude.{String, ◌≡◌, ◌≢◌, ◌∙◌, some, ◌⊎◌, inl, inr, arith}
use sisyphus_harness.Contracts.{AttemptFinished}
use sisyphus_harness.Database.{
  JobRow, AttemptRow, OutcomeRow, Db, outcome_conflict, ok, err, Result-cases,
}
use sisyphus_harness.Control.{TaskOutcome}
use sisyphus_harness.Control.Authority.{
  OutcomeCodec, select_outcome, validate_outcome_binding, current_attempt, check_fence, publish_on,
  publish_rows, publish_task_outcome,
}
use sisyphus_harness.Database.Results.{>>=-ok}
use sisyphus_harness.Control.Authority.Stored.{publish_on_published}
use sisyphus_harness.Control.Authority.Publication.{bound_job, publish_task_outcome-IsPublication}

-- The joined row depends on the two tables.
current_attempt_same :
    (job_id : String) (db db' : Db)
    → db'.jobs ≡ db.jobs
    → db'.attempt_finished ≡ db.attempt_finished
    → current_attempt job_id db' ≡ current_attempt job_id db
unfolding current_attempt
current_attempt_same job_id db db' jobs attempts =
    λ i. current_attempt job_id (record db { jobs = jobs i; attempt_finished = attempts i })

-- What a publication that returned found under its fence.
publish_rows_fence :
    (codec : OutcomeCodec) (attempt : AttemptFinished) (outcome : TaskOutcome) (utc : String)
    (db : Db) (r : TaskOutcome × Db)
    → publish_rows codec attempt outcome utc db ≡ ok r
    → (current : JobRow × AttemptRow) × (current_attempt attempt.job_id db ≡ ok current)
      × (check_fence codec attempt current ≡ ok tt)
unfolding publish_rows
publish_rows_fence codec attempt outcome utc db r h =
    let (current, joined, k) = >>=-ok (current_attempt attempt.job_id db) _ h in
    let fenced = >>=-ok (check_fence codec attempt current) _ k in (current, joined, fenced.1)

-- What a call comes to on what its transaction does.
pub publish_ok :
    (codec : OutcomeCodec) (attempt : AttemptFinished) (outcome : TaskOutcome) (utc : String)
    (db db' : Db) (r : TaskOutcome)
    → publish_task_outcome codec attempt outcome utc db ≡ (ok r, db')
    → publish_rows codec attempt outcome utc db ≡ ok (r, db')
unfolding publish_task_outcome
publish_ok codec attempt outcome utc db db' r h =
    elim (Result-cases (validate_outcome_binding codec attempt outcome)) [
      | inr (e, refused) ↦ absurd (ground arith)
      | inl (_, bound) ↦ elim (Result-cases (publish_rows codec attempt outcome utc db)) [
        | inr (e, failed) ↦ absurd (ground arith)
        | inl (pair, done) ↦ ground arith
      ]
    ]

publish_rows-publish :
    (codec : OutcomeCodec) (attempt : AttemptFinished) (outcome : TaskOutcome) (utc : String)
    (db : Db) (current : JobRow × AttemptRow) (row : OutcomeRow)
    → validate_outcome_binding codec attempt outcome ≡ ok tt
    → current_attempt attempt.job_id db ≡ ok current
    → check_fence codec attempt current ≡ ok tt
    → select_outcome attempt.job_id db.task_outcomes ≡ some row
    → publish_rows codec attempt outcome utc db ≡ publish_on codec outcome utc db (some row)
unfolding publish_rows
publish_rows-publish codec attempt outcome utc db current row bound joined fenced found =
    ground (arith, joined, fenced, found)

-- After a `publish_task_outcome` that returned, of an outcome that the codec reads back from its text, a call at any time with an outcome that is bound to the
-- attempt changes nothing: it returns the outcome if it is the one that was published, and raises
-- TaskOutcomeConflictError if it is another.
pub republish :
    (codec : OutcomeCodec) (attempt : AttemptFinished) (first second : TaskOutcome)
    (utc later : String) (db db' : Db) (r : TaskOutcome)
    → codec.read_outcome (codec.outcome_json first) ≡ some first
    → publish_task_outcome codec attempt first utc db ≡ (ok r, db')
    → validate_outcome_binding codec attempt second ≡ ok tt
    → ((first ≡ second) × (publish_task_outcome codec attempt second later db' ≡ (ok second, db')))
      ⊎ ((first ≢ second)
          × (publish_task_outcome codec attempt second later db' ≡ (err outcome_conflict, db')))
unfolding publish_task_outcome
republish codec attempt first second utc later db db' r reads h bound =
    let published = (publish_task_outcome-IsPublication codec attempt first utc db db' r reads h) in
    let (current, joined, fenced) =
      publish_rows_fence codec attempt first utc db (r, db')
        (publish_ok codec attempt first utc db db' r h) in
    let stored = published.published in
    let same_job = bound_job codec attempt first published.binding in
    let found =
      subst (λ id. select_outcome id db'.task_outcomes ≡ some stored.row) same_job stored.found in
    let rows =
      publish_rows-publish codec attempt second later db' current stored.row bound
        (current_attempt_same attempt.job_id db db' stored.jobs stored.attempts ∙ joined) fenced
        found in
    elim (publish_on_published codec first second later db' stored.row stored.read) [
      | inl (same, accepts) ↦ inl (same, ground (arith, bound, rows, accepts))
      | inr (other, refuses) ↦ inr (other, ground (arith, bound, rows, refuses))
    ]
