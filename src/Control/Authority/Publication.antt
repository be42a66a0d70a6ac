-- ===== src/Control/Authority/Publication.antt =====
-- `publish_task_outcome`: an outcome is published under the fence of the job's current attempt.
use mathlib.Core.Path.{subst}
use sisyphus_harness.Prelude.{String, ◌≡◌, sym, some, eq_iff, arith, inl, inr}
use sisyphus_harness.Contracts.{AttemptFinished}
use sisyphus_harness.Database.{Db, stale_attempt, ok, Result-cases}
use sisyphus_harness.Control.{TaskOutcome}
use sisyphus_harness.Control.Authority.{
  OutcomeCodec, select_outcome, validate_outcome_binding, current_attempt, check_fence, publish_on,
  publish_rows, publish_task_outcome,
}
use sisyphus_harness.Database.Results.{>>=-ok, require-true}
use sisyphus_harness.Control.Authority.Stored.{IsPublished, publish_on_lem}
use sisyphus_harness.Control.Authority.Fence.{IsFenced, check_fence-IsFenced}

-- What a call of `publish_task_outcome` that returned has tested, returned and left.
pub record IsPublication (codec : OutcomeCodec) (attempt : AttemptFinished) (outcome : TaskOutcome)
    (db : Db) (r : TaskOutcome) (db' : Db) : Type 0 where
  pub binding : validate_outcome_binding codec attempt outcome ≡ ok tt
  pub fence : IsFenced codec attempt db
  pub returned : r ≡ outcome
  pub published : IsPublished codec outcome db db'

pub bound_job :
    (codec : OutcomeCodec) (attempt : AttemptFinished) (outcome : TaskOutcome)
    → validate_outcome_binding codec attempt outcome ≡ ok tt
    → outcome.job_id ≡ attempt.job_id
unfolding validate_outcome_binding
bound_job codec attempt outcome h =
    let tests = require-true _ stale_attempt h in
    (eq_iff outcome.job_id attempt.job_id).0 (ground (arith, tests))

pub publish_rows-IsPublication :
    (codec : OutcomeCodec) (attempt : AttemptFinished) (outcome : TaskOutcome) (utc : String)
    (db : Db) (r : TaskOutcome × Db)
    → codec.read_outcome (codec.outcome_json outcome) ≡ some outcome
    → validate_outcome_binding codec attempt outcome ≡ ok tt
    → publish_rows codec attempt outcome utc db ≡ ok r
    → IsPublication codec attempt outcome db r.0 r.1
unfolding publish_rows
publish_rows-IsPublication codec attempt outcome utc db r reads bound h =
    let (current, joined, k) = >>=-ok (current_attempt attempt.job_id db) _ h in
    let (_, fenced, m) = >>=-ok (check_fence codec attempt current) _ k in
    let m' =
      subst (λ id. publish_on codec outcome utc db (select_outcome id db.task_outcomes) ≡ ok r)
        (sym (bound_job codec attempt outcome bound)) m in
    let (returned, published) = publish_on_lem codec outcome utc db r reads m' in
    record {
      binding = bound;
      fence = check_fence-IsFenced codec attempt db current.0 current.1 joined fenced;
      returned = returned;
      published = published;
    }

-- With a codec that reads the outcome back from its text, a `publish_task_outcome` that returns was given an
-- outcome bound to the attempt, and the job was a completed coding-agent job whose attempts are the
-- attempt's number, with that attempt stored, under its digest, as the finished one and as its result.
-- It returns the outcome, which the job's row of `task_outcomes` then holds, and leaves the other tables.
pub publish_task_outcome-IsPublication :
    (codec : OutcomeCodec) (attempt : AttemptFinished) (outcome : TaskOutcome) (utc : String)
    (db db' : Db) (r : TaskOutcome)
    → codec.read_outcome (codec.outcome_json outcome) ≡ some outcome
    → publish_task_outcome codec attempt outcome utc db ≡ (ok r, db')
    → IsPublication codec attempt outcome db r db'
unfolding publish_task_outcome
publish_task_outcome-IsPublication codec attempt outcome utc db db' r reads h =
    elim (Result-cases (validate_outcome_binding codec attempt outcome)) [
      | inr (e, refused) ↦ absurd (ground arith)
      | inl (_, bound) ↦ elim (Result-cases (publish_rows codec attempt outcome utc db)) [
        | inr (e, failed) ↦ absurd (ground arith)
        | inl ((r', left), done) ↦
            let same : (r', left) ≡ (r, db') = ground arith in
            subst (λ (x : TaskOutcome × Db). IsPublication codec attempt outcome db x.0 x.1) same
              (publish_rows-IsPublication codec attempt outcome utc db (r', left) reads bound done)
      ]
    ]
