-- ===== src/Control/Authority/Fence.antt =====
-- `publish_task_outcome`: the fence of the job's current attempt.
use mathlib.Core.Path.{subst}
use sisyphus_harness.Prelude.{
  String, ◌≡◌, sym, ap, ◌∙◌, true, ◌&&◌, Option, none, some, ◌==◌, eq_iff, arith, eqb, find,
  Option-cases, inl, inr,
}
use sisyphus_harness.Prelude.Equality.{equal, equal_iff}
use sisyphus_harness.Contracts.{AttemptFinished}
use sisyphus_harness.Contracts.Equality.{attempt-discrete}
use sisyphus_harness.Database.{is_completed, JobRow, AttemptRow, Db, stale_attempt, ok}
use sisyphus_harness.Queue.{select_job}
use sisyphus_harness.Verification.Bindings.{is_text}
use sisyphus_harness.Control.Authority.{
  OutcomeCodec, parsed, is_attempt, current_attempt, check_fence,
}
use sisyphus_harness.Database.Results.{>>=-ok, require-ok, require-true, ok-injective}

-- The fence: the job is a completed run of the coding agent at the attempt, whose stored row is the attempt.
pub record IsFenced (codec : OutcomeCodec) (attempt : AttemptFinished) (db : Db) : Type 0 where
  pub job : JobRow
  pub row : AttemptRow
  pub selected : select_job attempt.job_id db.jobs ≡ some job
  pub finished : find (is_attempt attempt.job_id job.attempts) db.attempt_finished ≡ some row
  pub kind : job.kind ≡ "coding-agent"
  pub status : is_completed job.status ≡ true
  pub attempts : eqb job.attempts attempt.attempt ≡ true
  pub read : codec.read_attempt row.payload_json ≡ some attempt
  pub digest : row.attempt_digest ≡ codec.attempt_digest attempt
  pub result : is_text row.payload_json job.result_json ≡ true

current_attempt_lem :
    (job_id : String) (db : Db) (job : JobRow) (row : AttemptRow)
    → current_attempt job_id db ≡ ok (job, row)
    → (select_job job_id db.jobs ≡ some job)
      × (find (is_attempt job_id job.attempts) db.attempt_finished ≡ some row)
unfolding current_attempt
current_attempt_lem job_id db job row h = elim (Option-cases (select_job job_id db.jobs)) [
  | inl missing ↦ absurd (ground arith)
  | inr (found, selected) ↦
      elim (Option-cases (find (is_attempt job_id found.attempts) db.attempt_finished)) [
        | inl missing ↦ absurd (ground arith)
        | inr (row', finished) ↦
            let found_both : current_attempt job_id db ≡ ok (found, row') = ground arith in
            subst
              (λ (x : JobRow × AttemptRow).
                (select_job job_id db.jobs ≡ some x.0)
                × (find (is_attempt job_id x.0.attempts) db.attempt_finished ≡ some x.1))
              (ok-injective (found, row') (job, row) (sym found_both ∙ h)) (selected, finished)
      ]
]

parsed-ok : {A : Type 0} (o : Option A) (a : A) → parsed o ≡ ok a → o ≡ some a
parsed-ok none a h = absurd cc
parsed-ok (some b) a h = ground arith

pub check_fence-IsFenced :
    (codec : OutcomeCodec) (attempt : AttemptFinished) (db : Db) (job : JobRow) (row : AttemptRow)
    → current_attempt attempt.job_id db ≡ ok (job, row)
    → check_fence codec attempt (job, row) ≡ ok tt
    → IsFenced codec attempt db
unfolding check_fence
check_fence-IsFenced codec attempt db job row current h =
    let (selected, finished) = current_attempt_lem attempt.job_id db job row current in
    let a = require-ok (job.kind == "coding-agent") _ _ h in
    let b = require-ok (is_completed job.status) _ _ a.1 in
    let c = require-ok (eqb job.attempts attempt.attempt) _ _ b.1 in
    let (stored, read, d) = >>=-ok (parsed (codec.read_attempt row.payload_json)) _ c.1 in
    let same = equal attempt-discrete stored attempt in
    let digests = row.attempt_digest == codec.attempt_digest attempt in
    let payloads = is_text row.payload_json job.result_json in
    let tests : (same && digests && payloads) ≡ true = require-true _ stale_attempt d in
    record {
      job = job;
      row = row;
      selected = selected;
      finished = finished;
      kind = (eq_iff _ _).0 a.0;
      status = b.0;
      attempts = c.0;
      read =
          parsed-ok _ stored read
          ∙ ap some ((equal_iff attempt-discrete stored attempt).0 (ground (arith, tests)));
      digest = (eq_iff row.attempt_digest _).0 (ground (arith, tests));
      result = ground (arith, tests);
    }
