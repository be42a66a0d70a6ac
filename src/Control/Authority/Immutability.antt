-- ===== src/Control/Authority/Immutability.antt =====
-- `publish_task_outcome` on the outcomes that are published already.
use mathlib.Core.Path.{subst}
use sisyphus_harness.Prelude.{String, ◌≡◌, ◌∙◌, Option, none, some, [], ◌∷◌, ◌++◌, arith, inl, inr}
use sisyphus_harness.Prelude.Equality.{equal}
use sisyphus_harness.Contracts.{AttemptFinished}
use sisyphus_harness.Database.{OutcomeRow, Db, ok, Result-cases}
use sisyphus_harness.Database.Rows.{lookup-append}
use sisyphus_harness.Control.{TaskOutcome, outcome-discrete}
use sisyphus_harness.Control.Authority.{
  OutcomeCodec, outcome_from_row, outcome_key, select_outcome, validate_outcome_binding,
  current_attempt, check_fence, outcome_row, insert_outcome, publish_on, publish_rows,
  publish_task_outcome,
}
use sisyphus_harness.Database.Results.{>>=-ok, require-ok, ok-injective}
use sisyphus_harness.Control.Authority.Stored.{insert_outcome_lem}

-- A row that is there stays there.
abbrev Keeps : Db → Db → Type 0
Keeps db db' =
    (job_id : String) (row : OutcomeRow)
    → select_outcome job_id db.task_outcomes ≡ some row
    → select_outcome job_id db'.task_outcomes ≡ some row

publish_on-Keeps :
    (codec : OutcomeCodec) (outcome : TaskOutcome) (utc : String) (db : Db) (o : Option OutcomeRow)
    (r : TaskOutcome × Db)
    → publish_on codec outcome utc db o ≡ ok r
    → Keeps db r.1
unfolding publish_on
publish_on-Keeps codec outcome utc db none r h =
    let row = outcome_row codec outcome utc in
    let (db', inserted, k) = >>=-ok (insert_outcome row db) _ h in
    let (missing, same) = insert_outcome_lem row db db' inserted in
    let kept : Keeps db (record db { task_outcomes = db.task_outcomes ++ row ∷ [] }) =
      λ job_id old found.
        lookup-append outcome_key job_id db.task_outcomes (row ∷ []) ∙ ground (arith, found) in
    subst (λ (x : TaskOutcome × Db). Keeps db x.1) (ok-injective (outcome, db') r k)
      (subst (Keeps db) same kept)
publish_on-Keeps codec outcome utc db (some existing) r h =
    let (published, read, k) = >>=-ok (outcome_from_row codec existing) _ h in
    let tested = require-ok (equal outcome-discrete published outcome) _ _ k in
    subst (λ (x : TaskOutcome × Db). Keeps db x.1) (ok-injective (published, db) r tested.1)
      (λ job_id row found. found)

publish_rows-Keeps :
    (codec : OutcomeCodec) (attempt : AttemptFinished) (outcome : TaskOutcome) (utc : String)
    (db : Db) (r : TaskOutcome × Db)
    → publish_rows codec attempt outcome utc db ≡ ok r
    → Keeps db r.1
unfolding publish_rows
publish_rows-Keeps codec attempt outcome utc db r h =
    let (current, joined, k) = >>=-ok (current_attempt attempt.job_id db) _ h in
    let (_, fenced, m) = >>=-ok (check_fence codec attempt current) _ k in
    publish_on-Keeps codec outcome utc db _ r m

-- An outcome that is published stays as it is, whatever is published after it, for whatever job, and
-- whether that call returns or raises.
pub publish_task_outcome_keeps :
    (codec : OutcomeCodec) (attempt : AttemptFinished) (outcome : TaskOutcome) (utc : String)
    (db : Db) (job_id : String) (row : OutcomeRow)
    → select_outcome job_id db.task_outcomes ≡ some row
    → select_outcome job_id (publish_task_outcome codec attempt outcome utc db).1.task_outcomes
      ≡ some row
unfolding publish_task_outcome
publish_task_outcome_keeps codec attempt outcome utc db job_id row found =
    elim (Result-cases (validate_outcome_binding codec attempt outcome)) [
      | inr (e, refused) ↦ ground (arith, found)
      | inl (_, bound) ↦ elim (Result-cases (publish_rows codec attempt outcome utc db)) [
        | inr (e, failed) ↦ ground (arith, found)
        | inl ((r, db'), done) ↦
            let kept =
              publish_rows-Keeps codec attempt outcome utc db (r, db') done job_id row found in
            ground (arith, kept)
      ]
    ]
