-- ===== src/Control/Authority/Stored.antt =====
-- `publish_task_outcome`: what its transaction stores, and finds stored.
use mathlib.Core.Path.{subst}
use sisyphus_harness.Prelude.{
  String, ◌≡◌, ◌≢◌, refl, ap, ◌∙◌, not, ◌&&◌, none, some, [], ◌∷◌, ◌++◌, ◌==◌, eq_refl, arith, ltb,
  any, is_some, Bool-cases, Option-cases, inl, inr, ◌⊎◌,
}
use sisyphus_harness.Prelude.Equality.{equal, equal_iff}
use sisyphus_harness.Database.{OutcomeRow, Db, outcome_conflict, ok, err}
use sisyphus_harness.Database.Rows.{lookup, lookup-append}
use sisyphus_harness.Control.{TaskOutcome, outcome-discrete}
use sisyphus_harness.Control.Authority.{
  OutcomeCodec, outcome_from_row, outcome_key, select_outcome, is_attempt, outcome_row,
  insert_outcome, publish_on,
}
use sisyphus_harness.Database.Results.{>>=-ok, require-ok, ok-injective}

-- What INSERT leaves.
pub insert_outcome_lem :
    (row : OutcomeRow) (db db' : Db)
    → insert_outcome row db ≡ ok db'
    → (select_outcome row.job_id db.task_outcomes ≡ none)
      × (record db { task_outcomes = db.task_outcomes ++ row ∷ [] } ≡ db')
unfolding insert_outcome
insert_outcome_lem row db db' h =
    let a = require-ok (ltb 0 row.attempt) _ _ h in
    let b = require-ok (not (is_some (select_outcome row.job_id db.task_outcomes))) _ _ a.1 in
    let c =
      require-ok (not (any (λ old. old.outcome_digest == row.outcome_digest) db.task_outcomes)) _ _
        b.1 in
    let d =
      require-ok
        (any (λ a. is_attempt row.job_id row.attempt a && a.attempt_digest == row.attempt_digest)
          db.attempt_finished)
        _ _ c.1 in
    (
      elim (Option-cases (select_outcome row.job_id db.task_outcomes)) [
        | inl missing ↦ missing
        | inr (old, found) ↦ absurd (ground (arith, b.0))
      ],
      ground (arith, d.1),
    )

-- A row that is written from an outcome is read as that outcome.
outcome_row-read :
    (codec : OutcomeCodec) (outcome : TaskOutcome) (utc : String)
    → codec.read_outcome (codec.outcome_json outcome) ≡ some outcome
    → outcome_from_row codec (outcome_row codec outcome utc) ≡ ok outcome
unfolding outcome_from_row
outcome_row-read codec outcome utc reads = ground (
  arith,
  reads,
  eq_refl outcome.job_id,
  eq_refl outcome.attempt_digest,
  eq_refl (codec.outcome_digest outcome),
)

-- The job's row in `task_outcomes` after a publication that returned, and the tables beside it.
pub record IsPublished (codec : OutcomeCodec) (outcome : TaskOutcome) (db db' : Db) : Type 0 where
  pub row : OutcomeRow
  pub found : select_outcome outcome.job_id db'.task_outcomes ≡ some row
  pub read : outcome_from_row codec row ≡ ok outcome
  pub jobs : db'.jobs ≡ db.jobs
  pub attempts : db'.attempt_finished ≡ db.attempt_finished

-- What a publication returns is the outcome, and the database has it.
abbrev pub Returns : OutcomeCodec → TaskOutcome → Db → TaskOutcome × Db → Type 0
Returns codec outcome db (r, db') = (r ≡ outcome) × IsPublished codec outcome db db'

publish_fresh :
    (codec : OutcomeCodec) (outcome : TaskOutcome) (utc : String) (db : Db) (r : TaskOutcome × Db)
    → codec.read_outcome (codec.outcome_json outcome) ≡ some outcome
    → publish_on codec outcome utc db none ≡ ok r
    → Returns codec outcome db r
unfolding publish_on lookup
publish_fresh codec outcome utc db r reads h =
    let row = outcome_row codec outcome utc in
    let (db', inserted, k) = >>=-ok (insert_outcome row db) _ h in
    let (missing, same) = insert_outcome_lem row db db' inserted in
    let made : Db = record db { task_outcomes = db.task_outcomes ++ row ∷ [] } in
    let stored : IsPublished codec outcome db made = record {
      row = row;
      found =
          lookup-append outcome_key outcome.job_id db.task_outcomes (row ∷ [])
          ∙ ground (arith, missing, eq_refl outcome.job_id);
      read = outcome_row-read codec outcome utc reads;
      jobs = refl;
      attempts = refl;
    } in
    subst (Returns codec outcome db) (ok-injective (outcome, db') r k)
      (refl, subst (IsPublished codec outcome db) same stored)

publish_again :
    (codec : OutcomeCodec) (outcome : TaskOutcome) (utc : String) (db : Db) (row : OutcomeRow)
    (r : TaskOutcome × Db)
    → select_outcome outcome.job_id db.task_outcomes ≡ some row
    → publish_on codec outcome utc db (some row) ≡ ok r
    → Returns codec outcome db r
unfolding publish_on
publish_again codec outcome utc db row r found h =
    let (published, read, k) = >>=-ok (outcome_from_row codec row) _ h in
    let tested = require-ok (equal outcome-discrete published outcome) _ _ k in
    let same = (equal_iff outcome-discrete published outcome).0 tested.0 in
    subst (Returns codec outcome db) (ok-injective (published, db) r tested.1) (
      same,
      record { row = row; found = found; read = read ∙ ap ok same; jobs = refl; attempts = refl },
    )

pub publish_on_lem :
    (codec : OutcomeCodec) (outcome : TaskOutcome) (utc : String) (db : Db) (r : TaskOutcome × Db)
    → codec.read_outcome (codec.outcome_json outcome) ≡ some outcome
    → publish_on codec outcome utc db (select_outcome outcome.job_id db.task_outcomes) ≡ ok r
    → Returns codec outcome db r
publish_on_lem codec outcome utc db r reads h =
    elim (Option-cases (select_outcome outcome.job_id db.task_outcomes)) [
      | inl missing ↦
          publish_fresh codec outcome utc db r reads
            (subst (λ x. publish_on codec outcome utc db x ≡ ok r) missing h)
      | inr (row, found) ↦
          publish_again codec outcome utc db row r found
            (subst (λ x. publish_on codec outcome utc db x ≡ ok r) found h)
    ]

-- On an outcome that the job has, only the same outcome is accepted.
pub publish_on_published :
    (codec : OutcomeCodec) (first second : TaskOutcome) (utc : String) (db : Db) (row : OutcomeRow)
    → outcome_from_row codec row ≡ ok first
    → ((first ≡ second) × (publish_on codec second utc db (some row) ≡ ok (second, db)))
      ⊎ ((first ≢ second) × (publish_on codec second utc db (some row) ≡ err outcome_conflict))
unfolding publish_on
publish_on_published codec first second utc db row read =
    elim (Bool-cases (equal outcome-discrete first second)) [
      | inl same ↦
          let e = (equal_iff outcome-discrete first second).0 same in
          inl (e, ground (arith, read, same, e))
      | inr other ↦ inr (
        λ e. let s = (equal_iff outcome-discrete first second).1 e in cc,
        ground (arith, read, other),
      )
    ]
