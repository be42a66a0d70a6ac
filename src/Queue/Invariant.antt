-- ===== src/Queue/Invariant.antt =====
-- What holds of the authority database between two calls, whatever the workers have done: the CHECK,
-- PRIMARY KEY and UNIQUE constraints of database.py, and the binding of each finished attempt to its
-- job.
use mathlib.Core.Path.{subst}
use sisyphus_harness.Prelude.{
  String, ◌≡◌, inl, inr, Bool, true, false, none, some, List, [], ◌∷◌, arith, is_some, eqb, All,
  Option-cases, Bool-cases, sym,
}
use sisyphus_harness.Database.{
  JobStatus, completed, failed, is_queued, is_running, JobRow, AttemptRow, Db, empty_db,
  lease_check,
}
use sisyphus_harness.Database.Rows.{
  Unique, lookup, update, set_where, lookup_key, All-append, All-lookup, All-map, Unique-update,
  Unique-append,
}
use sisyphus_harness.Queue.{job_key, request_key, select_job, new_job}
use sisyphus_harness.Queue.Args.{Env}
use sisyphus_harness.Queue.Machine.{
  Event, step, run, JobStep, stay, claimed, extended, finished, step-JobStep,
}
use sisyphus_harness.Queue.Lineage.{
  HasJob, AttemptsStep, same_attempts, new_attempt, step-AttemptsStep,
}
use sisyphus_harness.Queue.Tables.{TableStep, unchanged, updated, inserted, step-TableStep}

abbrev pub is_terminal : JobStatus → Bool
is_terminal completed = true
is_terminal failed = true
is_terminal _ = false

-- A row that the table admits, and that the queue can have written.
pub record RowOk (r : JobRow) : Type 0 where
  pub lease : lease_check r ≡ true
  pub untried : is_queued r.status ≡ eqb r.attempts 0
  pub settled : is_some r.result_json ≡ is_terminal r.status

abbrev pub attempt_job : AttemptRow → String
attempt_job a = a.job_id

pub record IsWellFormed (db : Db) : Type 0 where
  pub unique_ids : Unique job_key db.jobs
  pub unique_keys : Unique request_key db.jobs
  pub rows : All RowOk db.jobs
  pub lineage : All (HasJob db.jobs) db.attempt_finished
  pub one_attempt : Unique attempt_job db.attempt_finished

JobStep-RowOk : (r r' : JobRow) → JobStep r r' → RowOk r → RowOk r'
unfolding lease_check
JobStep-RowOk r r' (stay e) h = subst RowOk (sym e) h
JobStep-RowOk r r' (claimed w c x utc can e) h = ground arith
JobStep-RowOk r r' (extended w c x utc can e) h = ground arith
JobStep-RowOk r r' (finished w c status result utc can which e) h = ground arith

-- A completed or failed job never changes again.
pub JobStep-terminal : (r r' : JobRow) → JobStep r r' → is_terminal r.status ≡ true → r' ≡ r
JobStep-terminal r r' (stay e) h = e
JobStep-terminal r r' (claimed w c x utc can e) h = ground arith
JobStep-terminal r r' (extended w c x utc can e) h = ground arith
JobStep-terminal r r' (finished w c status result utc can which e) h = ground arith

module _ {jobs jobs' : List JobRow} where
  TableStep-ids : TableStep jobs jobs' → Unique job_key jobs → Unique job_key jobs'
  TableStep-ids (unchanged e) u = subst (Unique job_key) (sym e) u
  TableStep-ids (updated p f ids keys may e) u =
      subst (Unique job_key) (sym e) (Unique-update job_key p f ids jobs u)
  TableStep-ids (inserted id key kind json utc no_key no_id e) u =
      subst (Unique job_key) (sym e) (Unique-append job_key jobs _ u no_id)

  TableStep-keys : TableStep jobs jobs' → Unique request_key jobs → Unique request_key jobs'
  TableStep-keys (unchanged e) u = subst (Unique request_key) (sym e) u
  TableStep-keys (updated p f ids keys may e) u =
      subst (Unique request_key) (sym e) (Unique-update request_key p f keys jobs u)
  TableStep-keys (inserted id key kind json utc no_key no_id e) u =
      subst (Unique request_key) (sym e) (Unique-append request_key jobs _ u no_key)

set_where-RowOk :
    (p : JobRow → Bool) (f : JobRow → JobRow) (r : JobRow)
    → RowOk r × (p r ≡ true → JobStep r (f r))
    → RowOk (set_where p f r)
set_where-RowOk p f r (h, may) = elim (Bool-cases (p r)) [
  | inl can ↦ rw can (JobStep-RowOk r (f r) (may can) h)
  | inr cannot ↦ rw cannot h
]

new_job-RowOk : (id key kind json utc : String) → RowOk (new_job id key kind json utc)
unfolding lease_check
new_job-RowOk id key kind json utc = ground arith

update-RowOk :
    (p : JobRow → Bool) (f : JobRow → JobRow) (rows : List JobRow)
    → All RowOk rows
    → All (λ r. p r ≡ true → JobStep r (f r)) rows
    → All RowOk (update p f rows)
update-RowOk p f [] h may = tt
update-RowOk p f (r ∷ rows) h may =
    (set_where-RowOk p f r (h.0, may.0), update-RowOk p f rows h.1 may.1)

TableStep-RowOk :
    {jobs jobs' : List JobRow} → TableStep jobs jobs' → All RowOk jobs → All RowOk jobs'
TableStep-RowOk (unchanged e) h = subst (All RowOk) (sym e) h
TableStep-RowOk {jobs} (updated p f ids keys may e) h =
    subst (All RowOk) (sym e) (update-RowOk p f jobs h may)
TableStep-RowOk {jobs} (inserted id key kind json utc no_key no_id e) h =
    subst (All RowOk) (sym e) (All-append RowOk jobs _ h (new_job-RowOk id key kind json utc, tt))

-- The job of a finished attempt stays.
HasJob-step :
    (env : Env) (e : Event) (db : Db)
    → Unique job_key db.jobs
    → (a : AttemptRow) → HasJob db.jobs a
    → HasJob (step env e db).jobs a
HasJob-step env e db u a h =
    let (r', found, st) = step-JobStep env e db u a.job_id h.job h.stored in
    let kept : r' ≡ h.job = JobStep-terminal h.job r' st (rw h.done) in
    record {
      job = h.job;
      stored = rw (← kept) found;
      coding = h.coding;
      done = h.done;
      last = h.last;
      result = h.result;
    }

module _ (env : Env) (e : Event) (db : Db) (w : IsWellFormed db) where
  step-lineage : All (HasJob (step env e db).jobs) db.attempt_finished
  step-lineage =
      All-map (HasJob db.jobs) (HasJob (step env e db).jobs) (HasJob-step env e db w.unique_ids)
        db.attempt_finished w.lineage

  -- An attempt is new only where its job was running, so the job has no older one.
  no_older :
      (row : AttemptRow) (job : JobRow)
      → select_job row.job_id db.jobs ≡ some job
      → is_running job.status ≡ true
      → lookup attempt_job row.job_id db.attempt_finished ≡ none
  no_older row job found busy =
      elim (Option-cases (lookup attempt_job row.job_id db.attempt_finished)) [
        | inl e ↦ e
        | inr (old, e) ↦
            let h : HasJob db.jobs old =
              All-lookup (HasJob db.jobs) attempt_job row.job_id db.attempt_finished old w.lineage
                e in
            let k : old.job_id ≡ row.job_id =
              lookup_key attempt_job row.job_id db.attempt_finished old e in
            absurd (ground (arith, k, h.stored, h.done))
      ]

  step-attempts :
      AttemptsStep db (step env e db)
      → All (HasJob (step env e db).jobs) (step env e db).attempt_finished
        × Unique attempt_job (step env e db).attempt_finished
  step-attempts (same_attempts same) = (
    subst (All (HasJob (step env e db).jobs)) (sym same) step-lineage,
    subst (Unique attempt_job) (sym same) w.one_attempt,
  )
  step-attempts (new_attempt row job found busy has same) = (
    subst (All (HasJob (step env e db).jobs)) (sym same) (
        All-append (HasJob (step env e db).jobs) db.attempt_finished (row ∷ []) step-lineage
          (has, tt)),
    subst (Unique attempt_job) (sym same) (
        Unique-append attempt_job db.attempt_finished row w.one_attempt
          (no_older row job found busy)),
  )

  -- Every call, returning or raising, keeps the invariant.
  pub step-IsWellFormed : IsWellFormed (step env e db)
  step-IsWellFormed =
      let table = step-TableStep env e db w.unique_ids in
      let attempts = step-attempts (step-AttemptsStep env e db w.unique_ids) in
      record {
        unique_ids = TableStep-ids table w.unique_ids;
        unique_keys = TableStep-keys table w.unique_keys;
        rows = TableStep-RowOk table w.rows;
        lineage = attempts.0;
        one_attempt = attempts.1;
      }

run_from-IsWellFormed :
    (env : Env) (events : List Event) (db : Db) → IsWellFormed db → IsWellFormed (run env events db)
unfolding run
run_from-IsWellFormed env [] db w = w
run_from-IsWellFormed env (e ∷ events) db w =
    run_from-IsWellFormed env events (step env e db) (step-IsWellFormed env e db w)

-- After any calls of any workers on a new database, in any order of their transactions and with any
-- arguments: no two jobs share an identifier or an idempotency key; a job has a lease exactly while it
-- runs, a result exactly when it is completed or failed, and no attempt exactly while it is queued; and
-- no job has two finished attempts, each of which is the last attempt of a completed coding job and
-- holds that job's result.
pub run-IsWellFormed : (env : Env) (events : List Event) → IsWellFormed (run env events empty_db)
run-IsWellFormed env events =
    run_from-IsWellFormed env events empty_db
      (record { unique_ids = tt; unique_keys = tt; rows = tt; lineage = tt; one_attempt = tt })
