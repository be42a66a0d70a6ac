-- ===== src/Queue/Fencing.antt =====
-- The fence: who may finish or extend an attempt, and what is written when it is finished.
use sisyphus_harness.Prelude.{
  String, ◌≡◌, refl, inl, inr, Bool, true, false, ◌&&◌, some, [], ◌∷◌, ◌++◌, arith, eq_iff,
  if◌then◌else◌, Bool-cases, not, ◌||◌, ltb, any,
}
use sisyphus_harness.Prelude.Float.{Float}
use sisyphus_harness.Contracts.{AttemptFinished}
use sisyphus_harness.Contracts.Json.{Json}
use sisyphus_harness.Database.{
  JobStatus, completed, JobRow, AttemptRow, Db, lease_error, ok, err, Outcome, integrity_error,
}
use sisyphus_harness.Database.Rows.{Unique, update, lookup-update, lookup_key, count-by_key}
use sisyphus_harness.Queue.{
  asserting, job_key, select_job, set_finished, holds_lease, owner_is, owns_attempt, has_job_id,
  heartbeat, finish, finish_attempt, finish_attempt_rows, attempt_row, clashes,
}
use sisyphus_harness.Queue.Args.{Env, Moment, heartbeat_args, finish_args, finish_attempt_args}
use sisyphus_harness.Queue.Leases.{finish_lem, heartbeat_lem}
use sisyphus_harness.Queue.Lineage.{args_bound}

-- `finish_attempt` without the attempt's lease is refused.
finish_attempt_refused :
    (env : Env) (j worker : String) (current : Float) (attempt : AttemptFinished) (utc : String)
    (db : Db) (r : JobRow)
    → Unique job_key db.jobs
    → select_job j db.jobs ≡ some r
    → owns_attempt worker current attempt.attempt r ≡ false
    → asserting db (finish_attempt_rows env j worker current attempt utc) ≡ (err lease_error, db)
unfolding finish_attempt_rows
finish_attempt_refused env j worker current attempt utc db r u h lost =
    ground (arith, count-by_key job_key j (owns_attempt worker current attempt.attempt) db.jobs u)

-- A worker that is not the owner of the job's lease, or whose job has no lease.
abbrev pub IsStale : String → JobRow → Type 0
IsStale w r = owner_is w r.lease_owner ≡ false

-- Once another worker has the lease, whatever the time and the lease's expiry, each of `heartbeat`,
-- `complete` and `fail` (as `finish` with its status) and `finish_attempt`, on arguments that pass its
-- tests, raises a lease error and leaves the database as it was.
pub stale_worker :
    (env : Env) (db : Db) (job_id worker_id : String) (seconds : Float) (status : JobStatus)
    (result : Json) (attempt : AttemptFinished) (m : Moment) (j w : String)
    (current expires : Float) (r : JobRow)
    → Unique job_key db.jobs
    → select_job j db.jobs ≡ some r
    → IsStale w r
    → heartbeat_args env job_id worker_id seconds m ≡ ok (j, w, current, expires)
    → finish_args job_id worker_id m ≡ ok (j, w, current)
    → finish_attempt_args job_id worker_id attempt m ≡ ok (j, w, current)
    → (heartbeat env job_id worker_id seconds m db ≡ (err lease_error, db))
      × (finish env status job_id worker_id result m db ≡ (err lease_error, db))
      × (finish_attempt env job_id worker_id attempt m db ≡ (err lease_error, db))
unfolding finish_attempt
stale_worker env db job_id worker_id seconds status result attempt m j w current expires r u h stale
      beats finishes attempts =
    let lost : holds_lease w current r ≡ false = ground arith in
    (
      rw (heartbeat_lem env db u job_id worker_id seconds m beats r h, lost) refl,
      rw (finish_lem env db u status job_id worker_id result m finishes r h, lost) refl,
      rw attempts (finish_attempt_refused env j w current attempt m.utc db r u h (ground arith)),
    )

-- A constraint of `attempt_finished` forbids the row.
abbrev pub forbidden : AttemptRow → Db → Bool
forbidden row db = not (ltb 0 row.attempt) || any (clashes row) db.attempt_finished

-- What `finish_attempt` answers for a worker that owns the attempt.
abbrev pub finished_attempt :
    Env → String → (JobRow → Bool) → AttemptFinished → String → JobRow → Db → Outcome JobRow
finished_attempt env j owns attempt utc r db =
    let f = set_finished completed (env.attempt_json attempt) utc in
    if forbidden (attempt_row env attempt utc) db then (err integrity_error, db) else (
      ok (f r),
      record db {
        jobs = update (λ x. has_job_id j x && owns x) f db.jobs;
        attempt_finished = db.attempt_finished ++ attempt_row env attempt utc ∷ [];
      },
    )

module _ (env : Env) (j worker : String) (current : Float) (attempt : AttemptFinished)
    (utc : String) (db : Db) (r : JobRow) (u : Unique job_key db.jobs)
    (h : select_job j db.jobs ≡ some r) where
  owned_attempt :
      owns_attempt worker current attempt.attempt r ≡ true
      → attempt.job_id ≡ j
      → asserting db (finish_attempt_rows env j worker current attempt utc)
        ≡ finished_attempt env j (owns_attempt worker current attempt.attempt) attempt utc r db
  unfolding finish_attempt_rows
  owned_attempt own bound =
      let q = owns_attempt worker current attempt.attempt in
      let f : JobRow → JobRow = set_finished completed (env.attempt_json attempt) utc in
      ground (
        arith,
        count-by_key job_key j q db.jobs u,
        lookup-update job_key (λ x. has_job_id j x && q x) f (λ _. refl) j db.jobs,
        lookup_key job_key j db.jobs r h,
        eq_iff r.job_id j,
      )

-- `finish_attempt` in full, on a job that is in the queue: a worker without the unexpired lease of that
-- very attempt of a coding job gets a lease error; one with it gets an integrity error if a constraint
-- of `attempt_finished` forbids the row; both leave the database as it was. Otherwise the job is
-- completed, with the attempt as its result and no lease, and in the same transaction one row is added
-- to `attempt_finished`.
pub finish_attempt_lem :
    (env : Env) (job_id worker_id : String) (attempt : AttemptFinished) (m : Moment) (db : Db)
    (j w : String) (current : Float) (r : JobRow)
    → finish_attempt_args job_id worker_id attempt m ≡ ok (j, w, current)
    → Unique job_key db.jobs
    → select_job j db.jobs ≡ some r
    → finish_attempt env job_id worker_id attempt m db ≡ (
        if owns_attempt w current attempt.attempt r
        then finished_attempt env j (owns_attempt w current attempt.attempt) attempt m.utc r db
        else (err lease_error, db))
unfolding finish_attempt
finish_attempt_lem env job_id worker_id attempt m db j w current r args u h =
    elim (Bool-cases (owns_attempt w current attempt.attempt r)) [
      | inl own ↦
          rw (args, own)
            (owned_attempt env j w current attempt m.utc db r u h own
              (args_bound job_id worker_id attempt m (j, w, current) args))
      | inr lost ↦
          rw (args, lost) (finish_attempt_refused env j w current attempt m.utc db r u h lost)
    ]
