-- ===== src/Queue/Leases.antt =====
-- What a lease gives its worker, and what it keeps from the others.
use sisyphus_harness.Prelude.{
  String, ◌≡◌, refl, inl, inr, Bool, true, false, ◌&&◌, Option, none, some, arith, eq_iff, eq_refl,
  if◌then◌else◌, All, Option-cases, ap,
}
use sisyphus_harness.Prelude.Float.{Float, float_le-not-lt}
use sisyphus_harness.Contracts.Json.{Json}
use sisyphus_harness.Database.{
  JobStatus, is_running, JobRow, Db, lease_error, Result, ok, err, Outcome, checked,
}
use sisyphus_harness.Database.Rows.{Unique, update, lookup-update, lookup_key, count-by_key}
use sisyphus_harness.Queue.{
  asserting, claiming, job_key, select_job, set_claimed, set_lease, set_finished, holds_lease,
  expires_after, has_job_id, update_job, claim_row, claim, heartbeat, finish,
}
use sisyphus_harness.Queue.Args.{
  Env, Moment, current_time, lease_window, claim_args, heartbeat_args, finish_args,
}
use sisyphus_harness.Queue.Order.{claimable, first_claimable}
use sisyphus_harness.Queue.Selection.{
  Before, first_claimable-claimable, lookup-first_claimable, first_claimable_first,
  first_claimable-eq-none,
}
use sisyphus_harness.Queue.Machine.{claim_row-select}

-- An UPDATE of one job in full: it needs its condition, and returns the changed row.
pub update_job_lem :
    (j : String) (q : JobRow → Bool) (f : JobRow → JobRow)
    → ((r : JobRow) → (f r).job_id ≡ r.job_id)
    → (db : Db) (r : JobRow) → Unique job_key db.jobs
    → select_job j db.jobs ≡ some r
    → asserting db (update_job j q f) ≡ (
        if q r
        then (ok (f r), record db { jobs = update (λ x. has_job_id j x && q x) f db.jobs })
        else (err lease_error, db))
unfolding update_job
update_job_lem j q f keeps db r u h = ground (
  arith,
  count-by_key job_key j q db.jobs u,
  lookup-update job_key (λ x. has_job_id j x && q x) f keeps j db.jobs,
  lookup_key job_key j db.jobs r h,
  eq_iff r.job_id j,
)

module _ (env : Env) (db : Db) (u : Unique job_key db.jobs) where
  -- `finish` with its status in full, on arguments that pass its tests and a job that is in the queue: the
  -- worker that holds the unexpired lease gets the row with the status, the result and no lease, which is
  -- written to that job alone; any other gets a lease error, and the database stays as it was.
  pub finish_lem :
      (status : JobStatus) (job_id worker_id : String) (result : Json) (m : Moment) {j w : String}
      {current : Float}
      → finish_args job_id worker_id m ≡ ok (j, w, current)
      → (r : JobRow) → select_job j db.jobs ≡ some r
      → let f = set_finished status (env.dumps result) m.utc in
        finish env status job_id worker_id result m db ≡ (
          if holds_lease w current r
          then (
            ok (f r),
            record db { jobs = update (λ x. has_job_id j x && holds_lease w current x) f db.jobs },
          )
          else (err lease_error, db))
  unfolding finish
  finish_lem status job_id worker_id result m {j} {w} {current} args r h = rw args (
      update_job_lem j (holds_lease w current) (set_finished status (env.dumps result) m.utc)
        (λ _. refl) db r u h)

  -- `heartbeat` in full, on arguments that pass its tests and a job that is in the queue: the worker that
  -- holds the unexpired lease gets the row with the lease's new end, which is written to that job alone;
  -- any other gets a lease error, and the database stays as it was.
  pub heartbeat_lem :
      (job_id worker_id : String) (seconds : Float) (m : Moment) {j w : String}
      {current expires : Float}
      → heartbeat_args env job_id worker_id seconds m ≡ ok (j, w, current, expires)
      → (r : JobRow) → select_job j db.jobs ≡ some r
      → let f = set_lease expires m.utc in
        heartbeat env job_id worker_id seconds m db ≡ (
          if holds_lease w current r
          then (
            ok (f r),
            record db { jobs = update (λ x. has_job_id j x && holds_lease w current x) f db.jobs },
          )
          else (err lease_error, db))
  unfolding heartbeat
  heartbeat_lem job_id worker_id seconds m {j} {w} {current} {expires} args r h =
      rw args
        (update_job_lem j (holds_lease w current) (set_lease expires m.utc) (λ _. refl) db r u h)

-- What `claim` may answer.
pub data ClaimResult (worker : String) (current expires : Float) (utc : String) (db : Db)
    (out : Outcome (Option JobRow)) : Type 0 where
  idle :
      All (λ r. claimable current r ≡ false) db.jobs
      → out ≡ (ok none, db)
      → ClaimResult worker current expires utc db out
  took :
      (c : JobRow)
      → select_job c.job_id db.jobs ≡ some c
      → claimable current c ≡ true
      → All (Before current c) db.jobs
      → out ≡ (
        ok (some (set_claimed worker expires utc c)),
        record db { jobs = update (has_job_id c.job_id) (set_claimed worker expires utc) db.jobs },
      )
      → ClaimResult worker current expires utc db out

claim_row_lem :
    (worker : String) (expires : Float) (utc : String) (db : Db) (c : JobRow)
    → select_job c.job_id db.jobs ≡ some c
    → claiming db (λ db. claim_row worker expires utc db (some c)) ≡ (
      ok (some (set_claimed worker expires utc c)),
      record db { jobs = update (has_job_id c.job_id) (set_claimed worker expires utc) db.jobs },
    )
unfolding claim_row
claim_row_lem worker expires utc db c h = ground (
  arith,
  lookup-update job_key (has_job_id c.job_id) (set_claimed worker expires utc) (λ _. refl) c.job_id
      db.jobs,
  eq_refl c.job_id,
)

claim_row-ClaimResult :
    (worker : String) (current expires : Float) (utc : String) (db : Db)
    → Unique job_key db.jobs
    → (o : Option JobRow) → first_claimable current db.jobs ≡ o
    → ClaimResult worker current expires utc db
        (claiming db (λ db. claim_row worker expires utc db o))
unfolding claim_row
claim_row-ClaimResult worker current expires utc db u none e =
    idle (first_claimable-eq-none current db.jobs e) refl
claim_row-ClaimResult worker current expires utc db u (some c) e =
    let found = lookup-first_claimable current db.jobs c u e in
    took c found (first_claimable-claimable current db.jobs c e)
      (first_claimable_first current db.jobs c e) (claim_row_lem worker expires utc db c found)

-- With arguments that pass its tests, `claim` takes the first claimable job in the order of creation
-- time and identifier, writes the lease and one more attempt into that row and no other, and returns the
-- row; where no job is claimable it returns none and changes nothing.
pub claim-ClaimResult :
    (env : Env) (worker_id : String) (seconds : Float) (m : Moment) (db : Db) (w : String)
    (current expires : Float)
    → claim_args env worker_id seconds m ≡ ok (w, current, expires)
    → Unique job_key db.jobs
    → ClaimResult w current expires m.utc db (claim env worker_id seconds m db)
unfolding claim
claim-ClaimResult env worker_id seconds m db w current expires args u =
    rw args (claim_row-ClaimResult w current expires m.utc db u _ refl)

claim_args_now :
    (env : Env) (worker_id : String) (seconds : Float) (m : Moment) (a : String × Float × Float)
    → claim_args env worker_id seconds m ≡ ok a
    → a.1 ≡ current_time m
unfolding claim_args lease_window
claim_args_now env worker_id seconds m a h = ground arith

-- A live lease keeps its job out of `claim`: it is not claimable.
live-not-claimable :
    (current : Float) (r : JobRow)
    → is_running r.status ≡ true
    → expires_after current r.lease_expires_at ≡ true
    → claimable current r ≡ false
live-not-claimable current r busy live = elim (Option-cases r.lease_expires_at) [
  | inl e ↦ ground arith
  | inr (x, e) ↦ ground (arith, float_le-not-lt x current)
]

-- While a job runs under a lease that has not expired at the time of the call, no `claim` of any worker
-- changes the job.
pub claim_exclusive :
    (env : Env) (worker_id : String) (seconds : Float) (m : Moment) (db : Db)
    → Unique job_key db.jobs
    → (k : String) (r : JobRow) → select_job k db.jobs ≡ some r
    → is_running r.status ≡ true
    → expires_after (current_time m) r.lease_expires_at ≡ true
    → select_job k (claim env worker_id seconds m db).1.jobs ≡ some r
unfolding claim
claim_exclusive env worker_id seconds m db u k r h busy live =
    go (claim_args env worker_id seconds m) refl
  where
    kept :
        (w : String) (expires : Float) (o : Option JobRow)
        → first_claimable (current_time m) db.jobs ≡ o
        → select_job k (claiming db (λ db. claim_row w expires m.utc db o)).1.jobs ≡ some r
    kept w expires none e = unfold claim_row in h
    kept w expires (some c) e =
        elim (claim_row-select w (current_time m) expires m.utc db c
          (lookup-first_claimable (current_time m) db.jobs c u e) k r h) [
            | inl same ↦ same
            | inr (this, _) ↦
                let can = first_claimable-claimable (current_time m) db.jobs c e in
                let cannot = live-not-claimable (current_time m) r busy live in
                cc (ap (claimable (current_time m)) this, can, cannot)
          ]

    go :
        (a : Result (String × Float × Float))
        → claim_args env worker_id seconds m ≡ a
        → select_job k
            (checked a db (λ (w, current, expires).
              claiming db (λ (db : Db).
                claim_row w expires m.utc db (first_claimable current db.jobs)))).1.jobs
          ≡ some r
    go (err e) _ = h
    go (ok a) e =
        rw (claim_args_now env worker_id seconds m a e)
          (kept a.0 a.2 (first_claimable (current_time m) db.jobs) refl)
