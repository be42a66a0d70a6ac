-- ===== src/Queue/Machine.antt =====
-- The life of one job, whatever the workers do: each call on the queue makes a job take one step of a
-- state machine, or leaves it as it was.
use sisyphus_harness.Prelude.{
  String, ◌≡◌, refl, ◌⊎◌, inl, inr, Bool, true, ◌&&◌, Option, none, some, List, [], ◌∷◌, arith,
  eq_iff, eq_refl,
}
use sisyphus_harness.Prelude.Float.{Float}
use sisyphus_harness.Contracts.{AttemptFinished}
use sisyphus_harness.Contracts.Json.{Json}
use sisyphus_harness.Database.{
  JobStatus, completed, failed, JobRow, Db, Result, ok, err, Outcome, checked,
}
use sisyphus_harness.Database.Rows.{Unique, lookup-update, lookup-append, lookup_key}
use sisyphus_harness.Queue
use sisyphus_harness.Queue.{
  asserting, claiming, job_key, select_job, set_claimed, set_lease, set_finished, holds_lease,
  owns_attempt, has_job_id, update_job, claim_row, finish_attempt_rows, enqueue_row, new_job,
}
use sisyphus_harness.Queue.Args.{
  Env, Moment, enqueue_args, claim_args, heartbeat_args, finish_args, finish_attempt_args,
}
use sisyphus_harness.Queue.Order.{claimable, first_claimable}
use sisyphus_harness.Queue.Selection.{first_claimable-claimable, lookup-first_claimable}

-- A call that a client makes on the queue.
pub data Event : Type 0 where
  enqueue : String → Json → String → String → Moment → Event
  claim : String → Float → Moment → Event
  heartbeat : String → String → Float → Moment → Event
  complete : String → String → Json → Moment → Event
  fail : String → String → Json → Moment → Event
  finish_attempt : String → String → AttemptFinished → Moment → Event

-- The database that a call leaves, whether it returns or raises.
unfoldable pub step : Env → Event → Db → Db
step env (enqueue kind payload key job_id m) db = (Queue.enqueue env kind payload key job_id m db).1
step env (claim worker seconds m) db = (Queue.claim env worker seconds m db).1
step env (heartbeat job worker seconds m) db = (Queue.heartbeat env job worker seconds m db).1
step env (complete job worker result m) db = (Queue.complete env job worker result m db).1
step env (fail job worker result m) db = (Queue.fail env job worker result m db).1
step env (finish_attempt job worker attempt m) db =
    (Queue.finish_attempt env job worker attempt m db).1

-- The calls of any number of workers, in the order in which their transactions commit.
unfoldable pub run : Env → List Event → Db → Db
run env [] db = db
run env (e ∷ events) db = run env events (step env e db)

-- What one call may do to a job.
pub data JobStep (r r' : JobRow) : Type 0 where
  stay : r' ≡ r → JobStep r r'
  claimed :
      (worker : String) (current expires : Float) (utc : String)
      → claimable current r ≡ true
      → r' ≡ set_claimed worker expires utc r
      → JobStep r r'
  extended :
      (worker : String) (current expires : Float) (utc : String)
      → holds_lease worker current r ≡ true
      → r' ≡ set_lease expires utc r
      → JobStep r r'
  finished :
      (worker : String) (current : Float) (status : JobStatus) (result utc : String)
      → holds_lease worker current r ≡ true
      → (status ≡ completed) ⊎ (status ≡ failed)
      → r' ≡ set_finished status result utc r
      → JobStep r r'

-- The job under an identifier takes a step.
abbrev pub Steps : String → JobRow → Db → Type 0
Steps k r db' = (r' : JobRow) × (select_job k db'.jobs ≡ some r') × JobStep r r'

same : (k : String) (r : JobRow) (db : Db) → select_job k db.jobs ≡ some r → Steps k r db
same k r db h = (r, h, stay refl)

-- An UPDATE of one job under a condition leaves any job as it was, or changes it where the condition
-- holds.
update_job-select :
    (j : String) (q : JobRow → Bool) (f : JobRow → JobRow)
    → ((r : JobRow) → (f r).job_id ≡ r.job_id)
    → (db : Db) (k : String) (r : JobRow) → select_job k db.jobs ≡ some r
    → let db' = (asserting db (update_job j q f)).1 in
      (select_job k db'.jobs ≡ some r) ⊎ ((q r ≡ true) × (select_job k db'.jobs ≡ some (f r)))
unfolding update_job
update_job-select j q f keeps db k r h =
    ground (arith, lookup-update job_key (λ r. has_job_id j r && q r) f keeps k db.jobs)

-- A claim changes only the job that it selects.
pub claim_row-select :
    (worker : String) (current expires : Float) (utc : String) (db : Db) (c : JobRow)
    → select_job c.job_id db.jobs ≡ some c
    → (k : String) (r : JobRow) → select_job k db.jobs ≡ some r
    → let db' = (claiming db (λ db. claim_row worker expires utc db (some c))).1 in
      (select_job k db'.jobs ≡ some r)
      ⊎ ((c ≡ r) × (select_job k db'.jobs ≡ some (set_claimed worker expires utc r)))
unfolding claim_row
claim_row-select worker current expires utc db c found k r h =
    let f : JobRow → JobRow = set_claimed worker expires utc in
    ground (
      arith,
      lookup-update job_key (has_job_id c.job_id) f (λ _. refl) k db.jobs,
      lookup-update job_key (has_job_id c.job_id) f (λ _. refl) c.job_id db.jobs,
      lookup_key job_key k db.jobs r h,
      eq_iff r.job_id c.job_id,
      eq_refl c.job_id,
    )

claim-Steps :
    (worker : String) (current expires : Float) (utc : String) (db : Db)
    → Unique job_key db.jobs
    → (k : String) (r : JobRow) → select_job k db.jobs ≡ some r
    → (o : Option JobRow) → first_claimable current db.jobs ≡ o
    → Steps k r (claiming db (λ db. claim_row worker expires utc db o)).1
unfolding claim_row
claim-Steps worker current expires utc db u k r h none e = same k r db h
claim-Steps worker current expires utc db u k r h (some c) e =
    let found = lookup-first_claimable current db.jobs c u e in
    let can = first_claimable-claimable current db.jobs c e in
    elim (claim_row-select worker current expires utc db c found k r h) [
      | inl kept ↦ (r, kept, stay refl)
      | inr (this, set) ↦ (
        set_claimed worker expires utc r,
        set,
        claimed worker current expires utc (rw this at can) refl,
      )
    ]

-- An UPDATE under the worker's lease.
update_job-Steps :
    (j : String) (q : JobRow → Bool) (f : JobRow → JobRow)
    → ((r : JobRow) → (f r).job_id ≡ r.job_id)
    → ((r : JobRow) → q r ≡ true → JobStep r (f r))
    → (db : Db) (k : String) (r : JobRow) → select_job k db.jobs ≡ some r
    → Steps k r (asserting db (update_job j q f)).1
update_job-Steps j q f keeps may db k r h = elim (update_job-select j q f keeps db k r h) [
  | inl kept ↦ (r, kept, stay refl)
  | inr (can, set) ↦ (f r, set, may r can)
]

finish_attempt-select :
    (env : Env) (j worker : String) (current : Float) (attempt : AttemptFinished) (utc : String)
    (db : Db) (k : String) (r : JobRow)
    → select_job k db.jobs ≡ some r
    → let q = owns_attempt worker current attempt.attempt in
      let db' = (asserting db (finish_attempt_rows env j worker current attempt utc)).1 in
      (select_job k db'.jobs ≡ some r)
      ⊎ ((q r ≡ true)
          × (select_job k db'.jobs
              ≡ some (set_finished completed (env.attempt_json attempt) utc r)))
unfolding finish_attempt_rows
finish_attempt-select env j worker current attempt utc db k r h =
    let q = owns_attempt worker current attempt.attempt in
    ground (
      arith,
      lookup-update job_key (λ r. has_job_id j r && q r)
          (set_finished completed (env.attempt_json attempt) utc) (λ _. refl) k db.jobs,
    )

finish_attempt-Steps :
    (env : Env) (j worker : String) (current : Float) (attempt : AttemptFinished) (utc : String)
    (db : Db) (k : String) (r : JobRow)
    → select_job k db.jobs ≡ some r
    → Steps k r (asserting db (finish_attempt_rows env j worker current attempt utc)).1
finish_attempt-Steps env j worker current attempt utc db k r h =
    elim (finish_attempt-select env j worker current attempt utc db k r h) [
      | inl kept ↦ (r, kept, stay refl)
      | inr (can, set) ↦ (
        set_finished completed (env.attempt_json attempt) utc r,
        set,
        finished worker current completed (env.attempt_json attempt) utc (ground arith) (inl refl)
            refl,
      )
    ]

pub enqueue_row-select :
    (row : JobRow) (db : Db) (k : String) (r : JobRow)
    → select_job k db.jobs ≡ some r
    → select_job k (enqueue_row row db).1.jobs ≡ some r
unfolding enqueue_row
enqueue_row-select row db k r h = ground (arith, lookup-append job_key k db.jobs (row ∷ []))

checked-Steps :
    {A B : Type 0} (args : Result A) (db : Db) (f : A → Outcome B) (k : String) (r : JobRow)
    → select_job k db.jobs ≡ some r
    → ((a : A) → Steps k r (f a).1)
    → Steps k r (checked args db f).1
checked-Steps (ok a) db f k r h go = go a
checked-Steps (err e) db f k r h go = same k r db h

-- Whatever the call, a job that is in the queue stays in it, and takes one step of the state machine.
pub step-JobStep :
    (env : Env) (e : Event) (db : Db)
    → Unique job_key db.jobs
    → (k : String) (r : JobRow) → select_job k db.jobs ≡ some r
    → Steps k r (step env e db)
unfolding step Queue.enqueue Queue.claim Queue.heartbeat Queue.complete Queue.fail
    Queue.finish_attempt Queue.finish
step-JobStep env (enqueue kind payload key job_id m) db u k r h =
    checked-Steps (enqueue_args kind key) db _ k r h λ (kd, ky).
      (r, enqueue_row-select (new_job job_id ky kd (env.dumps payload) m.utc) db k r h, stay refl)
step-JobStep env (claim worker seconds m) db u k r h =
    checked-Steps (claim_args env worker seconds m) db _ k r h
      λ (w, current, expires). claim-Steps w current expires m.utc db u k r h _ refl
step-JobStep env (heartbeat job worker seconds m) db u k r h =
    checked-Steps (heartbeat_args env job worker seconds m) db _ k r h λ (j, w, current, expires).
      update_job-Steps j _ _ (λ _. refl) (λ r can. extended w current expires m.utc can refl) db k r
        h
step-JobStep env (complete job worker result m) db u k r h =
    checked-Steps (finish_args job worker m) db _ k r h λ (j, w, current).
      update_job-Steps j _ _ (λ _. refl)
        (λ r can. finished w current completed (env.dumps result) m.utc can (inl refl) refl) db k r
        h
step-JobStep env (fail job worker result m) db u k r h =
    checked-Steps (finish_args job worker m) db _ k r h λ (j, w, current).
      update_job-Steps j _ _ (λ _. refl)
        (λ r can. finished w current failed (env.dumps result) m.utc can (inr refl) refl) db k r h
step-JobStep env (finish_attempt job worker attempt m) db u k r h =
    checked-Steps (finish_attempt_args job worker attempt m) db _ k r h
      λ (j, w, current). finish_attempt-Steps env j w current attempt m.utc db k r h
