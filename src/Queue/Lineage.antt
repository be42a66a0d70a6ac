-- ===== src/Queue/Lineage.antt =====
-- What a call on the queue does to the table `attempt_finished`: only `finish_attempt` writes to it, and
-- it does so in the transaction that completes the job.
use mathlib.Core.Path.{subst}
use sisyphus_harness.Prelude.Text.{strip}
use sisyphus_harness.Prelude.{
  sym, String, ◌≡◌, refl, ◌⊎◌, inl, inr, Bool, true, ◌&&◌, Option, none, some, List, [], ◌∷◌, ◌++◌,
  arith, ap, eq_iff, eqb, count_if, Option-cases, Bool-cases,
}
use sisyphus_harness.Prelude.Float.{Float}
use sisyphus_harness.Contracts.{AttemptFinished}
use sisyphus_harness.Database.{
  completed, failed, is_running, JobRow, AttemptRow, Db, Result, ok, err, Outcome, checked,
}
use sisyphus_harness.Database.Rows.{Unique, lookup-update, lookup_key, count-by_key}
use sisyphus_harness.Queue
use sisyphus_harness.Queue.{
  asserting, claiming, job_key, select_job, set_finished, set_lease, holds_lease, new_job,
  owns_attempt, has_job_id, update_job, claim_row, insert_attempt, finish_attempt_rows, enqueue_row,
  attempt_row,
}
use sisyphus_harness.Queue.Args.{
  Env, Moment, enqueue_args, claim_args, heartbeat_args, finish_args, finish_attempt_args,
}
use sisyphus_harness.Queue.Order.{first_claimable}
use sisyphus_harness.Queue.Machine.{
  Event, enqueue, claim, heartbeat, complete, fail, finish_attempt, step,
}

-- A finished attempt is the last attempt of a completed job, whose result it is.
pub record HasJob (jobs : List JobRow) (a : AttemptRow) : Type 0 where
  pub job : JobRow
  pub stored : select_job a.job_id jobs ≡ some job
  pub coding : job.kind ≡ "coding-agent"
  pub done : job.status ≡ completed
  pub last : job.attempts ≡ a.attempt
  pub result : job.result_json ≡ some a.payload_json

-- What a call does to `attempt_finished`.
pub data AttemptsStep (db db' : Db) : Type 0 where
  same_attempts : db'.attempt_finished ≡ db.attempt_finished → AttemptsStep db db'
  new_attempt :
      (row : AttemptRow) (job : JobRow)
      → select_job row.job_id db.jobs ≡ some job
      → is_running job.status ≡ true
      → HasJob db'.jobs row
      → db'.attempt_finished ≡ db.attempt_finished ++ row ∷ []
      → AttemptsStep db db'

-- An UPDATE of one job that counts one row found the job, and its condition held.
pub one_row :
    (j : String) (q : JobRow → Bool) (db : Db)
    → Unique job_key db.jobs
    → eqb (count_if (λ r. has_job_id j r && q r) db.jobs) 1 ≡ true
    → (r : JobRow) × (select_job j db.jobs ≡ some r) × (q r ≡ true)
one_row j q db u h = elim (Option-cases (select_job j db.jobs)) [
  | inl e ↦ absurd (ground (arith, count-by_key job_key j q db.jobs u))
  | inr (r, e) ↦ (r, e, ground (arith, count-by_key job_key j q db.jobs u))
]

-- What the body of `finish_attempt` writes when it returns.
pub data Finishes (env : Env) (j worker : String) (current : Float) (attempt : AttemptFinished)
    (utc : String) (db db' : Db) : Type 0 where
  rolled_back : db' ≡ db → Finishes env j worker current attempt utc db db'
  committed :
      (r : JobRow)
      → select_job j db.jobs ≡ some r
      → owns_attempt worker current attempt.attempt r ≡ true
      → select_job j db'.jobs ≡ some (set_finished completed (env.attempt_json attempt) utc r)
      → db'.attempt_finished ≡ db.attempt_finished ++ attempt_row env attempt utc ∷ []
      → db'.task_outcomes ≡ db.task_outcomes
      → Finishes env j worker current attempt utc db db'

module _ (env : Env) (j worker : String) (current : Float) (attempt : AttemptFinished)
    (utc : String) (db : Db) where
  abbrev ends : Db
  ends = (asserting db (finish_attempt_rows env j worker current attempt utc)).1

  abbrev owns : JobRow → Bool
  owns = owns_attempt worker current attempt.attempt

  one_counted : Bool
  one_counted = eqb (count_if (λ r. has_job_id j r && owns r) db.jobs) 1

  not_counted : one_counted ≡ Bool.false → ends ≡ db
  unfolding finish_attempt_rows one_counted
  not_counted h = ground arith

  counted :
      (r : JobRow)
      → one_counted ≡ true
      → select_job j db.jobs ≡ some r
      → owns r ≡ true
      → (ends ≡ db)
        ⊎ ((select_job j ends.jobs ≡ some (set_finished completed (env.attempt_json attempt) utc r))
            × (ends.attempt_finished ≡ db.attempt_finished ++ attempt_row env attempt utc ∷ [])
            × (ends.task_outcomes ≡ db.task_outcomes))
  unfolding finish_attempt_rows one_counted
  counted r h e q = ground (
    arith,
    lookup-update job_key (λ r. has_job_id j r && owns r)
        (set_finished completed (env.attempt_json attempt) utc) (λ _. refl) j db.jobs,
    lookup_key job_key j db.jobs r e,
    eq_iff r.job_id j,
  )

  pub finish_attempt-Finishes :
      Unique job_key db.jobs → Finishes env j worker current attempt utc db ends
  unfolding one_counted
  finish_attempt-Finishes u = elim (Bool-cases one_counted) [
    | inr none_changed ↦ rolled_back (not_counted none_changed)
    | inl one ↦
        let (r, e, q) = one_row j owns db u one in
        elim (counted r one e q) [
          | inl kept ↦ rolled_back kept
          | inr (set, rows, outcomes) ↦ committed r e q set rows outcomes
        ]
  ]

HasJob-of_finish :
    (env : Env) (worker : String) (current : Float) (attempt : AttemptFinished) (utc : String)
    (jobs : List JobRow) (r : JobRow)
    → owns_attempt worker current attempt.attempt r ≡ true
    → select_job attempt.job_id jobs
      ≡ some (set_finished completed (env.attempt_json attempt) utc r)
    → HasJob jobs (attempt_row env attempt utc)
HasJob-of_finish env worker current attempt utc jobs r q found = record {
  job = set_finished completed (env.attempt_json attempt) utc r;
  stored = found;
  coding = ground (arith, eq_iff r.kind "coding-agent");
  done = refl;
  last = ground arith;
  result = refl;
}

finish_attempt-AttemptsStep :
    (env : Env) (j worker : String) (current : Float) (attempt : AttemptFinished) (utc : String)
    (db : Db)
    → Unique job_key db.jobs
    → attempt.job_id ≡ j
    → AttemptsStep db (ends env j worker current attempt utc db)
finish_attempt-AttemptsStep env j worker current attempt utc db u bound =
    elim (finish_attempt-Finishes env j worker current attempt utc db u) [
      | rolled_back e ↦ same_attempts (ap (λ (d : Db). d.attempt_finished) e)
      | committed r e q set rows outcomes ↦
          let now : Db = ends env j worker current attempt utc db in
          let after : JobRow = set_finished completed (env.attempt_json attempt) utc r in
          new_attempt (attempt_row env attempt utc) r (rw bound e) (ground arith)
            (HasJob-of_finish env worker current attempt utc now.jobs r q
              (subst (λ k. select_job k now.jobs ≡ some after) (sym bound) set))
            rows
    ]

checked-AttemptsStep :
    {A B : Type 0} (args : Result A) (db : Db) (f : A → Outcome B)
    → ((a : A) → args ≡ ok a → AttemptsStep db (f a).1)
    → AttemptsStep db (checked args db f).1
checked-AttemptsStep (ok a) db f go = go a refl
checked-AttemptsStep (err e) db f go = same_attempts refl

update_job-attempts :
    (j : String) (q : JobRow → Bool) (f : JobRow → JobRow) (db : Db)
    → (asserting db (update_job j q f)).1.attempt_finished ≡ db.attempt_finished
unfolding update_job
update_job-attempts j q f db = ground arith

claim_row-attempts :
    (worker : String) (expires : Float) (utc : String) (db : Db) (o : Option JobRow)
    → (claiming db (λ db. claim_row worker expires utc db o)).1.attempt_finished
      ≡ db.attempt_finished
unfolding claim_row
claim_row-attempts worker expires utc db none = refl
claim_row-attempts worker expires utc db (some c) = ground arith

enqueue_row-attempts :
    (row : JobRow) (db : Db) → (enqueue_row row db).1.attempt_finished ≡ db.attempt_finished
unfolding enqueue_row
enqueue_row-attempts row db = ground arith

pub args_bound :
    (job_id worker_id : String) (attempt : AttemptFinished) (m : Moment)
    (a : String × String × Float)
    → finish_attempt_args job_id worker_id attempt m ≡ ok a
    → attempt.job_id ≡ a.0
unfolding finish_attempt_args
args_bound job_id worker_id attempt m a h = ground (arith, eq_iff attempt.job_id (strip job_id))

pub step-AttemptsStep :
    (env : Env) (e : Event) (db : Db) → Unique job_key db.jobs → AttemptsStep db (step env e db)
unfolding step Queue.enqueue Queue.claim Queue.heartbeat Queue.complete Queue.fail
    Queue.finish_attempt Queue.finish
step-AttemptsStep env (enqueue kind payload key job_id m) db u =
    checked-AttemptsStep (enqueue_args kind key) db _ λ (kd, ky) _.
      same_attempts (enqueue_row-attempts (new_job job_id ky kd (env.dumps payload) m.utc) db)
step-AttemptsStep env (claim worker seconds m) db u =
    checked-AttemptsStep (claim_args env worker seconds m) db _ λ (w, current, expires) _.
      same_attempts (claim_row-attempts w expires m.utc db (first_claimable current db.jobs))
step-AttemptsStep env (heartbeat job worker seconds m) db u =
    checked-AttemptsStep (heartbeat_args env job worker seconds m) db _
      λ (j, w, current, expires) _.
        same_attempts (update_job-attempts j (holds_lease w current) (set_lease expires m.utc) db)
step-AttemptsStep env (complete job worker result m) db u =
    checked-AttemptsStep (finish_args job worker m) db _ λ (j, w, current) _. same_attempts (
      update_job-attempts j (holds_lease w current)
        (set_finished completed (env.dumps result) m.utc) db)
step-AttemptsStep env (fail job worker result m) db u =
    checked-AttemptsStep (finish_args job worker m) db _ λ (j, w, current) _. same_attempts (
      update_job-attempts j (holds_lease w current) (set_finished failed (env.dumps result) m.utc)
        db)
step-AttemptsStep env (finish_attempt job worker attempt m) db u =
    checked-AttemptsStep (finish_attempt_args job worker attempt m) db _ λ a e.
      finish_attempt-AttemptsStep env a.0 a.1 a.2 attempt m.utc db u
        (args_bound job worker attempt m a e)
