-- ===== src/Queue/Tables.antt =====
-- What a call on the queue does to the table `jobs` as a whole: nothing, an UPDATE that steps the rows
-- that it selects, or an INSERT of a new row.
use sisyphus_harness.Prelude.{
  String, ◌≡◌, refl, ◌⊎◌, inl, inr, Bool, true, ◌&&◌, Option, none, some, List, [], ◌∷◌, ◌++◌,
  arith, All,
}
use sisyphus_harness.Prelude.Float.{Float}
use sisyphus_harness.Contracts.{AttemptFinished}
use sisyphus_harness.Database.{completed, failed, JobRow, Db, Result, ok, err, Outcome, checked}
use sisyphus_harness.Database.Rows.{Unique, update, lookup, by_key, only_row, All-always, All-map}
use sisyphus_harness.Queue
use sisyphus_harness.Queue.{
  asserting, claiming, job_key, request_key, select_job, set_claimed, set_lease, set_finished,
  holds_lease, owns_attempt, has_job_id, update_job, claim_row, finish_attempt_rows, enqueue_row,
  new_job,
}
use sisyphus_harness.Queue.Args.{
  Env, enqueue_args, claim_args, heartbeat_args, finish_args, finish_attempt_args,
}
use sisyphus_harness.Queue.Order.{first_claimable}
use sisyphus_harness.Queue.Selection.{first_claimable-claimable, lookup-first_claimable}
use sisyphus_harness.Queue.Machine.{
  Event, enqueue, claim, heartbeat, complete, fail, finish_attempt, step, JobStep, claimed,
  extended, finished,
}

pub data TableStep (jobs jobs' : List JobRow) : Type 0 where
  unchanged : jobs' ≡ jobs → TableStep jobs jobs'
  updated :
      (p : JobRow → Bool) (f : JobRow → JobRow)
      → ((r : JobRow) → (f r).job_id ≡ r.job_id)
      → ((r : JobRow) → (f r).idempotency_key ≡ r.idempotency_key)
      → All (λ r. p r ≡ true → JobStep r (f r)) jobs
      → jobs' ≡ update p f jobs
      → TableStep jobs jobs'
  inserted :
      (job_id key kind payload_json utc : String)
      → lookup request_key key jobs ≡ none
      → select_job job_id jobs ≡ none
      → jobs' ≡ jobs ++ new_job job_id key kind payload_json utc ∷ []
      → TableStep jobs jobs'

pub update_job-jobs :
    (j : String) (q : JobRow → Bool) (f : JobRow → JobRow) (db : Db)
    → let jobs' = (asserting db (update_job j q f)).1.jobs in
      (jobs' ≡ db.jobs) ⊎ (jobs' ≡ update (λ r. has_job_id j r && q r) f db.jobs)
unfolding update_job
update_job-jobs j q f db = ground arith

claim_row-jobs :
    (worker : String) (expires : Float) (utc : String) (db : Db) (c : JobRow)
    → let jobs' = (claiming db (λ db. claim_row worker expires utc db (some c))).1.jobs in
      (jobs' ≡ db.jobs)
      ⊎ (jobs' ≡ update (has_job_id c.job_id) (set_claimed worker expires utc) db.jobs)
unfolding claim_row
claim_row-jobs worker expires utc db c = ground arith

pub finish_attempt-jobs :
    (env : Env) (j worker : String) (current : Float) (attempt : AttemptFinished) (utc : String)
    (db : Db)
    → let jobs' = (asserting db (finish_attempt_rows env j worker current attempt utc)).1.jobs in
      (jobs' ≡ db.jobs)
      ⊎ (jobs'
          ≡ update
              (λ r. has_job_id j r && owns_attempt worker current attempt.attempt r)
              (set_finished completed (env.attempt_json attempt) utc)
              db.jobs)
unfolding finish_attempt_rows
finish_attempt-jobs env j worker current attempt utc db = ground arith

enqueue_row-jobs :
    (row : JobRow) (db : Db)
    → let jobs' = (enqueue_row row db).1.jobs in
      (jobs' ≡ db.jobs)
      ⊎ ((lookup request_key row.idempotency_key db.jobs ≡ none)
          × (select_job row.job_id db.jobs ≡ none)
          × (jobs' ≡ db.jobs ++ row ∷ []))
unfolding enqueue_row
enqueue_row-jobs row db = ground arith

checked-TableStep :
    {A B : Type 0} (args : Result A) (db : Db) (f : A → Outcome B)
    → ((a : A) → TableStep db.jobs (f a).1.jobs)
    → TableStep db.jobs (checked args db f).1.jobs
checked-TableStep (ok a) db f go = go a
checked-TableStep (err e) db f go = unchanged refl

update_job-TableStep :
    (j : String) (q : JobRow → Bool) (f : JobRow → JobRow)
    → ((r : JobRow) → (f r).job_id ≡ r.job_id)
    → ((r : JobRow) → (f r).idempotency_key ≡ r.idempotency_key)
    → ((r : JobRow) → q r ≡ true → JobStep r (f r))
    → (db : Db) → TableStep db.jobs (asserting db (update_job j q f)).1.jobs
update_job-TableStep j q f ids keys may db = elim (update_job-jobs j q f db) [
  | inl e ↦ unchanged e
  | inr e ↦
      updated (λ r. has_job_id j r && q r) f ids keys
        (All-always (λ r. (has_job_id j r && q r) ≡ true → JobStep r (f r))
          (λ r can. may r (ground arith)) db.jobs)
        e
]

claim-TableStep :
    (worker : String) (current expires : Float) (utc : String) (db : Db)
    → Unique job_key db.jobs
    → (o : Option JobRow) → first_claimable current db.jobs ≡ o
    → TableStep db.jobs (claiming db (λ db. claim_row worker expires utc db o)).1.jobs
unfolding claim_row
claim-TableStep worker current expires utc db u none e = unchanged refl
claim-TableStep worker current expires utc db u (some c) e =
    let can = first_claimable-claimable current db.jobs c e in
    let f : JobRow → JobRow = set_claimed worker expires utc in
    elim (claim_row-jobs worker expires utc db c) [
      | inl kept ↦ unchanged kept
      | inr set ↦
          updated (has_job_id c.job_id) f (λ _. refl) (λ _. refl)
            (All-map (λ r. by_key job_key c.job_id r ≡ true → c ≡ r) _
              (λ r only this. claimed worker current expires utc (rw (only this) at can) refl)
              db.jobs
              (only_row job_key c.job_id db.jobs c u
                (lookup-first_claimable current db.jobs c u e)))
            set
    ]

finish_attempt-TableStep :
    (env : Env) (j worker : String) (current : Float) (attempt : AttemptFinished) (utc : String)
    (db : Db)
    → TableStep db.jobs (asserting db (finish_attempt_rows env j worker current attempt utc)).1.jobs
finish_attempt-TableStep env j worker current attempt utc db =
    let json = env.attempt_json attempt in
    elim (finish_attempt-jobs env j worker current attempt utc db) [
      | inl e ↦ unchanged e
      | inr e ↦
          updated _ (set_finished completed json utc) (λ _. refl) (λ _. refl)
            (All-always _
              (λ r can. finished worker current completed json utc (ground arith) (inl refl) refl)
              db.jobs)
            e
    ]

-- Whatever the call, the table `jobs` takes one such step.
pub step-TableStep :
    (env : Env) (e : Event) (db : Db)
    → Unique job_key db.jobs
    → TableStep db.jobs (step env e db).jobs
unfolding step Queue.enqueue Queue.claim Queue.heartbeat Queue.complete Queue.fail
    Queue.finish_attempt Queue.finish
step-TableStep env (enqueue kind payload key job_id m) db u =
    checked-TableStep (enqueue_args kind key) db _ λ (kd, ky).
      elim (enqueue_row-jobs (new_job job_id ky kd (env.dumps payload) m.utc) db) [
        | inl e ↦ unchanged e
        | inr (no_key, no_id, e) ↦ inserted job_id ky kd (env.dumps payload) m.utc no_key no_id e
      ]
step-TableStep env (claim worker seconds m) db u =
    checked-TableStep (claim_args env worker seconds m) db _
      λ (w, current, expires). claim-TableStep w current expires m.utc db u _ refl
step-TableStep env (heartbeat job worker seconds m) db u =
    checked-TableStep (heartbeat_args env job worker seconds m) db _ λ (j, w, current, expires).
      update_job-TableStep j _ _ (λ _. refl) (λ _. refl)
        (λ r can. extended w current expires m.utc can refl) db
step-TableStep env (complete job worker result m) db u =
    checked-TableStep (finish_args job worker m) db _ λ (j, w, current).
      update_job-TableStep j _ _ (λ _. refl) (λ _. refl)
        (λ r can. finished w current completed (env.dumps result) m.utc can (inl refl) refl) db
step-TableStep env (fail job worker result m) db u =
    checked-TableStep (finish_args job worker m) db _ λ (j, w, current).
      update_job-TableStep j _ _ (λ _. refl) (λ _. refl)
        (λ r can. finished w current failed (env.dumps result) m.utc can (inr refl) refl) db
step-TableStep env (finish_attempt job worker attempt m) db u =
    checked-TableStep (finish_attempt_args job worker attempt m) db _
      λ (j, w, current). finish_attempt-TableStep env j w current attempt m.utc db
