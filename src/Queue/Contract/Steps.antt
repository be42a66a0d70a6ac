-- ===== src/Queue/Contract/Steps.antt =====
-- What each call on the queue may do to one job: the moves of the job's state machine, as the rows before
-- and after, by the call and its arguments.
use sisyphus_harness.Prelude.{
  String, ◌≡◌, refl, ◌⊎◌, inl, inr, Bool, true, ◌&&◌, Option, none, some, arith, eq_iff,
}
use sisyphus_harness.Prelude.Float.{Float}
use sisyphus_harness.Prelude.Text.{strip}
use sisyphus_harness.Contracts.{AttemptFinished}
use sisyphus_harness.Contracts.Json.{Json}
use sisyphus_harness.Database.{completed, failed, JobRow, Db, Result, ok, err, Outcome, checked}
use sisyphus_harness.Database.Rows.{Unique, lookup-update}
use sisyphus_harness.Queue
use sisyphus_harness.Queue.{
  asserting, claiming, job_key, select_job, has_job_id, update_job, claim_row, finish_attempt_rows,
  owns_attempt, set_claimed, set_lease, set_finished, holds_lease, new_job,
}
use sisyphus_harness.Queue.Args.{
  Env, Moment, current_time, enqueue_args, claim_args, heartbeat_args, finish_args,
  finish_attempt_args,
}
use sisyphus_harness.Queue.Order.{first_claimable}
use sisyphus_harness.Queue.Selection.{first_claimable-claimable, lookup-first_claimable}
use sisyphus_harness.Queue.Machine.{
  Event, enqueue, claim, heartbeat, complete, fail, finish_attempt, step, enqueue_row-select,
  claim_row-select,
}
use sisyphus_harness.Queue.Contract.{
  claimed_row, extended_row, ended_row, HasLease, IsClaimable, holds_lease-HasLease,
  claimable-IsClaimable, claim_args-ok, heartbeat_args-ok, finish_args-ok, finish_attempt_args-ok,
}

-- The moves of a job, by the call. A move that the call names a job for is of that job.
pub data Move (env : Env) (r r' : JobRow) : Event → Type 0 where
  claims :
      (worker : String) (seconds : Float) (m : Moment)
      → IsClaimable (current_time m) r
      → r' ≡ claimed_row (strip worker) (env.add (current_time m) seconds) m.utc r
      → Move env r r' (claim worker seconds m)
  extends :
      (job worker : String) (seconds : Float) (m : Moment)
      → r.job_id ≡ strip job
      → HasLease (strip worker) (current_time m) r
      → r' ≡ extended_row (strip worker) (env.add (current_time m) seconds) m.utc r
      → Move env r r' (heartbeat job worker seconds m)
  completes :
      (job worker : String) (result : Json) (m : Moment)
      → r.job_id ≡ strip job
      → HasLease (strip worker) (current_time m) r
      → r' ≡ ended_row completed (env.dumps result) m.utc r
      → Move env r r' (complete job worker result m)
  fails :
      (job worker : String) (result : Json) (m : Moment)
      → r.job_id ≡ strip job
      → HasLease (strip worker) (current_time m) r
      → r' ≡ ended_row failed (env.dumps result) m.utc r
      → Move env r r' (fail job worker result m)
  attempted :
      (job worker : String) (attempt : AttemptFinished) (m : Moment)
      → r.job_id ≡ strip job
      → r.kind ≡ "coding-agent"
      → r.attempts ≡ attempt.attempt
      → HasLease (strip worker) (current_time m) r
      → r' ≡ ended_row completed (env.attempt_json attempt) m.utc r
      → Move env r r' (finish_attempt job worker attempt m)

-- The job is as it was, or has made the call's move.
abbrev pub Moved : Env → Event → String → JobRow → Db → Type 0
Moved env e k r db' =
    (r' : JobRow) × (select_job k db'.jobs ≡ some r') × ((r' ≡ r) ⊎ Move env r r' e)

module _ (env : Env) (e : Event) (db : Db) (k : String) (r : JobRow)
    (h : select_job k db.jobs ≡ some r) where
  checked-Moved :
      {A B : Type 0} (args : Result A) (f : A → Outcome B)
      → ((a : A) → args ≡ ok a → Moved env e k r (f a).1)
      → Moved env e k r (checked args db f).1
  checked-Moved (ok a) f go = go a refl
  checked-Moved (err x) f go = (r, h, inl refl)

  update_job-Moved :
      (j : String) (q : JobRow → Bool) (f : JobRow → JobRow)
      → ((x : JobRow) → (f x).job_id ≡ x.job_id)
      → (r.job_id ≡ j → q r ≡ true → Move env r (f r) e)
      → Moved env e k r (asserting db (update_job j q f)).1
  update_job-Moved j q f keeps may = elim selected [
    | inl kept ↦ (r, kept, inl refl)
    | inr (this, can, set) ↦ (f r, set, inr (may this can))
  ]
    where
      selected :
          let db' = (asserting db (update_job j q f)).1 in
          (select_job k db'.jobs ≡ some r)
          ⊎ ((r.job_id ≡ j) × (q r ≡ true) × (select_job k db'.jobs ≡ some (f r)))
      selected =
          unfold update_job in
          ground (
            arith,
            lookup-update job_key (λ x. has_job_id j x && q x) f keeps k db.jobs,
            eq_iff r.job_id j,
          )

  finish_attempt-Moved :
      (j worker : String) (current : Float) (attempt : AttemptFinished) (utc : String)
      → (r.job_id ≡ j
          → owns_attempt worker current attempt.attempt r ≡ true
          → Move env r (set_finished completed (env.attempt_json attempt) utc r) e)
      → Moved env e k r (asserting db (finish_attempt_rows env j worker current attempt utc)).1
  finish_attempt-Moved j worker current attempt utc may = elim selected [
    | inl kept ↦ (r, kept, inl refl)
    | inr (this, can, set) ↦
        (set_finished completed (env.attempt_json attempt) utc r, set, inr (may this can))
  ]
    where
      selected :
          let q = owns_attempt worker current attempt.attempt in
          let f = set_finished completed (env.attempt_json attempt) utc in
          let db' = (asserting db (finish_attempt_rows env j worker current attempt utc)).1 in
          (select_job k db'.jobs ≡ some r)
          ⊎ ((r.job_id ≡ j) × (q r ≡ true) × (select_job k db'.jobs ≡ some (f r)))
      selected =
          unfold finish_attempt_rows in
          ground (
            arith,
            lookup-update job_key
                (λ x. has_job_id j x && owns_attempt worker current attempt.attempt x)
                (set_finished completed (env.attempt_json attempt) utc) (λ _. refl) k db.jobs,
            eq_iff r.job_id j,
          )

  claim_row-Moved :
      (worker : String) (current expires : Float) (utc : String)
      → Unique job_key db.jobs
      → (IsClaimable current r → Move env r (claimed_row worker expires utc r) e)
      → (o : Option JobRow) → first_claimable current db.jobs ≡ o
      → Moved env e k r (claiming db (λ db. claim_row worker expires utc db o)).1
  unfolding claim_row
  claim_row-Moved worker current expires utc u may none _ = (r, h, inl refl)
  claim_row-Moved worker current expires utc u may (some c) first =
      let found = lookup-first_claimable current db.jobs c u first in
      let can = first_claimable-claimable current db.jobs c first in
      elim (claim_row-select worker current expires utc db c found k r h) [
        | inl kept ↦ (r, kept, inl refl)
        | inr (this, set) ↦ (
          set_claimed worker expires utc r,
          set,
          inr (may (claimable-IsClaimable current r (rw this at can))),
        )
      ]

-- The row with a new end of its lease, where the lease is the worker's.
set_lease-extended_row :
    (worker : String) (current expires : Float) (utc : String) (r : JobRow)
    → HasLease worker current r
    → set_lease expires utc r ≡ extended_row worker expires utc r
set_lease-extended_row worker current expires utc r h = ground (arith, h.busy, h.owner)

-- Whatever the call, a job that is in the queue stays in it, as it was or with the move of the call: a
-- claim takes a job that waits or whose lease has ended, and gives it the worker's name, the lease's end
-- and one more attempt; heartbeat, complete, fail and finish_attempt need the named job's running lease
-- of the named worker, and give it a new end, or end the job as completed or as failed with the given
-- result and no lease; finish_attempt also needs a coding job and its current attempt. Every other field
-- is kept.
pub step-Move :
    (env : Env) (e : Event) (db : Db)
    → Unique job_key db.jobs
    → (k : String) (r : JobRow) → select_job k db.jobs ≡ some r
    → Moved env e k r (step env e db)
unfolding step Queue.enqueue Queue.claim Queue.heartbeat Queue.complete Queue.fail
    Queue.finish_attempt Queue.finish
step-Move env (enqueue kind payload key job_id m) db u k r h =
    checked-Moved env (enqueue kind payload key job_id m) db k r h (enqueue_args kind key) _
      λ (kd, ky) _.
        (r, enqueue_row-select (new_job job_id ky kd (env.dumps payload) m.utc) db k r h, inl refl)
step-Move env (claim worker seconds m) db u k r h =
    let e = claim worker seconds m in
    checked-Moved env e db k r h (claim_args env worker seconds m) _ λ a ok_args.
      let valid = claim_args-ok env "" worker seconds m a ok_args in
      claim_row-Moved env e db k r h a.0 a.1 a.2 m.utc u
        (rw valid (λ can. claims worker seconds m can refl)) _ refl
step-Move env (heartbeat job worker seconds m) db u k r h =
    let e = heartbeat job worker seconds m in
    checked-Moved env e db k r h (heartbeat_args env job worker seconds m) _ λ a ok_args.
      let valid = heartbeat_args-ok env job worker seconds m a ok_args in
      update_job-Moved env e db k r h a.0 _ _ (λ _. refl)
        (rw valid (λ this can.
          let lease = holds_lease-HasLease (strip worker) (current_time m) r can in
          extends job worker seconds m this lease
            (set_lease-extended_row (strip worker) (current_time m) _ m.utc r lease)))
step-Move env (complete job worker result m) db u k r h =
    let e = complete job worker result m in
    checked-Moved env e db k r h (finish_args job worker m) _ λ a ok_args.
      let valid = finish_args-ok env job worker m.clock m a ok_args in
      update_job-Moved env e db k r h a.0 _ _ (λ _. refl)
        (rw valid (λ this can.
          completes job worker result m this
            (holds_lease-HasLease (strip worker) (current_time m) r can) refl))
step-Move env (fail job worker result m) db u k r h =
    let e = fail job worker result m in
    checked-Moved env e db k r h (finish_args job worker m) _ λ a ok_args.
      let valid = finish_args-ok env job worker m.clock m a ok_args in
      update_job-Moved env e db k r h a.0 _ _ (λ _. refl)
        (rw valid (λ this can.
          fails job worker result m this
            (holds_lease-HasLease (strip worker) (current_time m) r can) refl))
step-Move env (finish_attempt job worker attempt m) db u k r h =
    let e = finish_attempt job worker attempt m in
    checked-Moved env e db k r h (finish_attempt_args job worker attempt m) _ λ a ok_args.
      let valid = finish_attempt_args-ok env job worker m.clock m attempt a ok_args in
      finish_attempt-Moved env e db k r h a.0 a.1 a.2 attempt m.utc (
        rw valid (λ this can.
          attempted job worker attempt m this (ground (arith, eq_iff r.kind "coding-agent"))
            (ground (arith)) (holds_lease-HasLease (strip worker) (current_time m) r (ground arith))
            refl))
