-- ===== src/Queue/Contract/Calls.antt =====
-- What `claim`, `heartbeat`, `complete` and `fail` answer and write, by the arguments as they are given.
use mathlib.Core.Path.{subst}
use sisyphus_harness.Prelude.{
  String, ◌≡◌, refl, sym, ◌∙◌, ◌⊎◌, inl, inr, true, false, ◌&&◌, Option, none, some, arith, eq_iff,
  ◌==◌, if◌then◌else◌, Bool-cases, All,
}
use sisyphus_harness.Prelude.Float.{Float, is_finite}
use sisyphus_harness.Prelude.Text.{strip, text_le}
use sisyphus_harness.Contracts.Json.{Json}
use sisyphus_harness.Database.{
  JobStatus, completed, failed, JobRow, Db, lease_error, ok, err, Outcome,
}
use sisyphus_harness.Database.Rows.{Unique, update, lookup_key, All-map}
use sisyphus_harness.Queue
use sisyphus_harness.Queue.{
  job_key, select_job, set_claimed, set_lease, set_finished, holds_lease, has_job_id,
}
use sisyphus_harness.Queue.Args.{Env, Moment, current_time}
use sisyphus_harness.Queue.Order.{claimable}
use sisyphus_harness.Queue.Selection.{Before}
use sisyphus_harness.Queue.Leases.{
  ClaimResult, idle, took, claim-ClaimResult, finish_lem, heartbeat_lem,
}
use sisyphus_harness.Queue.Contract.{
  claimed_row, extended_row, ended_row, HasLease, IsClaimable, replace_job, IsName, HasWindow,
  HasLease-holds_lease, holds_lease-HasLease, claimable-IsClaimable, IsClaimable-claimable,
  finish_args_lem, heartbeat_args_lem, claim_args_lem, update-replace_job,
}

-- The row is returned, and stored in place of the one with its identifier; nothing else is written.
abbrev pub stored : JobRow → Db → Outcome JobRow
stored row db = (ok row, record db { jobs = replace_job row db.jobs })

-- Under the lease, the row is returned and stored; without it, a lease error is raised and nothing is
-- written.
abbrev pub Fenced : String → Float → JobRow → JobRow → Db → Outcome JobRow → Type 0
Fenced worker current r row db out =
    (HasLease worker current r × (out ≡ stored row db))
    ⊎ ((¬ HasLease worker current r) × (out ≡ (err lease_error, db)))

fenced :
    (j worker : String) (current : Float) (f : JobRow → JobRow) (r row : JobRow) (db : Db)
    (out : Outcome JobRow)
    → ((x : JobRow) → (f x).job_id ≡ x.job_id)
    → (HasLease worker current r → f r ≡ row)
    → Unique job_key db.jobs
    → select_job j db.jobs ≡ some r
    → out ≡ (
        if holds_lease worker current r
        then (
          ok (f r),
          record db {
            jobs = update (λ x. has_job_id j x && holds_lease worker current x) f db.jobs;
          },
        )
        else (err lease_error, db))
    → Fenced worker current r row db out
fenced j worker current f r row db out keeps writes u h e =
    elim (Bool-cases (holds_lease worker current r)) [
      | inl can ↦
          let lease = holds_lease-HasLease worker current r can in
          let named : r.job_id ≡ j = lookup_key job_key j db.jobs r h in
          let replaced =
            update-replace_job (λ x. has_job_id j x && holds_lease worker current x) f r
              (λ x at_x. ground (arith, eq_iff x.job_id j)) (keeps r)
              (ground (arith, eq_iff r.job_id j)) db.jobs u
              (subst (λ i. select_job i db.jobs ≡ some r) (sym named) h) in
          inl (lease, e ∙ ground (arith, replaced, writes lease))
      | inr cannot ↦ inr (
        (λ lease. absurd (ground (arith, HasLease-holds_lease worker current r lease))),
        e ∙ ground arith,
      )
    ]

module _ (env : Env) (job_id worker_id : String) (m : Moment) (db : Db) (r : JobRow)
    (named : IsName job_id) (known : IsName worker_id) (u : Unique job_key db.jobs)
    (h : select_job (strip job_id) db.jobs ≡ some r) where
  -- On a job that is in the queue, with names that are not blank and a time and an end of the lease that
  -- are finite, `heartbeat` of the worker whose running lease has not ended returns the row with the new
  -- end of the lease and the time of the call, all else kept, and stores it in place of the old one, and
  -- nothing else; of any other worker, or after the lease has ended, it raises a lease error and writes
  -- nothing.
  pub heartbeat-Fenced :
      (seconds : Float)
      → HasWindow env seconds m
      → Fenced
          (strip worker_id)
          (current_time m)
          r
          (extended_row (strip worker_id) (env.add (current_time m) seconds) m.utc r)
          db
          (Queue.heartbeat env job_id worker_id seconds m db)
  heartbeat-Fenced seconds window =
      let expires = env.add (current_time m) seconds in
      fenced (strip job_id) (strip worker_id) (current_time m) (set_lease expires m.utc) r _ db _
        (λ _. refl) (λ lease. ground (arith, lease.busy, lease.owner)) u h
        (heartbeat_lem env db u job_id worker_id seconds m
          (heartbeat_args_lem env job_id worker_id seconds m named known window) r h)

  ended-Fenced :
      (status : JobStatus) (result : Json)
      → is_finite (current_time m) ≡ true
      → Fenced
          (strip worker_id)
          (current_time m)
          r
          (ended_row status (env.dumps result) m.utc r)
          db
          (Queue.finish env status job_id worker_id result m db)
  ended-Fenced status result timed =
      fenced (strip job_id) (strip worker_id) (current_time m)
        (set_finished status (env.dumps result) m.utc) r _ db _ (λ _. refl) (λ _. refl) u h
        (finish_lem env db u status job_id worker_id result m
          (finish_args_lem env job_id worker_id m.clock m named known timed) r h)

  -- On a job that is in the queue, with names that are not blank and a finite time, `complete` of the
  -- worker whose running lease has not ended returns the row as completed, with the result, no lease and
  -- the time of the call, all else kept, and stores it in place of the old one, and nothing else; `fail`
  -- does the same with the row as failed. Of any other worker, or after the lease has ended, both raise a
  -- lease error and write nothing.
  pub complete-fail-Fenced :
      (result : Json)
      → is_finite (current_time m) ≡ true
      → Fenced
          (strip worker_id)
          (current_time m)
          r
          (ended_row completed (env.dumps result) m.utc r)
          db
          (Queue.complete env job_id worker_id result m db)
        × Fenced
            (strip worker_id)
            (current_time m)
            r
            (ended_row failed (env.dumps result) m.utc r)
            db
            (Queue.fail env job_id worker_id result m db)
  unfolding Queue.complete Queue.fail
  complete-fail-Fenced result timed =
      (ended-Fenced completed result timed, ended-Fenced failed result timed)

-- The job was created before the other, or at the same time and has the lesser identifier, or is it.
abbrev pub IsNoLater : JobRow → JobRow → Type 0
IsNoLater c r =
    ((c.created_at ≡ r.created_at) × (text_le c.job_id r.job_id ≡ true))
    ⊎ ((¬ (c.created_at ≡ r.created_at)) × (text_le c.created_at r.created_at ≡ true))

-- What `claim` may answer.
pub data Answer (worker : String) (current expires : Float) (utc : String) (db : Db)
    (out : Outcome (Option JobRow)) : Type 0 where
  nothing :
      All (λ r. ¬ IsClaimable current r) db.jobs
      → out ≡ (ok none, db)
      → Answer worker current expires utc db out
  leased :
      (c : JobRow)
      → select_job c.job_id db.jobs ≡ some c
      → IsClaimable current c
      → All (λ r. (¬ IsClaimable current r) ⊎ IsNoLater c r) db.jobs
      → (let row = claimed_row worker expires utc c in
          out ≡ (ok (some row), record db { jobs = replace_job row db.jobs }))
      → Answer worker current expires utc db out

not_claimable :
    (current : Float) (r : JobRow) → claimable current r ≡ false → ¬ IsClaimable current r
not_claimable current r out can = absurd (ground (arith, out, IsClaimable-claimable current r can))

Before-IsNoLater :
    (current : Float) (c r : JobRow)
    → Before current c r
    → (¬ IsClaimable current r) ⊎ IsNoLater c r
Before-IsNoLater current c r (inl out) = inl (not_claimable current r out)
Before-IsNoLater current c r (inr le) = elim (Bool-cases (c.created_at == r.created_at)) [
  | inl same ↦ inr (inl (ground (arith, eq_iff c.created_at r.created_at), ground arith))
  | inr other ↦ inr (
      inr ((λ same. absurd (ground (arith, same, eq_iff c.created_at r.created_at))), ground arith))
]

ClaimResult-Answer :
    (worker : String) (current expires : Float) (utc : String) (db : Db)
    (out : Outcome (Option JobRow))
    → Unique job_key db.jobs
    → ClaimResult worker current expires utc db out
    → Answer worker current expires utc db out
ClaimResult-Answer worker current expires utc db out u (idle none_of e) =
    nothing
      (All-map (λ r. claimable current r ≡ false) (λ r. ¬ IsClaimable current r)
        (not_claimable current) db.jobs none_of)
      e
ClaimResult-Answer worker current expires utc db out u (took c found can first e) =
    let f : JobRow → JobRow = set_claimed worker expires utc in
    let replaced =
      update-replace_job (has_job_id c.job_id) f c
        (λ x at_x. ground (arith, eq_iff x.job_id c.job_id)) refl
        (ground (arith, eq_iff c.job_id c.job_id)) db.jobs u found in
    leased c found (claimable-IsClaimable current c can)
      (All-map (Before current c) (λ r. (¬ IsClaimable current r) ⊎ IsNoLater c r)
        (Before-IsNoLater current c) db.jobs first)
      (e ∙ ground (arith, replaced))

-- With a worker's name that is not blank and a time and an end of the lease that are finite, `claim`
-- takes, of the jobs that wait or whose lease has ended, the first in the order of creation time and
-- identifier: it returns its row as running under the worker's lease until the new end, with one more
-- attempt and the time of the call, all else kept, and stores it in place of the old one, and nothing
-- else. Where there is no such job it returns none and writes nothing.
pub claim-Answer :
    (env : Env) (worker_id : String) (seconds : Float) (m : Moment) (db : Db)
    → IsName worker_id
    → HasWindow env seconds m
    → Unique job_key db.jobs
    → Answer
        (strip worker_id)
        (current_time m)
        (env.add (current_time m) seconds)
        m.utc
        db
        (Queue.claim env worker_id seconds m db)
claim-Answer env worker_id seconds m db known window u =
    ClaimResult-Answer (strip worker_id) (current_time m) (env.add (current_time m) seconds) m.utc
      db _ u
      (claim-ClaimResult env worker_id seconds m db (strip worker_id) (current_time m)
        (env.add (current_time m) seconds) (claim_args_lem env "" worker_id seconds m known window)
        u)
