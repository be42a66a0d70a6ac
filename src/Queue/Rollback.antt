-- ===== src/Queue/Rollback.antt =====
-- A call that raises writes nothing.
use sisyphus_harness.Prelude.{
  String, ◌≡◌, refl, Option, none, some, arith, ◌⊎◌, inl, inr, Bool, true, false, ◌&&◌, List, [],
  ◌∷◌, ◌==◌, eq_refl, Option-cases, Bool-cases, ap,
}
use sisyphus_harness.Prelude.Float.{Float}
use sisyphus_harness.Contracts.{AttemptFinished}
use sisyphus_harness.Contracts.Json.{Json}
use sisyphus_harness.Database.{
  JobStatus, completed, failed, JobRow, Db, Result, ok, err, Outcome, transaction, checked,
  Result-cases,
}
use sisyphus_harness.Database.Rows.{lookup, lookup-update, count-by_key-none}
use sisyphus_harness.Queue
use sisyphus_harness.Queue.{
  asserting, claiming, job_key, select_job, has_job_id, owns_attempt, set_claimed, request_key,
  enqueue_row, new_job, claim_row, update_job, finish_attempt_rows, holds_lease, set_lease,
  set_finished,
}
use sisyphus_harness.Queue.Order.{first_claimable, claimable, row_le}
use sisyphus_harness.Queue.Args.{
  Env, Moment, enqueue_args, claim_args, heartbeat_args, finish_args, finish_attempt_args,
}
use sisyphus_harness.Queue.Requests.{enqueued, enqueue_row_lem}

-- An outcome that is no error, or that leaves the database as it was.
abbrev pub is_ok : {A : Type 0} → Result A → Bool
is_ok (ok _) = true
is_ok (err _) = false

abbrev pub RollsBack : {A : Type 0} → Db → Outcome A → Type 0
RollsBack db out = (is_ok out.0 ≡ true) ⊎ (out.1 ≡ db)

transaction-RollsBack :
    {A : Type 0} (db : Db) (body : Db → Result (A × Db)) → RollsBack db (transaction db body)
transaction-RollsBack db body = elim (Result-cases (body db)) [
  | inl (a, e) ↦ inl (ground arith)
  | inr (x, e) ↦ inr (ground arith)
]

checked-RollsBack :
    {A B : Type 0} (args : Result A) (db : Db) (f : A → Outcome B)
    → ((a : A) → RollsBack db (f a))
    → RollsBack db (checked args db f)
checked-RollsBack (ok a) db f go = go a
checked-RollsBack (err e) db f go = inr refl

-- The `assert` after an UPDATE never fails: the row that was counted is there.
update_job-RollsBack :
    (j : String) (q : JobRow → Bool) (f : JobRow → JobRow)
    → ((r : JobRow) → (f r).job_id ≡ r.job_id)
    → (db : Db) → RollsBack db (asserting db (update_job j q f))
unfolding update_job
update_job-RollsBack j q f keeps db = ground (
  arith,
  count-by_key-none job_key j q db.jobs,
  lookup-update job_key (λ r. has_job_id j r && q r) f keeps j db.jobs,
)

finish_attempt-RollsBack :
    (env : Env) (j worker : String) (current : Float) (attempt : AttemptFinished) (utc : String)
    (db : Db)
    → RollsBack db (asserting db (finish_attempt_rows env j worker current attempt utc))
unfolding finish_attempt_rows
finish_attempt-RollsBack env j worker current attempt utc db =
    let q = owns_attempt worker current attempt.attempt in
    ground (
      arith,
      count-by_key-none job_key j q db.jobs,
      lookup-update job_key (λ r. has_job_id j r && q r)
          (set_finished completed (env.attempt_json attempt) utc) (λ _. refl) j db.jobs,
    )

-- The job that `claim` selects is one of the table.
first_claimable-stored :
    (k : String) (current : Float) (rows : List JobRow) (c : JobRow)
    → select_job k rows ≡ none
    → first_claimable current rows ≡ some c
    → (c.job_id == k) ≡ false
unfolding first_claimable lookup
first_claimable-stored k current [] c h e = absurd cc
first_claimable-stored k current (r ∷ rows) c h e =
    elim (Option-cases (first_claimable current rows)) [
      | inl alone ↦ ground arith
      | inr (s, found) ↦
          let other = first_claimable-stored k current rows s (ground arith) found in
          elim (Bool-cases (claimable current r)) [
            | inl can ↦ elim (Bool-cases (row_le r s)) [
              | inl before ↦ let this : r ≡ c = ground arith in ground (arith, ap job_key this)
              | inr after ↦ let this : s ≡ c = ground arith in ground (arith, ap job_key this)
            ]
            | inr cannot ↦ let this : s ≡ c = ground arith in ground (arith, ap job_key this)
          ]
    ]

-- So neither does the `assert` of `claim`.
claim_row-RollsBack :
    (worker : String) (current expires : Float) (utc : String) (db : Db) (o : Option JobRow)
    → first_claimable current db.jobs ≡ o
    → RollsBack db (claiming db (λ db. claim_row worker expires utc db o))
unfolding claim_row
claim_row-RollsBack worker current expires utc db none e = inl refl
claim_row-RollsBack worker current expires utc db (some c) e = ground (
  arith,
  first_claimable-stored c.job_id current db.jobs c,
  eq_refl c.job_id,
  lookup-update job_key (has_job_id c.job_id) (set_claimed worker expires utc) (λ _. refl) c.job_id
      db.jobs,
)

enqueued-RollsBack : (row : JobRow) (db : Db) (o : Option JobRow) → RollsBack db (enqueued row db o)
enqueued-RollsBack row db none = ground arith
enqueued-RollsBack row db (some r) = ground arith

enqueue_row-RollsBack : (row : JobRow) (db : Db) → RollsBack db (enqueue_row row db)
enqueue_row-RollsBack row db =
    rw enqueue_row_lem (enqueued-RollsBack row db (lookup request_key row.idempotency_key db.jobs))

-- Each of the six operations, when it raises (a bad argument, an idempotency conflict, a lost lease, a
-- constraint), leaves the database exactly as it was; `enqueue` too, whose conflict is raised after its
-- transaction.
pub errors_write_nothing :
    (env : Env) (db : Db) (job_id worker_id kind key : String) (payload result : Json)
    (seconds : Float) (attempt : AttemptFinished) (m : Moment)
    → RollsBack db (Queue.enqueue env kind payload key job_id m db)
      × RollsBack db (Queue.claim env worker_id seconds m db)
      × RollsBack db (Queue.heartbeat env job_id worker_id seconds m db)
      × RollsBack db (Queue.complete env job_id worker_id result m db)
      × RollsBack db (Queue.fail env job_id worker_id result m db)
      × RollsBack db (Queue.finish_attempt env job_id worker_id attempt m db)
unfolding Queue.enqueue Queue.claim Queue.heartbeat Queue.complete Queue.fail Queue.finish_attempt
    Queue.finish
errors_write_nothing env db job_id worker_id kind key payload result seconds attempt m =
    let finished = λ (status : JobStatus) (a : String × String × Float).
      update_job-RollsBack a.0 (holds_lease a.1 a.2) (set_finished status (env.dumps result) m.utc)
        (λ _. refl) db in
    (
      checked-RollsBack (enqueue_args kind key) db _
          λ (k, ky). enqueue_row-RollsBack (new_job job_id ky k (env.dumps payload) m.utc) db,
      checked-RollsBack (claim_args env worker_id seconds m) db _
          λ (w, current, expires). claim_row-RollsBack w current expires m.utc db _ refl,
      checked-RollsBack (heartbeat_args env job_id worker_id seconds m) db _
          λ (j, w, current, expires).
            update_job-RollsBack j (holds_lease w current) (set_lease expires m.utc) (λ _. refl) db,
      checked-RollsBack (finish_args job_id worker_id m) db _ (finished completed),
      checked-RollsBack (finish_args job_id worker_id m) db _ (finished failed),
      checked-RollsBack (finish_attempt_args job_id worker_id attempt m) db _
          λ (j, w, current). finish_attempt-RollsBack env j w current attempt m.utc db,
    )
