-- ===== src/Queue/Requests.antt =====
-- Requests: `enqueue` binds an idempotency key to one job, for good.
use mathlib.Core.Path.{subst}
use sisyphus_harness.Prelude.{
  String, ◌≡◌, inl, inr, true, ◌&&◌, Option, none, some, List, [], ◌∷◌, ◌++◌, arith, ◌==◌, eq_iff,
  eq_refl, if◌then◌else◌, Bool-cases, is_some, ◌∙◌, sym, ap,
}
use sisyphus_harness.Contracts.Json.{Json}
use sisyphus_harness.Database.{
  JobRow, Db, idempotency_conflict, integrity_error, ok, err, Outcome, Result-cases,
}
use sisyphus_harness.Database.Rows.{lookup, lookup-update, lookup-append, All-lookup}
use sisyphus_harness.Queue.{request_key, select_job, new_job, enqueue_row, enqueue}
use sisyphus_harness.Queue.Args.{Env, Moment, enqueue_args}
use sisyphus_harness.Queue.Machine.{Event, step, run, JobStep, stay, claimed, extended, finished}
use sisyphus_harness.Queue.Tables.{TableStep, unchanged, updated, inserted, step-TableStep}
use sisyphus_harness.Queue.Invariant.{IsWellFormed, step-IsWellFormed}

-- What `enqueue` answers, given the job that its key is bound to.
abbrev pub enqueued : JobRow → Db → Option JobRow → Outcome JobRow
enqueued row db (some stored) =
    if stored.kind == row.kind && stored.payload_json == row.payload_json
    then (ok stored, db)
    else (err idempotency_conflict, db)
enqueued row db none =
    if is_some (select_job row.job_id db.jobs)
    then (err integrity_error, db)
    else (ok row, record db { jobs = db.jobs ++ row ∷ [] })

pub enqueue_row_lem :
    (row : JobRow) (db : Db)
    → enqueue_row row db ≡ enqueued row db (lookup request_key row.idempotency_key db.jobs)
unfolding enqueue_row
enqueue_row_lem row db = ground (
  arith,
  lookup-append request_key row.idempotency_key db.jobs (row ∷ []),
  fresh,
  eq_refl row.kind,
  eq_refl row.payload_json,
)
  where
    fresh : lookup request_key row.idempotency_key (row ∷ []) ≡ some row
    fresh = unfold lookup in ground (arith, eq_refl row.idempotency_key)

-- `enqueue` in full, on arguments that pass its tests. A key that is bound: the bound job is returned if
-- its kind and payload are the request's, else an idempotency conflict is raised; nothing is written. A
-- new key: a queued job with no lease and no attempt is appended and returned, unless the new identifier
-- is taken, which is an integrity error and writes nothing.
pub enqueue_lem :
    (env : Env) (kind : String) (payload : Json) (key job_id : String) (m : Moment) (db : Db)
    (k ky : String)
    → enqueue_args kind key ≡ ok (k, ky)
    → let row = new_job job_id ky k (env.dumps payload) m.utc in
      enqueue env kind payload key job_id m db ≡ enqueued row db (lookup request_key ky db.jobs)
unfolding enqueue
enqueue_lem env kind payload key job_id m db k ky args =
    rw args (enqueue_row_lem (new_job job_id ky k (env.dumps payload) m.utc) db)

-- The fields that identify a job and its request.
pub record SameRequest (r r' : JobRow) : Type 0 where
  pub id : r'.job_id ≡ r.job_id
  pub key : r'.idempotency_key ≡ r.idempotency_key
  pub kind : r'.kind ≡ r.kind
  pub payload : r'.payload_json ≡ r.payload_json
  pub created : r'.created_at ≡ r.created_at

pub JobStep-SameRequest : (r r' : JobRow) → JobStep r r' → SameRequest r r'
JobStep-SameRequest r r' (stay e) = ground arith
JobStep-SameRequest r r' (claimed w c x utc can e) = ground arith
JobStep-SameRequest r r' (extended w c x utc can e) = ground arith
JobStep-SameRequest r r' (finished w c status result utc can which e) = ground arith

-- A key stays bound to its request.
abbrev pub Bound : String → JobRow → List JobRow → Type 0
Bound k r jobs = (r' : JobRow) × (lookup request_key k jobs ≡ some r') × SameRequest r r'

TableStep-Bound :
    (jobs jobs' : List JobRow)
    → TableStep jobs jobs'
    → (k : String) (r : JobRow) → lookup request_key k jobs ≡ some r
    → Bound k r jobs'
TableStep-Bound jobs jobs' (unchanged e) k r h = (r, rw e h, ground arith)
TableStep-Bound jobs jobs' (updated p f ids keys may e) k r h =
    let may_r = All-lookup (λ r. p r ≡ true → JobStep r (f r)) request_key k jobs r may h in
    elim (Bool-cases (p r)) [
      | inl can ↦ (
        f r,
        ground (arith, lookup-update request_key p f keys k jobs),
        JobStep-SameRequest r (f r) (may_r can),
      )
      | inr cannot ↦ (r, ground (arith, lookup-update request_key p f keys k jobs), ground arith)
    ]
TableStep-Bound jobs jobs' (inserted id key kind json utc no_key no_id e) k r h = (
  r,
  ground (arith, lookup-append request_key k jobs (new_job id key kind json utc ∷ [])),
  ground arith,
)

pub SameRequest-trans : (a b c : JobRow) → SameRequest a b → SameRequest b c → SameRequest a c
SameRequest-trans a b c h k = ground arith

run-Bound :
    (env : Env) (events : List Event) (db : Db)
    → IsWellFormed db
    → (k : String) (r : JobRow) → lookup request_key k db.jobs ≡ some r
    → Bound k r (run env events db).jobs
unfolding run
run-Bound env [] db w k r h = (r, h, ground arith)
run-Bound env (e ∷ events) db w k r h =
    let next = step env e db in
    let (r', h', s) =
      TableStep-Bound db.jobs next.jobs (step-TableStep env e db w.unique_ids) k r h in
    let (r'', h'', s') = run-Bound env events next (step-IsWellFormed env e db w) k r' h' in
    (r'', h'', SameRequest-trans r r' r'' s s')

bound_after :
    (row : JobRow) (db : Db) (r : JobRow)
    → (enqueue_row row db).0 ≡ ok r
    → (lookup request_key row.idempotency_key (enqueue_row row db).1.jobs ≡ some r)
      × (r.kind ≡ row.kind)
      × (r.payload_json ≡ row.payload_json)
unfolding enqueue_row
bound_after row db r h = ground (
  arith,
  lookup-append request_key row.idempotency_key db.jobs (row ∷ []),
  eq_iff r.kind row.kind,
  eq_iff r.payload_json row.payload_json,
)

again :
    (row' : JobRow) (db : Db) (r : JobRow)
    → lookup request_key row'.idempotency_key db.jobs ≡ some r
    → r.kind ≡ row'.kind
    → r.payload_json ≡ row'.payload_json
    → enqueue_row row' db ≡ (ok r, db)
again row' db r h k p =
    enqueue_row_lem row' db
    ∙ ground (arith, eq_iff r.kind row'.kind, eq_iff r.payload_json row'.payload_json)

module _ (env : Env) (kind : String) (payload : Json) (key job_id : String) (m : Moment)
    (db : Db) where
  enqueue_valid :
      (k ky : String)
      → enqueue_args kind key ≡ ok (k, ky)
      → enqueue env kind payload key job_id m db
        ≡ enqueue_row (new_job job_id ky k (env.dumps payload) m.utc) db
  unfolding enqueue
  enqueue_valid k ky args = rw args

  enqueue_ok_args :
      (r : JobRow)
      → (enqueue env kind payload key job_id m db).0 ≡ ok r
      → (a : String × String) × (enqueue_args kind key ≡ ok a)
  unfolding enqueue
  enqueue_ok_args r h = elim (Result-cases (enqueue_args kind key)) [
    | inl (a, e) ↦ (a, e)
    | inr (x, e) ↦ absurd (ground arith)
  ]

  enqueue_wf : IsWellFormed db → IsWellFormed (enqueue env kind payload key job_id m db).1
  unfolding step
  enqueue_wf w = step-IsWellFormed env (Event.enqueue kind payload key job_id m) db w

-- Once `enqueue` has returned a job, the same request, made again after any calls of any workers and
-- with whatever new identifier and time, writes nothing and returns the same job: the one with that
-- identifier, kind, payload and creation time.
pub enqueue_again :
    (env : Env) (kind : String) (payload : Json) (key job_id job_id' : String) (m m' : Moment)
    (db : Db) (r : JobRow) (events : List Event)
    → IsWellFormed db
    → (enqueue env kind payload key job_id m db).0 ≡ ok r
    → let later = run env events (enqueue env kind payload key job_id m db).1 in
      (r' : JobRow) × (enqueue env kind payload key job_id' m' later ≡ (ok r', later))
      × SameRequest r r'
enqueue_again env kind payload key job_id job_id' m m' db r events w h =
    let ((k, ky), args) = enqueue_ok_args env kind payload key job_id m db r h in
    let row = new_job job_id ky k (env.dumps payload) m.utc in
    let row' = new_job job_id' ky k (env.dumps payload) m'.utc in
    let first = enqueue_valid env kind payload key job_id m db k ky args in
    let (b, kd, pl) = bound_after row db r (sym (ap (λ (o : Outcome JobRow). o.0) first) ∙ h) in
    let db1 = (enqueue env kind payload key job_id m db).1 in
    let bound =
      subst (λ (o : Outcome JobRow). lookup request_key ky o.1.jobs ≡ some r) (sym first) b in
    let w1 = enqueue_wf env kind payload key job_id m db w in
    let (r', found, s) = run-Bound env events db1 w1 ky r bound in
    let later = run env events db1 in
    let second = enqueue_valid env kind payload key job_id' m' later k ky args in
    (r', second ∙ again row' later r' found (s.kind ∙ kd) (s.payload ∙ pl), s)
