-- ===== src/Queue.antt =====
-- queue.py: `JobQueue`. An operation takes the database and returns its result, or its exception, and
-- the database that it leaves. The SQL statements are written as functions on the rows.
pub mod Args
pub mod Order
pub mod Selection
pub mod Machine
pub mod Tables
pub mod Lineage
pub mod Invariant
pub mod Leases
pub mod Fencing
pub mod Requests
pub mod Histories
pub mod Rollback
pub mod Contract
mod Samples
use sisyphus_harness.Prelude.{
  ℕ, ◌+◌, String, Bool, false, not, ◌&&◌, ◌||◌, Option, none, some, List, [], ◌∷◌, ◌++◌, ◌==◌,
  if◌then◌else◌, eqb, ltb, any, count_if, is_some,
}
use sisyphus_harness.Prelude.Float.{Float, float_lt}
use sisyphus_harness.Contracts.{AttemptFinished}
use sisyphus_harness.Contracts.Json.{Json}
use sisyphus_harness.Database.{
  JobStatus, queued, running, completed, failed, is_running, JobRow, AttemptRow, Db, lease_error,
  idempotency_conflict, integrity_error, assertion_error, Result, ok, err, ◌>>=◌, ◌>>◌, require,
  Outcome, transaction, checked,
}
use sisyphus_harness.Database.Rows.{update, lookup}
use Args.{Env, Moment, enqueue_args, claim_args, heartbeat_args, finish_args, finish_attempt_args}
use Order.{first_claimable}

abbrev pub job_key : JobRow → String
job_key r = r.job_id

abbrev pub request_key : JobRow → String
request_key r = r.idempotency_key

-- SELECT * FROM jobs WHERE job_id = ?
abbrev pub select_job : String → List JobRow → Option JobRow
select_job = lookup job_key

abbrev pub fetched : Option JobRow → Result JobRow
fetched none = err assertion_error
fetched (some r) = ok r

-- INSERT INTO jobs … ON CONFLICT(idempotency_key) DO NOTHING
unfoldable pub insert_job : JobRow → List JobRow → Result (List JobRow)
insert_job row jobs =
    if is_some (lookup request_key row.idempotency_key jobs)
    then ok jobs
    else if is_some (select_job row.job_id jobs)
    then err integrity_error
    else ok (jobs ++ row ∷ [])

abbrev pub new_job : String → String → String → String → String → JobRow
new_job job_id key kind payload_json utc = record {
  job_id = job_id;
  idempotency_key = key;
  kind = kind;
  payload_json = payload_json;
  status = queued;
  lease_owner = none;
  lease_expires_at = none;
  attempts = 0;
  result_json = none;
  created_at = utc;
  updated_at = utc;
}

-- A transaction, and the `assert` on the row that it has fetched, which comes after its commit.
abbrev pub asserting : Db → (Db → Result (Option JobRow × Db)) → Outcome JobRow
asserting db body = let (r, db') = transaction db body in (r >>= fetched, db')

unfoldable pub enqueue_rows : JobRow → Db → Result (Option JobRow × Db)
unfolding insert_job
enqueue_rows row db = do
  jobs ← insert_job row db.jobs
  ok (lookup request_key row.idempotency_key jobs, record db { jobs = jobs })

-- The test after the transaction of `enqueue`.
unfoldable pub same_request : JobRow → JobRow → Result JobRow
same_request row stored = do
  require (stored.kind == row.kind && stored.payload_json == row.payload_json) idempotency_conflict
  ok stored

unfoldable pub enqueue_row : JobRow → Db → Outcome JobRow
unfolding enqueue_rows same_request
enqueue_row row db = let (r, db') = asserting db (enqueue_rows row) in (r >>= same_request row, db')

-- `JobQueue.enqueue`, with `job_id` the new identifier `job-<uuid4>`.
unfoldable pub enqueue : Env → String → Json → String → String → Moment → Db → Outcome JobRow
unfolding enqueue_row enqueue_args
enqueue env kind payload idempotency_key job_id m db =
    checked (enqueue_args kind idempotency_key) db
      λ (k, key). enqueue_row (new_job job_id key k (env.dumps payload) m.utc) db

-- SET status = 'running', lease_owner, lease_expires_at, attempts + 1, updated_at
abbrev pub set_claimed : String → Float → String → JobRow → JobRow
set_claimed worker expires utc r = record r {
  status = running;
  lease_owner = some worker;
  lease_expires_at = some expires;
  attempts = r.attempts + 1;
  updated_at = utc;
}

abbrev pub has_job_id : String → JobRow → Bool
has_job_id job_id r = r.job_id == job_id

-- The transaction of `claim`: none where it returns early, and else what its last SELECT fetches.
pub claim_row : String → Float → String → Db → Option JobRow → Result (Option (Option JobRow) × Db)
claim_row worker expires utc db none = ok (none, db)
claim_row worker expires utc db (some row) =
    let jobs = update (has_job_id row.job_id) (set_claimed worker expires utc) db.jobs in
    ok (some (select_job row.job_id jobs), record db { jobs = jobs })

-- The `assert` after the transaction.
abbrev pub claimed_job : Option (Option JobRow) → Result (Option JobRow)
claimed_job none = ok none
claimed_job (some none) = err assertion_error
claimed_job (some (some row)) = ok (some row)

abbrev pub claiming : Db → (Db → Result (Option (Option JobRow) × Db)) → Outcome (Option JobRow)
claiming db body = let (r, db') = transaction db body in (r >>= claimed_job, db')

-- `JobQueue.claim`
unfoldable pub claim : Env → String → Float → Moment → Db → Outcome (Option JobRow)
unfolding claim_row claim_args first_claimable
claim env worker_id lease_seconds m db =
    checked (claim_args env worker_id lease_seconds m) db λ (w, current, expires).
      claiming db λ (db : Db). claim_row w expires m.utc db (first_claimable current db.jobs)

-- SQL's `lease_owner = ?` and `lease_expires_at > ?`, which are not true of NULL.
abbrev pub owner_is : String → Option String → Bool
owner_is worker none = false
owner_is worker (some owner) = owner == worker

abbrev pub expires_after : Float → Option Float → Bool
expires_after current none = false
expires_after current (some expires) = float_lt current expires

-- The row's lease is held by the worker, and has not expired.
abbrev pub holds_lease : String → Float → JobRow → Bool
holds_lease worker current r =
    is_running r.status && owner_is worker r.lease_owner && expires_after current r.lease_expires_at

-- UPDATE jobs SET f WHERE job_id = ? AND q, which must change one row.
unfoldable pub update_one : String → (JobRow → Bool) → (JobRow → JobRow) → Db → Result Db
update_one job_id q f db = do
  let p = λ (r : JobRow). has_job_id job_id r && q r
  require (eqb (count_if p db.jobs) 1) lease_error
  ok (record db { jobs = update p f db.jobs })

-- The row, if any, and the database, after the last SELECT of an operation.
abbrev pub fetch_job : String → Db → Result (Option JobRow × Db)
fetch_job job_id db = ok (select_job job_id db.jobs, db)

unfoldable pub update_job :
    String → (JobRow → Bool) → (JobRow → JobRow) → Db → Result (Option JobRow × Db)
unfolding update_one
update_job job_id q f db = do db' ← update_one job_id q f db; fetch_job job_id db'

abbrev pub set_lease : Float → String → JobRow → JobRow
set_lease expires utc r = record r { lease_expires_at = some expires; updated_at = utc }

-- `JobQueue.heartbeat`
unfoldable pub heartbeat : Env → String → String → Float → Moment → Db → Outcome JobRow
unfolding update_job heartbeat_args
heartbeat env job_id worker_id lease_seconds m db =
    checked (heartbeat_args env job_id worker_id lease_seconds m) db λ (j, w, current, expires).
      asserting db (update_job j (holds_lease w current) (set_lease expires m.utc))

abbrev pub set_finished : JobStatus → String → String → JobRow → JobRow
set_finished status result_json utc r = record r {
  status = status;
  lease_owner = none;
  lease_expires_at = none;
  result_json = some result_json;
  updated_at = utc;
}

-- `JobQueue._finish`
unfoldable pub finish : Env → JobStatus → String → String → Json → Moment → Db → Outcome JobRow
unfolding update_job finish_args
finish env status job_id worker_id result m db =
    checked (finish_args job_id worker_id m) db λ (j, w, current).
      asserting db
        (update_job j (holds_lease w current) (set_finished status (env.dumps result) m.utc))

unfoldable pub complete : Env → String → String → Json → Moment → Db → Outcome JobRow
unfolding finish
complete env = finish env completed

unfoldable pub fail : Env → String → String → Json → Moment → Db → Outcome JobRow
unfolding finish
fail env = finish env failed

-- A UNIQUE constraint of `attempt_finished` forbids both rows.
abbrev pub clashes : AttemptRow → AttemptRow → Bool
clashes new old =
    (old.job_id == new.job_id && eqb old.attempt new.attempt)
    || old.attempt_id == new.attempt_id
    || old.attempt_digest == new.attempt_digest

-- INSERT INTO attempt_finished, with the constraints of the table.
unfoldable pub insert_attempt : AttemptRow → Db → Result Db
insert_attempt row db = do
  require (ltb 0 row.attempt) integrity_error
  require (is_some (select_job row.job_id db.jobs)) integrity_error
  require (not (any (clashes row) db.attempt_finished)) integrity_error
  ok (record db { attempt_finished = db.attempt_finished ++ row ∷ [] })

abbrev pub attempt_row : Env → AttemptFinished → String → AttemptRow
attempt_row env attempt utc = record {
  job_id = attempt.job_id;
  attempt = attempt.attempt;
  attempt_id = attempt.attempt_id;
  attempt_digest = env.attempt_digest attempt;
  payload_json = env.attempt_json attempt;
  finished_at = utc;
}

-- WHERE kind = 'coding-agent' AND the worker holds the lease AND attempts = ?
abbrev pub owns_attempt : String → Float → ℕ → JobRow → Bool
owns_attempt worker current attempt r =
    r.kind == "coding-agent" && holds_lease worker current r && eqb r.attempts attempt

unfoldable pub finish_attempt_rows :
    Env → String → String → Float → AttemptFinished → String → Db → Result (Option JobRow × Db)
unfolding update_one insert_attempt
finish_attempt_rows env job_id worker current attempt utc db = do
  let q = owns_attempt worker current attempt.attempt
  updated ← update_one job_id q (set_finished completed (env.attempt_json attempt) utc) db
  db' ← insert_attempt (attempt_row env attempt utc) updated
  fetch_job job_id db'

-- `JobQueue.finish_attempt`
unfoldable pub finish_attempt :
    Env → String → String → AttemptFinished → Moment → Db → Outcome JobRow
unfolding finish_attempt_rows finish_attempt_args
finish_attempt env job_id worker_id attempt m db =
    checked (finish_attempt_args job_id worker_id attempt m) db
      λ (j, w, current). asserting db (finish_attempt_rows env j w current attempt m.utc)
