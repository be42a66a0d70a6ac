-- ===== src/Queue/Contract.antt =====
-- What queue.py promises of its rows, written without its UPDATE statements: the rows that its calls
-- return, field by field, the conditions on the row that they find, and the table with one row replaced.
pub mod Steps
pub mod Calls
use sisyphus_harness.Prelude.{
  String, ◌≡◌, refl, ap, ◌∙◌, sym, ◌⊎◌, inl, inr, Bool, true, false, ◌&&◌, ◌+◌, Option, none, some,
  List, [], ◌∷◌, ◌==◌, eq_iff, if◌then◌else◌, arith, Bool-cases, Option-cases,
}
use sisyphus_harness.Prelude.Float.{Float, is_finite, float_zero, float_le, float_lt}
use sisyphus_harness.Prelude.Text.{strip}
use sisyphus_harness.Contracts.{AttemptFinished}
use sisyphus_harness.Database.{
  JobStatus, queued, running, completed, failed, is_queued, is_running, JobRow, Db, ok,
}
use sisyphus_harness.Database.Rows.{Unique, update, lookup}
use sisyphus_harness.Queue.{job_key, select_job, has_job_id, holds_lease}
use sisyphus_harness.Queue.Args.{
  Env, Moment, current_time, claim_args, heartbeat_args, finish_args, finish_attempt_args,
}
use sisyphus_harness.Queue.Order.{claimable}

-- The row of a job that a worker has claimed, until `expires`.
abbrev pub claimed_row : String → Float → String → JobRow → JobRow
claimed_row worker expires utc r = record {
  job_id = r.job_id;
  idempotency_key = r.idempotency_key;
  kind = r.kind;
  payload_json = r.payload_json;
  status = running;
  lease_owner = some worker;
  lease_expires_at = some expires;
  attempts = r.attempts + 1;
  result_json = r.result_json;
  created_at = r.created_at;
  updated_at = utc;
}

-- The row of a job whose worker has extended its lease until `expires`.
abbrev pub extended_row : String → Float → String → JobRow → JobRow
extended_row worker expires utc r = record {
  job_id = r.job_id;
  idempotency_key = r.idempotency_key;
  kind = r.kind;
  payload_json = r.payload_json;
  status = running;
  lease_owner = some worker;
  lease_expires_at = some expires;
  attempts = r.attempts;
  result_json = r.result_json;
  created_at = r.created_at;
  updated_at = utc;
}

-- The row of a job that has ended with a result.
abbrev pub ended_row : JobStatus → String → String → JobRow → JobRow
ended_row status result utc r = record {
  job_id = r.job_id;
  idempotency_key = r.idempotency_key;
  kind = r.kind;
  payload_json = r.payload_json;
  status = status;
  lease_owner = none;
  lease_expires_at = none;
  attempts = r.attempts;
  result_json = some result;
  created_at = r.created_at;
  updated_at = utc;
}

-- The job runs under a lease of the worker that ends after the given time.
pub record HasLease (worker : String) (current : Float) (r : JobRow) : Type 0 where
  pub busy : r.status ≡ running
  pub owner : r.lease_owner ≡ some worker
  pub expires : Float
  pub term : r.lease_expires_at ≡ some expires
  pub live : float_lt current expires ≡ true

-- The job waits, or runs under a lease that has ended at the given time.
pub data IsClaimable (current : Float) (r : JobRow) : Type 0 where
  waits : r.status ≡ queued → IsClaimable current r
  lapsed :
      (expires : Float)
      → r.status ≡ running
      → r.lease_expires_at ≡ some expires
      → float_le expires current ≡ true
      → IsClaimable current r

-- The table with the row of that identifier replaced.
abbrev pub replace_job : JobRow → List JobRow → List JobRow
replace_job row [] = []
replace_job row (r ∷ rows) = if r.job_id == row.job_id then row ∷ rows else r ∷ replace_job row rows

-- A name that is not blank.
abbrev pub IsName : String → Type 0
IsName s = ¬ (strip s ≡ "")

-- A lease of so many seconds, from the time of the call, can be given.
pub record HasWindow (env : Env) (seconds : Float) (m : Moment) : Type 0 where
  pub finite_seconds : is_finite seconds ≡ true
  pub positive : float_le seconds float_zero ≡ false
  pub finite_start : is_finite (current_time m) ≡ true
  pub finite_end : is_finite (env.add (current_time m) seconds) ≡ true

is_queued-eq : (s : JobStatus) → is_queued s ≡ true → s ≡ queued
is_queued-eq queued h = refl
is_queued-eq running h = absurd cc
is_queued-eq completed h = absurd cc
is_queued-eq failed h = absurd cc

is_running-eq : (s : JobStatus) → is_running s ≡ true → s ≡ running
is_running-eq queued h = absurd cc
is_running-eq running h = refl
is_running-eq completed h = absurd cc
is_running-eq failed h = absurd cc

-- The test of the UPDATE statements finds just the rows with a lease.
pub holds_lease-HasLease :
    (worker : String) (current : Float) (r : JobRow)
    → holds_lease worker current r ≡ true
    → HasLease worker current r
holds_lease-HasLease worker current r h = elim (Option-cases r.lease_owner) [
  | inl e ↦ absurd (ground arith)
  | inr (o, e) ↦ elim (Option-cases r.lease_expires_at) [
    | inl k ↦ absurd (ground arith)
    | inr (x, k) ↦ record {
      busy = is_running-eq r.status (ground arith);
      owner = ground (arith, eq_iff o worker);
      expires = x;
      term = k;
      live = ground arith;
    }
  ]
]

pub HasLease-holds_lease :
    (worker : String) (current : Float) (r : JobRow)
    → HasLease worker current r
    → holds_lease worker current r ≡ true
HasLease-holds_lease worker current r h =
    ground (arith, h.busy, h.owner, h.term, h.live, eq_iff worker worker)

pub claimable-IsClaimable :
    (current : Float) (r : JobRow) → claimable current r ≡ true → IsClaimable current r
claimable-IsClaimable current r h = elim (Bool-cases (is_queued r.status)) [
  | inl e ↦ waits (is_queued-eq r.status e)
  | inr e ↦ elim (Option-cases r.lease_expires_at) [
    | inl k ↦ absurd (ground arith)
    | inr (x, k) ↦ lapsed x (is_running-eq r.status (ground arith)) k (ground arith)
  ]
]

pub IsClaimable-claimable :
    (current : Float) (r : JobRow) → IsClaimable current r → claimable current r ≡ true
IsClaimable-claimable current r (waits e) = ground arith
IsClaimable-claimable current r (lapsed x e k l) = ground arith

-- What the tests on the arguments let through.
module _ (env : Env) (job_id worker_id : String) (seconds : Float) (m : Moment) where
  pub finish_args_lem :
      IsName job_id
      → IsName worker_id
      → is_finite (current_time m) ≡ true
      → finish_args job_id worker_id m ≡ ok (strip job_id, strip worker_id, current_time m)
  unfolding finish_args
  finish_args_lem j w t = ground (arith, eq_iff (strip job_id) "", eq_iff (strip worker_id) "")

  pub heartbeat_args_lem :
      IsName job_id
      → IsName worker_id
      → HasWindow env seconds m
      → heartbeat_args env job_id worker_id seconds m
        ≡ ok (strip job_id, strip worker_id, current_time m, env.add (current_time m) seconds)
  unfolding heartbeat_args
  heartbeat_args_lem j w h = ground (
    arith,
    h.finite_seconds,
    h.positive,
    h.finite_start,
    h.finite_end,
    eq_iff (strip job_id) "",
    eq_iff (strip worker_id) "",
  )

  pub claim_args_lem :
      IsName worker_id
      → HasWindow env seconds m
      → claim_args env worker_id seconds m
        ≡ ok (strip worker_id, current_time m, env.add (current_time m) seconds)
  unfolding claim_args
  claim_args_lem w h = ground (
    arith,
    h.finite_seconds,
    h.positive,
    h.finite_start,
    h.finite_end,
    eq_iff (strip worker_id) "",
  )

  pub finish_args-ok :
      (a : String × String × Float)
      → finish_args job_id worker_id m ≡ ok a
      → a ≡ (strip job_id, strip worker_id, current_time m)
  unfolding finish_args
  finish_args-ok a h = ground arith

  pub heartbeat_args-ok :
      (a : String × String × Float × Float)
      → heartbeat_args env job_id worker_id seconds m ≡ ok a
      → a ≡ (strip job_id, strip worker_id, current_time m, env.add (current_time m) seconds)
  unfolding heartbeat_args
  heartbeat_args-ok a h = ground arith

  pub claim_args-ok :
      (a : String × Float × Float)
      → claim_args env worker_id seconds m ≡ ok a
      → a ≡ (strip worker_id, current_time m, env.add (current_time m) seconds)
  unfolding claim_args
  claim_args-ok a h = ground arith

  pub finish_attempt_args-ok :
      (attempt : AttemptFinished) (a : String × String × Float)
      → finish_attempt_args job_id worker_id attempt m ≡ ok a
      → a ≡ (strip job_id, strip worker_id, current_time m)
  unfolding finish_attempt_args
  finish_attempt_args-ok attempt a h = ground arith

-- An UPDATE that can change only the row of one identifier, and does change it, replaces that row.
update-none :
    (p : JobRow → Bool) (f : JobRow → JobRow) (j : String)
    → ((r : JobRow) → p r ≡ true → r.job_id ≡ j)
    → (rows : List JobRow) → select_job j rows ≡ none
    → update p f rows ≡ rows
unfolding lookup
update-none p f j names [] h = refl
update-none p f j names (r ∷ rows) h = elim (Bool-cases (p r)) [
  | inl can ↦ absurd (ground (arith, names r can, eq_iff r.job_id j))
  | inr cannot ↦ ground (arith, update-none p f j names rows)
]

pub update-replace_job :
    (p : JobRow → Bool) (f : JobRow → JobRow) (r : JobRow)
    → ((x : JobRow) → p x ≡ true → x.job_id ≡ r.job_id)
    → (f r).job_id ≡ r.job_id
    → p r ≡ true
    → (rows : List JobRow) → Unique job_key rows
    → select_job r.job_id rows ≡ some r
    → update p f rows ≡ replace_job (f r) rows
unfolding lookup
update-replace_job p f r names keeps can [] u h = absurd cc
update-replace_job p f r names keeps can (x ∷ rows) u h = elim (Bool-cases (x.job_id == r.job_id)) [
  | inl this ↦
      let same : x ≡ r = ground arith in
      ground (arith, same, keeps, eq_iff x.job_id r.job_id, update-none p f r.job_id names rows)
  | inr other ↦ elim (Bool-cases (p x)) [
    | inl at_x ↦ absurd (ground (arith, names x at_x, eq_iff x.job_id r.job_id))
    | inr not_x ↦ ground (arith, keeps, update-replace_job p f r names keeps can rows)
  ]
]
