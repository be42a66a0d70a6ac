-- ===== src/Database.antt =====
-- database.py: the rows of the authority database and its three tables.
-- A job's JSON columns hold the text that was stored.
pub mod Rows
pub mod Results
use sisyphus_harness.Prelude.{
  ℕ, String, ◌≡◌, refl, ◌⊎◌, inl, inr, Bool, true, false, Option, none, some, List, [], is_some,
  ◌&&◌, not, if◌then◌else◌,
}
use sisyphus_harness.Prelude.Float.{Float}

pub data JobStatus : Type 0 where
  queued running completed failed : JobStatus

abbrev pub is_queued : JobStatus → Bool
is_queued queued = true
is_queued _ = false

abbrev pub is_running : JobStatus → Bool
is_running running = true
is_running _ = false

abbrev pub is_completed : JobStatus → Bool
is_completed completed = true
is_completed _ = false

-- The table `jobs`.
pub record JobRow : Type 0 where
  pub job_id : String
  pub idempotency_key : String
  pub kind : String
  pub payload_json : String
  pub status : JobStatus
  pub lease_owner : Option String
  pub lease_expires_at : Option Float
  pub attempts : ℕ
  pub result_json : Option String
  pub created_at : String
  pub updated_at : String

-- The table `attempt_finished`.
pub record AttemptRow : Type 0 where
  pub job_id : String
  pub attempt : ℕ
  pub attempt_id : String
  pub attempt_digest : String
  pub payload_json : String
  pub finished_at : String

-- The table `task_outcomes`.
pub record OutcomeRow : Type 0 where
  pub job_id : String
  pub attempt : ℕ
  pub attempt_digest : String
  pub outcome_digest : String
  pub payload_json : String
  pub published_at : String

pub record Db : Type 0 where
  pub jobs : List JobRow
  pub attempt_finished : List AttemptRow
  pub task_outcomes : List OutcomeRow

abbrev pub empty_db : Db
empty_db = record { jobs = []; attempt_finished = []; task_outcomes = [] }

-- The exceptions that the operations on the database raise; `integrity_error` is SQLite's, for a
-- UNIQUE, CHECK or FOREIGN KEY constraint, and `exception` any other by its message.
pub data DbError : Type 0 where
  value_error lease_error idempotency_conflict integrity_error assertion_error : DbError
  authority_error stale_attempt outcome_conflict : DbError
  control_error : DbError
  exception : String → DbError

pub data Result {ℓ} (A : Type ℓ) : Type ℓ where
  ok : A → Result A
  err : DbError → Result A

pub Result-cases {ℓ} :
    {A : Type ℓ} (r : Result A) → ((a : A) × (r ≡ ok a)) ⊎ ((e : DbError) × (r ≡ err e))
Result-cases (ok a) = inl (a, refl)
Result-cases (err e) = inr (e, refl)

-- `if not condition: raise error`
abbrev pub require : Bool → DbError → Result (Unit {0})
require condition error = if condition then ok tt else err error

-- The statements after one that may raise.
infixl 5 ◌>>=◌ ◌>>◌
abbrev pub ◌>>=◌ {ℓ ℓ'} :
    {Value : Type ℓ} {Next : Type ℓ'} → Result Value → (Value → Result Next) → Result Next
(err error) >>= rest = err error
(ok value) >>= rest = rest value

abbrev pub ◌>>◌ {ℓ} : {Next : Type ℓ} → Result (Unit {0}) → Result Next → Result Next
first >> rest = first >>= λ _. rest

-- What an operation leaves: its result, or its exception, and the database.
abbrev pub Outcome : Type 0 → Type 0
Outcome A = Result A × Db

-- `Database.transaction`: the writes of the body are committed when it returns and rolled back when it
-- raises.
abbrev pub transaction : {A : Type 0} → Db → (Db → Result (A × Db)) → Outcome A
transaction db body = elim (body db) [ ok (a, db') ↦ (ok a, db') | err e ↦ (err e, db) ]

-- A call whose arguments are tested before its transaction.
abbrev pub checked : {A B : Type 0} → Result A → Db → (A → Outcome B) → Outcome B
checked (ok a) db f = f a
checked (err e) db f = (err e, db)

-- The CHECK constraint of `jobs`: a lease is there exactly while the job runs.
unfoldable pub lease_check : JobRow → Bool
lease_check r =
    if is_running r.status
    then is_some r.lease_owner && is_some r.lease_expires_at
    else not (is_some r.lease_owner) && not (is_some r.lease_expires_at)
