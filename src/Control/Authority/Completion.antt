-- ===== src/Control/Authority/Completion.antt =====
-- `JobQueue.finish_attempt` and `publish_task_outcome` together, on one database.
use mathlib.Core.Path.{subst}
use sisyphus_harness.Prelude.{
  ℕ, String, ◌≡◌, refl, sym, ap, ◌∙◌, Bool, true, false, ◌&&◌, none, some, List, [], ◌∷◌, ◌++◌,
  ◌==◌, eq_iff, eq_refl, arith, ltb, any, find, Bool-cases, Option-cases, inl, inr,
}
use sisyphus_harness.Prelude.Equality.{equal, equal_iff}
use sisyphus_harness.Prelude.Float.{Float}
use sisyphus_harness.Contracts.{AttemptFinished}
use sisyphus_harness.Contracts.Equality.{attempt-discrete}
use sisyphus_harness.Database.{
  completed, JobRow, AttemptRow, Db, ok, err, Result-cases, lease_error, stale_attempt,
}
use sisyphus_harness.Database.Rows.{Unique, lookup-update, lookup_key, update, count-by_key}
use sisyphus_harness.Queue.{
  asserting, job_key, select_job, has_job_id, set_finished, attempt_row, clashes, owns_attempt,
  finish_attempt, finish_attempt_rows, update_one,
}
use sisyphus_harness.Queue.Args.{Env, Moment, finish_attempt_args}
use sisyphus_harness.Queue.Lineage.{args_bound}
use sisyphus_harness.Queue.Fencing.{forbidden, finish_attempt_lem}
use sisyphus_harness.Control.{TaskOutcome}
use sisyphus_harness.Control.Authority.{
  OutcomeCodec, select_outcome, validate_outcome_binding, is_attempt, current_attempt, check_fence,
  outcome_row, insert_outcome, publish_on, publish_rows, publish_task_outcome,
}
use sisyphus_harness.Database.Results.{require-true}

-- What a `finish_attempt` that returned found and left.
pub record IsFinished (env : Env) (attempt : AttemptFinished) (m : Moment) (db db' : Db)
    : Type 0 where
  pub job : JobRow
  pub found : select_job attempt.job_id db'.jobs ≡ some job
  pub kind : job.kind ≡ "coding-agent"
  pub status : job.status ≡ completed
  pub attempts : job.attempts ≡ attempt.attempt
  pub result : job.result_json ≡ some (env.attempt_json attempt)
  pub allowed : forbidden (attempt_row env attempt m.utc) db ≡ false
  pub stored : db'.attempt_finished ≡ db.attempt_finished ++ attempt_row env attempt m.utc ∷ []
  pub outcomes : db'.task_outcomes ≡ db.task_outcomes

module _ (env : Env) (attempt : AttemptFinished) (m : Moment) (db : Db) (j w : String) (r : JobRow)
    (found : select_job j db.jobs ≡ some r) (bound : attempt.job_id ≡ j) where
  finished_db : (JobRow → Bool) → Db
  finished_db owns = record db {
    jobs =
        update (λ x. has_job_id j x && owns x)
          (set_finished completed (env.attempt_json attempt) m.utc) db.jobs;
    attempt_finished = db.attempt_finished ++ attempt_row env attempt m.utc ∷ [];
  }

  finished_db-IsFinished :
      (owns : JobRow → Bool)
      → owns r ≡ true
      → (r.kind ≡ "coding-agent") × (r.attempts ≡ attempt.attempt)
      → forbidden (attempt_row env attempt m.utc) db ≡ false
      → IsFinished env attempt m db (finished_db owns)
  unfolding finished_db
  finished_db-IsFinished owns own facts allowed =
      let f : JobRow → JobRow = set_finished completed (env.attempt_json attempt) m.utc in
      let named = lookup_key job_key j db.jobs r found in
      record {
        job = f r;
        found =
            ap (λ id. select_job id (finished_db owns).jobs) bound
            ∙ lookup-update job_key (λ x. has_job_id j x && owns x) f (λ _. refl) j db.jobs
            ∙ ground (arith, found, own, (eq_iff r.job_id j).1 named);
        kind = facts.0;
        status = refl;
        attempts = facts.1;
        result = refl;
        allowed = allowed;
        stored = refl;
        outcomes = refl;
      }

-- No job is finished that is not there.
no_job :
    (env : Env) (j w : String) (current : Float) (attempt : AttemptFinished) (utc : String)
    (db : Db)
    → Unique job_key db.jobs
    → select_job j db.jobs ≡ none
    → asserting db (finish_attempt_rows env j w current attempt utc) ≡ (err lease_error, db)
unfolding finish_attempt_rows update_one
no_job env j w current attempt utc db u missing =
    ground (arith, count-by_key job_key j (owns_attempt w current attempt.attempt) db.jobs u)

owner_facts :
    (w : String) (current : Float) (n : ℕ) (r : JobRow)
    → owns_attempt w current n r ≡ true
    → (r.kind ≡ "coding-agent") × (r.attempts ≡ n)
owner_facts w current n r h =
    ((eq_iff r.kind "coding-agent").0 (ground (arith, h)), ground (arith, h))

finish_attempt-IsFinished :
    (env : Env) (job worker : String) (attempt : AttemptFinished) (m : Moment) (db db' : Db)
    (row : JobRow)
    → Unique job_key db.jobs
    → finish_attempt env job worker attempt m db ≡ (ok row, db')
    → IsFinished env attempt m db db'
unfolding finish_attempt finished_db
finish_attempt-IsFinished env job worker attempt m db db' row u h =
    elim (Result-cases (finish_attempt_args job worker attempt m)) [
      | inr (e, refused) ↦ absurd (ground arith)
      | inl ((j, w, current), args) ↦ elim (Option-cases (select_job j db.jobs)) [
        | inl missing ↦
            let lost = no_job env j w current attempt m.utc db u missing in
            absurd (ground (arith, lost))
        | inr (r, found) ↦
            let bound = args_bound job worker attempt m (j, w, current) args in
            let owns = owns_attempt w current attempt.attempt in
            let whole = finish_attempt_lem env job worker attempt m db j w current r args u found in
            elim (Bool-cases (owns r)) [
              | inr lost ↦ absurd (ground (arith, whole))
              | inl own ↦ elim (Bool-cases (forbidden (attempt_row env attempt m.utc) db)) [
                | inl clash ↦ absurd (ground (arith, whole))
                | inr allowed ↦
                    let left : finished_db env attempt m db j w r found bound owns ≡ db' =
                      ground (arith, whole, own, allowed) in
                    subst (IsFinished env attempt m db) left (
                      finished_db-IsFinished env attempt m db j w r found bound owns own
                        (owner_facts w current attempt.attempt r own) allowed)
              ]
            ]
      ]
    ]

find-append :
    (p : AttemptRow → Bool) (rows : List AttemptRow) (row : AttemptRow)
    → any p rows ≡ false
    → p row ≡ true
    → find p (rows ++ row ∷ []) ≡ some row
find-append p [] row h k = ground arith
find-append p (x ∷ rows) row h k = ground (arith, find-append p rows row)

any-last :
    (p : AttemptRow → Bool) (rows : List AttemptRow) (row : AttemptRow)
    → p row ≡ true
    → any p (rows ++ row ∷ []) ≡ true
any-last p [] row k = ground arith
any-last p (x ∷ rows) row k = ground (arith, any-last p rows row k)

-- A row that clashes with none is the first of its attempt.
unclashed :
    (new : AttemptRow) (rows : List AttemptRow)
    → any (clashes new) rows ≡ false
    → any (is_attempt new.job_id new.attempt) rows ≡ false
unclashed new [] h = refl
unclashed new (x ∷ rows) h =
    ground (arith, unclashed new rows, eq_iff x.job_id new.job_id, eq_iff new.job_id x.job_id)

-- The joined row and the constraints of `task_outcomes` after the attempt is finished.
finished_current :
    (env : Env) (attempt : AttemptFinished) (m : Moment) (db db' : Db)
    (f : IsFinished env attempt m db db')
    → current_attempt attempt.job_id db' ≡ ok (f.job, attempt_row env attempt m.utc)
unfolding current_attempt
finished_current env attempt m db db' f =
    let row = attempt_row env attempt m.utc in
    let first = unclashed row db.attempt_finished (ground (arith, f.allowed)) in
    let last : is_attempt attempt.job_id attempt.attempt row ≡ true =
      ground (arith, eq_refl attempt.job_id) in
    let joined : find (is_attempt attempt.job_id f.job.attempts) db'.attempt_finished ≡ some row =
      (λ i. find (is_attempt attempt.job_id (f.attempts i)) (f.stored i))
      ∙ find-append (is_attempt attempt.job_id attempt.attempt) db.attempt_finished row first
          last in
    ground (arith, f.found, joined)

finished_fence :
    (env : Env) (codec : OutcomeCodec) (attempt : AttemptFinished) (m : Moment) (db db' : Db)
    (f : IsFinished env attempt m db db')
    → codec.attempt_digest attempt ≡ env.attempt_digest attempt
    → codec.read_attempt (env.attempt_json attempt) ≡ some attempt
    → check_fence codec attempt (f.job, attempt_row env attempt m.utc) ≡ ok tt
unfolding check_fence
finished_fence env codec attempt m db db' f digest reads =
    let same : equal attempt-discrete attempt attempt ≡ true =
      (equal_iff attempt-discrete attempt attempt).1 refl in
    let digests : (env.attempt_digest attempt == codec.attempt_digest attempt) ≡ true =
      (eq_iff _ _).1 (sym digest) in
    let kind : (f.job.kind == "coding-agent") ≡ true = (eq_iff _ _).1 f.kind in
    ground (
      arith,
      reads,
      same,
      digests,
      kind,
      f.status,
      f.attempts,
      f.result,
      eq_refl (env.attempt_json attempt),
    )

-- The outcome of a finished attempt can be inserted.
finished_insert :
    (env : Env) (codec : OutcomeCodec) (attempt : AttemptFinished) (outcome : TaskOutcome)
    (m : Moment) (utc : String) (db db' : Db) (f : IsFinished env attempt m db db')
    → codec.attempt_digest attempt ≡ env.attempt_digest attempt
    → validate_outcome_binding codec attempt outcome ≡ ok tt
    → select_outcome attempt.job_id db.task_outcomes ≡ none
    → any (λ old. old.outcome_digest == codec.outcome_digest outcome) db.task_outcomes ≡ false
    → insert_outcome (outcome_row codec outcome utc) db'
      ≡ ok (record db' { task_outcomes = db'.task_outcomes ++ outcome_row codec outcome utc ∷ [] })
unfolding insert_outcome validate_outcome_binding
finished_insert env codec attempt outcome m utc db db' f digest bound missing fresh =
    let row = attempt_row env attempt m.utc in
    let tests = require-true _ stale_attempt bound in
    let job : outcome.job_id ≡ attempt.job_id = (eq_iff _ _).0 (ground (arith, tests)) in
    let number : outcome.attempt ≡ attempt.attempt = ground (arith, tests) in
    let named : outcome.attempt_digest ≡ codec.attempt_digest attempt =
      (eq_iff _ _).0 (ground (arith, tests)) in
    let positive : ltb 0 outcome.attempt ≡ true = ground (arith, f.allowed, number) in
    let none_yet : select_outcome outcome.job_id db'.task_outcomes ≡ none =
      (λ i. select_outcome (job i) (f.outcomes i)) ∙ missing in
    let fresh' : any (λ old. old.outcome_digest == codec.outcome_digest outcome) db'.task_outcomes
        ≡ false =
      ap (any (λ old. old.outcome_digest == codec.outcome_digest outcome)) f.outcomes ∙ fresh in
    let of_row = λ (a : AttemptRow).
      is_attempt outcome.job_id outcome.attempt a && a.attempt_digest == outcome.attempt_digest in
    let refers : any of_row db'.attempt_finished ≡ true =
      ap (any of_row) f.stored
      ∙ any-last of_row db.attempt_finished row (
          ground (
            arith,
            (eq_iff attempt.job_id outcome.job_id).1 (sym job),
            number,
            (eq_iff (env.attempt_digest attempt) outcome.attempt_digest).1 (sym (named ∙ digest)),
          )) in
    ground (arith, positive, none_yet, fresh', refers)

-- Once `finish_attempt` has returned on a job that has no outcome, `publish_task_outcome` on the database
-- that it left returns every outcome that is bound to the attempt and whose digest no stored outcome has,
-- at any time: nothing else is needed. The codecs are those of the queue, and read the attempt back.
pub finish_attempt-publish_task_outcome :
    (env : Env) (codec : OutcomeCodec) (job worker : String) (attempt : AttemptFinished)
    (m : Moment) (db db' : Db) (row : JobRow) (outcome : TaskOutcome) (utc : String)
    → Unique job_key db.jobs
    → finish_attempt env job worker attempt m db ≡ (ok row, db')
    → codec.attempt_digest attempt ≡ env.attempt_digest attempt
    → codec.read_attempt (env.attempt_json attempt) ≡ some attempt
    → validate_outcome_binding codec attempt outcome ≡ ok tt
    → select_outcome attempt.job_id db.task_outcomes ≡ none
    → any (λ old. old.outcome_digest == codec.outcome_digest outcome) db.task_outcomes ≡ false
    → publish_task_outcome codec attempt outcome utc db' ≡ (
      ok outcome,
      record db' { task_outcomes = db'.task_outcomes ++ outcome_row codec outcome utc ∷ [] },
    )
unfolding publish_task_outcome publish_rows publish_on
finish_attempt-publish_task_outcome env codec job worker attempt m db db' row outcome utc u done
      digest reads bound missing fresh =
    let f = finish_attempt-IsFinished env job worker attempt m db db' row u done in
    let none_yet : select_outcome attempt.job_id db'.task_outcomes ≡ none =
      ap (select_outcome attempt.job_id) f.outcomes ∙ missing in
    ground (
      arith,
      bound,
      finished_current env attempt m db db' f,
      finished_fence env codec attempt m db db' f digest reads,
      none_yet,
      finished_insert env codec attempt outcome m utc db db' f digest bound missing fresh,
    )
