-- ===== src/Queue/Histories.antt =====
-- What holds along any history of calls.
use mathlib.Core.Path.{subst}
use sisyphus_harness.Prelude.{
  ◌≤◌, String, ◌≡◌, true, some, List, [], ◌∷◌, ◌++◌, arith, sym, ap, ◌∙◌,
}
use mathlib.Core.List.{append-nil, append_assoc}
use sisyphus_harness.Database.{JobRow, AttemptRow, Db}
use sisyphus_harness.Queue.{select_job}
use sisyphus_harness.Queue.Args.{Env}
use sisyphus_harness.Queue.Machine.{
  Event, step, run, JobStep, stay, claimed, extended, finished, step-JobStep,
}
use sisyphus_harness.Queue.Lineage.{AttemptsStep, same_attempts, new_attempt, step-AttemptsStep}
use sisyphus_harness.Queue.Invariant.{
  IsWellFormed, step-IsWellFormed, is_terminal, JobStep-terminal,
}
use sisyphus_harness.Queue.Requests.{SameRequest, JobStep-SameRequest, SameRequest-trans}

-- A completed or failed job is the same after any calls of any workers: no later claim, heartbeat,
-- completion or failure touches it.
pub run-terminal :
    (env : Env) (events : List Event) (db : Db)
    → IsWellFormed db
    → (k : String) (r : JobRow) → select_job k db.jobs ≡ some r
    → is_terminal r.status ≡ true
    → select_job k (run env events db).jobs ≡ some r
unfolding run
run-terminal env [] db w k r h t = h
run-terminal env (e ∷ events) db w k r h t =
    let (r', h', s) = step-JobStep env e db w.unique_ids k r h in
    let kept : r' ≡ r = JobStep-terminal r r' s t in
    run-terminal env events (step env e db) (step-IsWellFormed env e db w) k r
      (subst (λ x. select_job k (step env e db).jobs ≡ some x) kept h') t

JobStep-attempts : (r r' : JobRow) → JobStep r r' → r.attempts ≤ r'.attempts
JobStep-attempts r r' (stay e) = ground arith
JobStep-attempts r r' (claimed w c x utc can e) = ground arith
JobStep-attempts r r' (extended w c x utc can e) = ground arith
JobStep-attempts r r' (finished w c status result utc can which e) = ground arith

-- No job is ever lost: after any calls of any workers it is there under its identifier, with the same
-- key, kind, payload and creation time, and with at least as many attempts.
pub run-attempts :
    (env : Env) (events : List Event) (db : Db)
    → IsWellFormed db
    → (k : String) (r : JobRow) → select_job k db.jobs ≡ some r
    → (r' : JobRow) × (select_job k (run env events db).jobs ≡ some r')
      × SameRequest r r'
      × (r.attempts ≤ r'.attempts)
unfolding run
run-attempts env [] db w k r h = (r, h, ground arith, omega arith)
run-attempts env (e ∷ events) db w k r h =
    let (r', h', s) = step-JobStep env e db w.unique_ids k r h in
    let (r'', h'', same, more) =
      run-attempts env events (step env e db) (step-IsWellFormed env e db w) k r' h' in
    (
      r'',
      h'',
      SameRequest-trans r r' r'' (JobStep-SameRequest r r' s) same,
      omega (arith, JobStep-attempts r r' s),
    )

-- `attempt_finished` only grows at its end.
abbrev pub Grows : List AttemptRow → List AttemptRow → Type 0
Grows rows rows' = (more : List AttemptRow) × (rows' ≡ rows ++ more)

AttemptsStep-Grows :
    (db db' : Db) → AttemptsStep db db' → Grows db.attempt_finished db'.attempt_finished
AttemptsStep-Grows db db' (same_attempts e) = ([], e ∙ sym (append-nil db.attempt_finished))
AttemptsStep-Grows db db' (new_attempt row job found busy has e) = (row ∷ [], e)

-- A finished attempt, once published, is never changed or removed, whatever the workers do later.
pub run-Grows :
    (env : Env) (events : List Event) (db : Db)
    → IsWellFormed db
    → Grows db.attempt_finished (run env events db).attempt_finished
unfolding run
run-Grows env [] db w = ([], sym (append-nil db.attempt_finished))
run-Grows env (e ∷ events) db w =
    let next = step env e db in
    let (one, p) = AttemptsStep-Grows db next (step-AttemptsStep env e db w.unique_ids) in
    let (more, q) = run-Grows env events next (step-IsWellFormed env e db w) in
    (one ++ more, q ∙ ap (λ rows. rows ++ more) p ∙ append_assoc db.attempt_finished one more)
