-- ===== src/Control/Service/Decision.antt =====
-- What is known of an outcome that `ControlTaskOutcomeService.adjudicate` publishes.
use mathlib.Core.Path.{subst}
use sisyphus_harness.Prelude.{
  String, ◌≡◌, refl, sym, ap, ◌∙◌, Bool, true, false, ◌&&◌, Option, none, some, Option-cases,
  Bool-cases, arith, inl, inr, ◌==◌,
}
use sisyphus_harness.Prelude.Checked.{accepted, Checked-cases, >>=-accepted, accepted-after}
use sisyphus_harness.Prelude.Equality.{equal, equal_iff}
use sisyphus_harness.Contracts.{AttemptFinished}
use sisyphus_harness.Contracts.Verification.{VerifierExecutionIdentity, BundleVerificationRequest}
use sisyphus_harness.Contracts.Equality.{bundle-discrete, profile-discrete}
use sisyphus_harness.Evidence.{
  LogicalResult, pass, completed, error, ContractEvaluation, EvaluationLifecycle,
}
use sisyphus_harness.Database.{OutcomeRow, Db, ok, Result-cases}
use sisyphus_harness.Verification.Adjudication.{EvidenceAdjudicationResult}
use sisyphus_harness.Control.{
  TaskOutcomeDecision, passed, TaskOutcome, OutcomeDigests, from_evaluation, check_task_outcome,
  outcome-discrete,
}
use sisyphus_harness.Control.Authority.{
  OutcomeCodec, outcome_from_row, outcome_row, insert_outcome, current_attempt, check_fence,
  get_attempt_finished, get_task_outcome, publish_on, publish_rows, publish_task_outcome,
}
use sisyphus_harness.Database.Results.{>>=-ok, require-ok, ok-injective}
use sisyphus_harness.Control.Authority.Republication.{publish_ok}
use sisyphus_harness.Control.Service.{
  TaskOutcomeRequest, Adjudicator, adjudication_request, is_v2_verification, asks_for_attempt,
  answers_request, is_bound_to_attempt, checked_identity, task_outcome_of, outcome_of,
  adjudicated_outcome, outcome_to_publish, prepared, adjudicate_task,
}

publish_on_returns :
    (codec : OutcomeCodec) (outcome : TaskOutcome) (utc : String) (db : Db) (o : Option OutcomeRow)
    (r : TaskOutcome × Db)
    → publish_on codec outcome utc db o ≡ ok r
    → r.0 ≡ outcome
unfolding publish_on
publish_on_returns codec outcome utc db none r h =
    let inserted = >>=-ok (insert_outcome (outcome_row codec outcome utc) db) _ h in
    sym (ap (λ (x : TaskOutcome × Db). x.0) (ok-injective (outcome, inserted.0) r inserted.2))
publish_on_returns codec outcome utc db (some row) r h =
    let (published, read, k) = >>=-ok (outcome_from_row codec row) _ h in
    let tested = require-ok (equal outcome-discrete published outcome) _ _ k in
    sym (ap (λ (x : TaskOutcome × Db). x.0) (ok-injective (published, db) r tested.1))
    ∙ (equal_iff outcome-discrete published outcome).0 tested.0

publish_returns :
    (codec : OutcomeCodec) (attempt : AttemptFinished) (outcome : TaskOutcome) (utc : String)
    (db db' : Db) (r : TaskOutcome)
    → publish_task_outcome codec attempt outcome utc db ≡ (ok r, db')
    → r ≡ outcome
unfolding publish_rows
publish_returns codec attempt outcome utc db db' r h =
    let (current, joined, k) =
      >>=-ok (current_attempt attempt.job_id db) _
        (publish_ok codec attempt outcome utc db db' r h) in
    let fenced = >>=-ok (check_fence codec attempt current) _ k in
    publish_on_returns codec outcome utc db _ (r, db') fenced.2

abbrev pub has_passed : TaskOutcomeDecision → Bool
has_passed passed = true
has_passed _ = false

-- The evaluation is complete, and its result is a pass.
abbrev passes : EvaluationLifecycle → Option LogicalResult → Bool
passes completed (some pass) = true
passes _ _ = false

abbrev pub is_satisfied : ContractEvaluation → Bool
is_satisfied e = passes e.lifecycle e.logical_result

decided_by :
    (l : EvaluationLifecycle) (logical : Option LogicalResult) (e : ContractEvaluation)
    (decision : TaskOutcomeDecision)
    → e.lifecycle ≡ l
    → e.logical_result ≡ logical
    → from_evaluation e ≡ accepted decision
    → has_passed decision ≡ passes l logical
unfolding from_evaluation
decided_by error logical e decision h k p = ground (arith, h, k, p)
decided_by completed none e decision h k p = absurd (ground (arith, h, k, p))
decided_by completed (some pass) e decision h k p = ground (arith, h, k, p)
decided_by completed (some LogicalResult.fail) e decision h k p = ground (arith, h, k, p)
decided_by completed (some LogicalResult.indeterminate) e decision h k p = ground (arith, h, k, p)

checked_identity_lem :
    (d : OutcomeDigests) (request : TaskOutcomeRequest) (attempt : AttemptFinished)
    (a : EvidenceAdjudicationResult) (o : Option VerifierExecutionIdentity)
    (identity : VerifierExecutionIdentity)
    → a.verification_request.execution_identity ≡ o
    → checked_identity d request attempt a ≡ accepted identity
    → (i : VerifierExecutionIdentity) × (is_bound_to_attempt d request attempt i a ≡ true)
unfolding checked_identity
checked_identity_lem d request attempt a none identity e h = absurd (ground arith)
checked_identity_lem d request attempt a (some i) identity e h = (
  i,
  elim (Bool-cases (is_bound_to_attempt d request attempt i a)) [
    | inl bound ↦ bound
    | inr other ↦ elim (Bool-cases (is_v2_verification request a)) [
      | inl two ↦ absurd (ground arith)
      | inr one ↦ absurd (ground arith)
    ]
  ],
)

of_three : (a b c : Bool) → (a && b && c) ≡ true → (b ≡ true) × (c ≡ true)
of_three a b c h = (ground arith, ground arith)

asks_bound :
    (request : TaskOutcomeRequest) (attempt : AttemptFinished) (asked : BundleVerificationRequest)
    → asks_for_attempt request attempt asked ≡ true
    → (asked.workspace_bundle ≡ attempt.output_bundle) × (asked.profile ≡ request.profile)
unfolding asks_for_attempt
asks_bound request attempt asked h =
    let bundles = equal bundle-discrete asked.workspace_bundle attempt.output_bundle in
    let profiles = equal profile-discrete asked.profile request.profile in
    (
      (equal_iff bundle-discrete asked.workspace_bundle attempt.output_bundle).0
          (of_three (asked.run_id == request.run_id) bundles profiles h).0,
      (equal_iff profile-discrete asked.profile request.profile).0
          (of_three (asked.run_id == request.run_id) bundles profiles h).1,
    )

bundle_bound :
    (d : OutcomeDigests) (request : TaskOutcomeRequest) (attempt : AttemptFinished)
    (i : VerifierExecutionIdentity) (a : EvidenceAdjudicationResult)
    → is_bound_to_attempt d request attempt i a ≡ true
    → (a.verification_request.workspace_bundle ≡ attempt.output_bundle)
      × (a.verification_request.profile ≡ request.profile)
unfolding is_bound_to_attempt
bundle_bound d request attempt i a h =
    let jobs = a.job_id == attempt.job_id in
    let attempts = a.attempt_id == attempt.attempt_id in
    let bundles = a.output_bundle_id == attempt.output_bundle.bundle_id in
    let asks = asks_for_attempt request attempt a.verification_request in
    let answers = answers_request d request attempt i a in
    asks_bound request attempt a.verification_request
      (of_three (jobs && attempts && bundles) asks answers h).0

outcome_of_lem :
    (d : OutcomeDigests) (codec : OutcomeCodec) (request : TaskOutcomeRequest)
    (attempt : AttemptFinished) (a : EvidenceAdjudicationResult) (o : TaskOutcome)
    → outcome_of d codec request attempt a ≡ accepted o
    → (o.contract ≡ request.contract)
      × (o.evaluation ≡ a.evaluation)
      × (from_evaluation a.evaluation ≡ accepted o.decision)
      × (a.verification_request.workspace_bundle ≡ attempt.output_bundle)
      × (a.verification_request.profile ≡ request.profile)
unfolding outcome_of
outcome_of_lem d codec request attempt a o h =
    let (identity, identified, k) = >>=-accepted (checked_identity d request attempt a) _ h in
    let (decision, decides, m) = >>=-accepted (from_evaluation a.evaluation) _ k in
    let (i, bound) =
      checked_identity_lem d request attempt a a.verification_request.execution_identity identity
        refl identified in
    let (bundles, profiles) = bundle_bound d request attempt i a bound in
    let made = task_outcome_of d codec request attempt a identity decision in
    let same : o ≡ made = accepted-after (check_task_outcome d made) made m in
    (
      ap (λ (x : TaskOutcome). x.contract) same,
      ap (λ (x : TaskOutcome). x.evaluation) same,
      decides ∙ ap (λ (x : TaskOutcome). accepted x.decision) (sym same),
      bundles,
      profiles,
    )

-- How an outcome that is published for the first time came about.
pub record IsDecided (d : OutcomeDigests) (codec : OutcomeCodec) (adjudicator : Adjudicator)
    (request : TaskOutcomeRequest) (utc : String) (first db : Db) (r : TaskOutcome) (db' : Db)
    : Type 0 where
  pub attempt : AttemptFinished
  pub current : get_attempt_finished codec request.job_id first ≡ ok (some attempt)
  pub evidence : EvidenceAdjudicationResult
  pub adjudicated : adjudicator (adjudication_request request attempt) ≡ accepted evidence
  pub bundle : evidence.verification_request.workspace_bundle ≡ attempt.output_bundle
  pub profile : evidence.verification_request.profile ≡ request.profile
  pub contract : r.contract ≡ request.contract
  pub evaluation : r.evaluation ≡ evidence.evaluation
  pub decision : from_evaluation evidence.evaluation ≡ accepted r.decision
  pub passes : has_passed r.decision ≡ is_satisfied evidence.evaluation
  pub published : publish_task_outcome codec attempt r utc db ≡ (ok r, db')

prepared_lem :
    (d : OutcomeDigests) (codec : OutcomeCodec) (adjudicator : Adjudicator)
    (request : TaskOutcomeRequest) (first second : Db) (attempt : AttemptFinished) (o : TaskOutcome)
    → get_task_outcome codec request.job_id second ≡ ok none
    → prepared d codec adjudicator request first second ≡ ok (attempt, o)
    → (get_attempt_finished codec request.job_id first ≡ ok (some attempt))
      × (adjudicated_outcome d codec adjudicator request attempt ≡ accepted o)
unfolding prepared outcome_to_publish
prepared_lem d codec adjudicator request first second attempt o fresh h =
    elim (Result-cases (get_attempt_finished codec request.job_id first)) [
      | inr (e, lost) ↦ absurd (ground arith)
      | inl (found, read) ↦ elim (Option-cases found) [
        | inl missing ↦ absurd (ground arith)
        | inr (attempt', is) ↦
            elim (Checked-cases (adjudicated_outcome d codec adjudicator request attempt')) [
              | inr (message, refused) ↦ absurd (ground arith)
              | inl (o', made) ↦
                  let whole : prepared d codec adjudicator request first second
                      ≡ ok (attempt', o') =
                    ground (arith, read, is, made, fresh) in
                  let same = ok-injective (attempt', o') (attempt, o) (sym whole ∙ h) in
                  subst
                    (λ (x : AttemptFinished × TaskOutcome).
                      (get_attempt_finished codec request.job_id first ≡ ok (some x.0))
                      × (adjudicated_outcome d codec adjudicator request x.0 ≡ accepted x.1))
                    same (read ∙ ap ok is, made)
            ]
      ]
    ]

-- Where `adjudicate` returns an outcome for a job that had none when it looked, the outcome is that of the
-- adjudicator's evidence for the job's last finished attempt: the evidence is for the attempt's bundle and
-- the requested profile, the outcome has the requested contract, the evidence's evaluation and the
-- decision that follows from it, and `publish_task_outcome` returned it for that attempt. The
-- decision is that the task has passed exactly where that evaluation is complete and its result a pass.
pub adjudicate_task-IsDecided :
    (d : OutcomeDigests) (codec : OutcomeCodec) (adjudicator : Adjudicator)
    (request : TaskOutcomeRequest) (utc : String) (first second db db' : Db) (r : TaskOutcome)
    → get_task_outcome codec request.job_id second ≡ ok none
    → adjudicate_task d codec adjudicator request utc first second db ≡ (ok r, db')
    → IsDecided d codec adjudicator request utc first db r db'
unfolding adjudicate_task adjudicated_outcome
adjudicate_task-IsDecided d codec adjudicator request utc first second db db' r fresh h =
    elim (Result-cases (prepared d codec adjudicator request first second)) [
      | inr (e, lost) ↦ absurd (ground arith)
      | inl ((attempt, o), ready) ↦
          let (current, made) =
            prepared_lem d codec adjudicator request first second attempt o fresh ready in
          let (a, adjudicates, k) =
            >>=-accepted (adjudicator (adjudication_request request attempt)) _ made in
          let (contracts, evaluations, decides, bundles, profiles) =
            outcome_of_lem d codec request attempt a o k in
          let publishes : publish_task_outcome codec attempt o utc db ≡ (ok r, db') =
            ground arith in
          let same = publish_returns codec attempt o utc db db' r publishes in
          let decision = decides ∙ ap (λ (x : TaskOutcome). accepted x.decision) (sym same) in
          record {
            attempt = attempt;
            current = current;
            evidence = a;
            adjudicated = adjudicates;
            bundle = bundles;
            profile = profiles;
            contract = ap (λ (x : TaskOutcome). x.contract) same ∙ contracts;
            evaluation = ap (λ (x : TaskOutcome). x.evaluation) same ∙ evaluations;
            decision = decision;
            passes =
                decided_by a.evaluation.lifecycle a.evaluation.logical_result a.evaluation
                  r.decision refl refl decision;
            published =
                subst (λ x. publish_task_outcome codec attempt x utc db ≡ (ok r, db')) (sym same)
                  publishes;
          }
    ]
