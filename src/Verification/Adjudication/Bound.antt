-- ===== src/Verification/Adjudication/Bound.antt =====
-- What is known of a result that `adjudicate` returns.
use mathlib.Core.List.{Memᴰ}
use mathlib.Core.Path.{subst}
use sisyphus_harness.Prelude.{
  String, ◌≡◌, refl, sym, ap, true, Option, some, List, [], ◌∷◌, arith, Option-cases, inl, inr,
}
use sisyphus_harness.Prelude.Checked.{
  accepted, >>=-accepted, ensure-accepted, accepted-after, accepted-injective,
}
use sisyphus_harness.Contracts.Verification.{
  CommandResult, VerifierExecutionIdentity, BundleVerificationRequest, VerificationServiceResult,
}
use sisyphus_harness.Prelude.Equality.{equal}
use sisyphus_harness.Contracts.Equality.{receipt-discrete}
use sisyphus_harness.Evidence.{
  Scalar, completed, EvidenceClause, EvidenceContract, EvidenceObservation, PredicateEvaluation,
  ContractEvaluation,
}
use sisyphus_harness.Evidence.Lint.Walk.{size}
use sisyphus_harness.Evidence.Evaluation.{
  Codec, judge, matches_of, evaluate_clauses, evaluate_evidence_contract,
}
use sisyphus_harness.Evidence.Evaluation.Totality.{
  ContractEvaluated, has_completed, has_failed, evaluate_evidence_contract_lem,
}
use sisyphus_harness.Verification.{Digests, fact_selector}
use sisyphus_harness.Verification.Bindings.{validate_final_verification_bindings}
use sisyphus_harness.Verification.Bindings.Accepted.{
  IsResultOf, validate_final_verification_bindings-IsResultOf,
}
use sisyphus_harness.Verification.Facts.{command_facts, validate_final_command_observations}
use sisyphus_harness.Verification.Facts.Lookup.{fact_result, judge-validated}
use sisyphus_harness.Verification.Adjudication.{
  Ports, EvidenceAdjudicationRequest, EvidenceAdjudicationResult, default_limits, check_profile,
  verification_request_of, verified, validated_observations, evaluated, check_adjudication,
  adjudication_result, adjudicate,
}

-- How a result follows from the request and from what the verifier and the adapter returned.
pub record IsAdjudication (digests : Digests) (codec : Codec) (ports : Ports)
    (request : EvidenceAdjudicationRequest) (r : EvidenceAdjudicationResult) : Type 0 where
  pub identity : VerifierExecutionIdentity
  pub asked : r.verification_request ≡ verification_request_of request identity
  pub read :
      ports.read_receipt r.verification_result.receipt_artifact
      ≡ accepted r.verification_result.receipt
  pub bound : IsResultOf digests r.verification_request r.verification_result
  pub validated :
      validate_final_command_observations r.verification_request r.verification_result
        r.observations request.producer_authority
      ≡ accepted tt
  pub evaluation :
      evaluate_evidence_contract
        (size request.contract.task_success)
        codec
        default_limits
        request.contract
        r.observations
      ≡ some r.evaluation

verified_lem :
    (digests : Digests) (ports : Ports) (asked : BundleVerificationRequest)
    (final : VerificationServiceResult)
    → verified digests ports asked ≡ accepted final
    → (ports.read_receipt final.receipt_artifact ≡ accepted final.receipt)
      × IsResultOf digests asked final
unfolding verified
verified_lem digests ports asked final h =
    let (result, executed, a) = >>=-accepted (ports.execute asked) _ h in
    let (_, first, b) =
      >>=-accepted (validate_final_verification_bindings digests true asked result) _ a in
    let (receipt, read, c) = >>=-accepted (ports.read_receipt result.receipt_artifact) _ b in
    let d = ensure-accepted (equal receipt-discrete receipt result.receipt) _ _ c in
    let final' : VerificationServiceResult = record result { receipt = receipt } in
    let (_, second, e) =
      >>=-accepted (validate_final_verification_bindings digests true asked final') _ d.1 in
    let same : final' ≡ final = accepted-injective final' final e in
    subst
      (λ (f : VerificationServiceResult).
        (ports.read_receipt f.receipt_artifact ≡ accepted f.receipt) × IsResultOf digests asked f)
      same (read, validate_final_verification_bindings-IsResultOf digests true asked final' second)

validated_lem :
    (ports : Ports) (asked : BundleVerificationRequest) (result : VerificationServiceResult)
    (authority : String) (os : List EvidenceObservation)
    → validated_observations ports asked result authority ≡ accepted os
    → validate_final_command_observations asked result os authority ≡ accepted tt
unfolding validated_observations
validated_lem ports asked result authority os h =
    let (made, adapted, a) = >>=-accepted (ports.adapt asked result authority) _ h in
    let (_, validated, b) =
      >>=-accepted (validate_final_command_observations asked result made authority) _ a in
    subst (λ os. validate_final_command_observations asked result os authority ≡ accepted tt)
      (accepted-injective made os b) validated

evaluated_lem :
    (codec : Codec) (contract : EvidenceContract) (os : List EvidenceObservation)
    (e : ContractEvaluation)
    → evaluated codec contract os ≡ accepted e
    → evaluate_evidence_contract (size contract.task_success) codec default_limits contract os
      ≡ some e
unfolding evaluated
evaluated_lem codec contract os e h =
    elim (Option-cases
      (evaluate_evidence_contract (size contract.task_success) codec default_limits contract os)) [
        | inl missing ↦ absurd (ground arith)
        | inr (found, k) ↦ ground arith
      ]

-- A result that `adjudicate` returns is of a verification request with the attempt's output bundle, the
-- given profile and run; its receipt is the one that the verifier's artifact holds, and is bound to that
-- request; its observations, whatever adapter made them, are the receipt's facts by
-- `validate_final_command_observations`; and its evaluation is the contract's on just those observations.
pub adjudicate-IsAdjudication :
    (digests : Digests) (codec : Codec) (ports : Ports) (request : EvidenceAdjudicationRequest)
    (r : EvidenceAdjudicationResult)
    → adjudicate digests codec ports request ≡ accepted r
    → IsAdjudication digests codec ports request r
unfolding adjudicate
adjudicate-IsAdjudication digests codec ports request r h =
    let (_, profiled, a) = >>=-accepted (check_profile ports request) _ h in
    let (identity, identified, b) = >>=-accepted ports.execution_identity _ a in
    let asked = verification_request_of request identity in
    let (result, verifies, c) = >>=-accepted (verified digests ports asked) _ b in
    let (os, observes, d) =
      >>=-accepted (validated_observations ports asked result request.producer_authority) _ c in
    let (e, evaluates, f) = >>=-accepted (evaluated codec request.contract os) _ d in
    let made = adjudication_result request.job_result asked result os e in
    let same : r ≡ made = accepted-after (check_adjudication digests made) made f in
    let (read, bound) = verified_lem digests ports asked result verifies in
    subst (IsAdjudication digests codec ports request) (sym same) (record {
      identity = identity;
      asked = refl;
      read = read;
      bound = bound;
      validated = validated_lem ports asked result request.producer_authority os observes;
      evaluation = evaluated_lem codec request.contract os e evaluates;
    })

-- The evaluation of a clause is among those of the clauses.
clause_evaluated :
    (clauses : List EvidenceClause) (os : List EvidenceObservation) (c : EvidenceClause)
    → Memᴰ c clauses
    → Memᴰ (judge c (matches_of c os)) (evaluate_clauses clauses os)
unfolding evaluate_clauses
clause_evaluated [] os c m = elim m [ ]
clause_evaluated (d ∷ clauses) os c (Memᴰ.head e) =
    Memᴰ.head (ap (λ x. judge x (matches_of x os)) e)
clause_evaluated (d ∷ clauses) os c (Memᴰ.tail m) = Memᴰ.tail (clause_evaluated clauses os c m)

judged_id :
    (c : EvidenceClause) (os : List EvidenceObservation) → (judge c os).clause_id ≡ c.clause_id
unfolding judge
judged_id c [] = refl
judged_id c (o ∷ []) = refl
judged_id c (o ∷ p ∷ os) = refl

completed_predicates :
    (contract : EvidenceContract) (os : List EvidenceObservation) (e : ContractEvaluation)
    → ContractEvaluated contract os e
    → e.lifecycle ≡ completed
    → e.predicates ≡ evaluate_clauses contract.clauses os
completed_predicates contract os e (has_completed root l logical p x n) k = p
completed_predicates contract os e (has_failed code l logical p x) k = absurd cc

-- Where `adjudicate` returns a result with a completed evaluation, a clause of the contract on a fact of a
-- command of the receipt has an evaluation there whose result is what the clause's operator gives on the
-- receipt's value of the fact, and indeterminate where the receipt has no exit code.
pub adjudicated_clause :
    (digests : Digests) (codec : Codec) (ports : Ports) (request : EvidenceAdjudicationRequest)
    (r : EvidenceAdjudicationResult) (c : EvidenceClause) (command : CommandResult) (fact : String)
    (expected : Option Scalar)
    → adjudicate digests codec ports request ≡ accepted r
    → r.evaluation.lifecycle ≡ completed
    → Memᴰ c request.contract.clauses
    → Memᴰ command r.verification_result.receipt.commands
    → Memᴰ (fact, expected) (command_facts command)
    → c.selector ≡ fact_selector command.name fact request.producer_authority
    → (p : PredicateEvaluation) × Memᴰ p r.evaluation.predicates
      × (p.clause_id ≡ c.clause_id)
      × (p.result ≡ fact_result c expected)
adjudicated_clause digests codec ports request r c command fact expected h l m n f s =
    let made = adjudicate-IsAdjudication digests codec ports request r h in
    let predicates =
      completed_predicates request.contract r.observations r.evaluation
        (evaluate_evidence_contract_lem (size request.contract.task_success) codec default_limits
          request.contract r.observations r.evaluation made.evaluation)
        l in
    (
      judge c (matches_of c r.observations),
      subst (Memᴰ (judge c (matches_of c r.observations))) (sym predicates)
          (clause_evaluated request.contract.clauses r.observations c m),
      judged_id c (matches_of c r.observations),
      judge-validated r.verification_request r.verification_result r.observations
          request.producer_authority command fact expected c made.validated n f s,
    )
