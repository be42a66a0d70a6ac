-- ===== src/Verification/Adjudication/Independence.antt =====
-- `adjudicate` does not depend on what the agent says of itself.
use sisyphus_harness.Prelude.{◌≡◌, refl, Bool}
use sisyphus_harness.Prelude.Checked.{Checked, accepted, raised, ◌>>=◌}
use sisyphus_harness.Contracts.{AgentResult}
use sisyphus_harness.Evidence.Evaluation.{Codec}
use sisyphus_harness.Verification.{Digests}
use sisyphus_harness.Verification.Adjudication.{
  Ports, EvidenceAdjudicationRequest, EvidenceAdjudicationResult, check_profile, verified,
  verification_request_of, validated_observations, evaluated, check_adjudication,
  adjudication_result, adjudicate,
}

-- The request with another agent's report, and the result with its claim.
abbrev pub with_report : AgentResult → EvidenceAdjudicationRequest → EvidenceAdjudicationRequest
with_report report request = record request {
  job_result = record (request.job_result) { agent_result = report };
}

abbrev pub with_claim :
    Bool → Checked EvidenceAdjudicationResult → Checked EvidenceAdjudicationResult
with_claim claim (raised message) = raised message
with_claim claim (accepted r) = accepted (record r { agent_reported_success = claim })

claim_last {ℓ} :
    {A : Type ℓ} (claim : Bool) (first : Checked A) (f g : A → Checked EvidenceAdjudicationResult)
    → ((a : A) → f a ≡ with_claim claim (g a))
    → (first >>= f) ≡ with_claim claim (first >>= g)
claim_last claim (accepted a) f g h = h a
claim_last claim (raised message) f g h = refl

-- With another report of the agent, on its success, its steps or its changes, `adjudicate` raises the same
-- exception, or returns the same result but for `agent_reported_success`, which is copied: the same
-- verification, the same observations and the same evaluation.
pub adjudicate-with_report :
    (digests : Digests) (codec : Codec) (ports : Ports) (request : EvidenceAdjudicationRequest)
    (report : AgentResult)
    → adjudicate digests codec ports (with_report report request)
      ≡ with_claim report.success (adjudicate digests codec ports request)
unfolding adjudicate check_profile check_adjudication
adjudicate-with_report digests codec ports request report =
    claim_last report.success (check_profile ports request) _ _ λ _.
      claim_last report.success ports.execution_identity _ _ λ identity.
        let asked = verification_request_of request identity in
        claim_last report.success (verified digests ports asked) _ _ λ result.
          claim_last report.success
            (validated_observations ports asked result request.producer_authority) _ _
            λ observations.
              claim_last report.success (evaluated codec request.contract observations) _ _ λ e.
                claim_last report.success
                  (check_adjudication digests
                    (adjudication_result request.job_result asked result observations e))
                  _ _ λ _. refl
