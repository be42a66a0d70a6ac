-- ===== src/Agent/Loop/Counters.antt =====
-- The counters of a run, and a decision's effect on them.
use mathlib.Core.Path.{subst}
use sisyphus_harness.Prelude.{
  ℕ, ◌+◌, ◌≤◌, ◌<◌, String, ◌≡◌, sym, ◌∙◌, ap, ◌⊎◌, inl, inr, true, false, Option, none, some,
  arith, Option-cases, is_some, length,
}
use sisyphus_harness.Contracts.Json.{Fields}
use sisyphus_harness.Agent.{AgentDecision, tool, AgentTermination, StepInput}
use sisyphus_harness.Agent.Compaction.{event_mutated}
use sisyphus_harness.Agent.State.{AgentRunState, observe_decision}
use sisyphus_harness.Agent.Transitions.{
  AgentStepTransition, execute, after_tool, attempt_tool, settle_tool, ToolAttempt,
  count_verification,
}
use sisyphus_harness.Agent.Transitions
use sisyphus_harness.Agent.Loop.{AgentRunLoop, tool_step, decided_step}
use sisyphus_harness.Agent.Transitions.Counters.{
  settle_tool-counters, settle_tool-cycles, attempt_tool-counters, after_tool-counters,
  after_tool-receipts, after_tool-unverified, finish-counters, finish-receipts,
}

-- The counters that a run of any length keeps, in progress or ended.
pub record IsCounted (loop : AgentRunLoop) (s : AgentRunState) : Type 0 where
  pub compactions : s.compactions ≤ loop.limits.max_compactions
  pub protocol_errors : s.protocol_errors ≤ loop.limits.max_protocol_errors + 1
  pub receipts : s.verifications ≡ length s.verification_artifacts

-- The counters that let a run go on.
pub record IsGoing (loop : AgentRunLoop) (s : AgentRunState) : Type 0 where
  pub compactions : s.compactions ≤ loop.limits.max_compactions
  pub protocol_errors : s.protocol_errors ≤ loop.limits.max_protocol_errors
  pub receipts : s.verifications ≡ length s.verification_artifacts
  pub unverified : s.mutations_since_verify < loop.cadence.verification_interval_mutations
  pub repeated : s.repeated_fingerprint < loop.cadence.stagnation_limit
  pub cycles : s.workspace_cycle_streak < loop.cadence.stagnation_limit

pub counted : (loop : AgentRunLoop) (s : AgentRunState) → IsGoing loop s → IsCounted loop s
counted loop s g = record {
  compactions = g.compactions;
  protocol_errors = omega (arith, g.protocol_errors);
  receipts = g.receipts;
}

-- A state that its step leaves within its counters, and that goes on unless the step ended the run.
abbrev pub Kept : AgentRunLoop → AgentRunState → Option AgentTermination → Type 0
Kept loop s o = IsCounted loop s × ((is_some o ≡ true) ⊎ IsGoing loop s)

Kept-going :
    (loop : AgentRunLoop) (s : AgentRunState) (o : Option AgentTermination)
    → IsGoing loop s
    → Kept loop s o
Kept-going loop s o g = (counted loop s g, inr g)

after_tool-Kept :
    (loop : AgentRunLoop) (step : ℕ) (input : StepInput) (s : AgentRunState)
    (t : AgentStepTransition)
    → IsCounted loop s
    → s.protocol_errors ≤ loop.limits.max_protocol_errors
    → s.repeated_fingerprint < loop.cadence.stagnation_limit
    → s.workspace_cycle_streak < loop.cadence.stagnation_limit
    → 0 < loop.cadence.verification_interval_mutations
    → (event_mutated t.event.kind ≡ true)
      ⊎ (s.mutations_since_verify < loop.cadence.verification_interval_mutations)
    → IsGoing loop (after_tool loop.cadence.verification_interval_mutations step input s t).0
after_tool-Kept loop step input s t c e r w p h =
    let interval = loop.cadence.verification_interval_mutations in
    let ((compactions, errors, repeated), cycles) = after_tool-counters interval step input s t in
    record {
      compactions = omega (arith, compactions, c.compactions);
      protocol_errors = omega (arith, errors);
      receipts = after_tool-receipts interval step input s t c.receipts;
      unverified = after_tool-unverified interval step input s t p h;
      repeated = omega (arith, repeated);
      cycles = omega (arith, cycles);
    }

-- A tool call, with the verification after it.
pub tool_step-Kept :
    (loop : AgentRunLoop) (step : ℕ) (name : String) (arguments : Fields) (reason : String)
    (input : StepInput) (s : AgentRunState)
    → IsGoing loop s
    → Kept loop
        (tool_step loop step name arguments reason input s).0
        (tool_step loop step name arguments reason input s).1.termination
unfolding tool_step execute
tool_step-Kept loop step name arguments reason input s g =
    let limit = loop.cadence.stagnation_limit in
    let interval = loop.cadence.verification_interval_mutations in
    let a = attempt_tool loop.outside step name arguments reason input s input.tool_reply in
    let settled = settle_tool limit step a in
    let ((c1, e1, r1), v1, l1, w1, m1) =
      attempt_tool-counters loop.outside step name arguments reason input s input.tool_reply in
    let ((c2, e2, r2), v2, l2, m2, k2) = settle_tool-counters limit step a in
    let settled-IsCounted : IsCounted loop settled.0 = record {
      compactions = omega (arith, c1, c2, g.compactions);
      protocol_errors = omega (arith, e1, e2, g.protocol_errors);
      receipts = v2 ∙ v1 ∙ g.receipts ∙ sym (ap length (l2 ∙ l1));
    } in
    let next : AgentStepTransition → Option AgentTermination → AgentRunState × AgentStepTransition =
      λ t o. elim o [
        | some _ ↦ (settled.0, t)
        | none ↦ after_tool interval step input settled.0 t
      ] in
    let fate = λ (x : AgentRunState × AgentStepTransition). Kept loop x.0 x.1.termination in
    elim (Option-cases settled.1.termination) [
      | inr (u, k) ↦
          subst fate (sym (ap (next settled.1) k)) (settled-IsCounted, inl (ap is_some k))
      | inl n ↦ subst fate (sym (ap (next settled.1) n)) (
          Kept-going loop _ _ (
            after_tool-Kept loop step input settled.0 settled.1 settled-IsCounted
              (omega (arith, e1, e2, g.protocol_errors)) (omega (arith, r1, r2, g.repeated))
              (settle_tool-cycles limit step a (omega (arith, g.cycles))
                (omega (arith, w1, g.cycles)) n)
              (omega (arith, g.unverified)) (ground (arith, m1, m2, k2, g.unverified))))
    ]

finish-IsGoing :
    (loop : AgentRunLoop) (step : ℕ) (summary : String) (input : StepInput) (s : AgentRunState)
    → IsGoing loop s
    → IsGoing loop (Transitions.finish step summary input s).0
finish-IsGoing loop step summary input s g =
    let ((compactions, errors, repeated), cycles, mutations) =
      finish-counters step summary input s in
    record {
      compactions = omega (arith, compactions, g.compactions);
      protocol_errors = omega (arith, errors, g.protocol_errors);
      receipts = finish-receipts step summary input s g.receipts;
      unverified = omega (arith, mutations, g.unverified);
      repeated = omega (arith, repeated, g.repeated);
      cycles = omega (arith, cycles, g.cycles);
    }

pub decided_step-Kept :
    (loop : AgentRunLoop) (step : ℕ) (d : AgentDecision) (input : StepInput) (s : AgentRunState)
    → IsGoing loop s
    → Kept loop
        (decided_step loop step d input s).0
        (decided_step loop step d input s).1.termination
unfolding decided_step
decided_step-Kept loop step (tool name arguments reason) input s g =
    tool_step-Kept loop step name arguments reason input s g
decided_step-Kept loop step (AgentDecision.finish summary) input s g =
    Kept-going loop _ _ (finish-IsGoing loop step summary input s g)

pub observe_decision-IsGoing :
    (loop : AgentRunLoop) (d : AgentDecision) (s : AgentRunState)
    → IsGoing loop s
    → (observe_decision loop.outside loop.cadence.stagnation_limit d s).1 ≡ false
    → IsGoing loop (observe_decision loop.outside loop.cadence.stagnation_limit d s).0
unfolding observe_decision
observe_decision-IsGoing loop d s g h = record {
  compactions = g.compactions;
  protocol_errors = g.protocol_errors;
  receipts = g.receipts;
  unverified = g.unverified;
  repeated = ground arith;
  cycles = g.cycles;
}

pub observe_decision-IsCounted :
    (loop : AgentRunLoop) (d : AgentDecision) (s : AgentRunState)
    → IsGoing loop s
    → IsCounted loop (observe_decision loop.outside loop.cadence.stagnation_limit d s).0
unfolding observe_decision
observe_decision-IsCounted loop d s g = record {
  compactions = g.compactions;
  protocol_errors = omega (arith, g.protocol_errors);
  receipts = g.receipts;
}
