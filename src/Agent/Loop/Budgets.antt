-- ===== src/Agent/Loop/Budgets.antt =====
-- The counters of a run against its limits and cadence.
use mathlib.Core.Path.{subst}
use sisyphus_harness.Prelude.{
  ℕ, zero, suc, ◌+◌, ◌<◌, String, ◌≡◌, refl, sym, ◌⊎◌, inl, inr, true, false, some, List, [], ◌∷◌,
  ◌++◌, arith, Bool-cases, Option-cases, is_some, ltb, if◌then◌else◌,
}
use sisyphus_harness.Contracts.{AgentTask}
use sisyphus_harness.Agent.{
  stop, event, stagnation, ModelReply, content, deadline_exceeded, provider_failure, Parsed,
  decision, malformed, StepInput,
}
use sisyphus_harness.Agent.Protocol.{parse_agent_decision}
use sisyphus_harness.Agent.State.{
  AgentRunState, observe_decision, decision_payload, should_compact, compact, start,
}
use sisyphus_harness.Agent.Loop.Unrolling.{run_from-late, run_from-ended, run_from-going}
use sisyphus_harness.Agent.Loop.{
  AgentRunLoop, Written, StepOutcome, decided_step, parsed_step, reply_step, run_step, run_from,
  run, Ended, of_transition, out_of_time,
}
use sisyphus_harness.Agent.Loop.Counters.{
  IsCounted, IsGoing, Kept, counted, decided_step-Kept, observe_decision-IsGoing,
  observe_decision-IsCounted,
}

parsed_step-Kept :
    (loop : AgentRunLoop) (step : ℕ) (answer : String) (p : Parsed) (input : StepInput)
    (s : AgentRunState)
    → IsGoing loop s
    → Kept loop
        (parsed_step loop step answer p input s).state
        (parsed_step loop step answer p input s).termination
unfolding parsed_step
parsed_step-Kept loop step answer (malformed error) input s g =
    let c : IsCounted loop (parsed_step loop step answer (malformed error) input s).state = record {
      compactions = g.compactions;
      protocol_errors = omega (arith, g.protocol_errors);
      receipts = g.receipts;
    } in
    elim (Bool-cases (ltb loop.limits.max_protocol_errors (s.protocol_errors + 1))) [
      | inl many ↦ (c, inl (ground arith))
      | inr few ↦ (
        c,
        inr (record {
          compactions = g.compactions;
          protocol_errors = ground arith;
          receipts = g.receipts;
          unverified = g.unverified;
          repeated = g.repeated;
          cycles = g.cycles;
        }),
      )
    ]
parsed_step-Kept loop step answer (decision d) input s g =
    let observation = observe_decision loop.outside loop.cadence.stagnation_limit d s in
    let fingerprint = loop.outside.fingerprint (decision_payload d) in
    let e = event (stagnation step fingerprint observation.0.repeated_fingerprint) in
    let stagnant_end : StepOutcome = record {
      state = observation.0;
      written = record { step = step; before = input.before; after = input.before; event = e } ∷ [];
      termination = some (stop false "stagnation threshold reached" step);
    } in
    let onward = of_transition step input.before (decided_step loop step d input observation.0) in
    let fate = λ (o : StepOutcome). Kept loop o.state o.termination in
    elim (Bool-cases observation.1) [
      | inl stagnant ↦
          subst (λ b. fate (if b then stagnant_end else onward)) (sym stagnant)
            (observe_decision-IsCounted loop d s g, inl refl)
      | inr moving ↦
          subst (λ b. fate (if b then stagnant_end else onward)) (sym moving)
            (decided_step-Kept loop step d input observation.0
              (observe_decision-IsGoing loop d s g moving))
    ]

reply_step-Kept :
    (loop : AgentRunLoop) (step : ℕ) (reply : ModelReply) (input : StepInput) (s : AgentRunState)
    → IsGoing loop s
    → Kept loop
        (reply_step loop step reply input s).state
        (reply_step loop step reply input s).termination
unfolding reply_step
reply_step-Kept loop step (content answer) input s g =
    let onward = parsed_step loop step answer (parse_agent_decision loop.outside answer) input s in
    let fate = λ (o : StepOutcome). Kept loop o.state o.termination in
    elim (Bool-cases input.expired_after) [
      | inl late ↦
          subst (λ b. fate (if b then out_of_time step s else onward)) (sym late)
            (counted loop s g, inl refl)
      | inr timely ↦
          subst (λ b. fate (if b then out_of_time step s else onward)) (sym timely)
            (parsed_step-Kept loop step answer (parse_agent_decision loop.outside answer) input s g)
    ]
reply_step-Kept loop step deadline_exceeded input s g = (counted loop s g, inl refl)
reply_step-Kept loop step (provider_failure error) input s g = (counted loop s g, inl refl)

compact-IsGoing :
    (loop : AgentRunLoop) (step : ℕ) (s : AgentRunState)
    → should_compact loop.outside loop.cadence loop.limits.max_compactions step s ≡ true
    → IsGoing loop s
    → IsGoing loop (compact loop.cadence s)
unfolding compact should_compact
compact-IsGoing loop step s h g = record {
  compactions = ground arith;
  protocol_errors = g.protocol_errors;
  receipts = g.receipts;
  unverified = g.unverified;
  repeated = g.repeated;
  cycles = g.cycles;
}

-- A step from counters that let the run go on: the compactions stay within their limit, the protocol
-- errors within theirs and one more, and there is one receipt for each verification; and unless the
-- step ends the run, the protocol errors are within the limit, fewer mutations than the interval
-- are unverified, and neither repeated decisions nor workspace cycles have reached the limit.
pub run_step-Kept :
    (loop : AgentRunLoop) (step : ℕ) (input : StepInput) (s : AgentRunState)
    → IsGoing loop s
    → IsCounted loop (run_step loop step input s).state
      × ((is_some (run_step loop step input s).termination ≡ true)
          ⊎ IsGoing loop (run_step loop step input s).state)
unfolding run_step
run_step-Kept loop step input s g =
    let due = should_compact loop.outside loop.cadence loop.limits.max_compactions step s in
    let going : IsGoing loop (if due then compact loop.cadence s else s) = elim (Bool-cases due) [
      | inl yes_ ↦
          subst (λ b. IsGoing loop (if b then compact loop.cadence s else s)) (sym yes_)
            (compact-IsGoing loop step s yes_ g)
      | inr no_ ↦ subst (λ b. IsGoing loop (if b then compact loop.cadence s else s)) (sym no_) g
    ] in
    reply_step-Kept loop step input.reply input (if due then compact loop.cadence s else s) going

run_from-IsCounted :
    (loop : AgentRunLoop) (inputs : ℕ → StepInput) (left step : ℕ) (s : AgentRunState)
    (written : List Written)
    → IsGoing loop s
    → IsCounted loop (run_from loop inputs left step s written).state
unfolding run_from
run_from-IsCounted loop inputs zero step s written g = counted loop s g
run_from-IsCounted loop inputs (suc left) step s written g =
    let r = run_step loop step (inputs step) s in
    let (c, onward) = run_step-Kept loop step (inputs step) s g in
    let ok = λ (o : Ended). IsCounted loop o.state in
    elim (Bool-cases (inputs step).expired) [
      | inl late ↦
          subst ok (sym (run_from-late loop inputs left step s written late)) (counted loop s g)
      | inr timely ↦ elim (Option-cases r.termination) [
        | inr (t, ended) ↦
            subst ok (sym (run_from-ended loop inputs left step s written t timely ended)) c
        | inl going ↦ subst ok (sym (run_from-going loop inputs left step s written timely going)) (
            run_from-IsCounted loop inputs left (step + 1) r.state (written ++ r.written)
              (elim onward [ inl stopped ↦ absurd (ground arith) | inr g' ↦ g' ]))
      ]
    ]

pub start-IsGoing :
    (loop : AgentRunLoop) (task : AgentTask) (initial : String)
    → 0 < loop.cadence.verification_interval_mutations
    → 0 < loop.cadence.stagnation_limit
    → IsGoing loop (start task initial)
unfolding start
start-IsGoing loop task initial h k = record {
  compactions = omega arith;
  protocol_errors = omega arith;
  receipts = refl;
  unverified = h;
  repeated = k;
  cycles = k;
}

-- A run from the start, with cadence values above 0: at its end the compactions are within their limit,
-- the protocol errors within theirs and one more, and the result has one receipt for each verification.
pub run-IsCounted :
    (loop : AgentRunLoop) (task : AgentTask) (initial : String) (inputs : ℕ → StepInput)
    → 0 < loop.cadence.verification_interval_mutations
    → 0 < loop.cadence.stagnation_limit
    → IsCounted loop (run loop inputs (start task initial)).state
unfolding run
run-IsCounted loop task initial inputs h k =
    run_from-IsCounted loop inputs loop.limits.max_steps 1 (start task initial) []
      (start-IsGoing loop task initial h k)
