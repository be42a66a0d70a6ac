-- ===== src/Agent/Loop/Success.antt =====
-- When a run succeeds, and how many steps it takes.
use mathlib.Core.Path.{subst}
use sisyphus_harness.Prelude.{
  ℕ, zero, suc, ◌+◌, ◌≤◌, String, ◌≡◌, refl, sym, ◌∙◌, ap, ◌⊎◌, inl, inr, true, false, none, some,
  List, [], ◌++◌, arith, Bool-cases, Option-cases, if◌then◌else◌,
}
use sisyphus_harness.Contracts.Json.{Fields}
use sisyphus_harness.Agent.{
  AgentDecision, tool, AgentTermination, ModelReply, content, deadline_exceeded, provider_failure,
  Parsed, decision, malformed, StepInput,
}
use sisyphus_harness.Agent.Protocol.{parse_agent_decision}
use sisyphus_harness.Agent.State.{
  AgentRunState, observe_decision, update_criterion_status, remember_verification_state,
}
use sisyphus_harness.Agent.Transitions.{
  AgentStepTransition, execute, after_tool, attempt_tool, settle_tool, ToolAttempt,
  count_verification,
}
use sisyphus_harness.Agent.Transitions
use sisyphus_harness.Agent.Loop.Unrolling.{run_from-late, run_from-ended, run_from-going}
use sisyphus_harness.Agent.Loop.{
  AgentRunLoop, Written, tool_step, decided_step, parsed_step, reply_step, run_step, run_from, run,
  Ended, out_of_time,
}

-- A step that confirms the work: the provider answers in time with the end of the run, and the verifier
-- passes the workspace and leaves it unchanged.
pub record Confirmed (loop : AgentRunLoop) (input : StepInput) (state : AgentRunState)
    : Type 0 where
  pub answer : String
  pub summary : String
  pub replied : input.reply ≡ content answer
  pub in_time : input.expired_after ≡ false
  pub parsed : parse_agent_decision loop.outside answer ≡ decision (AgentDecision.finish summary)
  pub passed : input.receipt.passed ≡ true
  pub unchanged : input.receipt.workspace_unchanged ≡ true
  pub summarized : state.final_summary ≡ some summary

-- A termination that fails, or that a confirmed step causes, at the step or the one before.
abbrev pub Justified : AgentRunLoop → ℕ → StepInput → AgentRunState → AgentTermination → Type 0
Justified loop step input state t =
    (t.steps ≤ step)
    × ((t.success ≡ false)
        ⊎ ((t.steps ≡ step)
            × (t.reason ≡ "final verification passed")
            × Confirmed loop input state))

settle_tool-fails :
    (limit step : ℕ) (a : ToolAttempt) (t : AgentTermination)
    → (settle_tool limit step a).1.termination ≡ some t
    → (t.success ≡ false) × (t.steps ≡ step)
unfolding settle_tool
settle_tool-fails limit step a t h = ground arith

after_tool-fails :
    (interval step : ℕ) (input : StepInput) (s : AgentRunState) (transition : AgentStepTransition)
    (t : AgentTermination)
    → transition.termination ≡ none
    → (after_tool interval step input s transition).1.termination ≡ some t
    → (t.success ≡ false) × (t.steps ≡ step)
unfolding after_tool
after_tool-fails interval step input s transition t n h = ground arith

tool_step-fails :
    (loop : AgentRunLoop) (step : ℕ) (name : String) (arguments : Fields) (reason : String)
    (input : StepInput) (s : AgentRunState) (t : AgentTermination)
    → (tool_step loop step name arguments reason input s).1.termination ≡ some t
    → (t.success ≡ false) × (t.steps ≡ step)
unfolding tool_step execute
tool_step-fails loop step name arguments reason input s t h =
    let limit = loop.cadence.stagnation_limit in
    let a = attempt_tool loop.outside step name arguments reason input s input.tool_reply in
    let settled = settle_tool limit step a in
    elim (Option-cases settled.1.termination) [
      | inr (u, k) ↦ ground (arith, settle_tool-fails limit step a u k)
      | inl n ↦ ground (
        arith,
        after_tool-fails loop.cadence.verification_interval_mutations step input settled.0 settled.1
            t n,
      )
    ]

finish-Justified :
    (step : ℕ) (summary : String) (input : StepInput) (s : AgentRunState) (t : AgentTermination)
    → (Transitions.finish step summary input s).1.termination ≡ some t
    → (t.steps ≡ step)
      × ((t.success ≡ false)
          ⊎ ((t.reason ≡ "final verification passed")
              × (input.receipt.passed ≡ true)
              × (input.receipt.workspace_unchanged ≡ true)
              × ((Transitions.finish step summary input s).0.final_summary ≡ some summary)))
unfolding Transitions.finish count_verification update_criterion_status remember_verification_state
finish-Justified step summary input s t h = ground arith

parsed_step-Justified :
    (loop : AgentRunLoop) (step : ℕ) (answer : String) (p : Parsed) (input : StepInput)
    (s : AgentRunState) (t : AgentTermination)
    → input.reply ≡ content answer
    → input.expired_after ≡ false
    → parse_agent_decision loop.outside answer ≡ p
    → (parsed_step loop step answer p input s).termination ≡ some t
    → Justified loop step input (parsed_step loop step answer p input s).state t
unfolding parsed_step decided_step
parsed_step-Justified loop step answer (malformed error) input s t r e p h =
    let fails : (t.steps ≡ step) × (t.success ≡ false) = ground arith in (ground arith, inl fails.1)
parsed_step-Justified loop step answer (decision (tool name arguments reason)) input s t r e p h =
    let limit = loop.cadence.stagnation_limit in
    let d = tool name arguments reason in
    let observed = (observe_decision loop.outside limit d s).0 in
    let fails : (t.steps ≡ step) × (t.success ≡ false) =
      elim (Bool-cases (observe_decision loop.outside limit d s).1) [
        | inl stagnant ↦ ground arith
        | inr moving ↦
            ground (arith, tool_step-fails loop step name arguments reason input observed t)
      ] in
    (ground arith, inl fails.1)
parsed_step-Justified loop step answer (decision (AgentDecision.finish summary)) input s t r e p h =
    let limit = loop.cadence.stagnation_limit in
    let d = AgentDecision.finish summary in
    let observed = (observe_decision loop.outside limit d s).0 in
    elim (Bool-cases (observe_decision loop.outside limit d s).1) [
      | inl stagnant ↦
          let fails : (t.steps ≡ step) × (t.success ≡ false) = ground arith in
          (ground arith, inl fails.1)
      | inr moving ↦
          let ended : (Transitions.finish step summary input observed).1.termination ≡ some t =
            ground arith in
          let same : (parsed_step loop step answer (decision d) input s).state
              ≡ (Transitions.finish step summary input observed).0 =
            ground arith in
          let (steps, result) = finish-Justified step summary input observed t ended in
          (
            ground arith,
            elim result [
              | inl fails ↦ inl fails
              | inr (reason, passed, unchanged, summarized) ↦ inr (
                steps,
                reason,
                record {
                  answer = answer;
                  summary = summary;
                  replied = r;
                  in_time = e;
                  parsed = p;
                  passed = passed;
                  unchanged = unchanged;
                  summarized = ap (λ x. x.final_summary) same ∙ summarized;
                },
              )
            ],
          )
    ]

out_of_time-Justified :
    (loop : AgentRunLoop) (step : ℕ) (input : StepInput) (s : AgentRunState) (t : AgentTermination)
    → (out_of_time step s).termination ≡ some t
    → Justified loop step input s t
out_of_time-Justified loop step input s t h =
    let fails : (t.steps ≤ step) × (t.success ≡ false) = ground arith in (fails.0, inl fails.1)

reply_step-Justified :
    (loop : AgentRunLoop) (step : ℕ) (reply : ModelReply) (input : StepInput) (s : AgentRunState)
    (t : AgentTermination)
    → input.reply ≡ reply
    → (reply_step loop step reply input s).termination ≡ some t
    → Justified loop step input (reply_step loop step reply input s).state t
unfolding reply_step
reply_step-Justified loop step (content answer) input s t r h =
    elim (Bool-cases input.expired_after) [
      | inl late ↦
          let fails : (t.steps ≤ step) × (t.success ≡ false) = ground arith in
          (fails.0, inl fails.1)
      | inr timely ↦
          let p = parse_agent_decision loop.outside answer in
          let same : reply_step loop step (content answer) input s
              ≡ parsed_step loop step answer p input s =
            ap (λ b. if b then out_of_time step s else parsed_step loop step answer p input s)
              timely in
          subst (λ o. Justified loop step input o.state t) (sym same)
            (parsed_step-Justified loop step answer p input s t r timely refl
              (sym (ap (λ o. o.termination) same) ∙ h))
    ]
reply_step-Justified loop step deadline_exceeded input s t r h =
    out_of_time-Justified loop step input s t h
reply_step-Justified loop step (provider_failure error) input s t r h =
    let fails : (t.steps ≤ step) × (t.success ≡ false) = ground arith in (fails.0, inl fails.1)

run_step-Justified :
    (loop : AgentRunLoop) (step : ℕ) (input : StepInput) (s : AgentRunState) (t : AgentTermination)
    → (run_step loop step input s).termination ≡ some t
    → Justified loop step input (run_step loop step input s).state t
unfolding run_step
run_step-Justified loop step input s t h =
    reply_step-Justified loop step input.reply input _ t refl h

-- The end of a run: after at most as many steps as are allowed; where it succeeds, a step confirmed it,
-- the last one, which the clock allowed.
abbrev pub EndsWell : AgentRunLoop → (ℕ → StepInput) → Ended → Type 0
EndsWell loop inputs ended =
    (ended.termination.steps ≤ loop.limits.max_steps)
    × ((ended.termination.success ≡ false)
        ⊎ ((ended.termination.reason ≡ "final verification passed")
            × ((inputs ended.termination.steps).expired ≡ false)
            × Confirmed loop (inputs ended.termination.steps) ended.state))

ends_well :
    (loop : AgentRunLoop) (inputs : ℕ → StepInput) (step : ℕ) (s : AgentRunState)
    (written : List Written) (t : AgentTermination)
    → step ≤ loop.limits.max_steps
    → (inputs step).expired ≡ false
    → Justified loop step (inputs step) s t
    → EndsWell loop inputs (record { state = s; written = written; termination = t })
ends_well loop inputs step s written t h timely (steps, inl fails) = (omega arith, inl fails)
ends_well loop inputs step s written t h timely (steps, inr (at, reason, confirmed)) = (
  omega arith,
  inr (
    reason,
    ap (λ k. (inputs k).expired) at ∙ timely,
    subst (λ k. Confirmed loop (inputs k) s) (sym at) confirmed,
  ),
)

run_from-EndsWell :
    (loop : AgentRunLoop) (inputs : ℕ → StepInput) (left step : ℕ) (s : AgentRunState)
    (written : List Written)
    → left + step ≡ loop.limits.max_steps + 1
    → EndsWell loop inputs (run_from loop inputs left step s written)
unfolding run_from
run_from-EndsWell loop inputs zero step s written h = (omega arith, inl refl)
run_from-EndsWell loop inputs (suc left) step s written h =
    let r = run_step loop step (inputs step) s in
    elim (Bool-cases (inputs step).expired) [
      | inl late ↦
          subst (EndsWell loop inputs) (sym (run_from-late loop inputs left step s written late))
            (omega arith, inl refl)
      | inr timely ↦ elim (Option-cases r.termination) [
        | inl going ↦
            subst (EndsWell loop inputs)
              (sym (run_from-going loop inputs left step s written timely going))
              (run_from-EndsWell loop inputs left (step + 1) r.state (written ++ r.written)
                (omega arith))
        | inr (t, ended) ↦
            subst (EndsWell loop inputs)
              (sym (run_from-ended loop inputs left step s written t timely ended))
              (ends_well loop inputs step r.state (written ++ r.written) t (omega arith) timely
                (run_step-Justified loop step (inputs step) s t ended))
      ]
    ]

-- A run takes at most as many steps as its limits allow. Where it succeeds, its reason is that the final
-- verification passed, and its last step confirmed it: the clock was not past the deadline, before the
-- step or after the answer, the answer ended the run with the summary that the state keeps, and the
-- verifier passed the workspace and left it unchanged.
pub run-EndsWell :
    (loop : AgentRunLoop) (inputs : ℕ → StepInput) (s : AgentRunState)
    → EndsWell loop inputs (run loop inputs s)
unfolding run
run-EndsWell loop inputs s =
    run_from-EndsWell loop inputs loop.limits.max_steps 1 s [] (omega arith)
