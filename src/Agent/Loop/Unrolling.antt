-- ===== src/Agent/Loop/Unrolling.antt =====
-- The loop of `AgentRunLoop.run`, one step at a time.
use sisyphus_harness.Prelude.{
  ℕ, suc, ◌+◌, ◌-◌, ◌≡◌, ap, ◌∙◌, true, false, Option, none, some, List, ◌++◌, if◌then◌else◌,
}
use sisyphus_harness.Agent.{AgentTermination, stop, StepInput}
use sisyphus_harness.Agent.State.{AgentRunState}
use sisyphus_harness.Agent.Loop.{AgentRunLoop, Written, Ended, run_step, run_from}

module _ (loop : AgentRunLoop) (inputs : ℕ → StepInput) (left step : ℕ) (s : AgentRunState)
    (written : List Written) where
  unrolled : Option AgentTermination → Ended
  unrolled outcome =
      let r = run_step loop step (inputs step) s in
      elim outcome [
        | some t ↦ record { state = r.state; written = written ++ r.written; termination = t }
        | none ↦ run_from loop inputs left (step + 1) r.state (written ++ r.written)
      ]

  late : Ended
  late = record {
    state = s;
    written = written;
    termination = stop false "runtime budget exhausted" (step - 1);
  }

  -- The clock is past the deadline.
  pub run_from-late :
      (inputs step).expired ≡ true
      → run_from loop inputs (suc left) step s written ≡ record {
        state = s;
        written = written;
        termination = stop false "runtime budget exhausted" (step - 1);
      }
  unfolding run_from unrolled late
  run_from-late h =
      ap (λ b. if b then late else unrolled (run_step loop step (inputs step) s).termination) h

  -- The step ends the run.
  pub run_from-ended :
      (t : AgentTermination)
      → (inputs step).expired ≡ false
      → (run_step loop step (inputs step) s).termination ≡ some t
      → run_from loop inputs (suc left) step s written ≡ record {
        state = (run_step loop step (inputs step) s).state;
        written = written ++ (run_step loop step (inputs step) s).written;
        termination = t;
      }
  unfolding run_from unrolled late
  run_from-ended t h k =
      ap (λ b. if b then late else unrolled (run_step loop step (inputs step) s).termination) h
      ∙ ap unrolled k

  -- The run goes on.
  pub run_from-going :
      (inputs step).expired ≡ false
      → (run_step loop step (inputs step) s).termination ≡ none
      → run_from loop inputs (suc left) step s written
        ≡ run_from loop inputs left
            (step + 1)
            (run_step loop step (inputs step) s).state
            (written ++ (run_step loop step (inputs step) s).written)
  unfolding run_from unrolled late
  run_from-going h k =
      ap (λ b. if b then late else unrolled (run_step loop step (inputs step) s).termination) h
      ∙ ap unrolled k
