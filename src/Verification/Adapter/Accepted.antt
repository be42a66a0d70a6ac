-- ===== src/Verification/Adapter/Accepted.antt =====
-- `adapt` and `validate_final_command_observations` together.
use mathlib.Core.Path.{subst}
use sisyphus_harness.Prelude.{
  ℕ, ◌+◌, ◌*◌, String, ◌≡◌, refl, sym, ap, ◌∙◌, false, Option, List, [], ◌∷◌, ◌++◌, map, ◌==◌,
  eq_refl, eq_iff, arith, ltb, any, length, select_all, All,
}
use sisyphus_harness.Prelude.Checked.{accepted, >>=-accepted, ensure-accepted, refuse_if-accepted}
use sisyphus_harness.Database.Rows.{All-append}
use sisyphus_harness.Contracts.Verification.{
  CommandSpec, CommandResult, BundleVerificationRequest, VerificationServiceResult,
  VerificationProfile,
}
use sisyphus_harness.Evidence.{Scalar, EvidenceObservation}
use sisyphus_harness.Contracts.Checks.{
  spec_name, has_repeats, check_verification_profile, is_safe_id,
}
use sisyphus_harness.Evidence.Lint.{has_id}
use sisyphus_harness.Verification.{Digests, command_passed, command_fact_selector}
use sisyphus_harness.Verification.Bindings.{validate_final_verification_bindings}
use sisyphus_harness.Verification.Bindings.Accepted.{
  Chain, validate_final_verification_bindings-IsResultOf,
}
use sisyphus_harness.Verification.Facts.{
  binding_of, validate_final_command_observations, Binding, command_facts, has_fact_key,
  check_observation, index_observations, check_all_facts,
}
use sisyphus_harness.Verification.Adapter.{fact_suffixes, adapt}
use sisyphus_harness.Verification.Adapter.Made.{all_observations_lem, facts_made, commands_made}
use sisyphus_harness.Verification.Adapter.Validated.{
  push_all, Fresh, index_observations_lem, select-other, select-append, select-Unlike, Unlike,
  check_made, Distinct, Holds, HoldsCommand, check_all_facts_lem, own_facts,
}

differ_sym : (s t : String) → (s == t) ≡ false → (t == s) ≡ false
differ_sym s t h = ground (arith, eq_iff s t, eq_iff t s)

-- Observations in front that have none of a command's keys change nothing for it.
facts_behind :
    (front os : List EvidenceObservation) (name : String) (facts : List (String × Option Scalar))
    → ((fact : String) → select_all (has_fact_key name fact) front ≡ [])
    → All (Holds os name) facts
    → All (Holds (front ++ os) name) facts
facts_behind front os name [] h k = tt
facts_behind front os name (fact ∷ facts) h k =
    let (o, one, reads) = k.0 in
    (
      (o, select-append (has_fact_key name fact.0) front os ∙ ground (arith, h fact.0, one), reads),
      facts_behind front os name facts h k.1,
    )

commands_behind :
    (b : Binding) (i : ℕ) (c : CommandResult) (os : List EvidenceObservation)
    (commands : List CommandResult)
    → Unlike c.name commands
    → All (HoldsCommand os) commands
    → All (HoldsCommand (facts_made b c.name i fact_suffixes (command_facts c) ++ os)) commands
commands_behind b i c os [] h k = tt
commands_behind b i c os (d ∷ commands) h k = (
  facts_behind (facts_made b c.name i fact_suffixes (command_facts c)) os d.name (command_facts d)
      (λ fact. select-other b i c d.name fact (differ_sym d.name c.name h.0)) k.0,
  commands_behind b i c os commands h.1 k.1,
)

commands_hold :
    (b : Binding) (i : ℕ) (commands : List CommandResult)
    → Distinct commands
    → All (HoldsCommand (commands_made b i commands)) commands
unfolding commands_made
commands_hold b i [] h = tt
commands_hold b i (c ∷ commands) h = (
  own_facts b i c (commands_made b (i + 1) commands)
      (λ fact. select-Unlike b (i + 1) commands c.name fact h.0),
  commands_behind b i c (commands_made b (i + 1) commands) commands h.0
      (commands_hold b (i + 1) commands h.1),
)

-- None of the observations has a key of the command.
abbrev Absent : List EvidenceObservation → CommandResult → Type 0
Absent before c = (fact : String) → any (has_fact_key c.name fact) before ≡ false

push_all-Absent :
    (b : Binding) (i : ℕ) (c : CommandResult) (before : List EvidenceObservation)
    (commands : List CommandResult)
    → Unlike c.name commands
    → All (Absent before) commands
    → All
        (Absent (push_all (facts_made b c.name i fact_suffixes (command_facts c)) before))
        commands
unfolding facts_made command_facts push_all
push_all-Absent b i c before [] h k = tt
push_all-Absent b i c before (d ∷ commands) h k = (
  λ fact. ground (arith, differ_sym d.name c.name h.0, k.0 fact),
  push_all-Absent b i c before commands h.1 k.1,
)

commands_made-Fresh :
    (b : Binding) (i : ℕ) (commands : List CommandResult) (before : List EvidenceObservation)
    → Distinct commands
    → All (Absent before) commands
    → Fresh (commands_made b i commands) before
unfolding commands_made facts_made command_facts push_all
commands_made-Fresh b i [] before h k = tt
commands_made-Fresh b i (c ∷ commands) before h k =
    let rest =
      commands_made-Fresh b (i + 1) commands
        (push_all (facts_made b c.name i fact_suffixes (command_facts c)) before) h.1
        (push_all-Absent b i c before commands h.0 k.1) in
    (
      k.0 "verification.command.passed",
      (
        ground (arith, eq_refl c.name, k.0 "verification.command.exit_code"),
        (
          ground (arith, eq_refl c.name, k.0 "verification.command.timed_out"),
          (
            ground (arith, eq_refl c.name, k.0 "verification.command.workspace_unchanged"),
            (ground (arith, eq_refl c.name, k.0 "verification.command.failure_category"), rest),
          ),
        ),
      ),
    )

facts_checked :
    (b : Binding) (i : ℕ) (name : String) (suffixes : List String)
    (facts : List (String × Option Scalar))
    → All (λ o. check_observation b o ≡ accepted tt) (facts_made b name i suffixes facts)
unfolding facts_made
facts_checked b i name [] facts = tt
facts_checked b i name (suffix ∷ suffixes) [] = tt
facts_checked b i name (suffix ∷ suffixes) (fact ∷ facts) =
    (check_made b i name suffix fact, facts_checked b i name suffixes facts)

commands_checked :
    (b : Binding) (i : ℕ) (commands : List CommandResult)
    → All (λ o. check_observation b o ≡ accepted tt) (commands_made b i commands)
unfolding commands_made
commands_checked b i [] = tt
commands_checked b i (c ∷ commands) =
    All-append (λ o. check_observation b o ≡ accepted tt)
      (facts_made b c.name i fact_suffixes (command_facts c)) (commands_made b (i + 1) commands)
      (facts_checked b i c.name fact_suffixes (command_facts c))
      (commands_checked b (i + 1) commands)

commands_counted :
    (b : Binding) (i : ℕ) (commands : List CommandResult)
    → length (commands_made b i commands) ≡ length commands * 5
unfolding commands_made facts_made command_facts
commands_counted b i [] = refl
commands_counted b i (c ∷ commands) = omega (arith, commands_counted b (i + 1) commands)

nil-Absent : (commands : List CommandResult) → All (Absent []) commands
nil-Absent [] = tt
nil-Absent (c ∷ commands) = (λ fact. refl, nil-Absent commands)

-- The observations of distinct commands fill the dict, and hold the commands' facts.
made_accepted :
    (b : Binding) (i : ℕ) (commands : List CommandResult)
    → Distinct commands
    → (index_observations b (commands_made b i commands) []
        ≡ accepted (push_all (commands_made b i commands) []))
      × (check_all_facts (push_all (commands_made b i commands) []) commands ≡ accepted tt)
      × (length (commands_made b i commands) ≡ length commands * 5)
made_accepted b i commands h = (
  index_observations_lem b (commands_made b i commands) [] (commands_checked b i commands)
      (commands_made-Fresh b i commands [] h (nil-Absent commands)),
  check_all_facts_lem (commands_made b i commands) commands (commands_hold b i commands h),
  commands_counted b i commands,
)

-- The names of a chain's commands are those of its specs, so that they differ where those do.
Unlike-Chain :
    (previous name : String) (specs : List CommandSpec) (commands : List CommandResult)
    (last : String)
    → Chain previous specs commands last
    → has_id name (map spec_name specs) ≡ false
    → Unlike name commands
Unlike-Chain previous name [] [] last h k = tt
Unlike-Chain previous name (spec ∷ specs) (c ∷ commands) last h k = (
  ap (λ n. n == name) h.0.name ∙ ground arith,
  Unlike-Chain c.workspace_state_after name specs commands last h.1 (ground arith),
)
Unlike-Chain previous name [] (c ∷ commands) last h k = absurd h
Unlike-Chain previous name (spec ∷ specs) [] last h k = absurd h

Distinct-Chain :
    (previous : String) (specs : List CommandSpec) (commands : List CommandResult) (last : String)
    → Chain previous specs commands last
    → has_repeats (map spec_name specs) ≡ false
    → Distinct commands
unfolding has_repeats
Distinct-Chain previous [] [] last h k = tt
Distinct-Chain previous (spec ∷ specs) (c ∷ commands) last h k = (
  Unlike-Chain c.workspace_state_after c.name specs commands last h.1
      (ap (λ n. has_id n (map spec_name specs)) h.0.name ∙ ground arith),
  Distinct-Chain c.workspace_state_after specs commands last h.1 (ground arith),
)
Distinct-Chain previous [] (c ∷ commands) last h k = absurd h
Distinct-Chain previous (spec ∷ specs) [] last h k = absurd h

profile_distinct :
    (profile : VerificationProfile)
    → check_verification_profile profile ≡ accepted tt
    → has_repeats (map spec_name profile.commands) ≡ false
unfolding check_verification_profile
profile_distinct profile h =
    let a = ensure-accepted (is_safe_id profile.profile_id) _ _ h in
    let b = ensure-accepted (ltb 0 (length profile.commands)) _ _ a.1 in
    (refuse_if-accepted (has_repeats (map spec_name profile.commands)) _ _ b.1).0

-- What `adapt` returns for a request whose profile its constructor lets through is accepted by
-- `validate_final_command_observations` for the same request and result.
pub adapt-accepted :
    (digests : Digests) (request : BundleVerificationRequest) (result : VerificationServiceResult)
    (authority : String) (observations : List EvidenceObservation)
    → check_verification_profile request.profile ≡ accepted tt
    → adapt digests request result authority ≡ accepted observations
    → validate_final_command_observations request result observations authority ≡ accepted tt
unfolding adapt validate_final_command_observations
adapt-accepted digests request result authority observations constructed h =
    let distinct = profile_distinct request.profile constructed in
    let (_, bindings, k) =
      >>=-accepted (validate_final_verification_bindings digests false request result) _ h in
    let (_, _, m) =
      >>=-accepted (command_fact_selector "authority-check" command_passed authority) _ k in
    let bound =
      validate_final_verification_bindings-IsResultOf digests false request result bindings in
    let b = binding_of request result authority in
    let same : observations ≡ commands_made b 0 result.receipt.commands =
      all_observations_lem _ 0 result.receipt.commands observations m
      ∙ ap (λ run. commands_made (record b { source_run_id = run }) 0 result.receipt.commands)
          bound.receipt.run_id in
    let (indexes, facts, counted) = made_accepted b 0 result.receipt.commands (
      Distinct-Chain result.receipt.workspace_state_before request.profile.commands
        result.receipt.commands result.receipt.workspace_state_after bound.chain distinct) in
    subst (λ os. validate_final_command_observations request result os authority ≡ accepted tt)
      (sym same) (ground (arith, indexes, facts, counted))
