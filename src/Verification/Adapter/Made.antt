-- ===== src/Verification/Adapter/Made.antt =====
-- The observations that `adapt` makes, without its checks.
use sisyphus_harness.Prelude.{
  ℕ, ◌+◌, String, ◌≡◌, sym, ap, ◌∙◌, Option, List, [], ◌∷◌, ◌++◌, ◌==◌, arith, any,
}
use sisyphus_harness.Prelude.Checked.{
  accepted, >>=-accepted, ensure-accepted, accepted-after, accepted-injective,
}
use sisyphus_harness.Contracts.Verification.{CommandResult}
use sisyphus_harness.Evidence.{Scalar, EvidenceSelector, EvidenceObservation}
use sisyphus_harness.Verification.{
  is_token, command_fact_types, command_fact_selector, fact_selector,
}
use sisyphus_harness.Verification.Facts.{Binding, command_facts}
use sisyphus_harness.Verification.Adapter.{
  made, fact_suffixes, check_observation_fields, fact_observation, fact_observations,
  command_observations, all_observations,
}

selector_made :
    (name fact authority : String) (s : EvidenceSelector)
    → command_fact_selector name fact authority ≡ accepted s
    → s ≡ fact_selector name fact authority
unfolding command_fact_selector
selector_made name fact authority s h =
    let a = ensure-accepted (any (λ t. t == fact) command_fact_types) _ _ h in
    let b = ensure-accepted (is_token fact) _ _ a.1 in
    let d = ensure-accepted (is_token name) _ _ b.1 in
    let e = ensure-accepted (is_token authority) _ _ d.1 in
    sym (accepted-injective (fact_selector name fact authority) s e.1)

-- What `fact_observation` makes.
abbrev pub fact_made : Binding → String → ℕ → String → String × Option Scalar → EvidenceObservation
fact_made b name i suffix (fact, v) =
    made b (fact_selector name fact b.producer_authority) i suffix v

fact_observation_lem :
    (b : Binding) (name : String) (i : ℕ) (suffix fact : String) (v : Option Scalar)
    (o : EvidenceObservation)
    → fact_observation b name i suffix (fact, v) ≡ accepted o
    → o ≡ fact_made b name i suffix (fact, v)
unfolding fact_observation
fact_observation_lem b name i suffix fact v o h =
    let (s, selects, k) = >>=-accepted (command_fact_selector name fact b.producer_authority) _ h in
    accepted-after (check_observation_fields (made b s i suffix v)) (made b s i suffix v) k
    ∙ ap (λ s. made b s i suffix v) (selector_made name fact b.producer_authority s selects)

unfoldable pub facts_made :
    Binding → String → ℕ → List String → List (String × Option Scalar) → List EvidenceObservation
facts_made b name i (suffix ∷ suffixes) (fact ∷ facts) =
    fact_made b name i suffix fact ∷ facts_made b name i suffixes facts
facts_made b name i _ _ = []

fact_observations_lem :
    (b : Binding) (name : String) (i : ℕ) (suffixes : List String)
    (facts : List (String × Option Scalar)) (os : List EvidenceObservation)
    → fact_observations b name i suffixes facts ≡ accepted os
    → os ≡ facts_made b name i suffixes facts
unfolding fact_observations facts_made
fact_observations_lem b name i [] facts os h = ground arith
fact_observations_lem b name i (suffix ∷ suffixes) [] os h = ground arith
fact_observations_lem b name i (suffix ∷ suffixes) (fact ∷ facts) os h =
    let (o, first, k) = >>=-accepted (fact_observation b name i suffix fact) _ h in
    let (rest, others, k') = >>=-accepted (fact_observations b name i suffixes facts) _ k in
    ground (
      arith,
      fact_observation_lem b name i suffix fact.0 fact.1 o first,
      fact_observations_lem b name i suffixes facts rest others,
    )

unfoldable pub commands_made : Binding → ℕ → List CommandResult → List EvidenceObservation
unfolding facts_made
commands_made b i [] = []
commands_made b i (c ∷ commands) =
    facts_made b c.name i fact_suffixes (command_facts c) ++ commands_made b (i + 1) commands

pub all_observations_lem :
    (b : Binding) (i : ℕ) (commands : List CommandResult) (os : List EvidenceObservation)
    → all_observations b i commands ≡ accepted os
    → os ≡ commands_made b i commands
unfolding all_observations commands_made
all_observations_lem b i [] os h = ground arith
all_observations_lem b i (c ∷ commands) os h =
    let (first, made_first, k) = >>=-accepted (command_observations b i c) _ h in
    let (rest, made_rest, k') = >>=-accepted (all_observations b (i + 1) commands) _ k in
    ground (
      arith,
      fact_observations_lem b c.name i fact_suffixes (command_facts c) first made_first,
      all_observations_lem b (i + 1) commands rest made_rest,
    )
