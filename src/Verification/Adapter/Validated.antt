-- ===== src/Verification/Adapter/Validated.antt =====
-- The observations that `adapt` makes are those that `validate_final_command_observations` accepts.
use sisyphus_harness.Prelude.{
  ℕ, ◌+◌, String, ◌≡◌, refl, ◌∙◌, Bool, false, Option, none, some, List, [], ◌∷◌, ◌++◌, ◌==◌,
  eq_refl, arith, find, any, select_all, All,
}
use sisyphus_harness.Prelude.Checked.{accepted}
use sisyphus_harness.Contracts.Verification.{CommandResult}
use sisyphus_harness.Evidence.{Scalar, boolean, text, EvidenceObservation}
use sisyphus_harness.Evidence.Predicates.Complements.{same_key_refl}
use sisyphus_harness.Verification.Facts.{
  Binding, command_facts, has_fact_key, check_observation, index_observations, check_reading,
  check_fact, check_facts, check_all_facts, exit_fact, category_or_none,
}
use sisyphus_harness.Verification.Adapter.{reading_of, fact_suffixes}
use sisyphus_harness.Verification.Adapter.Made.{fact_made, facts_made, commands_made}

-- The dict after the loop, with the last entry first.
unfoldable pub push_all :
    List EvidenceObservation → List EvidenceObservation → List EvidenceObservation
push_all [] before = before
push_all (o ∷ os) before = push_all os (o ∷ before)

-- No key comes twice.
abbrev pub Fresh : List EvidenceObservation → List EvidenceObservation → Type 0
Fresh [] before = Unit
Fresh (o ∷ os) before =
    (any (has_fact_key o.selector.check_id o.selector.observation_type) before ≡ false)
    × Fresh os (o ∷ before)

pub index_observations_lem :
    (b : Binding) (os before : List EvidenceObservation)
    → All (λ o. check_observation b o ≡ accepted tt) os
    → Fresh os before
    → index_observations b os before ≡ accepted (push_all os before)
unfolding index_observations push_all
index_observations_lem b [] before h k = refl
index_observations_lem b (o ∷ os) before h k =
    ground (arith, h.0, k.0, index_observations_lem b os (o ∷ before) h.1 k.1)

find-push_all-none :
    (p : EvidenceObservation → Bool) (os before : List EvidenceObservation)
    → select_all p os ≡ []
    → find p (push_all os before) ≡ find p before
unfolding push_all
find-push_all-none p [] before h = refl
find-push_all-none p (o ∷ os) before h = ground (arith, find-push_all-none p os (o ∷ before))

find-push_all :
    (p : EvidenceObservation → Bool) (os before : List EvidenceObservation)
    (o : EvidenceObservation)
    → select_all p os ≡ o ∷ []
    → find p (push_all os before) ≡ some o
unfolding push_all
find-push_all p [] before o h = absurd cc
find-push_all p (x ∷ os) before o h =
    ground (arith, find-push_all p os (x ∷ before) o, find-push_all-none p os (x ∷ before))

pub select-append :
    (p : EvidenceObservation → Bool) (os more : List EvidenceObservation)
    → select_all p (os ++ more) ≡ select_all p os ++ select_all p more
select-append p [] more = refl
select-append p (o ∷ os) more = ground (arith, select-append p os more)

any-append :
    (p : EvidenceObservation → Bool) (os more : List EvidenceObservation)
    → any p os ≡ false
    → any p more ≡ false
    → any p (os ++ more) ≡ false
any-append p [] more h k = k
any-append p (o ∷ os) more h k = ground (arith, any-append p os more)

-- The observations of a command have their keys' names from it.
pub select-other :
    (b : Binding) (i : ℕ) (c : CommandResult) (name fact : String)
    → (c.name == name) ≡ false
    → select_all (has_fact_key name fact) (facts_made b c.name i fact_suffixes (command_facts c))
      ≡ []
unfolding facts_made command_facts
select-other b i c name fact h = ground (arith, h)

abbrev pub Unlike : String → List CommandResult → Type 0
Unlike name commands = All (λ c. (c.name == name) ≡ false) commands

pub select-Unlike :
    (b : Binding) (i : ℕ) (commands : List CommandResult) (name fact : String)
    → Unlike name commands
    → select_all (has_fact_key name fact) (commands_made b i commands) ≡ []
unfolding commands_made
select-Unlike b i [] name fact h = refl
select-Unlike b i (c ∷ commands) name fact h =
    let first = facts_made b c.name i fact_suffixes (command_facts c) in
    select-append (has_fact_key name fact) first (commands_made b (i + 1) commands)
    ∙ ground
        (arith, select-other b i c name fact h.0, select-Unlike b (i + 1) commands name fact h.1)

pub check_made :
    (b : Binding) (i : ℕ) (name suffix : String) (fact : String × Option Scalar)
    → check_observation b (fact_made b name i suffix fact) ≡ accepted tt
unfolding check_observation
check_made b i name suffix fact = ground (
  arith,
  eq_refl b.subject_digest,
  eq_refl b.source_run_id,
  eq_refl b.artifact_digest,
  eq_refl b.producer_authority,
)

-- Commands with names that differ.
abbrev pub Distinct : List CommandResult → Type 0
Distinct [] = Unit
Distinct (c ∷ commands) = Unlike c.name commands × Distinct commands

-- Of the observations, exactly one has a fact's key, and it reads the fact.
abbrev pub Holds : List EvidenceObservation → String → String × Option Scalar → Type 0
Holds os name (fact, v) =
    (o : EvidenceObservation) × (select_all (has_fact_key name fact) os ≡ o ∷ [])
    × (o.reading ≡ reading_of v)

abbrev pub HoldsCommand : List EvidenceObservation → CommandResult → Type 0
HoldsCommand os c = All (Holds os c.name) (command_facts c)

check_reading_lem : (v : Option Scalar) → check_reading v (reading_of v) ≡ accepted tt
unfolding check_reading
check_reading_lem none = refl
check_reading_lem (some v) = ground (arith, same_key_refl v)

check_fact_lem :
    (os : List EvidenceObservation) (name fact : String) (v : Option Scalar)
    → Holds os name (fact, v)
    → check_fact (push_all os []) name (fact, v) ≡ accepted tt
unfolding check_fact
check_fact_lem os name fact v (o, one, reads) =
    ground (arith, find-push_all (has_fact_key name fact) os [] o one, reads, check_reading_lem v)

check_facts_lem :
    (os : List EvidenceObservation) (name : String) (facts : List (String × Option Scalar))
    → All (Holds os name) facts
    → check_facts (push_all os []) name facts ≡ accepted tt
unfolding check_facts
check_facts_lem os name [] h = refl
check_facts_lem os name (fact ∷ facts) h =
    ground (arith, check_fact_lem os name fact.0 fact.1 h.0, check_facts_lem os name facts h.1)

pub check_all_facts_lem :
    (os : List EvidenceObservation) (commands : List CommandResult)
    → All (HoldsCommand os) commands
    → check_all_facts (push_all os []) commands ≡ accepted tt
unfolding check_all_facts
check_all_facts_lem os [] h = refl
check_all_facts_lem os (c ∷ commands) h =
    ground
      (arith, check_facts_lem os c.name (command_facts c) h.0, check_all_facts_lem os commands h.1)

pub own_facts :
    (b : Binding) (i : ℕ) (c : CommandResult) (rest : List EvidenceObservation)
    → ((fact : String) → select_all (has_fact_key c.name fact) rest ≡ [])
    → HoldsCommand (facts_made b c.name i fact_suffixes (command_facts c) ++ rest) c
unfolding facts_made command_facts
own_facts b i c rest h = (
  (
    fact_made b c.name i "passed" ("verification.command.passed", some (boolean c.passed)),
    ground (arith, eq_refl c.name, h "verification.command.passed"),
    refl,
  ),
  (
    (
      fact_made b c.name i "exit-code" ("verification.command.exit_code", exit_fact c.exit_code),
      ground (arith, eq_refl c.name, h "verification.command.exit_code"),
      refl,
    ),
    (
      (
        fact_made b c.name i "timed-out"
            ("verification.command.timed_out", some (boolean c.timed_out)),
        ground (arith, eq_refl c.name, h "verification.command.timed_out"),
        refl,
      ),
      (
        (
          fact_made b c.name i "workspace-unchanged"
              ("verification.command.workspace_unchanged", some (boolean c.workspace_unchanged)),
          ground (arith, eq_refl c.name, h "verification.command.workspace_unchanged"),
          refl,
        ),
        (
          (
            fact_made b c.name i "failure-category" (
              "verification.command.failure_category",
              some (text (category_or_none c.failure_category)),
            ),
            ground (arith, eq_refl c.name, h "verification.command.failure_category"),
            refl,
          ),
          tt,
        ),
      ),
    ),
  ),
)
