-- ===== src/Verification/Facts/Lookup.antt =====
-- `validate_final_command_observations`: what is known of observations that it accepts.
use mathlib.Core.Path.{subst}
use mathlib.Core.List.{Memᴰ}
use sisyphus_harness.Prelude.{
  ◌*◌, eqb, String, ◌≡◌, refl, sym, ap, ◌∙◌, ◌⊎◌, inl, inr, Bool, true, false, Option, none, some,
  List, [], ◌∷◌, eq_iff, arith, find, any, length, select_all, All, Bool-cases, Option-cases,
}
use sisyphus_harness.Prelude.Checked.{accepted, ensure-accepted, >>=-accepted}
use sisyphus_harness.Prelude.Sorting.{sort_by}
use sisyphus_harness.Contracts.Verification.{
  CommandResult, BundleVerificationRequest, VerificationServiceResult,
}
use sisyphus_harness.Evidence.{
  Scalar, scalar, sequence, LogicalResult, indeterminate, EvidenceClause, Reading, observed,
  unavailable, error, EvidenceObservation, selector_eq,
}
use sisyphus_harness.Evidence.Predicates.{same_key, evaluate_predicate}
use sisyphus_harness.Evidence.Predicates.Complements.{same_key-eq}
use sisyphus_harness.Evidence.Evaluation.{judge, matches_of, id_le}
use sisyphus_harness.Verification.{fact_selector}
use sisyphus_harness.Verification.Facts.{
  Binding, binding_of, command_facts, has_fact_key, check_observation, index_observations,
  check_reading, check_fact, check_facts, check_all_facts, validate_final_command_observations,
}

any-find :
    (p : EvidenceObservation → Bool) (os : List EvidenceObservation)
    → any p os ≡ false
    → find p os ≡ none
any-find p [] h = refl
any-find p (o ∷ os) h = ground (arith, any-find p os)

-- An observation's own key is the key that it has.
own_key :
    (name fact : String) (o : EvidenceObservation) (os : List EvidenceObservation)
    → has_fact_key name fact o ≡ true
    → any (has_fact_key o.selector.check_id o.selector.observation_type) os
      ≡ any (has_fact_key name fact) os
own_key name fact o os h =
    let names : o.selector.check_id ≡ name = ground (arith, eq_iff o.selector.check_id name) in
    let facts : o.selector.observation_type ≡ fact =
      ground (arith, eq_iff o.selector.observation_type fact) in
    λ i. any (has_fact_key (names i) (facts i)) os

-- The observation found under a key is the only one of the list and of what was indexed before it.
abbrev Found :
    String
    → String
    → EvidenceObservation
    → List EvidenceObservation
    → List EvidenceObservation
    → Type 0
Found name fact o os before =
    ((select_all (has_fact_key name fact) os ≡ o ∷ [])
      × (find (has_fact_key name fact) before ≡ none))
    ⊎ ((select_all (has_fact_key name fact) os ≡ [])
        × (find (has_fact_key name fact) before ≡ some o))

index_step :
    (name fact : String) (x o : EvidenceObservation) (rest before : List EvidenceObservation)
    → any (has_fact_key x.selector.check_id x.selector.observation_type) before ≡ false
    → Found name fact o rest (x ∷ before)
    → Found name fact o (x ∷ rest) before
index_step name fact x o rest before fresh found = elim (Bool-cases (has_fact_key name fact x)) [
  | inl hit ↦
      let none_before =
        any-find (has_fact_key name fact) before (sym (own_key name fact x before hit) ∙ fresh) in
      elim found [
        | inl (one, missing) ↦ absurd (ground arith)
        | inr (nothing, first) ↦ inl (ground arith, none_before)
      ]
  | inr miss ↦ elim found [
    | inl (one, missing) ↦ inl (ground arith, ground arith)
    | inr (nothing, first) ↦ inr (ground arith, ground arith)
  ]
]

-- What the loop that fills the dict keeps: each observation passes its tests, and a key has one.
indexed :
    (b : Binding) (os before by_selector : List EvidenceObservation) (name fact : String)
    (o : EvidenceObservation)
    → index_observations b os before ≡ accepted by_selector
    → find (has_fact_key name fact) by_selector ≡ some o
    → Found name fact o os before
unfolding index_observations
indexed b [] before by_selector name fact o h found = inr (refl, ground arith)
indexed b (x ∷ rest) before by_selector name fact o h found =
    let tested = >>=-accepted (check_observation b x) _ h in
    elim (Bool-cases (any (has_fact_key x.selector.check_id x.selector.observation_type) before)) [
      | inl clash ↦ absurd (ground arith)
      | inr fresh ↦
          index_step name fact x o rest before fresh
            (indexed b rest (x ∷ before) by_selector name fact o (ground arith) found)
    ]

indexed-All :
    (b : Binding) (os before by_selector : List EvidenceObservation)
    → index_observations b os before ≡ accepted by_selector
    → All (λ o. check_observation b o ≡ accepted tt) os
unfolding index_observations
indexed-All b [] before by_selector h = tt
indexed-All b (x ∷ rest) before by_selector h =
    let tested = >>=-accepted (check_observation b x) _ h in
    elim (Bool-cases (any (has_fact_key x.selector.check_id x.selector.observation_type) before)) [
      | inl clash ↦ absurd (ground arith)
      | inr fresh ↦ (tested.1, indexed-All b rest (x ∷ before) by_selector (ground arith))
    ]

-- On observations that pass their tests, a fact's selector matches by the fact's key.
select_facts :
    (b : Binding) (name fact : String) (os : List EvidenceObservation)
    → All (λ o. check_observation b o ≡ accepted tt) os
    → select_all (λ o. selector_eq o.selector (fact_selector name fact b.producer_authority)) os
      ≡ select_all (has_fact_key name fact) os
unfolding check_observation
select_facts b name fact [] h = refl
select_facts b name fact (o ∷ os) h = ground (arith, select_facts b name fact os h.1, h.0)

-- The test on one fact, of the commands' tests.
facts-Memᴰ :
    (by_selector : List EvidenceObservation) (name : String) (facts : List (String × Option Scalar))
    (fact : String × Option Scalar)
    → check_facts by_selector name facts ≡ accepted tt
    → Memᴰ fact facts
    → check_fact by_selector name fact ≡ accepted tt
unfolding check_facts
facts-Memᴰ by_selector name [] fact h m = elim m [ ]
facts-Memᴰ by_selector name (f ∷ facts) fact h (Memᴰ.head e) =
    let tested = >>=-accepted (check_fact by_selector name f) _ h in
    subst (λ x. check_fact by_selector name x ≡ accepted tt) (sym e) tested.1
facts-Memᴰ by_selector name (f ∷ facts) fact h (Memᴰ.tail m) =
    facts-Memᴰ by_selector name facts fact (>>=-accepted (check_fact by_selector name f) _ h).2 m

commands-Memᴰ :
    (by_selector : List EvidenceObservation) (commands : List CommandResult) (c : CommandResult)
    → check_all_facts by_selector commands ≡ accepted tt
    → Memᴰ c commands
    → check_facts by_selector c.name (command_facts c) ≡ accepted tt
unfolding check_all_facts
commands-Memᴰ by_selector [] c h m = elim m [ ]
commands-Memᴰ by_selector (d ∷ commands) c h (Memᴰ.head e) =
    let tested = >>=-accepted (check_facts by_selector d.name (command_facts d)) _ h in
    subst (λ (x : CommandResult). check_facts by_selector x.name (command_facts x) ≡ accepted tt)
      (sym e) tested.1
commands-Memᴰ by_selector (d ∷ commands) c h (Memᴰ.tail m) =
    commands-Memᴰ by_selector commands c
      (>>=-accepted (check_facts by_selector d.name (command_facts d)) _ h).2 m

-- The observation of a value that the receipt has, or of one that it has not.
abbrev Reads : Option Scalar → Reading → Type 0
Reads none r = (reason : String) × (r ≡ unavailable reason)
Reads (some v) r = r ≡ observed (scalar v)

check_reading-Reads :
    (e : Option Scalar) (r : Reading) → check_reading e r ≡ accepted tt → Reads e r
unfolding check_reading
check_reading-Reads none (unavailable reason) h = (reason, refl)
check_reading-Reads none (observed v) h = absurd cc
check_reading-Reads none (error reason) h = absurd cc
check_reading-Reads (some v) (observed (scalar a)) h = elim (Bool-cases (same_key a v)) [
  | inl same ↦ ap (λ x. observed (scalar x)) (same_key-eq a v same)
  | inr other ↦ absurd (ground arith)
]
check_reading-Reads (some v) (observed (sequence items)) h = absurd cc
check_reading-Reads (some v) (unavailable reason) h = absurd cc
check_reading-Reads (some v) (error reason) h = absurd cc

check_fact-Reads :
    (by_selector : List EvidenceObservation) (name fact : String) (e : Option Scalar)
    → check_fact by_selector name (fact, e) ≡ accepted tt
    → (o : EvidenceObservation) × (find (has_fact_key name fact) by_selector ≡ some o)
      × Reads e o.reading
unfolding check_fact
check_fact-Reads by_selector name fact e h =
    elim (Option-cases (find (has_fact_key name fact) by_selector)) [
      | inl missing ↦ absurd (ground arith)
      | inr (o, found) ↦ (o, found, check_reading-Reads e o.reading (ground arith))
    ]

-- The dict that an accepting validation fills.
validated_index :
    (request : BundleVerificationRequest) (result : VerificationServiceResult)
    (observations : List EvidenceObservation) (authority : String)
    → validate_final_command_observations request result observations authority ≡ accepted tt
    → (by_selector : List EvidenceObservation) × (index_observations
          (binding_of request result authority)
          observations
          []
        ≡ accepted by_selector)
      × (check_all_facts by_selector result.receipt.commands ≡ accepted tt)
unfolding validate_final_command_observations
validated_index request result observations authority h =
    let counted =
      ensure-accepted (eqb (length observations) (length result.receipt.commands * 5)) _ _ h in
    >>=-accepted (index_observations (binding_of request result authority) observations []) _
      counted.1

-- Accepted observations hold each fact of each command once.
pub validated_fact :
    (request : BundleVerificationRequest) (result : VerificationServiceResult)
    (observations : List EvidenceObservation) (authority : String) (command : CommandResult)
    (fact : String) (expected : Option Scalar)
    → validate_final_command_observations request result observations authority ≡ accepted tt
    → Memᴰ command result.receipt.commands
    → Memᴰ (fact, expected) (command_facts command)
    → (o : EvidenceObservation) × (select_all
          (λ o. selector_eq o.selector (fact_selector command.name fact authority))
          observations
        ≡ o ∷ [])
      × Reads expected o.reading
unfolding validate_final_command_observations
validated_fact request result observations authority command fact expected h m f =
    let b = binding_of request result authority in
    let (by_selector, indexes, facts) = validated_index request result observations authority h in
    let (o, found, reads) = check_fact-Reads by_selector command.name fact expected (
      facts-Memᴰ by_selector command.name (command_facts command) (fact, expected)
        (commands-Memᴰ by_selector result.receipt.commands command facts m) f) in
    let all_tested = indexed-All b observations [] by_selector indexes in
    elim (indexed b observations [] by_selector command.name fact o indexes found) [
      | inl (one, _) ↦ (o, select_facts b command.name fact observations all_tested ∙ one, reads)
      | inr (_, before) ↦ absurd cc
    ]

-- What a clause comes to on a value that the receipt has, or on one that it has not.
abbrev pub fact_result : EvidenceClause → Option Scalar → LogicalResult
fact_result c none = indeterminate
fact_result c (some value) = (evaluate_predicate c.operator (scalar value) c.expected).result

judge_one :
    (c : EvidenceClause) (o : EvidenceObservation) (expected : Option Scalar)
    → Reads expected o.reading
    → (judge c (o ∷ [])).result ≡ fact_result c expected
unfolding judge
judge_one c o none (reason, e) = ground arith
judge_one c o (some v) e = ground arith

-- Where `validate_final_command_observations` accepts observations, a clause on a fact of a command of the
-- receipt comes to what the clause's operator gives on the receipt's own value of the fact, and is
-- indeterminate where the receipt has no exit code.
pub judge-validated :
    (request : BundleVerificationRequest) (result : VerificationServiceResult)
    (observations : List EvidenceObservation) (authority : String) (command : CommandResult)
    (fact : String) (expected : Option Scalar) (c : EvidenceClause)
    → validate_final_command_observations request result observations authority ≡ accepted tt
    → Memᴰ command result.receipt.commands
    → Memᴰ (fact, expected) (command_facts command)
    → c.selector ≡ fact_selector command.name fact authority
    → (judge c (matches_of c observations)).result ≡ fact_result c expected
unfolding matches_of
judge-validated request result observations authority command fact expected c h m f selects =
    let (o, one, reads) =
      validated_fact request result observations authority command fact expected h m f in
    let matched : select_all (λ o. selector_eq o.selector c.selector) observations ≡ o ∷ [] =
      ap (λ s. select_all (λ o. selector_eq o.selector s) observations) selects ∙ one in
    ap (λ os. (judge c (sort_by id_le os)).result) matched ∙ judge_one c o expected reads
