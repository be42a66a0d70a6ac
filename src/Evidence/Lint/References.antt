-- ===== src/Evidence/Lint/References.antt =====
-- A rule set without lint issues: every clause that its expression names is among its clauses, so the
-- dict of results has every key that `_evaluate_expression` reads.
use mathlib.Core.Path.{subst}
use sisyphus_harness.Prelude.{
  ℕ, ◌+◌, ◌≤◌, String, ◌≡◌, refl, Bool, true, Option, some, List, [], ◌∷◌, ◌++◌, arith, all,
  is_some,
}
use sisyphus_harness.Evidence.{
  EvidenceExpression, clause_ref, all_of, any_of, at_least, negated, Children, nil, child,
  LogicalResult, EvidenceClause, EvidenceObservation,
}
use sisyphus_harness.Evidence.Expressions.{evaluate_expression, evaluate_children, result_of}
use sisyphus_harness.Evidence.Evaluation.{evaluate_clauses, judge, matches_of}
use sisyphus_harness.Evidence.Lint.{
  Limits, LintIssue, Visited, has_id, lint_references, lint_visited, lint_rule_set, clause_ids,
}
use sisyphus_harness.Evidence.Lint.Walk.{size, deepest, leaves, leaves_children, walk_lem}

-- The lint on enough fuel.
pub lint_rule_set_lem :
    (fuel : ℕ) (limits : Limits) (cs : List EvidenceClause) (e : EvidenceExpression) (bytes : ℕ)
    → size e ≤ fuel
    → lint_rule_set fuel limits cs e bytes
      ≡ some (
          lint_visited limits cs bytes
            (record { nodes = size e; max_depth = deepest e 1; references = leaves e }))
unfolding lint_rule_set
lint_rule_set_lem fuel limits cs e bytes h = ground (arith, walk_lem fuel e h)

append-nil_parts : (xs ys : List LintIssue) → xs ++ ys ≡ [] → (xs ≡ []) × (ys ≡ [])
append-nil_parts [] ys h = (refl, h)
append-nil_parts (x ∷ xs) ys h = absurd cc

references_known :
    (known : List String) (index : ℕ) (seen refs : List String)
    → lint_references known index seen refs ≡ []
    → all (λ id. has_id id known) refs ≡ true
unfolding lint_references
references_known known index seen [] h = refl
references_known known index seen (id ∷ rest) h =
    ground (arith, references_known known (index + 1) (id ∷ seen) rest)

-- A lint without issues has found every reference among the clauses.
pub lint_visited-nil :
    (limits : Limits) (cs : List EvidenceClause) (bytes : ℕ) (v : Visited)
    → lint_visited limits cs bytes v ≡ []
    → all (λ id. has_id id (clause_ids cs)) v.references ≡ true
unfolding lint_visited
lint_visited-nil limits cs bytes v h =
    let references = lint_references (clause_ids cs) 0 [] v.references in
    ground
      (arith, append-nil_parts references _, references_known (clause_ids cs) 0 [] v.references)

all-append :
    (p : String → Bool) (xs ys : List String)
    → all p (xs ++ ys) ≡ true
    → (all p xs ≡ true) × (all p ys ≡ true)
all-append p [] ys h = (refl, h)
all-append p (x ∷ xs) ys h = ground (arith, all-append p xs ys)

mutual
  unfolding evaluate_expression leaves

  evaluate_known :
      (p : String → Option LogicalResult) (e : EvidenceExpression)
      → all (λ id. is_some (p id)) (leaves e) ≡ true
      → is_some (evaluate_expression p e) ≡ true
  evaluate_known p (clause_ref id) h = ground arith
  evaluate_known p (all_of children) h = ground (arith, evaluate_children_known p children h)
  evaluate_known p (any_of children) h = ground (arith, evaluate_children_known p children h)
  evaluate_known p (at_least minimum children) h =
      ground (arith, evaluate_children_known p children h)
  evaluate_known p (negated e) h = ground (arith, evaluate_known p e h)

  evaluate_children_known :
      (p : String → Option LogicalResult) (children : Children)
      → all (λ id. is_some (p id)) (leaves_children children) ≡ true
      → is_some (evaluate_children p children) ≡ true
  evaluate_children_known p nil h = refl
  evaluate_children_known p (child e rest) h =
      let (here, there) = all-append (λ id. is_some (p id)) (leaves e) (leaves_children rest) h in
      ground (arith, evaluate_known p e here, evaluate_children_known p rest there)

pub judge-clause_id :
    (c : EvidenceClause) (matches : List EvidenceObservation)
    → (judge c matches).clause_id ≡ c.clause_id
unfolding judge
judge-clause_id c [] = refl
judge-clause_id c (o ∷ []) = refl
judge-clause_id c (o ∷ p ∷ rest) = refl

result-known :
    (cs : List EvidenceClause) (observations : List EvidenceObservation) (id : String)
    → has_id id (clause_ids cs) ≡ true
    → is_some (result_of (evaluate_clauses cs observations) id) ≡ true
unfolding evaluate_clauses result_of judge
result-known [] observations id h = absurd cc
result-known (c ∷ rest) observations id h =
    ground (arith, judge-clause_id c (matches_of c observations), result-known rest observations id)

all-map :
    (p q : String → Bool) (xs : List String)
    → ((x : String) → p x ≡ true → q x ≡ true)
    → all p xs ≡ true
    → all q xs ≡ true
all-map p q [] f h = refl
all-map p q (x ∷ xs) f h = ground (arith, f x, all-map p q xs f)

-- Where the lint finds nothing, the expression is evaluated without a KeyError.
pub evaluate-linted :
    (limits : Limits) (cs : List EvidenceClause) (bytes : ℕ) (v : Visited) (e : EvidenceExpression)
    (observations : List EvidenceObservation)
    → v.references ≡ leaves e
    → lint_visited limits cs bytes v ≡ []
    → is_some (evaluate_expression (result_of (evaluate_clauses cs observations)) e) ≡ true
evaluate-linted limits cs bytes v e observations r h =
    evaluate_known (result_of (evaluate_clauses cs observations)) e (
      all-map (λ id. has_id id (clause_ids cs))
        (λ id. is_some (result_of (evaluate_clauses cs observations) id)) (leaves e)
        (result-known cs observations)
        (subst (λ l. all (λ id. has_id id (clause_ids cs)) l ≡ true) r
          (lint_visited-nil limits cs bytes v h)))
