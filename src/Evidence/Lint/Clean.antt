-- ===== src/Evidence/Lint/Clean.antt =====
-- When the lint of a rule set finds nothing.
use sisyphus_harness.Prelude.{
  ℕ, ◌+◌, ◌≤◌, String, ◌≡◌, refl, true, false, some, List, [], ◌∷◌, ◌++◌, arith, ltb, length, All,
  ◌==◌, eq_iff, inl, inr, Bool-cases, sym,
}
use sisyphus_harness.Evidence.{EvidenceClause, EvidenceExpression}
use sisyphus_harness.Evidence.Lint.{
  Limits, LintIssue, Visited, Location, expression, whole, has_id, issue_if, clause_ids,
  lint_references, lint_clauses, lint_visited, lint_rule_set, expected_mismatch,
}
use sisyphus_harness.Evidence.Lint.Walk.{size, deepest, leaves}
use sisyphus_harness.Evidence.Lint.References.{lint_rule_set_lem}

-- The text is not in the list.
abbrev pub NotIn : String → List String → Type 0
NotIn id ids = All (λ x. ¬ (x ≡ id)) ids

-- No text is in the list twice.
abbrev pub Once : List String → Type 0
Once [] = Unit
Once (id ∷ rest) = NotIn id rest × Once rest

has_id-NotIn : (id : String) (ids : List String) → has_id id ids ≡ false → NotIn id ids
has_id-NotIn id [] h = tt
has_id-NotIn id (x ∷ ids) h =
    ((λ e. absurd (ground (arith, e, eq_iff x id))), has_id-NotIn id ids (ground arith))

NotIn-has_id : (id : String) (ids : List String) → NotIn id ids → has_id id ids ≡ false
NotIn-has_id id [] h = refl
NotIn-has_id id (x ∷ ids) h = elim (Bool-cases (x == id)) [
  | inl same ↦ absurd (h.0 (ground (arith, eq_iff x id)))
  | inr other ↦ ground (arith, NotIn-has_id id ids h.1)
]

append-nil_parts : (xs ys : List LintIssue) → xs ++ ys ≡ [] → (xs ≡ []) × (ys ≡ [])
append-nil_parts [] ys h = (refl, h)
append-nil_parts (x ∷ xs) ys h = absurd cc

nil_parts :
    (a b c d e f : List LintIssue)
    → a ++ b ++ c ++ d ++ e ++ f ≡ []
    → (a ≡ []) × (b ≡ []) × (c ≡ []) × (d ≡ []) × (e ≡ []) × (f ≡ [])
nil_parts a b c d e f h =
    let (abcde, no_f) = append-nil_parts (a ++ b ++ c ++ d ++ e) f h in
    let (abcd, no_e) = append-nil_parts (a ++ b ++ c ++ d) e abcde in
    let (abc, no_d) = append-nil_parts (a ++ b ++ c) d abcd in
    let (ab, no_c) = append-nil_parts (a ++ b) c abc in
    let (no_a, no_b) = append-nil_parts a b ab in (no_a, no_b, no_c, no_d, no_e, no_f)

-- Every reference is known, and neither seen before nor there twice.
record Referenced (known seen refs : List String) : Type 0 where
  pub all_known : All (λ id. has_id id known ≡ true) refs
  unseen : All (λ id. NotIn id seen) refs
  once : Once refs

unseen_more :
    (id : String) (seen rest : List String)
    → NotIn id rest
    → All (λ x. NotIn x seen) rest
    → All (λ x. NotIn x (id ∷ seen)) rest
unseen_more id seen [] n h = tt
unseen_more id seen (x ∷ rest) n h =
    (((λ e. absurd (n.0 (sym e))), h.0), unseen_more id seen rest n.1 h.1)

unseen_less :
    (id : String) (seen rest : List String)
    → All (λ x. NotIn x (id ∷ seen)) rest
    → NotIn id rest × All (λ x. NotIn x seen) rest
unseen_less id seen [] h = (tt, tt)
unseen_less id seen (x ∷ rest) h =
    let (here, there) = unseen_less id seen rest h.1 in
    (((λ e. absurd (h.0.0 (sym e))), here), (h.0.1, there))

Referenced-issues :
    (known : List String) (index : ℕ) (seen refs : List String)
    → Referenced known seen refs
    → lint_references known index seen refs ≡ []
unfolding lint_references
Referenced-issues known index seen [] r = refl
Referenced-issues known index seen (id ∷ rest) r =
    let later : Referenced known (id ∷ seen) rest = record {
      all_known = r.all_known.1;
      unseen = unseen_more id seen rest r.once.0 r.unseen.1;
      once = r.once.1;
    } in
    ground (
      arith,
      r.all_known.0,
      NotIn-has_id id seen r.unseen.0,
      Referenced-issues known (index + 1) (id ∷ seen) rest later,
    )

issues-Referenced :
    (known : List String) (index : ℕ) (seen refs : List String)
    → lint_references known index seen refs ≡ []
    → Referenced known seen refs
unfolding lint_references
issues-Referenced known index seen [] h = record { all_known = tt; unseen = tt; once = tt }
issues-Referenced known index seen (id ∷ rest) h =
    let later : Referenced known (id ∷ seen) rest =
      issues-Referenced known (index + 1) (id ∷ seen) rest (ground arith) in
    let (fresh, unseen) = unseen_less id seen rest later.unseen in
    record {
      all_known = (ground arith, later.all_known);
      unseen = (has_id-NotIn id seen (ground arith), unseen);
      once = (fresh, later.once);
    }

-- The clause is referenced, and its expected value fits its operator.
abbrev pub IsUsable : List String → EvidenceClause → Type 0
IsUsable refs c =
    (has_id c.clause_id refs ≡ true) × (expected_mismatch c.operator c.expected ≡ false)

lint_clauses-nil :
    (refs : List String) (cs : List EvidenceClause)
    → lint_clauses refs cs ≡ []
    → All (IsUsable refs) cs
unfolding lint_clauses
lint_clauses-nil refs [] h = tt
lint_clauses-nil refs (c ∷ cs) h =
    ((ground arith, ground arith), lint_clauses-nil refs cs (ground arith))

usable-lint_clauses :
    (refs : List String) (cs : List EvidenceClause)
    → All (IsUsable refs) cs
    → lint_clauses refs cs ≡ []
unfolding lint_clauses
usable-lint_clauses refs [] h = refl
usable-lint_clauses refs (c ∷ cs) h = ground (arith, h.0, usable-lint_clauses refs cs h.1)

-- A rule set within the limits, whose expression references each of its clauses, nothing else, and
-- nothing twice, with expected values that fit the operators.
pub record IsClean (limits : Limits) (cs : List EvidenceClause) (e : EvidenceExpression) (bytes : ℕ)
    : Type 0 where
  pub clauses : length cs ≤ limits.max_clauses
  pub nodes : size e ≤ limits.max_expression_nodes
  pub depth : deepest e 1 ≤ limits.max_expression_depth
  pub known : All (λ id. has_id id (clause_ids cs) ≡ true) (leaves e)
  pub once : Once (leaves e)
  pub usable : All (IsUsable (leaves e)) cs
  pub encoded : bytes ≤ limits.max_contract_bytes

no_seen : (refs : List String) → All (λ id. NotIn id []) refs
no_seen [] = tt
no_seen (id ∷ refs) = (tt, no_seen refs)

module _ (limits : Limits) (cs : List EvidenceClause) (e : EvidenceExpression) (bytes : ℕ) where
  found : Visited
  found = record { nodes = size e; max_depth = deepest e 1; references = leaves e }

  lint_visited-IsClean : lint_visited limits cs bytes found ≡ [] → IsClean limits cs e bytes
  unfolding lint_visited found
  lint_visited-IsClean h =
      let (few, not_large, not_deep, no_references, no_issues, no_size_issue) =
        nil_parts
          (issue_if (ltb limits.max_clauses (length cs)) "too_many_clauses" Location.clauses)
          (issue_if (ltb limits.max_expression_nodes (size e)) "expression_too_large" expression)
          (issue_if (ltb limits.max_expression_depth (deepest e 1)) "expression_too_deep"
            expression)
          (lint_references (clause_ids cs) 0 [] (leaves e)) (lint_clauses (leaves e) cs)
          (issue_if (ltb limits.max_contract_bytes bytes) "contract_too_large" whole) h in
      let r = issues-Referenced (clause_ids cs) 0 [] (leaves e) no_references in
      record {
        clauses = ground arith;
        nodes = ground arith;
        depth = ground arith;
        known = r.all_known;
        once = r.once;
        usable = lint_clauses-nil (leaves e) cs no_issues;
        encoded = ground arith;
      }

  IsClean-lint_visited : IsClean limits cs e bytes → lint_visited limits cs bytes found ≡ []
  unfolding lint_visited found
  IsClean-lint_visited clean =
      let r : Referenced (clause_ids cs) [] (leaves e) = record {
        all_known = clean.known;
        unseen = no_seen (leaves e);
        once = clean.once;
      } in
      ground (
        arith,
        clean.clauses,
        clean.nodes,
        clean.depth,
        clean.encoded,
        Referenced-issues (clause_ids cs) 0 [] (leaves e) r,
        usable-lint_clauses (leaves e) cs clean.usable,
      )

  -- On fuel for the nodes of the expression, or more, a lint that finds nothing is one of a clean rule
  -- set.
  pub lint_rule_set-IsClean :
      (fuel : ℕ)
      → size e ≤ fuel
      → lint_rule_set fuel limits cs e bytes ≡ some []
      → IsClean limits cs e bytes
  unfolding found
  lint_rule_set-IsClean fuel h k =
      lint_visited-IsClean (ground (arith, lint_rule_set_lem fuel limits cs e bytes h))

  -- On such fuel, the lint of a clean rule set finds nothing.
  pub IsClean-lint_rule_set :
      (fuel : ℕ)
      → size e ≤ fuel
      → IsClean limits cs e bytes
      → lint_rule_set fuel limits cs e bytes ≡ some []
  unfolding found
  IsClean-lint_rule_set fuel h clean =
      ground (arith, lint_rule_set_lem fuel limits cs e bytes h, IsClean-lint_visited clean)
