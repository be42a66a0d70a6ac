-- ===== src/Evidence/Lint.antt =====
-- evidence_contract.py: `_lint_rule_set`, the tests of a rule set before it is evaluated. An issue keeps its
-- code and where it is; the location is a structured value in place of its text, and the message is
-- left out. The source sorts the issues by those texts at the end.
pub mod Walk
pub mod References
pub mod Clean
use sisyphus_harness.Prelude.{
  ℕ, zero, suc, ◌+◌, String, Bool, true, false, not, ◌&&◌, ◌||◌, Option, none, some, List, [], ◌∷◌,
  ◌++◌, ◌==◌, if◌then◌else◌, ltb, any, length, map,
}
use Prim.Native.Nat.{max}
use sisyphus_harness.Evidence.{
  Scalar, boolean, integer, text, EvidenceValue, scalar, sequence, PredicateOperator, equals,
  not_equals, less_than, less_than_or_equal, greater_than, greater_than_or_equal, contains, subset,
  disjoint, EvidenceClause, EvidenceExpression, clause_ref, all_of, any_of, at_least, negated,
  Children, nil, child,
}

-- `EvidenceContractLimits`
pub record Limits : Type 0 where
  pub max_clauses : ℕ
  pub max_expression_nodes : ℕ
  pub max_expression_depth : ℕ
  pub max_contract_bytes : ℕ
  pub max_observations : ℕ

pub data Location : Type 0 where
  clauses expression whole : Location
  reference : ℕ → Location
  clause expected : String → Location

pub record LintIssue : Type 0 where
  pub code : String
  pub location : Location

-- The variables of the loop over the expression's nodes.
pub record Visited : Type 0 where
  pub nodes : ℕ
  pub max_depth : ℕ
  pub references : List String

abbrev pub unvisited : Visited
unvisited = record { nodes = 0; max_depth = 0; references = [] }

-- The stack, its top first, with the depth of each node.
abbrev pub Stack : Type 0
Stack = List (EvidenceExpression × ℕ)

-- Pushing the children in reverse leaves the first on top.
unfoldable pub push_children : Children → ℕ → Stack → Stack
push_children nil d stack = stack
push_children (child e rest) d stack = (e, d) ∷ push_children rest d stack

unfoldable pub push : EvidenceExpression → ℕ → Stack → Stack
unfolding push_children
push (clause_ref id) d stack = stack
push (all_of children) d stack = push_children children (d + 1) stack
push (any_of children) d stack = push_children children (d + 1) stack
push (at_least minimum children) d stack = push_children children (d + 1) stack
push (negated e) d stack = (e, d + 1) ∷ stack

abbrev pub referenced : EvidenceExpression → List String
referenced (clause_ref id) = id ∷ []
referenced _ = []

unfoldable pub visit : EvidenceExpression → ℕ → Visited → Visited
visit e d v = record {
  nodes = v.nodes + 1;
  max_depth = max v.max_depth d;
  references = v.references ++ referenced e;
}

-- `while stack:`; none stands for fuel that ran out.
unfoldable pub walk : ℕ → Stack → Visited → Option Visited
unfolding push visit
walk zero [] v = some v
walk zero (_ ∷ _) v = none
walk (suc fuel) [] v = some v
walk (suc fuel) ((e, d) ∷ stack) v = walk fuel (push e d stack) (visit e d v)

abbrev pub issue_if : Bool → String → Location → List LintIssue
issue_if true code location = record { code = code; location = location } ∷ []
issue_if false code location = []

abbrev pub has_id : String → List String → Bool
has_id id ids = any (λ x. x == id) ids

-- The loop over the references, with the set of those seen before.
unfoldable pub lint_references : List String → ℕ → List String → List String → List LintIssue
lint_references known index seen [] = []
lint_references known index seen (id ∷ rest) =
    issue_if (not (has_id id known)) "unknown_clause_reference" (reference index)
    ++ issue_if (has_id id seen) "duplicate_clause_reference" (reference index)
    ++ lint_references known (index + 1) (id ∷ seen) rest

abbrev pub is_integer_value : EvidenceValue → Bool
is_integer_value (scalar (integer _)) = true
is_integer_value _ = false

abbrev pub is_sequence : EvidenceValue → Bool
is_sequence (sequence _) = true
is_sequence _ = false

-- `_lint_clause`: the expected value's type does not fit the operator.
unfoldable pub expected_mismatch : PredicateOperator → EvidenceValue → Bool
expected_mismatch equals v = false
expected_mismatch not_equals v = false
expected_mismatch less_than v = not (is_integer_value v)
expected_mismatch less_than_or_equal v = not (is_integer_value v)
expected_mismatch greater_than v = not (is_integer_value v)
expected_mismatch greater_than_or_equal v = not (is_integer_value v)
expected_mismatch contains v = is_sequence v
expected_mismatch subset v = not (is_sequence v)
expected_mismatch disjoint v = not (is_sequence v)

-- The loop over the clauses.
unfoldable pub lint_clauses : List String → List EvidenceClause → List LintIssue
unfolding expected_mismatch
lint_clauses seen [] = []
lint_clauses seen (c ∷ rest) =
    issue_if (not (has_id c.clause_id seen)) "unused_clause" (clause c.clause_id)
    ++ issue_if (expected_mismatch c.operator c.expected) "invalid_expected_type"
        (expected c.clause_id)
    ++ lint_clauses seen rest

abbrev pub clause_ids : List EvidenceClause → List String
clause_ids [] = []
clause_ids (c ∷ rest) = c.clause_id ∷ clause_ids rest

-- The issues that follow the loop over the nodes, before they are sorted; `bytes` is the size of the
-- rule set's canonical JSON.
unfoldable pub lint_visited : Limits → List EvidenceClause → ℕ → Visited → List LintIssue
unfolding lint_references lint_clauses
lint_visited limits cs bytes v =
    issue_if (ltb limits.max_clauses (length cs)) "too_many_clauses" clauses
    ++ issue_if (ltb limits.max_expression_nodes v.nodes) "expression_too_large" expression
    ++ issue_if (ltb limits.max_expression_depth v.max_depth) "expression_too_deep" expression
    ++ lint_references (clause_ids cs) 0 [] v.references
    ++ lint_clauses v.references cs
    ++ issue_if (ltb limits.max_contract_bytes bytes) "contract_too_large" whole

-- `_lint_rule_set`, on fuel for its loop.
unfoldable pub lint_rule_set :
    ℕ → Limits → List EvidenceClause → EvidenceExpression → ℕ → Option (List LintIssue)
unfolding walk lint_visited
lint_rule_set fuel limits cs e bytes = elim (walk fuel ((e, 1) ∷ []) unvisited) [
  | none ↦ none
  | some v ↦ some (lint_visited limits cs bytes v)
]
