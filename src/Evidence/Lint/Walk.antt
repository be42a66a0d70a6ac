-- ===== src/Evidence/Lint/Walk.antt =====
-- The loop of `_lint_rule_set` over the nodes: it ends, and it computes the size, the depth and the
-- references of the expression.
use Prim.Native.Nat.{max}
use mathlib.Core.List.{append-nil, append_assoc}
use sisyphus_harness.Prelude.{
  ℕ, zero, suc, ◌+◌, ◌≤◌, String, ◌≡◌, refl, ◌∙◌, ap, sym, some, List, [], ◌∷◌, ◌++◌, arith,
}
use sisyphus_harness.Evidence.{
  EvidenceExpression, clause_ref, all_of, any_of, at_least, negated, Children, nil, child,
}
use sisyphus_harness.Evidence.Lint.{
  Visited, unvisited, Stack, push_children, push, referenced, visit, walk,
}

-- The number of nodes.
unfoldable mutual
  pub size : EvidenceExpression → ℕ
  size (clause_ref id) = 1
  size (all_of children) = suc (size_children children)
  size (any_of children) = suc (size_children children)
  size (at_least minimum children) = suc (size_children children)
  size (negated e) = suc (size e)

  pub size_children : Children → ℕ
  size_children nil = 0
  size_children (child e rest) = size e + size_children rest

-- The depth of the deepest node, for an expression at depth d.
unfoldable mutual
  pub deepest : EvidenceExpression → ℕ → ℕ
  deepest (clause_ref id) d = d
  deepest (all_of children) d = max d (deepest_children children (d + 1))
  deepest (any_of children) d = max d (deepest_children children (d + 1))
  deepest (at_least minimum children) d = max d (deepest_children children (d + 1))
  deepest (negated e) d = max d (deepest e (d + 1))

  pub deepest_children : Children → ℕ → ℕ
  deepest_children nil d = 0
  deepest_children (child e rest) d = max (deepest e d) (deepest_children rest d)

-- The clauses that are referenced, from left to right.
unfoldable mutual
  pub leaves : EvidenceExpression → List String
  leaves (clause_ref id) = id ∷ []
  leaves (all_of children) = leaves_children children
  leaves (any_of children) = leaves_children children
  leaves (at_least minimum children) = leaves_children children
  leaves (negated e) = leaves e

  pub leaves_children : Children → List String
  leaves_children nil = []
  leaves_children (child e rest) = leaves e ++ leaves_children rest

-- The same of a stack.
stack_size : Stack → ℕ
stack_size [] = 0
stack_size ((e, d) ∷ stack) = size e + stack_size stack

stack_depth : Stack → ℕ
stack_depth [] = 0
stack_depth ((e, d) ∷ stack) = max (deepest e d) (stack_depth stack)

stack_leaves : Stack → List String
stack_leaves [] = []
stack_leaves ((e, d) ∷ stack) = leaves e ++ stack_leaves stack

size-push_children :
    (children : Children) (d : ℕ) (stack : Stack)
    → stack_size (push_children children d stack) ≡ size_children children + stack_size stack
unfolding push_children stack_size size
size-push_children nil d stack = omega arith
size-push_children (child e rest) d stack = omega (arith, size-push_children rest d stack)

depth-push_children :
    (children : Children) (d : ℕ) (stack : Stack)
    → stack_depth (push_children children d stack)
      ≡ max (deepest_children children d) (stack_depth stack)
unfolding push_children stack_depth deepest
depth-push_children nil d stack = omega arith
depth-push_children (child e rest) d stack = omega (arith, depth-push_children rest d stack)

leaves-push_children :
    (children : Children) (d : ℕ) (stack : Stack)
    → stack_leaves (push_children children d stack) ≡ leaves_children children ++ stack_leaves stack
unfolding push_children stack_leaves leaves
leaves-push_children nil d stack = refl
leaves-push_children (child e rest) d stack =
    ap (λ l. leaves e ++ l) (leaves-push_children rest d stack)
    ∙ sym (append_assoc (leaves e) (leaves_children rest) (stack_leaves stack))

size-push :
    (e : EvidenceExpression) (d : ℕ) (stack : Stack)
    → suc (stack_size (push e d stack)) ≡ size e + stack_size stack
unfolding push stack_size size
size-push (clause_ref id) d stack = omega arith
size-push (all_of children) d stack = omega (arith, size-push_children children (d + 1) stack)
size-push (any_of children) d stack = omega (arith, size-push_children children (d + 1) stack)
size-push (at_least m children) d stack = omega (arith, size-push_children children (d + 1) stack)
size-push (negated e) d stack = omega arith

depth-push :
    (e : EvidenceExpression) (d : ℕ) (stack : Stack)
    → max d (stack_depth (push e d stack)) ≡ max (deepest e d) (stack_depth stack)
unfolding push stack_depth deepest
depth-push (clause_ref id) d stack = omega arith
depth-push (all_of children) d stack = omega (arith, depth-push_children children (d + 1) stack)
depth-push (any_of children) d stack = omega (arith, depth-push_children children (d + 1) stack)
depth-push (at_least m children) d stack = omega (arith, depth-push_children children (d + 1) stack)
depth-push (negated e) d stack = omega arith

leaves-push :
    (e : EvidenceExpression) (d : ℕ) (stack : Stack)
    → referenced e ++ stack_leaves (push e d stack) ≡ leaves e ++ stack_leaves stack
unfolding push stack_leaves leaves
leaves-push (clause_ref id) d stack = refl
leaves-push (all_of children) d stack = leaves-push_children children (d + 1) stack
leaves-push (any_of children) d stack = leaves-push_children children (d + 1) stack
leaves-push (at_least m children) d stack = leaves-push_children children (d + 1) stack
leaves-push (negated e) d stack = refl

-- What the loop has at its end.
abbrev total : Stack → Visited → Visited
total stack v = record {
  nodes = v.nodes + stack_size stack;
  max_depth = max v.max_depth (stack_depth stack);
  references = v.references ++ stack_leaves stack;
}

total_path :
    (v w : Visited)
    → v.nodes ≡ w.nodes
    → v.max_depth ≡ w.max_depth
    → v.references ≡ w.references
    → v ≡ w
total_path v w a b c = λ i. record { nodes = a i; max_depth = b i; references = c i }

total-visit :
    (e : EvidenceExpression) (d : ℕ) (stack : Stack) (v : Visited)
    → total (push e d stack) (visit e d v) ≡ total ((e, d) ∷ stack) v
unfolding visit stack_size stack_depth stack_leaves
total-visit e d stack v =
    total_path _ _ (omega (arith, size-push e d stack)) (omega (arith, depth-push e d stack)) (
      append_assoc v.references (referenced e) (stack_leaves (push e d stack))
      ∙ ap (λ l. v.references ++ l) (leaves-push e d stack))

total-empty : (v : Visited) → v ≡ total [] v
unfolding stack_size stack_depth stack_leaves
total-empty v = total_path v _ (omega arith) (omega arith) (sym (append-nil v.references))

size_pos : (e : EvidenceExpression) → 1 ≤ size e
unfolding size
size_pos (clause_ref id) = omega arith
size_pos (all_of children) = omega arith
size_pos (any_of children) = omega arith
size_pos (at_least minimum children) = omega arith
size_pos (negated e) = omega arith

walk-total :
    (fuel : ℕ) (stack : Stack) (v : Visited)
    → stack_size stack ≤ fuel
    → walk fuel stack v ≡ some (total stack v)
unfolding walk stack_size stack_depth stack_leaves
walk-total zero [] v h = ap some (total-empty v)
walk-total zero ((e, d) ∷ stack) v h = absurd (omega (arith, size_pos e))
walk-total (suc fuel) [] v h = ap some (total-empty v)
walk-total (suc fuel) ((e, d) ∷ stack) v h =
    walk-total fuel (push e d stack) (visit e d v) (omega (arith, size-push e d stack))
    ∙ ap some (total-visit e d stack v)

-- On fuel for the nodes of the expression, or more, the loop ends, with the number of nodes, the greatest
-- depth and the references from left to right.
pub walk_lem :
    (fuel : ℕ) (e : EvidenceExpression)
    → size e ≤ fuel
    → walk fuel ((e, 1) ∷ []) unvisited
      ≡ some (record { nodes = size e; max_depth = deepest e 1; references = leaves e })
unfolding stack_size stack_depth stack_leaves
walk_lem fuel e h =
    walk-total fuel ((e, 1) ∷ []) unvisited (omega arith)
    ∙ ap some (total_path _ _ (omega arith) (omega arith) (append-nil (leaves e)))
