-- ===== src/Evidence/Predicates.antt =====
-- evidence_contract.py: `_evaluate_predicate` and the typed comparisons that it uses.
pub mod Complements
use sisyphus_harness.Prelude.{
  ℕ, String, Bool, true, false, not, ◌&&◌, ◌||◌, List, [], ◌∷◌, ◌==◌, if◌then◌else◌, eqb, any, all,
}
use sisyphus_harness.Prelude.Float.{ℤ, pos, negsuc, int_le, int_lt}
use sisyphus_harness.Evidence.{
  Scalar, boolean, integer, text, EvidenceValue, scalar, sequence, PredicateOperator, equals,
  not_equals, less_than, less_than_or_equal, greater_than, greater_than_or_equal, contains, subset,
  disjoint, LogicalResult, pass, fail, indeterminate,
}

abbrev pub bool_eq : Bool → Bool → Bool
bool_eq true b = b
bool_eq false b = not b

abbrev pub int_eq : ℤ → ℤ → Bool
int_eq (pos a) (pos b) = eqb a b
int_eq (negsuc a) (negsuc b) = eqb a b
int_eq _ _ = false

-- `_typed_key(left) == _typed_key(right)`: equal values of one type.
unfoldable pub same_key : Scalar → Scalar → Bool
same_key (boolean a) (boolean b) = bool_eq a b
same_key (integer a) (integer b) = int_eq a b
same_key (text a) (text b) = a == b
same_key _ _ = false

-- `type(left) is type(right)`
unfoldable pub same_type : Scalar → Scalar → Bool
same_type (boolean a) (boolean b) = true
same_type (integer a) (integer b) = true
same_type (text a) (text b) = true
same_type _ _ = false

-- The loop of `_typed_equal` over two tuples, after the test on their lengths.
unfoldable pub same_keys : List Scalar → List Scalar → Bool
unfolding same_key
same_keys [] [] = true
same_keys (a ∷ as_) (b ∷ bs) = same_key a b && same_keys as_ bs
same_keys _ _ = false

-- `_typed_equal`
unfoldable pub typed_equal : EvidenceValue → EvidenceValue → Bool
unfolding same_key same_keys
typed_equal (scalar a) (scalar b) = same_key a b
typed_equal (sequence a) (sequence b) = same_keys a b
typed_equal _ _ = false

-- The pairs of `zip`, which stops at the shorter tuple.
unfoldable pub same_types : List Scalar → List Scalar → Bool
unfolding same_type
same_types (a ∷ as_) (b ∷ bs) = same_type a b && same_types as_ bs
same_types _ _ = true

-- `_same_value_schema`
unfoldable pub same_value_schema : EvidenceValue → EvidenceValue → Bool
unfolding same_type same_types
same_value_schema (scalar a) (scalar b) = same_type a b
same_value_schema (sequence a) (sequence b) = same_types a b
same_value_schema _ _ = false

-- `_typed_key(a) in {_typed_key(item) for item in items}`
unfoldable pub member : Scalar → List Scalar → Bool
unfolding same_key
member a items = any (same_key a) items

-- `actual_set.issubset(expected_set)`
unfoldable pub is_subset : List Scalar → List Scalar → Bool
unfolding member
is_subset actual expected = all (λ a. member a expected) actual

-- `actual_set.isdisjoint(expected_set)`
unfoldable pub is_disjoint : List Scalar → List Scalar → Bool
unfolding member
is_disjoint actual expected = all (λ a. not (member a expected)) actual

-- The set of types of one tuple lies in that of another.
unfoldable pub types_within : List Scalar → List Scalar → Bool
unfolding same_type
types_within as_ bs = all (λ a. any (same_type a) bs) as_

-- `actual and expected and {type(item) …} != {type(item) …}`
unfoldable pub types_differ : List Scalar → List Scalar → Bool
unfolding types_within
types_differ [] _ = false
types_differ _ [] = false
types_differ (a ∷ as_) (b ∷ bs) =
    not (types_within (a ∷ as_) (b ∷ bs) && types_within (b ∷ bs) (a ∷ as_))

pub record Verdict : Type 0 where
  pub result : LogicalResult
  pub reason : String

abbrev pub decided : Bool → Verdict
decided true = record { result = pass; reason = "predicate_satisfied" }
decided false = record { result = fail; reason = "predicate_not_satisfied" }

abbrev pub type_mismatch : Verdict
type_mismatch = record { result = indeterminate; reason = "observation_type_mismatch" }

-- A comparison of integers; any other value is a mismatch.
abbrev pub compare_integers : (ℤ → ℤ → Bool) → EvidenceValue → EvidenceValue → Verdict
compare_integers test (scalar (integer a)) (scalar (integer b)) = decided (test a b)
compare_integers test _ _ = type_mismatch

-- `_evaluate_predicate`
unfoldable pub evaluate_predicate : PredicateOperator → EvidenceValue → EvidenceValue → Verdict
unfolding typed_equal same_value_schema member is_subset is_disjoint types_differ int_le int_lt
evaluate_predicate equals actual expected = decided (typed_equal actual expected)
evaluate_predicate not_equals actual expected =
    if same_value_schema actual expected
    then decided (not (typed_equal actual expected))
    else type_mismatch
evaluate_predicate less_than actual expected = compare_integers int_lt actual expected
evaluate_predicate less_than_or_equal actual expected = compare_integers int_le actual expected
evaluate_predicate greater_than actual expected =
    compare_integers (λ a b. int_lt b a) actual expected
evaluate_predicate greater_than_or_equal actual expected =
    compare_integers (λ a b. int_le b a) actual expected
evaluate_predicate contains (sequence items) (scalar a) = decided (member a items)
evaluate_predicate contains _ _ = type_mismatch
evaluate_predicate subset (sequence actual) (sequence expected) =
    decided (is_subset actual expected)
evaluate_predicate subset _ _ = type_mismatch
evaluate_predicate disjoint (sequence actual) (sequence expected) =
    if types_differ actual expected then type_mismatch else decided (is_disjoint actual expected)
evaluate_predicate disjoint _ _ = type_mismatch
