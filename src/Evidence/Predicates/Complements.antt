-- ===== src/Evidence/Predicates/Complements.antt =====
-- The operators against each other, and typed equality against equality.
use mathlib.Core.Path.{subst}
use sisyphus_harness.Prelude.{
  ◌≡◌, refl, ap, Bool, true, false, not, List, [], ◌∷◌, arith, eq_iff, eq_refl, ◌↔◌, ◌⊎◌, inl, inr,
  Bool-cases,
}
use sisyphus_harness.Prelude.Float.{ℤ, pos, negsuc, int_le, int_lt}
use sisyphus_harness.Evidence.{
  Scalar, boolean, integer, text, EvidenceValue, scalar, sequence, equals, not_equals, less_than,
  less_than_or_equal, greater_than, greater_than_or_equal, fail, indeterminate,
}
use sisyphus_harness.Evidence.Predicates.{
  same_key, same_keys, same_type, same_types, typed_equal, same_value_schema, evaluate_predicate,
  decided,
}
use sisyphus_harness.Evidence.Expressions.{not_result}

pub same_key-eq : (a b : Scalar) → same_key a b ≡ true → a ≡ b
unfolding same_key
same_key-eq (boolean true) (boolean true) h = refl
same_key-eq (boolean false) (boolean false) h = refl
same_key-eq (boolean true) (boolean false) h = absurd cc
same_key-eq (boolean false) (boolean true) h = absurd cc
same_key-eq (integer (pos a)) (integer (pos b)) h = ap (λ n. integer (pos n)) (ground arith)
same_key-eq (integer (negsuc a)) (integer (negsuc b)) h =
    ap (λ n. integer (negsuc n)) (ground arith)
same_key-eq (integer (pos a)) (integer (negsuc b)) h = absurd cc
same_key-eq (integer (negsuc a)) (integer (pos b)) h = absurd cc
same_key-eq (text a) (text b) h = ap text (ground (arith, eq_iff a b))
same_key-eq (boolean a) (integer b) h = absurd cc
same_key-eq (boolean a) (text b) h = absurd cc
same_key-eq (integer a) (boolean b) h = absurd cc
same_key-eq (integer a) (text b) h = absurd cc
same_key-eq (text a) (boolean b) h = absurd cc
same_key-eq (text a) (integer b) h = absurd cc

pub same_key_refl : (a : Scalar) → same_key a a ≡ true
unfolding same_key
same_key_refl (boolean true) = refl
same_key_refl (boolean false) = refl
same_key_refl (integer (pos a)) = ground arith
same_key_refl (integer (negsuc a)) = ground arith
same_key_refl (text a) = eq_refl a

same_keys-eq : (as_ bs : List Scalar) → same_keys as_ bs ≡ true → as_ ≡ bs
unfolding same_keys
same_keys-eq [] [] h = refl
same_keys-eq (a ∷ as_) (b ∷ bs) h = ground (arith, same_key-eq a b, same_keys-eq as_ bs)
same_keys-eq [] (b ∷ bs) h = absurd cc
same_keys-eq (a ∷ as_) [] h = absurd cc

same_keys_refl : (as_ : List Scalar) → same_keys as_ as_ ≡ true
unfolding same_keys
same_keys_refl [] = refl
same_keys_refl (a ∷ as_) = ground (arith, same_key_refl a, same_keys_refl as_)

typed_equal-eq : (a b : EvidenceValue) → typed_equal a b ≡ true → a ≡ b
unfolding typed_equal
typed_equal-eq (scalar a) (scalar b) h = ap scalar (same_key-eq a b h)
typed_equal-eq (sequence as_) (sequence bs) h = ap sequence (same_keys-eq as_ bs h)
typed_equal-eq (scalar a) (sequence bs) h = absurd cc
typed_equal-eq (sequence as_) (scalar b) h = absurd cc

typed_equal_refl : (a : EvidenceValue) → typed_equal a a ≡ true
unfolding typed_equal
typed_equal_refl (scalar a) = same_key_refl a
typed_equal_refl (sequence as_) = same_keys_refl as_

-- Typed equality holds of a value and itself, and of no two values that differ in their types or contents.
pub typed_equal_lem : (a b : EvidenceValue) → (typed_equal a b ≡ true) ↔ (a ≡ b)
typed_equal_lem a b =
    (typed_equal-eq a b, λ e. subst (λ x. typed_equal a x ≡ true) e (typed_equal_refl a))

same_type_refl : (a : Scalar) → same_type a a ≡ true
unfolding same_type
same_type_refl (boolean a) = refl
same_type_refl (integer a) = refl
same_type_refl (text a) = refl

same_types_refl : (as_ : List Scalar) → same_types as_ as_ ≡ true
unfolding same_types
same_types_refl [] = refl
same_types_refl (a ∷ as_) = ground (arith, same_type_refl a, same_types_refl as_)

same_value_schema_refl : (a : EvidenceValue) → same_value_schema a a ≡ true
unfolding same_value_schema
same_value_schema_refl (scalar a) = same_type_refl a
same_value_schema_refl (sequence as_) = same_types_refl as_

schema_differs : (a b : EvidenceValue) → same_value_schema a b ≡ false → typed_equal a b ≡ false
schema_differs a b h = elim (Bool-cases (typed_equal a b)) [
  | inr different ↦ different
  | inl equal ↦
      let k =
        subst (λ x. same_value_schema a x ≡ true) (typed_equal-eq a b equal)
          (same_value_schema_refl a) in
      absurd cc
]

int_complement : (a b : ℤ) → int_lt a b ≡ not (int_le b a)
unfolding int_lt int_le
int_complement (pos a) (pos b) = ground arith
int_complement (pos a) (negsuc b) = refl
int_complement (negsuc a) (pos b) = refl
int_complement (negsuc a) (negsuc b) = ground arith

decided-not : (b : Bool) → (decided (not b)).result ≡ not_result (decided b).result
unfolding not_result
decided-not true = refl
decided-not false = refl

less_than_complement :
    (actual expected : EvidenceValue)
    → (evaluate_predicate less_than actual expected).result
      ≡ not_result (evaluate_predicate greater_than_or_equal actual expected).result
unfolding evaluate_predicate not_result
less_than_complement (scalar (integer a)) (scalar (integer b)) =
    ground (arith, int_complement a b, decided-not (int_le b a))
less_than_complement (scalar (integer a)) (scalar (boolean b)) = refl
less_than_complement (scalar (integer a)) (scalar (text b)) = refl
less_than_complement (scalar (integer a)) (sequence bs) = refl
less_than_complement (scalar (boolean a)) expected = refl
less_than_complement (scalar (text a)) expected = refl
less_than_complement (sequence as_) expected = refl

greater_than_complement :
    (actual expected : EvidenceValue)
    → (evaluate_predicate greater_than actual expected).result
      ≡ not_result (evaluate_predicate less_than_or_equal actual expected).result
unfolding evaluate_predicate not_result
greater_than_complement (scalar (integer a)) (scalar (integer b)) =
    ground (arith, int_complement b a, decided-not (int_le a b))
greater_than_complement (scalar (integer a)) (scalar (boolean b)) = refl
greater_than_complement (scalar (integer a)) (scalar (text b)) = refl
greater_than_complement (scalar (integer a)) (sequence bs) = refl
greater_than_complement (scalar (boolean a)) expected = refl
greater_than_complement (scalar (text a)) expected = refl
greater_than_complement (sequence as_) expected = refl

-- Less than is the negation of greater than or equal, and greater than of less than or equal, a mismatch
-- of types included. Not equals is the negation of equals on two values of one schema; on any others
-- equals fails and not equals is indeterminate.
pub evaluate_predicate_complements :
    (actual expected : EvidenceValue)
    → ((evaluate_predicate less_than actual expected).result
        ≡ not_result (evaluate_predicate greater_than_or_equal actual expected).result)
      × ((evaluate_predicate greater_than actual expected).result
          ≡ not_result (evaluate_predicate less_than_or_equal actual expected).result)
      × (((same_value_schema actual expected ≡ true)
            × ((evaluate_predicate not_equals actual expected).result
                ≡ not_result (evaluate_predicate equals actual expected).result))
          ⊎ ((same_value_schema actual expected ≡ false)
              × ((evaluate_predicate equals actual expected).result ≡ fail)
              × ((evaluate_predicate not_equals actual expected).result ≡ indeterminate)))
unfolding evaluate_predicate
evaluate_predicate_complements actual expected = (
  less_than_complement actual expected,
  greater_than_complement actual expected,
  elim (Bool-cases (same_value_schema actual expected)) [
    | inl same ↦ inl (same, ground (arith, decided-not (typed_equal actual expected)))
    | inr other ↦ inr (other, ground (arith, schema_differs actual expected other), ground arith)
  ],
)
