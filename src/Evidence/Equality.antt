-- ===== src/Evidence/Equality.antt =====
-- `==` of evidence contracts and of evaluations, as decisions.
use native.Mathlib.Decide.{ℕ_discrete}
use sisyphus_harness.Prelude.{Option, List}
use sisyphus_harness.Prelude.Equality.{String-discrete, texts-discrete, ℤ-discrete}
use sisyphus_harness.Contracts.Equality.{option_text-discrete}
use sisyphus_harness.Evidence.{
  Scalar, EvidenceValue, PredicateOperator, LogicalResult, EvaluationLifecycle, EvidenceSelector,
  EvidenceClause, EvidenceExpression, EvidenceContract, PredicateEvaluation, ContractEvaluation,
}

unfoldable pub scalar-discrete : Discrete Scalar
scalar-discrete = hlevel (String-discrete, ℤ-discrete)

unfoldable pub scalars-discrete : Discrete (List Scalar)
scalars-discrete = hlevel scalar-discrete

unfoldable pub value-discrete : Discrete EvidenceValue
value-discrete = hlevel (scalar-discrete, scalars-discrete)

unfoldable pub operator-discrete : Discrete PredicateOperator
operator-discrete = hlevel

unfoldable pub selector-discrete : Discrete EvidenceSelector
selector-discrete = hlevel String-discrete

unfoldable pub clause-discrete : Discrete EvidenceClause
clause-discrete = hlevel (String-discrete, selector-discrete, operator-discrete, value-discrete)

unfoldable pub clauses-discrete : Discrete (List EvidenceClause)
clauses-discrete = hlevel clause-discrete

unfoldable pub expression-discrete : Discrete EvidenceExpression
expression-discrete = hlevel (String-discrete, ℕ_discrete)

unfoldable pub result-discrete : Discrete LogicalResult
result-discrete = hlevel

unfoldable pub predicate-discrete : Discrete PredicateEvaluation
predicate-discrete = hlevel (String-discrete, texts-discrete, result-discrete)

unfoldable pub predicates-discrete : Discrete (List PredicateEvaluation)
predicates-discrete = hlevel predicate-discrete

unfoldable pub lifecycle-discrete : Discrete EvaluationLifecycle
lifecycle-discrete = hlevel

unfoldable pub option_result-discrete : Discrete (Option LogicalResult)
option_result-discrete = hlevel result-discrete

unfoldable pub evaluation-discrete : Discrete ContractEvaluation
evaluation-discrete = hlevel (
  String-discrete, lifecycle-discrete, option_result-discrete, predicates-discrete,
  option_text-discrete,
)

unfoldable pub contract-discrete : Discrete EvidenceContract
contract-discrete =
    hlevel (String-discrete, ℕ_discrete, texts-discrete, clauses-discrete, expression-discrete)
