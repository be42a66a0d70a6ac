-- ===== src/Lib.antt =====
-- A verification of the core of sisyphus_harness, a harness that runs coding agents on jobs and decides by
-- evidence whether their work counts. The paths are from the repository's root.
--
-- Parts and files:
-- * src/sisyphus_harness/queue.py is Queue: `enqueue`, `claim`, `heartbeat`, `complete`, `fail`, `_finish`
--   (finish) and `finish_attempt` of JobQueue, as functions from the database to a result, or an
--   exception, and the database that is left. Queue/Args holds the tests on arguments, Queue/Order the
--   SELECT of `claim`. Queue/Machine makes a call a step, and a sequence of calls, by any workers in any
--   order of their transactions, a run. Queue/Contract describes the rows that the calls find and leave,
--   without their UPDATE statements. The other children hold proofs, named for what they are about.
-- * src/sisyphus_harness/database.py is Database: the tables as lists of rows, and a transaction that keeps the
--   database where an exception passes it. The SQL conditions are Boolean functions on rows, with NULL as
--   none. Queue and Database share the database as an explicit argument; transactions are serial, as BEGIN
--   IMMEDIATE makes them.
-- * src/sisyphus_harness/contracts/evidence_contract.py is Evidence: contracts, clauses, expressions,
--   observations and evaluations.
-- * src/sisyphus_harness/evidence_contract.py is Evidence/Predicates (`_evaluate_predicate`),
--   Evidence/Expressions (`_evaluate_expression`), Evidence/Lint (`_lint_rule_set`) and Evidence/Evaluation
--   (`evaluate_evidence_contract`, `evaluate_gap_closure_rule`). An evaluation lints the rule set, then
--   evaluates each clause on the observations that its selector matches, then the expression on the
--   results, where a missing key is none.
-- * src/sisyphus_harness/agent_loop.py, agent_state.py, agent_transitions.py, compaction.py, and parts of
--   agent_context.py and agent_artifacts.py, are Agent: Agent/State the state and its methods,
--   Agent/Transitions the tool and verification handlers, Agent/Compaction `compact_events`, Agent/Files
--   `update_known_file_state`, Agent/Loop `run`, `_run_step` and the recorder's `finish`. A step's view of the
--   outside (clock, provider, snapshots, tool, verifier) is a record, and a run is given one for each step,
--   any at all.
-- * src/sisyphus_harness/protocol.py is Agent/Protocol: `parse_agent_decision` on what `json.loads` read.
-- * src/sisyphus_harness/adapters/receipt_observations.py is Verification/Bindings
--   (`validate_final_verification_bindings`), Verification/Facts (`validate_final_command_observations`) and
--   Verification/Adapter (`ReceiptObservationAdapter.adapt`); src/sisyphus_harness/services/evidence_contract.py
--   is Verification/Adjudication (`adjudicate`): it asks the verifier, tests the answer and its receipt,
--   makes observations and evaluates the contract of Evidence on them. Python that may raise returns a value
--   or the fixed part of the message.
-- * src/sisyphus_harness/contracts/control/outcomes.py is Control,
--   src/sisyphus_harness/infra/control_outcomes.py is Control/Authority (`publish_task_outcome` and the two
--   reads, on the Db of Database), and src/sisyphus_harness/services/control_outcomes.py is Control/Service:
--   `ControlTaskOutcomeService.adjudicate` (adjudicate_task) reads the attempt and the outcome that the job may
--   have, calls the adjudicator, and publishes. Each of its three transactions has a database of its own.
-- * src/sisyphus_harness/contracts/ is Contracts, as far as the others use it; Contracts/Checks has the checks
--   of constructors. Prelude holds what all share.
--
-- Fuel: the loop of the lint visits each node of an expression once, so the number of nodes is enough
-- (Evidence/Lint/Walk); the decimal of a number is written on the number itself, which is more than its
-- digits. The run of an agent recurs on the steps left.
--
-- Parameters: `json.dumps`, SHA-256 digests, sizes in bytes, floating-point addition, uuid4, the clocks, the
-- length of a transcript, what `from_dict` reads of a stored text, the verifier and the observation adapter of
-- an adjudication, `json.loads`, the text inside a code fence, and `str.count` and `str.replace`. The equality
-- of frozen dataclasses is a decision by their fields (Contracts/Equality, Evidence/Equality).
--
-- Not modelled: what the prompt shows, the files of a run's store, the messages and texts of locations of
-- lint issues and their sorting, the codecs of the contracts and the validation in their constructors but
-- for those in Contracts/Checks, Evidence and Control, schema migrations, and the parts of the program not named
-- above: the running of verification commands, the knowledge graph, workspace tools, deadlines, policy
-- evolution, the other adapters and the command line.
pub mod Prelude
pub mod Contracts
pub mod Database
pub mod Queue
pub mod Evidence
pub mod Agent
pub mod Verification
pub mod Control
