-- ===== src/Lib.antt =====
-- llm_arbitrage_system: an offline, paper-only research system. Market events become features, features
-- become trade plans, an approver accepts or rejects each plan against limits and reservations, an
-- executor simulates the legs and reverses partial outcomes, the approver reconciles each result, a
-- journal keeps the evidence, and a report summarises it. Around this data plane, experiments replay
-- walk-forward windows; a campaign runs the evaluations of a plan in batches and keeps their states in
-- a store; a registry holds the signed evidence of each; and reviewers' signed decisions are bound
-- into a quorum envelope.
--
-- Files, and the code they are about (paths under src/llm_arbitrage_system):
--   Base and its children      lists, options, tests, exceptions as values, signed integers.
--   Domain/Numbers             Python's Decimal and float, as a parameter of everything that computes
--                              with them. No law is assumed of them: Python's decimals round. Domain/Whole is an instance on whole numbers.
--   Domain/Contracts, Plans    domain/contracts.py: records, their checks, operations of plans and fills.
--   Simulation/Dicts           Python's dictionaries with text keys, in insertion order.
--   Simulation/Router          simulation/strategy_router.py: `route` is PaperStrategyRouter.plan, and
--                              `funding`, `crowding`, `lead_lag` are its builders.
--   Simulation/Approval        simulation/approval.py: Gate is `approve`, Settlement is `record_result`,
--                              `release_reservation` and `acknowledge_reconciliation`. `Approver` holds the
--                              fields of StatefulPaperApprover that change.
--   Simulation/Executor        simulation/executor.py: `execute`, `simulate_leg`, `reverse_fill`.
--   Simulation/Pipeline        simulation/pipeline.py and simulation/protocols.py: `produce`, `analyze`,
--                              `approve_next` and `execute_next` are steps of the four tasks, `run` takes
--                              them in a given order. `Parts` are the interfaces.
--   Journal                    storage/sqlite_journal.py: the tables, with the primary and foreign keys
--                              that SQLite checks (Schema), and one function per method of
--                              SQLiteReplayJournal (Methods, Reads, Recording).
--   Performance                reporting/performance.py: `build_performance_report` and its helpers.
--   WalkForward                experiments/walk_forward.py and WalkForwardSpec of experiments/sweep.py.
--   CampaignStore              experiments/campaign_store.py: the two tables, and one function per method.
--   CampaignRunner             experiments/campaign_runner.py: `batch_loop` is the loop of run_campaign,
--                              `end_campaign` and `abort_campaign` its two ends, `run_one_evaluation` the
--                              body of a task, Reconcile the check against the registry at the start.
--   Json                       JSON documents as data, with Python's `==`, and the strings that
--                              experiments/bundle_validation.py reads.
--   Registry                   experiments/registry.py: the five tables, one function per method of
--                              ExperimentRegistry, and what it uses of experiments/evaluation.py.
--   LineageManifest            experiments/lineage.py: `parse_lineage_manifest` on the mapping that the
--                              YAML gives, and how the registry imports what it returns.
--   ReviewQuorum               experiments/review_quorum.py: `build_review_quorum` and
--                              `load_review_quorum_envelope` with every check that they make.
-- Proofs stand in the children of a component's module, and tests and examples in its Tests.
--
-- How code is rendered: a method that changes an object takes its state and returns the next one; an
-- exception is the error of a Result, with the state that it leaves where that can differ; a method that
-- runs in one transaction is one step on the tables. Enumerations and error messages are data types.
-- Identifiers that uuid4 makes, the clock's readings and the encoding into JSON are arguments. Timestamps
-- are microseconds since the epoch. Decimals are finite: not-a-number and infinity do not occur, and a
-- text that is no number is an error where the code parses one. Loops are structural recursion, but
-- for two: generate_walk_forward_windows has fuel of one round more than the dataset has events, which
-- is enough because a checked step is at least one; the loop over the batches has fuel of one round
-- for each pending evaluation, which is enough because a batch takes at least one of them.
--
-- In the pipeline, a step of a task reaches from one await to the next, be it on a queue, the
-- journal or the executor, so other tasks run while a task holds what it has taken; the calls of its
-- journal do not raise there. A pipeline without a journal makes the two steps around such a call at
-- once. What the loaders of files and the verifiers of signatures return is an argument of the
-- registry and the quorum, and so are the canonical JSON text and the hash. JSON numbers are whole,
-- also those of a lineage manifest, whose values are JSON.
--
-- Not modelled: the analytics; what the pipeline tells its journal around the tasks; the files of a
-- campaign's workspace; aggregation, selection and statistics; signatures, hashes, files, the text of
-- JSON and YAML; command lines; SQLite itself beyond its keys, its transactions and the order of rows.
pub mod Base
pub mod Domain
pub mod Simulation
pub mod WalkForward
pub mod CampaignStore
pub mod Journal
pub mod Performance
pub mod Json
pub mod Registry
pub mod ReviewQuorum
pub mod CampaignRunner
pub mod LineageManifest
