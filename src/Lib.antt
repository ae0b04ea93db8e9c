-- ===== src/Lib.antt =====
-- Hymenium: the workflow engine and what watches over it.
--
-- Hymenium drives a piece of work through the phases of a template. The engine holds an instance
-- with a cursor on the current phase and moves it behind gates; the dispatcher reconciles the
-- current phase with its task in Canopy; the monitor turns the task's state into a signal, and the
-- retry policy answers a signal with a recovery; an outcome record is built at the end. The
-- components share the instance: the dispatcher and the monitor change it through the engine, but
-- for the workflow's status, which reconciliation also sets itself.
--
-- Files, and the code they model (paths from the repository's root):
--   Prelude            names and lemmas that all files share
--   Workflow.Template  src/workflow/template.rs: types, `validate`, the registry, artifact
--                      prerequisites; proofs in Validation
--   Workflow.Gate      src/workflow/gate.rs: conditions, the evaluator trait, its three evaluators
--   Workflow.Engine    src/workflow/engine.rs: State (types), Lifecycle (`start_phase` to
--                      `resume_from_user_input`), Counters, Advance; proofs in Invariant (the
--                      invariant of an instance), Reach (any calls of the engine in any
--                      order; that reconciliation also sets the status is in Dispatch.Reconcile),
--                      Gating, Ceilings
--   Dispatch.Canopy    src/dispatch/mod.rs: the task, the signal, the queries of `CanopyClient`
--   Dispatch.Reconcile src/dispatch/mod.rs: `reconcile_phases`; proofs in Loop, Completing,
--                      Evidence, Moving, Staying
--   Dispatch.Packet    src/dispatch/task_packet.rs, capability.rs and the helpers of orchestrate.rs
--   Dispatch.Orchestrate src/dispatch/orchestrate.rs: `dispatch_workflow` as calls to a Canopy that
--                      answers by the calls before; proofs in Tasks and Ends
--   Handoff            src/parser/mod.rs: the types of a parsed handoff
--   Decompose          src/decompose/mod.rs: `decompose`; Groups and Merge are
--                      src/decompose/algorithm.rs (grouping and packing; union-find); proofs in
--                      Packing, Counting, Steps, and in Merge: Forest, Buckets, Together
--   Dag                src/workflow/dag/: nodes and `validate_dag` (proof in Validation); Sort (the
--                      topological sort of `run_inner`; proofs in Setup, Order, Steps, Ends, Cycle),
--                      Node (`execute_node`), Waves (the rest of `run_inner`; proofs in Gate,
--                      Named, Steps, Outcome, Loop, Executed)
--   Failure            src/failure.rs and the failure types of src/outcome.rs
--   Retry              src/retry.rs; proofs in Retry.Limits
--   Monitor            src/monitor/: Signal, Progress (`check_progress`), Handler
--                      (`handle_signal`); proofs in Timing and Recovery
--   Outcome            src/outcome.rs; proofs in Outcome.Route
--   Store              src/store.rs: the texts of statuses and roles (Codec), the rows of
--                      `phase_states` (Rows), the tables, their constraints and the statements on
--                      them (Tables), the columns of `workflows` (Columns), the connection and its
--                      transactions (Session), and the operations of `WorkflowStore` (Operations,
--                      and Listing in it); proofs in Tables: Keys, Consistent; in Session: Through,
--                      Ends, Atomic; in Operations: Through, Consistent, Loading, Deduplicated,
--                      Reliable, Written, Updated, Roundtrip
--   Commands           src/commands/ and src/outcomes.rs: Cancel, Complete, Fail, Pausing (`resume`,
--                      `reconcile`, and `cancel_task` of src/dispatch/orchestrate.rs), Dispatching;
--                      proofs in Transactions, Sequencing, Atomicity, Statuses, Ending,
--                      Settling, Terminal, Updating, Cancelling
--   Sweeper            src/sweeper.rs: Tables, and `run_sweep`; proofs in Orphans and Swept
--   Classify           src/classify.rs: `classify_error`
--   Context            src/context.rs: messages and `retain_and_prune`; proofs in Pairing
--   Examples           runs on a two-phase workflow, and the theorems at its instances
--
-- How the code is translated. A method on `&mut self` is a function from an instance to a result
-- and the instance it leaves, errors included, so what was written before an error stays written
-- (`Method`, a monad). A method on `&self` gives its result only. `Utc::now()` is the argument
-- `now`, a function from the number of the reading within the call. The file system, Canopy, the
-- write to the store, the duration conversion and the timestamp texts of chrono and the Unicode
-- lowercase mapping are arguments. A `u32` counter saturates where the code saturates and wraps
-- where it adds plainly.
-- A JSON value that is only carried along is kept as text. Logging is left out.
--
-- In dispatch, Canopy is a function of the calls so far and the next call, and the code's effect is
-- the list of the calls. In a DAG, the processes, standard input, the end of tasks and the order of
-- a map's entries are functions in a record (`Outside`); a node runs once at most, so an answer
-- may depend on its ID. The slug of a title, the description of a parent task and the parsing of an
-- effort, which computes with floats, are arguments. A table of the sweeper is the list of its
-- rows.
--
-- An operation of the store is a function from a connection to a value or an error and the
-- connection it leaves. A connection is the tables as it sees them, the tables that a rollback
-- brings back while a transaction is open, and the number of its statements so far. What the
-- database does to a statement, to refuse it or to carry it out, is a function of that number
-- (`Environment`), so an action may fail at any statement. A statement that would break a key, the
-- partial unique index or a foreign key is an error and changes nothing. JSON and the order of
-- texts are arguments.
--
-- The loop over the phases in `reconcile_phases` and the loops of gate evaluation are structural
-- recursion. Fuel bounds five loops. The rounds of the topological sort are an argument: a round
-- puts one node in the order, and without repeated edges none is put there twice. The waves of a
-- DAG are as many as its nodes, since each wave completes one at least. A path of the union-find
-- grows by one at most with each union. The replacing of a reference in a text takes at most as
-- many rounds as the text has bytes. The chunks of the store's listing are at most as many as the
-- IDs.
--
-- Not modelled: the Canopy clients, the thread of the sweeper and the errors of its statements, the
-- markdown parser and the rendering of a piece, the migrations of the store, the commands that only
-- print, the workflow lock, the token budget and the stubs of context compression, and parsing and
-- printing of JSON and YAML.
pub mod Classify
pub mod Commands
pub mod Context
pub mod Dag
pub mod Decompose
pub mod Dispatch
pub mod Examples
pub mod Failure
pub mod Handoff
pub mod Monitor
pub mod Outcome
pub mod Prelude
pub mod Retry
pub mod Store
pub mod Sweeper
pub mod Workflow
