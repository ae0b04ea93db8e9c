-- ===== src/Commands.antt =====
-- What the command handlers share (src/commands/, src/outcomes.rs).
pub mod Cancel
pub mod Complete
pub mod Fail
pub mod Pausing
pub mod Dispatching
pub mod Transactions
pub mod Sequencing
pub mod Atomicity
pub mod Statuses
pub mod Ending
pub mod Settling
pub mod Terminal
pub mod Updating
pub mod Cancelling
use hymenium.Prelude.{String, Bool, true, false, Option, none, some}
use hymenium.Failure.{TypedFailure}
use hymenium.Workflow.Engine.{
  WorkflowStatus, WorkflowError, WorkflowInstance, Clock, Timestamp, Method, Result, ok, err,
}
use hymenium.Outcome.{RuntimeIdentity, WorkflowOutcome, build, with_runtime_identity}
use hymenium.Store.{StoreError}
use hymenium.Store.Session.{
  Environment, Session, Attempt, succeeded, raised, Action, ◌>>=◌, pure, raise,
}
use hymenium.Store.Operations.{insert_outcome, get_outcome}

-- A reading of the program's clock.
abbrev pub clock : {E : Type 0} → Environment → Action E Clock
clock env s = (succeeded (env.clock s.count), s)

abbrev pub or_raise : {E A : Type 0} → Option A → E → Action E A
or_raise none e = raise e
or_raise (some a) e = pure a

abbrev pub mutated :
    {E A : Type 0} → (WorkflowError → E) → Result A × WorkflowInstance → Action E WorkflowInstance
mutated from (ok a, w) = pure w
mutated from (err e, w) = raise (from e)

-- `?` on an engine method that changes a copy of the stored instance: the copy after it.
abbrev pub engine :
    {E A : Type 0}
    → Environment
    → (WorkflowError → E)
    → (Clock → Method A)
    → WorkflowInstance
    → Action E WorkflowInstance
engine env from m w = do now ← clock env; mutated from (m now w)

abbrev pub with_identity : Option RuntimeIdentity → WorkflowOutcome → WorkflowOutcome
with_identity none o = o
with_identity (some identity) o = with_runtime_identity identity o

unfoldable pub emit_terminal_outcome :
    Environment
    → WorkflowInstance
    → Option TypedFailure
    → Option RuntimeIdentity
    → Action StoreError (Unit {0})
emit_terminal_outcome env w failure identity = do
  now ← clock env
  insert_outcome env (with_identity identity (build w failure (now 0)))

abbrev pub quietly :
    {E A : Type 0} → Attempt StoreError (Option A) × Session → Attempt E (Option A) × Session
quietly (succeeded a, s) = (succeeded a, s)
quietly (raised e, s) = (succeeded none, s)

-- `get_outcome(&id).ok().flatten()`: the outcome that is handed to Canopy, if any.
unfoldable pub published : {E : Type 0} → Environment → String → Action E (Option WorkflowOutcome)
published env id s = quietly (get_outcome env id s)
