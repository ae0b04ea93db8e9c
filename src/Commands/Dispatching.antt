-- ===== src/Commands/Dispatching.antt =====
-- `hymenium dispatch`, from the parsed handoff on (src/commands/dispatch.rs).
use hymenium.Prelude.{String, Option, none, some, List, [], ◌∷◌}
use hymenium.Handoff.{ParsedHandoff}
use hymenium.Workflow.Template.{WorkflowTemplate}
use hymenium.Workflow.Engine.{PhaseState, WorkflowInstance}
use hymenium.Dispatch.Canopy.{DispatchError, DispatchResult, done, failed_with}
use hymenium.Dispatch.Orchestrate.{Call, Canopy, Surroundings, dispatch_workflow}
use hymenium.Store.{StoreError}
use hymenium.Store.Session.{Environment, Session, Attempt, Action, ◌>>=◌, ◌>>◌, pure, raise, into}
use hymenium.Store.Operations.{find_and_insert_workflow_by_hash, record_transition}

-- The errors that remain once the file is read and parsed and the built-in template is registered.
pub data DispatchCommandError : Type 0 where
  dispatch : DispatchError → DispatchCommandError
  store : StoreError → DispatchCommandError

abbrev first_phase : List PhaseState → Option String
first_phase [] = none
first_phase (p ∷ ps) = some p.phase_id

unfoldable pub persist :
    Environment → String → WorkflowInstance → Action DispatchCommandError WorkflowInstance
persist env content_hash w = do
  persisted ← into store (find_and_insert_workflow_by_hash env w content_hash)
  into store (
      record_transition env persisted.workflow_id none (first_phase persisted.phase_states)
        (some "initial dispatch"))
  pure persisted

abbrev pub persist_dispatched :
    Environment
    → String
    → DispatchResult WorkflowInstance
    → Action DispatchCommandError WorkflowInstance
persist_dispatched env content_hash (failed_with e) = raise (dispatch e)
persist_dispatched env content_hash (done w) = persist env content_hash w

-- The new workflow's ID, the content hash and the resolved path are arguments. The answer comes with
-- the calls that Canopy has been sent.
unfoldable pub run :
    Canopy
    → Surroundings
    → Environment
    → ParsedHandoff
    → WorkflowTemplate
    → String
    → String
    → String
    → List Call
    → Session
    → List Call × (Attempt DispatchCommandError WorkflowInstance × Session)
unfolding persist
run canopy around env handoff template workflow_id content_hash path calls s =
    let (sent, r) = dispatch_workflow canopy around handoff template workflow_id path calls in
    (sent, persist_dispatched env content_hash r s)
