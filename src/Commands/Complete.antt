-- ===== src/Commands/Complete.antt =====
-- `hymenium complete` (src/commands/complete.rs).
use hymenium.Prelude.{String, Option, none, some}
use hymenium.Workflow.Engine.{
  WorkflowStatus, cancelled, WorkflowError, state_error, WorkflowInstance, current_phase,
  complete_workflow,
}
use hymenium.Outcome.{WorkflowOutcome}
use hymenium.Store.{StoreError}
use hymenium.Store.Session.{Environment, Action, ◌>>=◌, ◌>>◌, pure, into, with_transaction}
use hymenium.Store.Operations.{
  get_workflow, get_outcome, update_workflow_status, update_current_phase_idx, upsert_phases,
  record_transition,
}
use hymenium.Commands.{or_raise, engine, emit_terminal_outcome, published}

pub data CompleteCommandError : Type 0 where
  store : StoreError → CompleteCommandError
  not_found : String → CompleteCommandError
  engine_error : WorkflowError → CompleteCommandError

-- What is run in the transaction.
unfoldable pub persist :
    Environment → String → WorkflowInstance → Action CompleteCommandError (Unit {0})
persist env id w = do
  into store (update_workflow_status env id WorkflowStatus.completed none)
  into store (update_current_phase_idx env id w.current_phase_idx)
  into store (upsert_phases env id w.phase_states 0)
  phase ←
      or_raise (current_phase w)
        (engine_error (state_error "invariant: current_phase is None after complete_workflow"))
  into store (
      record_transition env id (some phase.phase_id) (some "completed")
        (some "workflow completed successfully"))
  into store (emit_terminal_outcome env w none none)

-- A terminal workflow stays as it is; its outcome is read for a message.
abbrev pub keep : Environment → String → Action CompleteCommandError (Option WorkflowOutcome)
keep env id = into store (get_outcome env id) >> pure none

abbrev pub complete_loaded :
    Environment → String → WorkflowInstance → Action CompleteCommandError (Option WorkflowOutcome)
complete_loaded env id w = do
  after ← engine env engine_error complete_workflow w
  with_transaction env store (persist env id after)
  published env id

-- The `match` on the status.
abbrev pub complete_in :
    WorkflowStatus
    → Environment
    → String
    → WorkflowInstance
    → Action CompleteCommandError (Option WorkflowOutcome)
complete_in WorkflowStatus.completed env id w = keep env id
complete_in cancelled env id w = keep env id
complete_in WorkflowStatus.failed env id w = keep env id
complete_in _ env id w = complete_loaded env id w

-- The answer is the outcome that Canopy is told, if it is told one.
unfoldable pub run : Environment → String → Action CompleteCommandError (Option WorkflowOutcome)
unfolding persist
run env id = do
  found ← into store (get_workflow env id)
  w ← or_raise found (not_found id)
  complete_in w.status env id w
