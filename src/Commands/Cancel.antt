-- ===== src/Commands/Cancel.antt =====
-- `hymenium cancel` (src/commands/cancel.rs).
use hymenium.Prelude.{String, none, some}
use hymenium.Workflow.Engine.{WorkflowStatus, cancelled, WorkflowInstance}
use hymenium.Store.{StoreError}
use hymenium.Store.Session.{Environment, Action, ◌>>=◌, ◌>>◌, pure, raise, into, with_transaction}
use hymenium.Store.Operations.{
  get_workflow, update_workflow_status, update_current_phase_idx, record_transition,
}
use hymenium.Commands.{or_raise, emit_terminal_outcome}

pub data CancelCommandError : Type 0 where
  store : StoreError → CancelCommandError
  not_found already_terminal : String → CancelCommandError

-- What is run in the transaction.
unfoldable pub persist :
    Environment → String → WorkflowInstance → Action CancelCommandError (Unit {0})
persist env id w = do
  into store (update_workflow_status env id cancelled none)
  into store (update_current_phase_idx env id w.current_phase_idx)
  into store (record_transition env id none (some "cancelled") (some "user-requested cancellation"))
  found ← into store (get_workflow env id)
  loaded ← or_raise found (not_found id)
  into store (emit_terminal_outcome env (record loaded { status = cancelled }) none none)

-- The `match` on the status.
abbrev pub cancel_in :
    WorkflowStatus → Environment → String → WorkflowInstance → Action CancelCommandError (Unit {0})
cancel_in WorkflowStatus.completed env id w = raise (already_terminal "completed")
cancel_in WorkflowStatus.failed env id w = raise (already_terminal "failed")
cancel_in cancelled env id w = pure tt
cancel_in _ env id w = with_transaction env store (persist env id w)

unfoldable pub run : Environment → String → Action CancelCommandError (Unit {0})
unfolding persist
run env id = do
  found ← into store (get_workflow env id)
  w ← or_raise found (not_found id)
  cancel_in w.status env id w
