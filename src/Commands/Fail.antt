-- ===== src/Commands/Fail.antt =====
-- `hymenium fail` (src/commands/fail.rs).
use hymenium.Prelude.{String, Option, none, some}
use hymenium.Workflow.Engine.{
  WorkflowStatus, cancelled, WorkflowError, state_error, WorkflowInstance, current_phase,
  fail_phase,
}
use hymenium.Outcome.{WorkflowOutcome}
use hymenium.Store.{StoreError}
use hymenium.Store.Session.{Environment, Action, ◌>>=◌, ◌>>◌, pure, into, with_transaction}
use hymenium.Store.Operations.{
  get_workflow, get_outcome, update_workflow_status, update_current_phase_idx, upsert_phases,
  record_transition,
}
use hymenium.Commands.{or_raise, engine, emit_terminal_outcome, published}

pub data FailCommandError : Type 0 where
  store : StoreError → FailCommandError
  not_found : String → FailCommandError
  engine_error : WorkflowError → FailCommandError

-- What is run in the transaction.
unfoldable pub persist :
    Environment → String → String → WorkflowInstance → Action FailCommandError (Unit {0})
persist env id reason w = do
  into store (update_workflow_status env id WorkflowStatus.failed none)
  into store (update_current_phase_idx env id w.current_phase_idx)
  into store (upsert_phases env id w.phase_states 0)
  phase ←
      or_raise (current_phase w)
        (engine_error (state_error "invariant: current_phase is None after fail_phase"))
  into store (record_transition env id (some phase.phase_id) (some "failed") (some reason))
  into store (emit_terminal_outcome env w none none)

-- A terminal workflow stays as it is; its outcome is read for a message.
abbrev pub keep : Environment → String → Action FailCommandError (Option WorkflowOutcome)
keep env id = into store (get_outcome env id) >> pure none

abbrev pub fail_loaded :
    Environment
    → String
    → String
    → WorkflowInstance
    → Action FailCommandError (Option WorkflowOutcome)
fail_loaded env id reason w = do
  after ← engine env engine_error (fail_phase reason) w
  with_transaction env store (persist env id reason after)
  published env id

-- The `match` on the status.
abbrev pub fail_in :
    WorkflowStatus
    → Environment
    → String
    → String
    → WorkflowInstance
    → Action FailCommandError (Option WorkflowOutcome)
fail_in WorkflowStatus.completed env id reason w = keep env id
fail_in cancelled env id reason w = keep env id
fail_in WorkflowStatus.failed env id reason w = keep env id
fail_in _ env id reason w = fail_loaded env id reason w

-- The answer is the outcome that Canopy is told, if it is told one.
unfoldable pub run :
    Environment → String → String → Action FailCommandError (Option WorkflowOutcome)
unfolding persist
run env id reason = do
  found ← into store (get_workflow env id)
  w ← or_raise found (not_found id)
  fail_in w.status env id reason w
