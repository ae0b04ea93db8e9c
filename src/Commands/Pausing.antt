-- ===== src/Commands/Pausing.antt =====
-- `hymenium resume` and `hymenium reconcile`, and the cancellation of a task (src/commands/resume.rs,
-- src/commands/reconcile.rs, src/dispatch/orchestrate.rs).
use hymenium.Prelude.{
  ℕ, String, Bool, false, Option, none, some, List, [], ◌∷◌, str_eq, format, if◌then◌else◌,
}
use hymenium.Workflow.Template.{FileSystem}
use hymenium.Workflow.Engine.{
  cancelled, PhaseStatus, WorkflowError, Timestamp, PhaseState, WorkflowInstance, current_phase,
  resume_from_user_input,
}
use hymenium.Store.{StoreError}
use hymenium.Store.Session.{Environment, Action, ◌>>=◌, ◌>>◌, pure, raise, into, with_transaction}
use hymenium.Store.Operations.{
  get_workflow, update_workflow_status, update_current_phase_idx, upsert_phase_state, upsert_phases,
}
use hymenium.Dispatch.Canopy.{
  DispatchError, invalid_state, canopy_error, CanopyClient, DispatchResult, done, failed_with,
}
use hymenium.Dispatch.Reconcile.{ReconcileResult, reconcile_phases, PhaseReconcileOutcome}
use hymenium.Commands.{or_raise, clock, engine}

-- The `anyhow` errors of `resume`, by the context that they are given.
pub data ResumeError : Type 0 where
  not_loaded not_persisted : StoreError → ResumeError
  not_found : String → ResumeError
  not_resumed : WorkflowError → ResumeError

abbrev pub upsert_current :
    Environment → String → ℕ → Option PhaseState → Action StoreError (Unit {0})
upsert_current env id order none = pure tt
upsert_current env id order (some state) = upsert_phase_state env id state order

unfoldable pub persist_resumed :
    Environment → String → WorkflowInstance → Action StoreError (Unit {0})
persist_resumed env id w =
    update_workflow_status env id w.status none
    >> upsert_current env id w.current_phase_idx (current_phase w)

unfoldable pub resume : Environment → String → Action ResumeError (Unit {0})
unfolding persist_resumed
resume env id = do
  found ← into not_loaded (get_workflow env id)
  w ← or_raise found (not_found id)
  after ← engine env not_resumed resume_from_user_input w
  into not_persisted (with_transaction env (λ e. e) (persist_resumed env id after))

pub data ReconcileCommandError : Type 0 where
  store : StoreError → ReconcileCommandError
  not_found : String → ReconcileCommandError
  reconcile : DispatchError → ReconcileCommandError

abbrev pub reconciled :
    DispatchResult ReconcileResult → Action ReconcileCommandError ReconcileResult
reconciled (done r) = pure r
reconciled (failed_with e) = raise (reconcile e)

unfoldable pub persist_reconciled :
    Environment → String → WorkflowInstance → Action ReconcileCommandError (Unit {0})
persist_reconciled env id w = do
  into store (upsert_phases env id w.phase_states 0)
  into store (update_workflow_status env id w.status none)
  into store (update_current_phase_idx env id w.current_phase_idx)

-- The answer is what the summary prints.
unfoldable pub run_with_client :
    Environment
    → String
    → CanopyClient
    → FileSystem
    → Bool
    → Action ReconcileCommandError (List PhaseReconcileOutcome)
unfolding persist_reconciled
run_with_client env id canopy fs force_advance = do
  found ← into store (get_workflow env id)
  w ← or_raise found (not_found id)
  now ← clock env
  result ← reconciled (reconcile_phases w canopy fs now force_advance)
  with_transaction env store (persist_reconciled env id result.instance_after)
  pure result.outcomes

abbrev has_task : String → Option String → Bool
has_task task_id none = false
has_task task_id (some id) = str_eq id task_id

abbrev task_cancelled : Timestamp → PhaseState → PhaseState
task_cancelled now p = record p {
  status = PhaseStatus.failed;
  completed_at = some now;
  failure_reason = some "task cancelled";
}

-- The phases with the first one of this task marked, if there is one.
unfoldable pub cancel_phase : String → Timestamp → List PhaseState → Option (List PhaseState)
cancel_phase task_id now [] = none
cancel_phase task_id now (p ∷ ps) =
    let rest = cancel_phase task_id now ps in
    if has_task task_id p.canopy_task_id
    then some (task_cancelled now p ∷ ps)
    else elim rest [ none ↦ none | some qs ↦ some (p ∷ qs) ]

unfoldable pub persist_cancelled :
    Environment → String → List PhaseState → Action StoreError (Unit {0})
persist_cancelled env id phases =
    upsert_phases env id phases 0 >> update_workflow_status env id cancelled none

-- The text of a store error is an argument.
unfoldable pub cancel_task :
    Environment → (StoreError → String) → String → String → Action DispatchError (Unit {0})
unfolding cancel_phase persist_cancelled
cancel_task env error_text workflow_id task_id = do
  found ←
      into (λ e. canopy_error (format ("store error: " ∷ error_text e ∷ [])))
        (get_workflow env workflow_id)
  w ← or_raise found (invalid_state (format ("workflow " ∷ workflow_id ∷ " not found" ∷ [])))
  now ← clock env
  phases ←
      or_raise (cancel_phase task_id (now 0) w.phase_states)
        (invalid_state (format ("task " ∷ task_id ∷ " not found in workflow " ∷ workflow_id ∷ [])))
  into (λ e. canopy_error (format ("store error: " ∷ error_text e ∷ [])))
      (with_transaction env (λ e. e) (persist_cancelled env workflow_id phases))
