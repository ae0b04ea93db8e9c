-- ===== src/Commands/Transactions.antt =====
-- What holds through the transactions of the commands, if it holds through the statements
-- (src/commands/).
use hymenium.Prelude.{String, Option, none, some, List}
use hymenium.Failure.{TypedFailure}
use hymenium.Workflow.Engine.{
  cancelled, WorkflowStatus, PhaseState, WorkflowInstance, current_phase,
}
use hymenium.Outcome.{RuntimeIdentity, build}
use hymenium.Store.Session.{Environment, Session, Action, ◌>>=◌, into}
use hymenium.Store.Session.Through.{Through, bind-Through, into-Through}
use hymenium.Store.Operations.{
  get_workflow, update_workflow_status, update_current_phase_idx, upsert_phases, record_transition,
}
use hymenium.Store.Operations.Through.{
  Statements, Statements-Reads, get_workflow-Through, update_workflow_status-Through,
  update_current_phase_idx-Through, upsert_phase_state-Through, upsert_phases-Through,
  record_transition-Through, insert_outcome-Through,
}
use hymenium.Commands.{or_raise, emit_terminal_outcome, with_identity}
use hymenium.Commands.Cancel
use hymenium.Commands.Complete
use hymenium.Commands.Fail
use hymenium.Commands.Pausing.{
  upsert_current, persist_resumed, persist_reconciled, persist_cancelled, ReconcileCommandError,
}

module _ (env : Environment) {R : Session → Session → Type 0} (st : Statements env R) where
  -- One operation, whose errors are converted, and what follows.
  pub step :
      {E F A B : Type 0} (from : E → F) (m : Action E A) (f : A → Action F B)
      → Through R m
      → ((a : A) → Through R (f a))
      → Through R (into from m >>= f)
  step from m f h = bind-Through st.order (into from m) f (into-Through R from m h)

  pub or_raise-Through : {E A : Type 0} (o : Option A) (e : E) → Through R (or_raise o e)
  or_raise-Through none e = st.order.same
  or_raise-Through (some a) e = st.order.same

  pub emit-Through :
      (w : WorkflowInstance) (failure : Option TypedFailure) (identity : Option RuntimeIdentity)
      → Through R (emit_terminal_outcome env w failure identity)
  unfolding emit_terminal_outcome
  emit-Through w failure identity s =
      insert_outcome-Through env st (with_identity identity (build w failure (env.clock s.count 0)))
        s

  pub Cancel-persist-Through :
      (id : String) (w : WorkflowInstance) → Through R (Cancel.persist env id w)
  unfolding Cancel.persist
  Cancel-persist-Through id w =
      let F = Cancel.CancelCommandError.store in
      step F (update_workflow_status env id cancelled none) _
        (update_workflow_status-Through env st id cancelled none)
        λ _.
          step F (update_current_phase_idx env id w.current_phase_idx) _
            (update_current_phase_idx-Through env st id w.current_phase_idx)
            λ _.
              step F
                (record_transition env id none (some "cancelled")
                  (some "user-requested cancellation"))
                _
                (record_transition-Through env st id none (some "cancelled")
                  (some "user-requested cancellation"))
                λ _.
                  step F (get_workflow env id) _
                    (get_workflow-Through env (Statements-Reads env st) id)
                    λ found.
                      bind-Through st.order
                        (or_raise found (Cancel.CancelCommandError.not_found id)) _
                        (or_raise-Through found (Cancel.CancelCommandError.not_found id))
                        λ l.
                          into-Through R F _
                            (emit-Through (record l { status = cancelled }) none none)

  pub Complete-persist-Through :
      (id : String) (w : WorkflowInstance) → Through R (Complete.persist env id w)
  unfolding Complete.persist
  Complete-persist-Through id w =
      let F = Complete.CompleteCommandError.store in
      step F (update_workflow_status env id WorkflowStatus.completed none) _
        (update_workflow_status-Through env st id WorkflowStatus.completed none)
        λ _.
          step F (update_current_phase_idx env id w.current_phase_idx) _
            (update_current_phase_idx-Through env st id w.current_phase_idx)
            λ _.
              step F (upsert_phases env id w.phase_states 0) _
                (upsert_phases-Through env st id w.phase_states 0)
                λ _.
                  bind-Through st.order (or_raise (current_phase w) _) _
                    (or_raise-Through (current_phase w) _)
                    λ p.
                      step F
                        (record_transition env id (some p.phase_id) (some "completed")
                          (some "workflow completed successfully"))
                        _
                        (record_transition-Through env st id (some p.phase_id) (some "completed")
                          (some "workflow completed successfully"))
                        λ _. into-Through R F _ (emit-Through w none none)

  pub Fail-persist-Through :
      (id : String) (reason : String) (w : WorkflowInstance)
      → Through R (Fail.persist env id reason w)
  unfolding Fail.persist
  Fail-persist-Through id reason w =
      let F = Fail.FailCommandError.store in
      step F (update_workflow_status env id WorkflowStatus.failed none) _
        (update_workflow_status-Through env st id WorkflowStatus.failed none)
        λ _.
          step F (update_current_phase_idx env id w.current_phase_idx) _
            (update_current_phase_idx-Through env st id w.current_phase_idx)
            λ _.
              step F (upsert_phases env id w.phase_states 0) _
                (upsert_phases-Through env st id w.phase_states 0)
                λ _.
                  bind-Through st.order (or_raise (current_phase w) _) _
                    (or_raise-Through (current_phase w) _)
                    λ p.
                      step F
                        (record_transition env id (some p.phase_id) (some "failed") (some reason)) _
                        (record_transition-Through env st id (some p.phase_id) (some "failed")
                          (some reason))
                        λ _. into-Through R F _ (emit-Through w none none)

  upsert_current-Through :
      (id : String) (w : WorkflowInstance) (o : Option PhaseState)
      → Through R (upsert_current env id w.current_phase_idx o)
  upsert_current-Through id w none = st.order.same
  upsert_current-Through id w (some p) = upsert_phase_state-Through env st id p w.current_phase_idx

  pub persist_resumed-Through :
      (id : String) (w : WorkflowInstance) → Through R (persist_resumed env id w)
  unfolding persist_resumed
  persist_resumed-Through id w =
      bind-Through st.order (update_workflow_status env id w.status none) _
        (update_workflow_status-Through env st id w.status none)
        λ _. upsert_current-Through id w (current_phase w)

  pub persist_reconciled-Through :
      (id : String) (w : WorkflowInstance) → Through R (persist_reconciled env id w)
  unfolding persist_reconciled
  persist_reconciled-Through id w =
      let F = ReconcileCommandError.store in
      step F (upsert_phases env id w.phase_states 0) _
        (upsert_phases-Through env st id w.phase_states 0)
        λ _.
          step F (update_workflow_status env id w.status none) _
            (update_workflow_status-Through env st id w.status none)
            λ _. into-Through R F _ (update_current_phase_idx-Through env st id w.current_phase_idx)

  pub persist_cancelled-Through :
      (id : String) (ps : List PhaseState) → Through R (persist_cancelled env id ps)
  unfolding persist_cancelled
  persist_cancelled-Through id ps =
      bind-Through st.order (upsert_phases env id ps 0) _ (upsert_phases-Through env st id ps 0)
        λ _. update_workflow_status-Through env st id cancelled none
