-- ===== src/Commands/Ending.antt =====
-- What a terminal command stores in its transaction (src/commands/cancel.rs,
-- src/commands/complete.rs, src/commands/fail.rs).
use hymenium.Prelude.{◌≡◌, refl, ◌∙◌, String, Option, none, some}
use hymenium.Workflow.Engine.{
  WorkflowStatus, cancelled, WorkflowInstance, current_phase, workflow_status_text,
}
use hymenium.Store.{StoreError}
use hymenium.Store.Tables.{Tables}
use hymenium.Store.Session.{Environment, Action, ◌>>=◌, into}
use hymenium.Store.Session.Ends.{Ends, bind-Ends, into-Ends, weaken-Ends}
use hymenium.Store.Operations.{
  get_workflow, update_workflow_status, update_current_phase_idx, upsert_phases, record_transition,
}
use hymenium.Store.Operations.Loading.{Loaded, get_workflow-Loaded}
use hymenium.Commands.{or_raise, emit_terminal_outcome}
use hymenium.Commands.Statuses.{
  HasStatus, HasOutcome, update_workflow_status-HasStatus, update_current_phase_idx-HasStatus,
  upsert_phases-same, record_transition-same, emit-HasOutcome,
}
use hymenium.Store.Tables.Keys.{find_row-id}
use hymenium.Commands.Cancel
use hymenium.Commands.Complete
use hymenium.Commands.Fail

-- The status and the outcome of a workflow as they are stored.
abbrev pub Ended : Environment → String → WorkflowStatus → Tables → Type 0
Ended env id status t = HasStatus id (workflow_status_text status) t × HasOutcome env id status t

-- One operation of a command, and what follows.
step :
    {F A B : Type 0} (P : A → Tables → Type 0) (Q : B → Tables → Type 0) (from : StoreError → F)
    (t : Tables) (m : Action StoreError A) (f : A → Action F B)
    → Ends (Unit {0}) t m P
    → ((a : A) (u : Tables) → P a u → Ends (Unit {0}) u (f a) Q)
    → Ends (Unit {0}) t (into from m >>= f) Q
step P Q from t m f h =
    bind-Ends (Unit {0}) P Q t (into from m) f (into-Ends (Unit {0}) P t from m h)

moved :
    {E A : Type 0} (id : String) (m : Action E A) (text : String) (t : Tables)
    → HasStatus id text t
    → Ends (Unit {0}) t m (λ _ u. u.workflows ≡ t.workflows)
    → Ends (Unit {0}) t m (λ _ u. HasStatus id text u)
moved id m text t (r, e, h) k = weaken-Ends (Unit {0}) _ _ t m k λ a u l. (r, rw l e, h)

or_raise-same :
    {E A : Type 0} (t : Tables) (o : Option A) (e : E)
    → Ends (Unit {0}) t (or_raise o e) λ _ u. u ≡ t
or_raise-same t none e = λ s k. tt
or_raise-same t (some a) e = λ s k. k

module _ (env : Environment) (id : String) where
  emitted :
      (status : WorkflowStatus) (w : WorkflowInstance) (t : Tables)
      → w.workflow_id ≡ id
      → w.status ≡ status
      → HasStatus id (workflow_status_text status) t
      → Ends (Unit {0}) t (emit_terminal_outcome env w none none) λ _ u. Ended env id status u
  emitted status w t named st (r, e, h) =
      weaken-Ends (Unit {0}) _ _ t (emit_terminal_outcome env w none none) (emit-HasOutcome env w t)
        λ _ u (a, b). ((r, rw a e, h), rw⁻¹ (named, st) b)

  pub Complete-persist-Ended :
      (w : WorkflowInstance) (t : Tables)
      → w.workflow_id ≡ id
      → w.status ≡ WorkflowStatus.completed
      → Ends (Unit {0}) t (Complete.persist env id w) λ _ u. Ended env id WorkflowStatus.completed u
  unfolding Complete.persist
  Complete-persist-Ended w t named st =
      let F = Complete.CompleteCommandError.store in
      let text : String = workflow_status_text WorkflowStatus.completed in
      step _ _ F t (update_workflow_status env id WorkflowStatus.completed none) _
        (update_workflow_status-HasStatus env id WorkflowStatus.completed none t)
        λ _ u a.
          step _ _ F u (update_current_phase_idx env id w.current_phase_idx) _
            (update_current_phase_idx-HasStatus env id text w.current_phase_idx u a)
            λ _ v b.
              step _ _ F v (upsert_phases env id w.phase_states 0) _
                (moved id (upsert_phases env id w.phase_states 0) text v b
                  (upsert_phases-same env id w.phase_states 0 v))
                λ _ v2 c.
                  bind-Ends (Unit {0}) (λ _ z. z ≡ v2) _ v2 (or_raise (current_phase w) _) _
                    (or_raise-same v2 (current_phase w) _)
                    λ p z k. rw k (
                      step _ _ F v2
                        (record_transition env id (some p.phase_id) (some "completed")
                          (some "workflow completed successfully"))
                        _
                        (moved id
                          (record_transition env id (some p.phase_id) (some "completed")
                            (some "workflow completed successfully"))
                          text v2 c
                          (record_transition-same env id (some p.phase_id) (some "completed")
                            (some "workflow completed successfully") v2))
                        λ _ v3 d.
                          into-Ends (Unit {0}) (λ _ z. Ended env id WorkflowStatus.completed z) v3 F
                            (emit_terminal_outcome env w none none)
                            (emitted WorkflowStatus.completed w v3 named st d))

  pub Fail-persist-Ended :
      (reason : String) (w : WorkflowInstance) (t : Tables)
      → w.workflow_id ≡ id
      → w.status ≡ WorkflowStatus.failed
      → Ends (Unit {0}) t (Fail.persist env id reason w) λ _ u. Ended env id WorkflowStatus.failed u
  unfolding Fail.persist
  Fail-persist-Ended reason w t named st =
      let F = Fail.FailCommandError.store in
      let text : String = workflow_status_text WorkflowStatus.failed in
      step _ _ F t (update_workflow_status env id WorkflowStatus.failed none) _
        (update_workflow_status-HasStatus env id WorkflowStatus.failed none t)
        λ _ u a.
          step _ _ F u (update_current_phase_idx env id w.current_phase_idx) _
            (update_current_phase_idx-HasStatus env id text w.current_phase_idx u a)
            λ _ v b.
              step _ _ F v (upsert_phases env id w.phase_states 0) _
                (moved id (upsert_phases env id w.phase_states 0) text v b
                  (upsert_phases-same env id w.phase_states 0 v))
                λ _ v2 c.
                  bind-Ends (Unit {0}) (λ _ z. z ≡ v2) _ v2 (or_raise (current_phase w) _) _
                    (or_raise-same v2 (current_phase w) _)
                    λ p z k. rw k (
                      step _ _ F v2
                        (record_transition env id (some p.phase_id) (some "failed") (some reason)) _
                        (moved id
                          (record_transition env id (some p.phase_id) (some "failed") (some reason))
                          text v2 c
                          (record_transition-same env id (some p.phase_id) (some "failed")
                            (some reason) v2))
                        λ _ v3 d.
                          into-Ends (Unit {0}) (λ _ z. Ended env id WorkflowStatus.failed z) v3 F
                            (emit_terminal_outcome env w none none)
                            (emitted WorkflowStatus.failed w v3 named st d))

  reloaded :
      (t : Tables)
      → HasStatus id (workflow_status_text cancelled) t
      → (found : Option WorkflowInstance) → Loaded t id found
      → Ends
          (Unit {0})
          t
          (or_raise found (Cancel.CancelCommandError.not_found id) >>= λ l.
            into Cancel.CancelCommandError.store
              (emit_terminal_outcome env (record l { status = cancelled }) none none))
          λ _ u. Ended env id cancelled u
  reloaded t h none l = λ s e. tt
  reloaded t h (some w) (r, f, (named, _, _)) =
      into-Ends (Unit {0}) (λ _ u. Ended env id cancelled u) t Cancel.CancelCommandError.store
        (emit_terminal_outcome env (record w { status = cancelled }) none none)
        (emitted cancelled (record w { status = cancelled }) t
          (named ∙ find_row-id id t.workflows r f) refl h)

  pub Cancel-persist-Ended :
      (w : WorkflowInstance) (t : Tables)
      → Ends (Unit {0}) t (Cancel.persist env id w) λ _ u. Ended env id cancelled u
  unfolding Cancel.persist
  Cancel-persist-Ended w t =
      let F = Cancel.CancelCommandError.store in
      let text : String = workflow_status_text cancelled in
      step _ _ F t (update_workflow_status env id cancelled none) _
        (update_workflow_status-HasStatus env id cancelled none t)
        λ _ u a.
          step _ _ F u (update_current_phase_idx env id w.current_phase_idx) _
            (update_current_phase_idx-HasStatus env id text w.current_phase_idx u a)
            λ _ v b.
              step _ _ F v
                (record_transition env id none (some "cancelled")
                  (some "user-requested cancellation"))
                _
                (moved id _ text v b (
                  record_transition-same env id none (some "cancelled")
                    (some "user-requested cancellation") v))
                λ _ v2 c.
                  step _ _ F v2 (get_workflow env id) _ (get_workflow-Loaded env v2 id)
                    λ found v3 (l, k). rw k (reloaded v2 c found l)
