-- ===== src/Workflow/Engine/Invariant/Steps.antt =====
-- Every operation of the engine keeps the invariant (src/workflow/engine.rs).
use hymenium.Prelude.{
  ℕ, zero, suc, String, ◌≡◌, refl, sym, ◌∙◌, Bool, none, some, List, [], ◌∷◌, get_elem?, modify,
  length, length-modify, arith,
}
use hymenium.Workflow.Template.{FileSystem, Phase}
use hymenium.Workflow.Engine.State.{
  WorkflowStatus, in_progress, user_terminated, PhaseStatus, active, PhaseState, WorkflowInstance,
  Clock, current_phase, mark_active, mark_completed, mark_failed,
}
use hymenium.Workflow.Engine.Lifecycle.{
  start_phase, complete_phase, reconcile_complete_current_phase, reconcile_fail_current_phase,
  fail_phase, handoff_to_user_phase, resume_from_user_input, with_reason,
}
use hymenium.Workflow.Engine.Counters.{increment_retry_count, saturating_inc}
use hymenium.Workflow.Engine.Invariant.Cursor.{AtCursor-get, AtCursor-modify, AtCursor-change}
use hymenium.Workflow.Engine.Invariant.{IsValid, ValidParts, Named, Here, Past, Future}

Named-modify :
    (f : PhaseState → PhaseState)
    → ((p : PhaseState) → (f p).phase_id ≡ p.phase_id)
    → ((p : PhaseState) → (f p).role ≡ p.role)
    → (i : ℕ) (ps : List PhaseState) (qs : List Phase) → Named ps qs
    → Named (modify ps i f) qs
Named-modify f same_id same_role i [] qs n = n
Named-modify f same_id same_role i (p ∷ ps) [] n = absurd n
Named-modify f same_id same_role zero (p ∷ ps) (q ∷ qs) n =
    (same_id p ∙ n.0, same_role p ∙ n.1, n.2)
Named-modify f same_id same_role (suc i) (p ∷ ps) (q ∷ qs) n =
    (n.0, n.1, Named-modify f same_id same_role i ps qs n.2)

-- A write to the current phase that ends in a state going with the new workflow status.
pub write :
    (phases : List Phase) (s s' : WorkflowStatus) (idx : ℕ) (states : List PhaseState)
    (f : PhaseState → PhaseState) (p : PhaseState)
    → ValidParts phases s idx states
    → get_elem? states idx ≡ some p
    → ((r : PhaseState) → (f r).phase_id ≡ r.phase_id)
    → ((r : PhaseState) → (f r).role ≡ r.role)
    → (s' ≡ WorkflowStatus.completed → s ≡ WorkflowStatus.completed)
    → Here s' (f p)
    → ValidParts phases s' idx (modify states idx f)
write phases s s' idx states f p v e same_id same_role end here = record {
  named = Named-modify f same_id same_role idx states phases v.named;
  cursor = AtCursor-modify Past (Here s) Future (Here s') f idx states v.cursor p e here;
  at_end = λ q. v.at_end (end q) ∙ sym (length-modify states idx f);
}

-- A new workflow status that goes with the current phase as it is.
pub restate :
    (phases : List Phase) (s s' : WorkflowStatus) (idx : ℕ) (states : List PhaseState)
    (p : PhaseState)
    → ValidParts phases s idx states
    → get_elem? states idx ≡ some p
    → (s' ≡ WorkflowStatus.completed → suc idx ≡ length states)
    → Here s' p
    → ValidParts phases s' idx states
restate phases s s' idx states p v e end here = record {
  named = v.named;
  cursor = AtCursor-change Past (Here s) Future (Here s') idx states v.cursor p e here;
  at_end = end;
}

pub with_phase :
    {Q : Type 0} (w : WorkflowInstance)
    → IsValid w
    → ((p : PhaseState) → current_phase w ≡ some p → Here w.status p → Q)
    → Q
with_phase w v k =
    let (p, e, here) = AtCursor-get Past (Here w.status) Future _ _ v.cursor in k p e here

module _ (now : Clock) (w : WorkflowInstance) (v : IsValid w) where
  -- `write` at the phase that the cursor is at.
  put :
      (s' : WorkflowStatus) (f : PhaseState → PhaseState)
      → ((r : PhaseState) → (f r).phase_id ≡ r.phase_id)
      → ((r : PhaseState) → (f r).role ≡ r.role)
      → (s' ≡ WorkflowStatus.completed → w.status ≡ WorkflowStatus.completed)
      → (p : PhaseState) → current_phase w ≡ some p
      → Here s' (f p)
      → ValidParts w.template.phases s' w.current_phase_idx
          (modify w.phase_states w.current_phase_idx f)
  put s' f same_id same_role end p e here =
      write w.template.phases w.status s' w.current_phase_idx w.phase_states f p v e same_id
        same_role end here

  pub start_phase-IsValid : (fs : FileSystem) → IsValid (start_phase fs now w).1
  unfolding start_phase
  start_phase-IsValid fs = with_phase w v λ p e here.
      ground (arith, put in_progress (mark_active (now 0)) (λ r. refl) (λ r. refl) (λ q. cc) p e)

  pub complete_phase-IsValid : IsValid (complete_phase now w).1
  unfolding complete_phase
  complete_phase-IsValid = with_phase w v λ p e here.
      ground (arith, put w.status (mark_completed (now 0)) (λ r. refl) (λ r. refl) (λ q. q) p e)

  pub reconcile_complete-IsValid : IsValid (reconcile_complete_current_phase now w).1
  unfolding reconcile_complete_current_phase
  reconcile_complete-IsValid = with_phase w v λ p e here. ground (
    arith,
    put w.status (mark_completed (now 0)) (λ r. refl) (λ r. refl) (λ q. q) p e,
    put w.status (λ r. mark_completed (now 1) (mark_active (now 0) r)) (λ r. refl) (λ r. refl)
        (λ q. q) p e,
  )

  pub reconcile_fail-IsValid :
      (reason : String) → IsValid (reconcile_fail_current_phase reason now w).1
  unfolding reconcile_fail_current_phase
  reconcile_fail-IsValid reason = with_phase w v λ p e here. ground (
    arith,
    restate w.template.phases w.status WorkflowStatus.failed w.current_phase_idx w.phase_states p v
        e (λ q. cc),
    put WorkflowStatus.failed (λ r. mark_failed (now 0) (with_reason reason r)) (λ r. refl)
        (λ r. refl) (λ q. cc) p e,
    put WorkflowStatus.failed
        (λ r. mark_failed (now 1) (with_reason reason (mark_active (now 0) r))) (λ r. refl)
        (λ r. refl) (λ q. cc) p e,
  )

  pub fail_phase-IsValid : (reason : String) → IsValid (fail_phase reason now w).1
  unfolding fail_phase
  fail_phase-IsValid reason = with_phase w v λ p e here. ground (
    arith,
    put WorkflowStatus.failed (λ r. mark_failed (now 0) (with_reason reason r)) (λ r. refl)
        (λ r. refl) (λ q. cc) p e,
  )

  pub handoff-IsValid :
      (message : String) (breakout : Bool)
      → IsValid (handoff_to_user_phase message breakout now w).1
  unfolding handoff_to_user_phase
  handoff-IsValid message breakout = with_phase w v λ p e here. ground (
    arith,
    put user_terminated (λ r. mark_failed (now 0) (with_reason message r)) (λ r. refl) (λ r. refl)
        (λ q. cc) p e,
    put WorkflowStatus.awaiting_user_input
        (λ r. record r { pending_message = some message; status = PhaseStatus.awaiting_user_input })
        (λ r. refl) (λ r. refl) (λ q. cc) p e,
  )

  pub resume-IsValid : IsValid (resume_from_user_input now w).1
  unfolding resume_from_user_input
  resume-IsValid = with_phase w v λ p e here. ground (
    arith,
    put in_progress (λ r. record r { pending_message = none; status = active }) (λ r. refl)
        (λ r. refl) (λ q. cc) p e,
  )

  pub increment_retry_count-IsValid : IsValid (increment_retry_count now w).1
  unfolding increment_retry_count
  increment_retry_count-IsValid = with_phase w v λ p e here. ground (
    arith,
    put w.status (λ r. record r { retry_count = saturating_inc r.retry_count }) (λ r. refl)
        (λ r. refl) (λ q. q) p e,
  )
