-- ===== src/Dispatch/Reconcile/Completing.antt =====
-- Completing the current phase, and what an attempt to advance leaves (src/dispatch/mod.rs).
use mathlib.Core.Path.{subst}
use hymenium.Prelude.{
  ◌+◌, String, ◌≡◌, refl, true, false, some, modify, modify-const, get_elem?-modify_self, get_elem?,
  get_elem?-lt, get_elem?-some-lt, if◌then◌else◌, ◌≢◌, arith,
}
use hymenium.Workflow.Template.{FileSystem, Phase}
use hymenium.Workflow.Gate.{GateEvaluator}
use hymenium.Workflow.Engine.{
  WorkflowStatus, PhaseState, WorkflowInstance, Clock, current_phase, advance, can_advance,
  check_entry, already_at_final_phase, is_completed, mark_completed, mark_active, ok, err, Result,
  PhaseTransition, dispatched, invalid_phase_index, gate_failed, state_error,
  reconcile_complete_current_phase,
}
use hymenium.Workflow.Engine.Invariant.{IsValid, ValidParts}
use hymenium.Workflow.Engine.Invariant.Moves.{advance-IsValid, states_count}
use hymenium.Workflow.Engine.Gating.{is_ok}
use hymenium.Workflow.Engine.Invariant.Steps.{reconcile_complete-IsValid, with_phase, restate}
use hymenium.Dispatch.Reconcile.{after_advance, is_terminal}

-- The current phase has been completed, and nothing else has moved.
pub record CompletedAt (w : WorkflowInstance) (p : PhaseState) (u : WorkflowInstance) : Type 0 where
  pub valid : IsValid u
  pub phase : PhaseState
  pub phase_here : current_phase u ≡ some phase
  pub phase_done : is_completed phase.status ≡ true
  pub same_id : phase.phase_id ≡ p.phase_id
  pub same_template : u.template ≡ w.template
  pub same_idx : u.current_phase_idx ≡ w.current_phase_idx
  pub states : u.phase_states ≡ modify w.phase_states w.current_phase_idx (λ _. phase)
  pub same_workflow : u.workflow_id ≡ w.workflow_id

module _ (now : Clock) (w : WorkflowInstance) (v : IsValid w) where
  put_back :
      (p : PhaseState) (f : PhaseState → PhaseState)
      → current_phase w ≡ some p
      → is_completed (f p).status ≡ true
      → (f p).phase_id ≡ p.phase_id
      → (u : WorkflowInstance)
      → u ≡ record w {
        phase_states = modify w.phase_states w.current_phase_idx f;
        updated_at = now 2;
      }
      → IsValid u
      → CompletedAt w p u
  put_back p f e d i u h vu = record {
    valid = vu;
    phase = f p;
    phase_here = rw h (get_elem?-modify_self w.phase_states w.current_phase_idx f e);
    phase_done = d;
    same_id = i;
    same_template = rw h refl;
    same_idx = rw h refl;
    states = rw h (modify-const w.phase_states w.current_phase_idx p f e);
    same_workflow = rw h refl;
  }

  pub completes :
      (p : PhaseState)
      → current_phase w ≡ some p
      → is_terminal p.status ≡ false
      → (u : WorkflowInstance) × (reconcile_complete_current_phase now w ≡ (ok tt, u))
        × CompletedAt w p u
  unfolding reconcile_complete_current_phase
  completes p e t =
      let u = (reconcile_complete_current_phase now w).1 in
      (
        u,
        ground arith,
        ground (
          arith,
          put_back p (mark_completed (now 0)) e refl refl u,
          put_back p (λ r. mark_completed (now 1) (mark_active (now 0) r)) e refl refl u,
          reconcile_complete-IsValid now w v,
        ),
      )

module _ (fs : FileSystem) (ev : GateEvaluator) (now : Clock) (w : WorkflowInstance)
    (v : IsValid w) where
  pub advance_idx :
      (advance fs ev now w).1.current_phase_idx
      ≡ (if is_ok (advance fs ev now w).0 then w.current_phase_idx + 1 else w.current_phase_idx)
  unfolding advance
  advance_idx =
      ground (arith, states_count now w v, get_elem?-lt w.phase_states (w.current_phase_idx + 1))

  pub advance_states : (advance fs ev now w).1.phase_states ≡ w.phase_states
  unfolding advance
  advance_states =
      ground (arith, states_count now w v, get_elem?-lt w.phase_states (w.current_phase_idx + 1))

  pub not_last :
      (n : Phase)
      → get_elem? w.template.phases (w.current_phase_idx + 1) ≡ some n
      → (advance fs ev now w).0 ≢ err already_at_final_phase
  unfolding advance can_advance check_entry
  not_last n e h = ground (arith, get_elem?-some-lt w.template.phases (w.current_phase_idx + 1) n e)

  last_completed :
      (advance fs ev now w).0 ≡ err already_at_final_phase
      → IsValid (record (advance fs ev now w).1 { status = WorkflowStatus.completed })
  unfolding advance can_advance check_entry
  last_completed h = with_phase w v λ p e here. ground (
    arith,
    states_count now w v,
    get_elem?-some-lt w.phase_states w.current_phase_idx p e,
    restate w.template.phases w.status WorkflowStatus.completed w.current_phase_idx w.phase_states p
        v e,
  )

  advanced_status :
      is_ok (advance fs ev now w).0 ≡ true → (advance fs ev now w).1.status ≡ dispatched
  unfolding advance
  advanced_status h = ground arith

  pub after_advance-IsValid : (id : String) → IsValid (after_advance id (advance fs ev now w)).1
  after_advance-IsValid id =
      go (advance fs ev now w) (advance-IsValid now w v fs ev) advanced_status last_completed
    where
      go :
          (x : Result PhaseTransition × WorkflowInstance)
          → IsValid x.1
          → (is_ok x.0 ≡ true → x.1.status ≡ dispatched)
          → (x.0 ≡ err already_at_final_phase
              → IsValid (record x.1 { status = WorkflowStatus.completed }))
          → IsValid (after_advance id x).1
      go (ok t, u) vu moved last =
          subst (λ s. ValidParts u.template.phases s u.current_phase_idx u.phase_states)
            (moved refl) vu
      go (err already_at_final_phase, u) vu moved last = last refl
      go (err (invalid_phase_index n), u) vu moved last = vu
      go (err (gate_failed id' r), u) vu moved last = vu
      go (err (state_error m), u) vu moved last = vu
