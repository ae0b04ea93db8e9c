-- ===== src/Examples/Reconciling.antt =====
-- Reconciling the example with a Canopy that calls its task completed.
use hymenium.Prelude.{◌≡◌, refl, true, false, [], ◌∷◌}
use hymenium.Workflow.Engine.{WorkflowInstance, in_progress}
use hymenium.Workflow.Engine.Invariant.{IsValid}
use hymenium.Dispatch.Canopy.{TaskDetail, done}
use hymenium.Dispatch.Reconcile.{
  still_active, no_task_id, settle, reconcile_loop, marked_completed, ReconcileResult, reconcile_at,
  reconcile_phases,
}
use hymenium.Dispatch.Reconcile.Loop.{outcomes_around}
use hymenium.Dispatch.Reconcile.Evidence.{reconcile_phases-IsValid}
use hymenium.Dispatch.Reconcile.Moving.{OnlyCompletes, reconcile_moves}
use hymenium.Dispatch.Reconcile.Staying.{audited_phase_stays, refused_move_is_final}
use hymenium.Workflow.Gate.{evidence_gate, read_evidence, parse_gate_condition}
use hymenium.Examples.{
  at_work-IsValid, template_of, build_phase, audit_phase, clock, no_files, at_work, active_build,
  task_in, canopy_with, pending_audit, active_audit, instance_at,
}

-- Two audits in a row: the exit gate of the first asks for a verdict that no task carries.
abbrev audited : WorkflowInstance
audited = record (instance_at 0 in_progress (active_audit ∷ pending_audit ∷ [])) {
  template = template_of (audit_phase ∷ audit_phase ∷ []);
}

audited-IsValid : IsValid audited
audited-IsValid = record {
  named = (refl, refl, (refl, refl, tt));
  cursor = ((refl, (refl, refl, refl)), ((refl, (refl, refl, refl)), tt));
  at_end = λ e. cc;
}

abbrev proven : TaskDetail
proven = task_in "completed" true true

abbrev unproven : TaskDetail
unproven = task_in "completed" true false

reconcile_moves_example :
    (r : ReconcileResult) × (reconcile_phases at_work (canopy_with proven) no_files clock false
      ≡ done r)
    × (r.outcomes ≡ outcomes_around 2 0 (marked_completed "implement" true))
    × (r.instance_after.current_phase_idx ≡ 1)
    × OnlyCompletes at_work active_build r.instance_after
unfolding evidence_gate read_evidence parse_gate_condition
reconcile_moves_example =
    reconcile_moves no_files clock false at_work at_work-IsValid active_build refl refl proven refl
      refl build_phase audit_phase refl refl (canopy_with proven) "task-1" refl refl

abbrev answered : ReconcileResult
answered = record { instance_after = at_work; outcomes = still_active ∷ no_task_id ∷ [] }

reconcile_phases-IsValid_example : IsValid answered.instance_after
reconcile_phases-IsValid_example =
    reconcile_phases-IsValid (canopy_with (task_in "in_progress" false false)) no_files clock false
      at_work at_work-IsValid answered
      (unfold reconcile_phases reconcile_loop reconcile_at settle in refl) refl

audited_phase_stays_example :
    (r : ReconcileResult) × (reconcile_phases audited (canopy_with proven) no_files clock false
      ≡ done r)
    × (r.instance_after.current_phase_idx ≡ 0)
audited_phase_stays_example =
    audited_phase_stays no_files clock audited audited-IsValid active_audit refl refl proven refl
      refl audit_phase audit_phase refl refl (unfold parse_gate_condition in refl)
      (canopy_with proven) "task-1" refl refl

refused_move_is_final_example :
    (r r' : ReconcileResult) × (reconcile_phases at_work (canopy_with unproven) no_files clock false
      ≡ done r)
    × (reconcile_phases r.instance_after (canopy_with proven) no_files clock true ≡ done r')
    × (r'.instance_after ≡ r.instance_after)
refused_move_is_final_example =
    refused_move_is_final no_files clock false at_work at_work-IsValid active_build refl refl
      unproven refl refl build_phase audit_phase refl refl
      (unfold evidence_gate read_evidence parse_gate_condition in refl) (canopy_with unproven)
      "task-1" refl refl (canopy_with proven) no_files clock true
