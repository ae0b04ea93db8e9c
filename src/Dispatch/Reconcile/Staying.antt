-- ===== src/Dispatch/Reconcile/Staying.antt =====
-- Phases that reconciliation does not leave (src/dispatch/mod.rs).
use hymenium.Prelude.{
  ◌+◌, String, ◌≡◌, refl, ◌∙◌, Bool, true, false, some, List, [], ◌∷◌, all, Option-cases, length,
  get_elem?, get_elem?-some-lt, arith, inl, inr,
}
use hymenium.Workflow.Template.{FileSystem, Phase}
use hymenium.Workflow.Gate.{
  evidence_gate, read_evidence, GateCondition, code_diff_exists, verification_passed, audit_clean,
  findings_resolved, custom, new_context,
}
use hymenium.Workflow.Gate.Evaluation.{holds}
use hymenium.Workflow.Engine.{
  PhaseState, WorkflowInstance, Clock, current_phase, current_template_phase, conditions_of,
}
use hymenium.Workflow.Engine.Invariant.{IsValid}
use hymenium.Workflow.Engine.Gating.{gate_holds}
use hymenium.Dispatch.Canopy.{done, CanopyClient, TaskDetail}
use hymenium.Dispatch.Reconcile.{
  PhaseReconcileOutcome, no_task_id, already_terminal, ReconcileResult, gate_for, reconcile_at,
  reconcile_phases, is_completed_status, is_terminal,
}
use hymenium.Dispatch.Reconcile.Loop.{outcomes_around, reconcile_phases_lem}
use hymenium.Dispatch.Reconcile.Moving.{may_go_on, may_move, reconcile_moves, reconciled_phases}

-- The conditions that a task's evidence can speak for.
abbrev pub has_evidence : GateCondition → Bool
has_evidence code_diff_exists = true
has_evidence verification_passed = true
has_evidence _ = false

no_evidence :
    (task : TaskDetail) (w : WorkflowInstance) (id : String) (cs : List GateCondition)
    → all has_evidence cs ≡ false
    → all (holds (gate_for false task) (new_context w.workflow_id id)) cs ≡ false
unfolding evidence_gate read_evidence
no_evidence task w id [] h = cc
no_evidence task w id (code_diff_exists ∷ cs) h = ground (arith, no_evidence task w id cs)
no_evidence task w id (verification_passed ∷ cs) h = ground (arith, no_evidence task w id cs)
no_evidence task w id (audit_clean ∷ cs) h = refl
no_evidence task w id (findings_resolved ∷ cs) h = refl
no_evidence task w id (custom s ∷ cs) h = refl

module _ (fs : FileSystem) (now : Clock) (w : WorkflowInstance) (v : IsValid w) where
  -- Without force, a phase whose exit gate asks for an audit, for resolved findings or for a custom
  -- condition is not left, however good the evidence of its completed task is.
  pub audited_phase_stays :
      (p : PhaseState)
      → current_phase w ≡ some p
      → is_terminal p.status ≡ false
      → (task : TaskDetail) → is_completed_status task.status ≡ true
      → may_go_on task.completion_signal ≡ true
      → (q n : Phase) → current_template_phase w ≡ some q
      → get_elem? w.template.phases (w.current_phase_idx + 1) ≡ some n
      → all has_evidence (conditions_of q.exit_gate) ≡ false
      → (canopy : CanopyClient) (task_id : String) → p.canopy_task_id ≡ some task_id
      → canopy.get_task task_id ≡ done task
      → (r : ReconcileResult) × (reconcile_phases w canopy fs now false ≡ done r)
        × (r.instance_after.current_phase_idx ≡ w.current_phase_idx)
  audited_phase_stays p here work_open task finished goes_on q n this following needs canopy task_id
        has_task answer =
      let (r, run, os, i, states) =
        reconcile_moves fs now false w v p here work_open task finished goes_on q n this following
          canopy task_id has_task answer in
      let shut : gate_holds (gate_for false task) w q.exit_gate p.phase_id ≡ false =
        no_evidence task w p.phase_id (conditions_of q.exit_gate) needs in
      (r, run, i ∙ rw shut refl)

pub reconcile_terminal :
    (fs : FileSystem) (now : Clock) (w : WorkflowInstance) (p : PhaseState)
    → current_phase w ≡ some p
    → is_terminal p.status ≡ true
    → (canopy : CanopyClient) (force : Bool)
    → (o : PhaseReconcileOutcome) × (reconcile_phases w canopy fs now force
        ≡ done (record {
          instance_after = w;
          outcomes = outcomes_around (length w.phase_states) w.current_phase_idx o;
        }))
unfolding reconcile_at
reconcile_terminal fs now w p here over canopy force =
    let lt = get_elem?-some-lt w.phase_states w.current_phase_idx p here in
    elim (Option-cases p.canopy_task_id) [
      | inl e ↦ (no_task_id, rw (reconcile_phases_lem canopy fs now force w lt, here, e) refl)
      | inr (t, e) ↦ (
        already_terminal p.phase_id,
        rw (reconcile_phases_lem canopy fs now force w lt, here, e, over) refl,
      )
    ]

-- A completed task whose phase may not be left yet is reconciled once: from then on reconciling
-- leaves the instance where it is, whatever Canopy has to say later, with force or without.
pub refused_move_is_final :
    (fs : FileSystem) (now : Clock) (force : Bool) (w : WorkflowInstance)
    → IsValid w
    → (p : PhaseState) → current_phase w ≡ some p
    → is_terminal p.status ≡ false
    → (task : TaskDetail) → is_completed_status task.status ≡ true
    → may_go_on task.completion_signal ≡ true
    → (q n : Phase) → current_template_phase w ≡ some q
    → get_elem? w.template.phases (w.current_phase_idx + 1) ≡ some n
    → may_move fs (gate_for force task) w p q n ≡ false
    → (canopy : CanopyClient) (task_id : String) → p.canopy_task_id ≡ some task_id
    → canopy.get_task task_id ≡ done task
    → (canopy' : CanopyClient) (fs' : FileSystem) (now' : Clock) (force' : Bool)
    → (r r' : ReconcileResult) × (reconcile_phases w canopy fs now force ≡ done r)
      × (reconcile_phases r.instance_after canopy' fs' now' force' ≡ done r')
      × (r'.instance_after ≡ r.instance_after)
refused_move_is_final fs now force w v p here work_open task finished goes_on q n this following
      refused canopy task_id has_task answer canopy' fs' now' force' =
    let (r, run, os, i, states, stuck) =
      reconciled_phases fs now force w v p here work_open task finished goes_on q n this following
        canopy task_id has_task answer in
    let (x, x_here, over) = stuck refused in
    let (o, again) = reconcile_terminal fs' now' r.instance_after x x_here over canopy' force' in
    (
      r,
      record {
        instance_after = r.instance_after;
        outcomes =
            outcomes_around (length r.instance_after.phase_states)
              r.instance_after.current_phase_idx o;
      },
      run,
      again,
      refl,
    )
