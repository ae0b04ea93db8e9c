-- ===== src/Workflow/Engine/Invariant/Moves.antt =====
-- The counters, `advance` and `complete_workflow` keep the invariant, and a new instance has it
-- (src/workflow/engine.rs).
use native.Mathlib.Numerals.{add-one}
use hymenium.Prelude.{
  suc, ◌+◌, ◌<◌, ◌≡◌, refl, ap, some, List, [], ◌∷◌, length, arith, get_elem?-some-lt, get_elem?-lt,
}
use hymenium.Workflow.Template.{FileSystem, Phase}
use hymenium.Workflow.Gate.{GateEvaluator}
use hymenium.Workflow.Engine.State.{
  WorkflowStatus, dispatched, PhaseStatus, PhaseState, WorkflowInstance, Clock, current_phase,
}
use hymenium.Workflow.Engine.Advance.{advance, complete_workflow}
use hymenium.Workflow.Engine.Invariant.Cursor.{AtCursor-suc}
use hymenium.Workflow.Engine.Invariant.{IsValid, ValidParts, Named, Here, Past, Future}
use hymenium.Workflow.Engine.Invariant.Steps.{restate, with_phase}

length-Named : (ps : List PhaseState) (qs : List Phase) → Named ps qs → length ps ≡ length qs
length-Named [] [] n = refl
length-Named [] (q ∷ qs) n = absurd n
length-Named (p ∷ ps) [] n = absurd n
length-Named (p ∷ ps) (q ∷ qs) n = ap suc (length-Named ps qs n.2)

module _ (now : Clock) (w : WorkflowInstance) (v : IsValid w) where
  pub states_count : length w.phase_states ≡ length w.template.phases
  states_count = length-Named w.phase_states w.template.phases v.named

  step_on :
      (p : PhaseState)
      → current_phase w ≡ some p
      → Here w.status p
      → p.status ≡ PhaseStatus.completed
      → suc w.current_phase_idx < length w.template.phases
      → ValidParts w.template.phases dispatched (suc w.current_phase_idx) w.phase_states
  step_on p e here done lt = record {
    named = v.named;
    cursor =
        AtCursor-suc Past (Here w.status) Future (Here dispatched) w.current_phase_idx
          w.phase_states v.cursor (λ x q. ground arith) (λ x f. ground arith)
          (omega (arith, states_count));
    at_end = λ q. cc;
  }

  pub advance-IsValid : (fs : FileSystem) (ev : GateEvaluator) → IsValid (advance fs ev now w).1
  unfolding advance
  advance-IsValid fs ev = with_phase w v λ p e here. ground (
    arith,
    states_count,
    add-one w.current_phase_idx,
    get_elem?-lt w.phase_states (w.current_phase_idx + 1),
    step_on p e here,
  )

  pub complete_workflow-IsValid : IsValid (complete_workflow now w).1
  unfolding complete_workflow
  complete_workflow-IsValid = with_phase w v λ p e here. ground (
    arith,
    states_count,
    get_elem?-some-lt w.phase_states w.current_phase_idx p e,
    restate w.template.phases w.status WorkflowStatus.completed w.current_phase_idx w.phase_states p
        v e,
  )
