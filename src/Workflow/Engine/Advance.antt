-- ===== src/Workflow/Engine/Advance.antt =====
-- Moving on to the next phase behind the gates, and completing the workflow.
use hymenium.Prelude.{
  ℕ, ◌+◌, ◌-◌, String, Bool, not, none, List, [], ◌∷◌, ◌++◌, map, length, get_elem?, leb, ◌==◌,
  is_empty, format, join, if◌then◌else◌,
}
use hymenium.Workflow.Template.{FileSystem, Phase, Gate, check_artifact_prerequisites}
use hymenium.Workflow.Gate.{
  GateCondition, parse_gate_condition, new_context, GateEvaluation, GateEvaluator, GateResult,
  evaluated, gate_error, error_text, evaluate_all, passed, failures,
}
use hymenium.Workflow.Engine.State.{
  WorkflowStatus, dispatched, is_completed, phase_status_debug, Clock, PhaseTransition,
  WorkflowInstance, gate_failed, state_error, already_at_final_phase, Result, Method, ◌>>=◌, ◌>>◌,
  pure, raise, change, read, observe, result_of, ok_or, ensure, expect_phase, expect_template_phase,
  set_status, touch,
}
use hymenium.Workflow.Engine.Lifecycle.{require_artifacts}

abbrev pub conditions_of : Gate → List GateCondition
conditions_of g = map parse_gate_condition g.requires

-- `map_err` of an evaluation into the engine's error.
abbrev pub gate_verdict : String → GateResult GateEvaluation → Method GateEvaluation
gate_verdict phase_id (evaluated e) = pure e
gate_verdict phase_id (gate_error e) = raise (gate_failed phase_id (error_text e))

unfoldable pub can_advance : GateEvaluator → WorkflowInstance → Result Bool
can_advance ev = result_of do
  phase ← expect_phase
  template_phase ← expect_template_phase
  workflow_id ← read (λ w. w.workflow_id)
  evaluation ← gate_verdict phase.phase_id (
      evaluate_all ev (conditions_of template_phase.exit_gate)
        (new_context workflow_id phase.phase_id))
  pure (passed evaluation)

-- The index of the last phase, `len().saturating_sub(1)`.
abbrev pub last_idx : WorkflowInstance → ℕ
last_idx w = length w.template.phases - 1

-- The `{:?}` of the failed conditions is a list of texts.
abbrev debug_list : List String → String
debug_list names =
    format ("[" ∷ join ", " (map (λ n. format ("\"" ∷ n ∷ "\"" ∷ [])) names) ∷ "]" ∷ [])

-- The entry gate of the next phase; a gate with no condition is not evaluated.
unfoldable pub check_entry : GateEvaluator → Phase → WorkflowInstance → Result (Unit {0})
check_entry ev next = result_of (
    if is_empty (conditions_of next.entry_gate) then pure tt else do
      workflow_id ← read (λ w. w.workflow_id)
      entry_eval ←
          gate_verdict next.phase_id (
            evaluate_all ev (conditions_of next.entry_gate) (new_context workflow_id next.phase_id))
      ensure (passed entry_eval) (
          gate_failed next.phase_id
            (format ("entry gate conditions not met: " ∷ debug_list (failures entry_eval) ∷ []))))

unfoldable pub advance : FileSystem → GateEvaluator → Clock → Method PhaseTransition
advance fs ev now = do
  current ← expect_phase
  ensure (is_completed current.status) (
      state_error (
        format (
          "cannot advance from phase "
          ∷ current.phase_id
          ∷ " in status "
          ∷ phase_status_debug current.status
          ∷ " — must be Completed"
          ∷ [])))
  idx ← read (λ w. w.current_phase_idx)
  last ← read last_idx
  ensure (not (leb last idx)) already_at_final_phase
  may_exit ← observe (can_advance ev)
  ensure may_exit (gate_failed current.phase_id "exit gate conditions not met")
  phases ← read (λ w. w.template.phases)
  next ← ok_or (get_elem? phases (idx + 1)) (state_error "next template phase not found")
  require_artifacts next.phase_id (check_artifact_prerequisites fs next none)
  observe (check_entry ev next)
  change (λ w. record w { current_phase_idx = idx + 1 })
  to ← expect_phase
  let transition : PhaseTransition = record {
    from_phase_id = current.phase_id;
    to_phase_id = to.phase_id;
    transitioned_at = now 0;
    reason = "exit and entry gates satisfied";
  }
  change (λ w. record w { transitions = w.transitions ++ transition ∷ [] })
  set_status dispatched
  touch (now 1)
  pure transition

unfoldable pub complete_workflow : Clock → Method (Unit {0})
complete_workflow now = do
  current ← expect_phase
  ensure (is_completed current.status) (
      state_error (
        format (
          "cannot complete workflow — final phase "
          ∷ current.phase_id
          ∷ " is "
          ∷ phase_status_debug current.status
          ∷ ", not Completed"
          ∷ [])))
  idx ← read (λ w. w.current_phase_idx)
  last ← read last_idx
  ensure (idx == last) (state_error "cannot complete workflow — not at final phase")
  set_status WorkflowStatus.completed
  touch (now 0)
