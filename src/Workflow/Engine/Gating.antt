-- ===== src/Workflow/Engine/Gating.antt =====
-- When `advance` goes through, and what a refusal leaves (src/workflow/engine.rs).
use hymenium.Prelude.{
  ◌+◌, String, ◌≡◌, refl, Bool, true, false, not, ◌&&◌, ◌||◌, none, some, List, [], ◌∷◌, ◌++◌, all,
  is_empty, get_elem?, get_elem?-lt, get_elem?-some-lt, arith,
}
use hymenium.Workflow.Template.{
  FileSystem, Phase, Gate, ArtifactRequirement, ArtifactCheck, present, absent, check_artifacts,
  check_artifact_prerequisites, missing_message,
}
use hymenium.Workflow.Gate.{GateEvaluator, new_context}
use hymenium.Workflow.Gate.Evaluation.{holds, opens-evaluate_all}
use hymenium.Workflow.Engine.State.{
  PhaseState, WorkflowInstance, Clock, Result, ok, err, current_phase, current_template_phase,
  is_completed,
}
use hymenium.Workflow.Engine.Advance.{conditions_of, can_advance, check_entry, advance}
use hymenium.Workflow.Engine.Invariant.{IsValid}
use hymenium.Workflow.Engine.Invariant.Moves.{states_count}

abbrev pub is_ok : {A : Type 0} → Result A → Bool
is_ok (ok a) = true
is_ok (err e) = false

abbrev pub is_yes : Result Bool → Bool
is_yes (ok b) = b
is_yes (err e) = false

-- Each condition of the gate holds on its own, for the workflow and the phase named.
abbrev pub gate_holds : GateEvaluator → WorkflowInstance → Gate → String → Bool
gate_holds ev w g phase_id = all (holds ev (new_context w.workflow_id phase_id)) (conditions_of g)

-- Each required artifact of the phase exists.
abbrev pub artifacts_hold : FileSystem → Phase → Bool
artifacts_hold fs p = all (λ a. not a.required || fs.exists a.path) p.required_artifacts

abbrev pub is_present : ArtifactCheck → Bool
is_present (present ws) = true
is_present (absent es) = false

is_empty-append : (es : List String) (m : String) → is_empty (es ++ m ∷ []) ≡ false
is_empty-append [] m = refl
is_empty-append (e ∷ es) m = refl

is_present-check_artifacts :
    (fs : FileSystem) (items : List ArtifactRequirement) (ws es : List String)
    → is_present (check_artifacts fs none items ws es)
      ≡ (is_empty es && all (λ a. not a.required || fs.exists a.path) items)
unfolding check_artifacts
is_present-check_artifacts fs [] ws es = ground arith
is_present-check_artifacts fs (a ∷ rest) ws es = ground (
  arith,
  is_empty-append es (missing_message a),
  is_present-check_artifacts fs rest ws es,
  is_present-check_artifacts fs rest (ws ++ missing_message a ∷ []) es,
  is_present-check_artifacts fs rest ws (es ++ missing_message a ∷ []),
)

module _ (fs : FileSystem) (ev : GateEvaluator) (now : Clock) (w : WorkflowInstance) where
  is_present-check :
      (n : Phase) → is_present (check_artifact_prerequisites fs n none) ≡ artifacts_hold fs n
  unfolding check_artifact_prerequisites
  is_present-check n = ground (arith, is_present-check_artifacts fs n.required_artifacts [] [])

  -- `can_advance` answers yes exactly if the exit gate's conditions all hold.
  can_advance_lem :
      (p : PhaseState) (q : Phase)
      → current_phase w ≡ some p
      → current_template_phase w ≡ some q
      → is_yes (can_advance ev w) ≡ gate_holds ev w q.exit_gate p.phase_id
  unfolding can_advance
  can_advance_lem p q e f = ground (
    arith,
    opens-evaluate_all ev (conditions_of q.exit_gate) (new_context w.workflow_id p.phase_id),
  )

  check_entry_lem :
      (n : Phase) → is_ok (check_entry ev n w) ≡ gate_holds ev w n.entry_gate n.phase_id
  unfolding check_entry
  check_entry_lem n = ground (
    arith,
    opens-evaluate_all ev (conditions_of n.entry_gate) (new_context w.workflow_id n.phase_id),
  )

  -- In a valid instance with a phase behind the current one, `advance` succeeds exactly if the current phase is completed, each condition of its exit gate
  -- holds, the next phase's required artifacts exist, and each condition of its entry gate holds.
  pub advance_exactly :
      (p : PhaseState) (q n : Phase)
      → IsValid w
      → current_phase w ≡ some p
      → current_template_phase w ≡ some q
      → get_elem? w.template.phases (w.current_phase_idx + 1) ≡ some n
      → is_ok (advance fs ev now w).0 ≡ (
          is_completed p.status
          && gate_holds ev w q.exit_gate p.phase_id
          && artifacts_hold fs n
          && gate_holds ev w n.entry_gate n.phase_id)
  unfolding advance
  advance_exactly p q n v e f g = ground (
    arith,
    states_count now w v,
    get_elem?-lt w.phase_states (w.current_phase_idx + 1),
    get_elem?-some-lt w.template.phases (w.current_phase_idx + 1) n g,
    can_advance_lem p q e f,
    check_entry_lem n,
    is_present-check n,
  )

  -- A refused `advance` of a valid instance changes nothing but `blocked_on`.
  pub advance_refused :
      IsValid w
      → is_ok (advance fs ev now w).0 ≡ false
      → record (advance fs ev now w).1 { blocked_on = w.blocked_on } ≡ w
  unfolding advance
  advance_refused v h =
      ground (arith, states_count now w v, get_elem?-lt w.phase_states (w.current_phase_idx + 1))
