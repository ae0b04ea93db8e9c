-- ===== src/Workflow/Engine/Invariant.antt =====
-- What holds of an instance between two calls of the engine (src/workflow/engine.rs).
pub mod Cursor
pub mod Steps
pub mod Moves
pub mod Counting
use hymenium.Prelude.{ℕ, suc, ◌≡◌, Bool, true, false, Option, List, [], ◌∷◌, is_some, length}
use hymenium.Workflow.Template.{Phase, effective_agent_role}
use hymenium.Workflow.Engine.State.{
  WorkflowStatus, dispatched, in_progress, blocked_on_gate, awaiting_repair, user_terminated,
  cancelled, PhaseStatus, active, skipped, PhaseState, WorkflowInstance,
}
use hymenium.Workflow.Engine.Invariant.Cursor.{AtCursor}

-- Which timestamps and messages a phase of the given status has.
abbrev pub StampedAt : PhaseStatus → PhaseState → Type 0
StampedAt PhaseStatus.pending p =
    (is_some p.started_at ≡ false)
    × (is_some p.completed_at ≡ false)
    × (is_some p.failure_reason ≡ false)
StampedAt active p =
    (is_some p.started_at ≡ true)
    × (is_some p.completed_at ≡ false)
    × (is_some p.failure_reason ≡ false)
StampedAt PhaseStatus.awaiting_user_input p =
    (is_some p.started_at ≡ true)
    × (is_some p.completed_at ≡ false)
    × (is_some p.failure_reason ≡ false)
    × (is_some p.pending_message ≡ true)
StampedAt PhaseStatus.completed p =
    (is_some p.started_at ≡ true)
    × (is_some p.completed_at ≡ true)
    × (is_some p.failure_reason ≡ false)
StampedAt PhaseStatus.failed p =
    (is_some p.started_at ≡ true)
    × (is_some p.completed_at ≡ true)
    × (is_some p.failure_reason ≡ true)
StampedAt skipped p = ⊥

abbrev pub Stamped : PhaseState → Type 0
Stamped p = StampedAt p.status p

-- Which workflow statuses go with which status of the current phase.
abbrev pub coherent : WorkflowStatus → PhaseStatus → Bool
coherent WorkflowStatus.pending PhaseStatus.pending = true
coherent dispatched PhaseStatus.pending = true
coherent in_progress active = true
coherent WorkflowStatus.awaiting_user_input PhaseStatus.awaiting_user_input = true
coherent WorkflowStatus.pending PhaseStatus.completed = true
coherent dispatched PhaseStatus.completed = true
coherent in_progress PhaseStatus.completed = true
coherent WorkflowStatus.awaiting_user_input PhaseStatus.completed = true
coherent WorkflowStatus.completed PhaseStatus.completed = true
coherent WorkflowStatus.failed PhaseStatus.failed = true
coherent user_terminated PhaseStatus.failed = true
coherent _ _ = false

abbrev pub Past : PhaseState → Type 0
Past p = (p.status ≡ PhaseStatus.completed) × Stamped p

abbrev pub Here : WorkflowStatus → PhaseState → Type 0
Here s p = (coherent s p.status ≡ true) × Stamped p

abbrev pub Future : PhaseState → Type 0
Future p = (p.status ≡ PhaseStatus.pending) × Stamped p

-- The phase states go with the template's phases, one to one.
abbrev pub Named : List PhaseState → List Phase → Type 0
Named [] [] = Unit {0}
Named (p ∷ ps) (q ∷ qs) =
    (p.phase_id ≡ q.phase_id) × (p.role ≡ effective_agent_role q) × Named ps qs
Named _ _ = ⊥

-- Phases before the cursor are completed, phases behind it untouched, the current one is in a
-- state that goes with the workflow's, and the workflow is completed at its last phase only.
pub record ValidParts (phases : List Phase) (s : WorkflowStatus) (idx : ℕ)
    (states : List PhaseState) : Type 0 where
  pub named : Named states phases
  pub cursor : AtCursor Past (Here s) Future idx states
  pub at_end : s ≡ WorkflowStatus.completed → suc idx ≡ length states

abbrev pub IsValid : WorkflowInstance → Type 0
IsValid w = ValidParts w.template.phases w.status w.current_phase_idx w.phase_states
