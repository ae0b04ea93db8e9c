-- ===== src/Dispatch/Reconcile.antt =====
-- Reconciling the current phase with its Canopy task (`reconcile_phases` of src/dispatch/mod.rs).
pub mod Loop
pub mod Completing
pub mod Evidence
pub mod Moving
pub mod Staying
use hymenium.Prelude.{
  ℕ, zero, suc, ◌+◌, String, Bool, true, false, Option, none, some, List, [], ◌∷◌, ◌++◌, ◌||◌,
  length, get_elem?, str_eq, format, decimal, ◌==◌, if◌then◌else◌,
}
use hymenium.Workflow.Template.{FileSystem}
use hymenium.Workflow.Gate.{GateEvaluator, permissive, evidence_gate}
use hymenium.Workflow.Engine.{
  workflow_error_text, WorkflowStatus, dispatched, PhaseStatus, skipped, PhaseState,
  PhaseTransition, WorkflowInstance, WorkflowError, invalid_phase_index, gate_failed,
  already_at_final_phase, state_error, Clock, Result, ok, err, reconcile_complete_current_phase,
  reconcile_fail_current_phase, advance,
}
use hymenium.Dispatch.Canopy.{
  DispatchError, invalid_state, DispatchResult, done, failed_with, ◌>>=◌, NextAction,
  CompletionSignal, wants_stop, TaskDetail, CanopyClient,
}

pub data PhaseReconcileOutcome : Type 0 where
  no_task_id still_active : PhaseReconcileOutcome
  marked_completed : String → Bool → PhaseReconcileOutcome
  marked_failed : String → String → PhaseReconcileOutcome
  already_terminal : String → PhaseReconcileOutcome
  stopped_by_agent_signal : String → Option NextAction → PhaseReconcileOutcome

pub record ReconcileResult : Type 0 where
  pub instance_after : WorkflowInstance
  pub outcomes : List PhaseReconcileOutcome

abbrev pub is_completed_status : String → Bool
is_completed_status s = str_eq s "completed"

abbrev pub is_failed_status : String → Bool
is_failed_status s = str_eq s "cancelled" || str_eq s "canceled"

abbrev pub is_terminal : PhaseStatus → Bool
is_terminal PhaseStatus.completed = true
is_terminal PhaseStatus.failed = true
is_terminal skipped = true
is_terminal _ = false

-- `map_err(…)?` on a method of the engine.
abbrev pub carry_on :
    {A B : Type 0}
    → String
    → Result A × WorkflowInstance
    → (WorkflowInstance → DispatchResult B)
    → DispatchResult B
carry_on context (ok a, w) f = f w
carry_on context (err e, w) f =
    failed_with (invalid_state (format (context ∷ ": " ∷ workflow_error_text e ∷ [])))

abbrev pub Settled : Type 0
Settled = PhaseReconcileOutcome × WorkflowInstance

-- The `match instance.advance(…)`.
abbrev pub after_advance : String → Result PhaseTransition × WorkflowInstance → Settled
after_advance phase_id (ok t, w) =
    (marked_completed phase_id true, record w { status = dispatched })
after_advance phase_id (err already_at_final_phase, w) =
    (marked_completed phase_id true, record w { status = WorkflowStatus.completed })
after_advance phase_id (err e, w) = (marked_completed phase_id false, w)

abbrev pub gate_for : Bool → TaskDetail → GateEvaluator
gate_for true task = permissive
gate_for false task = evidence_gate (record {
  has_code_diff = task.has_code_diff;
  has_verification_passed = task.has_verification_passed;
})

abbrev try_advance : FileSystem → Clock → Bool → String → TaskDetail → WorkflowInstance → Settled
try_advance fs now force phase_id task w =
    after_advance phase_id (advance fs (gate_for force task) (λ i. now (i + 3)) w)

-- The stop signal of a completed task, or the attempt to advance.
abbrev pub honor_signal :
    FileSystem
    → Clock
    → Bool
    → String
    → TaskDetail
    → Option CompletionSignal
    → WorkflowInstance
    → Settled
honor_signal fs now force phase_id task none w = try_advance fs now force phase_id task w
honor_signal fs now force phase_id task (some signal) w =
    if wants_stop signal
    then (
      stopped_by_agent_signal phase_id signal.next_action,
      record w { status = WorkflowStatus.completed },
    )
    else try_advance fs now force phase_id task w

abbrev pub settle_completed :
    FileSystem → Clock → Bool → String → TaskDetail → WorkflowInstance → DispatchResult Settled
settle_completed fs now force phase_id task w =
    carry_on (format ("reconcile complete failed for phase " ∷ phase_id ∷ []))
      (reconcile_complete_current_phase now w)
      (λ u. done (honor_signal fs now force phase_id task task.completion_signal u))

abbrev pub settle_failed : Clock → String → String → WorkflowInstance → DispatchResult Settled
settle_failed now phase_id reason w =
    carry_on (format ("reconcile fail for phase " ∷ phase_id ∷ []))
      (reconcile_fail_current_phase reason now w) (λ u. done (marked_failed phase_id reason, u))

-- The branches on the status of the task that Canopy returned.
unfoldable pub settle :
    FileSystem
    → Clock
    → Bool
    → String
    → String
    → TaskDetail
    → WorkflowInstance
    → DispatchResult Settled
settle fs now force phase_id task_id task w =
    if is_completed_status task.status
    then settle_completed fs now force phase_id task w
    else if is_failed_status task.status
    then settle_failed now phase_id (format ("Canopy task " ∷ task_id ∷ " was " ∷ task.status ∷ []))
        w
    else done (still_active, w)

abbrev pub reconcile_task :
    CanopyClient
    → FileSystem
    → Clock
    → Bool
    → PhaseState
    → Option String
    → WorkflowInstance
    → DispatchResult Settled
reconcile_task canopy fs now force phase none w = done (no_task_id, w)
reconcile_task canopy fs now force phase (some task_id) w =
    if is_terminal phase.status
    then done (already_terminal phase.phase_id, w)
    else do task ← canopy.get_task task_id; settle fs now force phase.phase_id task_id task w

abbrev pub reconcile_found :
    CanopyClient
    → FileSystem
    → Clock
    → Bool
    → Option PhaseState
    → WorkflowInstance
    → DispatchResult Settled
reconcile_found canopy fs now force none w = done (no_task_id, w)
reconcile_found canopy fs now force (some phase) w =
    reconcile_task canopy fs now force phase phase.canopy_task_id w

-- The body of the loop at the index that was current when the loop began.
unfoldable pub reconcile_at :
    CanopyClient → FileSystem → Clock → Bool → ℕ → WorkflowInstance → DispatchResult Settled
unfolding settle
reconcile_at canopy fs now force idx w =
    reconcile_found canopy fs now force (get_elem? w.phase_states idx) w

-- `for idx in 0..phase_count`: `left` rounds are left, and `idx` is the next index.
unfoldable pub reconcile_loop :
    CanopyClient
    → FileSystem
    → Clock
    → Bool
    → ℕ
    → ℕ
    → ℕ
    → WorkflowInstance
    → List PhaseReconcileOutcome
    → DispatchResult ReconcileResult
reconcile_loop canopy fs now force current_idx zero idx w outcomes =
    done (record { instance_after = w; outcomes = outcomes })
reconcile_loop canopy fs now force current_idx (suc left) idx w outcomes = do
  (o, u) ←
      if idx == current_idx then reconcile_at canopy fs now force idx w else done (no_task_id, w)
  reconcile_loop canopy fs now force current_idx left (idx + 1) u (outcomes ++ o ∷ [])

unfoldable pub reconcile_phases :
    WorkflowInstance → CanopyClient → FileSystem → Clock → Bool → DispatchResult ReconcileResult
unfolding reconcile_loop reconcile_at
reconcile_phases w canopy fs now force =
    reconcile_loop canopy fs now force w.current_phase_idx (length w.phase_states) 0 w []
