-- ===== src/Monitor/Handler.antt =====
-- Reacting to a progress signal (src/monitor/handler.rs).
use hymenium.Prelude.{ℕ, String, Option, none, some, [], ◌∷◌, format}
use hymenium.Workflow.Template.{AgentTier, sonnet}
use hymenium.Workflow.Engine.{
  PhaseState, WorkflowInstance, Clock, current_phase, current_template_phase, Result, ok, err,
  workflow_error_text, complete_phase, increment_retry_count,
}
use hymenium.Retry.{RetryPolicy, RecoveryAction, retry, cancel, decide_recovery}
use hymenium.Monitor.Signal.{
  invalid_state, ProgressSignal, healthy, stalled, phase_complete, gate_satisfied, failed,
}
use hymenium.Monitor.Progress.{MonitorResult, reported, monitor_error}

-- `WorkflowStore::upsert_phase_state`: `none`, or the error's text.
abbrev pub UpsertPhaseState : Type 0
UpsertPhaseState = String → PhaseState → ℕ → Option String

abbrev pub Handled : Type 0
Handled = MonitorResult RecoveryAction × WorkflowInstance

-- `map_err(…)?`, and then an action.
abbrev pub after_method :
    {A : Type 0} → String → Result A × WorkflowInstance → (WorkflowInstance → Handled) → Handled
after_method context (ok a, w) f = f w
after_method context (err e, w) f =
    (monitor_error (invalid_state (format (context ∷ ": " ∷ workflow_error_text e ∷ []))), w)

abbrev pub persist :
    UpsertPhaseState → RecoveryAction → Option PhaseState → WorkflowInstance → Handled
persist upsert action none w = (reported action, w)
persist upsert action (some p) w = elim (upsert w.workflow_id p w.current_phase_idx) [
  | none ↦ (reported action, w)
  | some e ↦ (
    monitor_error
        (invalid_state (format ("failed to persist phase state after retry increment: " ∷ e ∷ []))),
    w,
  )
]

abbrev pub act : UpsertPhaseState → Clock → RecoveryAction → WorkflowInstance → Handled
act upsert now (retry s t) w =
    after_method "failed to increment retry count" (increment_retry_count now w)
      (λ u. persist upsert (retry s t) (current_phase u) u)
act upsert now action w = (reported action, w)

abbrev pub retries_so_far : WorkflowInstance → ℕ
retries_so_far w = elim (current_phase w) [ some p ↦ p.retry_count | none ↦ 0 ]

abbrev pub current_tier : WorkflowInstance → AgentTier
current_tier w = elim (current_template_phase w) [ some q ↦ q.agent_tier | none ↦ sonnet ]

abbrev pub recover :
    ProgressSignal → RetryPolicy → UpsertPhaseState → Clock → WorkflowInstance → Handled
recover signal policy upsert now w =
    act upsert now (decide_recovery signal (retries_so_far w) policy (current_tier w)) w

-- The count that the caller passes is not read.
unfoldable pub handle_signal :
    ProgressSignal → ℕ → RetryPolicy → UpsertPhaseState → Clock → WorkflowInstance → Handled
handle_signal (phase_complete p) n policy upsert now w =
    after_method "failed to complete phase" (complete_phase now w)
      (λ u. (reported (cancel "phase completed"), u))
handle_signal (gate_satisfied g) n policy upsert now w = (reported (cancel "gate noted"), w)
handle_signal (stalled p since r) n policy upsert now w =
    recover (stalled p since r) policy upsert now w
handle_signal (failed p e) n policy upsert now w = recover (failed p e) policy upsert now w
handle_signal (healthy p at) n policy upsert now w = (reported (cancel "no action needed"), w)
