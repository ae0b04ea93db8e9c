-- ===== src/Monitor/Timing.antt =====
-- How the monitor's verdict depends on time (src/monitor/progress.rs).
use hymenium.Prelude.{
  ℕ, ◌+◌, ◌≤◌, ◌<◌, ◌≡◌, inl, inr, String, Bool, true, false, some, min, arith, Option-cases,
}
use hymenium.Workflow.Engine.{PhaseState, WorkflowInstance, Timestamp, current_phase}
use hymenium.Dispatch.Canopy.{CanopyClient, TaskDetail, CompletenessReport}
use hymenium.Monitor.Signal.{
  MonitorConfig, ProgressSignal, healthy, stalled, gate_satisfied, status_chatter_only,
}
use hymenium.Monitor.Progress.{
  MonitorResult, reported, monitor_error, Chrono, converted, check_progress, is_stalled,
  report_progress, watch_open,
}

abbrev pub stalls : MonitorResult ProgressSignal → Bool
stalls (reported s) = is_stalled s
stalls (monitor_error e) = false

abbrev pub is_healthy : MonitorResult ProgressSignal → Bool
is_healthy (reported (healthy p at)) = true
is_healthy _ = false

module _ (from_std : Chrono) (config : MonitorConfig) (now later : Timestamp) (id : String)
    (started : Timestamp) (c : CompletenessReport) (order : now ≤ later) where
  report_stalls :
      stalls (report_progress from_std config now id started c) ≡ true
      → stalls (report_progress from_std config later id started c) ≡ true
  report_stalls h = ground arith

  watch_stalls :
      (canopy : CanopyClient) (path : String) (p : PhaseState) (task : TaskDetail)
      → stalls (watch_open canopy from_std config now path p task) ≡ true
      → stalls (watch_open canopy from_std config later path p task) ≡ true
  watch_stalls canopy path p task h = ground arith

-- A phase that is reported as stalled is reported as stalled at any later moment too, as long as
-- Canopy answers the same and the instance is the same.
pub stalls-check_progress_later :
    (w : WorkflowInstance) (canopy : CanopyClient) (from_std : Chrono) (config : MonitorConfig)
    (now later : Timestamp)
    → now ≤ later
    → stalls (check_progress w canopy from_std config now) ≡ true
    → stalls (check_progress w canopy from_std config later) ≡ true
unfolding check_progress
stalls-check_progress_later w canopy from_std config now later order h = ground arith

-- The signals that can be read off a task's state.
abbrev pub is_detectable : MonitorResult ProgressSignal → Bool
is_detectable (reported (gate_satisfied g)) = false
is_detectable (reported (stalled p since status_chatter_only)) = false
is_detectable _ = true

-- If both timeouts can be converted, no phase is reported as stalled before the shorter of the two timeouts has passed since the
-- current phase was started.
pub stalls-check_progress_late :
    (w : WorkflowInstance) (canopy : CanopyClient) (from_std : Chrono) (config : MonitorConfig)
    (now a b : ℕ)
    → from_std config.heartbeat_timeout ≡ converted a
    → from_std config.progress_timeout ≡ converted b
    → stalls (check_progress w canopy from_std config now) ≡ true
    → (p : PhaseState) × (since : Timestamp) × (current_phase w ≡ some p)
      × (p.started_at ≡ some since)
      × (since + min a b < now)
unfolding check_progress
stalls-check_progress_late w canopy from_std config now a b ea eb h =
    elim (Option-cases (current_phase w)) [
      | inl e ↦ ground arith
      | inr (p, e) ↦ elim (Option-cases p.started_at) [
        | inl s ↦ ground arith
        | inr (since, s) ↦ (p, since, e, s, ground arith)
      ]
    ]

-- The monitor never reports chatter, nor a satisfied gate.
pub is_detectable-check_progress :
    (w : WorkflowInstance) (canopy : CanopyClient) (from_std : Chrono) (config : MonitorConfig)
    (now : Timestamp)
    → is_detectable (check_progress w canopy from_std config now) ≡ true
unfolding check_progress
is_detectable-check_progress w canopy from_std config now = ground arith
