-- ===== src/Monitor/Progress.antt =====
-- Evaluating the health of the current phase (src/monitor/progress.rs).
use hymenium.Prelude.{
  ◌+◌, String, Bool, true, false, not, ◌&&◌, ◌||◌, Option, none, some, [], ◌∷◌, str_eq, format,
  decimal, if◌then◌else◌, ltb, ◌==◌,
}
use hymenium.Workflow.Engine.{
  PhaseState, WorkflowInstance, Timestamp, current_phase, is_active, phase_status_debug,
}
use hymenium.Dispatch.Canopy.{
  DispatchResult, done, failed_with, dispatch_error_text, CanopyClient, TaskDetail,
  CompletenessReport,
}
use hymenium.Monitor.Signal.{
  MonitorError, canopy_error, invalid_state, phase_not_active, invalid_config, MonitorConfig,
  Duration, ProgressSignal, healthy, stalled, phase_complete, failed, heartbeat_timeout,
  no_code_diff, no_paste_marker_progress,
}

pub data MonitorResult (A : Type 0) : Type 0 where
  reported : A → MonitorResult A
  monitor_error : MonitorError → MonitorResult A

infixl 10 ◌>>=◌ ◌>>◌
abbrev pub ◌>>=◌ : {A B : Type 0} → MonitorResult A → (A → MonitorResult B) → MonitorResult B
reported a >>= f = f a
monitor_error e >>= f = monitor_error e

abbrev pub ◌>>◌ : {A B : Type 0} → MonitorResult A → MonitorResult B → MonitorResult B
m >> n = m >>= λ _. n

-- `chrono::Duration::from_std`, which refuses a duration that is too long, with its reason.
pub data Converted : Type 0 where
  converted : Duration → Converted
  out_of_range : String → Converted

abbrev pub Chrono : Type 0
Chrono = Duration → Converted

abbrev pub convert : Chrono → String → Duration → MonitorResult Duration
convert from_std field d = elim (from_std d) [
  | converted c ↦ reported c
  | out_of_range reason ↦ monitor_error (invalid_config field reason)
]

abbrev pub answer : {A : Type 0} → DispatchResult A → MonitorResult A
answer (done a) = reported a
answer (failed_with e) = monitor_error (canopy_error (dispatch_error_text e))

abbrev pub require : {A : Type 0} → Option A → MonitorError → MonitorResult A
require (some a) e = reported a
require none e = monitor_error e

abbrev pub when_not : Bool → MonitorError → MonitorResult (Unit {0})
when_not true e = reported tt
when_not false e = monitor_error e

-- `now - started > timeout`, where the difference is signed.
abbrev pub elapsed_over : Timestamp → Timestamp → Duration → Bool
elapsed_over now started timeout = ltb (started + timeout) now

-- The checks after the completeness report.
abbrev pub report_progress :
    Chrono
    → MonitorConfig
    → Timestamp
    → String
    → Timestamp
    → CompletenessReport
    → MonitorResult ProgressSignal
report_progress from_std config now id started c =
    if c.complete then reported (phase_complete id) else (do
      timeout ← convert from_std "progress_timeout" config.progress_timeout
      if elapsed_over now started timeout && c.completed_items == 0
          then reported (stalled id started no_code_diff)
          else (if elapsed_over now started timeout && ltb 0 c.completed_items && not c.complete
              then reported (stalled id started no_paste_marker_progress)
              else reported (healthy id now)))

-- The checks on a task that Canopy calls neither completed nor failed.
abbrev pub watch_open :
    CanopyClient
    → Chrono
    → MonitorConfig
    → Timestamp
    → String
    → PhaseState
    → TaskDetail
    → MonitorResult ProgressSignal
watch_open canopy from_std config now handoff_path phase task = do
  started ← require phase.started_at (
      invalid_state
        (format ("phase " ∷ phase.phase_id ∷ " is Active but has no started_at timestamp" ∷ [])))
  timeout ← convert from_std "heartbeat_timeout" config.heartbeat_timeout
  if elapsed_over now started timeout
        && (str_eq task.status "pending" || str_eq task.status "assigned")
      then reported (stalled phase.phase_id started heartbeat_timeout)
      else (do
        c ← answer (canopy.check_completeness handoff_path)
        report_progress from_std config now phase.phase_id started c)

unfoldable pub check_progress :
    WorkflowInstance
    → CanopyClient
    → Chrono
    → MonitorConfig
    → Timestamp
    → MonitorResult ProgressSignal
check_progress w canopy from_std config now = do
  phase ←
      require (current_phase w)
        (invalid_state (format ("no phase at index " ∷ decimal w.current_phase_idx ∷ [])))
  when_not (is_active phase.status) (
      phase_not_active (
        format (
          "phase "
          ∷ phase.phase_id
          ∷ " is "
          ∷ phase_status_debug phase.status
          ∷ ", not Active"
          ∷ [])))
  task_id ←
      require phase.canopy_task_id
        (invalid_state (format ("phase " ∷ phase.phase_id ∷ " has no canopy_task_id" ∷ [])))
  task ← answer (canopy.get_task task_id)
  if str_eq task.status "completed"
      then reported (phase_complete phase.phase_id)
      else (if str_eq task.status "failed"
          then reported (failed phase.phase_id (format ("canopy task " ∷ task_id ∷ " failed" ∷ [])))
          else watch_open canopy from_std config now w.handoff_path phase task)

abbrev pub is_stalled : ProgressSignal → Bool
is_stalled (stalled p since r) = true
is_stalled _ = false
