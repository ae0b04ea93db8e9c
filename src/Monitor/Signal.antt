-- ===== src/Monitor/Signal.antt =====
-- What the monitor says of a phase, and its thresholds (src/monitor/mod.rs).
use hymenium.Prelude.{ℕ, String}
use hymenium.Workflow.Engine.{Timestamp}

pub data MonitorError : Type 0 where
  canopy_error invalid_state phase_not_active : String → MonitorError
  invalid_config : String → String → MonitorError

-- A `std::time::Duration`, in nanoseconds.
abbrev pub Duration : Type 0
Duration = ℕ

pub record MonitorConfig : Type 0 where
  pub heartbeat_timeout : Duration
  pub progress_timeout : Duration
  pub completeness_check_interval : Duration

pub data StallReason : Type 0 where
  heartbeat_timeout no_code_diff no_paste_marker_progress status_chatter_only : StallReason

pub data ProgressSignal : Type 0 where
  healthy : String → Timestamp → ProgressSignal
  stalled : String → Timestamp → StallReason → ProgressSignal
  phase_complete gate_satisfied : String → ProgressSignal
  failed : String → String → ProgressSignal
