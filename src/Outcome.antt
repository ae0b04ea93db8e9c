-- ===== src/Outcome.antt =====
-- Terminal outcome records (src/outcome.rs).
pub mod Route
use hymenium.Prelude.{
  ℕ, ◌+◌, ◌%◌, ◌^◌, String, Bool, true, false, not, Option, none, some, List, [], ◌∷◌, map, filter,
  max, if◌then◌else◌,
}
use hymenium.Failure.{TypedFailure, TerminalFailureType, unknown, to_terminal_failure_type}
use hymenium.Workflow.Template.{AgentRole}
use hymenium.Workflow.Engine.{
  WorkflowStatus, PhaseStatus, PhaseState, WorkflowInstance, Timestamp, is_pending,
}

pub record RuntimeIdentity : Type 0 where
  pub runtime_session_id : Option String
  pub project_root : Option String
  pub worktree_id : Option String
  pub host_ref : Option String
  pub workspace_id : Option String

pub data RootCauseLayer : Type 0 where
  spec decomposition execution verification infrastructure : RootCauseLayer

pub data TerminalStatus : Type 0 where
  completed failed cancelled : TerminalStatus

pub data RouteStepStatus : Type 0 where
  completed failed skipped : RouteStepStatus

pub record RouteStep : Type 0 where
  pub phase_id : String
  pub role : AgentRole
  pub status : RouteStepStatus

-- The confidence, an `f32`, is never set, and left out.
pub record WorkflowOutcome : Type 0 where
  pub schema_version : String
  pub workflow_id : String
  pub template_id : String
  pub handoff_path : String
  pub terminal_status : TerminalStatus
  pub failure_type : Option TerminalFailureType
  pub attempt_count : ℕ  -- u32
  pub route_taken : List RouteStep
  pub started_at : Timestamp
  pub completed_at : Timestamp
  pub root_cause_layer : Option RootCauseLayer
  pub runtime_identity : Option RuntimeIdentity

abbrev pub terminal_status_of : WorkflowStatus → TerminalStatus
terminal_status_of WorkflowStatus.completed = TerminalStatus.completed
terminal_status_of WorkflowStatus.cancelled = TerminalStatus.cancelled
terminal_status_of _ = TerminalStatus.failed

abbrev pub failure_type_of : Option TypedFailure → TerminalStatus → Option TerminalFailureType
failure_type_of (some f) s = some (to_terminal_failure_type f.kind)
failure_type_of none TerminalStatus.failed = some unknown
failure_type_of none _ = none

-- `retry_count + 1` and the sum, on `u32` as a build without overflow checks computes them.
abbrev pub sum_attempts : List PhaseState → ℕ
sum_attempts [] = 0
sum_attempts (p ∷ rest) = ((p.retry_count + 1) % 2 ^ 32 + sum_attempts rest) % 2 ^ 32

abbrev pub route_status : PhaseStatus → RouteStepStatus
route_status PhaseStatus.completed = RouteStepStatus.completed
route_status PhaseStatus.skipped = RouteStepStatus.skipped
route_status _ = RouteStepStatus.failed

abbrev pub route_step : PhaseState → RouteStep
route_step p = record { phase_id = p.phase_id; role = p.role; status = route_status p.status }

abbrev pub route : List PhaseState → List RouteStep
route states = map route_step (filter (λ p. not (is_pending p.status)) states)

unfoldable pub build : WorkflowInstance → Option TypedFailure → Timestamp → WorkflowOutcome
build w failure now = record {
  schema_version = "1.0";
  workflow_id = w.workflow_id;
  template_id = w.template.template_id;
  handoff_path = w.handoff_path;
  terminal_status = terminal_status_of w.status;
  failure_type = failure_type_of failure (terminal_status_of w.status);
  attempt_count = max (sum_attempts w.phase_states) 1;
  route_taken = route w.phase_states;
  started_at = w.created_at;
  completed_at = now;
  root_cause_layer = none;
  runtime_identity = none;
}

abbrev pub with_runtime_identity : RuntimeIdentity → WorkflowOutcome → WorkflowOutcome
with_runtime_identity identity o = record o { runtime_identity = some identity }
