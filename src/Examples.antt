-- ===== src/Examples.antt =====
-- A two-phase workflow, a Canopy and a clock, for the runs and the instances of the theorems.
mod Phases
mod Gates
mod Graphs
mod Sweeping
mod Splitting
mod Dispatching
mod Reconciling
mod Watching
mod Storing
mod Database
mod Messages
use hymenium.Prelude.{refl, ℕ, ◌+◌, String, Bool, true, false, Option, none, some, List, [], ◌∷◌}
use hymenium.Workflow.Template.{
  Phase, ProcessRole, implementer, auditor, AgentRole, worker, output_verifier, opus, sonnet,
  WorkflowTemplate, FileSystem,
}
use hymenium.Workflow.Engine.{
  WorkflowStatus, in_progress, PhaseStatus, active, PhaseState, WorkflowInstance, Clock,
}
use hymenium.Workflow.Engine.Invariant.{IsValid}
use hymenium.Dispatch.Canopy.{TaskDetail, CanopyClient, done}

abbrev pub build_phase : Phase
build_phase = record {
  phase_id = "implement";
  role = implementer;
  agent_role = none;
  agent_tier = sonnet;
  entry_gate = record { requires = [] };
  exit_gate = record { requires = "code_diff_exists" ∷ "verification_passed" ∷ [] };
  rubric = none;
  max_tool_failure_per_phase = none;
  max_requests_per_phase = none;
  required_artifacts = [];
  response_format = none;
  request_heartbeat = false;
}

abbrev pub audit_phase : Phase
audit_phase = record build_phase {
  phase_id = "audit";
  role = auditor;
  agent_tier = opus;
  entry_gate = record { requires = "code_diff_exists" ∷ [] };
  exit_gate = record { requires = "audit_clean" ∷ "findings_resolved" ∷ [] };
}

abbrev pub template_of : List Phase → WorkflowTemplate
template_of phases = record {
  schema_version = "1.0";
  template_id = "impl-audit";
  name = "Implement/Audit";
  description = "";
  phases = phases;
  transitions = [];
  max_tool_failure_per_phase = 5;
  max_requests_per_phase = 50;
}

abbrev pub two_phases : WorkflowTemplate
two_phases = template_of (build_phase ∷ audit_phase ∷ [])

abbrev pub clock : Clock
clock i = 1000 + i

abbrev pub no_files : FileSystem
no_files = record { is_absolute = λ p. false; path_join = λ a b. b; exists = λ p. false }

abbrev pub phase_at : String → AgentRole → PhaseStatus → PhaseState
phase_at id role status = record {
  phase_id = id;
  role = role;
  status = status;
  agent_id = none;
  canopy_task_id = some "task-1";
  started_at = none;
  completed_at = none;
  failure_reason = none;
  pending_message = none;
  retry_count = 0;
  tool_failure_count = 0;
  request_count = 0;
}

abbrev pub active_build : PhaseState
active_build = record (phase_at "implement" worker active) { started_at = some 1000 }

abbrev pub completed_build : PhaseState
completed_build = record (phase_at "implement" worker PhaseStatus.completed) {
  started_at = some 1000;
  completed_at = some 2000;
}

abbrev pub pending_audit : PhaseState
pending_audit = phase_at "audit" output_verifier PhaseStatus.pending

abbrev pub active_audit : PhaseState
active_audit = record (phase_at "audit" output_verifier active) { started_at = some 1000 }

abbrev pub completed_audit : PhaseState
completed_audit = record (phase_at "audit" output_verifier PhaseStatus.completed) {
  started_at = some 1000;
  completed_at = some 2000;
}

abbrev pub instance_at : ℕ → WorkflowStatus → List PhaseState → WorkflowInstance
instance_at idx status states = record {
  workflow_id = "wf-1";
  template = two_phases;
  handoff_path = "handoff.md";
  status = status;
  blocked_on = none;
  current_phase_idx = idx;
  phase_states = states;
  transitions = [];
  created_at = 900;
  updated_at = 900;
}

-- The first phase at work, the first phase done, and the last phase done.
abbrev pub at_work : WorkflowInstance
at_work = instance_at 0 in_progress (active_build ∷ pending_audit ∷ [])

abbrev pub first_done : WorkflowInstance
first_done = instance_at 0 in_progress (completed_build ∷ pending_audit ∷ [])

abbrev pub last_done : WorkflowInstance
last_done = instance_at 1 in_progress (completed_build ∷ completed_audit ∷ [])

abbrev pub task_in : String → Bool → Bool → TaskDetail
task_in status diff verified = record {
  task_id = "task-1";
  title = "Implement";
  status = status;
  agent_id = none;
  parent_id = none;
  required_capabilities = [];
  has_code_diff = diff;
  has_verification_passed = verified;
  completion_signal = none;
}

abbrev pub canopy_with : TaskDetail → CanopyClient
canopy_with task = record {
  get_task = λ id. done task;
  check_completeness = λ path.
      done (record { complete = false; total_items = 3; completed_items = 1; missing = [] });
}

pub first_done-IsValid : IsValid first_done
first_done-IsValid = record {
  named = (refl, refl, (refl, refl, tt));
  cursor = ((refl, (refl, refl, refl)), ((refl, (refl, refl, refl)), tt));
  at_end = λ e. cc;
}

pub at_work-IsValid : IsValid at_work
at_work-IsValid = record {
  named = (refl, refl, (refl, refl, tt));
  cursor = ((refl, (refl, refl, refl)), ((refl, (refl, refl, refl)), tt));
  at_end = λ e. cc;
}
