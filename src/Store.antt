-- ===== src/Store.antt =====
-- The texts in which the store keeps statuses and roles (src/store.rs).
pub mod Codec
pub mod Rows
pub mod Tables
pub mod Session
pub mod Columns
pub mod Operations
use hymenium.Prelude.{String, Bool, Option, none, some, List, [], ◌∷◌, str_eq, if◌then◌else◌}
use hymenium.Workflow.Template.{
  AgentRole, spec_author, workflow_planner, packet_compiler, decomposition_checker,
  workflow_coordinator, worker, output_verifier, repair_worker, final_verifier,
}
use hymenium.Workflow.Engine.{
  WorkflowStatus, dispatched, in_progress, blocked_on_gate, awaiting_repair, user_terminated,
  cancelled, PhaseStatus, active, skipped, workflow_status_text, phase_status_text,
}

-- An error of the database or of the JSON library is its text.
pub data StoreError : Type 0 where
  sqlite json not_found : String → StoreError
  invalid_value : String → String → String → StoreError
  nested_transaction : StoreError

pub data StoreResult (A : Type 0) : Type 0 where
  stored : A → StoreResult A
  store_error : StoreError → StoreResult A

-- The `Display` of a role.
unfoldable pub agent_role_text : AgentRole → String
agent_role_text spec_author = "Spec Author"
agent_role_text workflow_planner = "Workflow Planner"
agent_role_text packet_compiler = "Packet Compiler"
agent_role_text decomposition_checker = "Decomposition Checker"
agent_role_text workflow_coordinator = "Workflow Coordinator"
agent_role_text worker = "Worker"
agent_role_text output_verifier = "Output Verifier"
agent_role_text repair_worker = "Repair Worker"
agent_role_text final_verifier = "Final Verifier"

unfoldable pub parse_workflow_status : String → StoreResult WorkflowStatus
parse_workflow_status s =
    if str_eq s "pending"
    then stored WorkflowStatus.pending
    else if str_eq s "dispatched"
    then stored dispatched
    else if str_eq s "in_progress"
    then stored in_progress
    else if str_eq s "blocked_on_gate"
    then stored blocked_on_gate
    else if str_eq s "awaiting_repair"
    then stored awaiting_repair
    else if str_eq s "awaiting_user_input"
    then stored WorkflowStatus.awaiting_user_input
    else if str_eq s "user_terminated"
    then stored user_terminated
    else if str_eq s "completed"
    then stored WorkflowStatus.completed
    else if str_eq s "failed"
    then stored WorkflowStatus.failed
    else if str_eq s "cancelled"
    then stored cancelled
    else store_error (invalid_value "status" s "unknown workflow status")

unfoldable pub parse_phase_status : String → StoreResult PhaseStatus
parse_phase_status s =
    if str_eq s "pending"
    then stored PhaseStatus.pending
    else if str_eq s "active"
    then stored active
    else if str_eq s "awaiting_user_input"
    then stored PhaseStatus.awaiting_user_input
    else if str_eq s "completed"
    then stored PhaseStatus.completed
    else if str_eq s "failed"
    then stored PhaseStatus.failed
    else if str_eq s "skipped"
    then stored skipped
    else store_error (invalid_value "phase status" s "unknown phase status")

unfoldable pub parse_agent_role : String → StoreResult AgentRole
parse_agent_role s =
    if str_eq s "Spec Author"
    then stored spec_author
    else if str_eq s "Workflow Planner"
    then stored workflow_planner
    else if str_eq s "Packet Compiler"
    then stored packet_compiler
    else if str_eq s "Decomposition Checker"
    then stored decomposition_checker
    else if str_eq s "Workflow Coordinator"
    then stored workflow_coordinator
    else if str_eq s "Worker"
    then stored worker
    else if str_eq s "Output Verifier"
    then stored output_verifier
    else if str_eq s "Repair Worker"
    then stored repair_worker
    else if str_eq s "Final Verifier"
    then stored final_verifier
    else store_error (invalid_value "role" s "unknown agent role")
