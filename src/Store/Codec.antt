-- ===== src/Store/Codec.antt =====
-- Reading back what was printed, and nothing else (src/store.rs).
use mathlib.Core.Path.{subst}
use hymenium.Prelude.{sym, ◌↔◌, String, ◌≡◌, refl, eq_iff, arith}
use hymenium.Workflow.Template.{
  AgentRole, spec_author, workflow_planner, packet_compiler, decomposition_checker,
  workflow_coordinator, worker, output_verifier, repair_worker, final_verifier,
}
use hymenium.Workflow.Engine.{
  WorkflowStatus, dispatched, in_progress, blocked_on_gate, awaiting_repair, user_terminated,
  cancelled, PhaseStatus, active, skipped, workflow_status_text, phase_status_text,
}
use hymenium.Store.{
  StoreResult, stored, store_error, agent_role_text, parse_workflow_status, parse_phase_status,
  parse_agent_role,
}

-- What a result was read from, if it is a value: the value's text is the one that was read.
abbrev ReadFrom : {A : Type 0} → (A → String) → String → StoreResult A → Type 0
ReadFrom text s (stored a) = text a ≡ s
ReadFrom text s (store_error e) = Unit {0}

from_stored :
    {A : Type 0} (text : A → String) (s : String) (r : StoreResult A) (x : A)
    → ReadFrom text s r
    → r ≡ stored x
    → text x ≡ s
from_stored text s r x k e = subst (ReadFrom text s) e k

read_workflow_status : (s : String) → ReadFrom workflow_status_text s (parse_workflow_status s)
unfolding workflow_status_text parse_workflow_status
read_workflow_status s = ground (
  arith,
  eq_iff s "pending",
  eq_iff s "dispatched",
  eq_iff s "in_progress",
  eq_iff s "blocked_on_gate",
  eq_iff s "awaiting_repair",
  eq_iff s "awaiting_user_input",
  eq_iff s "user_terminated",
  eq_iff s "completed",
  eq_iff s "failed",
  eq_iff s "cancelled",
)

read_phase_status : (s : String) → ReadFrom phase_status_text s (parse_phase_status s)
unfolding phase_status_text parse_phase_status
read_phase_status s = ground (
  arith,
  eq_iff s "pending",
  eq_iff s "active",
  eq_iff s "awaiting_user_input",
  eq_iff s "completed",
  eq_iff s "failed",
  eq_iff s "skipped",
)

read_agent_role : (s : String) → ReadFrom agent_role_text s (parse_agent_role s)
unfolding agent_role_text parse_agent_role
read_agent_role s = ground (
  arith,
  eq_iff s "Spec Author",
  eq_iff s "Workflow Planner",
  eq_iff s "Packet Compiler",
  eq_iff s "Decomposition Checker",
  eq_iff s "Workflow Coordinator",
  eq_iff s "Worker",
  eq_iff s "Output Verifier",
  eq_iff s "Repair Worker",
  eq_iff s "Final Verifier",
)

workflow_status_back :
    (y : WorkflowStatus) → parse_workflow_status (workflow_status_text y) ≡ stored y
unfolding workflow_status_text parse_workflow_status
workflow_status_back WorkflowStatus.pending = refl
workflow_status_back dispatched = refl
workflow_status_back in_progress = refl
workflow_status_back blocked_on_gate = refl
workflow_status_back awaiting_repair = refl
workflow_status_back WorkflowStatus.awaiting_user_input = refl
workflow_status_back user_terminated = refl
workflow_status_back WorkflowStatus.completed = refl
workflow_status_back WorkflowStatus.failed = refl
workflow_status_back cancelled = refl

-- A text is read as a workflow status exactly if it is the text that the status is printed as.
pub parse_workflow_status-text :
    (s : String) (x : WorkflowStatus)
    → (parse_workflow_status s ≡ stored x) ↔ (workflow_status_text x ≡ s)
parse_workflow_status-text s x = (
  from_stored workflow_status_text s (parse_workflow_status s) x (read_workflow_status s),
  λ e. rw (sym e) (workflow_status_back x),
)

phase_status_back : (y : PhaseStatus) → parse_phase_status (phase_status_text y) ≡ stored y
unfolding phase_status_text parse_phase_status
phase_status_back PhaseStatus.pending = refl
phase_status_back active = refl
phase_status_back PhaseStatus.awaiting_user_input = refl
phase_status_back PhaseStatus.completed = refl
phase_status_back PhaseStatus.failed = refl
phase_status_back skipped = refl

-- A text is read as a phase status exactly if it is the text that the status is printed as.
pub parse_phase_status-text :
    (s : String) (x : PhaseStatus) → (parse_phase_status s ≡ stored x) ↔ (phase_status_text x ≡ s)
parse_phase_status-text s x = (
  from_stored phase_status_text s (parse_phase_status s) x (read_phase_status s),
  λ e. rw (sym e) (phase_status_back x),
)

agent_role_back : (y : AgentRole) → parse_agent_role (agent_role_text y) ≡ stored y
unfolding agent_role_text parse_agent_role
agent_role_back spec_author = refl
agent_role_back workflow_planner = refl
agent_role_back packet_compiler = refl
agent_role_back decomposition_checker = refl
agent_role_back workflow_coordinator = refl
agent_role_back worker = refl
agent_role_back output_verifier = refl
agent_role_back repair_worker = refl
agent_role_back final_verifier = refl

-- A text is read as a role exactly if it is the text that the role is printed as.
pub parse_agent_role-text :
    (s : String) (x : AgentRole) → (parse_agent_role s ≡ stored x) ↔ (agent_role_text x ≡ s)
parse_agent_role-text s x = (
  from_stored agent_role_text s (parse_agent_role s) x (read_agent_role s),
  λ e. rw (sym e) (agent_role_back x),
)
