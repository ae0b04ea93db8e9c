-- ===== src/Workflow/Engine/State.antt =====
-- The engine's types, its errors, and how an operation reads and changes the instance.
use hymenium.Prelude.{
  format, decimal, ℕ, String, Bool, true, false, Option, none, some, List, [], ◌∷◌, map, get_elem?,
  modify,
}
use hymenium.Workflow.Template.{AgentRole, Phase, WorkflowTemplate, effective_agent_role}

pub data WorkflowStatus : Type 0 where
  pending dispatched in_progress blocked_on_gate awaiting_repair : WorkflowStatus
  awaiting_user_input user_terminated completed failed cancelled : WorkflowStatus

pub data PhaseStatus : Type 0 where
  pending active awaiting_user_input completed failed skipped : PhaseStatus

-- The `Display` of the two statuses: what the store and the contracts hold.
unfoldable pub workflow_status_text : WorkflowStatus → String
workflow_status_text WorkflowStatus.pending = "pending"
workflow_status_text dispatched = "dispatched"
workflow_status_text in_progress = "in_progress"
workflow_status_text blocked_on_gate = "blocked_on_gate"
workflow_status_text awaiting_repair = "awaiting_repair"
workflow_status_text WorkflowStatus.awaiting_user_input = "awaiting_user_input"
workflow_status_text user_terminated = "user_terminated"
workflow_status_text WorkflowStatus.completed = "completed"
workflow_status_text WorkflowStatus.failed = "failed"
workflow_status_text cancelled = "cancelled"

unfoldable pub phase_status_text : PhaseStatus → String
phase_status_text PhaseStatus.pending = "pending"
phase_status_text active = "active"
phase_status_text PhaseStatus.awaiting_user_input = "awaiting_user_input"
phase_status_text PhaseStatus.completed = "completed"
phase_status_text PhaseStatus.failed = "failed"
phase_status_text skipped = "skipped"

-- The derived `Debug`, which error messages print.
unfoldable pub phase_status_debug : PhaseStatus → String
phase_status_debug PhaseStatus.pending = "Pending"
phase_status_debug active = "Active"
phase_status_debug PhaseStatus.awaiting_user_input = "AwaitingUserInput"
phase_status_debug PhaseStatus.completed = "Completed"
phase_status_debug PhaseStatus.failed = "Failed"
phase_status_debug skipped = "Skipped"

unfoldable pub workflow_status_debug : WorkflowStatus → String
workflow_status_debug WorkflowStatus.pending = "Pending"
workflow_status_debug dispatched = "Dispatched"
workflow_status_debug in_progress = "InProgress"
workflow_status_debug blocked_on_gate = "BlockedOnGate"
workflow_status_debug awaiting_repair = "AwaitingRepair"
workflow_status_debug WorkflowStatus.awaiting_user_input = "AwaitingUserInput"
workflow_status_debug user_terminated = "UserTerminated"
workflow_status_debug WorkflowStatus.completed = "Completed"
workflow_status_debug WorkflowStatus.failed = "Failed"
workflow_status_debug cancelled = "Cancelled"

abbrev pub is_pending : PhaseStatus → Bool
is_pending PhaseStatus.pending = true
is_pending _ = false

abbrev pub is_active : PhaseStatus → Bool
is_active active = true
is_active _ = false

abbrev pub is_awaiting : PhaseStatus → Bool
is_awaiting PhaseStatus.awaiting_user_input = true
is_awaiting _ = false

abbrev pub is_completed : PhaseStatus → Bool
is_completed PhaseStatus.completed = true
is_completed _ = false

-- A `DateTime<Utc>`, as a count of nanoseconds from a fixed origin.
abbrev pub Timestamp : Type 0
Timestamp = ℕ

-- What `Utc::now()` answers during one call: its first reading, its second, and so on.
abbrev pub Clock : Type 0
Clock = ℕ → Timestamp

pub record PhaseState : Type 0 where
  pub phase_id : String
  pub role : AgentRole
  pub status : PhaseStatus
  pub agent_id : Option String
  pub canopy_task_id : Option String
  pub started_at : Option Timestamp
  pub completed_at : Option Timestamp
  pub failure_reason : Option String
  pub pending_message : Option String
  pub retry_count : ℕ  -- u32
  pub tool_failure_count : ℕ  -- u32
  pub request_count : ℕ  -- u32

abbrev pub new_phase_state : String → AgentRole → PhaseState
new_phase_state phase_id role = record {
  phase_id = phase_id;
  role = role;
  status = PhaseStatus.pending;
  agent_id = none;
  canopy_task_id = none;
  started_at = none;
  completed_at = none;
  failure_reason = none;
  pending_message = none;
  retry_count = 0;
  tool_failure_count = 0;
  request_count = 0;
}

abbrev pub mark_active : Timestamp → PhaseState → PhaseState
mark_active now p = record p { status = active; started_at = some now }

abbrev pub mark_completed : Timestamp → PhaseState → PhaseState
mark_completed now p = record p { status = PhaseStatus.completed; completed_at = some now }

abbrev pub mark_failed : Timestamp → PhaseState → PhaseState
mark_failed now p = record p { status = PhaseStatus.failed; completed_at = some now }

pub record PhaseTransition : Type 0 where
  pub from_phase_id : String
  pub to_phase_id : String
  pub transitioned_at : Timestamp
  pub reason : String

pub record WorkflowInstance : Type 0 where
  pub workflow_id : String
  pub template : WorkflowTemplate
  pub handoff_path : String
  pub status : WorkflowStatus
  pub blocked_on : Option String
  pub current_phase_idx : ℕ
  pub phase_states : List PhaseState
  pub transitions : List PhaseTransition
  pub created_at : Timestamp
  pub updated_at : Timestamp

unfoldable pub new_instance : String → WorkflowTemplate → String → Timestamp → WorkflowInstance
new_instance workflow_id template handoff_path now = record {
  workflow_id = workflow_id;
  template = template;
  handoff_path = handoff_path;
  status = WorkflowStatus.pending;
  blocked_on = none;
  current_phase_idx = 0;
  phase_states = map (λ p. new_phase_state p.phase_id (effective_agent_role p)) template.phases;
  transitions = [];
  created_at = now;
  updated_at = now;
}

abbrev pub current_phase : WorkflowInstance → Option PhaseState
current_phase w = get_elem? w.phase_states w.current_phase_idx

abbrev pub current_template_phase : WorkflowInstance → Option Phase
current_template_phase w = get_elem? w.template.phases w.current_phase_idx

pub data WorkflowError : Type 0 where
  invalid_phase_index : ℕ → WorkflowError
  gate_failed : String → String → WorkflowError
  already_at_final_phase : WorkflowError
  state_error : String → WorkflowError

-- The `Display` of an engine error.
unfoldable pub workflow_error_text : WorkflowError → String
workflow_error_text (invalid_phase_index n) = format ("invalid phase index: " ∷ decimal n ∷ [])
workflow_error_text (gate_failed id reason) =
    format ("phase " ∷ id ∷ " gate evaluation failed: " ∷ reason ∷ [])
workflow_error_text already_at_final_phase =
    "already at final phase — call complete_workflow() to finish"
workflow_error_text (state_error m) = format ("workflow state error: " ∷ m ∷ [])

pub data Result (A : Type 0) : Type 0 where
  ok : A → Result A
  err : WorkflowError → Result A

-- A method on `&mut self` that may fail. What it wrote before it failed stays written.
abbrev pub Method : Type 0 → Type 0
Method A = WorkflowInstance → Result A × WorkflowInstance

abbrev pub proceed : {A B : Type 0} → Result A → (A → Method B) → Method B
proceed (ok a) f w = f a w
proceed (err e) f w = (err e, w)

infixl 10 ◌>>=◌ ◌>>◌
abbrev pub ◌>>=◌ : {A B : Type 0} → Method A → (A → Method B) → Method B
◌>>=◌ m f w = let (r, w') = m w in proceed r f w'

abbrev pub ◌>>◌ : {A B : Type 0} → Method A → Method B → Method B
m >> n = m >>= λ _. n

abbrev pub pure : {A : Type 0} → A → Method A
pure a w = (ok a, w)

abbrev pub raise : {A : Type 0} → WorkflowError → Method A
raise e w = (err e, w)

abbrev pub change : (WorkflowInstance → WorkflowInstance) → Method (Unit {0})
change f w = (ok tt, f w)

abbrev pub read : {A : Type 0} → (WorkflowInstance → A) → Method A
read f w = (ok (f w), w)

-- A method on `&self`: the instance comes back as it was.
abbrev pub observe : {A : Type 0} → (WorkflowInstance → Result A) → Method A
observe f w = (f w, w)

abbrev pub result_of : {A : Type 0} → Method A → WorkflowInstance → Result A
result_of m w = (m w).0

-- `ok_or_else`.
abbrev pub ok_or : {A : Type 0} → Option A → WorkflowError → Method A
ok_or (some a) e = pure a
ok_or none e = raise e

abbrev pub ensure : Bool → WorkflowError → Method (Unit {0})
ensure true e = pure tt
ensure false e = raise e

abbrev pub no_current_phase : WorkflowError
no_current_phase = state_error "no current phase"

abbrev pub expect_phase : Method PhaseState
expect_phase w = ok_or (current_phase w) no_current_phase w

abbrev pub expect_template_phase : Method Phase
expect_template_phase w =
    ok_or (current_template_phase w) (state_error "template phase not found") w

-- Writes through `current_phase_mut`.
abbrev pub change_phase : (PhaseState → PhaseState) → Method (Unit {0})
change_phase f =
    change (λ w. record w { phase_states = modify w.phase_states w.current_phase_idx f })

abbrev pub set_status : WorkflowStatus → Method (Unit {0})
set_status s = change (λ w. record w { status = s })

abbrev pub touch : Timestamp → Method (Unit {0})
touch now = change (λ w. record w { updated_at = now })
