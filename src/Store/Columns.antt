-- ===== src/Store/Columns.antt =====
-- Between instances and the columns of `workflows` (src/store.rs).
use hymenium.Prelude.{
  ℕ, String, Option, none, some, List, [], ◌∷◌, ltb, if◌then◌else◌, decimal, format,
}
use hymenium.Workflow.Engine.{PhaseState, WorkflowInstance, current_phase, workflow_status_text}
use hymenium.Store.{invalid_value, StoreResult, stored, store_error, parse_workflow_status}
use hymenium.Store.Rows.{◌>>=◌, i64_max, parse_datetime}
use hymenium.Store.Tables.{WorkflowRow}
use hymenium.Store.Session.{Environment, from_json}

-- `i64::try_from(current_phase_idx)`.
abbrev pub index_column : ℕ → StoreResult ℕ
index_column idx =
    if ltb i64_max idx
    then store_error (
        invalid_value "current_phase_idx" (decimal idx)
          (format ("value " ∷ decimal idx ∷ " exceeds i64::MAX" ∷ [])))
    else stored idx

abbrev phase_name : Option PhaseState → Option String
phase_name none = none
phase_name (some p) = some p.phase_id

abbrev pub workflow_row : Environment → WorkflowInstance → Option String → String → ℕ → WorkflowRow
workflow_row env w content_hash template_json column = record {
  workflow_id = w.workflow_id;
  template_id = w.template.template_id;
  handoff_path = w.handoff_path;
  status = workflow_status_text w.status;
  current_phase = phase_name (current_phase w);
  current_phase_idx = column;
  blocked_on = w.blocked_on;
  created_at = env.times.to_rfc3339 w.created_at;
  updated_at = env.times.to_rfc3339 w.updated_at;
  template_json = template_json;
  content_hash = content_hash;
}

-- The values that an insert binds.
unfoldable pub row_to_insert :
    Environment → WorkflowInstance → Option String → StoreResult WorkflowRow
row_to_insert env w content_hash = do
  template_json ← from_json (env.encode_template w.template)
  column ← index_column w.current_phase_idx
  stored (workflow_row env w content_hash template_json column)

-- What `get_workflow` makes of a row, but for the phases. The position is not negative, and fits a
-- `usize` of 64 bits.
unfoldable pub instance_of :
    Environment → WorkflowRow → StoreResult (List PhaseState → WorkflowInstance)
instance_of env r = do
  status ← parse_workflow_status r.status
  template ← from_json (env.decode_template r.template_json)
  created_at ← parse_datetime env.times r.created_at "created_at"
  updated_at ← parse_datetime env.times r.updated_at "updated_at"
  stored λ phase_states. record {
    workflow_id = r.workflow_id;
    template = template;
    handoff_path = r.handoff_path;
    status = status;
    blocked_on = r.blocked_on;
    current_phase_idx = r.current_phase_idx;
    phase_states = phase_states;
    transitions = [];
    created_at = created_at;
    updated_at = updated_at;
  }
