-- ===== src/Store/Rows.antt =====
-- The rows of the table `phase_states`: what `upsert_phase_state` writes and `load_phase_states`
-- reads (src/store.rs).
pub mod Roundtrip
use hymenium.Prelude.{
  ℕ, suc, ◌+◌, ◌^◌, String, Bool, true, false, Option, none, some, List, [], ◌∷◌, ltb,
  if◌then◌else◌, decimal, format,
}
use hymenium.Workflow.Template.{AgentRole}
use hymenium.Workflow.Engine.{PhaseStatus, PhaseState, Timestamp, phase_status_text}
use hymenium.Store.{
  StoreError, invalid_value, StoreResult, stored, store_error, agent_role_text, parse_phase_status,
  parse_agent_role,
}

-- `to_rfc3339` and `parse_from_rfc3339` of chrono; a parse error gives its text.
pub data ParsedTime : Type 0 where
  time : Timestamp → ParsedTime
  no_time : String → ParsedTime

pub record TimeCodec : Type 0 where
  pub to_rfc3339 : Timestamp → String
  pub parse_from_rfc3339 : String → ParsedTime

-- The columns, texts as the store keeps them.
pub record PhaseRow : Type 0 where
  pub phase_id : String
  pub role : String
  pub status : String
  pub agent_id : Option String
  pub started_at : Option String
  pub completed_at : Option String
  pub canopy_task_id : Option String
  pub retry_count : ℕ
  pub phase_order : ℕ  -- i64
  pub failure_reason : Option String
  pub pending_message : Option String
  pub tool_failure_count : ℕ
  pub request_count : ℕ

infixl 10 ◌>>=◌
abbrev pub ◌>>=◌ : {A B : Type 0} → StoreResult A → (A → StoreResult B) → StoreResult B
stored a >>= f = f a
store_error e >>= f = store_error e

abbrev pub map_time : (Timestamp → String) → Option Timestamp → Option String
map_time f none = none
map_time f (some t) = some (f t)

abbrev pub i64_max : ℕ
i64_max = 9223372036854775807

-- `i64::try_from(order)`.
abbrev pub order_column : ℕ → StoreResult ℕ
order_column order =
    if ltb i64_max order
    then store_error (
        invalid_value "phase_order" (decimal order)
          (format ("value " ∷ decimal order ∷ " exceeds i64::MAX" ∷ [])))
    else stored order

-- The values that `upsert_phase_state` binds, with the position as it is stored.
unfoldable pub row_of : TimeCodec → PhaseState → ℕ → PhaseRow
row_of codec p column = record {
  phase_id = p.phase_id;
  role = agent_role_text p.role;
  status = phase_status_text p.status;
  agent_id = p.agent_id;
  started_at = map_time codec.to_rfc3339 p.started_at;
  completed_at = map_time codec.to_rfc3339 p.completed_at;
  canopy_task_id = p.canopy_task_id;
  retry_count = p.retry_count;
  phase_order = column;
  failure_reason = p.failure_reason;
  pending_message = p.pending_message;
  tool_failure_count = p.tool_failure_count;
  request_count = p.request_count;
}

unfoldable pub write_row : TimeCodec → PhaseState → ℕ → StoreResult PhaseRow
write_row codec p order = do column ← order_column order; stored (row_of codec p column)

unfoldable pub parse_datetime : TimeCodec → String → String → StoreResult Timestamp
parse_datetime codec s field = elim (codec.parse_from_rfc3339 s) [
  | time t ↦ stored t
  | no_time reason ↦ store_error (invalid_value field s reason)
]

-- `map(parse_datetime).transpose()?`.
abbrev pub read_time : TimeCodec → Option String → String → StoreResult (Option Timestamp)
unfolding parse_datetime
read_time codec none field = stored none
read_time codec (some s) field = parse_datetime codec s field >>= λ t. stored (some t)

unfoldable pub read_row : TimeCodec → PhaseRow → StoreResult PhaseState
unfolding parse_agent_role parse_phase_status parse_datetime
read_row codec r = do
  role ← parse_agent_role r.role
  status ← parse_phase_status r.status
  started_at ← read_time codec r.started_at "started_at"
  completed_at ← read_time codec r.completed_at "completed_at"
  stored (record {
    phase_id = r.phase_id;
    role = role;
    status = status;
    agent_id = r.agent_id;
    canopy_task_id = r.canopy_task_id;
    started_at = started_at;
    completed_at = completed_at;
    failure_reason = r.failure_reason;
    pending_message = r.pending_message;
    retry_count = r.retry_count;
    tool_failure_count = r.tool_failure_count;
    request_count = r.request_count;
  })

-- The rows of a list of phases as a plain list, in which no row replaces another: what the upserts
-- leave where no two phases have one ID.
unfoldable pub write_rows : TimeCodec → List PhaseState → ℕ → StoreResult (List PhaseRow)
unfolding write_row
write_rows codec [] order = stored []
write_rows codec (p ∷ ps) order = do
  r ← write_row codec p order
  rs ← write_rows codec ps (order + 1)
  stored (r ∷ rs)

-- The loop of `load_phase_states`.
unfoldable pub read_rows : TimeCodec → List PhaseRow → StoreResult (List PhaseState)
unfolding read_row
read_rows codec [] = stored []
read_rows codec (r ∷ rs) = do p ← read_row codec r; ps ← read_rows codec rs; stored (p ∷ ps)
