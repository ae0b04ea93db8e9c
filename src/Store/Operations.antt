-- ===== src/Store/Operations.antt =====
-- The operations of `WorkflowStore` on one connection (src/store.rs).
pub mod Through
pub mod Listing
pub mod Loading
pub mod Deduplicated
pub mod Reliable
pub mod Written
pub mod Updated
pub mod Roundtrip
pub mod Consistent
use hymenium.Prelude.{
  ℕ, ◌+◌, String, Bool, true, false, ◌&&◌, ◌==◌, Option, none, some, List, [], ◌∷◌, filter, is_some,
  if◌then◌else◌,
}
use hymenium.Workflow.Engine.{WorkflowStatus, PhaseState, WorkflowInstance, workflow_status_text}
use hymenium.Outcome.{WorkflowOutcome}
use hymenium.Store.{StoreError, not_found}
use hymenium.Store.Rows.{write_row, read_rows}
use hymenium.Store.Tables.{
  WorkflowRow, OutcomeRow, Tables, find_row, is_live, same_hash, insert_row, insert_or_ignore_row,
  update_row, upsert_entry, insert_transition, replace_outcome, find_outcome, order_rows, rows_of,
  select,
}
use hymenium.Store.Session.{
  Environment, Action, ◌>>=◌, ◌>>◌, pure, raise, lift, from_json, execute, with_transaction,
}
use hymenium.Store.Columns.{index_column, row_to_insert, instance_of}

unfoldable pub upsert_phase_state :
    Environment → String → PhaseState → ℕ → Action StoreError (Unit {0})
upsert_phase_state env id state order = do
  row ← lift (write_row env.times state order)
  execute env (λ now. upsert_entry id row)

-- The loop over the phases of an instance, with their positions from `order` on.
unfoldable pub upsert_phases :
    Environment → String → List PhaseState → ℕ → Action StoreError (Unit {0})
unfolding upsert_phase_state
upsert_phases env id [] order = pure tt
upsert_phases env id (p ∷ ps) order =
    upsert_phase_state env id p order >> upsert_phases env id ps (order + 1)

unfoldable pub insert_workflow_with_hash :
    Environment → WorkflowInstance → Option String → Action StoreError (Unit {0})
insert_workflow_with_hash env w content_hash = do
  row ← lift (row_to_insert env w content_hash)
  execute env (λ now. insert_row row)
  upsert_phases env w.workflow_id w.phase_states 0

unfoldable pub load_phase_states : Environment → String → Action StoreError (List PhaseState)
load_phase_states env id = do
  rows ← execute env (λ now. select (λ t. order_rows (rows_of id t.phase_states)))
  lift (read_rows env.times rows)

abbrev pub load : Environment → Option WorkflowRow → Action StoreError (Option WorkflowInstance)
load env none = pure none
load env (some r) = do
  build ← lift (instance_of env r)
  phase_states ← load_phase_states env r.workflow_id
  pure (some (build phase_states))

unfoldable pub get_workflow : Environment → String → Action StoreError (Option WorkflowInstance)
unfolding load_phase_states
get_workflow env id = execute env (λ now. select (λ t. find_row id t.workflows)) >>= load env

-- `ORDER BY created_at DESC`, where rows of the same moment keep the table's order.
abbrev pub insert_newest :
    (String → String → Bool) → WorkflowRow → List WorkflowRow → List WorkflowRow
insert_newest later r [] = r ∷ []
insert_newest later r (x ∷ rest) =
    if later x.created_at r.created_at then x ∷ insert_newest later r rest else r ∷ x ∷ rest

abbrev pub newest_first : (String → String → Bool) → List WorkflowRow → List WorkflowRow
newest_first later [] = []
newest_first later (r ∷ rest) = insert_newest later r (newest_first later rest)

-- `LIMIT 1`.
abbrev first_id : List WorkflowRow → Option String
first_id [] = none
first_id (r ∷ rest) = some r.workflow_id

abbrev pub has_live_hash : String → WorkflowRow → Bool
has_live_hash hash r = is_live r.status && same_hash r.content_hash (some hash)

abbrev pub live_id : Environment → String → Tables → Option String
live_id env hash t = first_id (newest_first env.later (filter (has_live_hash hash) t.workflows))

abbrev pub get_found : Environment → Option String → Action StoreError (Option WorkflowInstance)
get_found env none = pure none
get_found env (some id) = get_workflow env id

-- The warning about a workflow that waits for someone is only printed.
unfoldable pub find_workflow_by_hash :
    Environment → String → Action StoreError (Option WorkflowInstance)
unfolding get_workflow
find_workflow_by_hash env hash = execute env (λ now. select (live_id env hash)) >>= get_found env

abbrev pub or_not_found : {A : Type 0} → String → Option A → Action StoreError A
or_not_found message none = raise (not_found message)
or_not_found message (some a) = pure a

abbrev pub insert_new_phases : Environment → WorkflowInstance → ℕ → Action StoreError (Unit {0})
insert_new_phases env w inserted =
    if inserted == 0 then pure tt else upsert_phases env w.workflow_id w.phase_states 0

-- The query for the canonical workflow, ours or a concurrent writer's.
abbrev pub canonical : Environment → String → Action StoreError WorkflowInstance
canonical env content_hash = do
  found ← execute env (λ now. select (live_id env content_hash))
  id ← or_not_found "no workflow found after insert attempt" found
  loaded ← get_workflow env id
  or_not_found id loaded

-- What `find_and_insert_workflow_by_hash` runs in a transaction.
unfoldable pub find_or_insert :
    Environment → WorkflowInstance → String → Action StoreError WorkflowInstance
unfolding upsert_phases get_workflow
find_or_insert env w content_hash = do
  row ← lift (row_to_insert env w (some content_hash))
  inserted ← execute env (λ now. insert_or_ignore_row row)
  insert_new_phases env w inserted
  canonical env content_hash

unfoldable pub find_and_insert_workflow_by_hash :
    Environment → WorkflowInstance → String → Action StoreError WorkflowInstance
unfolding find_or_insert
find_and_insert_workflow_by_hash env w content_hash =
    with_transaction env (λ e. e) (find_or_insert env w content_hash)

abbrev pub require_change : String → ℕ → Action StoreError (Unit {0})
require_change id updated = if updated == 0 then raise (not_found id) else pure tt

abbrev pub status_set : Option String → String → String → WorkflowRow → WorkflowRow
status_set blocked_on status updated_at r = record r {
  status = status;
  blocked_on = blocked_on;
  updated_at = updated_at;
}

unfoldable pub update_workflow_status :
    Environment → String → WorkflowStatus → Option String → Action StoreError (Unit {0})
update_workflow_status env id status blocked_on = do
  updated ← execute env λ now.
      update_row id (status_set blocked_on (workflow_status_text status) (env.times.to_rfc3339 now))
  require_change id updated

abbrev pub index_set : ℕ → String → WorkflowRow → WorkflowRow
index_set column updated_at r = record r { current_phase_idx = column; updated_at = updated_at }

unfoldable pub update_current_phase_idx : Environment → String → ℕ → Action StoreError (Unit {0})
update_current_phase_idx env id idx = do
  column ← lift (index_column idx)
  updated ← execute env λ now. update_row id (index_set column (env.times.to_rfc3339 now))
  require_change id updated

unfoldable pub record_transition :
    Environment
    → String
    → Option String
    → Option String
    → Option String
    → Action StoreError (Unit {0})
record_transition env id from to reason = execute env λ now. insert_transition (record {
  workflow_id = id;
  from_phase = from;
  to_phase = to;
  transitioned_at = env.times.to_rfc3339 now;
  reason = reason;
})

unfoldable pub insert_outcome : Environment → WorkflowOutcome → Action StoreError (Unit {0})
insert_outcome env outcome = do
  json ← lift (from_json (env.encode_outcome outcome))
  execute env λ now. replace_outcome (record {
    workflow_id = outcome.workflow_id;
    outcome_json = json;
    created_at = env.times.to_rfc3339 now;
  })

abbrev pub decode_found :
    Environment → Option OutcomeRow → Action StoreError (Option WorkflowOutcome)
decode_found env none = pure none
decode_found env (some o) = do
  outcome ← lift (from_json (env.decode_outcome o.outcome_json))
  pure (some outcome)

unfoldable pub get_outcome : Environment → String → Action StoreError (Option WorkflowOutcome)
get_outcome env id =
    execute env (λ now. select (λ t. find_outcome id t.outcomes)) >>= decode_found env

unfoldable pub outcome_exists : Environment → String → Action StoreError Bool
outcome_exists env id = execute env (λ now. select (λ t. is_some (find_outcome id t.outcomes)))
