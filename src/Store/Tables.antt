-- ===== src/Store/Tables.antt =====
-- The tables of the store, their constraints, and its statements on them (the schema and the SQL of
-- src/store.rs). A constraint that a statement would break is an error, and changes nothing.
pub mod Keys
pub mod Consistent
use hymenium.Prelude.{
  ℕ, suc, String, Bool, true, false, not, ◌&&◌, Option, none, some, List, [], ◌∷◌, ◌++◌, map, any,
  filter, member, str_eq, leb, is_some, if◌then◌else◌,
}
use hymenium.Store.{sqlite, StoreResult, stored, store_error}
use hymenium.Store.Rows.{PhaseRow}

-- The columns, texts as the store keeps them.
pub record WorkflowRow : Type 0 where
  pub workflow_id : String
  pub template_id : String
  pub handoff_path : String
  pub status : String
  pub current_phase : Option String
  pub current_phase_idx : ℕ  -- i64
  pub blocked_on : Option String
  pub created_at : String
  pub updated_at : String
  pub template_json : String
  pub content_hash : Option String

-- A row of `phase_states`: the workflow that it belongs to, and its other columns.
pub record PhaseEntry : Type 0 where
  pub workflow_id : String
  pub row : PhaseRow

pub record TransitionRow : Type 0 where
  pub workflow_id : String
  pub from_phase : Option String
  pub to_phase : Option String
  pub transitioned_at : String
  pub reason : Option String

pub record OutcomeRow : Type 0 where
  pub workflow_id : String
  pub outcome_json : String
  pub created_at : String

pub record Tables : Type 0 where
  pub workflows : List WorkflowRow
  pub phase_states : List PhaseEntry
  pub transitions : List TransitionRow
  pub outcomes : List OutcomeRow

-- What a statement does where the database works: its answer with the new tables, or an error.
abbrev pub Statement : Type 0 → Type 0
Statement A = Tables → StoreResult (A × Tables)

-- `SELECT … FROM workflows WHERE workflow_id = ?1`.
abbrev pub find_row : String → List WorkflowRow → Option WorkflowRow
find_row id [] = none
find_row id (r ∷ rest) = if str_eq r.workflow_id id then some r else find_row id rest

-- `status NOT IN ('completed', 'failed', 'cancelled', 'user_terminated')`.
unfoldable pub is_live : String → Bool
is_live status = not (member status ("completed" ∷ "failed" ∷ "cancelled" ∷ "user_terminated" ∷ []))

-- Equality of two columns, where `NULL` equals nothing.
abbrev pub same_hash : Option String → Option String → Bool
same_hash (some a) (some b) = str_eq a b
same_hash _ _ = false

-- Two entries of the partial unique index `idx_workflows_content_hash_active` that collide.
unfoldable pub collides : WorkflowRow → WorkflowRow → Bool
unfolding is_live
collides r x = is_live r.status && (is_live x.status && same_hash r.content_hash x.content_hash)

abbrev pub clashes : WorkflowRow → List WorkflowRow → Bool
clashes r = any (λ x. not (str_eq x.workflow_id r.workflow_id) && collides r x)

abbrev pub unique_id : StoreResult (ℕ × Tables)
unique_id = store_error (sqlite "UNIQUE constraint failed: workflows.workflow_id")

abbrev pub unique_hash : StoreResult (ℕ × Tables)
unique_hash = store_error (sqlite "UNIQUE constraint failed: workflows.content_hash")

abbrev pub foreign_key : {A : Type 0} → StoreResult A
foreign_key = store_error (sqlite "FOREIGN KEY constraint failed")

abbrev pub with_row : WorkflowRow → Tables → Tables
with_row r t = record t { workflows = t.workflows ++ r ∷ [] }

-- `INSERT INTO workflows`.
abbrev pub insert_row : WorkflowRow → Statement ℕ
insert_row r t =
    if is_some (find_row r.workflow_id t.workflows)
    then unique_id
    else if clashes r t.workflows
    then unique_hash
    else stored (1, with_row r t)

-- `INSERT OR IGNORE INTO workflows`: how many rows were inserted.
abbrev pub insert_or_ignore_row : WorkflowRow → Statement ℕ
insert_or_ignore_row r t =
    if is_some (find_row r.workflow_id t.workflows)
    then stored (0, t)
    else if clashes r t.workflows
    then stored (0, t)
    else stored (1, with_row r t)

abbrev pub update_rows : String → (WorkflowRow → WorkflowRow) → List WorkflowRow → List WorkflowRow
update_rows id f [] = []
update_rows id f (r ∷ rest) = (if str_eq r.workflow_id id then f r else r) ∷ update_rows id f rest

-- `UPDATE workflows SET … WHERE workflow_id = ?`: how many rows were changed.
abbrev pub update_row : String → (WorkflowRow → WorkflowRow) → Statement ℕ
update_row id f t = elim (find_row id t.workflows) [
  | none ↦ stored (0, t)
  | some r ↦
      if clashes (f r) t.workflows
      then unique_hash
      else stored (1, record t { workflows = update_rows id f t.workflows })
]

abbrev pub is_entry : String → String → PhaseEntry → Bool
is_entry workflow_id phase_id e = str_eq e.workflow_id workflow_id && str_eq e.row.phase_id phase_id

abbrev pub put_entry : String → PhaseRow → List PhaseEntry → List PhaseEntry
put_entry id row [] = record { workflow_id = id; row = row } ∷ []
put_entry id row (e ∷ rest) =
    if is_entry id row.phase_id e
    then record { workflow_id = id; row = row } ∷ rest
    else e ∷ put_entry id row rest

-- `INSERT INTO phase_states … ON CONFLICT(workflow_id, phase_id) DO UPDATE SET`.
abbrev pub upsert_entry : String → PhaseRow → Statement (Unit {0})
upsert_entry id row t =
    if is_some (find_row id t.workflows)
    then stored (tt, record t { phase_states = put_entry id row t.phase_states })
    else foreign_key

-- `INSERT INTO workflow_transitions`.
abbrev pub insert_transition : TransitionRow → Statement (Unit {0})
insert_transition r t =
    if is_some (find_row r.workflow_id t.workflows)
    then stored (tt, record t { transitions = t.transitions ++ r ∷ [] })
    else foreign_key

abbrev pub put_outcome : OutcomeRow → List OutcomeRow → List OutcomeRow
put_outcome o [] = o ∷ []
put_outcome o (x ∷ rest) =
    if str_eq x.workflow_id o.workflow_id then o ∷ rest else x ∷ put_outcome o rest

-- `INSERT OR REPLACE INTO workflow_outcomes`.
abbrev pub replace_outcome : OutcomeRow → Statement (Unit {0})
replace_outcome o t = stored (tt, record t { outcomes = put_outcome o t.outcomes })

abbrev pub find_outcome : String → List OutcomeRow → Option OutcomeRow
find_outcome id [] = none
find_outcome id (o ∷ rest) = if str_eq o.workflow_id id then some o else find_outcome id rest

-- `ORDER BY phase_order ASC`, where equal positions keep the table's order.
abbrev pub insert_ordered : PhaseRow → List PhaseRow → List PhaseRow
insert_ordered r [] = r ∷ []
insert_ordered r (x ∷ rest) =
    if leb r.phase_order x.phase_order then r ∷ x ∷ rest else x ∷ insert_ordered r rest

abbrev pub order_rows : List PhaseRow → List PhaseRow
order_rows [] = []
order_rows (r ∷ rest) = insert_ordered r (order_rows rest)

abbrev pub rows_of : String → List PhaseEntry → List PhaseRow
rows_of id es = map (λ e. e.row) (filter (λ e. str_eq e.workflow_id id) es)

-- A statement that only reads.
abbrev pub select : {A : Type 0} → (Tables → A) → Statement A
select f t = stored (f t, t)
