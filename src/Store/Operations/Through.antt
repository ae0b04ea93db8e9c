-- ===== src/Store/Operations/Through.antt =====
-- What holds through each operation of the store, if it holds through its statements
-- (src/store.rs).
use hymenium.Prelude.{
  ℕ, ◌+◌, ◌≡◌, refl, String, Bool, true, false, ◌==◌, Option, none, some, List, [], ◌∷◌,
  if◌then◌else◌,
}
use hymenium.Workflow.Engine.{
  WorkflowStatus, PhaseState, WorkflowInstance, Timestamp, workflow_status_text,
}
use hymenium.Outcome.{WorkflowOutcome}
use hymenium.Store.{not_found}
use hymenium.Store.Rows.{PhaseRow, write_row, read_rows}
use hymenium.Store.Tables.{
  WorkflowRow, TransitionRow, OutcomeRow, Tables, find_row, find_outcome, insert_row,
  insert_or_ignore_row, update_row, upsert_entry, insert_transition, replace_outcome, select,
  order_rows, rows_of,
}
use hymenium.Store.Session.{Environment, Session, Action, pure, raise, lift, from_json, execute}
use hymenium.Store.Session.Through.{Through, Preorder, bind-Through, lift-Through}
use hymenium.Store.Columns.{index_column, row_to_insert, instance_of}
use hymenium.Store.Operations.{
  upsert_phase_state, upsert_phases, insert_workflow_with_hash, load_phase_states, load,
  get_workflow, live_id, get_found, decode_found, find_workflow_by_hash, insert_new_phases,
  or_not_found, find_or_insert, require_change, status_set, update_workflow_status, index_set,
  update_current_phase_idx, record_transition, insert_outcome, get_outcome,
}

pub record Reads (env : Environment) (R : Session → Session → Type 0) : Type 1 where
  pub order : Preorder R
  pub reading : {A : Type 0} (f : Tables → A) → Through R (execute env (λ now. select f))

pub record Statements (env : Environment) (R : Session → Session → Type 0) : Type 1 where
  pub order : Preorder R
  pub insert : (r : WorkflowRow) → Through R (execute env (λ now. insert_row r))
  pub ignore : (r : WorkflowRow) → Through R (execute env (λ now. insert_or_ignore_row r))
  pub update :
      (id : String) (f : Timestamp → WorkflowRow → WorkflowRow)
      → ((now : Timestamp) (r : WorkflowRow) → (f now r).workflow_id ≡ r.workflow_id)
      → Through R (execute env (λ now. update_row id (f now)))
  pub upsert : (id : String) (row : PhaseRow) → Through R (execute env (λ now. upsert_entry id row))
  pub transition :
      (r : Timestamp → TransitionRow) → Through R (execute env (λ now. insert_transition (r now)))
  pub outcome :
      (o : Timestamp → OutcomeRow) → Through R (execute env (λ now. replace_outcome (o now)))
  pub reading : {A : Type 0} (f : Tables → A) → Through R (execute env (λ now. select f))

module _ (env : Environment) {R : Session → Session → Type 0} (rd : Reads env R) where
  pub load_phase_states-Through : (id : String) → Through R (load_phase_states env id)
  unfolding load_phase_states
  load_phase_states-Through id =
      bind-Through rd.order
        (execute env (λ now. select (λ t. order_rows (rows_of id t.phase_states)))) _
        (rd.reading (λ t. order_rows (rows_of id t.phase_states)))
        λ rows. lift-Through rd.order (read_rows env.times rows)

  pub load-Through : (r : Option WorkflowRow) → Through R (load env r)
  load-Through none = rd.order.same
  load-Through (some r) =
      bind-Through rd.order (lift (instance_of env r)) _ (lift-Through rd.order (instance_of env r))
        λ build.
          bind-Through rd.order (load_phase_states env r.workflow_id) _
            (load_phase_states-Through r.workflow_id) λ ps. rd.order.same

  pub get_workflow-Through : (id : String) → Through R (get_workflow env id)
  unfolding get_workflow
  get_workflow-Through id =
      bind-Through rd.order (execute env (λ now. select (λ t. find_row id t.workflows))) (load env)
        (rd.reading (λ t. find_row id t.workflows)) load-Through

  get_found-Through : (found : Option String) → Through R (get_found env found)
  get_found-Through none = rd.order.same
  get_found-Through (some id) = get_workflow-Through id

  pub find_workflow_by_hash-Through : (hash : String) → Through R (find_workflow_by_hash env hash)
  unfolding find_workflow_by_hash
  find_workflow_by_hash-Through hash =
      bind-Through rd.order (execute env (λ now. select (live_id env hash))) _
        (rd.reading (live_id env hash)) get_found-Through

  decode_found-Through : (found : Option OutcomeRow) → Through R (decode_found env found)
  decode_found-Through none = rd.order.same
  decode_found-Through (some o) =
      bind-Through rd.order (lift (from_json (env.decode_outcome o.outcome_json))) _
        (lift-Through rd.order (from_json (env.decode_outcome o.outcome_json))) λ a. rd.order.same

  pub get_outcome-Through : (id : String) → Through R (get_outcome env id)
  unfolding get_outcome
  get_outcome-Through id =
      bind-Through rd.order (execute env (λ now. select (λ t. find_outcome id t.outcomes))) _
        (rd.reading (λ t. find_outcome id t.outcomes)) decode_found-Through

pub Statements-Reads :
    (env : Environment) {R : Session → Session → Type 0} → Statements env R → Reads env R
Statements-Reads env st = record { order = st.order; reading = st.reading }

module _ (env : Environment) {R : Session → Session → Type 0} (st : Statements env R) where
  pub upsert_phase_state-Through :
      (id : String) (p : PhaseState) (order : ℕ) → Through R (upsert_phase_state env id p order)
  unfolding upsert_phase_state
  upsert_phase_state-Through id p order =
      bind-Through st.order (lift (write_row env.times p order))
        (λ row. execute env (λ now. upsert_entry id row))
        (lift-Through st.order (write_row env.times p order)) (st.upsert id)

  pub upsert_phases-Through :
      (id : String) (ps : List PhaseState) (order : ℕ) → Through R (upsert_phases env id ps order)
  unfolding upsert_phases
  upsert_phases-Through id [] order = st.order.same
  upsert_phases-Through id (p ∷ ps) order =
      bind-Through st.order (upsert_phase_state env id p order)
        (λ _. upsert_phases env id ps (order + 1)) (upsert_phase_state-Through id p order)
        (λ _. upsert_phases-Through id ps (order + 1))

  pub insert_workflow_with_hash-Through :
      (w : WorkflowInstance) (hash : Option String)
      → Through R (insert_workflow_with_hash env w hash)
  unfolding insert_workflow_with_hash
  insert_workflow_with_hash-Through w hash =
      bind-Through st.order (lift (row_to_insert env w hash)) _
        (lift-Through st.order (row_to_insert env w hash))
        λ row.
          bind-Through st.order (execute env (λ now. insert_row row)) _ (st.insert row)
            λ _. upsert_phases-Through w.workflow_id w.phase_states 0

  or_not_found-Through :
      {A : Type 0} (message : String) (o : Option A) → Through R (or_not_found message o)
  or_not_found-Through message none = st.order.same
  or_not_found-Through message (some a) = st.order.same

  choose-Through :
      {E A : Type 0} (b : Bool) (m n : Action E A)
      → Through R m
      → Through R n
      → Through R (if b then m else n)
  choose-Through true m n h k = h
  choose-Through false m n h k = k

  insert_new_phases-Through : (w : WorkflowInstance) (n : ℕ) → Through R (insert_new_phases env w n)
  insert_new_phases-Through w n =
      choose-Through (n == 0) (pure tt) (upsert_phases env w.workflow_id w.phase_states 0)
        st.order.same (upsert_phases-Through w.workflow_id w.phase_states 0)

  pub find_or_insert-Through :
      (w : WorkflowInstance) (hash : String) → Through R (find_or_insert env w hash)
  unfolding find_or_insert
  find_or_insert-Through w hash =
      bind-Through st.order (lift (row_to_insert env w (some hash))) _
        (lift-Through st.order (row_to_insert env w (some hash)))
        λ row.
          bind-Through st.order (execute env (λ now. insert_or_ignore_row row)) _ (st.ignore row)
            λ n.
              bind-Through st.order (insert_new_phases env w n) _ (insert_new_phases-Through w n)
                λ _.
                  bind-Through st.order (execute env (λ now. select (live_id env hash))) _
                    (st.reading (live_id env hash))
                    λ found.
                      bind-Through st.order
                        (or_not_found "no workflow found after insert attempt" found) _
                        (or_not_found-Through "no workflow found after insert attempt" found)
                        λ id.
                          bind-Through st.order (get_workflow env id) _
                            (get_workflow-Through env (Statements-Reads env st) id)
                            λ loaded. or_not_found-Through id loaded

  require_change-Through : (id : String) (n : ℕ) → Through R (require_change id n)
  require_change-Through id n =
      choose-Through (n == 0) (raise (not_found id)) (pure tt) st.order.same st.order.same

  pub update_workflow_status-Through :
      (id : String) (status : WorkflowStatus) (blocked_on : Option String)
      → Through R (update_workflow_status env id status blocked_on)
  unfolding update_workflow_status
  update_workflow_status-Through id status blocked_on =
      let f : Timestamp → WorkflowRow → WorkflowRow =
        λ now. status_set blocked_on (workflow_status_text status) (env.times.to_rfc3339 now) in
      bind-Through st.order (execute env (λ now. update_row id (f now))) (require_change id)
        (st.update id f λ now r. refl) (require_change-Through id)

  pub update_current_phase_idx-Through :
      (id : String) (idx : ℕ) → Through R (update_current_phase_idx env id idx)
  unfolding update_current_phase_idx
  update_current_phase_idx-Through id idx =
      bind-Through st.order (lift (index_column idx)) _ (lift-Through st.order (index_column idx))
        λ column.
          let f : Timestamp → WorkflowRow → WorkflowRow =
            λ now. index_set column (env.times.to_rfc3339 now) in
          bind-Through st.order (execute env (λ now. update_row id (f now))) (require_change id)
            (st.update id f λ now r. refl) (require_change-Through id)

  pub record_transition-Through :
      (id : String) (from to reason : Option String)
      → Through R (record_transition env id from to reason)
  unfolding record_transition
  record_transition-Through id from to reason = st.transition _

  pub insert_outcome-Through : (o : WorkflowOutcome) → Through R (insert_outcome env o)
  unfolding insert_outcome
  insert_outcome-Through o =
      bind-Through st.order (lift (from_json (env.encode_outcome o))) _
        (lift-Through st.order (from_json (env.encode_outcome o))) λ text. st.outcome _
