-- ===== src/Store/Operations/Reliable.antt =====
-- Loading, and finding by a content hash, on a database that refuses no statement (src/store.rs).
use mathlib.Core.Path.{subst}
use hymenium.Prelude.{ℕ, ◌≡◌, refl, ◌∙◌, ap, String, true, none, some, List}
use hymenium.Workflow.Engine.{PhaseState, WorkflowInstance, workflow_status_text}
use hymenium.Store.{stored}
use hymenium.Store.Rows.{read_rows}
use hymenium.Store.Tables.{
  WorkflowRow, Tables, find_row, is_live, order_rows, rows_of, select, insert_or_ignore_row,
}
use hymenium.Store.Tables.Keys.{find_row-id}
use hymenium.Store.Session.{Environment, Session, Attempt, succeeded, raised, ◌>>=◌}
use hymenium.Store.Session.Ends.{
  After, Ends, bind-Ends, execute-Ends, lift-Ends, with_transaction-After,
}
use hymenium.Store.Columns.{row_to_insert, instance_of}
use hymenium.Store.Operations.{
  load_phase_states, load, get_workflow, live_id, insert_new_phases, or_not_found, canonical,
  find_or_insert, find_and_insert_workflow_by_hash,
}
use hymenium.Store.Operations.Loading.{Where}
use hymenium.Store.Operations.Deduplicated.{RowOf, row_to_insert-RowOf, ignored}

-- The answer and the tables of an action that cannot fail.
pub result :
    {E A : Type 0} (r : Attempt E A × Session) (v : A) (t : Tables)
    → After ⊥ (λ a u. (a ≡ v) × (u ≡ t)) r
    → (r.0 ≡ succeeded v) × (r.1.tables ≡ t)
result (succeeded a, s) v t h = (ap succeeded h.0, h.1)
result (raised e, s) v t h = absurd h

-- The rows of a workflow, and the instance that is made of them.
pub record Stored (env : Environment) (t : Tables) (id : String) (w : WorkflowInstance)
    : Type 0 where
  pub row : WorkflowRow
  pub build : List PhaseState → WorkflowInstance
  pub phases : List PhaseState
  pub found : find_row id t.workflows ≡ some row
  pub built : instance_of env row ≡ stored build
  pub read : read_rows env.times (order_rows (rows_of id t.phase_states)) ≡ stored phases
  pub same : build phases ≡ w

module _ (env : Environment) (reliable : (n : ℕ) (m : String) → env.fault n ≡ some m → ⊥)
    (t : Tables) (id : String) (w : WorkflowInstance) (st : Stored env t id w) where
  load_phase_states-Ends : Ends ⊥ t (load_phase_states env id) λ ps u. (ps ≡ st.phases) × (u ≡ t)
  unfolding load_phase_states
  load_phase_states-Ends =
      let rows = order_rows (rows_of id t.phase_states) in
      bind-Ends ⊥ (λ rs u. (rs ≡ rows) × (u ≡ t)) _ t _ _
        (execute-Ends ⊥ env _ t (λ now. select (λ t. order_rows (rows_of id t.phase_states)))
          reliable λ now. (refl, refl))
        λ rs u (a, b). rw (a, b) (lift-Ends ⊥ t (read_rows env.times rows) st.phases st.read)

  load-Ends : Ends ⊥ t (load env (some st.row)) λ a u. (a ≡ some w) × (u ≡ t)
  load-Ends =
      bind-Ends ⊥ (λ b u. (b ≡ st.build) × (u ≡ t)) _ t _ _
        (lift-Ends ⊥ t (instance_of env st.row) st.build st.built)
        λ b u (a, c).
          rw (a, c, find_row-id id t.workflows st.row st.found)
            (bind-Ends ⊥ (λ ps u. (ps ≡ st.phases) × (u ≡ t)) _ t (load_phase_states env id) _
              load_phase_states-Ends λ ps u (d, e) s k. (rw d (ap some st.same), k ∙ e))

  -- A stored workflow is loaded.
  pub get_workflow-Ends : Ends ⊥ t (get_workflow env id) λ a u. (a ≡ some w) × (u ≡ t)
  unfolding get_workflow
  get_workflow-Ends =
      bind-Ends ⊥ (λ o u. (o ≡ some st.row) × (u ≡ t)) _ t _ _
        (execute-Ends ⊥ env _ t (λ now. select (λ t. find_row id t.workflows)) reliable
          λ now. (st.found, refl))
        λ o u (a, b). rw (a, b) load-Ends

  canonical-Ends :
      (hash : String)
      → live_id env hash t ≡ some id
      → Ends ⊥ t (canonical env hash) λ v u. (v ≡ w) × (u ≡ t)
  canonical-Ends hash h =
      bind-Ends ⊥ (λ o u. (o ≡ some id) × (u ≡ t)) _ t _ _
        (execute-Ends ⊥ env _ t (λ now. select (live_id env hash)) reliable λ now. (h, refl))
        λ o u (a, b).
          rw (a, b)
            (bind-Ends ⊥ (λ x u. (x ≡ id) × (u ≡ t)) (λ v u. (v ≡ w) × (u ≡ t)) t
              (or_not_found "no workflow found after insert attempt" (some id))
              (λ x. get_workflow env x >>= or_not_found x) (λ s e. (refl, e))
              λ x u (c, d).
                rw (c, d)
                  (bind-Ends ⊥ (λ l u. (l ≡ some w) × (u ≡ t)) _ t (get_workflow env id) _
                    get_workflow-Ends λ l u (e, f) s k. rw e (refl, k ∙ f)))

  find_or_insert-Ends :
      (new : WorkflowInstance) (hash : String) (row : WorkflowRow)
      → is_live (workflow_status_text new.status) ≡ true
      → live_id env hash t ≡ some id
      → row_to_insert env new (some hash) ≡ stored row
      → Ends ⊥ t (find_or_insert env new hash) λ v u. (v ≡ w) × (u ≡ t)
  unfolding find_or_insert
  find_or_insert-Ends new hash row l h e =
      let (a, b) : RowOf new hash row =
        subst (Where (RowOf new hash)) e (row_to_insert-RowOf env new hash) in
      bind-Ends ⊥ (λ r u. (r ≡ row) × (u ≡ t)) _ t _ _
        (lift-Ends ⊥ t (row_to_insert env new (some hash)) row e)
        λ r u (c, d).
          rw (c, d)
            (bind-Ends ⊥ (λ n u. (n ≡ 0) × (u ≡ t)) _ t _ _
              (execute-Ends ⊥ env _ t (λ now. insert_or_ignore_row row) reliable
                λ now. rw (ignored env row hash id t (rw a l) b h) (refl, refl))
              λ n u (f, g).
                rw (f, g)
                  (bind-Ends ⊥ (λ _ u. u ≡ t) (λ v u. (v ≡ w) × (u ≡ t)) t
                    (insert_new_phases env new 0) (λ _. canonical env hash) (λ s k. k)
                    λ _ u k. rw k (canonical-Ends hash h)))

-- If the database refuses no statement, no transaction is open, a live workflow has the content hash
-- and can be loaded, and the new workflow is live and can be written, then finding or inserting the
-- new one gives the workflow that is there and changes no table.
pub find_and_insert-found :
    (env : Environment) (new w : WorkflowInstance) (hash id : String) (row : WorkflowRow)
    (s : Session)
    → ((n : ℕ) (m : String) → env.fault n ≡ some m → ⊥)
    → s.saved ≡ none
    → is_live (workflow_status_text new.status) ≡ true
    → live_id env hash s.tables ≡ some id
    → row_to_insert env new (some hash) ≡ stored row
    → Stored env s.tables id w
    → ((find_and_insert_workflow_by_hash env new hash s).0 ≡ succeeded w)
      × ((find_and_insert_workflow_by_hash env new hash s).1.tables ≡ s.tables)
unfolding find_and_insert_workflow_by_hash
find_and_insert-found env new w hash id row s reliable closed l h e st =
    result (find_and_insert_workflow_by_hash env new hash s) w s.tables (
      with_transaction-After ⊥ env (λ e. e) (λ v u. (v ≡ w) × (u ≡ s.tables)) s.tables
        (find_or_insert env new hash) s reliable (λ u k. cc)
        (find_or_insert-Ends env reliable s.tables id w st new hash row l h e) refl)
