-- ===== src/Store/Operations/Loading.antt =====
-- What a workflow that was loaded has in common with its row (src/store.rs).
use hymenium.Prelude.{◌≡◌, refl, String, Option, none, some, List, ◌∙◌}
use hymenium.Workflow.Engine.{PhaseState, WorkflowInstance}
use hymenium.Store.{StoreResult, stored, store_error, parse_workflow_status}
use hymenium.Store.Rows.{parse_datetime, read_rows}
use hymenium.Store.Rows
use hymenium.Store.Tables.{WorkflowRow, Tables, find_row, select, order_rows, rows_of}
use hymenium.Store.Session.{Environment, lift, from_json}
use hymenium.Store.Session.Ends.{Ends, bind-Ends, execute-Ends}
use hymenium.Store.Columns.{instance_of}
use hymenium.Store.Operations.{load_phase_states, load, get_workflow}

-- What holds of a result if it is a value.
abbrev pub Where : {A : Type 0} → (A → Type 0) → StoreResult A → Type 0
Where P (stored a) = P a
Where P (store_error e) = Unit {0}

abbrev pub lift-Where :
    {A : Type 0} (t : Tables) (P : A → Type 0) (r : StoreResult A)
    → Where P r
    → Ends (Unit {0}) t (lift r) λ a u. P a × (u ≡ t)
lift-Where t P (stored a) h s e = (h, e)
lift-Where t P (store_error x) h s e = tt

pub lift-same :
    {A : Type 0} (t : Tables) (r : StoreResult A) → Ends (Unit {0}) t (lift r) λ a u. u ≡ t
lift-same t (stored a) s e = e
lift-same t (store_error x) s e = tt

pub bind-Where :
    {A B : Type 0} (P : B → Type 0) (r : StoreResult A) (f : A → StoreResult B)
    → ((a : A) → r ≡ stored a → Where P (f a))
    → Where P (Rows.◌>>=◌ r f)
bind-Where P (stored a) f h = h a refl
bind-Where P (store_error e) f h = tt

-- The identity and the status of an instance are those of its row.
abbrev pub FromRow : WorkflowRow → WorkflowInstance → Type 0
FromRow r w =
    (w.workflow_id ≡ r.workflow_id)
    × (parse_workflow_status r.status ≡ stored w.status)
    × (w.current_phase_idx ≡ r.current_phase_idx)

pub instance_of-FromRow :
    (env : Environment) (r : WorkflowRow)
    → Where (λ b. (ps : List PhaseState) → FromRow r (b ps)) (instance_of env r)
unfolding instance_of
instance_of-FromRow env r =
    let P : (List PhaseState → WorkflowInstance) → Type 0 =
      λ b. (ps : List PhaseState) → FromRow r (b ps) in
    bind-Where P (parse_workflow_status r.status) _ λ status e.
      bind-Where P (from_json (env.decode_template r.template_json)) _ λ template _.
        bind-Where P (parse_datetime env.times r.created_at "created_at") _ λ created _.
          bind-Where P (parse_datetime env.times r.updated_at "updated_at") _
            λ updated _ ps. (refl, e, refl)

abbrev pub Loaded : Tables → String → Option WorkflowInstance → Type 0
Loaded t id none = find_row id t.workflows ≡ none
Loaded t id (some w) = (r : WorkflowRow) × (find_row id t.workflows ≡ some r) × FromRow r w

load_phase_states-same :
    (env : Environment) (t : Tables) (id : String)
    → Ends (Unit {0}) t (load_phase_states env id) λ ps u. u ≡ t
unfolding load_phase_states
load_phase_states-same env t id =
    bind-Ends (Unit {0}) (λ rs u. u ≡ t) _ t _ _
      (execute-Ends (Unit {0}) env _ t (λ now. select (λ t. order_rows (rows_of id t.phase_states)))
        (λ n m e. tt) λ now. refl)
      λ rs u e. rw e (lift-same t (read_rows env.times rs))

load-Loaded :
    (env : Environment) (t : Tables) (id : String) (o : Option WorkflowRow)
    → find_row id t.workflows ≡ o
    → Ends (Unit {0}) t (load env o) λ a u. Loaded t id a × (u ≡ t)
load-Loaded env t id none h = λ s e. (h, e)
load-Loaded env t id (some r) h =
    bind-Ends (Unit {0}) (λ b u. ((ps : List PhaseState) → FromRow r (b ps)) × (u ≡ t)) _ t _ _
      (lift-Where t (λ b. (ps : List PhaseState) → FromRow r (b ps)) (instance_of env r)
        (instance_of-FromRow env r))
      λ b u (f, e). rw e (
        bind-Ends (Unit {0}) (λ ps u. u ≡ t) _ t (load_phase_states env r.workflow_id) _
          (load_phase_states-same env t r.workflow_id) λ ps u e s' k. ((r, h, f ps), k ∙ e))

-- A workflow that is loaded has the ID, the status and the position of its row.
pub get_workflow-Loaded :
    (env : Environment) (t : Tables) (id : String)
    → Ends (Unit {0}) t (get_workflow env id) λ a u. Loaded t id a × (u ≡ t)
unfolding get_workflow
get_workflow-Loaded env t id =
    bind-Ends (Unit {0}) (λ o u. (find_row id t.workflows ≡ o) × (u ≡ t)) _ t _ _
      (execute-Ends (Unit {0}) env _ t (λ now. select (λ t. find_row id t.workflows)) (λ n m e. tt)
        λ now. (refl, refl))
      λ o u (a, b). rw b (load-Loaded env t id o a)
