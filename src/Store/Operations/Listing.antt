-- ===== src/Store/Operations/Listing.antt =====
-- `list_active_workflows`: its two queries, and the instances made of their rows (src/store.rs).
use hymenium.Prelude.{
  ℕ, zero, suc, String, Bool, not, List, [], ◌∷◌, ◌++◌, map, filter, member, str_eq, leb, is_empty,
  length, take, if◌then◌else◌,
}
use hymenium.Workflow.Engine.{PhaseState, WorkflowInstance}
use hymenium.Store.{StoreError}
use hymenium.Store.Rows.{read_row}
use hymenium.Store.Tables.{WorkflowRow, PhaseEntry, Tables, is_live, select}
use hymenium.Store.Session.{Environment, Action, ◌>>=◌, pure, lift, execute}
use hymenium.Store.Columns.{instance_of}
use hymenium.Store.Operations.{newest_first}

-- The first query.
abbrev pub active_rows : Environment → Tables → List WorkflowRow
active_rows env t = newest_first env.later (filter (λ r. is_live r.status) t.workflows)

-- `ORDER BY workflow_id, phase_order ASC`.
abbrev comes_first : Environment → PhaseEntry → PhaseEntry → Bool
comes_first env e x =
    if str_eq e.workflow_id x.workflow_id
    then leb e.row.phase_order x.row.phase_order
    else env.later x.workflow_id e.workflow_id

abbrev insert_entry : Environment → PhaseEntry → List PhaseEntry → List PhaseEntry
insert_entry env e [] = e ∷ []
insert_entry env e (x ∷ rest) =
    if comes_first env e x then e ∷ x ∷ rest else x ∷ insert_entry env e rest

abbrev order_entries : Environment → List PhaseEntry → List PhaseEntry
order_entries env [] = []
order_entries env (e ∷ rest) = insert_entry env e (order_entries env rest)

-- The second query, for one chunk of workflow IDs.
abbrev pub entries_of : Environment → List String → Tables → List PhaseEntry
entries_of env ids t = order_entries env (filter (λ e. member e.workflow_id ids) t.phase_states)

abbrev drop : {A : Type 0} → ℕ → List A → List A
drop zero xs = xs
drop (suc n) [] = []
drop (suc n) (x ∷ xs) = drop n xs

-- `ids.chunks(999)`; there are no more chunks than IDs.
unfoldable pub chunks : ℕ → List String → List (List String)
chunks zero ids = []
chunks (suc fuel) ids =
    let rest = chunks fuel (drop 999 ids) in if is_empty ids then [] else take 999 ids ∷ rest

abbrev pub Phases : Type 0
Phases = List (String × PhaseState)

-- Filling the map from workflow IDs to phases, here the list of its insertions.
unfoldable pub read_entries : Environment → List PhaseEntry → Action StoreError Phases
read_entries env [] = pure []
read_entries env (e ∷ es) = do
  p ← lift (read_row env.times e.row)
  rest ← read_entries env es
  pure ((e.workflow_id, p) ∷ rest)

unfoldable pub load_chunks : Environment → List (List String) → Action StoreError Phases
unfolding read_entries
load_chunks env [] = pure []
load_chunks env (ids ∷ rest) = do
  entries ← execute env (λ now. select (entries_of env ids))
  phases ← read_entries env entries
  more ← load_chunks env rest
  pure (phases ++ more)

abbrev phases_in : String → Phases → List PhaseState
phases_in id m = map (λ (k, p). p) (filter (λ (k, p). str_eq k id) m)

abbrev removed : String → Phases → Phases
removed id m = filter (λ (k, p). not (str_eq k id)) m

-- The loop over the rows, which takes each workflow's phases out of the map.
unfoldable pub assemble :
    Environment → List WorkflowRow → Phases → Action StoreError (List WorkflowInstance)
assemble env [] m = pure []
assemble env (r ∷ rows) m = do
  build ← lift (instance_of env r)
  rest ← assemble env rows (removed r.workflow_id m)
  pure (build (phases_in r.workflow_id m) ∷ rest)

abbrev pub list_rows : Environment → List WorkflowRow → Action StoreError (List WorkflowInstance)
list_rows env [] = pure []
list_rows env (r ∷ rows) = do
  let ids = map (λ r. r.workflow_id) (r ∷ rows)
  m ← load_chunks env (chunks (length ids) ids)
  assemble env (r ∷ rows) m

unfoldable pub list_active_workflows : Environment → Action StoreError (List WorkflowInstance)
unfolding chunks load_chunks assemble
list_active_workflows env = execute env (λ now. select (active_rows env)) >>= list_rows env
