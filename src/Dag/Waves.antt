-- ===== src/Dag/Waves.antt =====
-- The waves in which a DAG's nodes are executed (src/workflow/dag/executor.rs).
mod Gate
mod Named
pub mod Steps
mod Outcome
mod Loop
pub mod Executed
use hymenium.Prelude.{
  ℕ, zero, suc, String, Bool, true, false, not, ◌&&◌, ◌||◌, Option, none, some, List, [], ◌∷◌, ◌++◌,
  map, filter, any, all, is_empty, is_some, length, unwrap_or, member, str_eq, format, ◌==◌,
  if◌then◌else◌,
}
use hymenium.Dag.{
  DagNode, node_id, TriggerRule, all_success, one_success, trigger_rule, WorkflowDag, Env,
}
use hymenium.Dag.Sort.{
  Run, finished, raised, panicked, out_of_fuel, ◌>>=◌, Adjacency, incoming_of, outgoing_of,
  topological_order,
}
use hymenium.Dag.Node.{NodeStatus, success, failed, skipped, NodeResult, Outside, execute_node}

pub record Progress : Type 0 where
  pub results : List NodeResult
  pub completed : List String
  pub passed_over : List String

-- `node_map`: of two nodes with one ID the later one.
abbrev pub node_of : List DagNode → String → Option DagNode
node_of [] id = none
node_of (n ∷ rest) id = elim (node_of rest id) [
  | some m ↦ some m
  | none ↦ if str_eq (node_id n) id then some n else none
]

abbrev pub result_of : List NodeResult → String → Option NodeResult
result_of [] id = none
result_of (r ∷ rest) id = if str_eq r.node_id id then some r else result_of rest id

-- `results.insert`: the newest entry of a key comes first, and is the one that counts.
abbrev pub insert_result : NodeResult → List NodeResult → List NodeResult
insert_result r results = r ∷ filter (λ s. not (str_eq s.node_id r.node_id)) results

abbrev pub is_success : NodeStatus → Bool
is_success success = true
is_success _ = false

-- The results that are there.
abbrev pub results_of : List NodeResult → List String → List NodeResult
results_of results [] = []
results_of results (id ∷ rest) =
    let others = results_of results rest in
    elim (result_of results id) [ none ↦ others | some r ↦ r ∷ others ]

abbrev pub triggered : TriggerRule → List NodeResult → List String → Bool
triggered all_success results preds =
    let found = results_of results preds in
    length found == length preds && all (λ r. is_success r.status) found
triggered one_success results preds = any (λ r. is_success r.status) (results_of results preds)

abbrev pub is_done : Progress → String → Bool
is_done st id = member id st.completed || member id st.passed_over

-- The loop that finds the ready nodes.
unfoldable pub ready_nodes : WorkflowDag → Progress → List String → Run (List String)
ready_nodes dag st [] = finished []
ready_nodes dag st (id ∷ rest) = do
  found ← ready_nodes dag st rest
  if is_done st id then finished found else elim (node_of dag.nodes id) [
    | none ↦ panicked
    | some node ↦ elim (incoming_of dag id) [
      | none ↦ panicked
      | some preds ↦ finished (
          if is_empty preds || triggered (trigger_rule node) st.results preds
          then id ∷ found
          else found)
    ]
  ]

-- The tasks of a wave, in the order in which they end; each was given the results of before.
unfoldable pub join_tasks :
    Outside → WorkflowDag → Env → List NodeResult → List String → Progress → Run Progress
join_tasks o dag env prior [] st = finished st
join_tasks o dag env prior (id ∷ rest) st = elim (node_of dag.nodes id) [
  | none ↦ panicked
  | some node ↦ elim (o.join_error id) [
    | some e ↦ raised (format ("task join error: " ∷ e ∷ []))
    | none ↦
        let result = execute_node o env prior node in
        join_tasks o dag env prior rest record st {
          results = insert_result result st.results;
          completed = result.node_id ∷ st.completed;
        }
  ]
]

abbrev pub passed : String → Progress → Progress
passed other st = record st {
  results = insert_result (record { node_id = other; status = skipped; output = "" }) st.results;
  passed_over = other ∷ st.passed_over;
}

-- The loop over the predecessors of a successor.
unfoldable pub pass_over : String → List String → Progress → Progress
pass_over id [] st = st
pass_over id (other ∷ rest) st =
    pass_over id rest
      (if not (str_eq other id) && not (is_done st other) then passed other st else st)

abbrev pub is_one_success : TriggerRule → Bool
is_one_success one_success = true
is_one_success all_success = false

-- The loop over the successors of a node that has succeeded.
unfoldable pub pass_over_others : WorkflowDag → String → List String → Progress → Run Progress
unfolding pass_over
pass_over_others dag id [] st = finished st
pass_over_others dag id (next ∷ rest) st = elim (node_of dag.nodes next) [
  | none ↦ panicked
  | some node ↦ elim (is_one_success (trigger_rule node) && not (is_done st next)) [
    | false ↦ pass_over_others dag id rest st
    | true ↦ elim (incoming_of dag next) [
      | none ↦ panicked
      | some preds ↦ pass_over_others dag id rest (pass_over id preds st)
    ]
  ]
]

-- The loop over the nodes of the wave.
unfoldable pub settle_wave : WorkflowDag → List String → Progress → Run Progress
unfolding pass_over_others
settle_wave dag [] st = finished st
settle_wave dag (id ∷ rest) st = elim (result_of st.results id) [
  | none ↦ settle_wave dag rest st
  | some r ↦ elim (is_success r.status) [
    | false ↦ settle_wave dag rest st
    | true ↦ elim (outgoing_of dag id) [
      | none ↦ panicked
      | some nexts ↦ pass_over_others dag id nexts st >>= settle_wave dag rest
    ]
  ]
]

unfoldable pub wave : Outside → WorkflowDag → Env → List String → Progress → Run Progress
unfolding join_tasks settle_wave
wave o dag env ready st =
    join_tasks o dag env st.results (o.arrival ready) st >>= settle_wave dag ready

unfoldable pub wave_loop : Outside → WorkflowDag → Env → List String → ℕ → Progress → Run Progress
unfolding ready_nodes wave
wave_loop o dag env order zero st = do
  ready ← ready_nodes dag st order
  if is_empty ready then finished st else out_of_fuel
wave_loop o dag env order (suc fuel) st = do
  ready ← ready_nodes dag st order
  elim ready [
    | [] ↦ finished st
    | id ∷ rest ↦ wave o dag env (id ∷ rest) st >>= wave_loop o dag env order fuel
  ]

unfoldable pub final_results : List NodeResult → List String → List NodeResult
final_results results [] = []
final_results results (id ∷ rest) =
    unwrap_or (result_of results id) (record { node_id = id; status = skipped; output = "" })
    ∷ final_results results rest

-- `merged_env` is the executor's, with the DAG's over it. There are no more waves than nodes.
unfoldable pub run_inner : ℕ → Outside → Env → WorkflowDag → Run (List NodeResult)
unfolding topological_order wave_loop final_results
run_inner rounds o env dag = do
  order ← topological_order rounds dag
  last ←
      wave_loop o dag (dag.env ++ env) order (length order)
        (record { results = []; completed = []; passed_over = [] })
  finished (final_results last.results order)
