-- ===== src/Examples/Graphs.antt =====
-- A small DAG: sorted, and executed.
use hymenium.Prelude.{◌≡◌, ◌↔◌, refl, String, true, false, arith, length, none, List, [], ◌∷◌, map}
use hymenium.Dag.{DagNode, bash, DagEdge, WorkflowDag, TriggerRule, all_success, validate_dag}
use hymenium.Dag.Validation.{is_well_formed, validate_dag-is_well_formed}
use hymenium.Dag.Sort.{finished, raised, cycle_error, topological_order}
use hymenium.Dag.Sort.Order.{precedes, topological_order-precedes}
use hymenium.Dag.Sort.Cycle.{IsSorted, topological_order-IsSorted}
use hymenium.Dag.Node.{Outside, execute_node, exited, success}
use hymenium.Dag.Waves.{run_inner}
use hymenium.Dag.Waves.Steps.{Yields}
use hymenium.Dag.Waves.Executed.{IsExecuted, run_inner-IsExecuted}

abbrev step : String → TriggerRule → DagNode
step id rule = bash (record { id = id; command = id; trigger_rule = rule; idle_timeout = none })

abbrev edge : String → String → DagEdge
edge a b = record { from = a; to = b }

-- Two checks after a build, and a release that waits for both.
abbrev release : WorkflowDag
release = record {
  workflow_id = "release";
  name = "release";
  description = "";
  nodes =
      step "publish" all_success
      ∷ step "build" all_success
      ∷ step "lint" all_success
      ∷ step "test" all_success
      ∷ [];
  edges =
      edge "build" "lint"
      ∷ edge "build" "test"
      ∷ edge "lint" "publish"
      ∷ edge "test" "publish"
      ∷ [];
  env = [];
}

-- Each shell command succeeds and prints the node's ID, and tasks end as they were started.
abbrev calm : Outside
calm = record {
  shell = λ id text env. record { ending = exited true id; overruns = λ n. false };
  which = λ s. none;
  spawn = λ id path args. record { ending = exited true id; overruns = λ n. false };
  read_line = λ id. none;
  trim_lowercase = λ s. s;
  iteration = λ rs. rs;
  arrival = λ ids. ids;
  join_error = λ id. none;
}

abbrev ordered : List String
ordered = "build" ∷ "lint" ∷ "test" ∷ "publish" ∷ []

release-order : topological_order 4 release ≡ finished ordered
unfolding topological_order
release-order = refl

release-valid : validate_dag release ≡ none
unfolding validate_dag
release-valid = refl

-- An edge that is given twice makes the count of the order wrong.
abbrev doubled : WorkflowDag
doubled = record release {
  nodes = step "a" all_success ∷ step "b" all_success ∷ [];
  edges = edge "a" "b" ∷ edge "a" "b" ∷ [];
}

doubled-order : topological_order 3 doubled ≡ raised (cycle_error 2 3)
unfolding topological_order
doubled-order = refl

topological_order-precedes_example :
    (length ordered ≡ 4) × (precedes "lint" "publish" ordered ≡ true)
topological_order-precedes_example =
    topological_order-precedes 4 release ordered "lint" "publish" release-order refl

topological_order-IsSorted_example : IsSorted 4 release
topological_order-IsSorted_example =
    topological_order-IsSorted 4 release release-valid refl (omega arith)

run_inner-IsExecuted_example : Yields (run_inner 4 calm [] release) (IsExecuted release ordered)
run_inner-IsExecuted_example =
    run_inner-IsExecuted 4 calm [] release ordered (λ ids y. refl) release-valid refl (omega arith)
      release-order

release-results :
    run_inner 4 calm [] release
    ≡ finished
        (map (λ (id : String). record { node_id = id; status = success; output = id }) ordered)
unfolding run_inner execute_node
release-results = refl

validate_dag-is_well_formed_example :
    (validate_dag release ≡ none) ↔ (is_well_formed release ≡ true)
validate_dag-is_well_formed_example = validate_dag-is_well_formed release
