-- ===== src/Dag/Waves/Executed.antt =====
-- What the execution of a DAG gives (src/workflow/dag/executor.rs).
use hymenium.Prelude.{
  ℕ, ◌≤◌, String, true, none, some, List, [], ◌∷◌, ◌++◌, ◌≡◌, refl, sym, ap, ◌∙◌, arith, inl, inr,
  map, length, member, eq_iff, unwrap_or, Option-cases, if◌then◌else◌,
}
use hymenium.Dag.{DagNode, ids_of, trigger_rule, WorkflowDag, Env, validate_dag}
use hymenium.Dag.Validation.{no_repeated_edge, known_edge-has_edge, validate_dag-is_well_formed}
use hymenium.Dag.Sort.{finished, ◌>>=◌, incoming_of, outgoing_of, topological_order}
use hymenium.Dag.Sort.Setup.{
  has_key-incoming_of, has_key-outgoing_of, member-outgoing_of, member-incoming_of,
}
use hymenium.Dag.Sort.Cycle.{topological_order-IsEnumeration}
use hymenium.Dag.Node.{NodeResult, Outside, skip}
use hymenium.Dag.Waves.{Progress, node_of, result_of, wave_loop, final_results, run_inner}
use hymenium.Dag.Waves.Gate.{has_run, gate-keeps, gate-Reason, Reason}
use hymenium.Dag.Waves.Named.{node_id-result_of}
use hymenium.Dag.Waves.Steps.{Yields, Yields-same, Yields-bind, IsProgress, IsComplete}
use hymenium.Dag.Waves.Loop.{unfinished-start, wave_loop-IsProgress}

validate_dag-IsComplete : (dag : WorkflowDag) → validate_dag dag ≡ none → IsComplete dag
validate_dag-IsComplete dag v = record {
  preds = λ x m. elim (Option-cases (incoming_of dag x)) [
    | inl n ↦ ground (arith, n, has_key-incoming_of dag x m)
    | inr found ↦ found
  ];
  nexts = λ x m. elim (Option-cases (outgoing_of dag x)) [
    | inl n ↦ ground (arith, n, has_key-outgoing_of dag x m)
    | inr (ys, o) ↦ (
      ys,
      o,
      λ y i. ground (
        arith,
        v,
        i,
        o,
        member-outgoing_of dag x y,
        validate_dag-is_well_formed dag,
        known_edge-has_edge (ids_of dag.nodes) dag.edges x y,
      ),
    )
  ];
}

node_id-unwrap_or :
    (results : List NodeResult) (x : String)
    → (unwrap_or (result_of results x) (skip x)).node_id ≡ x
node_id-unwrap_or results x = elim (Option-cases (result_of results x)) [
  | inl n ↦ ground (arith, n)
  | inr (r, e) ↦ ap (λ q. (unwrap_or q (skip x)).node_id) e ∙ node_id-result_of results x r e
]

result_of-final_results :
    (results : List NodeResult) (order : List String) (x : String)
    → result_of (final_results results order) x
      ≡ (if member x order then some (unwrap_or (result_of results x) (skip x)) else none)
unfolding final_results
result_of-final_results results [] x = refl
result_of-final_results results (id ∷ rest) x =
    ground
      (arith, result_of-final_results results rest x, node_id-unwrap_or results id, eq_iff id x)

node_id-final_results :
    (results : List NodeResult) (order : List String)
    → map (λ r. r.node_id) (final_results results order) ≡ order
unfolding final_results
node_id-final_results results [] = refl
node_id-final_results results (id ∷ rest) =
    ap (λ y. y ∷ map (λ r. r.node_id) (final_results results rest)) (node_id-unwrap_or results id)
    ∙ ap (◌∷◌ id) (node_id-final_results results rest)

-- The results are those of the order, and each node that has run had a reason to.
abbrev pub IsExecuted : WorkflowDag → List String → List NodeResult → Type 0
IsExecuted dag order rs =
    (map (λ r. r.node_id) rs ≡ order)
    × ((id : String) (node : DagNode)
        → node_of dag.nodes id ≡ some node
        → has_run rs id ≡ true
        → Reason dag rs id (trigger_rule node))

IsProgress-IsExecuted :
    (dag : WorkflowDag) (order : List String) (last : Progress)
    → validate_dag dag ≡ none
    → ((y : String) → member y order ≡ member y (ids_of dag.nodes))
    → IsProgress dag last.results last
    → IsExecuted dag order (final_results last.results order)
IsProgress-IsExecuted dag order last v m w =
    let rs : List NodeResult = final_results last.results order in
    (
      node_id-final_results last.results order,
      λ id node n h.
          let ran : has_run last.results id ≡ true =
            ground (arith, h, result_of-final_results last.results order id) in
          gate-Reason dag rs id node n (
            gate-keeps dag last.results rs id
              (λ x p s. ground (
                arith,
                s,
                p,
                m x,
                v,
                member-incoming_of dag x id,
                result_of-final_results last.results order x,
                validate_dag-is_well_formed dag,
                known_edge-has_edge (ids_of dag.nodes) dag.edges x id,
              ))
              (w.gated id (w.ran id ran))),
    )

-- For a DAG that the validation accepts and that has no edge twice, of which the topological sort,
-- in a bound of rounds not below the number of nodes, gives an order: where the tasks of a wave are joined in an order that names the same nodes,
-- the execution either ends in an error or gives one result for each node, in the order of the
-- sort, and each node whose result is not a skip had a reason to run among these results: with the
-- rule `all_success` every predecessor has succeeded, with `one_success` the node has no
-- predecessor or one has succeeded. So it neither panics nor needs more waves than there are nodes.
pub run_inner-IsExecuted :
    (rounds : ℕ) (o : Outside) (env : Env) (dag : WorkflowDag) (order : List String)
    → ((ids : List String) (y : String) → member y (o.arrival ids) ≡ member y ids)
    → validate_dag dag ≡ none
    → no_repeated_edge dag.edges ≡ true
    → length dag.nodes ≤ rounds
    → topological_order rounds dag ≡ finished order
    → Yields (run_inner rounds o env dag) (IsExecuted dag order)
unfolding run_inner
run_inner-IsExecuted rounds o env dag order a v n f t =
    let m : (y : String) → member y order ≡ member y (ids_of dag.nodes) =
      (topological_order-IsEnumeration rounds dag order v n f t).1 in
    let start : Progress = record { results = []; completed = []; passed_over = [] } in
    let loop = wave_loop o dag (dag.env ++ env) order (length order) start in
    Yields-same (run_inner rounds o env dag)
      (loop >>= λ last. finished (final_results last.results order)) (IsExecuted dag order)
      (ap
        (λ r. r >>= λ found. wave_loop o dag (dag.env ++ env) found (length found) start >>= λ last.
          finished (final_results last.results found))
        t)
      (Yields-bind loop (λ last. finished (final_results last.results order))
        (λ last. IsProgress dag last.results last) (IsExecuted dag order)
        (wave_loop-IsProgress o dag (dag.env ++ env) order (length order) start
          (validate_dag-IsComplete dag v) a (λ y i. sym (m y) ∙ i)
          (record {
            recorded = λ x h. ground (arith, h);
            ran = λ x h. ground (arith, h);
            gated = λ x h. ground (arith, h);
          })
          (unfinished-start order))
        λ last w.
          inr (final_results last.results order, refl, IsProgress-IsExecuted dag order last v m w))
