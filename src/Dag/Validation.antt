-- ===== src/Dag/Validation.antt =====
-- What a validated DAG satisfies (src/workflow/dag/loader.rs).
use hymenium.Prelude.{
  String, Bool, true, not, ◌&&◌, none, List, [], ◌∷◌, ◌≡◌, refl, arith, ◌↔◌, any, all, member,
  is_distinct, str_eq, eq_iff,
}
use hymenium.Dag.{
  DagEdge, DagNode, WorkflowDag, node_id, ids_of, check_ids, check_edges, validate_dag,
}

abbrev pub has_edge : String → String → List DagEdge → Bool
has_edge a b = any (λ e. str_eq e.from a && str_eq e.to b)

-- No two edges between the same nodes in the same direction.
abbrev pub no_repeated_edge : List DagEdge → Bool
no_repeated_edge [] = true
no_repeated_edge (e ∷ es) = not (has_edge e.from e.to es) && no_repeated_edge es

abbrev pub known_edge : List String → DagEdge → Bool
known_edge ids e = member e.from ids && member e.to ids

-- The IDs are distinct, and the edges join nodes of the DAG.
abbrev pub is_well_formed : WorkflowDag → Bool
is_well_formed dag = is_distinct (ids_of dag.nodes) && all (known_edge (ids_of dag.nodes)) dag.edges

-- No ID of the nodes is in the set.
abbrev all_new : List String → List DagNode → Bool
all_new seen = all (λ n. not (member (node_id n) seen))

all_new-cons :
    (x : String) (seen : List String) (ns : List DagNode)
    → all_new (x ∷ seen) ns ≡ (not (member x (ids_of ns)) && all_new seen ns)
all_new-cons x seen [] = refl
all_new-cons x seen (n ∷ ns) =
    ground (arith, all_new-cons x seen ns, eq_iff x (node_id n), eq_iff (node_id n) x)

check_ids_lem :
    (seen : List String) (ns : List DagNode)
    → (check_ids seen ns ≡ none) ↔ ((is_distinct (ids_of ns) && all_new seen ns) ≡ true)
unfolding check_ids
check_ids_lem seen [] = ground arith
check_ids_lem seen (n ∷ ns) =
    ground (arith, check_ids_lem (node_id n ∷ seen) ns, all_new-cons (node_id n) seen ns)

check_edges_lem :
    (ids : List String) (es : List DagEdge)
    → (check_edges ids es ≡ none) ↔ (all (known_edge ids) es ≡ true)
unfolding check_edges
check_edges_lem ids [] = ground arith
check_edges_lem ids (x ∷ es) = ground (arith, check_edges_lem ids es)

all_new-nil : (ns : List DagNode) → all_new [] ns ≡ true
all_new-nil [] = refl
all_new-nil (n ∷ ns) = all_new-nil ns

-- The validation of a DAG reports no error exactly when the node IDs are pairwise distinct and
-- both ends of each edge are IDs of nodes.
pub validate_dag-is_well_formed :
    (dag : WorkflowDag) → (validate_dag dag ≡ none) ↔ (is_well_formed dag ≡ true)
unfolding validate_dag
validate_dag-is_well_formed dag = ground (
  arith,
  check_ids_lem [] dag.nodes,
  all_new-nil dag.nodes,
  check_edges_lem (ids_of dag.nodes) dag.edges,
)

pub known_edge-has_edge :
    (ids : List String) (es : List DagEdge) (a b : String)
    → all (known_edge ids) es ≡ true
    → has_edge a b es ≡ true
    → (member a ids ≡ true) × (member b ids ≡ true)
known_edge-has_edge ids [] a b k h = ground (arith, h)
known_edge-has_edge ids (x ∷ es) a b k h =
    ground (arith, k, h, known_edge-has_edge ids es a b, eq_iff x.from a, eq_iff x.to b)
