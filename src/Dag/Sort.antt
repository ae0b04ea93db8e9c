-- ===== src/Dag/Sort.antt =====
-- The topological sort of `run_inner` (src/workflow/dag/executor.rs).
pub mod Order
pub mod Setup
mod Steps
mod Ends
pub mod Cycle
use hymenium.Prelude.{
  ℕ, zero, suc, ◌+◌, ◌-◌, ◌%◌, ◌^◌, String, Bool, true, false, not, Option, none, some, List, [],
  ◌∷◌, ◌++◌, filter, is_empty, str_eq, length, unwrap_or, format, decimal, without, ◌==◌,
  if◌then◌else◌,
}
use hymenium.Dag.{DagNode, DagEdge, node_id, WorkflowDag}

-- How the code ends: with a value, with an error, or in a panic. `out_of_fuel` is the model's own.
pub data Run (A : Type 0) : Type 0 where
  finished : A → Run A
  raised : String → Run A
  panicked out_of_fuel : Run A

infixl 10 ◌>>=◌
abbrev pub ◌>>=◌ : {A B : Type 0} → Run A → (A → Run B) → Run B
finished a >>= f = f a
raised e >>= f = raised e
panicked >>= f = panicked
out_of_fuel >>= f = out_of_fuel

-- A `HashMap` from IDs to lists of IDs.
abbrev pub Adjacency : Type 0
Adjacency = String → Option (List String)

abbrev pub no_entries : Adjacency
no_entries x = none

abbrev pub insert : String → List String → Adjacency → Adjacency
insert k v m x = if str_eq k x then some v else m x

-- `entry(k).or_default().push(v)`.
abbrev pub push : String → String → Adjacency → Adjacency
push k v m = insert k (unwrap_or (m k) [] ++ v ∷ []) m

-- The loop over the nodes that gives each an empty list.
unfoldable pub with_nodes : List DagNode → Adjacency → Adjacency
with_nodes [] m = m
with_nodes (n ∷ rest) m = with_nodes rest (insert (node_id n) [] m)

unfoldable pub with_incoming : List DagEdge → Adjacency → Adjacency
with_incoming [] m = m
with_incoming (e ∷ rest) m = with_incoming rest (push e.to e.from m)

unfoldable pub with_outgoing : List DagEdge → Adjacency → Adjacency
with_outgoing [] m = m
with_outgoing (e ∷ rest) m = with_outgoing rest (push e.from e.to m)

unfoldable pub incoming_of : WorkflowDag → Adjacency
unfolding with_nodes with_incoming
incoming_of dag = with_incoming dag.edges (with_nodes dag.nodes no_entries)

unfoldable pub outgoing_of : WorkflowDag → Adjacency
unfolding with_nodes with_outgoing
outgoing_of dag = with_outgoing dag.edges (with_nodes dag.nodes no_entries)

pub record Sorting : Type 0 where
  pub queue : List String
  pub incoming : Adjacency
  pub topo_order : List String

-- The first nodes of the queue: those with nothing incoming.
unfoldable pub roots : Adjacency → List DagNode → Run (List String)
roots incoming [] = finished []
roots incoming (n ∷ rest) = do
  found ← roots incoming rest
  elim (incoming (node_id n)) [
    | none ↦ panicked
    | some preds ↦ finished (if is_empty preds then node_id n ∷ found else found)
  ]

-- `retain` on one successor, which is queued once nothing is left incoming.
abbrev pub relaxed : String → String → List String → Sorting → Sorting
relaxed id next preds st =
    let left = without id preds in
    record st {
      incoming = insert next left st.incoming;
      queue = if is_empty left then st.queue ++ next ∷ [] else st.queue;
    }

-- The loop over the successors of the node taken from the queue.
unfoldable pub relax : String → List String → Sorting → Run Sorting
relax id [] st = finished st
relax id (next ∷ rest) st = elim (st.incoming next) [
  | none ↦ raised (format ("DAG edge references unknown node: " ∷ next ∷ []))
  | some preds ↦ relax id rest (relaxed id next preds st)
]

-- `pop_front` of a queue that is not empty.
abbrev pub popped : String → List String → Sorting → Sorting
popped id rest st = record st { queue = rest; topo_order = st.topo_order ++ id ∷ [] }

unfoldable pub sort_loop : Adjacency → ℕ → Sorting → Run (List String)
unfolding relax
sort_loop outgoing zero st = if is_empty st.queue then finished st.topo_order else out_of_fuel
sort_loop outgoing (suc fuel) st = elim st.queue [
  | [] ↦ finished st.topo_order
  | id ∷ rest ↦ elim (outgoing id) [
    | none ↦ panicked
    | some nexts ↦ relax id nexts (popped id rest st) >>= sort_loop outgoing fuel
  ]
]

-- The difference of two `usize` wraps around, as where an order is longer than the list of nodes.
unfoldable pub cycle_error : ℕ → ℕ → String
cycle_error nodes sorted = format (
    "workflow DAG contains a cycle; "
    ∷ decimal ((nodes + (2 ^ 64 - sorted)) % 2 ^ 64)
    ∷ " node(s) are unreachable"
    ∷ [])

-- `rounds` bounds the nodes taken from the queue.
unfoldable pub topological_order : ℕ → WorkflowDag → Run (List String)
unfolding roots sort_loop incoming_of outgoing_of cycle_error
topological_order rounds dag = do
  queue ← roots (incoming_of dag) dag.nodes
  order ←
      sort_loop (outgoing_of dag) rounds
        (record { queue = queue; incoming = incoming_of dag; topo_order = [] })
  if length order == length dag.nodes
      then finished order
      else raised (cycle_error (length dag.nodes) (length order))
