-- ===== src/Dag/Sort/Ends.antt =====
-- The loop of the topological sort ends within one round for each node
-- (src/workflow/dag/executor.rs).
use hymenium.Prelude.{
  ℕ, zero, suc, ◌+◌, ◌≤◌, String, true, List, [], ◌∷◌, ◌≡◌, arith, inl, inr, all, member,
  is_distinct, is_distinct-length, str_eq-same, member-append, length, length-append, Option-cases,
}
use hymenium.Dag.{DagEdge, WorkflowDag, ids_of}
use hymenium.Dag.Validation.{has_edge, no_repeated_edge, known_edge, known_edge-has_edge}
use hymenium.Dag.Sort.Setup.{
  List-cases, member-outgoing_of, is_distinct-outgoing_of, has_key-outgoing_of, has_key-incoming_of,
  member-incoming_of, roots_lem, is_distinct-roots,
}
use hymenium.Dag.Sort.Steps.{placed, IsSorting, popped-IsSorting, relax-IsSorting}
use hymenium.Dag.Sort.{finished, incoming_of, outgoing_of, Sorting, roots, popped, sort_loop}

-- The loop has ended with these nodes in its order.
pub record IsEnded (dag : WorkflowDag) (fuel : ℕ) (st : Sorting) : Type 0 where
  pub last : Sorting
  pub id : String
  pub ends : sort_loop (outgoing_of dag) fuel st ≡ finished last.topo_order
  pub drained : last.queue ≡ []
  pub sorted : IsSorting (ids_of dag.nodes) dag.edges id [] last

length-placed :
    (ids : List String) (edges : List DagEdge) (id : String) (st : Sorting)
    → IsSorting ids edges id [] st
    → length st.topo_order + length st.queue ≤ length ids
length-placed ids edges id st w = omega (
  arith,
  is_distinct-length (placed st) ids w.distinct w.known,
  length-append st.topo_order st.queue,
)

pub sort_loop-IsEnded :
    (dag : WorkflowDag) (fuel : ℕ) (id : String) (st : Sorting)
    → all (known_edge (ids_of dag.nodes)) dag.edges ≡ true
    → no_repeated_edge dag.edges ≡ true
    → IsSorting (ids_of dag.nodes) dag.edges id [] st
    → length (ids_of dag.nodes) ≤ length st.topo_order + fuel
    → IsEnded dag fuel st
unfolding sort_loop
sort_loop-IsEnded dag zero id st k n w f = elim (List-cases st.queue) [
  | inl q ↦ record { last = st; id = id; ends = ground (arith, q); drained = q; sorted = w }
  | inr (x, rest, q) ↦ ground (arith, q, f, length-placed (ids_of dag.nodes) dag.edges id st w)
]
sort_loop-IsEnded dag (suc fuel) id st k n w f = elim (List-cases st.queue) [
  | inl q ↦ record { last = st; id = id; ends = ground (arith, q); drained = q; sorted = w }
  | inr (x, rest, q) ↦
      let here : member x (ids_of dag.nodes) ≡ true =
        w.known x (ground (arith, member-append x st.topo_order st.queue, q, str_eq-same x)) in
      elim (Option-cases (outgoing_of dag x)) [
        | inl none_there ↦ ground (arith, none_there, here, has_key-outgoing_of dag x)
        | inr (nexts, o) ↦
            let follows : (b : String) → member b nexts ≡ has_edge x b dag.edges =
              λ b. ground (arith, member-outgoing_of dag x b, o) in
            let start =
              popped-IsSorting (ids_of dag.nodes) dag.edges id x rest nexts st w q follows in
            let (out, r, i, t) =
              relax-IsSorting (ids_of dag.nodes) dag.edges x nexts (popped x rest st) start
                (ground (arith, o, is_distinct-outgoing_of dag x n))
                (λ b m.
                  ground
                    (arith, m, follows b, k, known_edge-has_edge (ids_of dag.nodes) dag.edges x b))
                (ground (arith, member-append x st.topo_order (x ∷ []), str_eq-same x)) in
            let e =
              sort_loop-IsEnded dag fuel x out k n i
                (ground (arith, f, t, length-append st.topo_order (x ∷ []))) in
            record {
              last = e.last;
              id = e.id;
              ends = ground (arith, q, o, r, e.ends);
              drained = e.drained;
              sorted = e.sorted;
            }
      ]
]

pub start-IsSorting :
    (dag : WorkflowDag) (queue : List String)
    → is_distinct (ids_of dag.nodes) ≡ true
    → roots (incoming_of dag) dag.nodes ≡ finished queue
    → all (known_edge (ids_of dag.nodes)) dag.edges ≡ true
    → IsSorting
        (ids_of dag.nodes)
        dag.edges
        ""
        []
        (record { queue = queue; incoming = incoming_of dag; topo_order = [] })
start-IsSorting dag queue d r k = record {
  distinct = is_distinct-roots (incoming_of dag) dag.nodes queue d r;
  known = λ b m. ground (arith, m, roots_lem (incoming_of dag) dag.nodes queue b r);
  keyed = λ b m. has_key-incoming_of dag b m;
  settled = λ b m. ground (arith, m, roots_lem (incoming_of dag) dag.nodes queue b r);
  complete = λ b m f. ground (arith, m, f, roots_lem (incoming_of dag) dag.nodes queue b r);
  waiting = λ a b. ground (arith, member-incoming_of dag a b);
}
