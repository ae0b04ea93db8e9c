-- ===== src/Dag/Sort/Order.antt =====
-- The order of the topological sort respects the edges (src/workflow/dag/executor.rs).
use mathlib.Core.Path.{subst}
use hymenium.Prelude.{
  ℕ, zero, suc, String, Bool, true, false, ◌||◌, some, List, [], ◌∷◌, ◌++◌, ◌≡◌, refl, arith,
  member, str_eq, eq_iff, str_eq-same, member-append, member-without, is_empty, length, ◌==◌, ◌⊎◌,
  inl, inr, Bool-cases, Option-cases, if◌then◌else◌,
}
use hymenium.Dag.{DagEdge, WorkflowDag}
use hymenium.Dag.Sort.Setup.{List-cases, bind-finished, member-incoming_of, roots_lem, entry_of}
use hymenium.Dag.Validation.{has_edge}
use hymenium.Dag.Sort.{
  finished, Adjacency, incoming_of, outgoing_of, Sorting, roots, relaxed, relax, popped, sort_loop,
  topological_order,
}

-- Where `b` occurs, `a` has occurred before.
abbrev pub precedes : String → String → List String → Bool
precedes a b [] = true
precedes a b (x ∷ xs) = if str_eq x b then false else if str_eq x a then true else precedes a b xs

precedes-snoc :
    (a b : String) (xs : List String) (x : String)
    → precedes a b xs ≡ true
    → (str_eq x b ≡ true → member a xs ≡ true)
    → precedes a b (xs ++ x ∷ []) ≡ true
precedes-snoc a b [] x p h = ground (arith, h)
precedes-snoc a b (y ∷ xs) x p h =
    ground (arith, precedes-snoc a b xs x, h, eq_iff x b, eq_iff y a, eq_iff y b)

-- What the sort keeps between two steps.
pub record IsOrdered (edges : List DagEdge) (st : Sorting) : Type 0 where
  pub waiting :
      (a b : String)
      → has_edge a b edges ≡ true
      → (member a st.topo_order || member a (entry_of st.incoming b)) ≡ true
  pub settled : (b : String) → member b st.queue ≡ true → is_empty (entry_of st.incoming b) ≡ true
  pub ordered : (a b : String) → has_edge a b edges ≡ true → precedes a b st.topo_order ≡ true

relaxed-IsOrdered :
    (edges : List DagEdge) (id next : String) (preds : List String) (st : Sorting)
    → IsOrdered edges st
    → member id st.topo_order ≡ true
    → st.incoming next ≡ some preds
    → IsOrdered edges (relaxed id next preds st)
relaxed-IsOrdered edges id next preds st w m e = record {
  waiting = λ a b h.
      ground (arith, w.waiting a b h, member-without id a preds, eq_iff next b, eq_iff a id);
  settled = λ b h. ground (arith, w.settled b, member-append b st.queue (next ∷ []), eq_iff next b);
  ordered = w.ordered;
}

-- Taking the next node from the queue.
popped-IsOrdered :
    (edges : List DagEdge) (id : String) (rest : List String) (st : Sorting)
    → IsOrdered edges st
    → st.queue ≡ id ∷ rest
    → IsOrdered edges (popped id rest st)
popped-IsOrdered edges id rest st w q =
    let free : is_empty (entry_of st.incoming id) ≡ true =
      w.settled id (ground (arith, q, str_eq-same id)) in
    record {
      waiting = λ a b h. ground (arith, w.waiting a b h, member-append a st.topo_order (id ∷ []));
      settled = λ b h. w.settled b (ground (arith, q));
      ordered = λ a b h.
          precedes-snoc a b st.topo_order id (w.ordered a b h)
            λ same. ground (arith, w.waiting a b h, free, eq_iff id b);
    }

relax-cons :
    (id next : String) (rest : List String) (st out : Sorting)
    → relax id (next ∷ rest) st ≡ finished out
    → (preds : List String) × (st.incoming next ≡ some preds)
      × (relax id rest (relaxed id next preds st) ≡ finished out)
unfolding relax
relax-cons id next rest st out e = elim (Option-cases (st.incoming next)) [
  | inl n ↦ ground (arith, e, n)
  | inr (preds, p) ↦ (preds, p, ground (arith, e, p))
]

relax-IsOrdered :
    (edges : List DagEdge) (id : String) (nexts : List String) (st out : Sorting)
    → IsOrdered edges st
    → member id st.topo_order ≡ true
    → relax id nexts st ≡ finished out
    → IsOrdered edges out
unfolding relax
relax-IsOrdered edges id [] st out w m e =
    let same : st ≡ out = cc in subst (IsOrdered edges) same w
relax-IsOrdered edges id (next ∷ rest) st out w m e =
    let (preds, p, go) = relax-cons id next rest st out e in
    relax-IsOrdered edges id rest (relaxed id next preds st) out
      (relaxed-IsOrdered edges id next preds st w m p) m go

-- A round that takes a node.
pub record Round (outgoing : Adjacency) (fuel : ℕ) (st : Sorting) (order : List String)
    : Type 0 where
  pub id : String
  pub rest : List String
  pub nexts : List String
  pub out : Sorting
  pub queued : st.queue ≡ id ∷ rest
  pub followed : outgoing id ≡ some nexts
  pub relaxing : relax id nexts (popped id rest st) ≡ finished out
  pub going_on : sort_loop outgoing fuel out ≡ finished order

sort_loop-zero :
    (outgoing : Adjacency) (st : Sorting) (order : List String)
    → sort_loop outgoing zero st ≡ finished order
    → st.topo_order ≡ order
unfolding sort_loop
sort_loop-zero outgoing st order e = ground (arith, e)

sort_loop-suc :
    (outgoing : Adjacency) (fuel : ℕ) (st : Sorting) (order : List String)
    → sort_loop outgoing (suc fuel) st ≡ finished order
    → (st.topo_order ≡ order) ⊎ Round outgoing fuel st order
unfolding sort_loop
sort_loop-suc outgoing fuel st order e = elim (List-cases st.queue) [
  | inl q ↦ inl (ground (arith, e, q))
  | inr (id, rest, q) ↦ elim (Option-cases (outgoing id)) [
    | inl n ↦ ground (arith, e, q, n)
    | inr (nexts, o) ↦
        let (out, r, go) =
          bind-finished (relax id nexts (popped id rest st)) (sort_loop outgoing fuel) order
            (ground (arith, e, q, o)) in
        inr (record {
          id = id;
          rest = rest;
          nexts = nexts;
          out = out;
          queued = q;
          followed = o;
          relaxing = r;
          going_on = go;
        })
  ]
]

sort_loop-IsOrdered :
    (edges : List DagEdge) (outgoing : Adjacency) (fuel : ℕ) (st : Sorting) (order : List String)
    → IsOrdered edges st
    → sort_loop outgoing fuel st ≡ finished order
    → (a b : String) → has_edge a b edges ≡ true
    → precedes a b order ≡ true
sort_loop-IsOrdered edges outgoing zero st order w e a b h =
    let same = sort_loop-zero outgoing st order e in
    subst (λ o. precedes a b o ≡ true) same (w.ordered a b h)
sort_loop-IsOrdered edges outgoing (suc fuel) st order w e a b h =
    elim (sort_loop-suc outgoing fuel st order e) [
      | inl same ↦ subst (λ o. precedes a b o ≡ true) same (w.ordered a b h)
      | inr r ↦
          let start = popped-IsOrdered edges r.id r.rest st w r.queued in
          let next =
            relax-IsOrdered edges r.id r.nexts (popped r.id r.rest st) r.out start
              (ground (arith, member-append r.id st.topo_order (r.id ∷ []), str_eq-same r.id))
              r.relaxing in
          sort_loop-IsOrdered edges outgoing fuel r.out order next r.going_on a b h
    ]

pub start-IsOrdered :
    (dag : WorkflowDag) (queue : List String)
    → roots (incoming_of dag) dag.nodes ≡ finished queue
    → IsOrdered dag.edges (record { queue = queue; incoming = incoming_of dag; topo_order = [] })
start-IsOrdered dag queue r = record {
  waiting = λ a b h. ground (arith, member-incoming_of dag a b, h);
  settled = λ b h. ground (arith, roots_lem (incoming_of dag) dag.nodes queue b r, h);
  ordered = λ a b h. refl;
}

-- Where the sort gives an order: the order has the length of the node list, and for each edge of
-- the DAG, the edge's target occurs in the order only after the edge's source has occurred.
pub topological_order-precedes :
    (rounds : ℕ) (dag : WorkflowDag) (order : List String) (a b : String)
    → topological_order rounds dag ≡ finished order
    → has_edge a b dag.edges ≡ true
    → (length order ≡ length dag.nodes) × (precedes a b order ≡ true)
unfolding topological_order
topological_order-precedes rounds dag order a b e h =
    let (queue, r, k) = bind-finished (roots (incoming_of dag) dag.nodes) _ order e in
    let (found, s, t) = bind-finished (sort_loop (outgoing_of dag) rounds _) _ order k in
    elim (Bool-cases (length found == length dag.nodes)) [
      | inl y ↦
          let same : found ≡ order = ground (arith, y, t) in
          let st = start-IsOrdered dag queue r in
          (
            ground (arith, y, same),
            subst (λ o. precedes a b o ≡ true) same
                (sort_loop-IsOrdered dag.edges (outgoing_of dag) rounds _ found st s a b h),
          )
      | inr n ↦ ground (arith, n, t)
    ]
