-- ===== src/Dag/Sort/Setup.antt =====
-- The maps and the first queue of the topological sort (src/workflow/dag/executor.rs).
use hymenium.Prelude.{
  String, Bool, true, false, ◌&&◌, ◌||◌, some, List, [], ◌∷◌, ◌≡◌, refl, arith, ◌⊎◌, inl, inr,
  member, is_distinct, eq_iff, str_eq-same, member-append, is_distinct-snoc, is_empty, is_some,
  unwrap_or, Option-cases, if◌then◌else◌,
}
use hymenium.Dag.{DagEdge, DagNode, WorkflowDag, node_id, ids_of}
use hymenium.Dag.Validation.{has_edge, no_repeated_edge}
use hymenium.Dag.Sort.{
  Run, finished, raised, panicked, out_of_fuel, ◌>>=◌, Adjacency, no_entries, insert, push,
  with_nodes, with_incoming, with_outgoing, incoming_of, outgoing_of, roots,
}

abbrev pub entry_of : Adjacency → String → List String
entry_of m x = unwrap_or (m x) []

abbrev pub has_key : String → Adjacency → Bool
has_key x m = is_some (m x)

has_key-push : (k v x : String) (m : Adjacency) → has_key x m ≡ true → has_key x (push k v m) ≡ true
has_key-push k v x m h = ground (arith, h)

with_nodes_lem :
    (ns : List DagNode) (m : Adjacency) (x : String)
    → with_nodes ns m x ≡ (if member x (ids_of ns) then some [] else m x)
unfolding with_nodes
with_nodes_lem [] m x = refl
with_nodes_lem (n ∷ ns) m x = ground (arith, with_nodes_lem ns (insert (node_id n) [] m) x)

has_key-with_incoming :
    (es : List DagEdge) (m : Adjacency) (x : String)
    → has_key x m ≡ true
    → has_key x (with_incoming es m) ≡ true
unfolding with_incoming
has_key-with_incoming [] m x h = h
has_key-with_incoming (e ∷ es) m x h =
    has_key-with_incoming es (push e.to e.from m) x (has_key-push e.to e.from x m h)

has_key-with_outgoing :
    (es : List DagEdge) (m : Adjacency) (x : String)
    → has_key x m ≡ true
    → has_key x (with_outgoing es m) ≡ true
unfolding with_outgoing
has_key-with_outgoing [] m x h = h
has_key-with_outgoing (e ∷ es) m x h =
    has_key-with_outgoing es (push e.from e.to m) x (has_key-push e.from e.to x m h)

member-with_incoming :
    (es : List DagEdge) (m : Adjacency) (a b : String)
    → member a (entry_of (with_incoming es m) b) ≡ (member a (entry_of m b) || has_edge a b es)
unfolding with_incoming
member-with_incoming [] m a b = ground arith
member-with_incoming (e ∷ es) m a b = ground (
  arith,
  member-with_incoming es (push e.to e.from m) a b,
  member-append a (entry_of m e.to) (e.from ∷ []),
  eq_iff e.to b,
)

member-with_outgoing :
    (es : List DagEdge) (m : Adjacency) (a b : String)
    → member b (entry_of (with_outgoing es m) a) ≡ (member b (entry_of m a) || has_edge a b es)
unfolding with_outgoing
member-with_outgoing [] m a b = ground arith
member-with_outgoing (e ∷ es) m a b = ground (
  arith,
  member-with_outgoing es (push e.from e.to m) a b,
  member-append b (entry_of m e.from) (e.to ∷ []),
  eq_iff e.from a,
)

is_distinct-with_outgoing :
    (es : List DagEdge) (m : Adjacency) (a : String)
    → is_distinct (entry_of m a) ≡ true
    → ((b : String) → member b (entry_of m a) ≡ true → has_edge a b es ≡ false)
    → no_repeated_edge es ≡ true
    → is_distinct (entry_of (with_outgoing es m) a) ≡ true
unfolding with_outgoing
is_distinct-with_outgoing [] m a d f n = d
is_distinct-with_outgoing (e ∷ es) m a d f n =
    is_distinct-with_outgoing es (push e.from e.to m) a
      (ground (
        arith,
        d,
        f e.to,
        is_distinct-snoc (entry_of m e.from) e.to,
        eq_iff e.from a,
        str_eq-same e.to,
      ))
      (λ b h. ground (
        arith,
        h,
        n,
        f b,
        member-append b (entry_of m e.from) (e.to ∷ []),
        eq_iff e.from a,
        eq_iff e.to b,
      ))
      (ground (arith, n))

-- At the start a node's entry of `incoming` holds the sources of its edges.
pub member-incoming_of :
    (dag : WorkflowDag) (a b : String)
    → member a (entry_of (incoming_of dag) b) ≡ has_edge a b dag.edges
unfolding incoming_of
member-incoming_of dag a b = ground (
  arith,
  member-with_incoming dag.edges (with_nodes dag.nodes no_entries) a b,
  with_nodes_lem dag.nodes no_entries b,
)

pub member-outgoing_of :
    (dag : WorkflowDag) (a b : String)
    → member b (entry_of (outgoing_of dag) a) ≡ has_edge a b dag.edges
unfolding outgoing_of
member-outgoing_of dag a b = ground (
  arith,
  member-with_outgoing dag.edges (with_nodes dag.nodes no_entries) a b,
  with_nodes_lem dag.nodes no_entries a,
)

pub has_key-incoming_of :
    (dag : WorkflowDag) (x : String)
    → member x (ids_of dag.nodes) ≡ true
    → has_key x (incoming_of dag) ≡ true
unfolding incoming_of
has_key-incoming_of dag x h =
    has_key-with_incoming dag.edges (with_nodes dag.nodes no_entries) x
      (ground (arith, h, with_nodes_lem dag.nodes no_entries x))

pub has_key-outgoing_of :
    (dag : WorkflowDag) (x : String)
    → member x (ids_of dag.nodes) ≡ true
    → has_key x (outgoing_of dag) ≡ true
unfolding outgoing_of
has_key-outgoing_of dag x h =
    has_key-with_outgoing dag.edges (with_nodes dag.nodes no_entries) x
      (ground (arith, h, with_nodes_lem dag.nodes no_entries x))

pub is_distinct-outgoing_of :
    (dag : WorkflowDag) (a : String)
    → no_repeated_edge dag.edges ≡ true
    → is_distinct (entry_of (outgoing_of dag) a) ≡ true
unfolding outgoing_of
is_distinct-outgoing_of dag a n =
    is_distinct-with_outgoing dag.edges (with_nodes dag.nodes no_entries) a
      (ground (arith, with_nodes_lem dag.nodes no_entries a))
      (λ b h. ground (arith, h, with_nodes_lem dag.nodes no_entries a)) n

pub List-cases :
    {A : Type 0} (xs : List A) → (xs ≡ []) ⊎ ((x : A) × (rest : List A) × (xs ≡ x ∷ rest))
List-cases [] = inl refl
List-cases (x ∷ rest) = inr (x, rest, refl)

pub bind-finished :
    {A B : Type 0} (m : Run A) (f : A → Run B) (b : B)
    → (m >>= f) ≡ finished b
    → (a : A) × (m ≡ finished a) × (f a ≡ finished b)
bind-finished (finished a) f b e = (a, refl, e)
bind-finished (raised x) f b e = cc
bind-finished panicked f b e = cc
bind-finished out_of_fuel f b e = cc

-- The first queue holds each node of the list that has nothing incoming.
pub roots_lem :
    (m : Adjacency) (ns : List DagNode) (queue : List String) (b : String)
    → roots m ns ≡ finished queue
    → member b queue ≡ (member b (ids_of ns) && is_empty (entry_of m b))
unfolding roots
roots_lem m [] queue b e = let same : [] ≡ queue = cc in ground (arith, same)
roots_lem m (n ∷ ns) queue b e =
    let (found, r, k) = bind-finished (roots m ns) _ queue e in
    elim (Option-cases (m (node_id n))) [
      | inl none_there ↦ ground (arith, none_there, k)
      | inr (preds, p) ↦ ground (arith, k, p, roots_lem m ns found b r, eq_iff (node_id n) b)
    ]

pub roots-finished :
    (m : Adjacency) (ns : List DagNode)
    → ((x : String) → member x (ids_of ns) ≡ true → has_key x m ≡ true)
    → (queue : List String) × (roots m ns ≡ finished queue)
unfolding roots
roots-finished m [] k = ([], refl)
roots-finished m (n ∷ ns) k =
    let (found, r) = roots-finished m ns (λ x h. k x (ground (arith, h))) in
    elim (Option-cases (m (node_id n))) [
      | inl none_there ↦ ground (arith, none_there, k (node_id n), str_eq-same (node_id n))
      | inr (preds, p) ↦ (if is_empty preds then node_id n ∷ found else found, ground (arith, r, p))
    ]

pub is_distinct-roots :
    (m : Adjacency) (ns : List DagNode) (queue : List String)
    → is_distinct (ids_of ns) ≡ true
    → roots m ns ≡ finished queue
    → is_distinct queue ≡ true
unfolding roots
is_distinct-roots m [] queue d e = let same : [] ≡ queue = cc in ground (arith, same)
is_distinct-roots m (n ∷ ns) queue d e =
    let (found, r, k) = bind-finished (roots m ns) _ queue e in
    elim (Option-cases (m (node_id n))) [
      | inl none_there ↦ ground (arith, none_there, k)
      | inr (preds, p) ↦
          ground
            (arith, k, p, d, is_distinct-roots m ns found, r, roots_lem m ns found (node_id n) r)
    ]
