-- ===== src/Dag/Sort/Cycle.antt =====
-- The topological sort reports a cycle only where there is one
-- (src/workflow/dag/executor.rs).
use mathlib.Core.Path.{subst}
use mathlib.Core.List.{append-nil}
use hymenium.Prelude.{
  ℕ, suc, ◌≤◌, String, Bool, true, false, not, ◌&&◌, none, List, [], ◌∷◌, ◌++◌, ◌≡◌, refl, sym, ap,
  ◌∙◌, arith, ◌⊎◌, inl, inr, all, member, is_distinct, is_distinct-length, eq_iff, str_eq-same,
  member-append, is_empty, length, Bool-cases,
}
use hymenium.Dag.{DagNode, WorkflowDag, ids_of, validate_dag}
use hymenium.Dag.Validation.{
  has_edge, no_repeated_edge, known_edge, known_edge-has_edge, validate_dag-is_well_formed,
}
use hymenium.Dag.Sort.Setup.{entry_of, has_key-incoming_of, roots-finished}
use hymenium.Dag.Sort.Steps.{placed, IsSorting}
use hymenium.Dag.Sort.Ends.{sort_loop-IsEnded, start-IsSorting}
use hymenium.Dag.Sort.{finished, raised, incoming_of, Sorting, topological_order, cycle_error}

-- Some nodes, and one at least, of which each has an edge from another one or itself.
abbrev HasCycle : WorkflowDag → Type 0
HasCycle dag =
    (stuck : String → Bool) × ((x : String) × (stuck x ≡ true))
    × ((b : String)
        → stuck b ≡ true
        → (member b (ids_of dag.nodes) ≡ true)
          × ((a : String) × (stuck a ≡ true) × (has_edge a b dag.edges ≡ true)))

-- The order holds each node of the DAG once, and nothing else.
abbrev pub IsEnumeration : WorkflowDag → List String → Type 0
IsEnumeration dag order =
    (is_distinct order ≡ true) × ((b : String) → member b order ≡ member b (ids_of dag.nodes))

all-member :
    (xs ys : List String)
    → ((b : String) → member b xs ≡ true → member b ys ≡ true)
      ⊎ ((b : String) × (member b xs ≡ true) × (member b ys ≡ false))
all-member [] ys = inl (λ b m. ground (arith, m))
all-member (x ∷ xs) ys = elim (Bool-cases (member x ys)) [
  | inr f ↦ inr (x, ground (arith, str_eq-same x), f)
  | inl t ↦ elim (all-member xs ys) [
    | inl g ↦ inl (λ b m. ground (arith, m, g b, t, eq_iff x b))
    | inr (b, m, f) ↦ inr (b, ground (arith, m), f)
  ]
]

length-ids_of : (ns : List DagNode) → length (ids_of ns) ≡ length ns
length-ids_of [] = refl
length-ids_of (n ∷ ns) = ap suc (length-ids_of ns)

first-member : (xs : List String) → is_empty xs ≡ false → (a : String) × (member a xs ≡ true)
first-member [] e = ground (arith, e)
first-member (x ∷ xs) e = (x, ground (arith, str_eq-same x))

-- A finished sort that leaves a node out has found a cycle.
left_out-HasCycle :
    (dag : WorkflowDag) (id : String) (last : Sorting) (x : String)
    → IsSorting (ids_of dag.nodes) dag.edges id [] last
    → last.queue ≡ []
    → member x (ids_of dag.nodes) ≡ true
    → member x last.topo_order ≡ false
    → all (known_edge (ids_of dag.nodes)) dag.edges ≡ true
    → HasCycle dag
left_out-HasCycle dag id last x w q m f k = (
  λ b. member b (ids_of dag.nodes) && not (member b last.topo_order),
  (x, ground (arith, m, f)),
  λ b h.
      let (a, i) =
        first-member (entry_of last.incoming b)
          (ground (arith, h, q, w.complete b, member-append b last.topo_order last.queue)) in
      (
        ground (arith, h),
        (
          a,
          ground (arith, i, w.waiting a b, k, known_edge-has_edge (ids_of dag.nodes) dag.edges a b),
          ground (arith, i, w.waiting a b),
        ),
      ),
)

abbrev pub IsSorted : ℕ → WorkflowDag → Type 0
IsSorted rounds dag =
    ((order : List String) × (topological_order rounds dag ≡ finished order)
      × IsEnumeration dag order)
    ⊎ (((e : String) × (topological_order rounds dag ≡ raised e)) × HasCycle dag)

-- For a DAG that the validation accepts and that has no edge twice, and where the bound on the
-- rounds is at least the number of nodes, the topological sort either
-- gives an order that holds each node's ID once and nothing else, or raises an error and the DAG
-- has a cycle: some nodes, one at least, of which each has an edge from one of them. So it neither
-- panics nor needs more rounds than there are nodes.
pub topological_order-IsSorted :
    (rounds : ℕ) (dag : WorkflowDag)
    → validate_dag dag ≡ none
    → no_repeated_edge dag.edges ≡ true
    → length dag.nodes ≤ rounds
    → IsSorted rounds dag
unfolding topological_order
topological_order-IsSorted rounds dag v n f =
    let (d, k) : (is_distinct (ids_of dag.nodes) ≡ true)
        × (all (known_edge (ids_of dag.nodes)) dag.edges ≡ true) =
      ground (arith, v, validate_dag-is_well_formed dag) in
    let (queue, r) = roots-finished (incoming_of dag) dag.nodes (has_key-incoming_of dag) in
    let w = start-IsSorting dag queue d r k in
    let size = length-ids_of dag.nodes in
    let e = sort_loop-IsEnded dag rounds "" _ k n w (omega (arith, size, f)) in
    let o : List String = e.last.topo_order in
    let whole : placed e.last ≡ o = ap (λ q. o ++ q) e.drained ∙ append-nil o in
    let distinct : is_distinct o ≡ true = sym (ap is_distinct whole) ∙ e.sorted.distinct in
    let known : (b : String) → member b o ≡ true → member b (ids_of dag.nodes) ≡ true =
      λ b m. e.sorted.known b (ap (member b) whole ∙ m) in
    elim (all-member (ids_of dag.nodes) o) [
      | inl covered ↦
          let long = is_distinct-length (ids_of dag.nodes) o d covered in
          let short = is_distinct-length o (ids_of dag.nodes) distinct known in
          inl (
            o,
            ground (arith, r, e.ends, long, short, size),
            (distinct, λ b. ground (arith, covered b, known b)),
          )
      | inr (x, m, f) ↦
          let short =
            is_distinct-length (x ∷ o) (ids_of dag.nodes) (ground (arith, f, distinct))
              (λ b i. ground (arith, i, m, known b, eq_iff x b)) in
          inr (
            (cycle_error (length dag.nodes) (length o), ground (arith, r, e.ends, short, size)),
            left_out-HasCycle dag e.id e.last x e.sorted e.drained m f k,
          )
    ]

pub topological_order-IsEnumeration :
    (rounds : ℕ) (dag : WorkflowDag) (order : List String)
    → validate_dag dag ≡ none
    → no_repeated_edge dag.edges ≡ true
    → length dag.nodes ≤ rounds
    → topological_order rounds dag ≡ finished order
    → IsEnumeration dag order
topological_order-IsEnumeration rounds dag order v n f t =
    elim (topological_order-IsSorted rounds dag v n f) [
      | inl (found, e, w) ↦ let same : found ≡ order = cc in subst (IsEnumeration dag) same w
      | inr ((x, e), _) ↦ ground (arith, e, t)
    ]
