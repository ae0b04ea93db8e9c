-- ===== src/Dag/Sort/Steps.antt =====
-- What each step of the sort of a well-formed DAG keeps (src/workflow/dag/executor.rs).
use mathlib.Core.List.{append_assoc}
use hymenium.Prelude.{
  String, true, false, not, ◌&&◌, ◌||◌, some, List, [], ◌∷◌, ◌++◌, ◌≡◌, refl, sym, ap, ◌∙◌, arith,
  inl, inr, member, is_distinct, without, str_eq, eq_iff, str_eq-same, member-append,
  member-without, is_distinct-snoc, is_empty, Option-cases,
}
use hymenium.Dag.{DagEdge}
use hymenium.Dag.Validation.{has_edge}
use hymenium.Dag.Sort.Setup.{entry_of, has_key}
use hymenium.Dag.Sort.{finished, Sorting, relaxed, relax, popped}

-- The nodes that have been queued, those taken from the queue first.
abbrev pub placed : Sorting → List String
placed st = st.topo_order ++ st.queue

-- What holds while the successors `nexts` of the node `id` are still to be relaxed.
pub record IsSorting (ids : List String) (edges : List DagEdge) (id : String) (nexts : List String)
    (st : Sorting) : Type 0 where
  pub distinct : is_distinct (placed st) ≡ true
  pub known : (b : String) → member b (placed st) ≡ true → member b ids ≡ true
  pub keyed : (b : String) → member b ids ≡ true → has_key b st.incoming ≡ true
  pub settled :
      (b : String) → member b (placed st) ≡ true → is_empty (entry_of st.incoming b) ≡ true
  pub complete :
      (b : String)
      → member b ids ≡ true
      → is_empty (entry_of st.incoming b) ≡ true
      → member b (placed st) ≡ true
  pub waiting :
      (a b : String)
      → member a (entry_of st.incoming b)
        ≡ (has_edge a b edges && (not (member a st.topo_order) || (str_eq a id && member b nexts)))

is_empty-member : (a : String) (xs : List String) → member a xs ≡ true → is_empty xs ≡ false
is_empty-member a [] m = ground (arith, m)
is_empty-member a (x ∷ xs) m = refl

relaxed-IsSorting :
    (ids : List String) (edges : List DagEdge) (id next : String) (rest preds : List String)
    (st : Sorting)
    → IsSorting ids edges id (next ∷ rest) st
    → is_distinct (next ∷ rest) ≡ true
    → has_edge id next edges ≡ true
    → member next ids ≡ true
    → member id st.topo_order ≡ true
    → st.incoming next ≡ some preds
    → IsSorting ids edges id rest (relaxed id next preds st)
relaxed-IsSorting ids edges id next rest preds st w d h k t p =
    let grown : (b : String)
        → member b (placed (relaxed id next preds st))
          ≡ (member b (placed st) || (is_empty (without id preds) && str_eq next b)) =
      λ b. ground (
        arith,
        member-append b st.topo_order st.queue,
        member-append b st.topo_order (st.queue ++ next ∷ []),
        member-append b st.queue (next ∷ []),
      ) in
    let fresh : member next (placed st) ≡ false = ground (
      arith,
      w.settled next,
      w.waiting id next,
      h,
      p,
      str_eq-same id,
      str_eq-same next,
      is_empty-member id preds,
    ) in
    record {
      distinct = ground (
        arith,
        w.distinct,
        fresh,
        append_assoc st.topo_order st.queue (next ∷ []),
        is_distinct-snoc (placed st) next,
      );
      known = λ b m. ground (arith, m, k, grown b, w.known b, eq_iff next b);
      keyed = λ b m. ground (arith, w.keyed b m);
      settled = λ b m. ground (arith, m, grown b, w.settled b, fresh, p, eq_iff next b);
      complete = λ b m f. ground (arith, m, f, grown b, w.complete b m, eq_iff next b, p);
      waiting = λ a b.
          ground
            (arith, w.waiting a b, p, d, member-without id a preds, eq_iff next b, eq_iff a id, t);
    }

is_distinct-middle :
    (xs : List String) (x : String) (ys : List String)
    → is_distinct (xs ++ x ∷ ys) ≡ true
    → member x xs ≡ false
is_distinct-middle [] x ys d = refl
is_distinct-middle (y ∷ xs) x ys d =
    ground
      (arith, d, is_distinct-middle xs x ys, member-append y xs (x ∷ ys), eq_iff y x, eq_iff x y)

pub popped-IsSorting :
    (ids : List String) (edges : List DagEdge) (before id : String) (rest nexts : List String)
    (st : Sorting)
    → IsSorting ids edges before [] st
    → st.queue ≡ id ∷ rest
    → ((b : String) → member b nexts ≡ has_edge id b edges)
    → IsSorting ids edges id nexts (popped id rest st)
popped-IsSorting ids edges before id rest nexts st w q n =
    let same : placed (popped id rest st) ≡ placed st =
      append_assoc st.topo_order (id ∷ []) rest ∙ ap (λ xs. st.topo_order ++ xs) (sym q) in
    let fresh : member id st.topo_order ≡ false =
      is_distinct-middle st.topo_order id rest
        (sym (ap (λ xs. is_distinct (st.topo_order ++ xs)) q) ∙ w.distinct) in
    record {
      distinct = ap is_distinct same ∙ w.distinct;
      known = λ b m. w.known b (sym (ap (member b) same) ∙ m);
      keyed = w.keyed;
      settled = λ b m. w.settled b (sym (ap (member b) same) ∙ m);
      complete = λ b m f. ap (member b) same ∙ w.complete b m f;
      waiting = λ a b. ground (
        arith,
        w.waiting a b,
        n b,
        member-append a st.topo_order (id ∷ []),
        eq_iff id a,
        eq_iff a id,
        fresh,
      );
    }

-- The loop over the successors ends, and takes nothing from the queue.
pub relax-IsSorting :
    (ids : List String) (edges : List DagEdge) (id : String) (nexts : List String) (st : Sorting)
    → IsSorting ids edges id nexts st
    → is_distinct nexts ≡ true
    → ((b : String) → member b nexts ≡ true → (has_edge id b edges ≡ true) × (member b ids ≡ true))
    → member id st.topo_order ≡ true
    → (out : Sorting) × (relax id nexts st ≡ finished out)
      × IsSorting ids edges id [] out
      × (out.topo_order ≡ st.topo_order)
unfolding relax
relax-IsSorting ids edges id [] st w d n t = (st, refl, w, refl)
relax-IsSorting ids edges id (next ∷ rest) st w d n t =
    let (h, k) = n next (ground (arith, str_eq-same next)) in
    elim (Option-cases (st.incoming next)) [
      | inl none_there ↦ ground (arith, w.keyed next k, none_there)
      | inr (preds, p) ↦
          let kept = relaxed-IsSorting ids edges id next rest preds st w d h k t p in
          let (out, r, i, o) =
            relax-IsSorting ids edges id rest (relaxed id next preds st) kept (ground (arith, d))
              (λ b m. n b (ground (arith, m))) t in
          (out, ground (arith, r, p), i, o)
    ]
