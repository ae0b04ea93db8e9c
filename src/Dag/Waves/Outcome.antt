-- ===== src/Dag/Waves/Outcome.antt =====
-- What the waves of a DAG come to (src/workflow/dag/executor.rs).
use hymenium.Prelude.{
  String, Bool, true, false, not, ◌&&◌, ◌||◌, List, [], ◌∷◌, ◌≡◌, refl, sym, ◌∙◌, arith, inl, inr,
  is_empty, is_some, member, str_eq, eq_iff, str_eq-same, Bool-cases, if◌then◌else◌,
}
use hymenium.Dag.{ids_of, trigger_rule, WorkflowDag, Env}
use hymenium.Dag.Sort.{finished, ◌>>=◌}
use hymenium.Dag.Node.{NodeResult, Outside}
use hymenium.Dag.Waves.{
  Progress, result_of, is_done, ready_nodes, join_tasks, pass_over_others, settle_wave, wave,
  triggered,
}
use hymenium.Dag.Waves.Gate.{succeeded, gate, gate-keeps}
use hymenium.Dag.Waves.Named.{node_of-member}
use hymenium.Dag.Waves.Steps.{
  Yields, Yields-same, Yields-map, Yields-bind, Extends, IsProgress, IsComplete, Extends-refl,
  Extends-trans, Settles, Settles-trans, join_tasks-IsProgress, pass_over_others-Settles,
}

settle_wave-Settles :
    (dag : WorkflowDag) (seen : List NodeResult) (ids : List String) (st : Progress)
    → IsComplete dag
    → ((y : String) → member y ids ≡ true → member y (ids_of dag.nodes) ≡ true)
    → IsProgress dag seen st
    → Yields (settle_wave dag ids st) (Settles dag seen st)
unfolding settle_wave
settle_wave-Settles dag seen [] st c k w = inr (st, refl, (w, Extends-refl st))
settle_wave-Settles dag seen (id ∷ rest) st c k w =
    let (nexts, o, f) = c.nexts id (k id (ground (arith, str_eq-same id))) in
    let more : (y : String) → member y rest ≡ true → member y (ids_of dag.nodes) ≡ true =
      λ y m. k y (ground (arith, m)) in
    let whole = settle_wave dag (id ∷ rest) st in
    elim (Bool-cases (succeeded st.results id)) [
      | inr n ↦
          Yields-same whole (settle_wave dag rest st) (Settles dag seen st) (ground (arith, n))
            (settle_wave-Settles dag seen rest st c more w)
      | inl t ↦
          Yields-same whole (pass_over_others dag id nexts st >>= settle_wave dag rest)
            (Settles dag seen st) (ground (arith, t, o))
            (Yields-bind (pass_over_others dag id nexts st) (settle_wave dag rest)
              (Settles dag seen st) (Settles dag seen st)
              (pass_over_others-Settles dag seen id nexts st c f w)
              λ after p.
                Yields-map (settle_wave dag rest after) (Settles dag seen after)
                  (Settles dag seen st) (Settles-trans dag seen st after p.1)
                  (settle_wave-Settles dag seen rest after c more p.0))
    ]

member-if :
    (y x : String) (xs : List String) (b : Bool)
    → member y (if b then x ∷ xs else xs) ≡ ((b && str_eq x y) || member y xs)
member-if y x xs true = refl
member-if y x xs false = refl

pub ready_nodes_lem :
    (dag : WorkflowDag) (st : Progress) (order : List String)
    → IsComplete dag
    → ((y : String) → member y order ≡ true → member y (ids_of dag.nodes) ≡ true)
    → (ready : List String) × (ready_nodes dag st order ≡ finished ready)
      × ((y : String)
          → member y ready ≡ (member y order && (not (is_done st y) && gate dag st.results y)))
unfolding ready_nodes
ready_nodes_lem dag st [] c k = ([], refl, λ y. refl)
ready_nodes_lem dag st (id ∷ rest) c k =
    let known = k id (ground (arith, str_eq-same id)) in
    let (node, n, _) = node_of-member dag.nodes id known in
    let (preds, i) = c.preds id known in
    let (found, r, f) = ready_nodes_lem dag st rest c (λ y m. k y (ground (arith, m))) in
    let through : gate dag st.results id
        ≡ (is_empty preds || triggered (trigger_rule node) st.results preds) =
      ground (arith, n, i) in
    elim (Bool-cases (is_done st id)) [
      | inl d ↦ (found, ground (arith, r, d), λ y. ground (arith, d, f y, eq_iff id y))
      | inr d ↦ (
        if is_empty preds || triggered (trigger_rule node) st.results preds
            then id ∷ found
            else found,
        ground (arith, r, d, n, i),
        λ y. ground (
          arith,
          f y,
          through,
          d,
          eq_iff id y,
          member-if y id found (is_empty preds || triggered (trigger_rule node) st.results preds),
        ),
      )
    ]

-- The results of a wave's start are still the reason for what has run.
settled-IsProgress :
    (dag : WorkflowDag) (first last : Progress)
    → ((x : String) → is_some (result_of first.results x) ≡ true → is_done first x ≡ true)
    → Settles dag first.results first last
    → IsProgress dag last.results last
settled-IsProgress dag first last r (w, x) = record {
  recorded = w.recorded;
  ran = w.ran;
  gated = λ y m.
      gate-keeps dag first.results last.results y (λ z _ s. ground (arith, s, r z, x.kept z))
        (w.gated y m);
}

abbrev pub Advances : WorkflowDag → List String → Progress → Progress → Type 0
Advances dag ready before after =
    IsProgress dag after.results after
    × Extends before after
    × ((y : String) → member y ready ≡ true → is_done after y ≡ true)

pub wave-Advances :
    (o : Outside) (dag : WorkflowDag) (env : Env) (ready : List String) (st : Progress)
    → IsComplete dag
    → ((ids : List String) (y : String) → member y (o.arrival ids) ≡ member y ids)
    → ((y : String)
        → member y ready ≡ true
        → (member y (ids_of dag.nodes) ≡ true)
          × (is_done st y ≡ false)
          × (gate dag st.results y ≡ true))
    → IsProgress dag st.results st
    → Yields (wave o dag env ready st) (Advances dag ready st)
unfolding wave
wave-Advances o dag env ready st c a k w =
    Yields-bind (join_tasks o dag env st.results (o.arrival ready) st) (settle_wave dag ready) _
      (Advances dag ready st)
      (join_tasks-IsProgress o dag env st (o.arrival ready) st (λ y m. k y (sym (a ready y) ∙ m)) w
        (Extends-refl st))
      λ mid p.
        Yields-map (settle_wave dag ready mid) (Settles dag st.results mid) (Advances dag ready st)
          (λ last q. (
            settled-IsProgress dag st last w.recorded
                (Settles-trans dag st.results st mid p.1 last q),
            Extends-trans st mid last p.1 q.1,
            λ y m. q.1.done y (ground (arith, m, p.2 y, a ready y)),
          ))
          (settle_wave-Settles dag st.results ready mid c (λ y m. (k y m).0) p.0)
