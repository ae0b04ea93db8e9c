-- ===== src/Dag/Waves/Steps.antt =====
-- What each step of a wave keeps (src/workflow/dag/executor.rs).
use mathlib.Core.Path.{subst}
use hymenium.Prelude.{
  format, String, true, false, not, ◌&&◌, ◌||◌, some, List, [], ◌∷◌, ◌≡◌, refl, sym, ap, ◌∙◌, arith,
  ◌⊎◌, inl, inr, is_some, member, str_eq, eq_iff, str_eq-same, Option-cases, Bool-cases,
  if◌then◌else◌,
}
use hymenium.Dag.{ids_of, trigger_rule, WorkflowDag, Env}
use hymenium.Dag.Sort.{Run, finished, raised, ◌>>=◌, incoming_of, outgoing_of}
use hymenium.Dag.Node.{NodeResult, Outside, execute_node, skip}
use hymenium.Dag.Waves.{
  Progress, result_of, insert_result, is_done, join_tasks, passed, pass_over, pass_over_others,
  is_one_success,
}
use hymenium.Dag.Waves.Gate.{has_run, gate}
use hymenium.Dag.Waves.Named.{result_of-insert_result, node_of-member, node_id-execute_node}

-- A run that ends in an error, or in a value of which `P` holds.
abbrev pub Yields : {A : Type 0} → Run A → (A → Type 0) → Type 0
Yields {A} m P = ((e : String) × (m ≡ raised e)) ⊎ ((a : A) × (m ≡ finished a) × P a)

pub Yields-same : {A : Type 0} (m n : Run A) (P : A → Type 0) → m ≡ n → Yields n P → Yields m P
Yields-same m n P e y = subst (λ r. Yields r P) (sym e) y

pub Yields-map :
    {A : Type 0} (m : Run A) (P Q : A → Type 0) → ((a : A) → P a → Q a) → Yields m P → Yields m Q
Yields-map m P Q k (inl y) = inl y
Yields-map m P Q k (inr (a, e, p)) = inr (a, e, k a p)

pub Yields-bind :
    {A B : Type 0} (m : Run A) (f : A → Run B) (P : A → Type 0) (Q : B → Type 0)
    → Yields m P
    → ((a : A) → P a → Yields (f a) Q)
    → Yields (m >>= f) Q
Yields-bind m f P Q (inl (e, r)) k = inl (e, ap (λ x. x >>= f) r)
Yields-bind m f P Q (inr (a, r, p)) k = Yields-same (m >>= f) (f a) Q (ap (λ x. x >>= f) r) (k a p)

-- What is done stays done, with the result it has.
pub record Extends (before after : Progress) : Type 0 where
  pub done : (x : String) → is_done before x ≡ true → is_done after x ≡ true
  pub kept :
      (x : String)
      → is_done before x ≡ true
      → result_of after.results x ≡ result_of before.results x

-- Each node that has run was let through by the results `seen`.
pub record IsProgress (dag : WorkflowDag) (seen : List NodeResult) (st : Progress) : Type 0 where
  pub recorded : (x : String) → is_some (result_of st.results x) ≡ true → is_done st x ≡ true
  pub ran : (x : String) → has_run st.results x ≡ true → member x st.completed ≡ true
  pub gated : (x : String) → member x st.completed ≡ true → gate dag seen x ≡ true

pub Extends-refl : (st : Progress) → Extends st st
Extends-refl st = record { done = λ x d. d; kept = λ x d. refl }

pub Extends-trans : (a b c : Progress) → Extends a b → Extends b c → Extends a c
Extends-trans a b c p q = record {
  done = λ x d. q.done x (p.done x d);
  kept = λ x d. q.kept x (p.done x d) ∙ p.kept x d;
}

abbrev joined : NodeResult → Progress → Progress
joined r st = record st {
  results = insert_result r st.results;
  completed = r.node_id ∷ st.completed;
}

joined-IsProgress :
    (dag : WorkflowDag) (seen : List NodeResult) (r : NodeResult) (st : Progress)
    → IsProgress dag seen st
    → gate dag seen r.node_id ≡ true
    → IsProgress dag seen (joined r st)
joined-IsProgress dag seen r st w g = record {
  recorded = λ x h. ground (arith, h, w.recorded x, result_of-insert_result r st.results x);
  ran = λ x h. ground (arith, h, w.ran x, result_of-insert_result r st.results x);
  gated = λ x h. ground (arith, h, w.gated x, g, eq_iff r.node_id x);
}

-- The tasks of a wave: those that were done before keep what they have.
pub join_tasks-IsProgress :
    (o : Outside) (dag : WorkflowDag) (env : Env) (first : Progress) (ids : List String)
    (st : Progress)
    → ((x : String)
        → member x ids ≡ true
        → (member x (ids_of dag.nodes) ≡ true)
          × (is_done first x ≡ false)
          × (gate dag first.results x ≡ true))
    → IsProgress dag first.results st
    → Extends first st
    → Yields (join_tasks o dag env first.results ids st) λ last.
      IsProgress dag first.results last
      × Extends first last
      × ((x : String) → is_done last x ≡ (member x ids || is_done st x))
unfolding join_tasks
join_tasks-IsProgress o dag env first [] st k w x = inr (st, refl, (w, x, λ y. refl))
join_tasks-IsProgress o dag env first (id ∷ rest) st k w x =
    let (known, new, g) = k id (ground (arith, str_eq-same id)) in
    let (node, n, same) = node_of-member dag.nodes id known in
    let r : NodeResult = execute_node o env first.results node in
    let named : r.node_id ≡ id = node_id-execute_node o env first.results node ∙ same in
    elim (Option-cases (o.join_error id)) [
      | inr (e, j) ↦ inl (format ("task join error: " ∷ e ∷ []), ground (arith, n, j))
      | inl j ↦
          elim (join_tasks-IsProgress o dag env first rest (joined r st)
            (λ y m. k y (ground (arith, m)))
            (joined-IsProgress dag first.results r st w (ground (arith, named, g)))
            (record {
              done = λ y d. ground (arith, x.done y d);
              kept = λ y d. ground (
                arith,
                d,
                x.kept y,
                new,
                named,
                result_of-insert_result r st.results y,
                eq_iff id y,
              );
            })) [
              | inl (e, f) ↦ inl (e, ground (arith, n, j, f))
              | inr (last, f, (p, q, d)) ↦ inr (
                last,
                ground (arith, n, j, f),
                (p, q, λ y. ground (arith, d y, named, eq_iff id y)),
              )
            ]
    ]

-- A step after the tasks of a wave.
abbrev pub Settles : WorkflowDag → List NodeResult → Progress → Progress → Type 0
Settles dag seen before after = IsProgress dag seen after × Extends before after

pub Settles-trans :
    (dag : WorkflowDag) (seen : List NodeResult) (before after : Progress)
    → Extends before after
    → (last : Progress) → Settles dag seen after last
    → Settles dag seen before last
Settles-trans dag seen before after x last (w, y) = (w, Extends-trans before after last x y)

passed-Settles :
    (dag : WorkflowDag) (seen : List NodeResult) (other : String) (st : Progress)
    → IsProgress dag seen st
    → is_done st other ≡ false
    → Settles dag seen st (passed other st)
passed-Settles dag seen other st w n = (
  record {
    recorded =
        λ x h. ground (arith, h, w.recorded x, result_of-insert_result (skip other) st.results x);
    ran = λ x h. ground (arith, h, w.ran x, result_of-insert_result (skip other) st.results x);
    gated = w.gated;
  },
  record {
    done = λ x d. ground (arith, d);
    kept = λ x d.
        ground (arith, d, n, result_of-insert_result (skip other) st.results x, eq_iff other x);
  },
)

pass_over-Settles :
    (dag : WorkflowDag) (seen : List NodeResult) (id : String) (preds : List String) (st : Progress)
    → IsProgress dag seen st
    → Settles dag seen st (pass_over id preds st)
unfolding pass_over
pass_over-Settles dag seen id [] st w = (w, Extends-refl st)
pass_over-Settles dag seen id (other ∷ rest) st w =
    elim (Bool-cases (not (str_eq other id) && not (is_done st other))) [
      | inr f ↦
          subst (λ s. Settles dag seen st (pass_over id rest s))
            (sym (ap (λ b. if b then passed other st else st) f))
            (pass_over-Settles dag seen id rest st w)
      | inl t ↦
          let (v, x) = passed-Settles dag seen other st w (ground (arith, t)) in
          subst (λ s. Settles dag seen st (pass_over id rest s))
            (sym (ap (λ b. if b then passed other st else st) t))
            (Settles-trans dag seen st (passed other st) x (pass_over id rest (passed other st))
              (pass_over-Settles dag seen id rest (passed other st) v))
    ]

-- Each node of the DAG is there, and so are its lists of neighbours, which name nodes.
pub record IsComplete (dag : WorkflowDag) : Type 0 where
  pub preds :
      (x : String)
      → member x (ids_of dag.nodes) ≡ true
      → (ys : List String) × (incoming_of dag x ≡ some ys)
  pub nexts :
      (x : String)
      → member x (ids_of dag.nodes) ≡ true
      → (ys : List String) × (outgoing_of dag x ≡ some ys)
        × ((y : String) → member y ys ≡ true → member y (ids_of dag.nodes) ≡ true)

pub pass_over_others-Settles :
    (dag : WorkflowDag) (seen : List NodeResult) (id : String) (nexts : List String) (st : Progress)
    → IsComplete dag
    → ((y : String) → member y nexts ≡ true → member y (ids_of dag.nodes) ≡ true)
    → IsProgress dag seen st
    → Yields (pass_over_others dag id nexts st) (Settles dag seen st)
unfolding pass_over_others
pass_over_others-Settles dag seen id [] st c k w = inr (st, refl, (w, Extends-refl st))
pass_over_others-Settles dag seen id (next ∷ rest) st c k w =
    let known = k next (ground (arith, str_eq-same next)) in
    let (node, n, _) = node_of-member dag.nodes next known in
    let (preds, i) = c.preds next known in
    let more : (y : String) → member y rest ≡ true → member y (ids_of dag.nodes) ≡ true =
      λ y m. k y (ground (arith, m)) in
    let (v, x) = pass_over-Settles dag seen id preds st w in
    let after : Progress = pass_over id preds st in
    let whole = pass_over_others dag id (next ∷ rest) st in
    elim (Bool-cases (is_one_success (trigger_rule node) && not (is_done st next))) [
      | inr f ↦
          Yields-same whole (pass_over_others dag id rest st) (Settles dag seen st)
            (ground (arith, n, f)) (pass_over_others-Settles dag seen id rest st c more w)
      | inl t ↦
          Yields-same whole (pass_over_others dag id rest after) (Settles dag seen st)
            (ground (arith, n, t, i))
            (Yields-map (pass_over_others dag id rest after) (Settles dag seen after)
              (Settles dag seen st) (Settles-trans dag seen st after x)
              (pass_over_others-Settles dag seen id rest after c more v))
    ]
