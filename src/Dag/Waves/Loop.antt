-- ===== src/Dag/Waves/Loop.antt =====
-- The loop over the waves of a DAG, and the results it gives (src/workflow/dag/executor.rs).
use hymenium.Prelude.{
  ℕ, zero, suc, ◌≤◌, String, true, false, not, ◌&&◌, List, [], ◌∷◌, ◌≡◌, sym, ap, ◌∙◌, arith, inl,
  inr, filter, length, member, eq_iff, str_eq-same,
}
use hymenium.Dag.{ids_of, WorkflowDag, Env}
use hymenium.Dag.Sort.{◌>>=◌}
use hymenium.Dag.Sort.Setup.{List-cases}
use hymenium.Dag.Node.{Outside}
use hymenium.Dag.Waves.{Progress, is_done, wave, wave_loop}
use hymenium.Dag.Waves.Gate.{gate}
use hymenium.Dag.Waves.Steps.{Yields, Yields-same, Yields-bind, IsProgress, IsComplete}
use hymenium.Dag.Waves.Outcome.{Advances, wave-Advances, ready_nodes_lem}

-- The nodes of the list that are still to be done.
abbrev pub unfinished : Progress → List String → ℕ
unfinished st order = length (filter (λ y. not (is_done st y)) order)

unfinished_le :
    (before after : Progress) (order : List String)
    → ((x : String) → is_done before x ≡ true → is_done after x ≡ true)
    → unfinished after order ≤ unfinished before order
unfinished_le before after [] k = omega arith
unfinished_le before after (x ∷ xs) k = ground (arith, k x, unfinished_le before after xs k)

unfinished_lt :
    (before after : Progress) (order : List String) (id : String)
    → ((x : String) → is_done before x ≡ true → is_done after x ≡ true)
    → member id order ≡ true
    → is_done before id ≡ false
    → is_done after id ≡ true
    → suc (unfinished after order) ≤ unfinished before order
unfinished_lt before after [] id k m b a = ground (arith, m)
unfinished_lt before after (x ∷ xs) id k m b a = ground (
  arith,
  k x,
  m,
  b,
  a,
  eq_iff x id,
  unfinished_le before after xs k,
  unfinished_lt before after xs id k,
)

unfinished-member :
    (st : Progress) (order : List String) (id : String)
    → member id order ≡ true
    → is_done st id ≡ false
    → suc 0 ≤ unfinished st order
unfinished-member st [] id m d = ground (arith, m)
unfinished-member st (x ∷ xs) id m d = ground (arith, m, d, eq_iff x id, unfinished-member st xs id)

pub wave_loop-IsProgress :
    (o : Outside) (dag : WorkflowDag) (env : Env) (order : List String) (fuel : ℕ) (st : Progress)
    → IsComplete dag
    → ((ids : List String) (y : String) → member y (o.arrival ids) ≡ member y ids)
    → ((y : String) → member y order ≡ true → member y (ids_of dag.nodes) ≡ true)
    → IsProgress dag st.results st
    → unfinished st order ≤ fuel
    → Yields (wave_loop o dag env order fuel st) (λ last. IsProgress dag last.results last)
unfolding wave_loop
wave_loop-IsProgress o dag env order zero st c a k w f =
    let (ready, r, m) = ready_nodes_lem dag st order c k in
    elim (List-cases ready) [
      | inl e ↦ inr (st, ground (arith, r, e), w)
      | inr (id, rest, e) ↦
          ground (arith, m id, e, f, str_eq-same id, unfinished-member st order id)
    ]
wave_loop-IsProgress o dag env order (suc fuel) st c a k w f =
    let (ready, r, m) = ready_nodes_lem dag st order c k in
    elim (List-cases ready) [
      | inl e ↦ inr (st, ground (arith, r, e), w)
      | inr (id, rest, e) ↦
          let split : (y : String)
              → member y (id ∷ rest)
                ≡ (member y order && (not (is_done st y) && gate dag st.results y)) =
            λ y. sym (ap (member y) e) ∙ m y in
          Yields-same (wave_loop o dag env order (suc fuel) st)
            (wave o dag env (id ∷ rest) st >>= wave_loop o dag env order fuel) _
            (ground (arith, r, e))
            (Yields-bind (wave o dag env (id ∷ rest) st) (wave_loop o dag env order fuel)
              (Advances dag (id ∷ rest) st) _
              (wave-Advances o dag env (id ∷ rest) st c a (λ y i. ground (arith, i, split y, k y))
                w)
              λ after p. wave_loop-IsProgress o dag env order fuel after c a k p.0 (
                ground (
                  arith,
                  f,
                  split id,
                  str_eq-same id,
                  p.2 id,
                  unfinished_lt st after order id p.1.done,
                )))
    ]

pub unfinished-start :
    (order : List String)
    → unfinished (record { results = []; completed = []; passed_over = [] }) order ≤ length order
unfinished-start [] = omega arith
unfinished-start (x ∷ xs) = ground (arith, unfinished-start xs)
