-- ===== src/Dag/Waves/Gate.antt =====
-- When a node of a DAG may run, and what the results say of it (src/workflow/dag/executor.rs).
use hymenium.Prelude.{
  ◌≤◌, String, Bool, true, false, not, ◌||◌, none, some, List, [], ◌∷◌, ◌≡◌, refl, sym, ◌∙◌, arith,
  ◌⊎◌, inl, inr, any, all, is_empty, length, member, eq_iff, str_eq-same, unwrap_or, Option-cases,
  Bool-cases,
}
use hymenium.Dag.{DagNode, TriggerRule, all_success, one_success, trigger_rule, WorkflowDag}
use hymenium.Dag.Validation.{has_edge}
use hymenium.Dag.Sort.Setup.{member-incoming_of}
use hymenium.Dag.Sort.{incoming_of}
use hymenium.Dag.Node.{NodeStatus, skipped, NodeResult}
use hymenium.Dag.Waves.{node_of, result_of, is_success, results_of, triggered}

abbrev pub succeeded : List NodeResult → String → Bool
succeeded results id = elim (result_of results id) [ none ↦ false | some r ↦ is_success r.status ]

abbrev is_skipped : NodeStatus → Bool
is_skipped skipped = true
is_skipped _ = false

-- It has a result that is not a skip.
abbrev pub has_run : List NodeResult → String → Bool
has_run results id = elim (result_of results id) [
  | none ↦ false
  | some r ↦ not (is_skipped r.status)
]

-- The node is there, and has no predecessors, or is triggered by their results.
abbrev pub gate : WorkflowDag → List NodeResult → String → Bool
gate dag results id = elim (node_of dag.nodes id) [
  | none ↦ false
  | some n ↦ elim (incoming_of dag id) [
    | none ↦ false
    | some preds ↦ is_empty preds || triggered (trigger_rule n) results preds
  ]
]

length-results_of_le :
    (results : List NodeResult) (preds : List String)
    → length (results_of results preds) ≤ length preds
length-results_of_le results [] = omega arith
length-results_of_le results (p ∷ ps) = ground (arith, length-results_of_le results ps)

-- All the predecessors' results are there and are successes just when each has succeeded.
triggered-all :
    (results : List NodeResult) (preds : List String)
    → triggered all_success results preds ≡ all (succeeded results) preds
triggered-all results [] = refl
triggered-all results (p ∷ ps) =
    ground (arith, triggered-all results ps, length-results_of_le results ps)

triggered-any :
    (results : List NodeResult) (preds : List String)
    → triggered one_success results preds ≡ any (succeeded results) preds
triggered-any results [] = refl
triggered-any results (p ∷ ps) = ground (arith, triggered-any results ps)

all-keeps :
    (f g : String → Bool) (xs : List String)
    → ((x : String) → member x xs ≡ true → f x ≡ true → g x ≡ true)
    → all f xs ≡ true
    → all g xs ≡ true
all-keeps f g [] k h = refl
all-keeps f g (x ∷ xs) k h =
    ground (arith, h, k x, str_eq-same x, all-keeps f g xs (λ y m. k y (ground (arith, m))))

any-keeps :
    (f g : String → Bool) (xs : List String)
    → ((x : String) → member x xs ≡ true → f x ≡ true → g x ≡ true)
    → any f xs ≡ true
    → any g xs ≡ true
any-keeps f g [] k h = h
any-keeps f g (x ∷ xs) k h =
    ground (arith, h, k x, str_eq-same x, any-keeps f g xs (λ y m. k y (ground (arith, m))))

triggered-keeps :
    (rule : TriggerRule) (before after : List NodeResult) (preds : List String)
    → ((x : String) → member x preds ≡ true → succeeded before x ≡ true → succeeded after x ≡ true)
    → triggered rule before preds ≡ true
    → triggered rule after preds ≡ true
triggered-keeps all_success before after preds k h =
    triggered-all after preds
    ∙ all-keeps (succeeded before) (succeeded after) preds k (sym (triggered-all before preds) ∙ h)
triggered-keeps one_success before after preds k h =
    triggered-any after preds
    ∙ any-keeps (succeeded before) (succeeded after) preds k (sym (triggered-any before preds) ∙ h)

all-member :
    (f : String → Bool) (xs : List String) (x : String)
    → all f xs ≡ true
    → member x xs ≡ true
    → f x ≡ true
all-member f [] x h m = ground (arith, m)
all-member f (y ∷ ys) x h m = ground (arith, h, m, eq_iff y x, all-member f ys x)

any-member :
    (f : String → Bool) (xs : List String)
    → any f xs ≡ true
    → (x : String) × (member x xs ≡ true) × (f x ≡ true)
any-member f [] h = ground (arith, h)
any-member f (y ∷ ys) h = elim (Bool-cases (f y)) [
  | inl t ↦ (y, ground (arith, str_eq-same y), t)
  | inr n ↦ let (x, m, t) = any-member f ys (ground (arith, h, n)) in (x, ground (arith, m), t)
]

-- Why a node may run: each predecessor has succeeded, or there is none, or one has succeeded.
abbrev pub Reason : WorkflowDag → List NodeResult → String → TriggerRule → Type 0
Reason dag results id all_success =
    (p : String) → has_edge p id dag.edges ≡ true → succeeded results p ≡ true
Reason dag results id one_success =
    ((p : String) → has_edge p id dag.edges ≡ false)
    ⊎ ((p : String) × (has_edge p id dag.edges ≡ true) × (succeeded results p ≡ true))

triggered-Reason :
    (dag : WorkflowDag) (results : List NodeResult) (id : String) (preds : List String)
    (rule : TriggerRule)
    → incoming_of dag id ≡ some preds
    → (is_empty preds || triggered rule results preds) ≡ true
    → Reason dag results id rule
triggered-Reason dag results id preds all_success i h = λ p e.
    let m : member p preds ≡ true = ground (arith, member-incoming_of dag p id, i, e) in
    all-member (succeeded results) preds p (ground (arith, h, m, triggered-all results preds)) m
triggered-Reason dag results id preds one_success i h = elim (Bool-cases (is_empty preds)) [
  | inl t ↦ inl (λ p. ground (arith, t, i, member-incoming_of dag p id))
  | inr n ↦
      let (p, m, s) =
        any-member (succeeded results) preds (ground (arith, h, n, triggered-any results preds)) in
      inr (p, ground (arith, m, i, member-incoming_of dag p id), s)
]

-- A node that was let through had a reason.
pub gate-Reason :
    (dag : WorkflowDag) (results : List NodeResult) (id : String) (node : DagNode)
    → node_of dag.nodes id ≡ some node
    → gate dag results id ≡ true
    → Reason dag results id (trigger_rule node)
gate-Reason dag results id node n g = elim (Option-cases (incoming_of dag id)) [
  | inl i ↦ ground (arith, n, i, g)
  | inr (preds, i) ↦
      triggered-Reason dag results id preds (trigger_rule node) i (ground (arith, n, i, g))
]

pub gate-keeps :
    (dag : WorkflowDag) (before after : List NodeResult) (id : String)
    → ((x : String)
        → member x (unwrap_or (incoming_of dag id) []) ≡ true
        → succeeded before x ≡ true
        → succeeded after x ≡ true)
    → gate dag before id ≡ true
    → gate dag after id ≡ true
gate-keeps dag before after id k h = elim (Option-cases (node_of dag.nodes id)) [
  | inl n ↦ ground (arith, n, h)
  | inr (node, n) ↦ elim (Option-cases (incoming_of dag id)) [
    | inl i ↦ ground (arith, n, i, h)
    | inr (preds, i) ↦ ground (
      arith,
      n,
      i,
      h,
      triggered-keeps (trigger_rule node) before after preds (λ x m. k x (ground (arith, m, i))),
    )
  ]
]
