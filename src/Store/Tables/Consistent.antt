-- ===== src/Store/Tables/Consistent.antt =====
-- The constraints of the schema as an invariant, and that each statement keeps them (src/store.rs).
use hymenium.Prelude.{
  ◌≡◌, refl, String, Bool, true, false, ◌&&◌, ◌||◌, none, some, List, [], ◌∷◌, ◌++◌, any, all,
  str_eq, is_some, eq_iff, Option-cases, Bool-cases, inl, inr, arith,
}
use hymenium.Store.Rows.{PhaseRow}
use hymenium.Store.Tables.{
  WorkflowRow, PhaseEntry, TransitionRow, OutcomeRow, Tables, find_row, clashes, is_entry,
  put_entry, insert_row, insert_or_ignore_row, with_row, update_rows, update_row, upsert_entry,
  insert_transition, replace_outcome,
}
use hymenium.Store.Tables.Keys.{
  UniqueIds, NoTwins, find_row-append, clashes-absent, append-UniqueIds, append-NoTwins,
  find_row-update_rows, update_rows-UniqueIds, update_rows-NoTwins,
}
use hymenium.Store.Session.Through.{Leaves}

abbrev pub is_known : List WorkflowRow → String → Bool
is_known ws id = is_some (find_row id ws)

-- `(workflow_id, phase_id)` is the key.
abbrev pub UniqueKeys : List PhaseEntry → Type 0
UniqueKeys [] = Unit {0}
UniqueKeys (e ∷ rest) = (any (is_entry e.workflow_id e.row.phase_id) rest ≡ false) × UniqueKeys rest

-- The foreign keys of the phases and of the transitions.
abbrev pub phases_known : List WorkflowRow → List PhaseEntry → Bool
phases_known ws = all (λ e. is_known ws e.workflow_id)

abbrev pub transitions_known : List WorkflowRow → List TransitionRow → Bool
transitions_known ws = all (λ r. is_known ws r.workflow_id)

pub record IsConsistent (t : Tables) : Type 0 where
  pub ids : UniqueIds t.workflows
  pub live : NoTwins t.workflows
  pub keys : UniqueKeys t.phase_states
  pub phases : phases_known t.workflows t.phase_states ≡ true
  pub log : transitions_known t.workflows t.transitions ≡ true

all_more :
    {A : Type 0} (p q : A → Bool) (xs : List A)
    → ((x : A) → p x ≡ true → q x ≡ true)
    → all p xs ≡ true
    → all q xs ≡ true
all_more p q [] h a = refl
all_more p q (x ∷ xs) h a = ground (arith, h x, all_more p q xs h)

all-append :
    {A : Type 0} (p : A → Bool) (xs : List A) (x : A)
    → p x ≡ true
    → all p xs ≡ true
    → all p (xs ++ x ∷ []) ≡ true
all-append p [] x h a = ground arith
all-append p (y ∷ xs) x h a = ground (arith, all-append p xs x h)

is_entry-eq :
    (id phase_id : String) (e : PhaseEntry)
    → is_entry id phase_id e ≡ true
    → (e.workflow_id ≡ id) × (e.row.phase_id ≡ phase_id)
is_entry-eq id phase_id e h =
    ground (arith, eq_iff e.workflow_id id, eq_iff e.row.phase_id phase_id)

or_same : (a b : Bool) → (a || b) ≡ ((a || b) || a)
or_same true b = refl
or_same false true = refl
or_same false false = refl

or_assoc : (a b c : Bool) → (a || (b || c)) ≡ ((a || b) || c)
or_assoc true b c = refl
or_assoc false b c = refl

any-put_entry :
    (k l id : String) (row : PhaseRow) (es : List PhaseEntry)
    → any (is_entry k l) (put_entry id row es)
      ≡ (any (is_entry k l) es || (str_eq id k && str_eq row.phase_id l))
any-put_entry k l id row [] = ground arith
any-put_entry k l id row (e ∷ es) = elim (Bool-cases (is_entry id row.phase_id e)) [
  | inl t ↦
      let (a, b) = is_entry-eq id row.phase_id e t in
      rw (t, a, b) (or_same (str_eq id k && str_eq row.phase_id l) (any (is_entry k l) es))
  | inr t ↦
      rw (t, any-put_entry k l id row es)
        (or_assoc (is_entry k l e) (any (is_entry k l) es) (str_eq id k && str_eq row.phase_id l))
]

pub put_entry-UniqueKeys :
    (id : String) (row : PhaseRow) (es : List PhaseEntry)
    → UniqueKeys es
    → UniqueKeys (put_entry id row es)
put_entry-UniqueKeys id row [] u = (refl, tt)
put_entry-UniqueKeys id row (e ∷ es) u = ground (
  arith,
  put_entry-UniqueKeys id row es u.1,
  any-put_entry e.workflow_id e.row.phase_id id row es,
  eq_iff e.workflow_id id,
  eq_iff id e.workflow_id,
  eq_iff e.row.phase_id row.phase_id,
  eq_iff row.phase_id e.row.phase_id,
)

all-put_entry :
    (ws : List WorkflowRow) (id : String) (row : PhaseRow) (es : List PhaseEntry)
    → is_known ws id ≡ true
    → phases_known ws es ≡ true
    → phases_known ws (put_entry id row es) ≡ true
all-put_entry ws id row [] k a = ground arith
all-put_entry ws id row (e ∷ es) k a = ground (arith, all-put_entry ws id row es k)

module _ (t : Tables) (h : IsConsistent t) where
  with_row-IsConsistent :
      (r : WorkflowRow)
      → find_row r.workflow_id t.workflows ≡ none
      → clashes r t.workflows ≡ false
      → IsConsistent (with_row r t)
  with_row-IsConsistent r a c =
      let more : (id : String)
          → is_known t.workflows id ≡ true
          → is_known (t.workflows ++ r ∷ []) id ≡ true =
        λ id k. ground (arith, find_row-append id r t.workflows) in
      record {
        ids = append-UniqueIds r t.workflows h.ids a;
        live = append-NoTwins r t.workflows h.live (ground (arith, clashes-absent r t.workflows a));
        keys = h.keys;
        phases =
            all_more (λ e. is_known t.workflows e.workflow_id)
              (λ e. is_known (t.workflows ++ r ∷ []) e.workflow_id) t.phase_states
              (λ e. more e.workflow_id) h.phases;
        log =
            all_more (λ e. is_known t.workflows e.workflow_id)
              (λ e. is_known (t.workflows ++ r ∷ []) e.workflow_id) t.transitions
              (λ e. more e.workflow_id) h.log;
      }

  pub insert_row-IsConsistent : (r : WorkflowRow) → Leaves IsConsistent (insert_row r t)
  insert_row-IsConsistent r = elim (Option-cases (find_row r.workflow_id t.workflows)) [
    | inr (x, e) ↦ ground arith
    | inl a ↦ ground (arith, with_row-IsConsistent r a)
  ]

  pub insert_or_ignore_row-IsConsistent :
      (r : WorkflowRow) → Leaves IsConsistent (insert_or_ignore_row r t)
  insert_or_ignore_row-IsConsistent r = elim (Option-cases (find_row r.workflow_id t.workflows)) [
    | inr (x, e) ↦ ground (arith, h)
    | inl a ↦ ground (arith, h, with_row-IsConsistent r a)
  ]

  pub upsert_entry-IsConsistent :
      (id : String) (row : PhaseRow) → Leaves IsConsistent (upsert_entry id row t)
  upsert_entry-IsConsistent id row = elim (Bool-cases (is_known t.workflows id)) [
    | inr e ↦ rw e tt
    | inl e ↦
        let new : IsConsistent (record t { phase_states = put_entry id row t.phase_states }) =
          record {
            ids = h.ids;
            live = h.live;
            keys = put_entry-UniqueKeys id row t.phase_states h.keys;
            phases = all-put_entry t.workflows id row t.phase_states e h.phases;
            log = h.log;
          } in
        rw e new
  ]

  pub insert_transition-IsConsistent :
      (r : TransitionRow) → Leaves IsConsistent (insert_transition r t)
  insert_transition-IsConsistent r = elim (Bool-cases (is_known t.workflows r.workflow_id)) [
    | inr e ↦ rw e tt
    | inl e ↦
        let new : IsConsistent (record t { transitions = t.transitions ++ r ∷ [] }) = record {
          ids = h.ids;
          live = h.live;
          keys = h.keys;
          phases = h.phases;
          log = all-append (λ x. is_known t.workflows x.workflow_id) t.transitions r e h.log;
        } in
        rw e new
  ]

  pub replace_outcome-IsConsistent : (o : OutcomeRow) → Leaves IsConsistent (replace_outcome o t)
  replace_outcome-IsConsistent o = record {
    ids = h.ids;
    live = h.live;
    keys = h.keys;
    phases = h.phases;
    log = h.log;
  }

  module _ (id : String) (f : WorkflowRow → WorkflowRow)
      (named : (r : WorkflowRow) → (f r).workflow_id ≡ r.workflow_id) where
    updated-IsConsistent :
        (r : WorkflowRow)
        → find_row id t.workflows ≡ some r
        → clashes (f r) t.workflows ≡ false
        → IsConsistent (record t { workflows = update_rows id f t.workflows })
    updated-IsConsistent r e c =
        let more : (k : String)
            → is_known t.workflows k ≡ true
            → is_known (update_rows id f t.workflows) k ≡ true =
          λ k a. ground (arith, find_row-update_rows id f named k t.workflows) in
        record {
          ids = update_rows-UniqueIds id f named t.workflows h.ids;
          live = update_rows-NoTwins id f named t.workflows r h.ids h.live e c;
          keys = h.keys;
          phases =
              all_more (λ e. is_known t.workflows e.workflow_id)
                (λ e. is_known (update_rows id f t.workflows) e.workflow_id) t.phase_states
                (λ e. more e.workflow_id) h.phases;
          log =
              all_more (λ e. is_known t.workflows e.workflow_id)
                (λ e. is_known (update_rows id f t.workflows) e.workflow_id) t.transitions
                (λ e. more e.workflow_id) h.log;
        }

    pub update_row-IsConsistent : Leaves IsConsistent (update_row id f t)
    update_row-IsConsistent = elim (Option-cases (find_row id t.workflows)) [
      | inl e ↦ rw (Leaves, e) h
      | inr (r, e) ↦ elim (Bool-cases (clashes (f r) t.workflows)) [
        | inl c ↦ rw (Leaves, e, c) tt
        | inr c ↦ rw (Leaves, e, c) (updated-IsConsistent r e c)
      ]
    ]
