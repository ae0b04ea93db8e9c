-- ===== src/Store/Operations/Deduplicated.antt =====
-- One live workflow per content hash (`find_and_insert_workflow_by_hash` of src/store.rs).
use hymenium.Prelude.{
  ◌≡◌, refl, sym, ◌∙◌, ap, String, Bool, true, false, ◌&&◌, Option, none, some, List, [], ◌∷◌, any,
  filter, str_eq, eq_iff, Bool-cases, Option-cases, inl, inr, arith,
}
use hymenium.Workflow.Engine.{WorkflowInstance, workflow_status_text}
use hymenium.Store.{stored}
use hymenium.Store.Tables.{
  WorkflowRow, Tables, find_row, is_live, same_hash, collides, clashes, insert_or_ignore_row,
  select,
}
use hymenium.Store.Tables.Keys.{find_row-id}
use hymenium.Store.Session.{Environment, Session, from_json}
use hymenium.Store.Session.Ends.{
  After, Ends, bind-Ends, execute-Ends, weaken-Ends, with_transaction-After,
}
use hymenium.Store.Columns.{row_to_insert, index_column}
use hymenium.Store.Operations.{
  has_live_hash, live_id, insert_new_phases, or_not_found, canonical, find_or_insert,
  find_and_insert_workflow_by_hash,
}
use hymenium.Store.Operations.Loading.{Where, bind-Where, lift-Where, Loaded, get_workflow-Loaded}

-- The columns of the row that the index looks at.
abbrev pub RowOf : WorkflowInstance → String → WorkflowRow → Type 0
RowOf w hash r = (r.status ≡ workflow_status_text w.status) × (r.content_hash ≡ some hash)

pub row_to_insert-RowOf :
    (env : Environment) (w : WorkflowInstance) (hash : String)
    → Where (RowOf w hash) (row_to_insert env w (some hash))
unfolding row_to_insert
row_to_insert-RowOf env w hash =
    bind-Where (RowOf w hash) (from_json (env.encode_template w.template)) _ λ text _.
      bind-Where (RowOf w hash) (index_column w.current_phase_idx) _ λ column _. (refl, refl)

filter-none : (p : WorkflowRow → Bool) (ws : List WorkflowRow) → any p ws ≡ false → filter p ws ≡ []
filter-none p [] h = refl
filter-none p (x ∷ ws) h = ground (arith, filter-none p ws)

live_id-any :
    (env : Environment) (hash id : String) (t : Tables)
    → live_id env hash t ≡ some id
    → any (has_live_hash hash) t.workflows ≡ true
live_id-any env hash id t h = elim (Bool-cases (any (has_live_hash hash) t.workflows)) [
  | inl e ↦ e
  | inr e ↦ ground (arith, filter-none (has_live_hash hash) t.workflows e)
]

same_hash_sym : (o : Option String) (h : String) → same_hash (some h) o ≡ same_hash o (some h)
same_hash_sym none h = refl
same_hash_sym (some x) h = ground (arith, eq_iff x h, eq_iff h x)

collides-live :
    (r x : WorkflowRow) (hash : String)
    → is_live r.status ≡ true
    → r.content_hash ≡ some hash
    → collides r x ≡ has_live_hash hash x
unfolding collides
collides-live r x hash l h =
    rw (l, h) (ap (λ b. is_live x.status && b) (same_hash_sym x.content_hash hash))

clashes-twin :
    (r : WorkflowRow) (hash : String) (ws : List WorkflowRow)
    → is_live r.status ≡ true
    → r.content_hash ≡ some hash
    → find_row r.workflow_id ws ≡ none
    → any (has_live_hash hash) ws ≡ true
    → clashes r ws ≡ true
clashes-twin r hash [] l h a e = cc
clashes-twin r hash (x ∷ ws) l h a e = elim (Bool-cases (str_eq x.workflow_id r.workflow_id)) [
  | inl t ↦ ground arith
  | inr t ↦ elim (Bool-cases (has_live_hash hash x)) [
    | inl k ↦ rw (t, collides-live r x hash l h, k) refl
    | inr k ↦
        rw (t, collides-live r x hash l h, k)
          (clashes-twin r hash ws l h (ground arith) (ground arith))
  ]
]

-- Where a live workflow has the hash, a live row is ignored.
pub ignored :
    (env : Environment) (r : WorkflowRow) (hash id : String) (t : Tables)
    → is_live r.status ≡ true
    → r.content_hash ≡ some hash
    → live_id env hash t ≡ some id
    → insert_or_ignore_row r t ≡ stored (0, t)
ignored env r hash id t l h e = elim (Option-cases (find_row r.workflow_id t.workflows)) [
  | inr (x, f) ↦ rw f refl
  | inl f ↦
      let c = clashes-twin r hash t.workflows l h f (live_id-any env hash id t e) in rw (f, c) refl
]

or_not_found-Ends :
    {A : Type 0} (t : Tables) (P : A → Type 0) (message : String) (o : Option A)
    → ((a : A) → o ≡ some a → P a)
    → Ends (Unit {0}) t (or_not_found message o) λ a u. P a × (u ≡ t)
or_not_found-Ends t P message none h = λ s e. tt
or_not_found-Ends t P message (some a) h = λ s e. (h a refl, e)

Loaded-id :
    (t : Tables) (id : String) (o : Option WorkflowInstance) (w : WorkflowInstance)
    → Loaded t id o
    → o ≡ some w
    → w.workflow_id ≡ id
Loaded-id t id none w h e = cc
Loaded-id t id (some v) w (r, f, g) e = ground (arith, find_row-id id t.workflows r f)

-- The end of the transaction, after the insert: it only reads.
canonical-Ends :
    (env : Environment) (hash : String) (t : Tables)
    → Ends
        (Unit {0})
        t
        (canonical env hash)
        λ v u. (live_id env hash t ≡ some v.workflow_id) × (u ≡ t)
canonical-Ends env hash t =
    let P : WorkflowInstance → Type 0 = λ v. live_id env hash t ≡ some v.workflow_id in
    bind-Ends (Unit {0}) (λ o u. (o ≡ live_id env hash t) × (u ≡ t)) _ t _ _
      (execute-Ends (Unit {0}) env _ t (λ now. select (live_id env hash)) (λ n m e. tt)
        λ now. (refl, refl))
      λ o u (a, b). rw b (
        bind-Ends (Unit {0}) (λ id u. (o ≡ some id) × (u ≡ t)) _ t _ _
          (or_not_found-Ends t (λ id. o ≡ some id) "no workflow found after insert attempt" o
            λ id e. e)
          λ id u (c, d). rw d (
            bind-Ends (Unit {0}) (λ l u. Loaded t id l × (u ≡ t)) _ t _ _
              (get_workflow-Loaded env t id)
              λ l u (f, g). rw g (
                or_not_found-Ends t P id l
                  λ v e. sym a ∙ (c ∙ ap some (sym (Loaded-id t id l v f e))))))

module _ (env : Environment) (w : WorkflowInstance) (hash : String) where
  pub insert_new_phases-zero :
      (t : Tables) → Ends (Unit {0}) t (insert_new_phases env w 0) λ _ u. u ≡ t
  insert_new_phases-zero t s e = e

  existing-Ends :
      (t : Tables) (id : String)
      → is_live (workflow_status_text w.status) ≡ true
      → live_id env hash t ≡ some id
      → Ends (Unit {0}) t (find_or_insert env w hash) λ v u. (v.workflow_id ≡ id) × (u ≡ t)
  unfolding find_or_insert
  existing-Ends t id l h =
      bind-Ends (Unit {0}) (λ r u. RowOf w hash r × (u ≡ t)) _ t _ _
        (lift-Where t (RowOf w hash) (row_to_insert env w (some hash))
          (row_to_insert-RowOf env w hash))
        λ r u ((a, b), c). rw c (
          bind-Ends (Unit {0}) (λ n u. (n ≡ 0) × (u ≡ t)) _ t _ _
            (execute-Ends (Unit {0}) env _ t (λ now. insert_or_ignore_row r) (λ n m e. tt)
              λ now. rw (ignored env r hash id t (rw a l) b h) (refl, refl))
            λ n u (d, e).
              rw (d, e)
                (bind-Ends (Unit {0}) (λ _ u. u ≡ t) (λ v u. (v.workflow_id ≡ id) × (u ≡ t)) t
                  (insert_new_phases env w 0) (λ _. canonical env hash) (insert_new_phases-zero t)
                  λ _ u f. rw f (
                    weaken-Ends (Unit {0}) _ _ t (canonical env hash) (canonical-Ends env hash t)
                      λ v u (x, y). (ground arith, y))))

  -- A live workflow that is found or inserted under a content hash that a live workflow already has:
  -- whichever statements the database refuses, if the call succeeds, the answer is that workflow, and
  -- no table is changed.
  pub find_and_insert-existing :
      (id : String) (s : Session)
      → is_live (workflow_status_text w.status) ≡ true
      → live_id env hash s.tables ≡ some id
      → After
          (Unit {0})
          (λ v u. (v.workflow_id ≡ id) × (u ≡ s.tables))
          (find_and_insert_workflow_by_hash env w hash s)
  unfolding find_and_insert_workflow_by_hash
  find_and_insert-existing id s l h =
      with_transaction-After (Unit {0}) env (λ e. e) _ s.tables (find_or_insert env w hash) s
        (λ n m e. tt) (λ u e. tt) (existing-Ends s.tables id l h) refl
