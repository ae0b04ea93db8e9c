-- ===== src/Commands/Statuses.antt =====
-- What the statements of a terminal command do to the status of its workflow (src/commands/).
use hymenium.Prelude.{
  ℕ, ◌+◌, ◌≡◌, refl, ◌∙◌, ap, ◌⊎◌, inl, inr, String, Bool, true, false, ◌==◌, Option, none, some,
  List, [], ◌∷◌, str_eq-same, is_some, Bool-cases, Option-cases, arith, if◌then◌else◌,
}
use hymenium.Workflow.Engine.{WorkflowStatus, PhaseState, WorkflowInstance, workflow_status_text}
use hymenium.Outcome.{WorkflowOutcome, terminal_status_of, build}
use hymenium.Store.{StoreError, sqlite, stored, store_error}
use hymenium.Store.Rows.{write_row}
use hymenium.Store.Tables.{
  WorkflowRow, OutcomeRow, Tables, find_row, clashes, update_rows, update_row, upsert_entry,
  put_outcome, find_outcome,
}
use hymenium.Store.Tables.Keys.{find_row-update_rows}
use hymenium.Store.Session.{Environment, JsonResult, json_value, json_error, from_json}
use hymenium.Store.Session.Ends.{Carried, Ends, bind-Ends, execute-Ends, weaken-Ends}
use hymenium.Store.Columns.{index_column}
use hymenium.Store.Operations.{
  require_change, status_set, index_set, update_workflow_status, update_current_phase_idx,
  upsert_phase_state, upsert_phases, record_transition, insert_outcome,
}
use hymenium.Store.Operations.Loading.{Where, lift-same, lift-Where}
use hymenium.Commands.{emit_terminal_outcome}

-- The stored status of a workflow.
abbrev pub HasStatus : String → String → Tables → Type 0
HasStatus id status t = (r : WorkflowRow) × (find_row id t.workflows ≡ some r) × (r.status ≡ status)

-- What `UPDATE` leaves at the row, if a row was changed.
update_row-Carried :
    (id status : String) (f : WorkflowRow → WorkflowRow) (t : Tables)
    → ((r : WorkflowRow) → (f r).workflow_id ≡ r.workflow_id)
    → ((r : WorkflowRow) → find_row id t.workflows ≡ some r → (f r).status ≡ status)
    → Carried (Unit {0}) (λ n u. ((n == 0) ≡ true) ⊎ HasStatus id status u) (update_row id f t)
update_row-Carried id status f t named st = elim (Option-cases (find_row id t.workflows)) [
  | inl e ↦ rw (Carried, e) (inl refl)
  | inr (r, e) ↦ elim (Bool-cases (clashes (f r) t.workflows)) [
    | inl c ↦ rw (Carried, e, c) tt
    | inr c ↦
        let found : find_row id (update_rows id f t.workflows) ≡ some (f r) =
          ground (arith, find_row-update_rows id f named id t.workflows, str_eq-same id, e) in
        rw (Carried, e, c) (inr (f r, found, st r e))
  ]
]

require_change-Ends :
    (id status : String) (n : ℕ) (t : Tables)
    → ((n == 0) ≡ true) ⊎ HasStatus id status t
    → Ends (Unit {0}) t (require_change id n) λ _ u. HasStatus id status u
require_change-Ends id status n t (inl e) s k = rw e tt
require_change-Ends id status n t (inr h) s k = elim (Bool-cases (n == 0)) [
  | inl e ↦ rw e tt
  | inr e ↦ rw (e, k) h
]

guarded-Carried :
    (b : Bool) (t u : Tables) (e : StoreError)
    → u.workflows ≡ t.workflows
    → Carried
        (Unit {0})
        {A = Unit {0}}
        (λ _ u. u.workflows ≡ t.workflows)
        (if b then stored (tt, u) else store_error e)
guarded-Carried true t u e h = h
guarded-Carried false t u e h = tt

module _ (env : Environment) (id : String) where
  pub update_workflow_status-HasStatus :
      (status : WorkflowStatus) (blocked_on : Option String) (t : Tables)
      → Ends
          (Unit {0})
          t
          (update_workflow_status env id status blocked_on)
          λ _ u. HasStatus id (workflow_status_text status) u
  unfolding update_workflow_status
  update_workflow_status-HasStatus status blocked_on t =
      let text : String = workflow_status_text status in
      bind-Ends (Unit {0}) (λ n u. ((n == 0) ≡ true) ⊎ HasStatus id text u) _ t _ _
        (execute-Ends (Unit {0}) env _ t
          (λ now. update_row id (status_set blocked_on text (env.times.to_rfc3339 now)))
          (λ n m e. tt)
          λ now.
            update_row-Carried id text (status_set blocked_on text (env.times.to_rfc3339 now)) t
              (λ r. refl) λ r e. refl)
        λ n u h. require_change-Ends id text n u h

  pub update_current_phase_idx-HasStatus :
      (status : String) (idx : ℕ) (t : Tables)
      → HasStatus id status t
      → Ends (Unit {0}) t (update_current_phase_idx env id idx) λ _ u. HasStatus id status u
  unfolding update_current_phase_idx
  update_current_phase_idx-HasStatus status idx t (r, e, h) =
      bind-Ends (Unit {0}) (λ c u. u ≡ t) _ t _ _ (lift-same t (index_column idx))
        λ column u k. rw k (
          bind-Ends (Unit {0}) (λ n u. ((n == 0) ≡ true) ⊎ HasStatus id status u) _ t _ _
            (execute-Ends (Unit {0}) env _ t
              (λ now. update_row id (index_set column (env.times.to_rfc3339 now))) (λ n m e. tt)
              λ now.
                update_row-Carried id status (index_set column (env.times.to_rfc3339 now)) t
                  (λ r. refl) λ q f. ground (arith, e, f, h))
            λ n u h. require_change-Ends id status n u h)

  upsert_phase_state-same :
      (p : PhaseState) (n : ℕ) (t : Tables)
      → Ends (Unit {0}) t (upsert_phase_state env id p n) λ _ u. u.workflows ≡ t.workflows
  unfolding upsert_phase_state
  upsert_phase_state-same p n t =
      bind-Ends (Unit {0}) (λ _ u. u ≡ t) _ t _ _ (lift-same t (write_row env.times p n))
        λ row u k. rw k (
          execute-Ends (Unit {0}) env _ t (λ now. upsert_entry id row) (λ n m e. tt)
            λ now.
              guarded-Carried (is_some (find_row id t.workflows)) t _
                (sqlite "FOREIGN KEY constraint failed") refl)

  pub upsert_phases-same :
      (ps : List PhaseState) (n : ℕ) (t : Tables)
      → Ends (Unit {0}) t (upsert_phases env id ps n) λ _ u. u.workflows ≡ t.workflows
  unfolding upsert_phases
  upsert_phases-same [] n t = λ s e. ap (λ t. t.workflows) e
  upsert_phases-same (p ∷ ps) n t =
      bind-Ends (Unit {0}) (λ _ u. u.workflows ≡ t.workflows) _ t _ _
        (upsert_phase_state-same p n t)
        λ _ u k.
          weaken-Ends (Unit {0}) _ _ u (upsert_phases env id ps (n + 1))
            (upsert_phases-same ps (n + 1) u) λ _ v l. l ∙ k

  pub record_transition-same :
      (from to reason : Option String) (t : Tables)
      → Ends (Unit {0}) t (record_transition env id from to reason) λ _ u. u.workflows ≡ t.workflows
  unfolding record_transition
  record_transition-same from to reason t =
      execute-Ends (Unit {0}) env _ t _ (λ n m e. tt)
        λ now.
          guarded-Carried (is_some (find_row id t.workflows)) t _
            (sqlite "FOREIGN KEY constraint failed") refl

find_outcome-put_outcome :
    (o : OutcomeRow) (os : List OutcomeRow) → find_outcome o.workflow_id (put_outcome o os) ≡ some o
find_outcome-put_outcome o [] = ground (arith, str_eq-same o.workflow_id)
find_outcome-put_outcome o (x ∷ os) =
    ground (arith, find_outcome-put_outcome o os, str_eq-same o.workflow_id)

-- The stored outcome of a workflow, which was printed from one with this status.
abbrev pub HasOutcome : Environment → String → WorkflowStatus → Tables → Type 0
HasOutcome env id status t =
    (x : OutcomeRow) × (o : WorkflowOutcome) × (find_outcome id t.outcomes ≡ some x)
    × (env.encode_outcome o ≡ json_value x.outcome_json)
    × (o.workflow_id ≡ id)
    × (o.terminal_status ≡ terminal_status_of status)

from_json-Where : {A : Type 0} (j : JsonResult A) → Where (λ a. j ≡ json_value a) (from_json j)
from_json-Where (json_value a) = refl
from_json-Where (json_error m) = tt

insert_outcome-Ends :
    (env : Environment) (o : WorkflowOutcome) (t : Tables)
    → Ends (Unit {0}) t (insert_outcome env o) λ _ u.
      (u.workflows ≡ t.workflows)
      × (x : OutcomeRow) × (find_outcome o.workflow_id u.outcomes ≡ some x)
      × (env.encode_outcome o ≡ json_value x.outcome_json)
unfolding insert_outcome
insert_outcome-Ends env o t =
    bind-Ends (Unit {0}) (λ text u. (env.encode_outcome o ≡ json_value text) × (u ≡ t)) _ t _ _
      (lift-Where t (λ text. env.encode_outcome o ≡ json_value text)
        (from_json (env.encode_outcome o)) (from_json-Where (env.encode_outcome o)))
      λ text u (a, b). rw b (
        execute-Ends (Unit {0}) env _ t _ (λ n m e. tt)
          λ now.
            let x : OutcomeRow = record {
              workflow_id = o.workflow_id;
              outcome_json = text;
              created_at = env.times.to_rfc3339 now;
            } in
            (refl, x, find_outcome-put_outcome x t.outcomes, a))

pub emit-HasOutcome :
    (env : Environment) (w : WorkflowInstance) (t : Tables)
    → Ends
        (Unit {0})
        t
        (emit_terminal_outcome env w none none)
        λ _ u. (u.workflows ≡ t.workflows) × HasOutcome env w.workflow_id w.status u
unfolding emit_terminal_outcome build
emit-HasOutcome env w t s e =
    let o : WorkflowOutcome = build w none (env.clock s.count 0) in
    weaken-Ends (Unit {0}) _ _ t (insert_outcome env o) (insert_outcome-Ends env o t)
      (λ _ u (a, x, b, c). (a, (x, o, b, c, refl, refl))) s e
