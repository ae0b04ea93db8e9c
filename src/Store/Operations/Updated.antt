-- ===== src/Store/Operations/Updated.antt =====
-- An update of a workflow's row on a database that refuses no statement, and what is loaded after it
-- (src/store.rs).
use hymenium.Prelude.{
  ℕ, ◌≡◌, refl, ◌∙◌, String, false, Option, some, List, str_eq, str_eq-same, arith,
}
use hymenium.Workflow.Engine.{
  Timestamp, PhaseState, WorkflowStatus, WorkflowInstance, workflow_status_text,
}
use hymenium.Store.{StoreResult, stored, store_error}
use hymenium.Store.Rows
use hymenium.Store.Rows.{time}
use hymenium.Store.Tables.{WorkflowRow, Tables, find_row, clashes, update_rows, update_row}
use hymenium.Store.Tables.Keys.{find_row-update_rows}
use hymenium.Store.Session.{Environment, Session, ◌>>=◌, execute}
use hymenium.Store.Session.Ends.{Carried, Ends, bind-Ends, execute-Ends}
use hymenium.Store.Operations.{require_change, status_set}
use hymenium.Store.Operations.Reliable.{Stored}

pub bind-stored :
    {A B : Type 0} (r : StoreResult A) (f : A → StoreResult B) (b : B)
    → Rows.◌>>=◌ r f ≡ stored b
    → (a : A) × (r ≡ stored a) × (f a ≡ stored b)
bind-stored (stored a) f b h = (a, refl, h)
bind-stored (store_error e) f b h = cc

abbrev pub updated : String → (WorkflowRow → WorkflowRow) → Tables → Tables
updated id f t = record t { workflows = update_rows id f t.workflows }

module _ (id : String) (f : WorkflowRow → WorkflowRow) (t : Tables)
    (named : (r : WorkflowRow) → (f r).workflow_id ≡ r.workflow_id) where
  pub found-updated :
      (r : WorkflowRow)
      → find_row id t.workflows ≡ some r
      → find_row id (updated id f t).workflows ≡ some (f r)
  found-updated r e =
      ground (arith, find_row-update_rows id f named id t.workflows, str_eq-same id, e)

module _ (env : Environment) (reliable : (n : ℕ) (m : String) → env.fault n ≡ some m → ⊥)
    (id : String) where
  -- An update of a row that then collides with no other.
  pub update-Ends :
      (f : Timestamp → WorkflowRow → WorkflowRow) (t : Tables) (r : WorkflowRow)
      → find_row id t.workflows ≡ some r
      → ((now : Timestamp) → clashes (f now r) t.workflows ≡ false)
      → Ends ⊥ t
          (execute env (λ now. update_row id (f now)) >>= require_change id)
          λ _ u. (now : Timestamp) × (u ≡ updated id (f now) t)
  update-Ends f t r e d =
      bind-Ends ⊥ (λ n u. (n ≡ 1) × (now : Timestamp) × (u ≡ updated id (f now) t)) _ t
        (execute env (λ now. update_row id (f now))) (require_change id)
        (execute-Ends ⊥ env _ t (λ now. update_row id (f now)) reliable
          λ now. rw (Carried, e, d now) (refl, now, refl))
        λ n u (a, now, b) s k. rw a (now, k ∙ b)

-- The instance with another status.
abbrev pub with_status :
    WorkflowStatus → Option String → Timestamp → WorkflowInstance → WorkflowInstance
with_status status blocked_on now w = record w {
  status = status;
  blocked_on = blocked_on;
  updated_at = now;
}

abbrev Faithful : Environment → Type 0
Faithful env = (t : Timestamp) → env.times.parse_from_rfc3339 (env.times.to_rfc3339 t) ≡ time t

abbrev under :
    (List PhaseState → WorkflowInstance)
    → WorkflowStatus
    → Option String
    → Timestamp
    → List PhaseState
    → WorkflowInstance
under b status blocked_on now ps = with_status status blocked_on now (b ps)

-- The tables `u` are `t` with another row for the workflow alone.
abbrev pub OnlyRow : String → Tables → Tables → Type 0
OnlyRow id t u =
    ((k : String) → str_eq k id ≡ false → find_row k u.workflows ≡ find_row k t.workflows)
    × (u.phase_states ≡ t.phase_states)
    × (u.transitions ≡ t.transitions)
    × (u.outcomes ≡ t.outcomes)

module _ (env : Environment) (id : String) (s : Session) (w : WorkflowInstance)
    (status : WorkflowStatus) (blocked_on : Option String)
    (reliable : (n : ℕ) (m : String) → env.fault n ≡ some m → ⊥) (faithful : Faithful env)
    (st : Stored env s.tables id w) where
  abbrev set_row : Timestamp → WorkflowRow → WorkflowRow
  set_row now = status_set blocked_on (workflow_status_text status) (env.times.to_rfc3339 now)

  after_update : Timestamp → Tables
  after_update now = updated id (set_row now) s.tables

  abbrev LoadsUpdated : Option WorkflowInstance → Tables → Type 0
  LoadsUpdated found u =
      (now : Timestamp) × (found ≡ some (with_status status blocked_on now w))
      × OnlyRow id s.tables u
