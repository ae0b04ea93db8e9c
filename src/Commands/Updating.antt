-- ===== src/Commands/Updating.antt =====
-- The statements of `cancel` on a database that refuses nothing (src/commands/cancel.rs).
use hymenium.Prelude.{
  ℕ, ◌≡◌, refl, String, true, false, Option, none, some, List, [], ◌∷◌, is_some, arith,
}
use hymenium.Workflow.Engine.{
  Timestamp, PhaseState, cancelled, WorkflowInstance, workflow_status_text,
}
use hymenium.Outcome.{WorkflowOutcome, build}
use hymenium.Store.{stored, parse_workflow_status}
use hymenium.Store.Codec.{parse_workflow_status-text}
use hymenium.Store.Rows.{time, parse_datetime}
use hymenium.Store.Tables.{WorkflowRow, Tables, find_row, is_live, collides, clashes, update_row}
use hymenium.Store.Session.{Environment, json_value, ◌>>=◌, lift, from_json, execute}
use hymenium.Store.Session.Ends.{Ends, bind-Ends, execute-Ends, lift-Ends}
use hymenium.Store.Columns.{instance_of}
use hymenium.Store.Operations.{
  require_change, status_set, index_set, record_transition, insert_outcome,
}
use hymenium.Store.Operations.Updated
use hymenium.Store.Operations.Updated.{bind-stored, updated}
use hymenium.Commands.{emit_terminal_outcome}

clashes-dead :
    (r : WorkflowRow) (ws : List WorkflowRow) → is_live r.status ≡ false → clashes r ws ≡ false
unfolding collides
clashes-dead r [] d = refl
clashes-dead r (x ∷ ws) d = rw (d, clashes-dead r ws d) (ground arith)

-- The row as `cancel` leaves it.
abbrev pub cancelled_row : Environment → ℕ → Timestamp → Timestamp → WorkflowRow → WorkflowRow
cancelled_row env idx now later r =
    index_set idx (env.times.to_rfc3339 later)
      (status_set none (workflow_status_text cancelled) (env.times.to_rfc3339 now) r)

module _ (env : Environment) (reliable : (n : ℕ) (m : String) → env.fault n ≡ some m → ⊥)
    (faithful : (t : Timestamp) → env.times.parse_from_rfc3339 (env.times.to_rfc3339 t) ≡ time t)
    (printed : (o : WorkflowOutcome) → (text : String) × (env.encode_outcome o ≡ json_value text))
    (id : String) where
  -- An update of a row that is then not live.
  pub update-Ends :
      (f : Timestamp → WorkflowRow → WorkflowRow) (t : Tables) (r : WorkflowRow)
      → find_row id t.workflows ≡ some r
      → ((now : Timestamp) → is_live (f now r).status ≡ false)
      → Ends ⊥ t
          (execute env (λ now. update_row id (f now)) >>= require_change id)
          λ _ u. (now : Timestamp) × (u ≡ updated id (f now) t)
  update-Ends f t r e d =
      Updated.update-Ends env reliable id f t r e λ now. clashes-dead (f now r) t.workflows (d now)

  pub instance_of-cancelled :
      (r : WorkflowRow) (b : List PhaseState → WorkflowInstance) (idx : ℕ) (now later : Timestamp)
      → instance_of env r ≡ stored b
      → (c : List PhaseState → WorkflowInstance) × (instance_of env
            (cancelled_row env idx now later r)
          ≡ stored c)
  unfolding instance_of parse_datetime
  instance_of-cancelled r b idx now later h =
      let (status, _, h1) = bind-stored (parse_workflow_status r.status) _ b h in
      let (template, p, h2) =
        bind-stored (from_json (env.decode_template r.template_json)) _ b h1 in
      let (created, q, h3) =
        bind-stored (parse_datetime env.times r.created_at "created_at") _ b h2 in
      let a : parse_workflow_status (workflow_status_text cancelled) ≡ stored cancelled =
        (parse_workflow_status-text (workflow_status_text cancelled) cancelled).1 refl in
      let u : parse_datetime env.times (env.times.to_rfc3339 later) "updated_at" ≡ stored later =
        rw (parse_datetime, faithful later) refl in
      let c : List PhaseState → WorkflowInstance = λ ps. record {
        workflow_id = r.workflow_id;
        template = template;
        handoff_path = r.handoff_path;
        status = cancelled;
        blocked_on = none;
        current_phase_idx = idx;
        phase_states = ps;
        transitions = [];
        created_at = created;
        updated_at = later;
      } in
      (c, rw (a, p, q, u) refl)

  pub transition-Ends :
      (from to reason : Option String) (t : Tables)
      → is_some (find_row id t.workflows) ≡ true
      → Ends ⊥ t
          (record_transition env id from to reason)
          λ _ u. (u.workflows ≡ t.workflows) × (u.phase_states ≡ t.phase_states)
  unfolding record_transition
  transition-Ends from to reason t k = execute-Ends ⊥ env _ t _ reliable λ now. rw k (refl, refl)

  pub emit-Ends :
      (w : WorkflowInstance) (t : Tables)
      → Ends ⊥ t (emit_terminal_outcome env w none none) λ _ u. Unit {0}
  unfolding emit_terminal_outcome insert_outcome
  emit-Ends w t s e =
      let o : WorkflowOutcome = build w none (env.clock s.count 0) in
      let (text, p) = printed o in
      bind-Ends ⊥ (λ x u. (x ≡ text) × (u ≡ t)) (λ _ u. Unit {0}) t
        (lift (from_json (env.encode_outcome o))) _
        (lift-Ends ⊥ t (from_json (env.encode_outcome o)) text (rw p refl))
        (λ x u (a, b). execute-Ends ⊥ env _ u _ reliable λ now. tt) s e
