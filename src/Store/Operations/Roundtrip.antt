-- ===== src/Store/Operations/Roundtrip.antt =====
-- A workflow that was inserted is read back (src/store.rs).
use hymenium.Prelude.{
  ℕ, ◌+◌, ◌≤◌, ◌≡◌, refl, ap, String, true, false, Option, none, some, List, [], ◌∷◌, ◌++◌, map,
  is_distinct, length, ltb, str_eq-same, eq_iff, arith,
}
use hymenium.Workflow.Engine.{Timestamp, PhaseState, WorkflowInstance, workflow_status_text}
use hymenium.Store.{stored}
use hymenium.Store.Codec.{parse_workflow_status-text}
use hymenium.Store.Rows.{TimeCodec, time, PhaseRow, i64_max, row_of, parse_datetime, read_rows}
use hymenium.Store.Rows.Roundtrip.{read_rows-write_rows}
use hymenium.Store.Tables.{
  WorkflowRow, PhaseEntry, Tables, find_row, clashes, with_row, insert_row, rows_of, order_rows,
  select,
}
use hymenium.Store.Tables.Keys.{find_row-append}
use hymenium.Store.Tables.Consistent.{IsConsistent, phases_known}
use hymenium.Store.Session.{
  Environment, Session, Attempt, succeeded, raised, ◌>>◌, json_value, execute,
}
use hymenium.Store.Session.Ends.{After, Ends, bind-Ends, execute-Ends, lift-Ends}
use hymenium.Store.Columns.{workflow_row, row_to_insert, instance_of}
use hymenium.Store.Operations.{insert_workflow_with_hash, load_phase_states, load, get_workflow}
use hymenium.Store.Operations.Written.{
  Apart, rows_from, put_rows, write_rows-stored, upsert_phases-Ends, rows_of-put_rows,
  order_rows-rows_from,
}

unknown-rows :
    (ws : List WorkflowRow) (id : String) (es : List PhaseEntry)
    → find_row id ws ≡ none
    → phases_known ws es ≡ true
    → rows_of id es ≡ []
unknown-rows ws id [] a k = refl
unknown-rows ws id (e ∷ es) a k = ground (arith, unknown-rows ws id es a, eq_iff e.workflow_id id)

ids_of_rows :
    (codec : TimeCodec) (ps : List PhaseState) (n : ℕ)
    → map (λ r. r.phase_id) (rows_from codec ps n) ≡ map (λ p. p.phase_id) ps
unfolding row_of
ids_of_rows codec [] n = refl
ids_of_rows codec (p ∷ ps) n = ap (◌∷◌ p.phase_id) (ids_of_rows codec ps (n + 1))

Apart-empty : (rs : List PhaseRow) → Apart rs []
Apart-empty [] = tt
Apart-empty (r ∷ rs) = (refl, Apart-empty rs)

value :
    {E A : Type 0} (r : Attempt E A × Session) (v : A)
    → After ⊥ (λ a u. a ≡ v) r
    → r.0 ≡ succeeded v
value (succeeded a, s) v h = ap succeeded h
value (raised e, s) v h = absurd h

module _ (env : Environment) (reliable : (n : ℕ) (m : String) → env.fault n ≡ some m → ⊥)
    (faithful : (t : Timestamp) → env.times.parse_from_rfc3339 (env.times.to_rfc3339 t) ≡ time t)
    (w : WorkflowInstance) (hash : Option String) (text : String)
    (encoded : env.encode_template w.template ≡ json_value text)
    (decoded : env.decode_template text ≡ json_value w.template)
    (idx_fits : w.current_phase_idx ≤ i64_max) (phases_fit : length w.phase_states ≤ i64_max) where
  abbrev pub row : WorkflowRow
  row = workflow_row env w hash text w.current_phase_idx

  row_to_insert-stored : row_to_insert env w hash ≡ stored row
  unfolding row_to_insert
  row_to_insert-stored =
      let e : ltb i64_max w.current_phase_idx ≡ false = ground arith in rw (encoded, e) refl

  instance_of-row :
      instance_of env row ≡ stored λ ps. record w { phase_states = ps; transitions = [] }
  unfolding instance_of parse_datetime
  instance_of-row =
      let a = (parse_workflow_status-text (workflow_status_text w.status) w.status).1 refl in
      let b : parse_datetime env.times row.created_at "created_at" ≡ stored w.created_at =
        rw (parse_datetime, faithful w.created_at) refl in
      let c : parse_datetime env.times row.updated_at "updated_at" ≡ stored w.updated_at =
        rw (parse_datetime, faithful w.updated_at) refl in
      rw (a, decoded, b, c) refl

  rows : List PhaseRow
  rows = rows_from env.times w.phase_states 0

  read_rows-rows : read_rows env.times rows ≡ stored w.phase_states
  unfolding rows
  read_rows-rows =
      let fit : 0 + length w.phase_states ≤ i64_max = omega (arith, phases_fit) in
      let (rs, ws, es) = read_rows-write_rows env.times faithful w.phase_states 0 fit in
      let e = write_rows-stored env.times w.phase_states 0 fit in
      let eq : rs ≡ rows_from env.times w.phase_states 0 = ground (arith, ws, e) in rw⁻¹ eq es

  module _ (s : Session) (h : IsConsistent s.tables)
      (fresh : find_row w.workflow_id s.tables.workflows ≡ none)
      (no_twin : clashes (workflow_row env w hash text w.current_phase_idx) s.tables.workflows
        ≡ false)
      (distinct : is_distinct (map (λ p. p.phase_id) w.phase_states) ≡ true) where
    after_row : Tables
    after_row = with_row row s.tables

    after_phases : Tables
    after_phases = record after_row {
      phase_states = put_rows w.workflow_id rows s.tables.phase_states;
    }

    known : find_row w.workflow_id (s.tables.workflows ++ row ∷ []) ≡ some row
    known = ground (
      arith,
      find_row-append w.workflow_id row s.tables.workflows,
      fresh,
      str_eq-same w.workflow_id,
    )

    rows_of-after : order_rows (rows_of w.workflow_id after_phases.phase_states) ≡ rows
    unfolding after_phases rows
    rows_of-after =
        let none_yet =
          unknown-rows s.tables.workflows w.workflow_id s.tables.phase_states fresh h.phases in
        let rs : List PhaseRow = rows_from env.times w.phase_states 0 in
        let e : rows_of w.workflow_id (put_rows w.workflow_id rs s.tables.phase_states)
            ≡ rows_of w.workflow_id s.tables.phase_states ++ rs =
          rows_of-put_rows w.workflow_id rs s.tables.phase_states
            (rw (ids_of_rows env.times w.phase_states 0) distinct) (rw none_yet (Apart-empty rs)) in
        rw (e, none_yet) (order_rows-rows_from env.times w.phase_states 0)

    insert-Ends : Ends ⊥ s.tables (insert_workflow_with_hash env w hash) (λ _ u. u ≡ after_phases)
    unfolding insert_workflow_with_hash after_phases after_row rows
    insert-Ends =
        bind-Ends ⊥ (λ r u. (r ≡ row) × (u ≡ s.tables)) _ s.tables _ _
          (lift-Ends ⊥ s.tables (row_to_insert env w hash) row row_to_insert-stored)
          λ r u (a, b).
            rw (a, b)
              (bind-Ends ⊥ (λ _ u. u ≡ after_row) _ s.tables (execute env (λ now. insert_row row)) _
                (execute-Ends ⊥ env (λ _ u. u ≡ after_row) s.tables (λ now. insert_row row) reliable
                  λ now. rw (fresh, no_twin) refl)
                λ _ u c. rw c (
                  upsert_phases-Ends ⊥ env w.workflow_id w.phase_states 0 after_row reliable
                    (rw known refl) (omega (arith, phases_fit))))

    load-Ends :
        Ends ⊥ after_phases (load env (some row)) λ a u. a ≡ some (record w { transitions = [] })
    unfolding load_phase_states
    load-Ends =
        bind-Ends ⊥
          (λ b u. (b ≡ λ ps. record w { phase_states = ps; transitions = [] }) × (u ≡ after_phases))
          _ after_phases _ _ (lift-Ends ⊥ after_phases (instance_of env row) _ instance_of-row)
          λ b u (e, f).
            rw (e, f)
              (bind-Ends ⊥ (λ ps u. ps ≡ w.phase_states) _ after_phases
                (load_phase_states env row.workflow_id) _
                (bind-Ends ⊥ (λ rs u. (rs ≡ rows) × (u ≡ after_phases)) _ after_phases _ _
                  (execute-Ends ⊥ env (λ rs u. (rs ≡ rows) × (u ≡ after_phases)) after_phases
                    (λ now. select (λ t. order_rows (rows_of row.workflow_id t.phase_states)))
                    reliable λ now. (rows_of-after, refl))
                  λ rs u (c, d). rw (c, d) λ s' k. rw read_rows-rows refl)
                λ ps u c s' k. rw c refl)

    -- If the database refuses no statement, the template is read from its JSON text as it was and times
    -- from theirs, the position and the number of phases fit in an `i64`, no two phases have the same
    -- ID, the tables satisfy the schema's constraints, the workflow's ID is not taken and no live
    -- workflow has its content hash, then inserting the workflow and loading it gives the workflow
    -- back, but for the list of its transitions, which comes back empty.
    pub get_workflow-insert :
        ((insert_workflow_with_hash env w hash >> get_workflow env w.workflow_id) s).0
        ≡ succeeded (some (record w { transitions = [] }))
    unfolding get_workflow after_phases after_row
    get_workflow-insert = value _ (some (record w { transitions = [] })) (
        bind-Ends ⊥ (λ _ u. u ≡ after_phases) (λ a u. a ≡ some (record w { transitions = [] }))
          s.tables _ _ insert-Ends
          (λ _ u e. rw e (
            bind-Ends ⊥ (λ o u. (o ≡ some row) × (u ≡ after_phases)) _ after_phases _ _
              (execute-Ends ⊥ env _ after_phases
                (λ now. select (λ t. find_row w.workflow_id t.workflows)) reliable
                λ now. (known, refl))
              λ o u (a, b). rw (a, b) load-Ends))
          s refl)
