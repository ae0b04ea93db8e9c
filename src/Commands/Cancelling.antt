-- ===== src/Commands/Cancelling.antt =====
-- `cancel` goes through on a database that refuses nothing (src/commands/cancel.rs).
use mathlib.Core.Path.{subst}
use hymenium.Prelude.{
  ℕ, ◌≤◌, ◌≡◌, refl, ◌∙◌, String, Bool, true, false, Option, none, some, List, ltb, arith,
}
use hymenium.Workflow.Engine.{
  Timestamp, PhaseState, WorkflowStatus, cancelled, WorkflowInstance, workflow_status_text,
}
use hymenium.Outcome.{WorkflowOutcome}
use hymenium.Store.{StoreError, stored}
use hymenium.Store.Rows.{time, i64_max, read_rows}
use hymenium.Store.Tables.{WorkflowRow, Tables, find_row, is_live, order_rows, rows_of}
use hymenium.Store.Session.{
  Environment, Session, Attempt, succeeded, raised, json_value, Action, continue, convert, ◌>>=◌,
  ◌>>◌, into, with_transaction,
}
use hymenium.Store.Session.Ends.{
  After, Ends, bind-Ends, into-Ends, lift-Ends, with_transaction-After,
}
use hymenium.Store.Columns.{index_column, instance_of}
use hymenium.Store.Operations.{
  get_workflow, status_set, index_set, update_workflow_status, update_current_phase_idx,
  record_transition,
}
use hymenium.Store.Operations.Reliable.{Stored, get_workflow-Ends}
use hymenium.Commands.{or_raise, emit_terminal_outcome}
use hymenium.Store.Operations.Through.{get_workflow-Through}
use hymenium.Store.Operations.Loading.{Where, instance_of-FromRow, FromRow}
use hymenium.Commands.Sequencing.{SameTables-Reads}
use hymenium.Commands.Ending.{Ended}
use hymenium.Commands.Settling.{Settles, Settled}
use hymenium.Commands.Terminal.{cancel-Settled}
use hymenium.Commands.Cancel
use hymenium.Store.Operations.Updated.{updated, found-updated}
use hymenium.Commands.Updating.{
  cancelled_row, update-Ends, instance_of-cancelled, transition-Ends, emit-Ends,
}

-- The statuses that the guard of `cancel` lets through.
abbrev pub is_open : WorkflowStatus → Bool
is_open WorkflowStatus.completed = false
is_open WorkflowStatus.failed = false
is_open cancelled = false
is_open _ = true

cancel_in-open :
    (status : WorkflowStatus) (env : Environment) (id : String) (w : WorkflowInstance)
    → is_open status ≡ true
    → Cancel.cancel_in status env id w
      ≡ with_transaction env Cancel.CancelCommandError.store (Cancel.persist env id w)
cancel_in-open WorkflowStatus.completed env id w h = cc
cancel_in-open WorkflowStatus.failed env id w h = cc
cancel_in-open cancelled env id w h = cc
cancel_in-open _ env id w h = refl

Settles-open :
    (env : Environment) (id : String) (status old : WorkflowStatus) (t u : Tables)
    → is_open old ≡ true
    → Settles env id status t old u
    → Ended env id status u
Settles-open env id status WorkflowStatus.completed t u h k = cc
Settles-open env id status WorkflowStatus.failed t u h k = cc
Settles-open env id status cancelled t u h k = cc
Settles-open env id status _ t u h k = k

step :
    {F A B : Type 0} (P : A → Tables → Type 0) (from : StoreError → F) (t : Tables)
    (m : Action StoreError A) (f : A → Action F B)
    → Ends ⊥ t m P
    → ((a : A) (u : Tables) → P a u → Ends ⊥ u (f a) λ _ v. Unit {0})
    → Ends ⊥ t (into from m >>= f) λ _ v. Unit {0}
step P from t m f h = bind-Ends ⊥ P (λ _ v. Unit {0}) t (into from m) f (into-Ends ⊥ P t from m h)

module _ (env : Environment) (reliable : (n : ℕ) (m : String) → env.fault n ≡ some m → ⊥)
    (faithful : (t : Timestamp) → env.times.parse_from_rfc3339 (env.times.to_rfc3339 t) ≡ time t)
    (printed : (o : WorkflowOutcome) → (text : String) × (env.encode_outcome o ≡ json_value text))
    (id : String) where
  -- The transition, the second load and the outcome.
  recorded-Ends :
      (t : Tables) (r : WorkflowRow)
      → (c : List PhaseState → WorkflowInstance) × (instance_of env r ≡ stored c)
      → (ps : List PhaseState) → find_row id t.workflows ≡ some r
      → read_rows env.times (order_rows (rows_of id t.phase_states)) ≡ stored ps
      → Ends ⊥ t
          (into Cancel.CancelCommandError.store (
              record_transition env id none (some "cancelled") (some "user-requested cancellation"))
            >> (into Cancel.CancelCommandError.store (get_workflow env id) >>= λ found.
                or_raise found (Cancel.CancelCommandError.not_found id) >>= λ loaded.
                into Cancel.CancelCommandError.store
                  (emit_terminal_outcome env (record loaded { status = cancelled }) none none)))
          λ _ v. Unit {0}
  recorded-Ends t r (c, h) ps found read =
      let F = Cancel.CancelCommandError.store in
      step (λ _ u. (u.workflows ≡ t.workflows) × (u.phase_states ≡ t.phase_states)) F t
        (record_transition env id none (some "cancelled") (some "user-requested cancellation")) _
        (transition-Ends env reliable faithful printed id none (some "cancelled")
          (some "user-requested cancellation") t (rw found refl))
        λ _ u (a, b).
          let st : Stored env u id (c ps) = record {
            row = r;
            build = c;
            phases = ps;
            found = rw a found;
            built = h;
            read = rw b read;
            same = refl;
          } in
          step (λ l v. (l ≡ some (c ps)) × (v ≡ u)) F u (get_workflow env id) _
            (get_workflow-Ends env reliable u id (c ps) st)
            λ l v (d, e).
              rw (d, e)
                (into-Ends ⊥ (λ _ v. Unit {0}) u F
                  (emit_terminal_outcome env (record (c ps) { status = cancelled }) none none)
                  (emit-Ends env reliable faithful printed id (record (c ps) { status = cancelled })
                    u))

  persist-Ends :
      (t : Tables) (w v : WorkflowInstance)
      → Stored env t id v
      → w.current_phase_idx ≤ i64_max
      → Ends ⊥ t (Cancel.persist env id w) λ _ u. Unit {0}
  unfolding Cancel.persist update_workflow_status update_current_phase_idx is_live
      workflow_status_text
  persist-Ends t w v st fits =
      let F = Cancel.CancelCommandError.store in
      let idx = w.current_phase_idx in
      let fit : index_column idx ≡ stored idx =
        let e : ltb i64_max idx ≡ false = ground arith in rw e refl in
      let f : Timestamp → WorkflowRow → WorkflowRow =
        λ now. status_set none (workflow_status_text cancelled) (env.times.to_rfc3339 now) in
      let g : Timestamp → WorkflowRow → WorkflowRow =
        λ now. index_set idx (env.times.to_rfc3339 now) in
      step (λ _ u. (now : Timestamp) × (u ≡ updated id (f now) t)) F t
        (update_workflow_status env id cancelled none) _
        (update-Ends env reliable faithful printed id f t st.row st.found λ now. refl)
        λ _ u (now, a). rw a (
          let e1 = found-updated id (f now) t (λ r. refl) st.row st.found in
          let t1 : Tables = updated id (f now) t in
          step (λ _ u. (later : Timestamp) × (u ≡ updated id (g later) t1)) F t1
            (update_current_phase_idx env id idx) _
            (bind-Ends ⊥ (λ c u. (c ≡ idx) × (u ≡ t1)) _ t1 _ _
              (lift-Ends ⊥ t1 (index_column idx) idx fit)
              λ c u (b, k).
                rw (b, k)
                  (update-Ends env reliable faithful printed id g t1 (f now st.row) e1
                    λ later. refl))
            λ _ u (later, b). rw b (
              recorded-Ends (updated id (g later) t1) (cancelled_row env idx now later st.row)
                (instance_of-cancelled env reliable faithful printed id st.row st.build idx now
                  later st.built)
                st.phases (found-updated id (g later) t1 (λ r. refl) (f now st.row) e1) st.read))

  cancel_in-Ends :
      (t : Tables) (w v : WorkflowInstance) (status : WorkflowStatus)
      → is_open status ≡ true
      → Stored env t id v
      → w.current_phase_idx ≤ i64_max
      → (s : Session) → s.tables ≡ t
      → s.saved ≡ none
      → After ⊥ (λ _ u. Unit {0}) (Cancel.cancel_in status env id w s)
  cancel_in-Ends t w v status h st fits s e k =
      let F = Cancel.CancelCommandError.store in
      let m = Cancel.persist env id w in
      rw (cancel_in-open status env id w h) (
        with_transaction-After ⊥ env F (λ _ u. Unit {0}) t m s reliable (λ u l. cc)
          (persist-Ends t w v st fits) e)

  loaded-Ends :
      (t : Tables) (w : WorkflowInstance)
      (r : Attempt StoreError (Option WorkflowInstance) × Session)
      → Stored env t id w
      → is_open w.status ≡ true
      → w.current_phase_idx ≤ i64_max
      → After ⊥ (λ a u. (a ≡ some w) × (u ≡ t)) r
      → r.1.saved ≡ none
      → After ⊥
          (λ _ u. Unit {0})
          (continue (convert Cancel.CancelCommandError.store r) λ found.
            or_raise found (Cancel.CancelCommandError.not_found id) >>= λ w.
            Cancel.cancel_in w.status env id w)
  loaded-Ends t w (succeeded a, s) st h fits k closed =
      rw k.0 (cancel_in-Ends t w w w.status h st fits s k.1 closed)
  loaded-Ends t w (raised e, s) st h fits k closed = absurd k

  ended :
      (t : Tables) (w : WorkflowInstance)
      (r : Attempt Cancel.CancelCommandError (Unit {0}) × Session)
      → Stored env t id w
      → is_open w.status ≡ true
      → After ⊥ (λ _ u. Unit {0}) r
      → After (Unit {0}) (λ _ u. Settled env id cancelled t u) r
      → (r.0 ≡ succeeded tt) × Ended env id cancelled r.1.tables
  ended t w (raised e, s) st h k l = absurd k
  ended t w (succeeded a, s) st h k (r, old, found, parsed, settles) =
      let same : old ≡ w.status =
        let from : FromRow st.row (st.build st.phases) =
          subst (Where (λ b. (ps : List PhaseState) → FromRow st.row (b ps))) st.built
            (instance_of-FromRow env st.row) st.phases in
        let now : FromRow st.row w = subst (FromRow st.row) st.same from in
        ground (arith, found, st.found, parsed, now) in
      (refl, Settles-open env id cancelled old t s.tables (rw same h) settles)

-- If the database refuses no statement, no transaction is open, times are read from their texts as
-- they were and outcomes can be printed, then `cancel` succeeds on a workflow that can be loaded, is
-- neither completed, failed nor cancelled, and whose position fits in an `i64`: the workflow is then
-- stored as cancelled, with an outcome that was printed from a cancelled one of that workflow.
pub cancel-Ended :
    (env : Environment) (id : String) (s : Session) (w : WorkflowInstance)
    → ((n : ℕ) (m : String) → env.fault n ≡ some m → ⊥)
    → ((t : Timestamp) → env.times.parse_from_rfc3339 (env.times.to_rfc3339 t) ≡ time t)
    → ((o : WorkflowOutcome) → (text : String) × (env.encode_outcome o ≡ json_value text))
    → s.saved ≡ none
    → Stored env s.tables id w
    → is_open w.status ≡ true
    → w.current_phase_idx ≤ i64_max
    → ((Cancel.run env id s).0 ≡ succeeded tt)
      × Ended env id cancelled (Cancel.run env id s).1.tables
unfolding Cancel.run
cancel-Ended env id s w reliable faithful printed closed st h fits =
    ended env reliable faithful printed id s.tables w (Cancel.run env id s) st h
      (loaded-Ends env reliable faithful printed id s.tables w (get_workflow env id s) st h fits
        (get_workflow-Ends env reliable s.tables id w st s refl)
        ((get_workflow-Through env (SameTables-Reads env) id s).1 ∙ closed))
      (cancel-Settled env id s)
