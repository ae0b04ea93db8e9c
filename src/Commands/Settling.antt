-- ===== src/Commands/Settling.antt =====
-- How the commands that end a workflow load it, and what they leave (src/commands/).
use hymenium.Prelude.{◌≡◌, ◌∙◌, String, Option, none, some}
use hymenium.Workflow.Engine.{
  WorkflowStatus, cancelled, WorkflowInstance, WorkflowError, Method, Clock, Result, ok, err,
}
use hymenium.Outcome.{WorkflowOutcome}
use hymenium.Store.{StoreError, stored, parse_workflow_status}
use hymenium.Store.Tables.{WorkflowRow, Tables, find_row}
use hymenium.Store.Session.{
  Environment, Session, Attempt, succeeded, raised, Action, ◌>>=◌, ◌>>◌, pure, into,
  with_transaction,
}
use hymenium.Store.Session.Ends.{
  After, Ends, bind-Ends, into-Ends, weaken-Ends, with_transaction-After,
}
use hymenium.Store.Operations.{get_workflow, get_outcome}
use hymenium.Store.Operations.Loading.{Loaded, get_workflow-Loaded}
use hymenium.Commands.{or_raise, engine, mutated, published, quietly}
use hymenium.Store.Tables.Keys.{find_row-id}
use hymenium.Store.Operations.Through.{get_outcome-Through}
use hymenium.Commands.Sequencing.{SameTables-Reads}
use hymenium.Commands.Ending.{Ended}

-- The tables after a command that ends a workflow, by the status it had.
abbrev pub Settles :
    Environment → String → WorkflowStatus → Tables → WorkflowStatus → Tables → Type 0
Settles env id status t WorkflowStatus.completed u = u ≡ t
Settles env id status t WorkflowStatus.failed u = u ≡ t
Settles env id status t cancelled u = u ≡ t
Settles env id status t _ u = Ended env id status u

abbrev pub Settled : Environment → String → WorkflowStatus → Tables → Tables → Type 0
Settled env id status t u =
    (r : WorkflowRow) × (old : WorkflowStatus) × (find_row id t.workflows ≡ some r)
    × (parse_workflow_status r.status ≡ stored old)
    × Settles env id status t old u

-- What a method on the engine's instance does to it, if it succeeds.
abbrev pub Mutates :
    {A : Type 0} → WorkflowStatus → WorkflowInstance → Result A × WorkflowInstance → Type 0
Mutates status w (ok a, v) = (v.workflow_id ≡ w.workflow_id) × (v.status ≡ status)
Mutates status w (err e, v) = Unit {0}

mutated-After :
    {E A : Type 0} (from : WorkflowError → E) (status : WorkflowStatus) (w : WorkflowInstance)
    (r : Result A × WorkflowInstance) (s : Session) (t : Tables)
    → Mutates status w r
    → s.tables ≡ t
    → After
        (Unit {0})
        (λ v u. (v.workflow_id ≡ w.workflow_id) × (v.status ≡ status) × (u ≡ t))
        (mutated from r s)
mutated-After from status w (ok a, v) s t h e = (h.0, h.1, e)
mutated-After from status w (err x, v) s t h e = tt

quietly-After :
    (E : Type 0) {A : Type 0} (t : Tables) (r : Attempt StoreError (Option A) × Session)
    → r.1.tables ≡ t
    → After (Unit {0}) (λ _ u. u ≡ t) (quietly {E = E} r)
quietly-After E t (succeeded a, s) h = h
quietly-After E t (raised e, s) h = h

same-After :
    {E A : Type 0} (t : Tables) (r : Attempt E A × Session)
    → r.1.tables ≡ t
    → After (Unit {0}) (λ _ u. u ≡ t) r
same-After t (succeeded a, s) h = h
same-After t (raised e, s) h = tt

module _ (env : Environment) (id : String) where
  pub engine-Ends :
      {E A : Type 0} (from : WorkflowError → E) (m : Clock → Method A) (status : WorkflowStatus)
      (w : WorkflowInstance) (t : Tables)
      → ((now : Clock) → Mutates status w (m now w))
      → Ends
          (Unit {0})
          t
          (engine env from m w)
          λ v u. (v.workflow_id ≡ w.workflow_id) × (v.status ≡ status) × (u ≡ t)
  engine-Ends from m status w t h s e =
      mutated-After from status w (m (env.clock s.count) w) s t (h (env.clock s.count)) e

  published-same :
      (E : Type 0) (t : Tables) → Ends (Unit {0}) t (published {E = E} env id) λ _ u. u ≡ t
  unfolding published
  published-same E t s e =
      quietly-After E t (get_outcome env id s)
        ((get_outcome-Through env (SameTables-Reads env) id s).0 ∙ e)

  pub kept-same :
      {E : Type 0} (from : StoreError → E) (t : Tables)
      → Ends
          (Unit {0})
          {A = Option WorkflowOutcome}
          t
          (into from (get_outcome env id) >> pure none)
          λ _ u. u ≡ t
  kept-same from t =
      bind-Ends (Unit {0}) (λ _ u. u ≡ t) _ t (into from (get_outcome env id)) _
        (into-Ends (Unit {0}) (λ _ u. u ≡ t) t from (get_outcome env id)
          λ s e.
            same-After t (get_outcome env id s)
              ((get_outcome-Through env (SameTables-Reads env) id s).0 ∙ e))
        λ _ u k s e. e ∙ k

  pub saved_and_published :
      {E : Type 0} (from : StoreError → E) (m : Action E (Unit {0})) (status : WorkflowStatus)
      (t : Tables)
      → Ends (Unit {0}) t m (λ _ u. Ended env id status u)
      → Ends
          (Unit {0})
          t
          (with_transaction env from m >> published env id)
          λ _ u. Ended env id status u
  saved_and_published from m status t h =
      bind-Ends (Unit {0}) (λ _ u. Ended env id status u) _ t (with_transaction env from m) _
        (λ s e. with_transaction-After (Unit {0}) env from _ t m s (λ n m e. tt) (λ u e. tt) h e)
        λ _ u k.
          weaken-Ends (Unit {0}) _ _ u (published env id) (published-same _ u) λ _ v l. rw l k

  found-Settled :
      {E B : Type 0} (missing : E) (t : Tables) (f : WorkflowInstance → Action E B)
      (status : WorkflowStatus)
      → ((w : WorkflowInstance)
          → w.workflow_id ≡ id
          → Ends (Unit {0}) t (f w) λ _ u. Settles env id status t w.status u)
      → (found : Option WorkflowInstance) → Loaded t id found
      → Ends (Unit {0}) t (or_raise found missing >>= f) λ _ u. Settled env id status t u
  found-Settled missing t f status h none l = λ s e. tt
  found-Settled missing t f status h (some w) (r, f', (named, old, _)) =
      weaken-Ends (Unit {0}) _ _ t (f w) (h w (named ∙ find_row-id id t.workflows r f'))
        λ _ u k. (r, w.status, f', old, k)

  -- A command that loads its workflow first.
  pub loaded-Settled :
      {E B : Type 0} (from : StoreError → E) (missing : E) (t : Tables)
      (f : WorkflowInstance → Action E B) (status : WorkflowStatus)
      → ((w : WorkflowInstance)
          → w.workflow_id ≡ id
          → Ends (Unit {0}) t (f w) λ _ u. Settles env id status t w.status u)
      → Ends
          (Unit {0})
          t
          (into from (get_workflow env id) >>= λ found. or_raise found missing >>= f)
          λ _ u. Settled env id status t u
  loaded-Settled from missing t f status h =
      bind-Ends (Unit {0}) (λ found u. Loaded t id found × (u ≡ t))
        (λ _ u. Settled env id status t u) t (into from (get_workflow env id))
        (λ found. or_raise found missing >>= f)
        (into-Ends (Unit {0}) _ t from (get_workflow env id) (get_workflow-Loaded env t id))
        λ found u (l, k). rw k (found-Settled missing t f status h found l)
