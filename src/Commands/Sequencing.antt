-- ===== src/Commands/Sequencing.antt =====
-- Atomic actions in sequence (src/commands/).
use hymenium.Prelude.{◌≡◌, refl, ◌∙◌, inl, inr, String, Option, none, some}
use hymenium.Workflow.Engine.{WorkflowInstance, WorkflowError, Method, Clock, Result, ok, err}
use hymenium.Outcome.{WorkflowOutcome}
use hymenium.Store.{StoreError}
use hymenium.Store.Session.{
  Environment, Session, Attempt, succeeded, raised, Action, continue, convert, ◌>>=◌, ◌>>◌, pure,
  into, with_transaction,
}
use hymenium.Store.Session.Through.{
  Through, SameSaved, SameTables, SameTables-Preorder, into-Through, select-SameTables,
}
use hymenium.Store.Session.Atomic.{Undone, AllOrNothing, with_transaction-AllOrNothing}
use hymenium.Store.Operations.{get_workflow, get_outcome}
use hymenium.Store.Operations.Through.{Reads, get_workflow-Through, get_outcome-Through}
use hymenium.Commands.{or_raise, engine, mutated, quietly, published}

-- An error leaves the tables as they were, or a transaction that is still open.
abbrev pub UndoneBy : {E A : Type 0} → Session → Attempt E A × Session → Type 0
UndoneBy s (succeeded a, s') = Unit {0}
UndoneBy s (raised e, s') = Undone s s'

-- The action is atomic where no transaction is open.
abbrev pub IsAtomic : {E A : Type 0} → Action E A → Type 0
IsAtomic m = (s : Session) → s.saved ≡ none → UndoneBy s (m s)

unmoved : (s t : Session) → SameTables s t → s.saved ≡ none → Undone s t
unmoved s t h e = inl (h.1 ∙ e, h.0)

raised-UndoneBy :
    {E A : Type 0} (s : Session) (r : Attempt E A × Session)
    → SameTables s r.1
    → s.saved ≡ none
    → UndoneBy s r
raised-UndoneBy s (succeeded a, t) h e = tt
raised-UndoneBy s (raised x, t) h e = unmoved s t h e

back :
    {E A : Type 0} (s t : Session) (r : Attempt E A × Session)
    → SameTables s t
    → UndoneBy t r
    → UndoneBy s r
back s t (succeeded a, u) h k = tt
back s t (raised x, u) h (inl (a, b)) = inl (a, b ∙ h.0)
back s t (raised x, u) h (inr a) = rw⁻¹ (h.0) (inr a)

continue-IsAtomic :
    {E A B : Type 0} (s : Session) (r : Attempt E A × Session) (f : A → Action E B)
    → SameTables s r.1
    → s.saved ≡ none
    → ((a : A) → IsAtomic (f a))
    → UndoneBy s (continue r f)
continue-IsAtomic s (succeeded a, t) f h e k = back s t (f a t) h (k a t (h.1 ∙ e))
continue-IsAtomic s (raised x, t) f h e k = unmoved s t h e

-- What only reads may come before an atomic action.
pub bind-IsAtomic :
    {E A B : Type 0} (m : Action E A) (f : A → Action E B)
    → Through SameTables m
    → ((a : A) → IsAtomic (f a))
    → IsAtomic (m >>= f)
bind-IsAtomic m f h k s e = continue-IsAtomic s (m s) f (h s) e k

reading-IsAtomic : {E A : Type 0} (m : Action E A) → Through SameTables m → IsAtomic m
reading-IsAtomic m h s e = raised-UndoneBy s (m s) (h s) e

whole : {E A : Type 0} (s : Session) (r : Attempt E A × Session) → AllOrNothing s r → UndoneBy s r
whole s (succeeded a, t) h = tt
whole s (raised x, t) h = h

pub transaction-IsAtomic :
    {E A : Type 0} (env : Environment) (from : StoreError → E) (m : Action E A)
    → Through SameSaved m
    → IsAtomic (with_transaction env from m)
transaction-IsAtomic env from m h s e =
    whole s (with_transaction env from m s) (with_transaction-AllOrNothing env from m s e h)

converted :
    {E F A : Type 0} (from : E → F) (s : Session) (r : Attempt E A × Session)
    → UndoneBy s r
    → UndoneBy s (convert from r)
converted from s (succeeded a, t) h = tt
converted from s (raised x, t) h = h

pub into-IsAtomic :
    {E F A : Type 0} (from : E → F) (m : Action E A) → IsAtomic m → IsAtomic (into from m)
into-IsAtomic from m h s e = converted from s (m s) (h s e)

-- What never fails may come after an atomic action.
abbrev Succeeds : {E A : Type 0} → Attempt E A × Session → Type 0
Succeeds (succeeded a, s) = Unit {0}
Succeeds (raised e, s) = ⊥

ok_then : {E A : Type 0} (s : Session) (r : Attempt E A × Session) → Succeeds r → UndoneBy s r
ok_then s (succeeded a, t) h = tt
ok_then s (raised x, t) h = absurd h

continue-Succeeds :
    {E A B : Type 0} (s : Session) (r : Attempt E A × Session) (f : A → Action E B)
    → UndoneBy s r
    → ((a : A) (t : Session) → Succeeds (f a t))
    → UndoneBy s (continue r f)
continue-Succeeds s (succeeded a, t) f h k = ok_then s (f a t) (k a t)
continue-Succeeds s (raised x, t) f h k = h

pub finished-IsAtomic :
    {E A B : Type 0} (m : Action E A) (f : A → Action E B)
    → IsAtomic m
    → ((a : A) (t : Session) → Succeeds (f a t))
    → IsAtomic (m >>= f)
finished-IsAtomic m f h k s e = continue-Succeeds s (m s) f (h s e) k

pub SameTables-Reads : (env : Environment) → Reads env SameTables
SameTables-Reads env = record { order = SameTables-Preorder; reading = select-SameTables env }

get_workflow-SameTables :
    (env : Environment) (id : String) → Through SameTables (get_workflow env id)
get_workflow-SameTables env = get_workflow-Through env (SameTables-Reads env)

pub or_raise-IsAtomic :
    {E A B : Type 0} (o : Option A) (e : E) (f : A → Action E B)
    → ((a : A) → IsAtomic (f a))
    → IsAtomic (or_raise o e >>= f)
or_raise-IsAtomic none e f h s k = inl (k, refl)
or_raise-IsAtomic (some a) e f h s k = h a s k

-- A command that loads its workflow first.
pub loaded-IsAtomic :
    {E B : Type 0} (env : Environment) (from : StoreError → E) (id : String) (missing : E)
    (f : WorkflowInstance → Action E B)
    → ((w : WorkflowInstance) → IsAtomic (f w))
    → IsAtomic (do found ← into from (get_workflow env id); w ← or_raise found missing; f w)
loaded-IsAtomic env from id missing f h =
    bind-IsAtomic (into from (get_workflow env id)) (λ found. or_raise found missing >>= f)
      (into-Through SameTables from (get_workflow env id) (get_workflow-SameTables env id))
      λ found. or_raise-IsAtomic found missing f h

mutated-SameTables :
    {E A : Type 0} (from : WorkflowError → E) (r : Result A × WorkflowInstance)
    → Through SameTables (mutated from r)
mutated-SameTables from (ok a, w) s = (refl, refl)
mutated-SameTables from (err e, w) s = (refl, refl)

pub mutate-IsAtomic :
    {E A B : Type 0} (env : Environment) (from : WorkflowError → E) (m : Clock → Method A)
    (w : WorkflowInstance) (f : WorkflowInstance → Action E B)
    → ((w : WorkflowInstance) → IsAtomic (f w))
    → IsAtomic (engine env from m w >>= f)
mutate-IsAtomic env from m w f =
    bind-IsAtomic (engine env from m w) f λ s. mutated-SameTables from (m (env.clock s.count) w) s

quietly-Succeeds :
    (E : Type 0) {A : Type 0} (r : Attempt StoreError (Option A) × Session)
    → Succeeds (quietly {E = E} r)
quietly-Succeeds E (succeeded a, s) = tt
quietly-Succeeds E (raised e, s) = tt

pub published-Succeeds :
    (E : Type 0) (env : Environment) (id : String) (s : Session)
    → Succeeds (published {E = E} env id s)
unfolding published
published-Succeeds E env id s = quietly-Succeeds E (get_outcome env id s)

pub kept-IsAtomic :
    {E : Type 0} (env : Environment) (from : StoreError → E) (id : String)
    → IsAtomic {A = Option WorkflowOutcome} (into from (get_outcome env id) >> pure none)
kept-IsAtomic env from id =
    bind-IsAtomic (into from (get_outcome env id)) (λ _. pure none)
      (into-Through SameTables from (get_outcome env id)
        (get_outcome-Through env (SameTables-Reads env) id))
      λ a s e. tt
