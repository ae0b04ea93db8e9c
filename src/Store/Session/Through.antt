-- ===== src/Store/Session/Through.antt =====
-- What holds between the connection before an action and after it, however the action ends
-- (src/store.rs).
use hymenium.Prelude.{suc, ◌≡◌, refl, ◌∙◌, Option, none, some, arith}
use hymenium.Workflow.Engine.{Timestamp}
use hymenium.Store.{StoreError, StoreResult, stored, store_error}
use hymenium.Store.Tables.{Tables, Statement, select}
use hymenium.Store.Session.{
  Environment, Session, Attempt, succeeded, raised, Action, continue, ◌>>=◌, lift, convert, into,
  answered, execute, finish, with_transaction,
}

abbrev pub Through : {E A : Type 0} → (Session → Session → Type 0) → Action E A → Type 0
Through R m = (s : Session) → R s (m s).1

-- A relation that holds along a sequence of actions if it holds along each.
pub record Preorder (R : Session → Session → Type 0) : Type 0 where
  pub same : (s : Session) → R s s
  pub chain : (s t u : Session) → R s t → R t u → R s u

module _ {R : Session → Session → Type 0} (order : Preorder R) where
  continue-Through :
      {E A B : Type 0} (s : Session) (r : Attempt E A × Session) (f : A → Action E B)
      → R s r.1
      → ((a : A) → Through R (f a))
      → R s (continue r f).1
  continue-Through s (succeeded a, t) f h k = order.chain s t (f a t).1 h (k a t)
  continue-Through s (raised e, t) f h k = h

  pub bind-Through :
      {E A B : Type 0} (m : Action E A) (f : A → Action E B)
      → Through R m
      → ((a : A) → Through R (f a))
      → Through R (m >>= f)
  bind-Through m f h k s = continue-Through s (m s) f (h s) k

  pub lift-Through : {A : Type 0} (r : StoreResult A) → Through R (lift r)
  lift-Through (stored a) s = order.same s
  lift-Through (store_error e) s = order.same s

pub convert-session :
    {E F A : Type 0} (from : E → F) (r : Attempt E A × Session) → (convert from r).1 ≡ r.1
convert-session from (succeeded a, s) = refl
convert-session from (raised e, s) = refl

pub into-Through :
    (R : Session → Session → Type 0) {E F A : Type 0} (from : E → F) (m : Action E A)
    → Through R m
    → Through R (into from m)
into-Through R from m h s = rw (convert-session from (m s)) (h s)

-- An invariant of the tables, of those too that a rollback brings back.
abbrev pub OnSaved : (Tables → Type 0) → Option Tables → Type 0
OnSaved P none = Unit {0}
OnSaved P (some t) = P t

abbrev pub Sound : (Tables → Type 0) → Session → Type 0
Sound P s = P s.tables × OnSaved P s.saved

abbrev pub Keeps : (Tables → Type 0) → Session → Session → Type 0
Keeps P s t = Sound P s → Sound P t

pub Keeps-Preorder : (P : Tables → Type 0) → Preorder (Keeps P)
Keeps-Preorder P = record { same = λ s h. h; chain = λ s t u f g h. g (f h) }

-- What a statement leaves behind, if it is carried out.
abbrev pub Leaves : {A : Type 0} → (Tables → Type 0) → StoreResult (A × Tables) → Type 0
Leaves P (stored (a, t)) = P t
Leaves P (store_error e) = Unit {0}

-- The action reads the tables only.
abbrev pub SameTables : Session → Session → Type 0
SameTables s t = (t.tables ≡ s.tables) × (t.saved ≡ s.saved)

pub SameTables-Preorder : Preorder SameTables
SameTables-Preorder = record {
  same = λ s. (refl, refl);
  chain = λ s t u f g. (g.0 ∙ f.0, g.1 ∙ f.1);
}

-- The action opens and closes no transaction.
abbrev pub SameSaved : Session → Session → Type 0
SameSaved s t = t.saved ≡ s.saved

pub SameSaved-Preorder : Preorder SameSaved
SameSaved-Preorder = record { same = λ s. refl; chain = λ s t u f g. g ∙ f }

module _ {A : Type 0} where
  answered-Keeps :
      (P : Tables → Type 0) (fault : Option _) (r : StoreResult (A × Tables)) (s : Session)
      → Leaves P r
      → Keeps P s (answered fault r s).1
  answered-Keeps P (some m) r s h k = k
  answered-Keeps P none (store_error e) s h k = k
  answered-Keeps P none (stored (a, t)) s h k = (h, k.1)

  pub execute-Keeps :
      (P : Tables → Type 0) (env : Environment) (f : Timestamp → Statement A)
      → ((now : Timestamp) (t : Tables) → P t → Leaves P (f now t))
      → Through (Keeps P) (execute env f)
  unfolding execute
  execute-Keeps P env f h s k =
      answered-Keeps P (env.fault s.count) (f (env.now s.count) s.tables) s
        (h (env.now s.count) s.tables k.0) k

  answered-SameSaved :
      (fault : Option _) (r : StoreResult (A × Tables)) (s : Session)
      → SameSaved s (answered fault r s).1
  answered-SameSaved (some m) r s = refl
  answered-SameSaved none (store_error e) s = refl
  answered-SameSaved none (stored (a, t)) s = refl

  pub execute-SameSaved :
      (env : Environment) (f : Timestamp → Statement A) → Through SameSaved (execute env f)
  unfolding execute
  execute-SameSaved env f s =
      answered-SameSaved (env.fault s.count) (f (env.now s.count) s.tables) s

pub select-SameTables :
    {A : Type 0} (env : Environment) (f : Tables → A)
    → Through SameTables (execute env (λ now. select f))
unfolding execute
select-SameTables env f s = ground arith

pub SameTables-Keeps :
    (P : Tables → Type 0) {E A : Type 0} (m : Action E A)
    → Through SameTables m
    → Through (Keeps P) m
SameTables-Keeps P m h s k = rw ((h s).0, (h s).1) k

module _ (P : Tables → Type 0) (env : Environment) {E A : Type 0} (from : StoreError → E) where
  finish-Keeps : (r : Attempt E A × Session) → Sound P r.1 → Sound P (finish env from r).1
  finish-Keeps (succeeded a, s) h = ground arith
  finish-Keeps (raised e, s) h = ground arith

  -- A transaction keeps an invariant that its body keeps.
  pub with_transaction-Keeps :
      (m : Action E A) → Through (Keeps P) m → Through (Keeps P) (with_transaction env from m)
  unfolding with_transaction
  with_transaction-Keeps m h s k =
      let opened : Session = record {
        tables = s.tables;
        saved = some s.tables;
        count = suc s.count;
      } in
      let after : Sound P (m opened).1 = h opened (k.0, k.0) in
      ground (arith, finish-Keeps (m opened) after)
