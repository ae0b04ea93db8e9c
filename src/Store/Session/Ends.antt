-- ===== src/Store/Session/Ends.antt =====
-- How an action ends: in a value and tables of which something holds, or in an error if one is
-- possible at all (src/store.rs).
use hymenium.Prelude.{ℕ, suc, ◌≡◌, refl, String, Option, none, some, inl, inr, Option-cases}
use hymenium.Workflow.Engine.{Timestamp}
use hymenium.Store.{StoreError, StoreResult, stored, store_error}
use hymenium.Store.Tables.{Tables, Statement}
use hymenium.Store.Session.{
  Environment, Session, Attempt, succeeded, raised, Action, continue, ◌>>=◌, lift, convert, into,
  answered, execute, finish, with_transaction,
}

-- `R` is what an error amounts to: `⊥` where the action does not fail, `Unit` where it may.
abbrev pub After : Type 0 → {E A : Type 0} → (A → Tables → Type 0) → Attempt E A × Session → Type 0
After R Q (succeeded a, s) = Q a s.tables
After R Q (raised e, s) = R

abbrev pub Ends : Type 0 → {E A : Type 0} → Tables → Action E A → (A → Tables → Type 0) → Type 0
Ends R t m Q = (s : Session) → s.tables ≡ t → After R Q (m s)

abbrev pub Carried :
    Type 0 → {A : Type 0} → (A → Tables → Type 0) → StoreResult (A × Tables) → Type 0
Carried R Q (stored (a, t)) = Q a t
Carried R Q (store_error e) = R

module _ (R : Type 0) where
  continue-After :
      {E A B : Type 0} (P : A → Tables → Type 0) (Q : B → Tables → Type 0)
      (r : Attempt E A × Session) (f : A → Action E B)
      → After R P r
      → ((a : A) (t : Tables) → P a t → Ends R t (f a) Q)
      → After R Q (continue r f)
  continue-After P Q (succeeded a, s) f h k = k a s.tables h s refl
  continue-After P Q (raised e, s) f h k = h

  pub bind-Ends :
      {E A B : Type 0} (P : A → Tables → Type 0) (Q : B → Tables → Type 0) (t : Tables)
      (m : Action E A) (f : A → Action E B)
      → Ends R t m P
      → ((a : A) (t' : Tables) → P a t' → Ends R t' (f a) Q)
      → Ends R t (m >>= f) Q
  bind-Ends P Q t m f h k s e = continue-After P Q (m s) f (h s e) k

  answered-After :
      {A : Type 0} (Q : A → Tables → Type 0) (fault : Option String) (r : StoreResult (A × Tables))
      (s : Session)
      → ((m : String) → fault ≡ some m → R)
      → Carried R Q r
      → After R Q (answered fault r s)
  answered-After Q none (stored (a, t)) s g c = c
  answered-After Q none (store_error e) s g c = c
  answered-After Q (some m) r s g c = g m refl

  pub execute-Ends :
      {A : Type 0} (env : Environment) (Q : A → Tables → Type 0) (t : Tables)
      (f : Timestamp → Statement A)
      → ((n : ℕ) (m : String) → env.fault n ≡ some m → R)
      → ((now : Timestamp) → Carried R Q (f now t))
      → Ends R t (execute env f) Q
  unfolding execute
  execute-Ends env Q t f g c s e =
      answered-After Q (env.fault s.count) (f (env.now s.count) s.tables) s (g s.count)
        (rw e (c (env.now s.count)))

  convert-After :
      {E F A : Type 0} (Q : A → Tables → Type 0) (from : E → F) (r : Attempt E A × Session)
      → After R Q r
      → After R Q (convert from r)
  convert-After Q from (succeeded a, s) h = h
  convert-After Q from (raised e, s) h = h

  pub into-Ends :
      {E F A : Type 0} (Q : A → Tables → Type 0) (t : Tables) (from : E → F) (m : Action E A)
      → Ends R t m Q
      → Ends R t (into from m) Q
  into-Ends Q t from m h s e = convert-After Q from (m s) (h s e)

  weaken-After :
      {E A : Type 0} (P Q : A → Tables → Type 0) (r : Attempt E A × Session)
      → After R P r
      → ((a : A) (u : Tables) → P a u → Q a u)
      → After R Q r
  weaken-After P Q (succeeded a, s) h k = k a s.tables h
  weaken-After P Q (raised e, s) h k = h

  pub weaken-Ends :
      {E A : Type 0} (P Q : A → Tables → Type 0) (t : Tables) (m : Action E A)
      → Ends R t m P
      → ((a : A) (u : Tables) → P a u → Q a u)
      → Ends R t m Q
  weaken-Ends P Q t m h k s e = weaken-After P Q (m s) (h s e) k

  pub lift-Ends :
      {A : Type 0} (t : Tables) (r : StoreResult A) (a : A)
      → r ≡ stored a
      → Ends R t (lift r) λ x u. (x ≡ a) × (u ≡ t)
  lift-Ends t r a h s e = rw h (refl, e)

  finish-After :
      {E A : Type 0} (env : Environment) (from : StoreError → E) (Q : A → Tables → Type 0)
      (r : Attempt E A × Session)
      → ((n : ℕ) (m : String) → env.fault n ≡ some m → R)
      → After R Q r
      → After R Q (finish env from r)
  finish-After env from Q (succeeded a, s) g h = elim (Option-cases (env.fault s.count)) [
    | inl e ↦ rw e h
    | inr (m, e) ↦ rw e (g s.count m e)
  ]
  finish-After env from Q (raised x, s) g h = elim (Option-cases (env.fault s.count)) [
    | inl e ↦ rw e h
    | inr (m, e) ↦ rw e h
  ]

  -- A transaction ends as its body does, and may be refused if an error is possible.
  pub with_transaction-After :
      {E A : Type 0} (env : Environment) (from : StoreError → E) (Q : A → Tables → Type 0)
      (t : Tables) (m : Action E A) (s : Session)
      → ((n : ℕ) (m : String) → env.fault n ≡ some m → R)
      → ((u : Tables) → s.saved ≡ some u → R)
      → Ends R t m Q
      → s.tables ≡ t
      → After R Q (with_transaction env from m s)
  unfolding with_transaction
  with_transaction-After env from Q t m s g opening h e =
      let opened : Session = record {
        tables = s.tables;
        saved = some s.tables;
        count = suc s.count;
      } in
      elim (Option-cases s.saved) [
        | inr (u, k) ↦ rw k (opening u k)
        | inl k ↦ elim (Option-cases (env.fault s.count)) [
          | inr (m, f) ↦ rw (k, f) (g s.count m f)
          | inl f ↦ rw (k, f) (finish-After env from Q (m opened) g (h opened e))
        ]
      ]
