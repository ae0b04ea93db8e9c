-- ===== src/Store/Session/Atomic.antt =====
-- A transaction that raises an error is undone (src/store.rs).
use hymenium.Prelude.{suc, ◌≡◌, refl, none, some, inl, inr, ◌⊎◌, Option-cases, arith}
use hymenium.Store.{StoreError}
use hymenium.Store.Session.{
  Environment, Session, Attempt, succeeded, raised, Action, finish, with_transaction,
}
use hymenium.Store.Session.Through.{Through, SameSaved}

-- The tables are as they were, or the transaction is still open, and ending it brings them back.
abbrev pub Undone : Session → Session → Type 0
Undone s s' = ((s'.saved ≡ none) × (s'.tables ≡ s.tables)) ⊎ (s'.saved ≡ some s.tables)

abbrev pub AllOrNothing : {E A : Type 0} → Session → Attempt E A × Session → Type 0
AllOrNothing s (succeeded a, s') = s'.saved ≡ none
AllOrNothing s (raised e, s') = Undone s s'

module _ (env : Environment) {E A : Type 0} (from : StoreError → E) where
  finish-AllOrNothing :
      (s : Session) (r : Attempt E A × Session)
      → r.1.saved ≡ some s.tables
      → AllOrNothing s (finish env from r)
  finish-AllOrNothing s (succeeded a, t) h = elim (Option-cases (env.fault t.count)) [
    | inl e ↦ ground arith
    | inr (message, e) ↦ rw e (inr h)
  ]
  finish-AllOrNothing s (raised x, t) h = elim (Option-cases (env.fault t.count)) [
    | inl e ↦ rw (e, h) (inl (refl, refl))
    | inr (message, e) ↦ rw e (inr h)
  ]

  pub with_transaction-AllOrNothing :
      (m : Action E A) (s : Session)
      → s.saved ≡ none
      → Through SameSaved m
      → AllOrNothing s (with_transaction env from m s)
  unfolding with_transaction
  with_transaction-AllOrNothing m s e h =
      let opened : Session = record {
        tables = s.tables;
        saved = some s.tables;
        count = suc s.count;
      } in
      elim (Option-cases (env.fault s.count)) [
        | inl f ↦ rw (e, f) (finish-AllOrNothing s (m opened) (h opened))
        | inr (message, f) ↦ rw (e, f) (inl (refl, refl))
      ]
