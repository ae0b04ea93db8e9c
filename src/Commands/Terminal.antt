-- ===== src/Commands/Terminal.antt =====
-- After a terminal command the stored status and the stored outcome agree, and a terminal workflow
-- is left alone (src/commands/cancel.rs, src/commands/complete.rs, src/commands/fail.rs).
use hymenium.Prelude.{◌≡◌, refl, ◌∙◌, String, arith}
use hymenium.Workflow.Engine.{
  WorkflowStatus, cancelled, WorkflowInstance, Clock, complete_workflow, fail_phase,
}
use hymenium.Store.Tables.{Tables}
use hymenium.Store.Session.{Environment, Session, with_transaction}
use hymenium.Store.Session.Ends.{After, Ends, bind-Ends, with_transaction-After}
use hymenium.Commands.Cancel
use hymenium.Commands.Complete
use hymenium.Commands.Fail
use hymenium.Commands.Ending.{
  Ended, Complete-persist-Ended, Fail-persist-Ended, Cancel-persist-Ended,
}
use hymenium.Commands.Settling.{
  Settles, Settled, Mutates, engine-Ends, kept-same, saved_and_published, loaded-Settled,
}

module _ (env : Environment) (id : String) where
  complete_workflow-Mutates :
      (now : Clock) (w : WorkflowInstance)
      → Mutates WorkflowStatus.completed w (complete_workflow now w)
  unfolding complete_workflow
  complete_workflow-Mutates now w = ground arith

  complete_loaded-Ended :
      (w : WorkflowInstance) (t : Tables)
      → w.workflow_id ≡ id
      → Ends
          (Unit {0})
          t
          (Complete.complete_loaded env id w)
          λ _ u. Ended env id WorkflowStatus.completed u
  complete_loaded-Ended w t named =
      bind-Ends (Unit {0})
        (λ v u. (v.workflow_id ≡ w.workflow_id) × (v.status ≡ WorkflowStatus.completed) × (u ≡ t)) _
        t _ _
        (engine-Ends env id Complete.CompleteCommandError.engine_error complete_workflow
          WorkflowStatus.completed w t λ now. complete_workflow-Mutates now w)
        λ v u (a, b, c). rw c (
          saved_and_published env id Complete.CompleteCommandError.store (Complete.persist env id v)
            WorkflowStatus.completed t (Complete-persist-Ended env id v t (a ∙ named) b))

  complete_in-Settles :
      (t : Tables) (old : WorkflowStatus) (w : WorkflowInstance)
      → w.workflow_id ≡ id
      → Ends
          (Unit {0})
          t
          (Complete.complete_in old env id w)
          λ _ u. Settles env id WorkflowStatus.completed t old u
  complete_in-Settles t old w named =
      let k = kept-same env id Complete.CompleteCommandError.store t in
      let tx = complete_loaded-Ended w t named in
      elim old
        as (λ o.
          Ends (Unit {0}) t (Complete.complete_in o env id w)
            λ _ u. Settles env id WorkflowStatus.completed t o u) [
              | WorkflowStatus.completed ↦ k
              | WorkflowStatus.failed ↦ k
              | cancelled ↦ k
              | _ ↦ tx
            ]

  complete-Settled :
      (s : Session)
      → After
          (Unit {0})
          (λ _ u. Settled env id WorkflowStatus.completed s.tables u)
          (Complete.run env id s)
  unfolding Complete.run
  complete-Settled s =
      loaded-Settled env id Complete.CompleteCommandError.store
        (Complete.CompleteCommandError.not_found id) s.tables
        (λ w. Complete.complete_in w.status env id w) WorkflowStatus.completed
        (λ w. complete_in-Settles s.tables w.status w) s refl

  fail_phase-Mutates :
      (reason : String) (now : Clock) (w : WorkflowInstance)
      → Mutates WorkflowStatus.failed w (fail_phase reason now w)
  unfolding fail_phase
  fail_phase-Mutates reason now w = ground arith

  fail_loaded-Ended :
      (reason : String) (w : WorkflowInstance) (t : Tables)
      → w.workflow_id ≡ id
      → Ends
          (Unit {0})
          t
          (Fail.fail_loaded env id reason w)
          λ _ u. Ended env id WorkflowStatus.failed u
  fail_loaded-Ended reason w t named =
      bind-Ends (Unit {0})
        (λ v u. (v.workflow_id ≡ w.workflow_id) × (v.status ≡ WorkflowStatus.failed) × (u ≡ t)) _ t
        _ _
        (engine-Ends env id Fail.FailCommandError.engine_error (fail_phase reason)
          WorkflowStatus.failed w t λ now. fail_phase-Mutates reason now w)
        λ v u (a, b, c). rw c (
          saved_and_published env id Fail.FailCommandError.store (Fail.persist env id reason v)
            WorkflowStatus.failed t (Fail-persist-Ended env id reason v t (a ∙ named) b))

  fail_in-Settles :
      (reason : String) (t : Tables) (old : WorkflowStatus) (w : WorkflowInstance)
      → w.workflow_id ≡ id
      → Ends
          (Unit {0})
          t
          (Fail.fail_in old env id reason w)
          λ _ u. Settles env id WorkflowStatus.failed t old u
  fail_in-Settles reason t old w named =
      let k = kept-same env id Fail.FailCommandError.store t in
      let tx = fail_loaded-Ended reason w t named in
      elim old
        as (λ o.
          Ends (Unit {0}) t (Fail.fail_in o env id reason w)
            λ _ u. Settles env id WorkflowStatus.failed t o u) [
              | WorkflowStatus.completed ↦ k
              | WorkflowStatus.failed ↦ k
              | cancelled ↦ k
              | _ ↦ tx
            ]

  fail-Settled :
      (reason : String) (s : Session)
      → After
          (Unit {0})
          (λ _ u. Settled env id WorkflowStatus.failed s.tables u)
          (Fail.run env id reason s)
  unfolding Fail.run
  fail-Settled reason s =
      loaded-Settled env id Fail.FailCommandError.store (Fail.FailCommandError.not_found id)
        s.tables (λ w. Fail.fail_in w.status env id reason w) WorkflowStatus.failed
        (λ w. fail_in-Settles reason s.tables w.status w) s refl

  cancel_in-Settles :
      (t : Tables) (old : WorkflowStatus) (w : WorkflowInstance)
      → Ends (Unit {0}) t (Cancel.cancel_in old env id w) λ _ u. Settles env id cancelled t old u
  cancel_in-Settles t old w =
      let F = Cancel.CancelCommandError.store in
      let m = Cancel.persist env id w in
      let tx : Ends (Unit {0}) t (with_transaction env F m) λ _ u. Ended env id cancelled u = λ s e.
        with_transaction-After (Unit {0}) env F _ t m s (λ n m e. tt) (λ u e. tt)
          (Cancel-persist-Ended env id w t) e in
      elim old
        as (λ o.
          Ends (Unit {0}) t (Cancel.cancel_in o env id w) λ _ u. Settles env id cancelled t o u) [
            | WorkflowStatus.completed ↦ λ s e. tt
            | WorkflowStatus.failed ↦ λ s e. tt
            | cancelled ↦ λ s e. e
            | _ ↦ tx
          ]

  pub cancel-Settled :
      (s : Session)
      → After (Unit {0}) (λ _ u. Settled env id cancelled s.tables u) (Cancel.run env id s)
  unfolding Cancel.run
  cancel-Settled s =
      loaded-Settled env id Cancel.CancelCommandError.store (Cancel.CancelCommandError.not_found id)
        s.tables (λ w. Cancel.cancel_in w.status env id w) cancelled
        (λ w named. cancel_in-Settles s.tables w.status w) s refl

  -- If one of the commands `cancel`, `complete` and `fail` succeeds, whichever statements the database
  -- refused on the way, the workflow was stored with a status that can be read. If it was completed,
  -- failed or cancelled, no table is changed. Otherwise it is now stored with the command's status, and
  -- with an outcome that was printed from one of that workflow with the corresponding terminal status.
  pub commands-Settled :
      (reason : String) (s : Session)
      → After (Unit {0}) (λ _ u. Settled env id cancelled s.tables u) (Cancel.run env id s)
        × After
            (Unit {0})
            (λ _ u. Settled env id WorkflowStatus.completed s.tables u)
            (Complete.run env id s)
        × After
            (Unit {0})
            (λ _ u. Settled env id WorkflowStatus.failed s.tables u)
            (Fail.run env id reason s)
  commands-Settled reason s = (cancel-Settled s, complete-Settled s, fail-Settled reason s)
