-- ===== src/Dispatch/Reconcile/Evidence.antt =====
-- What reconciling does to the instance, and what it takes for it to move on
-- (src/dispatch/mod.rs).
use mathlib.Core.Path.{subst}
use hymenium.Prelude.{
  ℕ, zero, suc, ◌+◌, ◌-◌, ◌++◌, ◌<◌, String, ◌≡◌, Bool, true, false, Option, none, some, [], ◌∷◌,
  any, replicate, length, get_elem?-some-lt, arith, Bool-cases, inl, inr, format,
}
use hymenium.Workflow.Template.{FileSystem}
use hymenium.Workflow.Engine.{
  PhaseState, WorkflowInstance, Clock, reconcile_complete_current_phase,
  reconcile_fail_current_phase, Result, ok, err,
}
use hymenium.Workflow.Engine.Invariant.{IsValid}
use hymenium.Workflow.Engine.Invariant.Steps.{
  reconcile_complete-IsValid, reconcile_fail-IsValid, with_phase,
}
use hymenium.Dispatch.Canopy.{
  DispatchResult, done, failed_with, ◌>>=◌, CanopyClient, TaskDetail, CompletionSignal, wants_stop,
}
use hymenium.Dispatch.Reconcile.{
  PhaseReconcileOutcome, marked_failed, stopped_by_agent_signal, no_task_id, ReconcileResult,
  Settled, gate_for, reconcile_at, reconcile_phases, settle, is_completed_status, is_failed_status,
  is_terminal, honor_signal, carry_on, reconcile_task, settle_completed, settle_failed,
}
use hymenium.Dispatch.Reconcile.Loop.{outcomes_around, reconcile_phases_lem}
use hymenium.Dispatch.Reconcile.Completing.{after_advance-IsValid}

-- The claim of a result, if it is one.
abbrev pub OnDone : {A : Type 0} → (A → Type 0) → DispatchResult A → Type 0
OnDone P (done a) = P a
OnDone P (failed_with e) = Unit {0}

abbrev pub is_stop : PhaseReconcileOutcome → Bool
is_stop (stopped_by_agent_signal id n) = true
is_stop _ = false

-- The instance is valid, unless the agent asked to stop.
abbrev Kept : Settled → Type 0
Kept (o, u) = is_stop o ≡ false → IsValid u

abbrev KeptAll : ReconcileResult → Type 0
KeptAll r = any is_stop r.outcomes ≡ false → IsValid r.instance_after

any_at :
    (i : ℕ) (o : PhaseReconcileOutcome) (n : ℕ)
    → any is_stop (replicate i no_task_id ++ o ∷ replicate n no_task_id) ≡ false
    → is_stop o ≡ false
any_at zero o n h = ground arith
any_at (suc i) o n h = any_at i o n h

module _ (canopy : CanopyClient) (fs : FileSystem) (now : Clock) (force : Bool)
    (w : WorkflowInstance) (v : IsValid w) where
  settle_completed-Kept :
      (id : String) (task : TaskDetail) → OnDone Kept (settle_completed fs now force id task w)
  settle_completed-Kept id task =
      go (reconcile_complete_current_phase now w) (reconcile_complete-IsValid now w v)
    where
      go :
          (x : Result (Unit {0}) × WorkflowInstance)
          → IsValid x.1
          → OnDone Kept (
              carry_on
                (format ("reconcile complete failed for phase " ∷ id ∷ []))
                x
                (λ u. done (honor_signal fs now force id task task.completion_signal u)))
      go (err e, u) vu = tt
      go (ok t, u) vu = signalled task.completion_signal
        where
          signalled : (s : Option CompletionSignal) → Kept (honor_signal fs now force id task s u)
          signalled none q =
              after_advance-IsValid fs (gate_for force task) (λ i. now (i + 3)) u vu id
          signalled (some s) q = elim (Bool-cases (wants_stop s)) [
            | inl e ↦ ground arith
            | inr e ↦
                rw e (after_advance-IsValid fs (gate_for force task) (λ i. now (i + 3)) u vu id)
          ]

  settle_failed-Kept : (id reason : String) → OnDone Kept (settle_failed now id reason w)
  settle_failed-Kept id reason =
      go (reconcile_fail_current_phase reason now w) (reconcile_fail-IsValid now w v reason)
    where
      go :
          (x : Result (Unit {0}) × WorkflowInstance)
          → IsValid x.1
          → OnDone Kept (
              carry_on
                (format ("reconcile fail for phase " ∷ id ∷ []))
                x
                (λ u. done (marked_failed id reason, u)))
      go (err e, u) vu = tt
      go (ok t, u) vu = λ q. vu

  settle-Kept :
      (id task_id : String) (task : TaskDetail)
      → OnDone Kept (settle fs now force id task_id task w)
  unfolding settle
  settle-Kept id task_id task = elim (Bool-cases (is_completed_status task.status)) [
    | inl e ↦ rw e (settle_completed-Kept id task)
    | inr e ↦ elim (Bool-cases (is_failed_status task.status)) [
      | inl f ↦
          rw (e, f)
            (settle_failed-Kept id (format ("Canopy task " ∷ task_id ∷ " was " ∷ task.status ∷ [])))
      | inr f ↦ rw (e, f) (λ q. v)
    ]
  ]

  reconcile_task-Kept :
      (p : PhaseState) (t : Option String) → OnDone Kept (reconcile_task canopy fs now force p t w)
  reconcile_task-Kept p none = λ q. v
  reconcile_task-Kept p (some task_id) = elim (Bool-cases (is_terminal p.status)) [
    | inl e ↦ rw e (λ q. v)
    | inr e ↦ rw e (go (canopy.get_task task_id))
  ]
    where
      go :
          (r : DispatchResult TaskDetail)
          → OnDone Kept (r >>= λ task. settle fs now force p.phase_id task_id task w)
      go (done task) = settle-Kept p.phase_id task_id task
      go (failed_with e) = tt

  reconcile_at-Kept : OnDone Kept (reconcile_at canopy fs now force w.current_phase_idx w)
  unfolding reconcile_at
  reconcile_at-Kept = with_phase w v λ p e here. rw e (reconcile_task-Kept p p.canopy_task_id)

  in_range : w.current_phase_idx < length w.phase_states
  in_range = with_phase w v λ p e here. get_elem?-some-lt w.phase_states w.current_phase_idx p e

  all_kept : OnDone KeptAll (reconcile_phases w canopy fs now force)
  all_kept =
      rw (reconcile_phases_lem canopy fs now force w in_range)
        (go (reconcile_at canopy fs now force w.current_phase_idx w) reconcile_at-Kept)
    where
      go :
          (x : DispatchResult Settled)
          → OnDone Kept x
          → OnDone KeptAll (
              x >>= λ (o, u). done (record {
                instance_after = u;
                outcomes = outcomes_around (length w.phase_states) w.current_phase_idx o;
              }))
      go (failed_with e) k = tt
      go (done (o, u)) k =
          λ q. k (any_at w.current_phase_idx o (length w.phase_states - suc w.current_phase_idx) q)

  -- A reconciliation of a valid instance that does not end in the agent's stop signal gives a
  -- valid instance.
  pub reconcile_phases-IsValid :
      (r : ReconcileResult)
      → reconcile_phases w canopy fs now force ≡ done r
      → any is_stop r.outcomes ≡ false
      → IsValid r.instance_after
  reconcile_phases-IsValid r h q = subst (OnDone KeptAll) h all_kept q
