-- ===== src/Dispatch/Reconcile/Loop.antt =====
-- The loop of `reconcile_phases` handles the current phase and no other (src/dispatch/mod.rs).
use mathlib.Core.List.{append-nil, append_assoc}
use hymenium.Prelude.{
  ℕ, zero, suc, ◌+◌, ◌-◌, ◌<◌, ◌≡◌, refl, ap, sym, ◌∙◌, Bool, true, false, List, [], ◌∷◌, ◌++◌,
  replicate, length, arith, ◌==◌,
}
use hymenium.Workflow.Template.{FileSystem}
use hymenium.Workflow.Engine.{Clock, WorkflowInstance}
use hymenium.Dispatch.Canopy.{DispatchResult, done, failed_with, ◌>>=◌, CanopyClient}
use hymenium.Dispatch.Reconcile.{
  PhaseReconcileOutcome, no_task_id, ReconcileResult, Settled, reconcile_at, reconcile_loop,
  reconcile_phases,
}

-- One outcome for each phase, `o` for the one at `idx`.
abbrev pub outcomes_around : ℕ → ℕ → PhaseReconcileOutcome → List PhaseReconcileOutcome
outcomes_around count idx o = replicate idx no_task_id ++ o ∷ replicate (count - suc idx) no_task_id

module _ (canopy : CanopyClient) (fs : FileSystem) (now : Clock) (force : Bool) (cur : ℕ) where
  abbrev conclude : List PhaseReconcileOutcome → ℕ → Settled → DispatchResult ReconcileResult
  conclude before left (o, u) =
      done (record { instance_after = u; outcomes = before ++ o ∷ replicate left no_task_id })

  rest_of_loop :
      (left idx : ℕ) (w : WorkflowInstance) (os : List PhaseReconcileOutcome)
      → cur < idx
      → reconcile_loop canopy fs now force cur left idx w os
        ≡ done (record { instance_after = w; outcomes = os ++ replicate left no_task_id })
  unfolding reconcile_loop
  rest_of_loop zero idx w os h =
      ap (λ l. done (record { instance_after = w; outcomes = l })) (sym (append-nil os))
  rest_of_loop (suc left) idx w os h =
      let e : (idx == cur) ≡ false = ground arith in
      rw (e, rest_of_loop left (idx + 1) w (os ++ no_task_id ∷ []) (omega arith))
        (ap (λ l. done (record { instance_after = w; outcomes = l }))
          (append_assoc os (no_task_id ∷ []) (replicate left no_task_id)))

  loop_to :
      (n d left idx : ℕ) (w : WorkflowInstance) (os : List PhaseReconcileOutcome)
      → n ≡ suc left + d
      → idx + d ≡ cur
      → reconcile_loop canopy fs now force cur n idx w os
        ≡ (reconcile_at canopy fs now force cur w >>= conclude (os ++ replicate d no_task_id) left)
  unfolding reconcile_loop
  loop_to zero d left idx w os k h = absurd (omega arith)
  loop_to (suc n) zero left idx w os k h =
      let e : (idx == cur) ≡ true = ground arith in
      let f : idx ≡ cur = omega arith in
      let m : n ≡ left = omega arith in
      rw (e, m, f, append-nil os) (settled (reconcile_at canopy fs now force cur w))
    where
      settled :
          (r : DispatchResult Settled)
          → (r >>= λ q. reconcile_loop canopy fs now force cur left (cur + 1) q.1 (os ++ q.0 ∷ []))
            ≡ (r >>= conclude os left)
      settled (failed_with e) = refl
      settled (done (o, u)) =
          rest_of_loop left (cur + 1) u (os ++ o ∷ []) (omega arith)
          ∙ ap (λ l. done (record { instance_after = u; outcomes = l }))
              (append_assoc os (o ∷ []) (replicate left no_task_id))
  loop_to (suc n) (suc d) left idx w os k h =
      let e : (idx == cur) ≡ false = ground arith in
      rw (e, loop_to n d left (idx + 1) w (os ++ no_task_id ∷ []) (omega arith) (omega arith))
        (ap (λ l. reconcile_at canopy fs now force cur w >>= conclude l left)
          (append_assoc os (no_task_id ∷ []) (replicate d no_task_id)))

-- `reconcile_phases` is the loop's body at the current phase, run once, with one outcome for each
-- phase: `no_task_id` for every phase but the current one.
pub reconcile_phases_lem :
    (canopy : CanopyClient) (fs : FileSystem) (now : Clock) (force : Bool) (w : WorkflowInstance)
    → w.current_phase_idx < length w.phase_states
    → reconcile_phases w canopy fs now force ≡ (
        reconcile_at canopy fs now force w.current_phase_idx w >>= λ (o, u). done (record {
          instance_after = u;
          outcomes = outcomes_around (length w.phase_states) w.current_phase_idx o;
        }))
unfolding reconcile_phases
reconcile_phases_lem canopy fs now force w h =
    let i = w.current_phase_idx in
    let n = length w.phase_states in
    loop_to canopy fs now force i n i (n - suc i) 0 w [] (omega arith) (omega arith)
