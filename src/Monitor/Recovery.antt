-- ===== src/Monitor/Recovery.antt =====
-- Signal after signal: retries up to the policy's maximum, and what handling a signal keeps
-- (src/monitor/handler.rs, with src/retry.rs and src/workflow/engine.rs).
use hymenium.Prelude.{
  ℕ, suc, ◌+◌, ◌≤◌, ◌<◌, ◌≡◌, refl, ◌∙◌, Bool, true, false, Option, none, some, List, [], ◌∷◌, all,
  length, String, modify, get_elem?-modify_self, arith,
}
use hymenium.Workflow.Engine.{
  PhaseState, WorkflowInstance, Clock, current_phase, is_active, u32_max, saturating_inc,
  complete_phase, increment_retry_count, Result, ok, err,
}
use hymenium.Workflow.Engine.Invariant.{IsValid}
use hymenium.Workflow.Engine.Invariant.Steps.{complete_phase-IsValid, increment_retry_count-IsValid}
use hymenium.Retry.{RetryPolicy, RecoveryAction, retry, escalate, cancel, decide_recovery}
use hymenium.Retry.Limits.{is_retry, is_escalation, is_trouble, decide_recovery_exactly}
use hymenium.Monitor.Signal.{
  ProgressSignal, healthy, stalled, phase_complete, gate_satisfied, failed,
}
use hymenium.Monitor.Progress.{MonitorResult, reported, monitor_error}
use hymenium.Monitor.Handler.{
  UpsertPhaseState, after_method, persist, act, recover, retries_so_far, current_tier,
  handle_signal,
}

abbrev pub grants_retry : MonitorResult RecoveryAction → Bool
grants_retry (reported a) = is_retry a
grants_retry (monitor_error e) = false

abbrev pub escalates : MonitorResult RecoveryAction → Bool
escalates (reported a) = is_escalation a
escalates (monitor_error e) = false

-- One signal after the other, each under its own clock: the answers and the final instance.
unfoldable pub handle_all :
    List ProgressSignal
    → RetryPolicy
    → UpsertPhaseState
    → (ℕ → Clock)
    → WorkflowInstance
    → List (MonitorResult RecoveryAction) × WorkflowInstance
unfolding handle_signal
handle_all [] policy upsert now w = ([], w)
handle_all (s ∷ rest) policy upsert now w =
    let (r, u) = handle_signal s 0 policy upsert (now 0) w in
    let (rs, v) = handle_all rest policy upsert (λ i. now (suc i)) u in (r ∷ rs, v)

module _ (policy : RetryPolicy) (upsert : UpsertPhaseState) where
  trouble_lem :
      (s : ProgressSignal) (n : ℕ) (now : Clock) (w : WorkflowInstance)
      → is_trouble s ≡ true
      → handle_signal s n policy upsert now w ≡ recover s policy upsert now w
  unfolding handle_signal
  trouble_lem (stalled p since r) n now w h = refl
  trouble_lem (failed p e) n now w h = refl
  trouble_lem (healthy p at) n now w h = cc
  trouble_lem (phase_complete p) n now w h = cc
  trouble_lem (gate_satisfied g) n now w h = cc

  act-other :
      (now : Clock) (a : RecoveryAction) (w : WorkflowInstance)
      → is_retry a ≡ false
      → act upsert now a w ≡ (reported a, w)
  act-other now (retry s t) w h = cc
  act-other now (escalate r) w h = refl
  act-other now (cancel r) w h = refl

  act-retry :
      (now : Clock) (a : RecoveryAction) (w : WorkflowInstance) (p : PhaseState)
      → ((id : String) (q : PhaseState) (i : ℕ) → upsert id q i ≡ none)
      → current_phase w ≡ some p
      → is_active p.status ≡ true
      → is_retry a ≡ true
      → act upsert now a w ≡ (
        reported a,
        record w {
          phase_states =
              modify w.phase_states w.current_phase_idx
                (λ r. record r { retry_count = saturating_inc r.retry_count });
          updated_at = now 0;
        },
      )
  unfolding increment_retry_count
  act-retry now (retry s t) w p store e a h =
      let f =
        get_elem?-modify_self w.phase_states w.current_phase_idx
          (λ r. record r { retry_count = saturating_inc r.retry_count }) e in
      rw (e, a, f) (stored _ _ _)
    where
      stored :
          (b : RecoveryAction) (q : PhaseState) (u : WorkflowInstance)
          → persist upsert b (some q) u ≡ (reported b, u)
      stored b q u = let k = store u.workflow_id q u.current_phase_idx in rw (persist, k) refl
  act-retry now (escalate r) w p store e a h = cc
  act-retry now (cancel r) w p store e a h = cc

  -- One more signal of trouble while retries are left.
  retried :
      (s : ProgressSignal) (now : Clock) (w : WorkflowInstance) (p : PhaseState)
      → ((id : String) (q : PhaseState) (i : ℕ) → upsert id q i ≡ none)
      → is_trouble s ≡ true
      → current_phase w ≡ some p
      → is_active p.status ≡ true
      → p.retry_count < policy.max_retries
      → policy.max_retries ≤ u32_max
      → (u : WorkflowInstance) × (grants_retry (handle_signal s 0 policy upsert now w).0 ≡ true)
        × ((handle_signal s 0 policy upsert now w).1 ≡ u)
        × (current_phase u ≡ some (record p { retry_count = suc p.retry_count }))
  retried s now w p store t e a lt bound =
      let r : is_retry (decide_recovery s (retries_so_far w) policy (current_tier w)) ≡ true =
        (decide_recovery_exactly s (retries_so_far w) policy (current_tier w)).0
        ∙ rw (t, retries_so_far, e) (ground arith) in
      let f =
        get_elem?-modify_self w.phase_states w.current_phase_idx
          (λ r. record r { retry_count = saturating_inc r.retry_count }) e in
      let c : saturating_inc p.retry_count ≡ suc p.retry_count = omega arith in
      rw
        (
          trouble_lem s 0 now w t,
          act-retry now (decide_recovery s (retries_so_far w) policy (current_tier w)) w p store e a
              r,
        )
        (_, r, refl, f ∙ rw c refl)

  abbrev AllRetried : ℕ → List (MonitorResult RecoveryAction) × WorkflowInstance → Type 0
  AllRetried count (answers, u) =
      (all grants_retry answers ≡ true)
      × (p : PhaseState) × (current_phase u ≡ some p)
      × (is_active p.status ≡ true)
      × (p.retry_count ≡ count)

  all_retried :
      (signals : List ProgressSignal) (now : ℕ → Clock) (w : WorkflowInstance) (p : PhaseState)
      → ((id : String) (q : PhaseState) (i : ℕ) → upsert id q i ≡ none)
      → all is_trouble signals ≡ true
      → current_phase w ≡ some p
      → is_active p.status ≡ true
      → p.retry_count + length signals ≤ policy.max_retries
      → policy.max_retries ≤ u32_max
      → AllRetried (p.retry_count + length signals) (handle_all signals policy upsert now w)
  unfolding handle_all
  all_retried [] now w p store t e a le bound = (refl, p, e, a, omega arith)
  all_retried (s ∷ rest) now w p store t e a le bound =
      let ts : is_trouble s ≡ true = ground arith in
      let tr : all is_trouble rest ≡ true = ground arith in
      let (u, g, eu, e') = retried s (now 0) w p store ts e a (omega arith) bound in
      let (gs, q, eq, aq, cq) =
        all_retried rest (λ i. now (suc i)) u (record p { retry_count = suc p.retry_count }) store
          tr e' a (omega arith) bound in
      rw (g, eu) (gs, q, eq, aq, cq ∙ omega arith)

  escalated :
      (s : ProgressSignal) (now : Clock) (w : WorkflowInstance) (p : PhaseState)
      → is_trouble s ≡ true
      → current_phase w ≡ some p
      → policy.max_retries ≤ p.retry_count
      → (escalates (handle_signal s 0 policy upsert now w).0 ≡ true)
        × ((handle_signal s 0 policy upsert now w).1 ≡ w)
  escalated s now w p t e le =
      let a = decide_recovery s (retries_so_far w) policy (current_tier w) in
      let both = decide_recovery_exactly s (retries_so_far w) policy (current_tier w) in
      let r : is_escalation a ≡ true = both.1 ∙ rw (t, retries_so_far, e) (ground arith) in
      let n : is_retry a ≡ false = both.0 ∙ rw (t, retries_so_far, e) (ground arith) in
      rw (trouble_lem s 0 now w t, act-other now a w n) (r, refl)

  -- While the current phase is active and the store takes every write, and if the
  -- policy's maximum fits in a `u32`, the signals of trouble that
  -- use up the policy's retries are each answered with a retry; the next one is answered with an
  -- escalation, and it leaves the instance as it is.
  pub retries_run_out :
      (signals : List ProgressSignal) (last : ProgressSignal) (now : ℕ → Clock) (then_now : Clock)
      (w : WorkflowInstance) (p : PhaseState)
      → ((id : String) (q : PhaseState) (i : ℕ) → upsert id q i ≡ none)
      → all is_trouble signals ≡ true
      → is_trouble last ≡ true
      → current_phase w ≡ some p
      → is_active p.status ≡ true
      → p.retry_count + length signals ≡ policy.max_retries
      → policy.max_retries ≤ u32_max
      → let (answers, u) = handle_all signals policy upsert now w in
        let (answer, v) = handle_signal last 0 policy upsert then_now u in
        (all grants_retry answers ≡ true) × (escalates answer ≡ true) × (v ≡ u)
  retries_run_out signals last now then_now w p store t tl e a count bound =
      let (gs, q, eq, aq, cq) = all_retried signals now w p store t e a (omega arith) bound in
      let (g, same) =
        escalated last then_now (handle_all signals policy upsert now w).1 q tl eq (omega arith) in
      (gs, g, same)

  persist-same :
      (a : RecoveryAction) (o : Option PhaseState) (w : WorkflowInstance)
      → (persist upsert a o w).1 ≡ w
  persist-same a o w = ground arith

  act-IsValid :
      (a : RecoveryAction) (now : Clock) (w : WorkflowInstance)
      → IsValid w
      → IsValid (act upsert now a w).1
  act-IsValid (escalate r) now w v = v
  act-IsValid (cancel r) now w v = v
  act-IsValid (retry s t) now w v =
      go (increment_retry_count now w) (increment_retry_count-IsValid now w v)
    where
      go :
          (x : Result (Unit {0}) × WorkflowInstance)
          → IsValid x.1
          → IsValid
              (after_method "failed to increment retry count" x
                (λ u. persist upsert (retry s t) (current_phase u) u)).1
      go (ok i, u) vu = rw (persist-same (retry s t) (current_phase u) u) vu
      go (err e, u) vu = vu

  -- Handling a signal, with an error or without, keeps the instance valid.
  pub handle_signal-IsValid :
      (s : ProgressSignal) (n : ℕ) (now : Clock) (w : WorkflowInstance)
      → IsValid w
      → IsValid (handle_signal s n policy upsert now w).1
  unfolding handle_signal
  handle_signal-IsValid (phase_complete p) n now w v =
      go (complete_phase now w) (complete_phase-IsValid now w v)
    where
      go :
          (x : Result (Unit {0}) × WorkflowInstance)
          → IsValid x.1
          → IsValid
              (after_method {A = Unit {0}} "failed to complete phase" x
                (λ u. (reported (cancel "phase completed"), u))).1
      go (ok i, u) vu = vu
      go (err e, u) vu = vu
  handle_signal-IsValid (gate_satisfied g) n now w v = v
  handle_signal-IsValid (healthy p at) n now w v = v
  handle_signal-IsValid (stalled p since r) n now w v = act-IsValid _ now w v
  handle_signal-IsValid (failed p e) n now w v = act-IsValid _ now w v
