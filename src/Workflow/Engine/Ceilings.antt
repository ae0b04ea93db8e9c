-- ===== src/Workflow/Engine/Ceilings.antt =====
-- Counting up to a ceiling (`record_tool_failure` and `record_request` of
-- src/workflow/engine.rs).
use hymenium.Prelude.{
  ℕ, zero, suc, ◌+◌, ◌≤◌, String, ◌≡◌, refl, Bool, true, false, some, List, [], ◌∷◌, ◌++◌,
  replicate, ap, modify, get_elem?-modify_self, arith, leb,
}
use hymenium.Workflow.Engine.State.{
  WorkflowStatus, PhaseState, WorkflowInstance, Clock, Method, Result, ok, current_phase, is_active,
}
use hymenium.Workflow.Engine.Counters.{record_tool_failure, record_request, saturating_inc, u32_max}
use hymenium.Workflow.Engine.Invariant.Counting.{
  counted, at_tool_count, at_request_count, tool_reason, request_reason, record_tool_failure_lem,
  record_request_lem,
}

-- A method called `n` times, each call under its own clock: the answers, each with the workflow's
-- status after the call, and the final instance.
pub calls :
    (Clock → Method Bool)
    → ℕ
    → (ℕ → Clock)
    → WorkflowInstance
    → List (Result Bool × WorkflowStatus) × WorkflowInstance
calls m zero now w = ([], w)
calls m (suc n) now w =
    let (r, u) = m (now 0) w in
    let (rs, v) = calls m n (λ i. now (suc i)) u in ((r, u.status) ∷ rs, v)

-- The last of the calls answers `true` and fails the workflow; those before it answer `false` and
-- leave the status as it was.
abbrev pub LastHits : ℕ → WorkflowStatus → List (Result Bool × WorkflowStatus) → Type 0
LastHits n before answers =
    answers ≡ replicate n (ok false, before) ++ (ok true, WorkflowStatus.failed) ∷ []

module _ (m : Clock → Method Bool) (ceiling : ℕ) (at : ℕ → PhaseState → PhaseState)
    (count : PhaseState → ℕ) (reason : ℕ → String)
    (one_call : (now : Clock) (w : WorkflowInstance) (p : PhaseState)
      → current_phase w ≡ some p
      → is_active p.status ≡ true
      → m now w
        ≡ counted at (reason (saturating_inc (count p))) (saturating_inc (count p)) ceiling now w)
    (count-at : (n : ℕ) (r : PhaseState) → count (at n r) ≡ n)
    (status-at : (n : ℕ) (r : PhaseState) → (at n r).status ≡ r.status)
    (bound : ceiling ≤ u32_max) where
  calls_lem :
      (n : ℕ) (now : ℕ → Clock) (w : WorkflowInstance) (p : PhaseState)
      → current_phase w ≡ some p
      → is_active p.status ≡ true
      → count p + suc n ≡ ceiling
      → LastHits n w.status (calls m (suc n) now w).0
  unfolding calls
  calls_lem zero now w p e a h = rw (one_call (now 0) w p e a) (ground arith)
  calls_lem (suc n) now w p e a h =
      let c : ℕ = saturating_inc (count p) in
      let below : leb ceiling c ≡ false = ground arith in
      let u : WorkflowInstance = record w {
        phase_states = modify w.phase_states w.current_phase_idx (at c);
        updated_at = now 0 1;
      } in
      let answers =
        calls_lem n (λ i. now (suc i)) u (at c p)
          (get_elem?-modify_self w.phase_states w.current_phase_idx (at c) e) (rw (status-at c p) a)
          (rw (count-at c p) (ground arith)) in
      rw (one_call (now 0) w p e a, below) (ap (◌∷◌ (ok false, w.status)) answers)

module _ (n ceiling : ℕ) (now : ℕ → Clock) (w : WorkflowInstance) (p : PhaseState)
    (bound : ceiling ≤ u32_max) (e : current_phase w ≡ some p) (a : is_active p.status ≡ true) where
  -- While the current phase is active and the ceiling fits in a `u32`, the tool failure that brings
  -- the phase's count to the ceiling is answered with `true` and fails the workflow; each one before
  -- it is answered with `false` and leaves the workflow's status as it was.
  pub tool_failures_to_ceiling :
      p.tool_failure_count + suc n ≡ ceiling
      → LastHits n w.status (calls (record_tool_failure ceiling) (suc n) now w).0
  tool_failures_to_ceiling =
      calls_lem (record_tool_failure ceiling) ceiling at_tool_count (λ r. r.tool_failure_count)
        (λ c. tool_reason c ceiling) (λ clock. record_tool_failure_lem clock ceiling) (λ c r. refl)
        (λ c r. refl) bound n now w p e a

  -- While the current phase is active and the ceiling fits in a `u32`, the request that brings the
  -- phase's count to the ceiling is answered with `true` and fails the workflow; each one before it
  -- is answered with `false` and leaves the workflow's status as it was.
  pub requests_to_ceiling :
      p.request_count + suc n ≡ ceiling
      → LastHits n w.status (calls (record_request ceiling) (suc n) now w).0
  requests_to_ceiling =
      calls_lem (record_request ceiling) ceiling at_request_count (λ r. r.request_count)
        (λ c. request_reason c ceiling) (λ clock. record_request_lem clock ceiling) (λ c r. refl)
        (λ c r. refl) bound n now w p e a
