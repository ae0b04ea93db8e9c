-- ===== src/Workflow/Engine/Invariant/Counting.antt =====
-- The counting operations, step by step and against their ceilings (src/workflow/engine.rs).
use hymenium.Prelude.{
  ℕ, String, ◌≡◌, refl, Bool, true, false, inl, inr, some, modify, modify-modify, leb, Bool-cases,
  arith, if◌then◌else◌,
}
use hymenium.Workflow.Engine.State.{
  WorkflowStatus, PhaseState, WorkflowInstance, Clock, Result, ok, mark_failed, current_phase,
  is_active,
}
use hymenium.Workflow.Engine.Lifecycle.{with_reason}
use hymenium.Workflow.Engine.Counters.{
  record_tool_failure, record_request, saturating_inc, ceiling_reason,
}
use hymenium.Workflow.Engine.Invariant.{IsValid, Here}
use hymenium.Workflow.Engine.Invariant.Steps.{write, with_phase}

abbrev pub tool_reason : ℕ → ℕ → String
tool_reason = ceiling_reason "ExceededFailureCeiling" " tool failures reached ceiling of "

abbrev pub request_reason : ℕ → ℕ → String
request_reason = ceiling_reason "ExceededRequestCeiling" " requests reached ceiling of "

abbrev pub at_tool_count : ℕ → PhaseState → PhaseState
at_tool_count n r = record r { tool_failure_count = n }

abbrev pub at_request_count : ℕ → PhaseState → PhaseState
at_request_count n r = record r { request_count = n }

-- What a counting call leaves behind: below the ceiling the new count, at it a failed phase.
abbrev pub counted :
    (ℕ → PhaseState → PhaseState)
    → String
    → ℕ
    → ℕ
    → Clock
    → WorkflowInstance
    → Result Bool × WorkflowInstance
counted at reason n ceiling now w =
    if leb ceiling n
    then (
      ok true,
      record w {
        phase_states =
            modify w.phase_states w.current_phase_idx
              (λ r. mark_failed (now 0) (with_reason reason (at n r)));
        status = WorkflowStatus.failed;
        updated_at = now 1;
      },
    )
    else (
      ok false,
      record w {
        phase_states = modify w.phase_states w.current_phase_idx (at n);
        updated_at = now 1;
      },
    )

module _ (now : Clock) (ceiling : ℕ) (w : WorkflowInstance) (p : PhaseState)
    (e : current_phase w ≡ some p) (a : is_active p.status ≡ true) where
  pub record_tool_failure_lem :
      let n = saturating_inc p.tool_failure_count in
      record_tool_failure ceiling now w
      ≡ counted at_tool_count (tool_reason n ceiling) n ceiling now w
  unfolding record_tool_failure
  record_tool_failure_lem =
      rw (e, a)
        (elim (Bool-cases (leb ceiling (saturating_inc p.tool_failure_count))) [
          | inl hit ↦ rw hit (rw (modify-modify w.phase_states w.current_phase_idx) refl)
          | inr below ↦ rw below refl
        ])

  pub record_request_lem :
      let n = saturating_inc p.request_count in
      record_request ceiling now w
      ≡ counted at_request_count (request_reason n ceiling) n ceiling now w
  unfolding record_request
  record_request_lem =
      rw (e, a)
        (elim (Bool-cases (leb ceiling (saturating_inc p.request_count))) [
          | inl hit ↦ rw hit (rw (modify-modify w.phase_states w.current_phase_idx) refl)
          | inr below ↦ rw below refl
        ])

module _ (now : Clock) (w : WorkflowInstance) (v : IsValid w) where
  -- Both outcomes of a counting call keep the invariant.
  counted-IsValid :
      (at : ℕ → PhaseState → PhaseState) (reason : String) (n ceiling : ℕ) (p : PhaseState)
      → ((m : ℕ) (r : PhaseState) → (at m r).phase_id ≡ r.phase_id)
      → ((m : ℕ) (r : PhaseState) → (at m r).role ≡ r.role)
      → current_phase w ≡ some p
      → Here w.status (at n p)
      → Here WorkflowStatus.failed (mark_failed (now 0) (with_reason reason (at n p)))
      → IsValid (counted at reason n ceiling now w).1
  counted-IsValid at reason n ceiling p same_id same_role e here fail =
      elim (Bool-cases (leb ceiling n)) [
        | inl hit ↦ rw hit (
            write w.template.phases w.status WorkflowStatus.failed w.current_phase_idx
              w.phase_states (λ r. mark_failed (now 0) (with_reason reason (at n r))) p v e
              (same_id n) (same_role n) (λ q. cc) fail)
        | inr below ↦ rw below (
            write w.template.phases w.status w.status w.current_phase_idx w.phase_states (at n) p v
              e (same_id n) (same_role n) (λ q. q) here)
      ]

  pub record_tool_failure-IsValid : (ceiling : ℕ) → IsValid (record_tool_failure ceiling now w).1
  record_tool_failure-IsValid ceiling = with_phase w v λ p e here.
      elim (Bool-cases (is_active p.status)) [
        | inl a ↦
            let n = saturating_inc p.tool_failure_count in
            rw (record_tool_failure_lem now ceiling w p e a) (
              counted-IsValid at_tool_count (tool_reason n ceiling) n ceiling p (λ m r. refl)
                (λ m r. refl) e (ground arith) (ground arith))
        | inr idle ↦ unfold record_tool_failure in rw (e, idle) v
      ]

  pub record_request-IsValid : (ceiling : ℕ) → IsValid (record_request ceiling now w).1
  record_request-IsValid ceiling = with_phase w v λ p e here.
      elim (Bool-cases (is_active p.status)) [
        | inl a ↦
            let n = saturating_inc p.request_count in
            rw (record_request_lem now ceiling w p e a) (
              counted-IsValid at_request_count (request_reason n ceiling) n ceiling p (λ m r. refl)
                (λ m r. refl) e (ground arith) (ground arith))
        | inr idle ↦ unfold record_request in rw (e, idle) v
      ]
