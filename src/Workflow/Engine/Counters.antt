-- ===== src/Workflow/Engine/Counters.antt =====
-- The per-phase counters and their ceilings.
use hymenium.Prelude.{
  ℕ, ◌+◌, String, Bool, true, false, Option, [], ◌∷◌, leb, min, format, decimal, if◌then◌else◌,
  unwrap_or,
}
use hymenium.Workflow.Template.{Phase}
use hymenium.Workflow.Engine.State.{
  WorkflowStatus, is_active, phase_status_debug, Clock, mark_failed, WorkflowInstance,
  current_template_phase, state_error, Method, ◌>>=◌, ◌>>◌, pure, ensure, expect_phase,
  change_phase, set_status, touch,
}
use hymenium.Workflow.Engine.Lifecycle.{phase_error, with_reason}

abbrev pub u32_max : ℕ
u32_max = 4294967295

-- `saturating_add(1)` on a `u32`.
abbrev pub saturating_inc : ℕ → ℕ
saturating_inc n = min (n + 1) u32_max

unfoldable pub increment_retry_count : Clock → Method (Unit {0})
increment_retry_count now = do
  phase ← expect_phase
  ensure (is_active phase.status) (
      state_error (
        format (
          "cannot retry phase "
          ∷ phase.phase_id
          ∷ " not in Active status "
          ∷ phase_status_debug phase.status
          ∷ [])))
  change_phase (λ p. record p { retry_count = saturating_inc p.retry_count })
  touch (now 0)

-- `Exceeded<Kind>Ceiling: <count> <what> reached ceiling of <ceiling>`
unfoldable pub ceiling_reason : String → String → ℕ → ℕ → String
ceiling_reason kind what count ceiling =
    format (kind ∷ ": " ∷ decimal count ∷ what ∷ decimal ceiling ∷ [])

unfoldable pub record_tool_failure : ℕ → Clock → Method Bool
unfolding phase_error ceiling_reason
record_tool_failure ceiling now = do
  phase ← expect_phase
  ensure (is_active phase.status) (phase_error "record tool failure for" "in status" phase)
  let count = saturating_inc phase.tool_failure_count
  change_phase (λ p. record p { tool_failure_count = count })
  if leb ceiling count
      then (do
        change_phase (λ p. mark_failed (now 0) (
            with_reason
              (ceiling_reason "ExceededFailureCeiling" " tool failures reached ceiling of " count
                ceiling)
              p))
        touch (now 1)
        set_status WorkflowStatus.failed
        pure true)
      else (do touch (now 1); pure false)

unfoldable pub record_request : ℕ → Clock → Method Bool
unfolding phase_error ceiling_reason
record_request ceiling now = do
  phase ← expect_phase
  ensure (is_active phase.status) (phase_error "record request for" "in status" phase)
  let count = saturating_inc phase.request_count
  change_phase (λ p. record p { request_count = count })
  if leb ceiling count
      then (do
        change_phase (λ p. mark_failed (now 0) (
            with_reason
              (ceiling_reason "ExceededRequestCeiling" " requests reached ceiling of " count
                ceiling)
              p))
        touch (now 1)
        set_status WorkflowStatus.failed
        pure true)
      else (do touch (now 1); pure false)

abbrev ceiling_of : (Phase → Option ℕ) → ℕ → Option Phase → ℕ
ceiling_of f default (Option.some p) = unwrap_or (f p) default
ceiling_of f default Option.none = default

unfoldable pub effective_tool_failure_ceiling : WorkflowInstance → ℕ
effective_tool_failure_ceiling w =
    ceiling_of (λ p. p.max_tool_failure_per_phase) w.template.max_tool_failure_per_phase
      (current_template_phase w)

unfoldable pub effective_request_ceiling : WorkflowInstance → ℕ
effective_request_ceiling w =
    ceiling_of (λ p. p.max_requests_per_phase) w.template.max_requests_per_phase
      (current_template_phase w)
