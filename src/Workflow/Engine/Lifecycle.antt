-- ===== src/Workflow/Engine/Lifecycle.antt =====
-- Starting, completing, failing, pausing and resuming the current phase.
use hymenium.Prelude.{String, Bool, true, false, none, some, [], ◌∷◌, format, join, if◌then◌else◌}
use hymenium.Workflow.Template.{
  FileSystem, ArtifactCheck, present, absent, check_artifact_prerequisites,
}
use hymenium.Workflow.Engine.State.{
  WorkflowStatus, in_progress, user_terminated, PhaseStatus, active, skipped, phase_status_debug,
  workflow_status_debug, is_pending, is_active, is_awaiting, Clock, PhaseState, mark_active,
  mark_completed, mark_failed, WorkflowError, gate_failed, state_error, Method, ◌>>=◌, ◌>>◌, pure,
  raise, change, read, ensure, expect_phase, expect_template_phase, change_phase, set_status, touch,
}

-- "cannot <what> phase <id> <how> <Status>"
unfoldable pub phase_error : String → String → PhaseState → WorkflowError
unfolding phase_status_debug
phase_error what how p = state_error (
    format (
      "cannot "
      ∷ what
      ∷ " phase "
      ∷ p.phase_id
      ∷ " "
      ∷ how
      ∷ " "
      ∷ phase_status_debug p.status
      ∷ []))

-- The `match artifact_result` of `start_phase` and `advance`.
abbrev pub require_artifacts : String → ArtifactCheck → Method (Unit {0})
require_artifacts phase_id (present warnings) = pure tt
require_artifacts phase_id (absent errors) = do
  change (λ w. record w { blocked_on = some (join "; " errors) })
  raise (gate_failed phase_id (format ("artifact prerequisites not met: " ∷ join "; " errors ∷ [])))

unfoldable pub start_phase : FileSystem → Clock → Method (Unit {0})
unfolding phase_error check_artifact_prerequisites
start_phase fs now = do
  phase ← expect_phase
  ensure (is_pending phase.status) (phase_error "start" "in status" phase)
  template_phase ← expect_template_phase
  require_artifacts phase.phase_id (check_artifact_prerequisites fs template_phase none)
  change_phase (mark_active (now 0))
  set_status in_progress
  touch (now 1)

unfoldable pub complete_phase : Clock → Method (Unit {0})
unfolding phase_error
complete_phase now = do
  phase ← expect_phase
  ensure (is_active phase.status) (phase_error "complete" "from status" phase)
  change_phase (mark_completed (now 0))
  touch (now 1)

-- The `match phase.status` of `reconcile_complete_current_phase`.
abbrev settle_completed : PhaseStatus → WorkflowError → Clock → Method (Unit {0})
settle_completed PhaseStatus.pending e now =
    change_phase (λ p. mark_completed (now 1) (mark_active (now 0) p))
settle_completed active e now = change_phase (mark_completed (now 0))
settle_completed PhaseStatus.awaiting_user_input e now = change_phase (mark_completed (now 0))
settle_completed PhaseStatus.completed e now = pure tt
settle_completed PhaseStatus.failed e now = raise e
settle_completed skipped e now = raise e

unfoldable pub reconcile_complete_current_phase : Clock → Method (Unit {0})
unfolding phase_error
reconcile_complete_current_phase now = do
  phase ← expect_phase
  settle_completed phase.status (phase_error "reconcile-complete" "from terminal status" phase) now
  touch (now 2)

abbrev pub with_reason : String → PhaseState → PhaseState
with_reason reason p = record p { failure_reason = some reason }

abbrev settle_failed : PhaseStatus → WorkflowError → String → Clock → Method (Unit {0})
settle_failed PhaseStatus.pending e reason now =
    change_phase (λ p. mark_failed (now 1) (with_reason reason (mark_active (now 0) p)))
settle_failed active e reason now = change_phase (λ p. mark_failed (now 0) (with_reason reason p))
settle_failed PhaseStatus.awaiting_user_input e reason now =
    change_phase (λ p. mark_failed (now 0) (with_reason reason p))
settle_failed PhaseStatus.failed e reason now = pure tt
settle_failed PhaseStatus.completed e reason now = raise e
settle_failed skipped e reason now = raise e

unfoldable pub reconcile_fail_current_phase : String → Clock → Method (Unit {0})
unfolding phase_error
reconcile_fail_current_phase reason now = do
  phase ← expect_phase
  settle_failed phase.status (phase_error "reconcile-fail" "from terminal status" phase) reason now
  set_status WorkflowStatus.failed
  touch (now 2)

unfoldable pub fail_phase : String → Clock → Method (Unit {0})
unfolding phase_error
fail_phase reason now = do
  phase ← expect_phase
  ensure (is_active phase.status) (phase_error "fail" "from status" phase)
  change_phase (λ p. mark_failed (now 0) (with_reason reason p))
  set_status WorkflowStatus.failed
  touch (now 1)

unfoldable pub handoff_to_user_phase : String → Bool → Clock → Method (Unit {0})
handoff_to_user_phase message breakout now = do
  phase ← expect_phase
  ensure (is_active phase.status) (
      state_error (
        format (
          "cannot handoff_to_user from phase "
          ∷ phase.phase_id
          ∷ " in status "
          ∷ phase_status_debug phase.status
          ∷ [])))
  if breakout
      then (do
        change_phase (λ p. mark_failed (now 0) (with_reason message p))
        set_status user_terminated)
      else (do
        change_phase (λ p. record p {
          pending_message = some message;
          status = PhaseStatus.awaiting_user_input;
        })
        set_status WorkflowStatus.awaiting_user_input)
  touch (now 1)

abbrev workflow_awaits : WorkflowStatus → Bool
workflow_awaits WorkflowStatus.awaiting_user_input = true
workflow_awaits _ = false

unfoldable pub resume_from_user_input : Clock → Method (Unit {0})
resume_from_user_input now = do
  status ← read (λ w. w.status)
  workflow_id ← read (λ w. w.workflow_id)
  ensure (workflow_awaits status) (
      state_error (
        format (
          "cannot resume workflow "
          ∷ workflow_id
          ∷ " — status is "
          ∷ workflow_status_debug status
          ∷ ", not AwaitingUserInput"
          ∷ [])))
  phase ← expect_phase
  ensure (is_awaiting phase.status) (
      state_error (
        format (
          "cannot resume phase "
          ∷ phase.phase_id
          ∷ " — status is "
          ∷ phase_status_debug phase.status
          ∷ ", not AwaitingUserInput"
          ∷ [])))
  change_phase (λ p. record p { pending_message = none; status = active })
  set_status in_progress
  touch (now 0)
