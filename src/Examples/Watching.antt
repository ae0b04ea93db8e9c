-- ===== src/Examples/Watching.antt =====
-- The monitor and its recoveries, on the example.
use hymenium.Prelude.{
  ◌+◌, ◌<◌, ◌≤◌, ◌≡◌, refl, true, false, not, ◌&&◌, all, some, none, [], ◌∷◌, leb, ltb, min, arith,
}
use hymenium.Failure.{minor_defect, new_failure}
use hymenium.Workflow.Template.{sonnet}
use hymenium.Workflow.Engine.{PhaseState, Timestamp, current_phase}
use hymenium.Workflow.Engine.Invariant.{IsValid}
use hymenium.Retry.{default_policy, decide_recovery, decide_recovery_typed}
use hymenium.Retry.Limits.{
  is_retry, is_escalation, is_trouble, decide_recovery_exactly, decide_recovery_typed_ends,
  is_unretryable, is_cancellation, is_dependency,
}
use hymenium.Monitor.Signal.{MonitorConfig, ProgressSignal, stalled, failed, no_code_diff}
use hymenium.Monitor.Progress.{Chrono, converted, check_progress}
use hymenium.Monitor.Handler.{UpsertPhaseState, handle_signal}
use hymenium.Monitor.Timing.{stalls-check_progress_late}
use hymenium.Monitor.Recovery.{
  grants_retry, escalates, handle_all, retries_run_out, handle_signal-IsValid,
}
use hymenium.Examples.{at_work-IsValid, clock, at_work, active_build, task_in, canopy_with}

abbrev chatty : ProgressSignal
chatty = stalled "implement" 1000 no_code_diff

abbrev broken : ProgressSignal
broken = failed "implement" "canopy task task-1 failed"

abbrev store : UpsertPhaseState
store id p i = none

abbrev from_std : Chrono
from_std d = converted d

abbrev config : MonitorConfig
config = record {
  heartbeat_timeout = 300;
  progress_timeout = 1800;
  completeness_check_interval = 120;
}

retries_run_out_example :
    let (answers, u) =
      handle_all (chatty ∷ broken ∷ []) default_policy store (λ i. clock) at_work in
    let (answer, v) = handle_signal chatty 0 default_policy store clock u in
    (all grants_retry answers ≡ true) × (escalates answer ≡ true) × (v ≡ u)
retries_run_out_example =
    retries_run_out default_policy store (chatty ∷ broken ∷ []) chatty (λ i. clock) clock at_work
      active_build (λ id q i. refl) refl refl refl refl refl (omega arith)

handle_signal-IsValid_example :
    IsValid (handle_signal broken 0 default_policy store clock at_work).1
handle_signal-IsValid_example =
    handle_signal-IsValid default_policy store broken 0 clock at_work at_work-IsValid

decide_recovery_exactly_example :
    (is_retry (decide_recovery chatty 1 default_policy sonnet) ≡ (is_trouble chatty && ltb 1 2))
    × (is_escalation (decide_recovery chatty 1 default_policy sonnet)
        ≡ (is_trouble chatty && leb 2 1))
decide_recovery_exactly_example = decide_recovery_exactly chatty 1 default_policy sonnet

decide_recovery_typed_ends_example :
    let defect = new_failure minor_defect in
    let retried = is_retry (decide_recovery_typed defect 3 default_policy) in
    (is_retry (decide_recovery_typed defect 2 default_policy) ≡ false → retried ≡ false)
    × (0 < 3 → 2 ≤ 3 → retried ≡ false)
    × (is_unretryable minor_defect ≡ true → retried ≡ false)
    × (is_cancellation (decide_recovery_typed defect 3 default_policy) ≡ is_dependency minor_defect)
    × (is_escalation (decide_recovery_typed defect 3 default_policy)
        ≡ (not retried && not (is_dependency minor_defect)))
decide_recovery_typed_ends_example =
    decide_recovery_typed_ends (new_failure minor_defect) 2 3 default_policy (omega arith)

stalls-check_progress_late_example :
    (p : PhaseState) × (since : Timestamp) × (current_phase at_work ≡ some p)
    × (p.started_at ≡ some since)
    × (since + min 300 1800 < 1400)
stalls-check_progress_late_example =
    stalls-check_progress_late at_work (canopy_with (task_in "pending" false false)) from_std config
      1400 300 1800 refl refl (unfold check_progress in refl)
