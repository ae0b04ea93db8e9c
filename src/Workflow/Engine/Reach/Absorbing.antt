-- ===== src/Workflow/Engine/Reach/Absorbing.antt =====
-- A completed workflow stays completed (src/workflow/engine.rs).
use hymenium.Prelude.{ℕ, suc, ◌≡◌, refl, ◌∙◌, String, Bool, true, some, length, arith}
use hymenium.Workflow.Template.{FileSystem}
use hymenium.Workflow.Gate.{GateEvaluator}
use hymenium.Workflow.Engine.State.{
  WorkflowStatus, PhaseStatus, PhaseState, WorkflowInstance, Clock, current_phase,
}
use hymenium.Workflow.Engine.Lifecycle.{
  start_phase, complete_phase, reconcile_complete_current_phase, reconcile_fail_current_phase,
  fail_phase, handoff_to_user_phase, resume_from_user_input,
}
use hymenium.Workflow.Engine.Counters.{increment_retry_count, record_tool_failure, record_request}
use hymenium.Workflow.Engine.Advance.{advance, complete_workflow}
use hymenium.Workflow.Engine.Invariant.{IsValid, Here, coherent}
use hymenium.Workflow.Engine.Invariant.Steps.{with_phase}
use hymenium.Workflow.Engine.Invariant.Moves.{states_count}
use hymenium.Workflow.Engine.Reach.{
  Step, Reach, Step-IsValid, start, complete, reconcile_complete, reconcile_fail, fail, handoff,
  resume, retry, tool_failure, request, move, finish, here, next,
}

-- The workflow is completed, with the phases and the log that it had.
abbrev pub StillCompleted : WorkflowInstance → WorkflowInstance → Type 0
StillCompleted w u =
    (u.status ≡ WorkflowStatus.completed)
    × (u.phase_states ≡ w.phase_states)
    × (u.transitions ≡ w.transitions)
    × (u.current_phase_idx ≡ w.current_phase_idx)

module _ (now : Clock) (w : WorkflowInstance) (p : PhaseState) (e : current_phase w ≡ some p)
    (c : p.status ≡ PhaseStatus.completed) (s : w.status ≡ WorkflowStatus.completed) where
  start_still : (fs : FileSystem) → StillCompleted w (start_phase fs now w).1
  unfolding start_phase
  start_still fs = ground arith

  complete_still : StillCompleted w (complete_phase now w).1
  unfolding complete_phase
  complete_still = ground arith

  reconcile_complete_still : StillCompleted w (reconcile_complete_current_phase now w).1
  unfolding reconcile_complete_current_phase
  reconcile_complete_still = ground arith

  reconcile_fail_still :
      (reason : String) → StillCompleted w (reconcile_fail_current_phase reason now w).1
  unfolding reconcile_fail_current_phase
  reconcile_fail_still reason = ground arith

  fail_still : (reason : String) → StillCompleted w (fail_phase reason now w).1
  unfolding fail_phase
  fail_still reason = ground arith

  handoff_still : (m : String) (b : Bool) → StillCompleted w (handoff_to_user_phase m b now w).1
  unfolding handoff_to_user_phase
  handoff_still m b = ground arith

  resume_still : StillCompleted w (resume_from_user_input now w).1
  unfolding resume_from_user_input
  resume_still = ground arith

  retry_still : StillCompleted w (increment_retry_count now w).1
  unfolding increment_retry_count
  retry_still = ground arith

  tool_failure_still : (n : ℕ) → StillCompleted w (record_tool_failure n now w).1
  unfolding record_tool_failure
  tool_failure_still n = rw (e, c) (s, refl, refl, refl)

  request_still : (n : ℕ) → StillCompleted w (record_request n now w).1
  unfolding record_request
  request_still n = rw (e, c) (s, refl, refl, refl)

  move_still :
      suc w.current_phase_idx ≡ length w.template.phases
      → (fs : FileSystem) (ev : GateEvaluator) → StillCompleted w (advance fs ev now w).1
  unfolding advance
  move_still last fs ev = ground arith

  finish_still : StillCompleted w (complete_workflow now w).1
  unfolding complete_workflow
  finish_still = ground arith

completed-Here :
    (s : WorkflowStatus) (p : PhaseState)
    → s ≡ WorkflowStatus.completed
    → Here s p
    → p.status ≡ PhaseStatus.completed
completed-Here s p e h = go p.status refl (rw e at h.0)
  where
    go :
        (x : PhaseStatus)
        → p.status ≡ x
        → coherent WorkflowStatus.completed p.status ≡ true
        → p.status ≡ PhaseStatus.completed
    go x q k = ground arith

Step-StillCompleted :
    {w u : WorkflowInstance}
    → Step w u
    → IsValid w
    → w.status ≡ WorkflowStatus.completed
    → StillCompleted w u
Step-StillCompleted {w} {u} step v s = with_phase w v λ p e h.
    let c = completed-Here w.status p s h in
    let last : suc w.current_phase_idx ≡ length w.template.phases =
      v.at_end s ∙ states_count (λ i. i) w v in
    go p e c last step
  where
    go :
        (p : PhaseState)
        → current_phase w ≡ some p
        → p.status ≡ PhaseStatus.completed
        → suc w.current_phase_idx ≡ length w.template.phases
        → {u : WorkflowInstance} → Step w u
        → StillCompleted w u
    go p e c last (start fs now) = start_still now w p e c s fs
    go p e c last (complete now) = complete_still now w p e c s
    go p e c last (reconcile_complete now) = reconcile_complete_still now w p e c s
    go p e c last (reconcile_fail reason now) = reconcile_fail_still now w p e c s reason
    go p e c last (fail reason now) = fail_still now w p e c s reason
    go p e c last (handoff m b now) = handoff_still now w p e c s m b
    go p e c last (resume now) = resume_still now w p e c s
    go p e c last (retry now) = retry_still now w p e c s
    go p e c last (tool_failure n now) = tool_failure_still now w p e c s n
    go p e c last (request n now) = request_still now w p e c s n
    go p e c last (move fs ev now) = move_still now w p e c s last fs ev
    go p e c last (finish now) = finish_still now w p e c s

Reach-keeps_IsValid : {w u : WorkflowInstance} → Reach w u → IsValid w → IsValid u
Reach-keeps_IsValid here v = v
Reach-keeps_IsValid (next r s) v = Step-IsValid s (Reach-keeps_IsValid r v)

-- A valid instance that is completed stays completed whichever of the engine's methods are called, in
-- whatever order, and its phases, its log and its cursor do not change any more.
pub completed_absorbs :
    {w u : WorkflowInstance}
    → IsValid w
    → w.status ≡ WorkflowStatus.completed
    → Reach w u
    → StillCompleted w u
completed_absorbs v s here = (s, refl, refl, refl)
completed_absorbs v s (next r step) =
    let (a, b, c, d) = completed_absorbs v s r in
    let (a', b', c', d') = Step-StillCompleted step (Reach-keeps_IsValid r v) a in
    (a', b' ∙ b, c' ∙ c, d' ∙ d)
