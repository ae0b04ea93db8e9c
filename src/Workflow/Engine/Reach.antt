-- ===== src/Workflow/Engine/Reach.antt =====
-- The engine as a step relation: any method, under any clock, file system and gate evaluator
-- (src/workflow/engine.rs).
pub mod Log
pub mod Absorbing
use native.Mathlib.Numerals.{add-one}
use hymenium.Prelude.{ℕ, suc, String, Bool, ◌≡◌, ◌≢◌, refl, List, [], ◌∷◌, map, length, arith}
use hymenium.Workflow.Template.{FileSystem, Phase, WorkflowTemplate, effective_agent_role}
use hymenium.Workflow.Gate.{GateEvaluator}
use hymenium.Workflow.Engine.State.{
  WorkflowStatus, Clock, PhaseState, WorkflowInstance, new_instance, new_phase_state, Timestamp,
}
use hymenium.Workflow.Engine.Lifecycle.{
  start_phase, complete_phase, reconcile_complete_current_phase, reconcile_fail_current_phase,
  fail_phase, handoff_to_user_phase, resume_from_user_input,
}
use hymenium.Workflow.Engine.Counters.{increment_retry_count, record_tool_failure, record_request}
use hymenium.Workflow.Engine.Advance.{advance, complete_workflow}
use hymenium.Workflow.Engine.Invariant.{IsValid, Named, Future}
use hymenium.Workflow.Engine.Invariant.Cursor.{All}
use hymenium.Workflow.Engine.Invariant.Steps.{
  start_phase-IsValid, complete_phase-IsValid, reconcile_complete-IsValid, reconcile_fail-IsValid,
  fail_phase-IsValid, handoff-IsValid, resume-IsValid, increment_retry_count-IsValid,
}
use hymenium.Workflow.Engine.Invariant.Counting.{
  record_tool_failure-IsValid, record_request-IsValid,
}
use hymenium.Workflow.Engine.Invariant.Moves.{advance-IsValid, complete_workflow-IsValid}

-- One call, whether it succeeds or fails.
pub data Step (w : WorkflowInstance) : WorkflowInstance → Type 0 where
  start : (fs : FileSystem) (now : Clock) → Step w (start_phase fs now w).1
  complete : (now : Clock) → Step w (complete_phase now w).1
  reconcile_complete : (now : Clock) → Step w (reconcile_complete_current_phase now w).1
  reconcile_fail :
      (reason : String) (now : Clock) → Step w (reconcile_fail_current_phase reason now w).1
  fail : (reason : String) (now : Clock) → Step w (fail_phase reason now w).1
  handoff :
      (message : String) (breakout : Bool) (now : Clock)
      → Step w (handoff_to_user_phase message breakout now w).1
  resume : (now : Clock) → Step w (resume_from_user_input now w).1
  retry : (now : Clock) → Step w (increment_retry_count now w).1
  tool_failure : (ceiling : ℕ) (now : Clock) → Step w (record_tool_failure ceiling now w).1
  request : (ceiling : ℕ) (now : Clock) → Step w (record_request ceiling now w).1
  move : (fs : FileSystem) (ev : GateEvaluator) (now : Clock) → Step w (advance fs ev now w).1
  finish : (now : Clock) → Step w (complete_workflow now w).1

pub data Reach (w : WorkflowInstance) : WorkflowInstance → Type 0 where
  here : Reach w w
  next : {u v : WorkflowInstance} → Reach w u → Step u v → Reach w v

pub Step-IsValid : {w u : WorkflowInstance} → Step w u → IsValid w → IsValid u
Step-IsValid {w} (start fs now) v = start_phase-IsValid now w v fs
Step-IsValid {w} (complete now) v = complete_phase-IsValid now w v
Step-IsValid {w} (reconcile_complete now) v = reconcile_complete-IsValid now w v
Step-IsValid {w} (reconcile_fail reason now) v = reconcile_fail-IsValid now w v reason
Step-IsValid {w} (fail reason now) v = fail_phase-IsValid now w v reason
Step-IsValid {w} (handoff message breakout now) v = handoff-IsValid now w v message breakout
Step-IsValid {w} (resume now) v = resume-IsValid now w v
Step-IsValid {w} (retry now) v = increment_retry_count-IsValid now w v
Step-IsValid {w} (tool_failure ceiling now) v = record_tool_failure-IsValid now w v ceiling
Step-IsValid {w} (request ceiling now) v = record_request-IsValid now w v ceiling
Step-IsValid {w} (move fs ev now) v = advance-IsValid now w v fs ev
Step-IsValid {w} (finish now) v = complete_workflow-IsValid now w v

abbrev fresh : List Phase → List PhaseState
fresh = map (λ p. new_phase_state p.phase_id (effective_agent_role p))

fresh-Named : (ps : List Phase) → Named (fresh ps) ps
fresh-Named [] = tt
fresh-Named (p ∷ ps) = (refl, refl, fresh-Named ps)

fresh-Future : (ps : List Phase) → All Future (fresh ps)
fresh-Future [] = tt
fresh-Future (p ∷ ps) = ((refl, (refl, refl, refl)), fresh-Future ps)

pub new_instance-IsValid :
    (id : String) (t : WorkflowTemplate) (path : String) (now : Timestamp)
    → t.phases ≢ []
    → IsValid (new_instance id t path now)
unfolding new_instance
new_instance-IsValid id t path now some_phase = go t.phases refl
  where
    go : (ps : List Phase) → t.phases ≡ ps → IsValid (new_instance id t path now)
    go [] e = absurd (some_phase e)
    go (p ∷ ps) e = record {
      named = fresh-Named t.phases;
      cursor = rw e ((refl, (refl, refl, refl)), fresh-Future ps);
      at_end = λ q. cc;
    }

-- Whatever is called, in whatever order: from a new instance of a template with a phase, the
-- phases before the current one are completed, those behind it are untouched, the workflow's
-- status goes with the current phase's, and the timestamps go with the statuses.
pub Reach-IsValid :
    (id : String) (t : WorkflowTemplate) (path : String) (now : Timestamp) {w : WorkflowInstance}
    → t.phases ≢ []
    → Reach (new_instance id t path now) w
    → IsValid w
Reach-IsValid id t path now some_phase here = new_instance-IsValid id t path now some_phase
Reach-IsValid id t path now some_phase (next r s) =
    Step-IsValid s (Reach-IsValid id t path now some_phase r)
