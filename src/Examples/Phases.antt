-- ===== src/Examples/Phases.antt =====
-- Runs of the engine.
use hymenium.Prelude.{arith, ◌≡◌, ◌≢◌, refl, []}
use hymenium.Workflow.Gate.{permissive, evaluate_all}
use hymenium.Workflow.Engine.{
  WorkflowStatus, WorkflowInstance, new_instance, start_phase, complete_phase, fail_phase, advance,
  can_advance, check_entry, complete_workflow, record_tool_failure, record_request,
}
use hymenium.Workflow.Engine.Invariant.{IsValid}
use hymenium.Workflow.Engine.Reach.{
  Reach, fail, here, next, start, complete, move, finish, Reach-IsValid,
}
use hymenium.Workflow.Engine.Reach.Log.{FollowsTemplate, Reach-FollowsTemplate}
use hymenium.Workflow.Engine.Reach.Absorbing.{StillCompleted, completed_absorbs}
use hymenium.Workflow.Engine.Ceilings.{
  calls, LastHits, tool_failures_to_ceiling, requests_to_ceiling,
}
use hymenium.Examples.{two_phases, clock, no_files, at_work, active_build}

some_phase : two_phases.phases ≢ []
some_phase e = cc

abbrev fresh_instance : WorkflowInstance
fresh_instance = new_instance "wf-1" two_phases "handoff.md" 900

abbrev started : WorkflowInstance
started = (start_phase no_files clock fresh_instance).1

abbrev first_completed : WorkflowInstance
first_completed = (complete_phase clock started).1

abbrev moved : WorkflowInstance
moved = (advance no_files permissive clock first_completed).1

abbrev second_completed : WorkflowInstance
second_completed = (complete_phase clock (start_phase no_files clock moved).1).1

abbrev ended : WorkflowInstance
ended = (complete_workflow clock second_completed).1

to_moved : Reach fresh_instance moved
to_moved =
    next (next (next here (start no_files clock)) (complete clock)) (move no_files permissive clock)

to_ended : Reach fresh_instance ended
to_ended = next (next (next to_moved (start no_files clock)) (complete clock)) (finish clock)

ended_is_completed : ended.status ≡ WorkflowStatus.completed
unfolding new_instance start_phase complete_phase advance complete_workflow can_advance evaluate_all
    check_entry
ended_is_completed = refl

Reach-IsValid_example : IsValid moved
Reach-IsValid_example = Reach-IsValid "wf-1" two_phases "handoff.md" 900 some_phase to_moved

Reach-FollowsTemplate_example : FollowsTemplate ended
Reach-FollowsTemplate_example =
    Reach-FollowsTemplate "wf-1" two_phases "handoff.md" 900 some_phase to_ended

tool_failures_to_ceiling_example :
    LastHits 2 at_work.status (calls (record_tool_failure 3) 3 (λ i. clock) at_work).0
tool_failures_to_ceiling_example =
    tool_failures_to_ceiling 2 3 (λ i. clock) at_work active_build (omega arith) refl refl refl

requests_to_ceiling_example :
    LastHits 2 at_work.status (calls (record_request 3) 3 (λ i. clock) at_work).0
requests_to_ceiling_example =
    requests_to_ceiling 2 3 (λ i. clock) at_work active_build (omega arith) refl refl refl

completed_absorbs_example : StillCompleted ended (fail_phase "too late" clock ended).1
completed_absorbs_example =
    completed_absorbs (Reach-IsValid "wf-1" two_phases "handoff.md" 900 some_phase to_ended)
      ended_is_completed (next here (fail "too late" clock))
