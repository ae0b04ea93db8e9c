-- ===== src/Dispatch/Orchestrate/Ends.antt =====
-- How the dispatch of a workflow ends (src/dispatch/orchestrate.rs).
use mathlib.Core.Path.{subst}
use hymenium.Prelude.{
  String, false, some, List, [], ◌∷◌, ◌++◌, ◌≡◌, refl, sym, arith, ◌⊎◌, inl, inr, str_eq,
}
use hymenium.Handoff.{ParsedHandoff}
use hymenium.Workflow.Template.{Phase, WorkflowTemplate, effective_agent_role}
use hymenium.Workflow.Engine.{WorkflowInstance, PhaseState, dispatched, new_instance}
use hymenium.Dispatch.Canopy.{DispatchError, DispatchResult, done, failed_with}
use hymenium.Dispatch.Orchestrate.{
  Call, assign_task, Canopy, Dispatch, assign_first, agent_name, Surroundings, repo_name, parent_of,
  dispatch_of, dispatch_phases, dispatch_workflow,
}
use hymenium.Dispatch.Orchestrate.Tasks.{
  Created, created, with_tasks, Undone, states_of, DispatchResult-cases, create_subtasks_lem,
}

-- The agent of the first phase.
abbrev pub first_agent : Surroundings → ParsedHandoff → Phase → String
first_agent s handoff phase =
    agent_name (effective_agent_role phase) (repo_name s handoff) (s.handoff_slug handoff.title) 1

abbrev with_agent : String → List PhaseState → List PhaseState
with_agent agent [] = []
with_agent agent (s ∷ states) = record s { agent_id = some agent } ∷ states

-- All the tasks are created, and the first one is asked to be assigned.
pub record Offered (canopy : Canopy) (d : Dispatch) (calls : List Call) (phase : Phase)
    (phases : List Phase) (agent : String) : Type 0 where
  pub id : String
  pub ids : List String
  pub later : List Call
  pub creating : Created canopy d calls (phase ∷ phases) (id ∷ ids) later

abbrev pub offer : String → String → Call
offer id agent = assign_task id agent "hymenium"

-- A dispatched instance: each phase has its task, and the first its agent.
abbrev pub dispatched_instance :
    Surroundings → WorkflowTemplate → String → String → String → List String → WorkflowInstance
dispatched_instance s template workflow_id path agent ids =
    record (new_instance workflow_id template path s.now) {
      phase_states = with_agent agent (with_tasks ids (states_of template.phases));
      status = dispatched;
    }

-- The three ways for the dispatch to end once the parent task is there.
abbrev pub Ends :
    Canopy
    → Surroundings
    → ParsedHandoff
    → WorkflowTemplate
    → String
    → String
    → Phase
    → List Phase
    → Dispatch
    → List Call
    → List Call × DispatchResult WorkflowInstance
    → Type 0
Ends canopy s handoff template workflow_id path phase phases d calls r =
    let agent : String = first_agent s handoff phase in
    ((o : Offered canopy d calls phase phases agent) × (((a : String) × (canopy o.later
              (offer o.id agent)
            ≡ done a)
          × (r ≡ (
            o.later ++ offer o.id agent ∷ [],
            done (dispatched_instance s template workflow_id path agent (o.id ∷ o.ids)),
          )))
        ⊎ ((e : DispatchError) × (canopy o.later (offer o.id agent) ≡ failed_with e)
            × (r ≡ (o.later ++ offer o.id agent ∷ [], failed_with e)))))
    ⊎ Undone canopy d [] calls (phase ∷ phases) r

offered :
    (canopy : Canopy) (d : Dispatch) (calls later : List Call) (phase : Phase) (phases : List Phase)
    (ids : List String)
    → Created canopy d calls (phase ∷ phases) ids later
    → (id : String) × (rest : List String) × (ids ≡ id ∷ rest)
offered canopy d calls later phase phases ids (created r c) = (_, _, refl)

dispatch_phases-Ends :
    (canopy : Canopy) (s : Surroundings) (handoff : ParsedHandoff) (template : WorkflowTemplate)
    (workflow_id path parent : String) (phase : Phase) (phases : List Phase) (calls : List Call)
    → template.phases ≡ phase ∷ phases
    → Ends canopy s handoff template workflow_id path phase phases
        (dispatch_of s handoff workflow_id parent)
        calls
        (dispatch_phases canopy s handoff template workflow_id path parent calls)
unfolding dispatch_phases assign_first new_instance
dispatch_phases-Ends canopy s handoff template workflow_id path parent phase phases calls p =
    let d : Dispatch = dispatch_of s handoff workflow_id parent in
    let agent : String = first_agent s handoff phase in
    elim (create_subtasks_lem canopy d [] (phase ∷ phases) calls) [
      | inr u ↦ inr (record {
        early = u.early;
        phase = u.phase;
        rest = u.rest;
        ids = u.ids;
        later = u.later;
        error = u.error;
        split = u.split;
        creating = u.creating;
        refused = u.refused;
        result = ground (arith, p, u.result);
      })
      | inl c ↦
          let (id, ids, same) = offered canopy d calls c.later phase phases c.ids c.creating in
          let o : Offered canopy d calls phase phases agent = record {
            id = id;
            ids = ids;
            later = c.later;
            creating =
                subst (λ xs. Created canopy d calls (phase ∷ phases) xs c.later) same c.creating;
          } in
          inl (
            o,
            elim (DispatchResult-cases (canopy c.later (offer id agent))) [
              | inl (a, r) ↦ inl (a, r, ground (arith, p, same, c.result, r))
              | inr (e, r) ↦ inr (e, r, ground (arith, p, same, c.result, r))
            ],
          )
    ]

-- For a template with a first phase, a handoff whose title has a slug, a description for the parent
-- task, and a Canopy that creates the parent task, the dispatch asks Canopy for one task for each
-- phase, in order, and ends in one of three ways. Either all the tasks are created and the first is
-- assigned: the result is the new instance, dispatched, in which each phase has its task and the
-- first its agent. Or all are created and the assignment fails with the error that is the result,
-- and no task is cancelled. Or the creation for some phase fails with the error that is the result:
-- exactly the tasks created for the phases before it are then cancelled, in their order, whatever
-- the cancels answer, and nothing is assigned. No other call that changes Canopy is made.
pub dispatch_workflow-Ends :
    (canopy : Canopy) (s : Surroundings) (handoff : ParsedHandoff) (template : WorkflowTemplate)
    (workflow_id path description parent : String) (phase : Phase) (phases : List Phase)
    (calls : List Call)
    → template.phases ≡ phase ∷ phases
    → str_eq (s.handoff_slug handoff.title) "" ≡ false
    → s.parent_description handoff template ≡ done description
    → canopy calls (parent_of s handoff description) ≡ done parent
    → Ends canopy s handoff template workflow_id path phase phases
        (dispatch_of s handoff workflow_id parent)
        (calls ++ parent_of s handoff description ∷ [])
        (dispatch_workflow canopy s handoff template workflow_id path calls)
unfolding dispatch_workflow
dispatch_workflow-Ends canopy s handoff template workflow_id path description parent phase phases
      calls p n t c =
    let made : List Call = calls ++ parent_of s handoff description ∷ [] in
    let same : dispatch_workflow canopy s handoff template workflow_id path calls
        ≡ dispatch_phases canopy s handoff template workflow_id path parent made =
      ground (arith, p, n, t, c) in
    subst
      (Ends canopy s handoff template workflow_id path phase phases
        (dispatch_of s handoff workflow_id parent) made)
      (sym same)
      (dispatch_phases-Ends canopy s handoff template workflow_id path parent phase phases made p)
