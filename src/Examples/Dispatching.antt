-- ===== src/Examples/Dispatching.antt =====
-- Dispatching the example to a Canopy that is calm, and to one that refuses a phase.
use hymenium.Prelude.{◌≡◌, refl, String, Option, none, some, [], ◌∷◌, map, if◌then◌else◌, str_eq}
use hymenium.Handoff.{ParsedHandoff}
use hymenium.Workflow.Engine.{PhaseState}
use hymenium.Dispatch.Canopy.{DispatchResult, done, failed_with, canopy_error}
use hymenium.Dispatch.Orchestrate.{
  Call, create_task, create_subtask, assign_task, cancel_task, Canopy, Surroundings, TaskOptions,
  dispatch_workflow, dispatch_of, parent_of,
}
use hymenium.Dispatch.Orchestrate.Ends.{Ends, dispatch_workflow-Ends}
use hymenium.Examples.{two_phases, build_phase, audit_phase}

abbrev paper : ParsedHandoff
paper = record {
  title = "Ship it";
  metadata = none;
  problem = "";
  state = [];
  intent = "";
  steps = [];
  completion_protocol = none;
  context = none;
}

abbrev desk : Surroundings
desk = record {
  file_name = λ path. none;
  now = 7;
  ulid = λ phase. phase;
  packet_json = λ packet. packet.goal;
  handoff_slug = λ title. "ship-it";
  parent_description = λ handoff template. done "the work";
}

-- Tasks are named for their phases, and the second phase is refused.
abbrev name_of : TaskOptions → DispatchResult String
name_of options = elim options.phase_id [
  | none ↦ done "parent"
  | some id ↦ if str_eq id "audit" then failed_with (canopy_error "full") else done id
]

abbrev strict : Canopy
strict calls (create_task _ _ _ options) = name_of options
strict calls (create_subtask _ _ _ options) = name_of options
strict calls _ = done ""

-- What the calls are, without their texts.
data Kind : Type 0 where
  making : Option String → Kind
  giving cancelling : String → Kind

abbrev kind : Call → Kind
kind (create_task _ _ _ options) = making options.phase_id
kind (create_subtask _ _ _ options) = making options.phase_id
kind (assign_task id _ _) = giving id
kind (cancel_task id) = cancelling id

strict-calls :
    map kind (dispatch_workflow strict desk paper two_phases "w" "paper.md" []).0
    ≡ making none ∷ making (some "implement") ∷ making (some "audit") ∷ cancelling "implement" ∷ []
unfolding dispatch_workflow hymenium.Workflow.Engine.new_instance
strict-calls = refl

dispatch_workflow-Ends_example :
    Ends strict desk paper two_phases "w" "paper.md" build_phase
      (audit_phase ∷ [])
      (dispatch_of desk paper "w" "parent")
      (parent_of desk paper "the work" ∷ [])
      (dispatch_workflow strict desk paper two_phases "w" "paper.md" [])
dispatch_workflow-Ends_example =
    dispatch_workflow-Ends strict desk paper two_phases "w" "paper.md" "the work" "parent"
      build_phase (audit_phase ∷ []) [] refl refl refl refl
