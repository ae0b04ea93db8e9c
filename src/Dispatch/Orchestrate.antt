-- ===== src/Dispatch/Orchestrate.antt =====
-- Dispatching a workflow: one Canopy task for each phase (src/dispatch/orchestrate.rs).
pub mod Tasks
pub mod Ends
use hymenium.Prelude.{
  ℕ, String, Bool, true, false, not, Option, none, some, List, [], ◌∷◌, ◌++◌, is_empty, str_eq,
  format, decimal, unwrap_or, if◌then◌else◌,
}
use hymenium.Handoff.{ParsedHandoff, HandoffMetadata}
use hymenium.Store.{agent_role_text}
use hymenium.Workflow.Template.{AgentRole, AgentTier, Phase, WorkflowTemplate, effective_agent_role}
use hymenium.Workflow.Engine.{WorkflowInstance, PhaseState, dispatched, new_instance, Timestamp}
use hymenium.Dispatch.Canopy.{DispatchError, invalid_state, DispatchResult, done, failed_with}
use hymenium.Dispatch.Packet.{
  process_role_text, agent_tier_text, capabilities_for_repo, TaskPacket, new_packet,
  tools_for_write_scope, build_constraints, build_acceptance_criteria,
}

pub record TaskOptions : Type 0 where
  pub required_role : Option AgentRole
  pub required_tier : Option AgentTier
  pub verification_required : Bool
  pub required_capabilities : List String
  pub requested_by : Option String
  pub workflow_id : Option String
  pub phase_id : Option String

-- The calls of the `CanopyClient` trait that change something.
pub data Call : Type 0 where
  create_task : String → String → String → TaskOptions → Call
  create_subtask : String → String → String → TaskOptions → Call
  assign_task : String → String → String → Call
  cancel_task : String → Call

-- Canopy's answer to a call, after the calls before it. Where the code uses no value, the text
-- of a success is not read.
abbrev pub Canopy : Type 0
Canopy = List Call → Call → DispatchResult String

-- An action on Canopy: from the calls so far to the calls then, and a result.
abbrev pub Action : Type 0 → Type 0
Action A = List Call → List Call × DispatchResult A

abbrev pub ask : Canopy → Call → Action String
ask canopy call calls = (calls ++ call ∷ [], canopy calls call)

abbrev pub after :
    {A B : Type 0} → List Call × DispatchResult A → (A → Action B) → List Call × DispatchResult B
after (calls, done a) f = f a calls
after (calls, failed_with e) f = (calls, failed_with e)

-- What is fixed for one dispatch. `ulid` is the number of a phase's fresh ULID, and `packet_json`
-- the serialization.
pub record Dispatch : Type 0 where
  pub handoff : ParsedHandoff
  pub workflow_id : String
  pub capabilities : List String
  pub parent_task_id : String
  pub ulid : String → String
  pub packet_json : TaskPacket → String

abbrev write_scope : Option HandoffMetadata → List String
write_scope none = []
write_scope (some meta) = meta.allowed_write_scope

unfoldable pub packet_of : Dispatch → Phase → TaskPacket
packet_of d phase =
    record (new_packet (d.ulid phase.phase_id) d.workflow_id phase.phase_id
      (format (
        "Execute the '"
        ∷ phase.phase_id
        ∷ "' phase ("
        ∷ process_role_text phase.role
        ∷ ") for handoff: "
        ∷ d.handoff.title
        ∷ []))
      (build_constraints d.handoff) (build_acceptance_criteria d.handoff)
      (record {
        tier = agent_tier_text phase.agent_tier;
        tools = tools_for_write_scope (write_scope d.handoff.metadata);
      })) { response_format = phase.response_format; request_heartbeat = phase.request_heartbeat }

unfoldable pub subtask_of : Dispatch → Phase → Call
unfolding packet_of
subtask_of d phase =
    create_subtask d.parent_task_id
      (format
        ("[" ∷ process_role_text phase.role ∷ "] " ∷ phase.phase_id ∷ " — " ∷ d.handoff.title ∷ []))
      (format (
        "Phase: "
        ∷ phase.phase_id
        ∷ " | Role: "
        ∷ process_role_text phase.role
        ∷ " | Tier: "
        ∷ agent_tier_text phase.agent_tier
        ∷ "\n\nTask packet:\n"
        ∷ d.packet_json (packet_of d phase)
        ∷ []))
      (record {
        required_role = phase.agent_role;
        required_tier = some phase.agent_tier;
        verification_required = not (is_empty phase.exit_gate.requires);
        required_capabilities = d.capabilities;
        requested_by = some "hymenium";
        workflow_id = some d.workflow_id;
        phase_id = some phase.phase_id;
      })

-- The compensating cancels: a failure of one is logged, and the next is tried.
unfoldable pub cancel_all : Canopy → List String → List Call → List Call
cancel_all canopy [] calls = calls
cancel_all canopy (id ∷ rest) calls = cancel_all canopy rest (ask canopy (cancel_task id) calls).0

-- The loop over the phases and their states; `created` are the tasks so far, in order.
unfoldable pub create_subtasks :
    Canopy → Dispatch → List String → List Phase → List PhaseState → Action (List PhaseState)
unfolding cancel_all subtask_of
create_subtasks canopy d created (phase ∷ phases) (state ∷ states) calls =
    let call = subtask_of d phase in
    elim (canopy calls call) [
      | failed_with e ↦ (cancel_all canopy created (calls ++ call ∷ []), failed_with e)
      | done id ↦
          after (create_subtasks canopy d (created ++ id ∷ []) phases states (calls ++ call ∷ []))
            (λ rest later. (later, done (record state { canopy_task_id = some id } ∷ rest)))
    ]
create_subtasks canopy d created _ states calls = (calls, done states)

unfoldable pub agent_name : AgentRole → String → String → ℕ → String
agent_name role repo slug run =
    format (agent_role_text role ∷ "/" ∷ repo ∷ "/" ∷ slug ∷ "/" ∷ decimal run ∷ [])

abbrev project_root : Option HandoffMetadata → String
project_root none = "."
project_root (some meta) = meta.owning_repo

-- The first phase's task is assigned, and its state takes the agent.
unfoldable pub assign_first :
    Canopy → String → String → List Phase → List PhaseState → Action (List PhaseState)
unfolding agent_name
assign_first canopy repo slug (phase ∷ phases) (state ∷ states) calls =
    let agent = agent_name (effective_agent_role phase) repo slug 1 in
    let assigned = record state { agent_id = some agent } ∷ states in
    elim state.canopy_task_id [
      | none ↦ (calls, done assigned)
      | some id ↦
          after (ask canopy (assign_task id agent "hymenium") calls)
            (λ _ later. (later, done assigned))
    ]
assign_first canopy repo slug phases states calls = (calls, done states)

-- What the dispatch asks of its surroundings: `Path::file_name`, the moment, fresh ULIDs and the
-- serialization. The slug of the handoff's title and the description of the parent task are made
-- by `handoff_slug` and `prepare_parent_description`, which are arguments here.
pub record Surroundings : Type 0 where
  pub file_name : String → Option String
  pub now : Timestamp
  pub ulid : String → String
  pub packet_json : TaskPacket → String
  pub handoff_slug : String → String
  pub parent_description : ParsedHandoff → WorkflowTemplate → DispatchResult String

abbrev parent_options : List String → TaskOptions
parent_options capabilities = record {
  required_role = none;
  required_tier = none;
  verification_required = false;
  required_capabilities = capabilities;
  requested_by = some "hymenium";
  workflow_id = none;
  phase_id = none;
}

abbrev pub repo_name : Surroundings → ParsedHandoff → String
repo_name s handoff =
    unwrap_or (s.file_name (project_root handoff.metadata)) (project_root handoff.metadata)

abbrev pub parent_of : Surroundings → ParsedHandoff → String → Call
parent_of s handoff description =
    create_task handoff.title description (project_root handoff.metadata)
      (parent_options (capabilities_for_repo (repo_name s handoff)))

abbrev pub dispatch_of : Surroundings → ParsedHandoff → String → String → Dispatch
dispatch_of s handoff workflow_id parent = record {
  handoff = handoff;
  workflow_id = workflow_id;
  capabilities = capabilities_for_repo (repo_name s handoff);
  parent_task_id = parent;
  ulid = s.ulid;
  packet_json = s.packet_json;
}

-- After the parent task has been created.
unfoldable pub dispatch_phases :
    Canopy
    → Surroundings
    → ParsedHandoff
    → WorkflowTemplate
    → String
    → String
    → String
    → Action WorkflowInstance
unfolding create_subtasks assign_first
dispatch_phases canopy s handoff template workflow_id path parent calls =
    let instance = new_instance workflow_id template path s.now in
    after
      (create_subtasks canopy (dispatch_of s handoff workflow_id parent) [] template.phases
        instance.phase_states calls)
      (λ states then_.
        after
          (assign_first canopy (repo_name s handoff) (s.handoff_slug handoff.title) template.phases
            states then_)
          (λ states later.
            (later, done (record instance { phase_states = states; status = dispatched }))))

unfoldable pub dispatch_workflow :
    Canopy
    → Surroundings
    → ParsedHandoff
    → WorkflowTemplate
    → String
    → String
    → Action WorkflowInstance
unfolding dispatch_phases
dispatch_workflow canopy s handoff template workflow_id path calls =
    if is_empty template.phases
    then (calls, failed_with (invalid_state "template has no phases — cannot dispatch"))
    else if str_eq (s.handoff_slug handoff.title) ""
    then (
      calls,
      failed_with (invalid_state "handoff title produced an empty slug — cannot form agent name"),
    )
    else elim (s.parent_description handoff template) [
      | failed_with e ↦ (calls, failed_with e)
      | done description ↦
          after (ask canopy (parent_of s handoff description) calls)
            (dispatch_phases canopy s handoff template workflow_id path)
    ]
