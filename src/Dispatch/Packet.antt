-- ===== src/Dispatch/Packet.antt =====
-- The task packet of a phase, and what it is built from (src/dispatch/task_packet.rs,
-- src/dispatch/orchestrate.rs, src/dispatch/capability.rs).
use hymenium.Prelude.{
  ℕ, String, Bool, false, Option, none, some, List, [], ◌∷◌, ◌++◌, map, any, member, format, join,
  if◌then◌else◌,
}
use hymenium.Classify.{contains}
use hymenium.Handoff.{ParsedHandoff, HandoffMetadata, ParsedStep, VerificationBlock}
use hymenium.Workflow.Template.{
  ProcessRole, implementer, auditor, reviewer, operator, AgentTier, opus, sonnet, haiku, any_tier,
}

unfoldable pub process_role_text : ProcessRole → String
process_role_text implementer = "implementer"
process_role_text auditor = "auditor"
process_role_text reviewer = "reviewer"
process_role_text operator = "operator"

unfoldable pub agent_tier_text : AgentTier → String
agent_tier_text opus = "opus"
agent_tier_text sonnet = "sonnet"
agent_tier_text haiku = "haiku"
agent_tier_text any_tier = "any"

unfoldable pub capabilities_for_repo : String → List String
capabilities_for_repo repo =
    if member repo (
      "hymenium" ∷ "canopy" ∷ "mycelium" ∷ "hyphae" ∷ "rhizome" ∷ "spore" ∷ "stipe" ∷ "cortina"
      ∷ "annulus" ∷ "volva" ∷ [])
    then "rust" ∷ []
    else if member repo ("septa" ∷ [])
    then "schema" ∷ []
    else if member repo ("cap" ∷ [])
    then "frontend" ∷ []
    else if member repo ("lamella" ∷ [])
    then "docs" ∷ []
    else []

pub record CapabilityRequirements : Type 0 where
  pub tier : String
  pub tools : List String

pub record ContextBudget : Type 0 where
  pub max_tokens : ℕ  -- u64
  pub max_turns : ℕ  -- u64

-- `response_format` is kept as its JSON text.
pub record TaskPacket : Type 0 where
  pub schema_version : String
  pub task_id : String
  pub workflow_id : String
  pub phase_id : String
  pub goal : String
  pub constraints : List String
  pub dependencies : List String
  pub acceptance_criteria : List String
  pub capability_requirements : CapabilityRequirements
  pub context_budget : Option ContextBudget
  pub escalation_conditions : List String
  pub response_format : Option String
  pub request_heartbeat : Bool

-- The first argument is the fresh ULID.
unfoldable pub new_packet :
    String
    → String
    → String
    → String
    → List String
    → List String
    → CapabilityRequirements
    → TaskPacket
new_packet ulid workflow_id phase_id goal constraints acceptance_criteria required = record {
  schema_version = "1.0";
  task_id = ulid;
  workflow_id = workflow_id;
  phase_id = phase_id;
  goal = goal;
  constraints = constraints;
  dependencies = [];
  acceptance_criteria = acceptance_criteria;
  capability_requirements = required;
  context_budget = none;
  escalation_conditions =
      "Handoff spec is ambiguous or contradicts itself"
      ∷ "Required dependency task is not yet complete"
      ∷ "Three consecutive test failures after repair attempts" ∷ [];
  response_format = none;
  request_heartbeat = false;
}

abbrev source_patterns : List String
source_patterns = "src/" ∷ ".rs" ∷ ".ts" ∷ ".py" ∷ ".js" ∷ "lib/" ∷ []

abbrev pub is_source : String → Bool
is_source path = any (contains path) source_patterns

unfoldable pub tools_for_write_scope : List String → List String
tools_for_write_scope allowed =
    "bash" ∷ "read" ∷ (if any is_source allowed then "write" ∷ [] else [])

abbrev scope_constraints : List String → List String
scope_constraints = map (λ scope. format ("Write scope limited to " ∷ scope ∷ []))

abbrev read_only : List String → List String
read_only [] = []
read_only (p ∷ ps) =
    if any is_source (p ∷ ps)
    then []
    else format ("Source code is read-only; artifact writes allowed at: " ∷ join ", " (p ∷ ps) ∷ [])
      ∷ []

abbrev non_goal_constraints : List String → List String
non_goal_constraints = map (λ goal. format ("Non-goal (do not implement): " ∷ goal ∷ []))

abbrev metadata_constraints : Option HandoffMetadata → List String
metadata_constraints none = []
metadata_constraints (some meta) =
    scope_constraints meta.allowed_write_scope
    ++ (read_only meta.allowed_write_scope ++ non_goal_constraints meta.non_goals)

unfoldable pub build_constraints : ParsedHandoff → List String
build_constraints handoff = metadata_constraints handoff.metadata

abbrev verification_criteria : Option VerificationBlock → List String
verification_criteria none = []
verification_criteria (some v) = map (λ cmd. format ("Verification passes: " ∷ cmd ∷ [])) v.commands

unfoldable pub criteria_of : List ParsedStep → List String
criteria_of [] = []
criteria_of (step ∷ rest) =
    verification_criteria step.verification
    ++ (map (λ item. item.text) step.checklist ++ criteria_of rest)

unfoldable pub build_acceptance_criteria : ParsedHandoff → List String
unfolding criteria_of
build_acceptance_criteria handoff = criteria_of handoff.steps
