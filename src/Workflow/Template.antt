-- ===== src/Workflow/Template.antt =====
-- Workflow templates: phases, gates, transitions, and their validation (src/workflow/template.rs).
pub mod Validation
use hymenium.Prelude.{
  ℕ, String, Bool, not, ◌||◌, Option, none, some, List, [], ◌∷◌, ◌++◌, any, is_empty, str_eq,
  format, if◌then◌else◌, unwrap_or,
}

-- A path relative to the workspace root, or an absolute one.
pub record ArtifactRequirement : Type 0 where
  pub path : String
  pub description : String
  pub required : Bool

pub data ProcessRole : Type 0 where
  implementer auditor reviewer operator : ProcessRole

pub data AgentRole : Type 0 where
  spec_author workflow_planner packet_compiler decomposition_checker : AgentRole
  workflow_coordinator worker output_verifier repair_worker final_verifier : AgentRole

pub data AgentTier : Type 0 where
  opus sonnet haiku any_tier : AgentTier

pub data ProbeMethod : Type 0 where
  file_exists canary_string exit_code : ProbeMethod

pub record PhaseRubric : Type 0 where
  pub condition : String
  pub probe_method : ProbeMethod
  pub pass_criteria : String
  pub fail_criteria : String
  pub exclusions : List String

pub record Gate : Type 0 where
  pub requires : List String

-- `response_format` is carried through and never read: it is kept as its JSON text.
pub record Phase : Type 0 where
  pub phase_id : String
  pub role : ProcessRole
  pub agent_role : Option AgentRole
  pub agent_tier : AgentTier
  pub entry_gate : Gate
  pub exit_gate : Gate
  pub rubric : Option PhaseRubric
  pub max_tool_failure_per_phase : Option ℕ
  pub max_requests_per_phase : Option ℕ
  pub required_artifacts : List ArtifactRequirement
  pub response_format : Option String
  pub request_heartbeat : Bool

pub record Transition : Type 0 where
  pub from_phase : String
  pub to_phase : String
  pub condition : String

pub record WorkflowTemplate : Type 0 where
  pub schema_version : String
  pub template_id : String
  pub name : String
  pub description : String
  pub phases : List Phase
  pub transitions : List Transition
  pub max_tool_failure_per_phase : ℕ
  pub max_requests_per_phase : ℕ

abbrev default_agent_role : ProcessRole → AgentRole
default_agent_role implementer = worker
default_agent_role auditor = output_verifier
default_agent_role reviewer = final_verifier
default_agent_role operator = workflow_coordinator

abbrev pub effective_agent_role : Phase → AgentRole
effective_agent_role p = unwrap_or p.agent_role (default_agent_role p.role)

-- The file system as the engine asks it: `Path::is_absolute`, `Path::join` and `Path::exists`.
pub record FileSystem : Type 0 where
  pub is_absolute : String → Bool
  pub path_join : String → String → String
  pub exists : String → Bool

-- `Result<Vec<String>, Vec<String>>`: the warnings, or the errors.
pub data ArtifactCheck : Type 0 where
  present : List String → ArtifactCheck
  absent : List String → ArtifactCheck

abbrev resolve : FileSystem → Option String → ArtifactRequirement → String
resolve fs none a = a.path
resolve fs (some root) a = if fs.is_absolute a.path then a.path else fs.path_join root a.path

unfoldable pub missing_message : ArtifactRequirement → String
missing_message a = format (
    (if a.required then "Required" else "Optional")
    ∷ " artifact missing: "
    ∷ a.path
    ∷ " ("
    ∷ a.description
    ∷ ")"
    ∷ [])

-- The loop over `required_artifacts`, with `warnings` and `errors` as they stand.
unfoldable pub check_artifacts :
    FileSystem
    → Option String
    → List ArtifactRequirement
    → List String
    → List String
    → ArtifactCheck
check_artifacts fs root [] warnings errors =
    if is_empty errors then present warnings else absent errors
check_artifacts fs root (a ∷ rest) warnings errors =
    let message = missing_message a in
    let missing = not (fs.exists (resolve fs root a)) in
    check_artifacts fs root rest
      (if missing then (if a.required then warnings else warnings ++ message ∷ []) else warnings)
      (if missing then (if a.required then errors ++ message ∷ [] else errors) else errors)

unfoldable pub check_artifact_prerequisites : FileSystem → Phase → Option String → ArtifactCheck
unfolding check_artifacts
check_artifact_prerequisites fs phase root = check_artifacts fs root phase.required_artifacts [] []

pub data TemplateError : Type 0 where
  invalid_phase_reference : String → String → TemplateError
  duplicate_phase_id not_found : String → TemplateError

abbrev pub has_id : String → List Phase → Bool
has_id id = any (λ p. str_eq p.phase_id id)

-- The first phase whose ID an earlier phase has; `seen` holds the IDs in the set so far.
unfoldable pub find_duplicate : List String → List Phase → Option String
find_duplicate seen [] = none
find_duplicate seen (p ∷ rest) =
    if any (λ id. str_eq id p.phase_id) seen
    then some p.phase_id
    else find_duplicate (p.phase_id ∷ seen) rest

-- The first transition with an end that is no phase.
unfoldable pub find_dangling : List Phase → List Transition → Option TemplateError
find_dangling phases [] = none
find_dangling phases (t ∷ rest) =
    if not (has_id t.from_phase phases) || not (has_id t.to_phase phases)
    then some (invalid_phase_reference t.from_phase t.to_phase)
    else find_dangling phases rest

abbrev after_ids : WorkflowTemplate → Option String → Option TemplateError
after_ids t (some id) = some (duplicate_phase_id id)
after_ids t none = find_dangling t.phases t.transitions

-- `none` is `Ok(())`.
unfoldable pub validate : WorkflowTemplate → Option TemplateError
unfolding find_duplicate find_dangling
validate t = after_ids t (find_duplicate [] t.phases)

-- `TemplateRegistry`: its map, newest entry first.
abbrev pub Registry : Type 0
Registry = List (String × WorkflowTemplate)

-- `TemplateResult`.
pub data TemplateResult (A : Type 0) : Type 0 where
  accepted : A → TemplateResult A
  refused : TemplateError → TemplateResult A

abbrev register_validated :
    Option TemplateError → WorkflowTemplate → Registry → TemplateResult Registry
register_validated (some e) t r = refused e
register_validated none t r = accepted ((t.template_id, t) ∷ r)

unfoldable pub register : WorkflowTemplate → Registry → TemplateResult Registry
unfolding validate
register t r = register_validated (validate t) t r

unfoldable pub get : String → Registry → TemplateResult WorkflowTemplate
get id [] = refused (not_found id)
get id ((k, t) ∷ rest) = if str_eq k id then accepted t else get id rest
