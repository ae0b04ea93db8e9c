-- ===== src/Dag.antt =====
-- DAG workflows: nodes, edges and their validation (src/workflow/dag/node.rs and loader.rs).
pub mod Sort
pub mod Node
pub mod Waves
pub mod Validation
use hymenium.Prelude.{
  ℕ, String, Bool, true, false, not, ◌||◌, Option, none, some, List, [], ◌∷◌, map, member, format,
  if◌then◌else◌,
}

pub data TriggerRule : Type 0 where
  all_success one_success : TriggerRule

pub data ContextMode : Type 0 where
  inherit fresh : ContextMode

pub record HookEntry : Type 0 where
  pub matcher : String
  pub additional_context : Option String
  pub system_message : Option String
  pub deny : Bool

pub record NodeHooks : Type 0 where
  pub pre_tool_use : List HookEntry
  pub post_tool_use : List HookEntry

pub record PromptNode : Type 0 where
  pub id : String
  pub prompt : String
  pub model : Option String
  pub context : ContextMode
  pub trigger_rule : TriggerRule
  pub allowed_tools : Option (List String)
  pub denied_tools : Option (List String)
  pub hooks : Option NodeHooks

pub record BashNode : Type 0 where
  pub id : String
  pub command : String
  pub trigger_rule : TriggerRule
  pub idle_timeout : Option ℕ

pub record LoopNode : Type 0 where
  pub id : String
  pub prompt : String
  pub until : String
  pub max_iterations : ℕ
  pub trigger_rule : TriggerRule
  pub context : ContextMode
  pub hooks : Option NodeHooks

pub record CommandNode : Type 0 where
  pub id : String
  pub skill : String
  pub args : List String
  pub trigger_rule : TriggerRule
  pub idle_timeout : Option ℕ

pub record ApprovalNode : Type 0 where
  pub id : String
  pub prompt : String
  pub trigger_rule : TriggerRule

pub data DagNode : Type 0 where
  prompt : PromptNode → DagNode
  bash : BashNode → DagNode
  loop : LoopNode → DagNode
  command : CommandNode → DagNode
  approval : ApprovalNode → DagNode

abbrev pub node_id : DagNode → String
node_id (prompt n) = n.id
node_id (bash n) = n.id
node_id (loop n) = n.id
node_id (command n) = n.id
node_id (approval n) = n.id

abbrev pub trigger_rule : DagNode → TriggerRule
trigger_rule (prompt n) = n.trigger_rule
trigger_rule (bash n) = n.trigger_rule
trigger_rule (loop n) = n.trigger_rule
trigger_rule (command n) = n.trigger_rule
trigger_rule (approval n) = n.trigger_rule

abbrev pub context_mode : DagNode → ContextMode
context_mode (prompt n) = n.context
context_mode (loop n) = n.context
context_mode _ = inherit

pub record DagEdge : Type 0 where
  pub from : String
  pub to : String

-- Environment variables, newest entry of a key first.
abbrev pub Env : Type 0
Env = List (String × String)

pub record WorkflowDag : Type 0 where
  pub workflow_id : String
  pub name : String
  pub description : String
  pub nodes : List DagNode
  pub edges : List DagEdge
  pub env : Env

-- `anyhow::Result<()>`: `none`, or the error's text.
-- The first loop of `validate_dag`; `seen` is the set of the IDs so far.
unfoldable pub check_ids : List String → List DagNode → Option String
check_ids seen [] = none
check_ids seen (n ∷ rest) =
    if member (node_id n) seen
    then some (format ("duplicate node ID: '" ∷ node_id n ∷ "'" ∷ []))
    else check_ids (node_id n ∷ seen) rest

abbrev edge_error : String → String → DagEdge → String
edge_error side id e = format (
    "edge references unknown " ∷ side ∷ " node '" ∷ id ∷ "' (from '" ∷ e.from ∷ "' to '" ∷ e.to
    ∷ "')" ∷ [])

-- The second loop, over the set of all IDs.
unfoldable pub check_edges : List String → List DagEdge → Option String
check_edges ids [] = none
check_edges ids (e ∷ rest) =
    if not (member e.from ids)
    then some (edge_error "source" e.from e)
    else if not (member e.to ids)
    then some (edge_error "target" e.to e)
    else check_edges ids rest

abbrev pub ids_of : List DagNode → List String
ids_of = map node_id

abbrev after_check : Option String → Option String → Option String
after_check (some e) next = some e
after_check none next = next

unfoldable pub validate_dag : WorkflowDag → Option String
unfolding check_ids check_edges
validate_dag dag = after_check (check_ids [] dag.nodes) (check_edges (ids_of dag.nodes) dag.edges)
