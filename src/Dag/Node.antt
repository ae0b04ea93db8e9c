-- ===== src/Dag/Node.antt =====
-- The execution of one node, and the references it expands (src/workflow/dag/executor.rs).
use Prim.Native.String.{len, slice, ◌++◌ as ◌+++◌}
use text.Mathlib.Text.{find?}
use hymenium.Prelude.{
  ℕ, zero, suc, ◌+◌, String, Bool, ◌||◌, Option, none, some, List, [], ◌∷◌, map, leb, str_eq,
  format, decimal, ◌==◌, if◌then◌else◌,
}
use hymenium.Dag.{DagNode, CommandNode, prompt, bash, loop, command, approval, Env}

pub data NodeStatus : Type 0 where
  success failed skipped : NodeStatus

pub record NodeResult : Type 0 where
  pub node_id : String
  pub status : NodeStatus
  pub output : String

-- How a process ends, and whether it still runs after so many seconds.
pub data Ending : Type 0 where
  exited : Bool → String → Ending
  not_run : String → Ending

pub record Process : Type 0 where
  pub ending : Ending
  pub overruns : ℕ → Bool

-- What the code asks of its surroundings: a node is run at most once, so the answers may depend
-- on its ID. `iteration` is the order of a map's entries, `arrival` that in which tasks end.
pub record Outside : Type 0 where
  pub shell : String → String → Env → Process
  pub which : String → Option String
  pub spawn : String → String → List String → Process
  pub read_line : String → Option String
  pub trim_lowercase : String → String
  pub iteration : List NodeResult → List NodeResult
  pub arrival : List String → List String
  pub join_error : String → Option String

-- `str::replace`: `fuel` is at least the number of occurrences.
unfoldable pub replace_from : ℕ → String → String → String → String
replace_from zero text pattern by = text
replace_from (suc fuel) text pattern by = elim (find? text pattern) [
  | none ↦ text
  | some i ↦
      slice text 0 i
      +++ (by +++ replace_from fuel (slice text (i + len pattern) (len text)) pattern by)
]

unfoldable pub replace : String → String → String → String
unfolding replace_from
replace text pattern by = replace_from (len text) text pattern by

-- A stable insertion, longest ID first.
unfoldable pub insert_longest : NodeResult → List NodeResult → List NodeResult
insert_longest r [] = r ∷ []
insert_longest r (s ∷ rest) =
    if leb (len s.node_id) (len r.node_id) then r ∷ s ∷ rest else s ∷ insert_longest r rest

unfoldable pub sort_longest : List NodeResult → List NodeResult
unfolding insert_longest
sort_longest [] = []
sort_longest (r ∷ rest) = insert_longest r (sort_longest rest)

unfoldable pub replace_all : List NodeResult → String → String
unfolding replace
replace_all [] text = text
replace_all (r ∷ rest) text =
    replace_all rest (replace text (format ("$" ∷ r.node_id ∷ ".output" ∷ [])) r.output)

unfoldable pub expand_variables : Outside → String → List NodeResult → String
unfolding sort_longest replace_all
expand_variables o text results = replace_all (sort_longest (o.iteration results)) text

-- A whole number of seconds as `{:?}` shows it.
abbrev debug_secs : ℕ → String
debug_secs n = if n == 0 then "0ns" else format (decimal n ∷ "s" ∷ [])

abbrev pub ended : String → Ending → NodeResult
ended id (exited ok stdout) = record {
  node_id = id;
  status = if ok then success else failed;
  output = stdout;
}
ended id (not_run e) = record {
  node_id = id;
  status = failed;
  output = format ("execution error: " ∷ e ∷ []);
}

abbrev pub awaited : String → Option ℕ → Process → NodeResult
awaited id none p = ended id p.ending
awaited id (some secs) p =
    if p.overruns secs
    then record {
      node_id = id;
      status = failed;
      output = format ("node timed out after " ∷ debug_secs secs ∷ []);
    }
    else ended id p.ending

abbrev pub skip : String → NodeResult
skip id = record { node_id = id; status = skipped; output = "" }

abbrev answered : Outside → Option String → String
answered o none = ""
answered o (some line) = o.trim_lowercase line

-- A skill, where it is found.
unfoldable pub run_skill : Outside → List NodeResult → CommandNode → Option String → NodeResult
unfolding expand_variables
run_skill o prior n (some path) =
    awaited n.id n.idle_timeout
      (o.spawn n.id path (map (λ arg. expand_variables o arg prior) n.args))
run_skill o prior n none = record {
  node_id = n.id;
  status = failed;
  output = format ("skill '" ∷ n.skill ∷ "' not found in PATH" ∷ []);
}

unfoldable pub execute_node : Outside → Env → List NodeResult → DagNode → NodeResult
unfolding expand_variables run_skill
execute_node o env prior (bash n) =
    awaited n.id n.idle_timeout (o.shell n.id (expand_variables o n.command prior) env)
execute_node o env prior (command n) = run_skill o prior n (o.which n.skill)
execute_node o env prior (prompt n) = skip n.id
execute_node o env prior (loop n) = skip n.id
execute_node o env prior (approval n) =
    let response = answered o (o.read_line n.id) in
    record {
      node_id = n.id;
      status = if str_eq response "y" || str_eq response "yes" then success else failed;
      output = response;
    }
