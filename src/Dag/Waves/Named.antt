-- ===== src/Dag/Waves/Named.antt =====
-- Nodes and results found by their IDs (src/workflow/dag/executor.rs).
use hymenium.Prelude.{
  ℕ, String, true, false, not, Option, none, some, List, [], ◌∷◌, ◌≡◌, refl, arith, inl, inr,
  filter, member, str_eq, eq_iff, Option-cases, Bool-cases, if◌then◌else◌,
}
use hymenium.Dag.{DagNode, CommandNode, node_id, ids_of, prompt, bash, loop, command, approval, Env}
use hymenium.Dag.Node.{
  NodeResult, Outside, run_skill, execute_node, Ending, exited, not_run, Process, ended, awaited,
}
use hymenium.Dag.Waves.{node_of, result_of, insert_result}

result_of-others :
    (results : List NodeResult) (id x : String)
    → str_eq id x ≡ false
    → result_of (filter (λ s. not (str_eq s.node_id id)) results) x ≡ result_of results x
result_of-others [] id x n = refl
result_of-others (r ∷ rs) id x n =
    ground (arith, n, result_of-others rs id x, eq_iff r.node_id id, eq_iff r.node_id x)

pub result_of-insert_result :
    (r : NodeResult) (results : List NodeResult) (x : String)
    → result_of (insert_result r results) x
      ≡ (if str_eq r.node_id x then some r else result_of results x)
result_of-insert_result r results x = ground (arith, result_of-others results r.node_id x)

pub node_id-result_of :
    (results : List NodeResult) (x : String) (r : NodeResult)
    → result_of results x ≡ some r
    → r.node_id ≡ x
node_id-result_of [] x r h = cc
node_id-result_of (s ∷ rs) x r h = ground (arith, h, node_id-result_of rs x r, eq_iff s.node_id x)

node_of-some :
    (ns : List DagNode) (x : String) (n : DagNode)
    → node_of ns x ≡ some n
    → member x (ids_of ns) ≡ true
node_of-some [] x n h = cc
node_of-some (m ∷ ns) x n h = ground (arith, h, node_of-some ns x n)

pub node_of-member :
    (ns : List DagNode) (x : String)
    → member x (ids_of ns) ≡ true
    → (n : DagNode) × (node_of ns x ≡ some n) × (node_id n ≡ x)
node_of-member [] x h = ground (arith, h)
node_of-member (n ∷ ns) x h = elim (Option-cases (node_of ns x)) [
  | inr (m, e) ↦
      let (m', f, i) = node_of-member ns x (node_of-some ns x m e) in (m', ground (arith, f), i)
  | inl e ↦ elim (Bool-cases (member x (ids_of ns))) [
    | inl t ↦ let (m, f, i) = node_of-member ns x t in ground (arith, e, f)
    | inr f ↦ (n, ground (arith, e, f, h), ground (arith, f, h, eq_iff (node_id n) x))
  ]
]

node_id-ended : (id : String) (e : Ending) → (ended id e).node_id ≡ id
node_id-ended id (exited ok s) = refl
node_id-ended id (not_run e) = refl

node_id-awaited : (id : String) (t : Option ℕ) (p : Process) → (awaited id t p).node_id ≡ id
node_id-awaited id none p = node_id-ended id p.ending
node_id-awaited id (some secs) p = ground (arith, node_id-ended id p.ending)

node_id-run_skill :
    (o : Outside) (prior : List NodeResult) (n : CommandNode) (path : Option String)
    → (run_skill o prior n path).node_id ≡ n.id
unfolding run_skill
node_id-run_skill o prior n (some path) = node_id-awaited n.id n.idle_timeout _
node_id-run_skill o prior n none = refl

-- A node's result is stored under its ID.
pub node_id-execute_node :
    (o : Outside) (env : Env) (prior : List NodeResult) (n : DagNode)
    → (execute_node o env prior n).node_id ≡ node_id n
unfolding execute_node
node_id-execute_node o env prior (bash n) = node_id-awaited n.id n.idle_timeout _
node_id-execute_node o env prior (command n) = node_id-run_skill o prior n (o.which n.skill)
node_id-execute_node o env prior (prompt n) = refl
node_id-execute_node o env prior (loop n) = refl
node_id-execute_node o env prior (approval n) = refl
