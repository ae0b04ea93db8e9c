-- ===== src/Workflow/Gate.antt =====
-- Gate conditions and their evaluators (src/workflow/gate.rs).
pub mod Evaluation
use hymenium.Prelude.{
  ℕ, String, Bool, true, false, not, ◌&&◌, Option, none, some, List, [], ◌∷◌, ◌++◌, map, all,
  filter, str_eq, format, if◌then◌else◌, unwrap_or,
}

pub data GateError : Type 0 where
  evaluation_error : String → GateError
  condition_not_met : String → String → GateError

-- The `Display` of the error.
unfoldable pub error_text : GateError → String
error_text (evaluation_error m) = format ("gate evaluation failed: " ∷ m ∷ [])
error_text (condition_not_met c ctx) =
    format ("gate condition not met: " ∷ c ∷ " (context: " ∷ ctx ∷ ")" ∷ [])

pub data GateResult (A : Type 0) : Type 0 where
  evaluated : A → GateResult A
  gate_error : GateError → GateResult A

infixl 10 ◌>>=◌
abbrev ◌>>=◌ : {A B : Type 0} → GateResult A → (A → GateResult B) → GateResult B
evaluated a >>= f = f a
gate_error e >>= f = gate_error e

pub data GateCondition : Type 0 where
  code_diff_exists verification_passed audit_clean findings_resolved : GateCondition
  custom : String → GateCondition

-- The `Display` of the condition.
unfoldable pub condition_text : GateCondition → String
condition_text code_diff_exists = "code_diff_exists"
condition_text verification_passed = "verification_passed"
condition_text audit_clean = "audit_clean"
condition_text findings_resolved = "findings_resolved"
condition_text (custom s) = s

unfoldable pub parse_gate_condition : String → GateCondition
parse_gate_condition s =
    if str_eq s "code_diff_exists"
    then code_diff_exists
    else if str_eq s "verification_passed"
    then verification_passed
    else if str_eq s "audit_clean"
    then audit_clean
    else if str_eq s "findings_resolved"
    then findings_resolved
    else custom s

-- A string map, as the list of its entries; the newest entry of a key comes first.
abbrev pub Metadata : Type 0
Metadata = List (String × String)

pub record GateContext : Type 0 where
  pub workflow_id : String
  pub phase_id : String
  pub metadata : Metadata

abbrev pub new_context : String → String → GateContext
new_context workflow_id phase_id = record {
  workflow_id = workflow_id;
  phase_id = phase_id;
  metadata = [];
}

abbrev pub with_metadata : GateContext → String → String → GateContext
with_metadata ctx key value = record ctx { metadata = (key, value) ∷ ctx.metadata }

pub record ConditionEvaluation : Type 0 where
  pub condition : GateCondition
  pub is_passed : Bool
  pub reason : String

pub record GateEvaluation : Type 0 where
  pub phase_id : String
  pub conditions : List ConditionEvaluation
  pub all_passed : Bool

abbrev pub passed : GateEvaluation → Bool
passed e = e.all_passed && all (λ c. c.is_passed) e.conditions

unfoldable pub failures : GateEvaluation → List String
unfolding condition_text
failures e = map (λ c. condition_text c.condition) (filter (λ c. not c.is_passed) e.conditions)

-- The trait: `evaluate` is the required method.
pub record GateEvaluator : Type 0 where
  pub evaluate : GateCondition → GateContext → GateResult ConditionEvaluation

-- The loop of `evaluate_all`, with the evaluations so far.
unfoldable pub evaluate_each :
    GateEvaluator
    → GateContext
    → List GateCondition
    → List ConditionEvaluation
    → GateResult (List ConditionEvaluation)
evaluate_each ev ctx [] evals = evaluated evals
evaluate_each ev ctx (c ∷ rest) evals = do
  e ← ev.evaluate c ctx
  evaluate_each ev ctx rest (evals ++ e ∷ [])

unfoldable pub evaluate_all :
    GateEvaluator → List GateCondition → GateContext → GateResult GateEvaluation
unfolding evaluate_each
evaluate_all ev conditions ctx = do
  evals ← evaluate_each ev ctx conditions []
  evaluated (record {
    phase_id = ctx.phase_id;
    conditions = evals;
    all_passed = all (λ e. e.is_passed) evals;
  })

-- `PermissiveGateEvaluator`.
abbrev pub permissive : GateEvaluator
permissive = record {
  evaluate = λ c ctx. evaluated (record {
    condition = c;
    is_passed = true;
    reason = "condition satisfied (permissive reconciliation)";
  });
}

-- What `EvidenceGateEvaluator` reads of its task.
pub record Evidence : Type 0 where
  pub has_code_diff : Bool
  pub has_verification_passed : Bool

-- `find_audit_verdict` has no field to read yet, and finds no verdict.
abbrev find_audit_verdict : Evidence → Option (Bool × String)
find_audit_verdict e = none

abbrev audit_reading : Option (Bool × String) → Bool × String
audit_reading (some verdict) = verdict
audit_reading none = (false, "audit gate requires explicit evidence binding — no verdict found")

unfoldable pub read_evidence : Evidence → GateCondition → Bool × String
read_evidence e code_diff_exists = (
  e.has_code_diff,
  if e.has_code_diff then "code diff is present" else "no code diff recorded for this task",
)
read_evidence e verification_passed = (
  e.has_verification_passed,
  if e.has_verification_passed
      then "verification evidence is present and passed"
      else "no passing verification evidence for this task",
)
read_evidence e audit_clean = audit_reading (find_audit_verdict e)
read_evidence e findings_resolved = audit_reading (find_audit_verdict e)
read_evidence e (custom name) =
    (false, format ("unknown custom condition '" ∷ name ∷ "' — defaulting to blocked" ∷ []))

unfoldable pub evidence_gate : Evidence → GateEvaluator
unfolding read_evidence
evidence_gate e = record {
  evaluate = λ c ctx.
      evaluated (record {
        condition = c;
        is_passed = (read_evidence e c).0;
        reason = (read_evidence e c).1;
      });
}

-- `MockGateEvaluator`, with its map of conditions to verdicts.
abbrev pub Passing : Type 0
Passing = List (String × Bool)

abbrev lookup_condition : String → Passing → Option Bool
lookup_condition k [] = none
lookup_condition k ((j, b) ∷ rest) = if str_eq j k then some b else lookup_condition k rest

unfoldable pub mock_evaluate : Passing → GateCondition → ConditionEvaluation
unfolding condition_text
mock_evaluate passing c =
    let name = condition_text c in
    let ok = unwrap_or (lookup_condition name passing) false in
    record {
      condition = c;
      is_passed = ok;
      reason = format (name ∷ (if ok then " satisfied" else " not satisfied") ∷ []);
    }

abbrev pub set_condition : Passing → String → Bool → Passing
set_condition passing name ok = (name, ok) ∷ passing

abbrev pub with_conditions : Passing → Passing → Passing
with_conditions passing [] = passing
with_conditions passing ((name, ok) ∷ rest) = with_conditions (set_condition passing name ok) rest

abbrev pub mock : Passing → GateEvaluator
unfolding mock_evaluate
mock passing = record { evaluate = λ c ctx. evaluated (mock_evaluate passing c) }
