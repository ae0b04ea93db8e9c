-- ===== src/Workflow/Gate/Evaluation.antt =====
-- What a gate's verdict means (src/workflow/gate.rs).
use hymenium.Prelude.{String, Bool, false, ◌&&◌, ◌≡◌, refl, List, [], ◌∷◌, ◌++◌, all, eq_iff, arith}
use hymenium.Workflow.Gate.{
  GateCondition, GateContext, ConditionEvaluation, GateEvaluation, GateEvaluator, GateResult,
  evaluated, gate_error, passed, evaluate_each, evaluate_all, condition_text, parse_gate_condition,
}

-- Printing a parsed condition gives its text back.
pub condition_text-parse : (s : String) → condition_text (parse_gate_condition s) ≡ s
unfolding condition_text parse_gate_condition
condition_text-parse s = ground (
  arith,
  eq_iff s "code_diff_exists",
  eq_iff s "verification_passed",
  eq_iff s "audit_clean",
  eq_iff s "findings_resolved",
)

-- One condition, evaluated on its own: it passes, and evaluating it is no error.
abbrev pub holds : GateEvaluator → GateContext → GateCondition → Bool
holds ev ctx c = elim (ev.evaluate c ctx) [ evaluated e ↦ e.is_passed | gate_error x ↦ false ]

-- The verdict of a whole gate; an error keeps it shut.
abbrev pub opens : GateResult GateEvaluation → Bool
opens (evaluated e) = passed e
opens (gate_error x) = false

abbrev all_in : GateResult (List ConditionEvaluation) → Bool
all_in (evaluated es) = all (λ e. e.is_passed) es
all_in (gate_error x) = false

all-append {ℓ} :
    {A : Type ℓ} (p : A → Bool) (xs ys : List A) → all p (xs ++ ys) ≡ (all p xs && all p ys)
all-append p [] ys = refl
all-append p (x ∷ xs) ys = ground (arith, all-append p xs ys)

all_in-evaluate_each :
    (ev : GateEvaluator) (ctx : GateContext) (cs : List GateCondition)
    (es : List ConditionEvaluation)
    → all_in (evaluate_each ev ctx cs es) ≡ (all (λ e. e.is_passed) es && all (holds ev ctx) cs)
unfolding evaluate_each
all_in-evaluate_each ev ctx [] es = ground arith
all_in-evaluate_each ev ctx (c ∷ cs) es =
    go (ev.evaluate c ctx) refl (λ y. all_in-evaluate_each ev ctx cs (es ++ y ∷ []))
  where
    go :
        (r : GateResult ConditionEvaluation)
        → ev.evaluate c ctx ≡ r
        → ((y : ConditionEvaluation)
            → all_in (evaluate_each ev ctx cs (es ++ y ∷ []))
              ≡ (all (λ e. e.is_passed) (es ++ y ∷ []) && all (holds ev ctx) cs))
        → all_in (evaluate_each ev ctx (c ∷ cs) es)
          ≡ (all (λ e. e.is_passed) es && all (holds ev ctx) (c ∷ cs))
    go (evaluated e) h ih =
        ground (arith, ih e, all-append (λ (y : ConditionEvaluation). y.is_passed) es (e ∷ []))
    go (gate_error x) h ih = ground arith

-- A gate opens exactly if each of its conditions holds on its own.
pub opens-evaluate_all :
    (ev : GateEvaluator) (cs : List GateCondition) (ctx : GateContext)
    → opens (evaluate_all ev cs ctx) ≡ all (holds ev ctx) cs
unfolding evaluate_all
opens-evaluate_all ev cs ctx = ground (arith, all_in-evaluate_each ev ctx cs [])
