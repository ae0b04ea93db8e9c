-- ===== src/Examples/Storing.antt =====
-- Storing the example, and registering its template.
use Prim.Native.String.{count, ◌++◌}
use text.Mathlib.TextLemmas.{length-append as count-append}
use hymenium.Prelude.{ℕ, zero, suc, ◌≡◌, refl, String, none, [], ◌∷◌, arith, str_eq, if◌then◌else◌}
use hymenium.Workflow.Template.{validate, accepted, register, get}
use hymenium.Workflow.Template.Validation.{
  Distinct, Resolved, validate-Distinct-Resolved, get-register,
}
use hymenium.Store.Rows.{TimeCodec, time}
use hymenium.Examples.{two_phases}

-- A moment printed as that many strokes, and read back by their number.
unfoldable pub unary : ℕ → String
unary zero = ""
unary (suc n) = "x" ++ unary n

abbrev pub strokes : TimeCodec
strokes = record { to_rfc3339 = unary; parse_from_rfc3339 = λ s. time (count s) }

pub count-unary : (n : ℕ) → count (unary n) ≡ n
unfolding unary
count-unary zero = refl
count-unary (suc n) = omega (arith, count-append "x" (unary n), count-unary n)

validate-two_phases : validate two_phases ≡ none
unfolding validate
validate-two_phases = refl

validate-Distinct-Resolved_example :
    Distinct two_phases.phases × Resolved two_phases.phases two_phases.transitions
validate-Distinct-Resolved_example = validate-Distinct-Resolved two_phases validate-two_phases

get-register_example :
    (validate two_phases ≡ none)
    × (get "other" ((two_phases.template_id, two_phases) ∷ [])
        ≡ (if str_eq two_phases.template_id "other" then accepted two_phases else get "other" []))
get-register_example =
    get-register two_phases [] ((two_phases.template_id, two_phases) ∷ []) "other"
      (unfold register validate in refl)
