-- ===== src/Examples/Gates.antt =====
-- Gates and outcomes, at the phases of the example.
use hymenium.Prelude.{◌≡◌, refl, ◌&&◌, all, none, [], ◌∷◌, map, take}
use hymenium.Workflow.Gate.{permissive, evaluate_all, code_diff_exists, audit_clean, new_context}
use hymenium.Workflow.Gate.Evaluation.{holds, opens, opens-evaluate_all}
use hymenium.Workflow.Engine.{advance, is_completed}
use hymenium.Workflow.Engine.Gating.{
  is_ok, gate_holds, artifacts_hold, advance_exactly, advance_refused,
}
use hymenium.Outcome.{build}
use hymenium.Outcome.Route.{ids, started, route_taken-build}
use hymenium.Examples.{
  first_done-IsValid, at_work-IsValid, two_phases, build_phase, audit_phase, clock, no_files,
  first_done, at_work, completed_build,
}

advance_exactly_example : is_ok (advance no_files permissive clock first_done).0 ≡ (
    is_completed completed_build.status
    && gate_holds permissive first_done build_phase.exit_gate "implement"
    && artifacts_hold no_files audit_phase
    && gate_holds permissive first_done audit_phase.entry_gate "audit")
advance_exactly_example =
    advance_exactly no_files permissive clock first_done completed_build build_phase audit_phase
      first_done-IsValid refl refl refl

advance_refused_example :
    record (advance no_files permissive clock at_work).1 { blocked_on = at_work.blocked_on }
    ≡ at_work
advance_refused_example =
    advance_refused no_files permissive clock at_work at_work-IsValid (unfold advance in refl)

opens-evaluate_all_example :
    opens
      (evaluate_all permissive (code_diff_exists ∷ audit_clean ∷ []) (new_context "wf-1" "audit"))
    ≡ all (holds permissive (new_context "wf-1" "audit")) (code_diff_exists ∷ audit_clean ∷ [])
opens-evaluate_all_example =
    opens-evaluate_all permissive (code_diff_exists ∷ audit_clean ∷ []) (new_context "wf-1" "audit")

route_taken-build_example :
    ids (build first_done none 5000).route_taken
    ≡ take (started 0 completed_build) (map (λ q. q.phase_id) two_phases.phases)
route_taken-build_example =
    route_taken-build first_done none 5000 completed_build first_done-IsValid refl
