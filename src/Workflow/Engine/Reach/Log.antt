-- ===== src/Workflow/Engine/Reach/Log.antt =====
-- The transition log follows the template (src/workflow/engine.rs).
use mathlib.Core.List.{map-append}
use native.Mathlib.Numerals.{add-one}
use hymenium.Prelude.{
  ℕ, zero, suc, ◌+◌, String, Bool, ◌≡◌, ◌≢◌, inl, inr, refl, some, List, [], ◌∷◌, ◌++◌, map, take,
  take-suc, get_elem?, arith, Option-cases, get_elem?-lt, Bool-cases,
}
use hymenium.Workflow.Template.{FileSystem, Phase, WorkflowTemplate}
use hymenium.Workflow.Gate.{GateEvaluator}
use hymenium.Workflow.Engine.State.{
  Clock, PhaseState, PhaseTransition, WorkflowInstance, new_instance, Timestamp, current_phase,
  is_active,
}
use hymenium.Workflow.Engine.Lifecycle.{
  start_phase, complete_phase, reconcile_complete_current_phase, reconcile_fail_current_phase,
  fail_phase, handoff_to_user_phase, resume_from_user_input,
}
use hymenium.Workflow.Engine.Counters.{
  saturating_inc, increment_retry_count, record_tool_failure, record_request,
}
use hymenium.Workflow.Engine.Advance.{advance, complete_workflow}
use hymenium.Workflow.Engine.Invariant.{IsValid, Named}
use hymenium.Workflow.Engine.Invariant.Moves.{states_count}
use hymenium.Workflow.Engine.Invariant.Steps.{with_phase}
use hymenium.Workflow.Engine.Invariant.Counting.{
  counted, at_tool_count, at_request_count, tool_reason, request_reason, record_tool_failure_lem,
  record_request_lem,
}
use hymenium.Workflow.Engine.Reach.{
  Step, Reach, Reach-IsValid, start, complete, reconcile_complete, reconcile_fail, fail, handoff,
  resume, retry, tool_failure, request, move, finish, here, next,
}

-- The pairs of neighbouring phase IDs, in the template's order.
abbrev pub hops : List Phase → List (String × String)
hops [] = []
hops (p ∷ []) = []
hops (p ∷ q ∷ rest) = (p.phase_id, q.phase_id) ∷ hops (q ∷ rest)

abbrev pub logged : List PhaseTransition → List (String × String)
logged = map (λ t. (t.from_phase_id, t.to_phase_id))

-- The log holds the hops up to the current phase, no phase skipped or repeated.
abbrev pub FollowsTemplate : WorkflowInstance → Type 0
FollowsTemplate w = logged w.transitions ≡ take w.current_phase_idx (hops w.template.phases)

abbrev SameLog : WorkflowInstance → WorkflowInstance → Type 0
SameLog w u =
    (u.transitions ≡ w.transitions)
    × (u.current_phase_idx ≡ w.current_phase_idx)
    × (u.template ≡ w.template)

module _ (now : Clock) (w : WorkflowInstance) where
  start_log : (fs : FileSystem) → SameLog w (start_phase fs now w).1
  unfolding start_phase
  start_log fs = ground arith

  complete_log : SameLog w (complete_phase now w).1
  unfolding complete_phase
  complete_log = ground arith

  reconcile_complete_log : SameLog w (reconcile_complete_current_phase now w).1
  unfolding reconcile_complete_current_phase
  reconcile_complete_log = ground arith

  reconcile_fail_log : (reason : String) → SameLog w (reconcile_fail_current_phase reason now w).1
  unfolding reconcile_fail_current_phase
  reconcile_fail_log reason = ground arith

  fail_log : (reason : String) → SameLog w (fail_phase reason now w).1
  unfolding fail_phase
  fail_log reason = ground arith

  handoff_log : (m : String) (b : Bool) → SameLog w (handoff_to_user_phase m b now w).1
  unfolding handoff_to_user_phase
  handoff_log m b = ground arith

  resume_log : SameLog w (resume_from_user_input now w).1
  unfolding resume_from_user_input
  resume_log = ground arith

  retry_log : SameLog w (increment_retry_count now w).1
  unfolding increment_retry_count
  retry_log = ground arith

  counted_log :
      (at : ℕ → PhaseState → PhaseState) (reason : String) (n ceiling : ℕ)
      → SameLog w (counted at reason n ceiling now w).1
  counted_log at reason n ceiling = ground arith

  tool_failure_log : (ceiling : ℕ) → SameLog w (record_tool_failure ceiling now w).1
  tool_failure_log ceiling = elim (Option-cases (current_phase w)) [
    | inl e ↦ unfold record_tool_failure in rw e (refl, refl, refl)
    | inr (p, e) ↦ elim (Bool-cases (is_active p.status)) [
      | inl a ↦
          let n = saturating_inc p.tool_failure_count in
          rw (record_tool_failure_lem now ceiling w p e a)
            (counted_log at_tool_count (tool_reason n ceiling) n ceiling)
      | inr a ↦ unfold record_tool_failure in rw (e, a) (refl, refl, refl)
    ]
  ]

  request_log : (ceiling : ℕ) → SameLog w (record_request ceiling now w).1
  request_log ceiling = elim (Option-cases (current_phase w)) [
    | inl e ↦ unfold record_request in rw e (refl, refl, refl)
    | inr (p, e) ↦ elim (Bool-cases (is_active p.status)) [
      | inl a ↦
          let n = saturating_inc p.request_count in
          rw (record_request_lem now ceiling w p e a)
            (counted_log at_request_count (request_reason n ceiling) n ceiling)
      | inr a ↦ unfold record_request in rw (e, a) (refl, refl, refl)
    ]
  ]

  finish_log : SameLog w (complete_workflow now w).1
  unfolding complete_workflow
  finish_log = ground arith

hop_at :
    (ps : List PhaseState) (qs : List Phase) (i : ℕ) (p q : PhaseState)
    → Named ps qs
    → get_elem? ps i ≡ some p
    → get_elem? ps (suc i) ≡ some q
    → get_elem? (hops qs) i ≡ some (p.phase_id, q.phase_id)
hop_at [] qs i p q n e e' = cc
hop_at (a ∷ []) qs i p q n e e' = cc
hop_at (a ∷ b ∷ ps) [] i p q n e e' = absurd n
hop_at (a ∷ b ∷ ps) (x ∷ []) i p q n e e' = absurd n.2
hop_at (a ∷ b ∷ ps) (x ∷ y ∷ qs) zero p q n e e' = ground arith
hop_at (a ∷ b ∷ ps) (x ∷ y ∷ qs) (suc i) p q n e e' = hop_at (b ∷ ps) (y ∷ qs) i p q n.2 e e'

module _ (now : Clock) (w : WorkflowInstance) (v : IsValid w) (h : FollowsTemplate w) where
  log_grows :
      (p q : PhaseState) (t : PhaseTransition)
      → current_phase w ≡ some p
      → get_elem? w.phase_states (w.current_phase_idx + 1) ≡ some q
      → t.from_phase_id ≡ p.phase_id
      → t.to_phase_id ≡ q.phase_id
      → logged (w.transitions ++ t ∷ []) ≡ take (w.current_phase_idx + 1) (hops w.template.phases)
  log_grows p q t e e' from to =
      let pair : get_elem? (hops w.template.phases) w.current_phase_idx
          ≡ some (p.phase_id, q.phase_id) =
        hop_at w.phase_states w.template.phases w.current_phase_idx p q v.named e
          (rw add-one at e') in
      rw (map-append, add-one, take-suc w.current_phase_idx (hops w.template.phases) pair, h)
        (ground arith)

  advance-FollowsTemplate :
      (fs : FileSystem) (ev : GateEvaluator) → FollowsTemplate (advance fs ev now w).1
  unfolding advance
  advance-FollowsTemplate fs ev = with_phase w v λ p e c.
      elim (Option-cases (get_elem? w.phase_states (w.current_phase_idx + 1))) [
        | inl e' ↦
            ground
              (arith, states_count now w v, get_elem?-lt w.phase_states (w.current_phase_idx + 1))
        | inr (q, e') ↦ ground (
          arith,
          log_grows p q
              (record {
                from_phase_id = p.phase_id;
                to_phase_id = q.phase_id;
                transitioned_at = now 0;
                reason = "exit and entry gates satisfied";
              })
              e e',
        )
      ]

same : (w u : WorkflowInstance) → SameLog w u → FollowsTemplate w → FollowsTemplate u
same w u s h = rw (s.0, s.1, s.2) h

Step-FollowsTemplate :
    {w u : WorkflowInstance} → Step w u → IsValid w → FollowsTemplate w → FollowsTemplate u
Step-FollowsTemplate {w} {u} (start fs now) v h = same w u (start_log now w fs) h
Step-FollowsTemplate {w} {u} (complete now) v h = same w u (complete_log now w) h
Step-FollowsTemplate {w} {u} (reconcile_complete now) v h =
    same w u (reconcile_complete_log now w) h
Step-FollowsTemplate {w} {u} (reconcile_fail reason now) v h =
    same w u (reconcile_fail_log now w reason) h
Step-FollowsTemplate {w} {u} (fail reason now) v h = same w u (fail_log now w reason) h
Step-FollowsTemplate {w} {u} (handoff message breakout now) v h =
    same w u (handoff_log now w message breakout) h
Step-FollowsTemplate {w} {u} (resume now) v h = same w u (resume_log now w) h
Step-FollowsTemplate {w} {u} (retry now) v h = same w u (retry_log now w) h
Step-FollowsTemplate {w} {u} (tool_failure ceiling now) v h =
    same w u (tool_failure_log now w ceiling) h
Step-FollowsTemplate {w} {u} (request ceiling now) v h = same w u (request_log now w ceiling) h
Step-FollowsTemplate {w} {u} (move fs ev now) v h = advance-FollowsTemplate now w v h fs ev
Step-FollowsTemplate {w} {u} (finish now) v h = same w u (finish_log now w) h

-- However the engine drives an instance, its transition log is the template's phases in order, up to the
-- current one: `advance` is the only call that logs, and it neither skips nor repeats a phase.
pub Reach-FollowsTemplate :
    (id : String) (t : WorkflowTemplate) (path : String) (now : Timestamp) {w : WorkflowInstance}
    → t.phases ≢ []
    → Reach (new_instance id t path now) w
    → FollowsTemplate w
unfolding new_instance
Reach-FollowsTemplate id t path now some_phase here = refl
Reach-FollowsTemplate id t path now some_phase (next r s) =
    Step-FollowsTemplate s (Reach-IsValid id t path now some_phase r)
      (Reach-FollowsTemplate id t path now some_phase r)
