-- ===== src/Outcome/Route.antt =====
-- The route and the attempts that an outcome reports (src/outcome.rs), over the engine's
-- invariant.
use hymenium.Prelude.{
  ℕ, zero, suc, ◌+◌, ◌≤◌, ◌<◌, ◌≡◌, refl, String, Option, some, List, [], ◌∷◌, map, take, length,
  get_elem?, get_elem?-some-lt, if◌then◌else◌, arith,
}
use hymenium.Failure.{TypedFailure}
use hymenium.Workflow.Template.{Phase}
use hymenium.Workflow.Engine.{
  WorkflowStatus, PhaseState, WorkflowInstance, Timestamp, is_pending, current_phase,
}
use hymenium.Workflow.Engine.Invariant.{IsValid, Named, Past, Here, Future}
use hymenium.Workflow.Engine.Invariant.Cursor.{All, AtCursor}
use hymenium.Outcome.{RouteStep, route, sum_attempts, build}

abbrev pub ids : List RouteStep → List String
ids = map (λ s. s.phase_id)

route-Future : (ps : List PhaseState) → All Future ps → route ps ≡ []
route-Future [] f = refl
route-Future (p ∷ ps) f = ground (arith, route-Future ps f.1)

-- How many phases have been started.
abbrev pub started : ℕ → PhaseState → ℕ
started idx p = if is_pending p.status then idx else suc idx

cursor_route :
    (s : WorkflowStatus) (idx : ℕ) (ps : List PhaseState) (qs : List Phase) (p : PhaseState)
    → AtCursor Past (Here s) Future idx ps
    → Named ps qs
    → get_elem? ps idx ≡ some p
    → ids (route ps) ≡ take (started idx p) (map (λ q. q.phase_id) qs)
cursor_route s idx [] qs p c n e = cc
cursor_route s zero (x ∷ ps) [] p c n e = absurd n
cursor_route s (suc idx) (x ∷ ps) [] p c n e = absurd n
cursor_route s zero (x ∷ ps) (q ∷ qs) p c n e = ground (arith, route-Future ps c.1)
cursor_route s (suc idx) (x ∷ ps) (q ∷ qs) p c n e =
    ground (arith, cursor_route s idx ps qs p c.1 n.2 e)

module _ (w : WorkflowInstance) (failure : Option TypedFailure) (now : Timestamp) where
  -- The route of a valid instance is the template's phases in order, up to the current one, which
  -- is on the route exactly if it has been started.
  pub route_taken-build :
      (p : PhaseState)
      → IsValid w
      → current_phase w ≡ some p
      → ids (build w failure now).route_taken
        ≡ take (started w.current_phase_idx p) (map (λ q. q.phase_id) w.template.phases)
  unfolding build
  route_taken-build p v e =
      cursor_route w.status w.current_phase_idx w.phase_states w.template.phases p v.cursor v.named
        e

-- The dispatches of the phases, without a bound.
abbrev pub total_attempts : List PhaseState → ℕ
total_attempts [] = 0
total_attempts (p ∷ rest) = (p.retry_count + 1) + total_attempts rest

sum_attempts_lem :
    (ps : List PhaseState)
    → total_attempts ps < 4294967296
    → (sum_attempts ps ≡ total_attempts ps) × (length ps ≤ total_attempts ps)
sum_attempts_lem [] h = (refl, omega arith)
sum_attempts_lem (p ∷ ps) h =
    let (e, le) = sum_attempts_lem ps (omega arith) in (rw e (omega arith), omega (arith, le))

-- If all the dispatches together fit in a `u32`, an instance with a phase is reported with exactly
-- that many attempts, and no fewer than it has phases.
pub attempt_count-build :
    (w : WorkflowInstance) (failure : Option TypedFailure) (now : Timestamp) (p : PhaseState)
    → current_phase w ≡ some p
    → total_attempts w.phase_states < 4294967296
    → ((build w failure now).attempt_count ≡ total_attempts w.phase_states)
      × (length w.phase_states ≤ (build w failure now).attempt_count)
unfolding build
attempt_count-build w failure now p e h =
    let (s, le) = sum_attempts_lem w.phase_states h in
    let lt = get_elem?-some-lt w.phase_states w.current_phase_idx p e in
    rw s (omega (arith, le, lt), omega (arith, le, lt))
