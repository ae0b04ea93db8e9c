-- ===== src/Dispatch/Reconcile/Moving.antt =====
-- What it takes for a completed task to move the workflow on (src/dispatch/mod.rs).
use hymenium.Prelude.{
  ◌+◌, String, ◌≡◌, ◌≢◌, refl, ◌∙◌, ap, Bool, true, false, not, ◌&&◌, Option, none, some, length,
  get_elem?, get_elem?-some-lt, modify, arith, if◌then◌else◌,
}
use hymenium.Workflow.Template.{FileSystem, Phase}
use hymenium.Workflow.Gate.{GateEvaluator}
use hymenium.Workflow.Engine.{
  PhaseStatus, PhaseState, WorkflowInstance, Clock, current_phase, current_template_phase, advance,
  is_completed, dispatched, Result, ok, err, PhaseTransition, already_at_final_phase,
  invalid_phase_index, gate_failed, state_error,
}
use hymenium.Workflow.Engine.Invariant.{IsValid}
use hymenium.Workflow.Engine.Gating.{
  is_ok, gate_holds, artifacts_hold, advance_exactly, advance_refused,
}
use hymenium.Dispatch.Canopy.{done, CanopyClient, TaskDetail, CompletionSignal, wants_stop}
use hymenium.Dispatch.Reconcile.{
  marked_completed, ReconcileResult, after_advance, gate_for, reconcile_at, reconcile_phases,
  settle, is_completed_status, is_terminal, honor_signal,
}
use hymenium.Dispatch.Reconcile.Loop.{outcomes_around, reconcile_phases_lem}
use hymenium.Dispatch.Reconcile.Completing.{
  CompletedAt, completes, not_last, advance_idx, advance_states,
}

-- The signal lets the workflow go on.
abbrev pub may_go_on : Option CompletionSignal → Bool
may_go_on none = true
may_go_on (some s) = not (wants_stop s)

after_advance_lem :
    (id : String) (x : Result PhaseTransition × WorkflowInstance)
    → x.0 ≢ err already_at_final_phase
    → (u : WorkflowInstance) × (after_advance id x ≡ (marked_completed id (is_ok x.0), u))
      × (u.current_phase_idx ≡ x.1.current_phase_idx)
      × (current_phase u ≡ current_phase x.1)
      × (u.phase_states ≡ x.1.phase_states)
after_advance_lem id (ok t, u) h = (record u { status = dispatched }, refl, refl, refl, refl)
after_advance_lem id (err already_at_final_phase, u) h = absurd (h refl)
after_advance_lem id (err (invalid_phase_index n), u) h = (u, refl, refl, refl, refl)
after_advance_lem id (err (gate_failed id' r), u) h = (u, refl, refl, refl, refl)
after_advance_lem id (err (state_error m), u) h = (u, refl, refl, refl, refl)

honor_signal_lem :
    (fs : FileSystem) (now : Clock) (force : Bool) (id : String) (task : TaskDetail)
    (s : Option CompletionSignal) (u : WorkflowInstance)
    → may_go_on s ≡ true
    → honor_signal fs now force id task s u
      ≡ after_advance id (advance fs (gate_for force task) (λ i. now (i + 3)) u)
honor_signal_lem fs now force id task none u h = refl
honor_signal_lem fs now force id task (some s) u h =
    let e : wants_stop s ≡ false = ground arith in rw e refl

-- What it takes to leave `q` for `n`: both gates under the evaluator, and the artifacts of `n`.
abbrev pub may_move :
    FileSystem → GateEvaluator → WorkflowInstance → PhaseState → Phase → Phase → Bool
may_move fs ev w p q n =
    gate_holds ev w q.exit_gate p.phase_id
    && artifacts_hold fs n
    && gate_holds ev w n.entry_gate n.phase_id

-- Of the phases of `w` the current one, `p`, is completed now, and the others are as they were.
abbrev pub OnlyCompletes : WorkflowInstance → PhaseState → WorkflowInstance → Type 0
OnlyCompletes w p u =
    (x : PhaseState) × (u.phase_states ≡ modify w.phase_states w.current_phase_idx (λ _. x))
    × (is_completed x.status ≡ true)
    × (x.phase_id ≡ p.phase_id)

-- The current phase is terminal.
abbrev pub TerminalNow : WorkflowInstance → Type 0
TerminalNow u = (x : PhaseState) × (current_phase u ≡ some x) × (is_terminal x.status ≡ true)

terminal : (s : PhaseStatus) → is_completed s ≡ true → is_terminal s ≡ true
terminal s h = ground arith

module _ (fs : FileSystem) (ev : GateEvaluator) (now : Clock) (w : WorkflowInstance) where
  advance_after :
      (p : PhaseState) (q n : Phase) (u : WorkflowInstance)
      → CompletedAt w p u
      → current_template_phase w ≡ some q
      → get_elem? w.template.phases (w.current_phase_idx + 1) ≡ some n
      → (is_ok (advance fs ev now u).0 ≡ may_move fs ev w p q n)
        × ((advance fs ev now u).0 ≢ err already_at_final_phase)
        × ((advance fs ev now u).1.current_phase_idx
            ≡ (if may_move fs ev w p q n then w.current_phase_idx + 1 else w.current_phase_idx))
        × ((advance fs ev now u).1.phase_states ≡ u.phase_states)
        × (may_move fs ev w p q n ≡ false → current_phase (advance fs ev now u).1 ≡ current_phase u)
  advance_after p q n u c e f =
      let f' : get_elem? u.template.phases (u.current_phase_idx + 1) ≡ some n =
        rw (c.same_template, c.same_idx) f in
      let e' : current_template_phase u ≡ some q = rw (c.same_template, c.same_idx) e in
      let same : gate_holds ev u q.exit_gate c.phase.phase_id
          ≡ gate_holds ev w q.exit_gate p.phase_id =
        rw (c.same_workflow, c.same_id) refl in
      let same_entry : gate_holds ev u n.entry_gate n.phase_id
          ≡ gate_holds ev w n.entry_gate n.phase_id =
        rw c.same_workflow refl in
      let b : is_ok (advance fs ev now u).0 ≡ may_move fs ev w p q n =
        advance_exactly fs ev now u c.phase q n c.valid c.phase_here e' f'
        ∙ rw (c.phase_done, same, same_entry) refl in
      (
        b,
        not_last fs ev now u c.valid n f',
        advance_idx fs ev now u c.valid ∙ rw (b, c.same_idx) refl,
        advance_states fs ev now u c.valid,
        λ k. ap current_phase (advance_refused fs ev now u c.valid (b ∙ k)),
      )

module _ (fs : FileSystem) (now : Clock) (force : Bool) (w : WorkflowInstance) (v : IsValid w)
    (p : PhaseState) (here : current_phase w ≡ some p) (work_open : is_terminal p.status ≡ false)
    (task : TaskDetail) (finished : is_completed_status task.status ≡ true)
    (goes_on : may_go_on task.completion_signal ≡ true) (q n : Phase)
    (this : current_template_phase w ≡ some q)
    (following : get_elem? w.template.phases (w.current_phase_idx + 1) ≡ some n) where
  abbrev moves : Bool
  moves = may_move fs (gate_for force task) w p q n

  reconciled_task :
      (task_id : String)
      → (u : WorkflowInstance) × (settle fs now force p.phase_id task_id task w
          ≡ done (marked_completed p.phase_id moves, u))
        × (u.current_phase_idx ≡ (if moves then w.current_phase_idx + 1 else w.current_phase_idx))
        × OnlyCompletes w p u
        × (moves ≡ false → TerminalNow u)
  unfolding settle
  reconciled_task task_id =
      let (u, ru, c) = completes now w v p here work_open in
      let (b, live, i, states, stays) =
        advance_after fs (gate_for force task) (λ i. now (i + 3)) w p q n u c this following in
      let (z, rz, iz, cz, sz) =
        after_advance_lem p.phase_id (advance fs (gate_for force task) (λ i. now (i + 3)) u) live in
      (
        z,
        rw
            (
              finished,
              ru,
              honor_signal_lem fs now force p.phase_id task task.completion_signal u goes_on,
              rz,
              b,
            )
            refl,
        iz ∙ i,
        (c.phase, sz ∙ states ∙ c.states, c.phase_done, c.same_id),
        λ k. (c.phase, cz ∙ stays k ∙ c.phase_here, terminal c.phase.status c.phase_done),
      )

  -- What reconciling does, and that a refused move leaves a terminal phase.
  pub reconciled_phases :
      (canopy : CanopyClient) (task_id : String)
      → p.canopy_task_id ≡ some task_id
      → canopy.get_task task_id ≡ done task
      → (r : ReconcileResult) × (reconcile_phases w canopy fs now force ≡ done r)
        × (r.outcomes
            ≡ outcomes_around
                (length w.phase_states)
                w.current_phase_idx
                (marked_completed p.phase_id moves))
        × (r.instance_after.current_phase_idx
            ≡ (if moves then w.current_phase_idx + 1 else w.current_phase_idx))
        × OnlyCompletes w p r.instance_after
        × (moves ≡ false → TerminalNow r.instance_after)
  unfolding reconcile_at
  reconciled_phases canopy task_id has_task answer =
      let (u, ru, i, states, stuck) = reconciled_task task_id in
      let lt = get_elem?-some-lt w.phase_states w.current_phase_idx p here in
      let at : reconcile_at canopy fs now force w.current_phase_idx w
          ≡ done (marked_completed p.phase_id moves, u) =
        rw (here, has_task, work_open, answer) ru in
      (
        record {
          instance_after = u;
          outcomes =
              outcomes_around (length w.phase_states) w.current_phase_idx
                (marked_completed p.phase_id moves);
        },
        rw (reconcile_phases_lem canopy fs now force w lt, at) refl,
        refl,
        i,
        states,
        stuck,
      )

  -- A valid instance whose current phase is open, is not the last, and has a task that Canopy calls
  -- completed, with no stop signal: the phase is completed and has the outcome that it is marked
  -- completed, and every other phase is as it was and has the outcome `no_task_id`. The instance
  -- moves to the next phase exactly if both gates hold under the chosen evaluator and the next
  -- phase's required artifacts exist, and otherwise stays at the completed phase.
  pub reconcile_moves :
      (canopy : CanopyClient) (task_id : String)
      → p.canopy_task_id ≡ some task_id
      → canopy.get_task task_id ≡ done task
      → (r : ReconcileResult) × (reconcile_phases w canopy fs now force ≡ done r)
        × (r.outcomes
            ≡ outcomes_around
                (length w.phase_states)
                w.current_phase_idx
                (marked_completed p.phase_id moves))
        × (r.instance_after.current_phase_idx
            ≡ (if moves then w.current_phase_idx + 1 else w.current_phase_idx))
        × OnlyCompletes w p r.instance_after
  reconcile_moves canopy task_id has_task answer =
      let (r, run, os, i, states, stuck) = reconciled_phases canopy task_id has_task answer in
      (r, run, os, i, states)
