-- ===== src/Dispatch/Orchestrate/Tasks.antt =====
-- What a dispatch leaves in Canopy (src/dispatch/orchestrate.rs).
use mathlib.Core.List.{append_assoc, append-nil}
use hymenium.Prelude.{
  String, some, List, [], ◌∷◌, ◌++◌, map, ◌≡◌, refl, sym, ap, ◌∙◌, arith, ◌⊎◌, inl, inr,
}
use hymenium.Workflow.Template.{Phase, effective_agent_role}
use hymenium.Workflow.Engine.{PhaseState, new_phase_state}
use hymenium.Dispatch.Canopy.{DispatchError, DispatchResult, done, failed_with}
use hymenium.Dispatch.Orchestrate.{
  Call, cancel_task, Canopy, Dispatch, subtask_of, cancel_all, create_subtasks,
}

-- The calls that create the tasks `ids` of the phases, one after another.
pub data Created (canopy : Canopy) (d : Dispatch)
    : List Call → List Phase → List String → List Call → Type 0 where
  none_yet : {calls : List Call} → Created canopy d calls [] [] calls
  created :
      {calls later : List Call} {phase : Phase} {phases : List Phase} {id : String}
      {ids : List String}
      → canopy calls (subtask_of d phase) ≡ done id
      → Created canopy d (calls ++ subtask_of d phase ∷ []) phases ids later
      → Created canopy d calls (phase ∷ phases) (id ∷ ids) later

-- Each state with the task of its phase.
abbrev pub with_tasks : List String → List PhaseState → List PhaseState
with_tasks (id ∷ ids) (s ∷ states) = record s { canopy_task_id = some id } ∷ with_tasks ids states
with_tasks _ states = states

abbrev pub cancels : List String → List Call
cancels = map cancel_task

cancel_all_lem :
    (canopy : Canopy) (ids : List String) (calls : List Call)
    → cancel_all canopy ids calls ≡ calls ++ cancels ids
unfolding cancel_all
cancel_all_lem canopy [] calls = sym (append-nil calls)
cancel_all_lem canopy (id ∷ ids) calls =
    cancel_all_lem canopy ids (calls ++ cancel_task id ∷ [])
    ∙ append_assoc calls (cancel_task id ∷ []) (cancels ids)

-- How the loop over the phases ends: all the tasks are created and each state has its own, or the
-- creation for one phase fails and the tasks created before it are cancelled.
abbrev pub Outcome : Type 0
Outcome = List Call × DispatchResult (List PhaseState)

pub record AllCreated (canopy : Canopy) (d : Dispatch) (calls : List Call) (phases : List Phase)
    (states : List PhaseState) (r : Outcome) : Type 0 where
  pub ids : List String
  pub later : List Call
  pub creating : Created canopy d calls phases ids later
  pub result : r ≡ (later, done (with_tasks ids states))

pub record Undone {A : Type 0} (canopy : Canopy) (d : Dispatch) (before : List String)
    (calls : List Call) (phases : List Phase) (r : List Call × DispatchResult A) : Type 0 where
  pub early : List Phase
  pub phase : Phase
  pub rest : List Phase
  pub ids : List String
  pub later : List Call
  pub error : DispatchError
  pub split : phases ≡ early ++ phase ∷ rest
  pub creating : Created canopy d calls early ids later
  pub refused : canopy later (subtask_of d phase) ≡ failed_with error
  pub result :
      r ≡ ((later ++ subtask_of d phase ∷ []) ++ cancels (before ++ ids), failed_with error)

pub DispatchResult-cases :
    {A : Type 0} (r : DispatchResult A)
    → ((a : A) × (r ≡ done a)) ⊎ ((e : DispatchError) × (r ≡ failed_with e))
DispatchResult-cases (done a) = inl (a, refl)
DispatchResult-cases (failed_with e) = inr (e, refl)

abbrev pub states_of : List Phase → List PhaseState
states_of = map (λ p. new_phase_state p.phase_id (effective_agent_role p))

pub create_subtasks_lem :
    (canopy : Canopy) (d : Dispatch) (before : List String) (phases : List Phase)
    (calls : List Call)
    → AllCreated canopy d calls phases
        (states_of phases)
        (create_subtasks canopy d before phases (states_of phases) calls)
      ⊎ Undone canopy d before calls phases
          (create_subtasks canopy d before phases (states_of phases) calls)
unfolding create_subtasks
create_subtasks_lem canopy d before [] calls =
    inl (record { ids = []; later = calls; creating = none_yet; result = refl })
create_subtasks_lem canopy d before (phase ∷ phases) calls =
    elim (DispatchResult-cases (canopy calls (subtask_of d phase))) [
      | inr (e, r) ↦ inr (record {
        early = [];
        phase = phase;
        rest = phases;
        ids = [];
        later = calls;
        error = e;
        split = refl;
        creating = none_yet;
        refused = r;
        result = ground (
          arith,
          r,
          cancel_all_lem canopy before (calls ++ subtask_of d phase ∷ []),
          append-nil before,
        );
      })
      | inl (id, r) ↦
          elim (create_subtasks_lem canopy d (before ++ id ∷ []) phases
            (calls ++ subtask_of d phase ∷ [])) [
              | inl c ↦ inl (record {
                ids = id ∷ c.ids;
                later = c.later;
                creating = created r c.creating;
                result = ground (arith, r, c.result);
              })
              | inr u ↦ inr (record {
                early = phase ∷ u.early;
                phase = u.phase;
                rest = u.rest;
                ids = id ∷ u.ids;
                later = u.later;
                error = u.error;
                split = ap (◌∷◌ phase) u.split;
                creating = created r u.creating;
                refused = u.refused;
                result = ground (arith, r, u.result, append_assoc before (id ∷ []) u.ids);
              })
            ]
    ]
