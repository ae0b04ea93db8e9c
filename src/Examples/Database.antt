-- ===== src/Examples/Database.antt =====
-- A database with one workflow, and commands on it.
use hymenium.Prelude.{
  ℕ, Bool, false, ap, ◌≡◌, refl, true, false, none, some, [], ◌∷◌, arith, ◌==◌, if◌then◌else◌,
}
use hymenium.Workflow.Engine.{
  WorkflowStatus, cancelled, PhaseStatus, active, PhaseState, WorkflowInstance,
  workflow_status_text, phase_status_text, fail_phase, complete_workflow,
}
use hymenium.Workflow.Template.{worker, output_verifier}
use hymenium.Store.{parse_workflow_status, parse_agent_role, parse_phase_status, agent_role_text}
use hymenium.Store.Rows.{time, row_of, read_row, read_rows, write_row, parse_datetime}
use hymenium.Store.Tables.{Tables, is_live, collides}
use hymenium.Store.Tables.Consistent.{IsConsistent}
use hymenium.Store.Session.{
  Environment, json_value, json_error, Session, Attempt, succeeded, raised, ◌>>◌, execute,
  with_transaction,
}
use hymenium.Store.Session.Ends.{After}
use hymenium.Store.Columns.{workflow_row, row_to_insert, instance_of}
use hymenium.Store.Operations.{
  insert_workflow_with_hash, get_workflow, find_and_insert_workflow_by_hash, update_workflow_status,
  update_current_phase_idx, upsert_phases, upsert_phase_state, record_transition, insert_outcome,
  get_outcome, load_phase_states,
}
use hymenium.Store.Operations.Listing.{
  chunks, read_entries, load_chunks, assemble, list_active_workflows,
}
use hymenium.Store.Operations.Roundtrip.{get_workflow-insert}
use hymenium.Store.Operations.Reliable.{Stored, find_and_insert-found}
use hymenium.Commands.{emit_terminal_outcome, published}
use hymenium.Outcome.{build}
use hymenium.Commands.Ending.{Ended}
use hymenium.Commands.Cancelling.{cancel-Ended}
use hymenium.Commands.Cancel
use hymenium.Commands.Complete
use hymenium.Commands.Fail
use hymenium.Commands.Settling.{Settled}
use hymenium.Commands.Terminal.{commands-Settled}
use hymenium.Examples.{
  phase_at, two_phases, at_work, last_done, completed_build, completed_audit, clock,
}
use hymenium.Examples.Storing.{unary, strokes, count-unary}

abbrev env : Environment
env = record {
  fault = λ n. none;
  now = clock;
  clock = λ n. clock;
  later = λ a b. false;
  times = strokes;
  encode_template = λ t. json_value t.template_id;
  decode_template = λ s. json_value two_phases;
  encode_outcome = λ o. json_value o.workflow_id;
  decode_outcome = λ s. json_error "not an outcome";
}

-- The sixth statement of a connection is refused.
abbrev refusing : Environment
refusing = record env { fault = λ n. if n == 5 then some "disk I/O error" else none }

abbrev no_rows : Tables
no_rows = record { workflows = []; phase_states = []; transitions = []; outcomes = [] }

abbrev session_of : Tables → Session
session_of t = record { tables = t; saved = none; count = 0 }

no_rows-IsConsistent : IsConsistent no_rows
no_rows-IsConsistent = record { ids = tt; live = tt; keys = tt; phases = refl; log = refl }

abbrev one_row : Session
one_row =
    session_of
      (record no_rows { workflows = workflow_row env at_work (some "hash") "impl-audit" 0 ∷ [] })

abbrev first_phase : PhaseState
first_phase = phase_at "implement" worker active

abbrev second_phase : PhaseState
second_phase = phase_at "audit" output_verifier PhaseStatus.pending

get_workflow-insert_example :
    ((insert_workflow_with_hash env at_work (some "hash") >> get_workflow env at_work.workflow_id)
      (session_of no_rows)).0
    ≡ succeeded (some (record at_work { transitions = [] }))
get_workflow-insert_example =
    get_workflow-insert env (λ n m e. cc) (λ t. ap time (count-unary t)) at_work (some "hash")
      "impl-audit" refl refl (omega arith) (omega arith) (session_of no_rows) no_rows-IsConsistent
      refl refl refl

abbrev bare : WorkflowInstance
bare = record at_work { phase_states = []; transitions = [] }

bare-Stored : Stored env one_row.tables at_work.workflow_id bare
unfolding instance_of parse_workflow_status parse_datetime workflow_status_text unary read_rows
bare-Stored = record {
  row = workflow_row env at_work (some "hash") "impl-audit" 0;
  build = λ ps. record at_work { phase_states = ps; transitions = [] };
  phases = [];
  found = refl;
  built = refl;
  read = refl;
  same = refl;
}

abbrev newcomer : WorkflowInstance
newcomer = record at_work { workflow_id = "other" }

find_and_insert-found_example :
    ((find_and_insert_workflow_by_hash env newcomer "hash" one_row).0 ≡ succeeded bare)
    × ((find_and_insert_workflow_by_hash env newcomer "hash" one_row).1.tables ≡ one_row.tables)
find_and_insert-found_example =
    find_and_insert-found env newcomer bare "hash" at_work.workflow_id
      (workflow_row env newcomer (some "hash") "impl-audit" 0) one_row (λ n m e. cc) refl
      (unfold is_live workflow_status_text in refl) (unfold is_live workflow_status_text in refl)
      (unfold row_to_insert in refl) bare-Stored

cancel-Ended_example :
    ((Cancel.run env at_work.workflow_id one_row).0 ≡ succeeded tt)
    × Ended env at_work.workflow_id cancelled (Cancel.run env at_work.workflow_id one_row).1.tables
cancel-Ended_example =
    cancel-Ended env at_work.workflow_id one_row bare (λ n m e. cc) (λ t. ap time (count-unary t))
      (λ o. (o.workflow_id, refl)) refl bare-Stored refl (omega arith)

commands-Settled_example :
    let id = at_work.workflow_id in
    After (Unit {0}) (λ _ u. Settled env id cancelled one_row.tables u) (Cancel.run env id one_row)
    × After
        (Unit {0})
        (λ _ u. Settled env id WorkflowStatus.completed one_row.tables u)
        (Complete.run env id one_row)
    × After
        (Unit {0})
        (λ _ u. Settled env id WorkflowStatus.failed one_row.tables u)
        (Fail.run env id "broken" one_row)
commands-Settled_example = commands-Settled env at_work.workflow_id "broken" one_row

-- `complete` and `fail` go through too.
abbrev goes_through : {E A : Type 0} → Attempt E A × Session → Bool
goes_through (succeeded a, s) = true
goes_through (raised e, s) = false

-- The tables with the workflow at the position and its two phases.
abbrev with_phases : WorkflowInstance → ℕ → PhaseState → PhaseState → Session
with_phases w idx p q = session_of (record no_rows {
  workflows = workflow_row env w (some "hash") "impl-audit" idx ∷ [];
  phase_states =
      record { workflow_id = w.workflow_id; row = row_of strokes p 0 }
      ∷ record { workflow_id = w.workflow_id; row = row_of strokes q 1 }
      ∷ [];
})

fail_succeeds :
    goes_through
      (Fail.run env at_work.workflow_id "broken" (with_phases at_work 0 first_phase second_phase))
    ≡ true
unfolding Fail.run fail_phase execute update_workflow_status update_current_phase_idx upsert_phases
    upsert_phase_state write_row row_of record_transition emit_terminal_outcome insert_outcome build
    published get_workflow get_outcome load_phase_states instance_of read_rows read_row
    parse_workflow_status parse_agent_role parse_phase_status parse_datetime agent_role_text
    workflow_status_text phase_status_text is_live collides unary with_transaction
fail_succeeds = refl

complete_succeeds :
    goes_through (
      Complete.run env last_done.workflow_id
        (with_phases last_done 1 completed_build completed_audit))
    ≡ true
unfolding Complete.run complete_workflow execute update_workflow_status update_current_phase_idx
    upsert_phases upsert_phase_state write_row row_of record_transition emit_terminal_outcome
    insert_outcome build published get_workflow get_outcome load_phase_states instance_of read_rows
    read_row parse_workflow_status parse_agent_role parse_phase_status parse_datetime
    agent_role_text workflow_status_text phase_status_text is_live collides unary with_transaction
complete_succeeds = refl

-- The listing, where the two phases are stored in the wrong order.
list_example :
    (list_active_workflows env (
      session_of (record one_row.tables {
        phase_states =
            record { workflow_id = at_work.workflow_id; row = row_of strokes second_phase 1 }
            ∷ record { workflow_id = at_work.workflow_id; row = row_of strokes first_phase 0 }
            ∷ [];
      }))).0
    ≡ succeeded
        (record at_work { phase_states = first_phase ∷ second_phase ∷ []; transitions = [] } ∷ [])
unfolding list_active_workflows execute is_live chunks load_chunks read_entries assemble instance_of
    read_row parse_workflow_status parse_agent_role parse_phase_status parse_datetime row_of
    agent_role_text workflow_status_text phase_status_text unary
list_example = refl
