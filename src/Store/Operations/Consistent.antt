-- ===== src/Store/Operations/Consistent.antt =====
-- Every operation of the store keeps the constraints of the schema (src/store.rs).
use hymenium.Prelude.{ℕ, String, Option}
use hymenium.Workflow.Engine.{WorkflowStatus, PhaseState, WorkflowInstance}
use hymenium.Outcome.{WorkflowOutcome}
use hymenium.Store.Tables.{
  insert_row, insert_or_ignore_row, update_row, upsert_entry, insert_transition, replace_outcome,
  select,
}
use hymenium.Store.Tables.Consistent.{
  IsConsistent, insert_row-IsConsistent, insert_or_ignore_row-IsConsistent,
  upsert_entry-IsConsistent, insert_transition-IsConsistent, update_row-IsConsistent,
  replace_outcome-IsConsistent,
}
use hymenium.Store.Session.{Environment, Session}
use hymenium.Store.Session.Through.{
  Keeps, Keeps-Preorder, SameSaved, SameSaved-Preorder, Sound, execute-Keeps, execute-SameSaved,
  with_transaction-Keeps,
}
use hymenium.Store.Operations.{
  upsert_phase_state, insert_workflow_with_hash, find_and_insert_workflow_by_hash,
  update_workflow_status, update_current_phase_idx, record_transition, insert_outcome,
}
use hymenium.Store.Operations.Through.{
  Statements, upsert_phase_state-Through, insert_workflow_with_hash-Through, find_or_insert-Through,
  update_workflow_status-Through, update_current_phase_idx-Through, record_transition-Through,
  insert_outcome-Through,
}

module _ (env : Environment) where
  pub IsConsistent-Statements : Statements env (Keeps IsConsistent)
  IsConsistent-Statements = record {
    order = Keeps-Preorder IsConsistent;
    insert = λ r.
        execute-Keeps IsConsistent env (λ now. insert_row r)
          λ now t h. insert_row-IsConsistent t h r;
    ignore = λ r.
        execute-Keeps IsConsistent env (λ now. insert_or_ignore_row r)
          λ now t h. insert_or_ignore_row-IsConsistent t h r;
    update = λ id f named.
        execute-Keeps IsConsistent env (λ now. update_row id (f now))
          λ now t h. update_row-IsConsistent t h id (f now) (named now);
    upsert = λ id row.
        execute-Keeps IsConsistent env (λ now. upsert_entry id row)
          λ now t h. upsert_entry-IsConsistent t h id row;
    transition = λ r.
        execute-Keeps IsConsistent env (λ now. insert_transition (r now))
          λ now t h. insert_transition-IsConsistent t h (r now);
    outcome = λ o.
        execute-Keeps IsConsistent env (λ now. replace_outcome (o now))
          λ now t h. replace_outcome-IsConsistent t h (o now);
    reading = λ f. execute-Keeps IsConsistent env (λ now. select f) λ now t h. h;
  }

  pub SameSaved-Statements : Statements env SameSaved
  SameSaved-Statements = record {
    order = SameSaved-Preorder;
    insert = λ r. execute-SameSaved env (λ now. insert_row r);
    ignore = λ r. execute-SameSaved env (λ now. insert_or_ignore_row r);
    update = λ id f named. execute-SameSaved env (λ now. update_row id (f now));
    upsert = λ id row. execute-SameSaved env (λ now. upsert_entry id row);
    transition = λ r. execute-SameSaved env (λ now. insert_transition (r now));
    outcome = λ o. execute-SameSaved env (λ now. replace_outcome (o now));
    reading = λ f. execute-SameSaved env (λ now. select f);
  }

-- The connection after one call of an operation that writes, whatever the call answers.
pub data Called (env : Environment) (s : Session) : Session → Type 0 where
  inserted :
      (w : WorkflowInstance) (hash : Option String)
      → Called env s (insert_workflow_with_hash env w hash s).1
  found_or_inserted :
      (w : WorkflowInstance) (hash : String)
      → Called env s (find_and_insert_workflow_by_hash env w hash s).1
  status_updated :
      (id : String) (status : WorkflowStatus) (blocked_on : Option String)
      → Called env s (update_workflow_status env id status blocked_on s).1
  index_updated : (id : String) (idx : ℕ) → Called env s (update_current_phase_idx env id idx s).1
  upserted :
      (id : String) (p : PhaseState) (order : ℕ)
      → Called env s (upsert_phase_state env id p order s).1
  transition_recorded :
      (id : String) (from to reason : Option String)
      → Called env s (record_transition env id from to reason s).1
  outcome_inserted : (o : WorkflowOutcome) → Called env s (insert_outcome env o s).1

-- Whatever a call of one of the store's writing operations is given, and whichever of its statements
-- the database refuses, a connection that satisfies the schema's constraints still does: no workflow
-- ID is taken twice, no two workflows that are not terminal have the same content hash, no phase of a
-- workflow has two rows, and each phase's and each transition's workflow exists.
pub Called-IsConsistent :
    (env : Environment) (s t : Session)
    → Called env s t
    → Sound IsConsistent s
    → Sound IsConsistent t
unfolding find_and_insert_workflow_by_hash
Called-IsConsistent env s _ (inserted w hash) =
    insert_workflow_with_hash-Through env (IsConsistent-Statements env) w hash s
Called-IsConsistent env s _ (found_or_inserted w hash) =
    with_transaction-Keeps IsConsistent env (λ e. e) _
      (find_or_insert-Through env (IsConsistent-Statements env) w hash) s
Called-IsConsistent env s _ (status_updated id status blocked_on) =
    update_workflow_status-Through env (IsConsistent-Statements env) id status blocked_on s
Called-IsConsistent env s _ (index_updated id idx) =
    update_current_phase_idx-Through env (IsConsistent-Statements env) id idx s
Called-IsConsistent env s _ (upserted id p order) =
    upsert_phase_state-Through env (IsConsistent-Statements env) id p order s
Called-IsConsistent env s _ (transition_recorded id from to reason) =
    record_transition-Through env (IsConsistent-Statements env) id from to reason s
Called-IsConsistent env s _ (outcome_inserted o) =
    insert_outcome-Through env (IsConsistent-Statements env) o s
