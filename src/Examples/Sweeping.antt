-- ===== src/Examples/Sweeping.antt =====
-- A sweep that finds a runtime of which nothing was heard.
use hymenium.Prelude.{ltb, ◌≡◌, refl, String, false, none, some, [], ◌∷◌, map, any, filter}
use hymenium.Sweeper.Tables.{
  RuntimeRow, PhaseRow, Database, Stamp, moment, corrupt, from_str, is_orphan, offline_ids,
  is_protected,
}
use hymenium.Sweeper.{Sweep, run_sweep}
use hymenium.Sweeper.Swept.{run_sweep-orphans}

abbrev runtime : String → Stamp → RuntimeRow
runtime id beat = record {
  runtime_id = id;
  status = "online";
  last_heartbeat = beat;
  registered_at = moment 0;
  went_offline_at = none;
}

abbrev phase_of : String → String → PhaseRow
phase_of workflow agent = record {
  workflow_id = workflow;
  phase_id = "implement";
  agent_id = some agent;
  status = "active";
  completed_at = none;
  failure_reason = none;
}

abbrev tables : Database
tables = record {
  runtimes = runtime "quiet" (moment 10) ∷ runtime "busy" (moment 95) ∷ [];
  phases = phase_of "w1" "quiet" ∷ phase_of "w2" "busy" ∷ phase_of "w3" "quiet" ∷ [];
  workflows =
      record { workflow_id = "w1"; status = "in_progress"; updated_at = moment 5 }
      ∷ record { workflow_id = "w3"; status = "cancelled"; updated_at = moment 6 }
      ∷ [];
}

abbrev at_100 : Sweep
at_100 = record {
  now = 100;
  year_ago = 0;
  timeout = 45;
  threshold = 20;
  in_order = λ rows. rows;
  less = λ stamp threshold. elim stamp [ moment t ↦ ltb t threshold | corrupt e ↦ false ];
}

swept-statuses :
    map (λ (p : PhaseRow). p.status) (run_sweep at_100 tables).0.phases
    ≡ "failed" ∷ "active" ∷ "failed" ∷ []
unfolding run_sweep from_str
swept-statuses = refl

run_sweep-orphans_example :
    (any
        (is_orphan (offline_ids (run_sweep at_100 tables).0.runtimes))
        (run_sweep at_100 tables).0.phases
      ≡ false)
    × (filter is_protected (run_sweep at_100 tables).0.workflows
        ≡ record { workflow_id = "w3"; status = "cancelled"; updated_at = moment 6 } ∷ [])
run_sweep-orphans_example = run_sweep-orphans at_100 tables
