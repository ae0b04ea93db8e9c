-- ===== src/Sweeper.antt =====
-- The liveness sweeper over the runtimes of a database (src/sweeper.rs).
mod Orphans
pub mod Tables
pub mod Swept
use hymenium.Prelude.{
  ℕ, zero, suc, ◌+◌, ◌-◌, ◌*◌, String, Bool, true, false, not, ◌&&◌, ◌||◌, Option, none, some, List,
  [], ◌∷◌, ◌++◌, map, filter, any, member, str_eq, is_empty, is_some, length, take, ltb, format,
  unwrap_or, if◌then◌else◌,
}
use hymenium.Workflow.Engine.{Timestamp}
use hymenium.Sweeper.Tables.{
  RuntimeStatus, Stamp, RuntimeRow, Database, RuntimeEntry, entry_of, timestamp_errors,
  mark_offline, gc_offline, active_phases_for_runtimes, fail_phases, offline_orphans,
  reconcile_offline_phases, online,
}

pub record SweepReport : Type 0 where
  pub runtimes_marked_offline : ℕ
  pub phases_orphan_failed : ℕ
  pub phases_reconciled : ℕ
  pub runtimes_gc_deleted : ℕ
  pub errors : List String

-- Online, and the heartbeat is older than the timeout; a heartbeat of later has a negative age.
abbrev pub is_late : Timestamp → ℕ → RuntimeEntry → Bool
is_late now timeout e = elim e.status [
  | online ↦ ltb (e.last_heartbeat + timeout) now
  | RuntimeStatus.offline ↦ false
]

unfoldable pub late_ids : Timestamp → ℕ → List RuntimeEntry → List String
late_ids now timeout entries = map (λ e. e.runtime_id) (filter (is_late now timeout) entries)

unfoldable pub mark_all : List String → Timestamp → List RuntimeRow → List RuntimeRow
unfolding mark_offline
mark_all [] now rows = rows
mark_all (id ∷ rest) now rows = mark_all rest now (mark_offline id now rows)

-- The database as it answers every statement. `in_order` is its order by registration, `less` its
-- comparison of timestamp texts; `year_ago` and the threshold are the differences of moments.
pub record Sweep : Type 0 where
  pub now : Timestamp
  pub year_ago : Timestamp
  pub timeout : ℕ
  pub threshold : Timestamp
  pub in_order : List RuntimeRow → List RuntimeRow
  pub less : Stamp → Timestamp → Bool

abbrev pub after_heartbeats : Sweep → Database → List String → Database
after_heartbeats s db late = record db { runtimes = mark_all late s.now db.runtimes }

abbrev pub after_orphans : Sweep → Database → List String → Database
after_orphans s db late =
    let marked = after_heartbeats s db late in
    fail_phases (active_phases_for_runtimes late marked.phases) s.now marked

abbrev pub late_of : Sweep → Database → List String
late_of s db = late_ids s.now s.timeout (map (entry_of s.year_ago) (s.in_order db.runtimes))

-- The four phases, one after another.
unfoldable pub run_sweep : Sweep → Database → Database × SweepReport
unfolding late_ids mark_all active_phases_for_runtimes fail_phases reconcile_offline_phases
    gc_offline timestamp_errors
run_sweep s db =
    let late = late_of s db in
    let failed = after_orphans s db late in
    let reconciled = reconcile_offline_phases s.now failed in
    let kept = gc_offline s.less s.threshold reconciled.runtimes in
    (
      record reconciled { runtimes = kept },
      record {
        runtimes_marked_offline = length late;
        phases_orphan_failed = length (active_phases_for_runtimes late db.phases);
        phases_reconciled = length (offline_orphans failed);
        runtimes_gc_deleted = length reconciled.runtimes - length kept;
        errors = timestamp_errors (s.in_order db.runtimes);
      },
    )
