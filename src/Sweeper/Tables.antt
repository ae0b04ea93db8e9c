-- ===== src/Sweeper/Tables.antt =====
-- The tables of the sweeper's database and the statements over them (src/sweeper.rs).
use hymenium.Prelude.{
  ℕ, zero, suc, String, Bool, false, not, ◌&&◌, ◌||◌, Option, none, some, List, [], ◌∷◌, ◌++◌, map,
  filter, member, str_eq, is_empty, length, take, format, unwrap_or, if◌then◌else◌,
}
use hymenium.Workflow.Engine.{Timestamp}

pub data RuntimeStatus : Type 0 where
  online offline : RuntimeStatus

unfoldable pub as_str : RuntimeStatus → String
as_str online = "online"
as_str offline = "offline"

unfoldable pub from_str : String → Option RuntimeStatus
from_str s =
    if str_eq s "online" then some online else if str_eq s "offline" then some offline else none

-- A text in a column of timestamps: a moment, or the error of its parsing.
pub data Stamp : Type 0 where
  moment : Timestamp → Stamp
  corrupt : String → Stamp

-- The rows of the three tables, as far as the sweeper reads or writes their columns.
pub record RuntimeRow : Type 0 where
  pub runtime_id : String
  pub status : String
  pub last_heartbeat : Stamp
  pub registered_at : Stamp
  pub went_offline_at : Option Stamp

pub record PhaseRow : Type 0 where
  pub workflow_id : String
  pub phase_id : String
  pub agent_id : Option String
  pub status : String
  pub completed_at : Option Stamp
  pub failure_reason : Option String

pub record WorkflowRow : Type 0 where
  pub workflow_id : String
  pub status : String
  pub updated_at : Stamp

pub record Database : Type 0 where
  pub runtimes : List RuntimeRow
  pub phases : List PhaseRow
  pub workflows : List WorkflowRow

-- A row as `list_all_with_errors` gives it, where a moment that is not read is one year old.
pub record RuntimeEntry : Type 0 where
  pub runtime_id : String
  pub status : RuntimeStatus
  pub last_heartbeat : Timestamp
  pub registered_at : Timestamp
  pub went_offline_at : Option Timestamp

abbrev beat : Timestamp → RuntimeRow → RuntimeRow
beat now r = record r { status = "online"; last_heartbeat = moment now; went_offline_at = none }

unfoldable pub upsert_heartbeat : String → Timestamp → List RuntimeRow → List RuntimeRow
upsert_heartbeat id now [] =
    record {
      runtime_id = id;
      status = "online";
      last_heartbeat = moment now;
      registered_at = moment now;
      went_offline_at = none;
    }
    ∷ []
upsert_heartbeat id now (r ∷ rest) =
    let others = upsert_heartbeat id now rest in
    if str_eq r.runtime_id id then beat now r ∷ rest else r ∷ others

abbrev read : Timestamp → Stamp → Timestamp
read year_ago (moment t) = t
read year_ago (corrupt e) = year_ago

abbrev read_option : Option Stamp → Option Timestamp
read_option (some (moment t)) = some t
read_option _ = none

abbrev pub entry_of : Timestamp → RuntimeRow → RuntimeEntry
entry_of year_ago r = record {
  runtime_id = r.runtime_id;
  status = unwrap_or (from_str r.status) offline;
  last_heartbeat = read year_ago r.last_heartbeat;
  registered_at = read year_ago r.registered_at;
  went_offline_at = read_option r.went_offline_at;
}

abbrev complaint : String → String → Option Stamp → List String
complaint id column (some (corrupt e)) =
    format ("corrupt timestamp for runtime " ∷ id ∷ ": invalid " ∷ column ∷ ": " ∷ e ∷ []) ∷ []
complaint id column _ = []

unfoldable pub timestamp_errors : List RuntimeRow → List String
timestamp_errors [] = []
timestamp_errors (r ∷ rest) =
    complaint r.runtime_id "last_heartbeat" (some r.last_heartbeat)
    ++ (complaint r.runtime_id "registered_at" (some r.registered_at)
        ++ (complaint r.runtime_id "went_offline_at" r.went_offline_at ++ timestamp_errors rest))

unfoldable pub mark_offline : String → Timestamp → List RuntimeRow → List RuntimeRow
mark_offline id now = map λ r.
    if str_eq r.runtime_id id && not (str_eq r.status "offline")
    then record r { status = "offline"; went_offline_at = some (moment now) }
    else r

-- `went_offline_at < threshold` as the database compares the two texts; a null is not less.
abbrev pub went_before : (Stamp → Timestamp → Bool) → Timestamp → RuntimeRow → Bool
went_before less threshold r = elim r.went_offline_at [ none ↦ false | some s ↦ less s threshold ]

abbrev expired : (Stamp → Timestamp → Bool) → Timestamp → RuntimeRow → Bool
expired less threshold r = str_eq r.status "offline" && went_before less threshold r

unfoldable pub gc_offline :
    (Stamp → Timestamp → Bool) → Timestamp → List RuntimeRow → List RuntimeRow
gc_offline less threshold = filter (λ r. not (expired less threshold r))

abbrev pub agent_in : List String → PhaseRow → Bool
agent_in ids p = elim p.agent_id [ none ↦ false | some id ↦ member id ids ]

-- The query for one batch, in the order of the table.
abbrev pub is_orphan : List String → PhaseRow → Bool
is_orphan ids p = str_eq p.status "active" && agent_in ids p

abbrev pub drop : {A : Type 0} → ℕ → List A → List A
drop zero xs = xs
drop (suc n) [] = []
drop (suc n) (x ∷ xs) = drop n xs

-- The batches of at most 999 IDs; there are no more batches than IDs.
unfoldable pub active_phases_from : ℕ → List String → List PhaseRow → List PhaseRow
active_phases_from zero ids phases = []
active_phases_from (suc fuel) ids phases =
    let rest = active_phases_from fuel (drop 999 ids) phases in
    if is_empty ids then [] else filter (is_orphan (take 999 ids)) phases ++ rest

unfoldable pub active_phases_for_runtimes : List String → List PhaseRow → List PhaseRow
unfolding active_phases_from
active_phases_for_runtimes ids phases = active_phases_from (length ids) ids phases

abbrev pub is_protected : WorkflowRow → Bool
is_protected w =
    str_eq w.status "completed"
    || (str_eq w.status "cancelled" || str_eq w.status "user_terminated")

abbrev pub failed_phase : PhaseRow → String → Timestamp → PhaseRow → PhaseRow
failed_phase target reason now p =
    if str_eq p.workflow_id target.workflow_id
      && (str_eq p.phase_id target.phase_id && str_eq p.status "active")
    then record p {
      status = "failed";
      completed_at = some (moment now);
      failure_reason = some reason;
    }
    else p

abbrev pub failed_workflow : PhaseRow → Timestamp → WorkflowRow → WorkflowRow
failed_workflow target now w =
    if str_eq w.workflow_id target.workflow_id && not (is_protected w)
    then record w { status = "failed"; updated_at = moment now }
    else w

unfoldable pub fail_phase : PhaseRow → String → Timestamp → Database → Database
fail_phase target reason now db = record db {
  phases = map (failed_phase target reason now) db.phases;
  workflows = map (failed_workflow target now) db.workflows;
}

-- The loop over the orphans.
unfoldable pub fail_phases : List PhaseRow → Timestamp → Database → Database
unfolding fail_phase
fail_phases [] now db = db
fail_phases (p ∷ rest) now db = fail_phases rest now (fail_phase p "runtime went offline" now db)

abbrev pub offline_ids : List RuntimeRow → List String
offline_ids rows = map (λ r. r.runtime_id) (filter (λ r. str_eq r.status "offline") rows)

abbrev pub offline_orphans : Database → List PhaseRow
offline_orphans db = active_phases_for_runtimes (offline_ids db.runtimes) db.phases

unfoldable pub reconcile_offline_phases : Timestamp → Database → Database
unfolding active_phases_for_runtimes fail_phases
reconcile_offline_phases now db = fail_phases (offline_orphans db) now db
