-- ===== src/Sweeper/Swept.antt =====
-- What a whole sweep leaves in the tables (src/sweeper.rs).
use hymenium.Prelude.{
  String, Bool, true, false, List, [], ◌∷◌, filter, any, member, ◌≡◌, refl, sym, ap, ◌∙◌, arith,
  inl, inr, Option-cases,
}
use hymenium.Workflow.Engine.{Timestamp}
use hymenium.Sweeper.Tables.{
  PhaseRow, RuntimeRow, Database, Stamp, is_orphan, active_phases_for_runtimes, is_protected,
  offline_ids, offline_orphans, reconcile_offline_phases, gc_offline,
}
use hymenium.Sweeper.{Sweep, late_of, after_heartbeats, after_orphans, run_sweep}
use hymenium.Sweeper.Orphans.{reconcile-none, protected-fail_phases, runtimes-fail_phases}

member-offline_ids :
    (less : Stamp → Timestamp → Bool) (threshold : Timestamp) (id : String) (rows : List RuntimeRow)
    → member id (offline_ids (gc_offline less threshold rows)) ≡ true
    → member id (offline_ids rows) ≡ true
unfolding gc_offline
member-offline_ids less threshold id [] m = m
member-offline_ids less threshold id (r ∷ rows) m =
    ground (arith, m, member-offline_ids less threshold id rows)

fewer-orphans :
    (ids more : List String) (ps : List PhaseRow)
    → ((id : String) → member id ids ≡ true → member id more ≡ true)
    → any (is_orphan more) ps ≡ false
    → any (is_orphan ids) ps ≡ false
fewer-orphans ids more [] k h = refl
fewer-orphans ids more (p ∷ ps) k h = elim (Option-cases p.agent_id) [
  | inl e ↦ ground (arith, e, h, fewer-orphans ids more ps k)
  | inr (id, e) ↦ ground (arith, e, h, k id, fewer-orphans ids more ps k)
]

-- After a sweep of a database that answers every statement, no active phase belongs to an agent
-- whose runtime is offline, and the workflows that are completed, cancelled or terminated by the
-- user are the same as before it, unchanged and in their order.
pub run_sweep-orphans :
    (s : Sweep) (db : Database)
    → (any (is_orphan (offline_ids (run_sweep s db).0.runtimes)) (run_sweep s db).0.phases ≡ false)
      × (filter is_protected (run_sweep s db).0.workflows ≡ filter is_protected db.workflows)
unfolding run_sweep reconcile_offline_phases
run_sweep-orphans s db =
    let late : List String = late_of s db in
    let marked : Database = after_heartbeats s db late in
    let failed : Database = after_orphans s db late in
    let reconciled : Database = reconcile_offline_phases s.now failed in
    let same : reconciled.runtimes ≡ failed.runtimes =
      runtimes-fail_phases (offline_orphans failed) s.now failed in
    (
      fewer-orphans (offline_ids (gc_offline s.less s.threshold reconciled.runtimes))
          (offline_ids failed.runtimes) reconciled.phases
          (λ id m.
            ap (λ rows. member id (offline_ids rows)) (sym same)
            ∙ member-offline_ids s.less s.threshold id reconciled.runtimes m)
          (reconcile-none s.now failed),
      protected-fail_phases (offline_orphans failed) s.now failed
          ∙ protected-fail_phases (active_phases_for_runtimes late marked.phases) s.now marked,
    )
