-- ===== src/Sweeper/Orphans.antt =====
-- What a sweep leaves in the tables (src/sweeper.rs).
use hymenium.Prelude.{
  ℕ, zero, suc, ◌≤◌, String, Bool, true, false, not, ◌&&◌, ◌||◌, some, List, [], ◌∷◌, ◌++◌, map,
  filter, any, member, str_eq, str_eq-same, length, take, ◌≡◌, refl, sym, ap, ◌∙◌, arith, ◌⊎◌, inl,
  inr, Bool-cases, Option-cases, if◌then◌else◌,
}
use hymenium.Workflow.Engine.{Timestamp}
use hymenium.Sweeper.Tables.{
  PhaseRow, WorkflowRow, Database, moment, agent_in, is_orphan, drop, active_phases_from,
  active_phases_for_runtimes, is_protected, failed_phase, failed_workflow, fail_phase, fail_phases,
  offline_ids, offline_orphans, reconcile_offline_phases,
}

abbrev InRows : PhaseRow → List PhaseRow → Type 0
InRows p [] = ⊥
InRows p (q ∷ rest) = (q ≡ p) ⊎ InRows p rest

-- The two rows are of one phase.
abbrev same : PhaseRow → PhaseRow → Bool
same p q = str_eq p.workflow_id q.workflow_id && str_eq p.phase_id q.phase_id

any-append :
    (p : PhaseRow) (xs ys : List PhaseRow)
    → any (same p) (xs ++ ys) ≡ (any (same p) xs || any (same p) ys)
any-append p [] ys = refl
any-append p (x ∷ xs) ys = ground (arith, any-append p xs ys)

any-filter :
    (f : PhaseRow → Bool) (p : PhaseRow) (ps : List PhaseRow)
    → InRows p ps
    → f p ≡ true
    → any (same p) (filter f ps) ≡ true
any-filter f p [] i h = elim i [ ]
any-filter f p (q ∷ ps) (inl e) h =
    ground (arith, h, ap f e, ap (same p) e, str_eq-same p.workflow_id, str_eq-same p.phase_id)
any-filter f p (q ∷ ps) (inr i) h = ground (arith, any-filter f p ps i h)

member-take :
    (n : ℕ) (x : String) (xs : List String)
    → member x xs ≡ (member x (take n xs) || member x (drop n xs))
member-take zero x xs = refl
member-take (suc n) x [] = refl
member-take (suc n) x (y ∷ xs) = ground (arith, member-take n x xs)

length-drop_le : (n : ℕ) (xs : List String) → length (drop n xs) ≤ length xs
length-drop_le zero xs = omega arith
length-drop_le (suc n) [] = omega arith
length-drop_le (suc n) (x ∷ xs) = omega (arith, length-drop_le n xs)

agent_in-take :
    (n : ℕ) (ids : List String) (p : PhaseRow)
    → agent_in ids p ≡ (agent_in (take n ids) p || agent_in (drop n ids) p)
agent_in-take n ids p = elim (Option-cases p.agent_id) [
  | inl e ↦ ground (arith, e)
  | inr (id, e) ↦ ground (arith, e, member-take n id ids)
]

any-batch :
    (first later ids : List String) (p : PhaseRow) (ps rest : List PhaseRow)
    → agent_in ids p ≡ (agent_in first p || agent_in later p)
    → is_orphan ids p ≡ true
    → InRows p ps
    → (is_orphan later p ≡ true → any (same p) rest ≡ true)
    → any (same p) (filter (is_orphan first) ps ++ rest) ≡ true
any-batch first later ids p ps rest e h i k = elim (Bool-cases (is_orphan first p)) [
  | inl t ↦ ground (
    arith,
    any-append p (filter (is_orphan first) ps) rest,
    any-filter (is_orphan first) p ps i t,
  )
  | inr f ↦
      let last : is_orphan later p ≡ true = ground (arith, e, h, f) in
      ground (arith, any-append p (filter (is_orphan first) ps) rest, k last)
]

-- Each active phase of one of the runtimes is found, in whatever batch its runtime is.
any-active_phases_from :
    (fuel : ℕ) (ids : List String) (p : PhaseRow) (ps : List PhaseRow)
    → length ids ≤ fuel
    → InRows p ps
    → is_orphan ids p ≡ true
    → any (same p) (active_phases_from fuel ids ps) ≡ true
unfolding active_phases_from
any-active_phases_from fuel [] p ps f i h = elim (Option-cases p.agent_id) [
  | inl e ↦ ground (arith, e, h)
  | inr (id, e) ↦ ground (arith, e, h)
]
any-active_phases_from zero (x ∷ ids) p ps f i h = ground (arith, f)
any-active_phases_from (suc fuel) (x ∷ ids) p ps f i h =
    any-batch (take 999 (x ∷ ids)) (drop 999 (x ∷ ids)) (x ∷ ids) p ps
      (active_phases_from fuel (drop 999 (x ∷ ids)) ps) (agent_in-take 999 (x ∷ ids) p) h i
      (any-active_phases_from fuel (drop 999 (x ∷ ids)) p ps
        (omega (arith, f, length-drop_le 998 ids)) i)

any-active_phases_for :
    (ids : List String) (p : PhaseRow) (ps : List PhaseRow)
    → InRows p ps
    → is_orphan ids p ≡ true
    → any (same p) (active_phases_for_runtimes ids ps) ≡ true
unfolding active_phases_for_runtimes
any-active_phases_for ids p ps i h = any-active_phases_from (length ids) ids p ps (omega arith) i h

-- What the loop over the orphans does to one row.
abbrev fail_all : List PhaseRow → Timestamp → PhaseRow → PhaseRow
fail_all [] now p = p
fail_all (o ∷ rest) now p = fail_all rest now (failed_phase o "runtime went offline" now p)

map-same : (ps : List PhaseRow) → map (λ p. p) ps ≡ ps
map-same [] = refl
map-same (p ∷ ps) = ap (◌∷◌ p) (map-same ps)

map-both :
    (f g : PhaseRow → PhaseRow) (ps : List PhaseRow) → map g (map f ps) ≡ map (λ p. g (f p)) ps
map-both f g [] = refl
map-both f g (p ∷ ps) = ap (◌∷◌ (g (f p))) (map-both f g ps)

protected-map :
    (o : PhaseRow) (now : Timestamp) (ws : List WorkflowRow)
    → filter is_protected (map (failed_workflow o now) ws) ≡ filter is_protected ws
protected-map o now [] = refl
protected-map o now (w ∷ ws) =
    elim (Bool-cases (str_eq w.workflow_id o.workflow_id && not (is_protected w))) [
      | inl t ↦
          let lost : is_protected (failed_workflow o now w) ≡ false =
            ap
              (λ b.
                is_protected
                  (if b then record w { status = "failed"; updated_at = moment now } else w))
              t in
          ground (arith, lost, t, protected-map o now ws)
      | inr f ↦
          let kept : failed_workflow o now w ≡ w =
            ap (λ b. if b then record w { status = "failed"; updated_at = moment now } else w) f in
          rw (kept, protected-map o now ws) refl
    ]

phases-fail_phases :
    (os : List PhaseRow) (now : Timestamp) (db : Database)
    → (fail_phases os now db).phases ≡ map (fail_all os now) db.phases
unfolding fail_phases
phases-fail_phases [] now db = sym (map-same db.phases)
phases-fail_phases (o ∷ os) now db =
    phases-fail_phases os now (fail_phase o "runtime went offline" now db)
    ∙ map-both (failed_phase o "runtime went offline" now) (fail_all os now) db.phases

pub runtimes-fail_phases :
    (os : List PhaseRow) (now : Timestamp) (db : Database)
    → (fail_phases os now db).runtimes ≡ db.runtimes
unfolding fail_phases
runtimes-fail_phases [] now db = refl
runtimes-fail_phases (o ∷ os) now db =
    runtimes-fail_phases os now (fail_phase o "runtime went offline" now db)

abbrev failed_row : Timestamp → PhaseRow → PhaseRow
failed_row now p = record p {
  status = "failed";
  completed_at = some (moment now);
  failure_reason = some "runtime went offline";
}

-- A row that is an orphan after the loop was one before, and its phase was not in the list.
is_orphan-fail_all :
    (os : List PhaseRow) (now : Timestamp) (ids : List String) (p : PhaseRow)
    → is_orphan ids (fail_all os now p) ≡ true
    → (is_orphan ids p ≡ true) × (any (same p) os ≡ false)
is_orphan-fail_all [] now ids p h = (h, refl)
is_orphan-fail_all (o ∷ os) now ids p h =
    let (before, none_of) =
      is_orphan-fail_all os now ids (failed_phase o "runtime went offline" now p) h in
    elim (Bool-cases (
      str_eq p.workflow_id o.workflow_id
      && (str_eq p.phase_id o.phase_id && str_eq p.status "active"))) [
        | inl t ↦
            let not_active : is_orphan ids (failed_phase o "runtime went offline" now p) ≡ false =
              ap (λ b. is_orphan ids (if b then failed_row now p else p)) t in
            ground (arith, before, not_active)
        | inr f ↦
            let kept : failed_phase o "runtime went offline" now p ≡ p =
              ap (λ b. if b then failed_row now p else p) f in
            let here : is_orphan ids p ≡ true = sym (ap (is_orphan ids) kept) ∙ before in
            let others : any (same p) os ≡ false = sym (ap (λ q. any (same q) os) kept) ∙ none_of in
            (here, ground (arith, here, others, f))
      ]

pub protected-fail_phases :
    (os : List PhaseRow) (now : Timestamp) (db : Database)
    → filter is_protected (fail_phases os now db).workflows ≡ filter is_protected db.workflows
unfolding fail_phases
protected-fail_phases [] now db = refl
protected-fail_phases (o ∷ os) now db =
    protected-fail_phases os now (fail_phase o "runtime went offline" now db)
    ∙ protected-map o now db.workflows

any-map :
    (bad : PhaseRow → Bool) (g : PhaseRow → PhaseRow) (ps : List PhaseRow)
    → ((p : PhaseRow) → InRows p ps → bad (g p) ≡ false)
    → any bad (map g ps) ≡ false
any-map bad g [] k = refl
any-map bad g (p ∷ ps) k = ground (arith, k p (inl refl), any-map bad g ps (λ q i. k q (inr i)))

-- After the reconciliation no active phase belongs to an offline runtime.
pub reconcile-none :
    (now : Timestamp) (db : Database)
    → any (is_orphan (offline_ids db.runtimes)) (reconcile_offline_phases now db).phases ≡ false
unfolding reconcile_offline_phases
reconcile-none now db =
    let ids : List String = offline_ids db.runtimes in
    let os : List PhaseRow = offline_orphans db in
    ap (any (is_orphan ids)) (phases-fail_phases os now db)
    ∙ any-map (is_orphan ids) (fail_all os now) db.phases λ p i.
      elim (Bool-cases (is_orphan ids (fail_all os now p))) [
        | inr f ↦ f
        | inl t ↦
            let (before, none_of) = is_orphan-fail_all os now ids p t in
            let found = any-active_phases_for ids p db.phases i before in
            ground (arith, none_of, found)
      ]
