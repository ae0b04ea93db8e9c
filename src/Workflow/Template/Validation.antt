-- ===== src/Workflow/Template/Validation.antt =====
-- What validation promises, and what the registry therefore holds (src/workflow/template.rs).
use hymenium.Prelude.{
  String, ◌≡◌, ◌≢◌, ◌⊎◌, if◌then◌else◌, refl, true, Option, none, some, List, [], ◌∷◌, any, str_eq,
  eq_iff, arith, Bool-cases, inl, inr,
}
use hymenium.Workflow.Template.{
  Phase, Transition, WorkflowTemplate, TemplateError, has_id, find_duplicate, find_dangling,
  validate, Registry, accepted, register, get,
}

abbrev pub Fresh : String → List Phase → Type 0
Fresh id [] = Unit {0}
Fresh id (p ∷ ps) = (p.phase_id ≢ id) × Fresh id ps

-- No two phases share an ID.
abbrev pub Distinct : List Phase → Type 0
Distinct [] = Unit {0}
Distinct (p ∷ ps) = Fresh p.phase_id ps × Distinct ps

-- A phase of the list has the ID.
abbrev pub Has : String → List Phase → Type 0
Has id [] = ⊥
Has id (p ∷ ps) = (p.phase_id ≡ id) ⊎ Has id ps

abbrev pub Resolved : List Phase → List Transition → Type 0
Resolved ps [] = Unit {0}
Resolved ps (t ∷ ts) = Has t.from_phase ps × Has t.to_phase ps × Resolved ps ts

str_eq-same : (s : String) → str_eq s s ≡ true
str_eq-same s = ground (arith, eq_iff s s)

unseen-Fresh :
    (id : String) (seen : List String) (ps : List Phase)
    → any (λ s. str_eq s id) seen ≡ true
    → find_duplicate seen ps ≡ none
    → Fresh id ps
unfolding find_duplicate
unseen-Fresh id seen [] h e = tt
unseen-Fresh id seen (p ∷ ps) h e = (
  λ q. let seen_too : any (λ s. str_eq s p.phase_id) seen ≡ true = rw q h in ground arith,
  unseen-Fresh id (p.phase_id ∷ seen) ps (ground arith) (ground arith),
)

find_duplicate-Distinct :
    (seen : List String) (ps : List Phase) → find_duplicate seen ps ≡ none → Distinct ps
unfolding find_duplicate
find_duplicate-Distinct seen [] e = tt
find_duplicate-Distinct seen (p ∷ ps) e = ground (
  arith,
  unseen-Fresh p.phase_id (p.phase_id ∷ seen) ps,
  str_eq-same p.phase_id,
  find_duplicate-Distinct (p.phase_id ∷ seen) ps,
)

has_id-Has : (id : String) (ps : List Phase) → has_id id ps ≡ true → Has id ps
has_id-Has id [] h = cc
has_id-Has id (p ∷ ps) h = elim (Bool-cases (str_eq p.phase_id id)) [
  | inl e ↦ inl (ground (arith, eq_iff p.phase_id id))
  | inr e ↦ inr (has_id-Has id ps (ground arith))
]

find_dangling-Resolved :
    (ps : List Phase) (ts : List Transition) → find_dangling ps ts ≡ none → Resolved ps ts
unfolding find_dangling
find_dangling-Resolved ps [] e = tt
find_dangling-Resolved ps (t ∷ ts) e = (
  has_id-Has t.from_phase ps (ground arith),
  has_id-Has t.to_phase ps (ground arith),
  find_dangling-Resolved ps ts (ground arith),
)

-- A template that validates has no two phases with one ID, and both ends of each of its transitions
-- are phases of it.
pub validate-Distinct-Resolved :
    (t : WorkflowTemplate) → validate t ≡ none → Distinct t.phases × Resolved t.phases t.transitions
unfolding validate
validate-Distinct-Resolved t e = (
  find_duplicate-Distinct [] t.phases (ground arith),
  find_dangling-Resolved t.phases t.transitions (ground arith),
)

-- A template that is registered has been validated; from then on its ID gives it, and every other
-- ID gives what it gave before.
pub get-register :
    (t : WorkflowTemplate) (r r' : Registry) (id : String)
    → register t r ≡ accepted r'
    → (validate t ≡ none) × (get id r' ≡ (if str_eq t.template_id id then accepted t else get id r))
unfolding register get
get-register t r r' id h = go (validate t) refl
  where
    go :
        (v : Option TemplateError)
        → validate t ≡ v
        → (validate t ≡ none)
          × (get id r' ≡ (if str_eq t.template_id id then accepted t else get id r))
    go none e = (e, ground arith)
    go (some x) e = ground arith
