-- ===== src/Decompose/Merge.antt =====
-- Steps that depend on each other, joined by union-find (src/decompose/algorithm.rs).
mod Forest
mod Buckets
pub mod Together
use Prim.Native.Nat.{Ordering, compare}
use hymenium.Prelude.{
  ℕ, zero, suc, ◌+◌, String, Bool, true, false, not, Option, none, some, List, [], ◌∷◌, ◌++◌, map,
  any, is_empty, leb, ◌==◌, length, if◌then◌else◌,
}
use hymenium.Handoff.{ParsedStep}
use hymenium.Decompose.Groups.{Texts, parse_dep_step_number, push_group, insert_by, sort_by_key}

-- The parent map.
abbrev pub Parents : Type 0
Parents = ℕ → Option ℕ

abbrev pub set_parent : ℕ → ℕ → Parents → Parents
set_parent x p parents y = if x == y then some p else parents y

-- `find`, with path compression; `none` where a key is missing or the fuel has run out.
unfoldable pub find : ℕ → Parents → ℕ → Option (ℕ × Parents)
find zero parents x = none
find (suc fuel) parents x = elim (parents x) [
  | none ↦ none
  | some p ↦ elim (p == x) [
    | true ↦ some (x, parents)
    | false ↦ elim (find fuel parents p) [
      | none ↦ none
      | some (root, later) ↦ some (root, set_parent x root later)
    ]
  ]
]

unfoldable pub union : ℕ → Parents → ℕ → ℕ → Option Parents
unfolding find
union fuel parents a b = elim (find fuel parents a) [
  | none ↦ none
  | some (ra, after_a) ↦ elim (find fuel after_a b) [
    | none ↦ none
    | some (rb, after_b) ↦ some (if ra == rb then after_b else set_parent ra rb after_b)
  ]
]

abbrev pub is_number : ℕ → List ParsedStep → Bool
is_number n = any (λ s. s.number == n)

abbrev pub deps_of : Texts → List String → List ℕ
deps_of t [] = []
deps_of t (d ∷ rest) = elim (parse_dep_step_number t d) [
  | none ↦ deps_of t rest
  | some n ↦ n ∷ deps_of t rest
]

-- `map.insert`: of two steps with one number the later one counts.
unfoldable pub build_step_deps : Texts → List ParsedStep → List (ℕ × List ℕ)
build_step_deps t [] = []
build_step_deps t (s ∷ rest) =
    let others = build_step_deps t rest in
    if is_number s.number rest then others else (s.number, deps_of t s.depends_on) ∷ others

-- The pairs that the nested loops give to `union`, for the entries in the order of iteration.
unfoldable pub entry_pairs : List ParsedStep → ℕ → List ℕ → List (ℕ × ℕ)
entry_pairs steps n [] = []
entry_pairs steps n (d ∷ ds) =
    if is_number d steps then (n, d) ∷ entry_pairs steps n ds else entry_pairs steps n ds

unfoldable pub dep_pairs : List ParsedStep → List (ℕ × List ℕ) → List (ℕ × ℕ)
unfolding entry_pairs
dep_pairs steps [] = []
dep_pairs steps ((n, ds) ∷ rest) = entry_pairs steps n ds ++ dep_pairs steps rest

unfoldable pub union_all : ℕ → List (ℕ × ℕ) → Parents → Option Parents
unfolding union
union_all fuel [] parents = some parents
union_all fuel ((a, b) ∷ rest) parents = elim (union fuel parents a b) [
  | none ↦ none
  | some later ↦ union_all fuel rest later
]

-- The loop that groups the steps by their roots.
unfoldable pub group_by_root :
    ℕ → List ParsedStep → Parents → List (ℕ × List ParsedStep) → Option (List (ℕ × List ParsedStep))
unfolding find push_group
group_by_root fuel [] parents groups = some groups
group_by_root fuel (s ∷ rest) parents groups = elim (find fuel parents s.number) [
  | none ↦ none
  | some (root, later) ↦ group_by_root fuel rest later (push_group compare root s groups)
]

abbrev pub own_parents : List ParsedStep → Parents
own_parents steps n = if is_number n steps then some n else none

abbrev pub first_number : List ParsedStep → ℕ
first_number [] = 0
first_number (s ∷ rest) = s.number

abbrev pub sorted_groups : List (ℕ × List ParsedStep) → List (List ParsedStep)
sorted_groups groups = sort_by_key first_number (map (λ g. sort_by_key (λ s. s.number) g.1) groups)

-- `iteration` is the order of a map's entries. Each union adds at most one to a path's length.
unfoldable pub merge_dependency_groups :
    Texts
    → (List (ℕ × List ℕ) → List (ℕ × List ℕ))
    → List ParsedStep
    → Option (List (List ParsedStep))
unfolding build_step_deps dep_pairs union_all group_by_root
merge_dependency_groups t iteration steps =
    let pairs = dep_pairs steps (iteration (build_step_deps t steps)) in
    let fuel = suc (length pairs) in
    elim (is_empty steps) [
      | true ↦ some []
      | false ↦ elim (union_all fuel pairs (own_parents steps)) [
        | none ↦ none
        | some parents ↦ elim (group_by_root fuel steps parents []) [
          | none ↦ none
          | some groups ↦ some (sorted_groups groups)
        ]
      ]
    ]
