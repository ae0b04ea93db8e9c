-- ===== src/Decompose/Counting.antt =====
-- Counting the steps through grouping, merging and sorting (src/decompose/algorithm.rs).
use Prim.Native.Nat.{Ordering, compare}
use Prim.Native.String.{compare as compare_text}
use hymenium.Prelude.{
  ℕ, suc, ◌+◌, String, Bool, true, false, some, List, [], ◌∷◌, ◌++◌, ◌≡◌, refl, sym, ap, ◌∙◌, arith,
  inl, inr, map, length, unwrap_or, Option-cases, Bool-cases, if◌then◌else◌,
}
use hymenium.Handoff.{ParsedStep}
use hymenium.Decompose.Groups.{
  Texts, push_group, group_steps, group_by_project, insert_by, sort_by_key, concat,
}
use hymenium.Decompose.Merge.{
  Parents, find, group_by_root, first_number, sorted_groups, union_all, merge_dependency_groups,
  build_step_deps, dep_pairs, own_parents,
}
use hymenium.Decompose.{Decomposing, chunks_of}

-- How many steps of the list pass a test.
abbrev pub count : (ParsedStep → Bool) → List ParsedStep → ℕ
count p [] = 0
count p (s ∷ rest) = (if p s then 1 else 0) + count p rest

-- How many steps of the groups do.
abbrev pub total : {K : Type 0} → (ParsedStep → Bool) → List (K × List ParsedStep) → ℕ
total p [] = 0
total p ((k, xs) ∷ rest) = count p xs + total p rest

pub count-append :
    (p : ParsedStep → Bool) (xs ys : List ParsedStep) → count p (xs ++ ys) ≡ count p xs + count p ys
count-append p [] ys = omega arith
count-append p (x ∷ xs) ys = omega (arith, count-append p xs ys)

total-push_group :
    {K : Type 0} (cmp : K → K → Ordering) (p : ParsedStep → Bool) (k : K) (s : ParsedStep)
    (gs : List (K × List ParsedStep))
    → total p (push_group cmp k s gs) ≡ total p gs + (if p s then 1 else 0)
unfolding push_group
total-push_group cmp p k s [] = omega arith
total-push_group cmp p k s ((j, xs) ∷ gs) =
    ground (arith, total-push_group cmp p k s gs, count-append p xs (s ∷ []))

total-group_steps :
    (p : ParsedStep → Bool) (steps : List ParsedStep) (gs : List (String × List ParsedStep))
    → total p (group_steps steps gs) ≡ total p gs + count p steps
unfolding group_steps
total-group_steps p [] gs = omega arith
total-group_steps p (s ∷ rest) gs = omega (
  arith,
  total-group_steps p rest (push_group compare_text (unwrap_or s.project "default") s gs),
  total-push_group compare_text p (unwrap_or s.project "default") s gs,
)

pub total-group_by_project :
    (p : ParsedStep → Bool) (steps : List ParsedStep) (respect : Bool)
    → total p (group_by_project steps respect) ≡ count p steps
unfolding group_by_project
total-group_by_project p steps true = omega (arith, total-group_steps p steps [])
total-group_by_project p steps false = omega arith

count-insert_by :
    (p : ParsedStep → Bool) (key : ParsedStep → ℕ) (s : ParsedStep) (xs : List ParsedStep)
    → count p (insert_by key s xs) ≡ (if p s then 1 else 0) + count p xs
unfolding insert_by
count-insert_by p key s [] = refl
count-insert_by p key s (x ∷ xs) = ground (arith, count-insert_by p key s xs)

count-sort_by_key :
    (p : ParsedStep → Bool) (key : ParsedStep → ℕ) (xs : List ParsedStep)
    → count p (sort_by_key key xs) ≡ count p xs
unfolding sort_by_key
count-sort_by_key p key [] = refl
count-sort_by_key p key (x ∷ xs) =
    omega (arith, count-sort_by_key p key xs, count-insert_by p key x (sort_by_key key xs))

count-concat-insert_by :
    (p : ParsedStep → Bool) (key : List ParsedStep → ℕ) (xs : List ParsedStep)
    (xss : List (List ParsedStep))
    → count p (concat (insert_by key xs xss)) ≡ count p xs + count p (concat xss)
unfolding insert_by
count-concat-insert_by p key xs [] = count-append p xs []
count-concat-insert_by p key xs (ys ∷ xss) = ground (
  arith,
  count-concat-insert_by p key xs xss,
  count-append p xs (ys ++ concat xss),
  count-append p ys (concat xss),
  count-append p ys (concat (insert_by key xs xss)),
)

count-concat-sort_by_key :
    (p : ParsedStep → Bool) (key : List ParsedStep → ℕ) (xss : List (List ParsedStep))
    → count p (concat (sort_by_key key xss)) ≡ count p (concat xss)
unfolding sort_by_key
count-concat-sort_by_key p key [] = refl
count-concat-sort_by_key p key (xs ∷ xss) = omega (
  arith,
  count-concat-sort_by_key p key xss,
  count-concat-insert_by p key xs (sort_by_key key xss),
  count-append p xs (concat xss),
)

count-sorted_groups :
    (p : ParsedStep → Bool) (gs : List (ℕ × List ParsedStep))
    → count p (concat (map (λ g. sort_by_key (λ s. s.number) g.1) gs)) ≡ total p gs
count-sorted_groups p [] = refl
count-sorted_groups p ((k, xs) ∷ gs) = omega (
  arith,
  count-sorted_groups p gs,
  count-sort_by_key p (λ s. s.number) xs,
  count-append p (sort_by_key (λ s. s.number) xs)
      (concat (map (λ g. sort_by_key (λ s. s.number) g.1) gs)),
)

total-group_by_root :
    (p : ParsedStep → Bool) (fuel : ℕ) (steps : List ParsedStep) (parents : Parents)
    (gs out : List (ℕ × List ParsedStep))
    → group_by_root fuel steps parents gs ≡ some out
    → total p out ≡ total p gs + count p steps
unfolding group_by_root
total-group_by_root p fuel [] parents gs out e = let same : gs ≡ out = cc in ground (arith, same)
total-group_by_root p fuel (s ∷ rest) parents gs out e =
    elim (Option-cases (find fuel parents s.number)) [
      | inl n ↦ ground (arith, n, e)
      | inr ((root, later), f) ↦
          let step = total-push_group compare p root s gs in
          let all_ =
            total-group_by_root p fuel rest later (push_group compare root s gs) out
              (ground (arith, e, f)) in
          omega (arith, step, all_)
    ]

count-merge_dependency_groups :
    (t : Texts) (iteration : List (ℕ × List ℕ) → List (ℕ × List ℕ)) (steps : List ParsedStep)
    (chunks : List (List ParsedStep)) (p : ParsedStep → Bool)
    → merge_dependency_groups t iteration steps ≡ some chunks
    → count p (concat chunks) ≡ count p steps
unfolding merge_dependency_groups
count-merge_dependency_groups t iteration [] chunks p e =
    let same : [] ≡ chunks = cc in ap (λ xss. count p (concat xss)) (sym same)
count-merge_dependency_groups t iteration (s ∷ rest) chunks p e =
    let pairs : List (ℕ × ℕ) = dep_pairs (s ∷ rest) (iteration (build_step_deps t (s ∷ rest))) in
    elim (Option-cases (union_all (suc (length pairs)) pairs (own_parents (s ∷ rest)))) [
      | inl n ↦ ground (arith, n, e)
      | inr (parents, u) ↦
          elim (Option-cases (group_by_root (suc (length pairs)) (s ∷ rest) parents [])) [
            | inl n ↦ ground (arith, u, n, e)
            | inr (groups, g) ↦
                let same : sorted_groups groups ≡ chunks = ground (arith, u, g, e) in
                let kept =
                  total-group_by_root p (suc (length pairs)) (s ∷ rest) parents [] groups g in
                ap (λ xss. count p (concat xss)) (sym same)
                ∙ (count-concat-sort_by_key p first_number
                      (map (λ x. sort_by_key (λ s. s.number) x.1) groups)
                    ∙ (count-sorted_groups p groups ∙ omega (arith, kept)))
          ]
    ]

count-singles :
    (p : ParsedStep → Bool) (steps : List ParsedStep)
    → count p (concat (map (λ s. s ∷ []) steps)) ≡ count p steps
count-singles p [] = refl
count-singles p (s ∷ rest) = omega (arith, count-singles p rest)

pub count-chunks_of :
    (d : Decomposing) (steps : List ParsedStep) (chunks : List (List ParsedStep))
    (p : ParsedStep → Bool)
    → chunks_of d steps ≡ some chunks
    → count p (concat chunks) ≡ count p steps
unfolding chunks_of
count-chunks_of d steps chunks p e = elim (Bool-cases d.config.respect_dependencies) [
  | inl y ↦ count-merge_dependency_groups d.texts d.iteration steps chunks p (ground (arith, y, e))
  | inr n ↦
      let same : map (λ s. s ∷ []) steps ≡ chunks = ground (arith, n, e) in
      ap (λ xss. count p (concat xss)) (sym same) ∙ count-singles p steps
]
