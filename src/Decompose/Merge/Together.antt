-- ===== src/Decompose/Merge/Together.antt =====
-- Steps that depend on each other come into one chunk (src/decompose/algorithm.rs).
use hymenium.Prelude.{
  ℕ, suc, Bool, true, false, not, ◌&&◌, ◌||◌, some, List, [], ◌∷◌, ◌++◌, ◌≡◌, refl, ◌∙◌, arith,
  ◌==◌, any, all, map, length, if◌then◌else◌,
}
use hymenium.Handoff.{ParsedStep}
use hymenium.Decompose.Groups.{Texts, insert_by, sort_by_key}
use hymenium.Decompose.Merge.{
  is_number, own_parents, deps_of, build_step_deps, entry_pairs, dep_pairs, first_number,
  sorted_groups, merge_dependency_groups,
}
use hymenium.Decompose.Merge.Forest.{IsForest, has_pair, union_all-Joined}
use hymenium.Decompose.Merge.Buckets.{Buckets, agrees, fits, group_by_root-IsBucketed}

abbrev pub Entries : Type 0
Entries = List (ℕ × List ℕ)

abbrev pub is_in : ℕ → List ℕ → Bool
is_in d = any (λ e. e == d)

-- The entry of the one number names the other.
abbrev pub has_dep : ℕ → ℕ → Entries → Bool
has_dep n d = any (λ entry. entry.0 == n && is_in d entry.1)

-- The last step of the one number says that it depends on the other.
abbrev pub depends : Texts → ℕ → ℕ → List ParsedStep → Bool
depends t a b [] = false
depends t a b (s ∷ rest) =
    if s.number == a && not (is_number a rest)
    then is_in b (deps_of t s.depends_on)
    else depends t a b rest

-- In each chunk there is a step of the one number just when there is one of the other.
abbrev pub together : ℕ → ℕ → List (List ParsedStep) → Bool
together a b = all (λ chunk. agrees (is_number a chunk) (is_number b chunk))

is_number-insert_by :
    (key : ParsedStep → ℕ) (n : ℕ) (s : ParsedStep) (xs : List ParsedStep)
    → is_number n (insert_by key s xs) ≡ (s.number == n || is_number n xs)
unfolding insert_by
is_number-insert_by key n s [] = refl
is_number-insert_by key n s (x ∷ xs) = ground (arith, is_number-insert_by key n s xs)

is_number-sort_by_key :
    (key : ParsedStep → ℕ) (n : ℕ) (xs : List ParsedStep)
    → is_number n (sort_by_key key xs) ≡ is_number n xs
unfolding sort_by_key
is_number-sort_by_key key n [] = refl
is_number-sort_by_key key n (x ∷ xs) =
    ground (arith, is_number-sort_by_key key n xs, is_number-insert_by key n x (sort_by_key key xs))

all-insert_by :
    {A : Type 0} (p : A → Bool) (key : A → ℕ) (a : A) (xs : List A)
    → all p (insert_by key a xs) ≡ (p a && all p xs)
unfolding insert_by
all-insert_by p key a [] = refl
all-insert_by p key a (x ∷ xs) = ground (arith, all-insert_by p key a xs)

all-sort_by_key :
    {A : Type 0} (p : A → Bool) (key : A → ℕ) (xs : List A) → all p (sort_by_key key xs) ≡ all p xs
unfolding sort_by_key
all-sort_by_key p key [] = refl
all-sort_by_key p key (x ∷ xs) =
    ground (arith, all-sort_by_key p key xs, all-insert_by p key x (sort_by_key key xs))

-- Groups that fit a root have the numbers of one root together.
fits-together :
    (rep : ℕ → ℕ) (steps : List ParsedStep) (a b : ℕ) (gs : Buckets)
    → rep a ≡ rep b
    → is_number a steps ≡ is_number b steps
    → all (fits rep steps a) gs ≡ true
    → all (fits rep steps b) gs ≡ true
    → together a b (map (λ g. sort_by_key (λ s. s.number) g.1) gs) ≡ true
fits-together rep steps a b [] r m fa fb = refl
fits-together rep steps a b (g ∷ gs) r m fa fb = ground (
  arith,
  r,
  m,
  fa,
  fb,
  is_number-sort_by_key (λ s. s.number) a g.1,
  is_number-sort_by_key (λ s. s.number) b g.1,
  fits-together rep steps a b gs,
)

own_parents-IsForest : (steps : List ParsedStep) → IsForest (λ x. x) (λ x. 0) (own_parents steps)
own_parents-IsForest steps = record {
  inside = λ x p e. ground (arith, e);
  same = λ x p e. ground (arith, e);
  deeper = λ x p e n. ground (arith, e, n);
  rooted = λ x s. ground (arith, s);
  root = λ x e. refl;
  flat = λ x e. refl;
}

has_pair-append :
    (a b : ℕ) (xs ys : List (ℕ × ℕ))
    → has_pair a b (xs ++ ys) ≡ (has_pair a b xs || has_pair a b ys)
has_pair-append a b [] ys = refl
has_pair-append a b (x ∷ xs) ys = ground (arith, has_pair-append a b xs ys)

has_pair-entry_pairs :
    (steps : List ParsedStep) (n : ℕ) (ds : List ℕ) (a b : ℕ)
    → has_pair a b (entry_pairs steps n ds) ≡ (n == a && (is_in b ds && is_number b steps))
unfolding entry_pairs
has_pair-entry_pairs steps n [] a b = ground arith
has_pair-entry_pairs steps n (d ∷ ds) a b = ground (arith, has_pair-entry_pairs steps n ds a b)

has_pair-dep_pairs :
    (steps : List ParsedStep) (es : Entries) (a b : ℕ)
    → has_pair a b (dep_pairs steps es) ≡ (has_dep a b es && is_number b steps)
unfolding dep_pairs
has_pair-dep_pairs steps [] a b = refl
has_pair-dep_pairs steps ((n, ds) ∷ es) a b = ground (
  arith,
  has_pair-dep_pairs steps es a b,
  has_pair-append a b (entry_pairs steps n ds) (dep_pairs steps es),
  has_pair-entry_pairs steps n ds a b,
)

depends-is_number :
    (t : Texts) (steps : List ParsedStep) (a b : ℕ)
    → depends t a b steps ≡ true
    → is_number a steps ≡ true
depends-is_number t [] a b h = ground (arith, h)
depends-is_number t (s ∷ rest) a b h = ground (arith, h, depends-is_number t rest a b)

has_dep-build_step_deps :
    (t : Texts) (steps : List ParsedStep) (a b : ℕ)
    → has_dep a b (build_step_deps t steps) ≡ depends t a b steps
unfolding build_step_deps
has_dep-build_step_deps t [] a b = refl
has_dep-build_step_deps t (s ∷ rest) a b =
    ground (arith, has_dep-build_step_deps t rest a b, depends-is_number t rest a b)

-- Where the order of iteration over a map loses and adds no entry, the merging of the steps ends
-- with chunks, and if the last step of one number depends on a number that some step has, then
-- each chunk has a step of the one number exactly if it has one of the other.
pub merge_dependency_groups-together :
    (t : Texts) (iteration : Entries → Entries) (steps : List ParsedStep)
    → ((es : Entries) (a b : ℕ) → has_dep a b (iteration es) ≡ has_dep a b es)
    → (chunks : List (List ParsedStep)) × (merge_dependency_groups t iteration steps ≡ some chunks)
      × ((a b : ℕ)
          → depends t a b steps ≡ true
          → is_number b steps ≡ true
          → together a b chunks ≡ true)
unfolding merge_dependency_groups
merge_dependency_groups-together t iteration [] i = ([], refl, λ a b d n. refl)
merge_dependency_groups-together t iteration (s ∷ rest) i =
    let steps : List ParsedStep = s ∷ rest in
    let pairs : List (ℕ × ℕ) = dep_pairs steps (iteration (build_step_deps t steps)) in
    let known : (a b : ℕ) → has_pair a b pairs ≡ (depends t a b steps && is_number b steps) = λ a b.
      ground (
        arith,
        has_pair-dep_pairs steps (iteration (build_step_deps t steps)) a b,
        i (build_step_deps t steps) a b,
        has_dep-build_step_deps t steps a b,
      ) in
    let (parents, u, (j, same)) =
      union_all-Joined (λ x. x) (λ x. 0) (suc (length pairs)) 0 pairs (own_parents steps)
        (own_parents-IsForest steps) (λ y. omega arith) (omega arith)
        (λ a b m. ground (arith, m, known a b, depends-is_number t steps a b)) in
    let (groups, g, w) =
      group_by_root-IsBucketed j.rep' j.depth' (suc (length pairs)) [] steps parents [] j.forest
        (λ y. omega (arith, j.shallow y)) (λ n m. ground (arith, m, j.keys n))
        (record { sorted = refl; covered = λ n m. ground (arith, m); fitting = λ n. refl }) in
    (
      sorted_groups groups,
      ground (arith, u, g),
      λ a b d n.
          all-sort_by_key (λ chunk. agrees (is_number a chunk) (is_number b chunk)) first_number
            (map (λ x. sort_by_key (λ s. s.number) x.1) groups)
          ∙ fits-together j.rep' steps a b groups (same a b (ground (arith, known a b, d, n)))
              (ground (arith, n, depends-is_number t steps a b, d)) (w.fitting a) (w.fitting b),
    )
