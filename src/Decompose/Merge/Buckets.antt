-- ===== src/Decompose/Merge/Buckets.antt =====
-- The groups of a `BTreeMap` by the roots of the union-find (src/decompose/algorithm.rs).
use Prim.Native.Nat.{compare}
use mathlib.Core.Path.{subst}
use mathlib.Core.List.{append_assoc, append-nil}
use hymenium.Prelude.{
  ℕ, suc, ◌≤◌, Bool, true, false, not, ◌&&◌, ◌||◌, some, List, [], ◌∷◌, ◌++◌, ◌≡◌, refl, sym, ◌∙◌,
  arith, ◌==◌, ltb, any, all, is_some, if◌then◌else◌,
}
use hymenium.Handoff.{ParsedStep}
use hymenium.Decompose.Groups.{push_group}
use hymenium.Decompose.Merge.{Parents, is_number, group_by_root}
use hymenium.Decompose.Merge.Forest.{IsForest, find-IsForest}

abbrev pub Buckets : Type 0
Buckets = List (ℕ × List ParsedStep)

abbrev pub holds : ℕ → Buckets → Bool
holds k = any (λ g. g.0 == k)

abbrev pub above : ℕ → Buckets → Bool
above k = all (λ g. ltb k g.0)

abbrev pub ascending : Buckets → Bool
ascending [] = true
ascending (g ∷ gs) = above g.0 gs && ascending gs

abbrev pub agrees : Bool → Bool → Bool
agrees a b = if a then b else not b

-- The group has a step of this number just when it should.
abbrev pub fits : (ℕ → ℕ) → List ParsedStep → ℕ → ℕ × List ParsedStep → Bool
fits rep placed n g = agrees (is_number n g.1) (rep n == g.0 && is_number n placed)

pub is_number-append :
    (n : ℕ) (xs ys : List ParsedStep) → is_number n (xs ++ ys) ≡ (is_number n xs || is_number n ys)
is_number-append n [] ys = refl
is_number-append n (x ∷ xs) ys = ground (arith, is_number-append n xs ys)

holds-push_group :
    (j k : ℕ) (s : ParsedStep) (gs : Buckets)
    → holds j (push_group compare k s gs) ≡ (holds j gs || k == j)
unfolding push_group
holds-push_group j k s [] = ground arith
holds-push_group j k s ((i, xs) ∷ gs) = ground (arith, holds-push_group j k s gs)

above-push_group :
    (m k : ℕ) (s : ParsedStep) (gs : Buckets)
    → above m (push_group compare k s gs) ≡ (above m gs && ltb m k)
unfolding push_group
above-push_group m k s [] = ground arith
above-push_group m k s ((i, xs) ∷ gs) = ground (arith, above-push_group m k s gs)

above-less : (m k : ℕ) (gs : Buckets) → ltb m k ≡ true → above k gs ≡ true → above m gs ≡ true
above-less m k [] h a = refl
above-less m k (g ∷ gs) h a = ground (arith, h, a, above-less m k gs)

ascending-push_group :
    (k : ℕ) (s : ParsedStep) (gs : Buckets)
    → ascending gs ≡ true
    → ascending (push_group compare k s gs) ≡ true
unfolding push_group
ascending-push_group k s [] a = refl
ascending-push_group k s ((i, xs) ∷ gs) a =
    ground (arith, a, ascending-push_group k s gs, above-push_group i k s gs, above-less k i gs)

above-holds : (k : ℕ) (gs : Buckets) → above k gs ≡ true → holds k gs ≡ false
above-holds k [] a = refl
above-holds k (g ∷ gs) a = ground (arith, a, above-holds k gs)

-- A step that is put under another key changes nothing in a group.
fits-others :
    (rep : ℕ → ℕ) (placed : List ParsedStep) (s : ParsedStep) (n : ℕ) (gs : Buckets)
    → holds (rep s.number) gs ≡ false
    → all (fits rep placed n) gs ≡ true
    → all (fits rep (placed ++ s ∷ []) n) gs ≡ true
fits-others rep placed s n [] h f = refl
fits-others rep placed s n (g ∷ gs) h f =
    ground (arith, h, f, fits-others rep placed s n gs, is_number-append n placed (s ∷ []))

fits-push_group :
    (rep : ℕ → ℕ) (placed : List ParsedStep) (s : ParsedStep) (n : ℕ) (gs : Buckets)
    → ascending gs ≡ true
    → (holds (rep s.number) gs ≡ false → (rep n == rep s.number && is_number n placed) ≡ false)
    → all (fits rep placed n) gs ≡ true
    → all (fits rep (placed ++ s ∷ []) n) (push_group compare (rep s.number) s gs) ≡ true
unfolding push_group
fits-push_group rep placed s n [] a h f = ground (arith, h, is_number-append n placed (s ∷ []))
fits-push_group rep placed s n ((i, xs) ∷ gs) a h f = ground (
  arith,
  a,
  h,
  f,
  is_number-append n placed (s ∷ []),
  is_number-append n xs (s ∷ []),
  above-holds i gs,
  above-holds (rep s.number) gs,
  above-less (rep s.number) i gs,
  fits-others rep placed s n gs,
  fits-push_group rep placed s n gs,
)

-- The groups of the steps placed so far.
pub record IsBucketed (rep : ℕ → ℕ) (placed : List ParsedStep) (gs : Buckets) : Type 0 where
  pub sorted : ascending gs ≡ true
  pub covered : (n : ℕ) → is_number n placed ≡ true → holds (rep n) gs ≡ true
  pub fitting : (n : ℕ) → all (fits rep placed n) gs ≡ true

push_group-IsBucketed :
    (rep : ℕ → ℕ) (placed : List ParsedStep) (s : ParsedStep) (gs : Buckets)
    → IsBucketed rep placed gs
    → IsBucketed rep (placed ++ s ∷ []) (push_group compare (rep s.number) s gs)
push_group-IsBucketed rep placed s gs w = record {
  sorted = ascending-push_group (rep s.number) s gs w.sorted;
  covered = λ n m. ground (
    arith,
    m,
    w.covered n,
    holds-push_group (rep n) (rep s.number) s gs,
    is_number-append n placed (s ∷ []),
  );
  fitting = λ n.
      fits-push_group rep placed s n gs w.sorted (λ h. ground (arith, h, w.covered n))
        (w.fitting n);
}

pub group_by_root-IsBucketed :
    (rep depth : ℕ → ℕ) (fuel : ℕ) (placed rest : List ParsedStep) (parents : Parents)
    (gs : Buckets)
    → IsForest rep depth parents
    → ((y : ℕ) → suc (depth y) ≤ fuel)
    → ((n : ℕ) → is_number n rest ≡ true → is_some (parents n) ≡ true)
    → IsBucketed rep placed gs
    → (out : Buckets) × (group_by_root fuel rest parents gs ≡ some out)
      × IsBucketed rep (placed ++ rest) out
unfolding group_by_root
group_by_root-IsBucketed rep depth fuel placed [] parents gs w f k b =
    (gs, refl, subst (λ xs. IsBucketed rep xs gs) (sym (append-nil placed)) b)
group_by_root-IsBucketed rep depth fuel placed (s ∷ rest) parents gs w f k b =
    let (later, r, v, keys) =
      find-IsForest rep depth fuel parents s.number w (k s.number (ground arith)) (f s.number) in
    let (out, q, c) =
      group_by_root-IsBucketed rep depth fuel (placed ++ s ∷ []) rest later
        (push_group compare (rep s.number) s gs) v f (λ n m. keys n ∙ k n (ground (arith, m)))
        (push_group-IsBucketed rep placed s gs b) in
    (
      out,
      ground (arith, r, q),
      subst (λ xs. IsBucketed rep xs out) (append_assoc placed (s ∷ []) rest) c,
    )
