-- ===== src/Decompose/Merge/Forest.antt =====
-- The parent map of the union-find as a forest (src/decompose/algorithm.rs).
use hymenium.Prelude.{
  ℕ, zero, suc, ◌+◌, ◌≤◌, Bool, true, false, some, List, [], ◌∷◌, ◌≡◌, refl, ◌∙◌, arith, inl, inr,
  ◌==◌, ◌&&◌, any, is_some, length, Option-cases, Bool-cases, if◌then◌else◌,
}
use hymenium.Decompose.Merge.{Parents, set_parent, find, union, union_all}

-- `rep` is the root of each number's tree, `depth` a bound of its distance from the root.
pub record IsForest (rep : ℕ → ℕ) (depth : ℕ → ℕ) (parents : Parents) : Type 0 where
  pub inside : (x p : ℕ) → parents x ≡ some p → is_some (parents p) ≡ true
  pub same : (x p : ℕ) → parents x ≡ some p → rep p ≡ rep x
  pub deeper : (x p : ℕ) → parents x ≡ some p → (p == x) ≡ false → suc (depth p) ≤ depth x
  pub rooted : (x : ℕ) → is_some (parents x) ≡ true → parents (rep x) ≡ some (rep x)
  pub root : (x : ℕ) → parents x ≡ some x → rep x ≡ x
  pub flat : (x : ℕ) → parents x ≡ some x → depth x ≡ 0

abbrev pub SameKeys : Parents → Parents → Type 0
SameKeys before after = (y : ℕ) → is_some (after y) ≡ is_some (before y)

compressed-IsForest :
    (rep depth : ℕ → ℕ) (parents : Parents) (x : ℕ)
    → IsForest rep depth parents
    → is_some (parents x) ≡ true
    → suc 0 ≤ depth x
    → IsForest rep depth (set_parent x (rep x) parents)
compressed-IsForest rep depth parents x w k d =
    let r : parents (rep x) ≡ some (rep x) = w.rooted x k in
    let rr : rep (rep x) ≡ rep x = w.root (rep x) r in
    let f : depth (rep x) ≡ 0 = w.flat (rep x) r in
    record {
      inside = λ y p e. ground (arith, e, w.inside y p, r, k);
      same = λ y p e. ground (arith, e, w.same y p, rr);
      deeper = λ y p e n. ground (arith, e, n, w.deeper y p, f, d);
      rooted = λ y s.
          let here : is_some (parents y) ≡ true = ground (arith, s, k) in
          let top : parents (rep y) ≡ some (rep y) = w.rooted y here in
          ground (arith, top, w.flat (rep y) top, d);
      root = λ y e. ground (arith, e, w.root y);
      flat = λ y e. ground (arith, e, w.flat y, f, d);
    }

pub find-IsForest :
    (rep depth : ℕ → ℕ) (fuel : ℕ) (parents : Parents) (x : ℕ)
    → IsForest rep depth parents
    → is_some (parents x) ≡ true
    → suc (depth x) ≤ fuel
    → (later : Parents) × (find fuel parents x ≡ some (rep x, later))
      × IsForest rep depth later
      × SameKeys parents later
unfolding find
find-IsForest rep depth zero parents x w k f = ground (arith, f)
find-IsForest rep depth (suc fuel) parents x w k f = elim (Option-cases (parents x)) [
  | inl n ↦ ground (arith, n, k)
  | inr (p, e) ↦ elim (Bool-cases (p == x)) [
    | inl t ↦ (parents, ground (arith, e, t, w.root x), w, λ y. refl)
    | inr n ↦
        let deep = w.deeper x p e n in
        let same = w.same x p e in
        let (later, r, v, keys) =
          find-IsForest rep depth fuel parents p w (w.inside x p e) (omega (arith, deep, f)) in
        (
          set_parent x (rep x) later,
          ground (arith, e, n, r, same),
          compressed-IsForest rep depth later x v (keys x ∙ k) (omega (arith, deep)),
          λ y. ground (arith, keys y, k),
        )
  ]
]

-- The roots after `ra` has been hung under `rb`.
abbrev hung : (ℕ → ℕ) → ℕ → ℕ → ℕ → ℕ
hung rep ra rb y = if rep y == ra then rb else rep y

abbrev sunk : (ℕ → ℕ) → (ℕ → ℕ) → ℕ → ℕ → ℕ
sunk rep depth ra y = if rep y == ra then suc (depth y) else depth y

hung-IsForest :
    (rep depth : ℕ → ℕ) (parents : Parents) (ra rb : ℕ)
    → IsForest rep depth parents
    → parents ra ≡ some ra
    → parents rb ≡ some rb
    → (ra == rb) ≡ false
    → IsForest (hung rep ra rb) (sunk rep depth ra) (set_parent ra rb parents)
hung-IsForest rep depth parents ra rb w a b n =
    let la = w.root ra a in
    let lb = w.root rb b in
    let fb = w.flat rb b in
    let fa = w.flat ra a in
    record {
      inside = λ y p e. ground (arith, e, w.inside y p, a, b);
      same = λ y p e. ground (arith, e, w.same y p, la, lb, n);
      deeper = λ y p e d. ground (arith, e, d, w.deeper y p, w.same y p, la, lb, fb, n);
      rooted = λ y s.
          let here : is_some (parents y) ≡ true = ground (arith, s, a) in
          elim (Bool-cases (rep y == ra)) [
            | inl t ↦ ground (arith, t, n, b)
            | inr m ↦ ground (arith, m, n, w.rooted y here)
          ];
      root = λ y e. ground (arith, e, w.root y, n, la);
      flat = λ y e. ground (arith, e, w.flat y, w.root y, n, la);
    }

abbrev pub has_pair : ℕ → ℕ → List (ℕ × ℕ) → Bool
has_pair a b = any (λ p. p.0 == a && p.1 == b)

-- A forest in which what had one root still has one.
pub record Joined (rep : ℕ → ℕ) (before : Parents) (bound : ℕ) (later : Parents) : Type 0 where
  pub rep' : ℕ → ℕ
  pub depth' : ℕ → ℕ
  pub forest : IsForest rep' depth' later
  pub shallow : (y : ℕ) → depth' y ≤ bound
  pub kept : (y z : ℕ) → rep y ≡ rep z → rep' y ≡ rep' z
  pub keys : SameKeys before later

union-Joined :
    (rep depth : ℕ → ℕ) (fuel bound : ℕ) (parents : Parents) (a b : ℕ)
    → IsForest rep depth parents
    → ((y : ℕ) → depth y ≤ bound)
    → suc bound ≤ fuel
    → is_some (parents a) ≡ true
    → is_some (parents b) ≡ true
    → (later : Parents) × (union fuel parents a b ≡ some later)
      × ((j : Joined rep parents (suc bound) later) × (j.rep' a ≡ j.rep' b))
unfolding union
union-Joined rep depth fuel bound parents a b w d f ka kb =
    let (one, ra, v, keys) = find-IsForest rep depth fuel parents a w ka (omega (arith, f, d a)) in
    let kb' : is_some (one b) ≡ true = keys b ∙ kb in
    let (two, rb, u, keys') = find-IsForest rep depth fuel one b v kb' (omega (arith, f, d b)) in
    elim (Bool-cases (rep a == rep b)) [
      | inl t ↦ (
        two,
        ground (arith, ra, rb, t),
        (
          record {
            rep' = rep;
            depth' = depth;
            forest = u;
            shallow = λ y. omega (arith, d y);
            kept = λ y z e. e;
            keys = λ y. keys' y ∙ keys y;
          },
          ground (arith, t),
        ),
      )
      | inr n ↦
          let ta = u.rooted a (keys' a ∙ keys a ∙ ka) in
          let tb = u.rooted b (keys' b ∙ kb') in
          (
            set_parent (rep a) (rep b) two,
            ground (arith, ra, rb, n),
            (
              record {
                rep' = hung rep (rep a) (rep b);
                depth' = sunk rep depth (rep a);
                forest = hung-IsForest rep depth two (rep a) (rep b) u ta tb n;
                shallow = λ y. ground (arith, d y);
                kept = λ y z e. ground (arith, e);
                keys = λ y. ground (arith, keys y, keys' y, ta);
              },
              ground arith,
            ),
          )
    ]

pub union_all-Joined :
    (rep depth : ℕ → ℕ) (fuel bound : ℕ) (pairs : List (ℕ × ℕ)) (parents : Parents)
    → IsForest rep depth parents
    → ((y : ℕ) → depth y ≤ bound)
    → suc (bound + length pairs) ≤ fuel
    → ((a b : ℕ)
        → has_pair a b pairs ≡ true
        → (is_some (parents a) ≡ true) × (is_some (parents b) ≡ true))
    → (later : Parents) × (union_all fuel pairs parents ≡ some later)
      × ((j : Joined rep parents (bound + length pairs) later) × ((a b : ℕ)
            → has_pair a b pairs ≡ true
            → j.rep' a ≡ j.rep' b))
unfolding union_all
union_all-Joined rep depth fuel bound [] parents w d f k = (
  parents,
  refl,
  (
    record {
      rep' = rep;
      depth' = depth;
      forest = w;
      shallow = λ y. omega (arith, d y);
      kept = λ y z e. e;
      keys = λ y. refl;
    },
    λ a b m. ground (arith, m),
  ),
)
union_all-Joined rep depth fuel bound ((a, b) ∷ rest) parents w d f k =
    let (ka, kb) = k a b (ground arith) in
    let (one, r, (j, same)) =
      union-Joined rep depth fuel bound parents a b w d (omega (arith, f)) ka kb in
    let (later, q, (i, all_same)) =
      union_all-Joined j.rep' j.depth' fuel (suc bound) rest one j.forest j.shallow
        (omega (arith, f)) (λ x y m. ground (arith, m, k x y, j.keys x, j.keys y)) in
    (
      later,
      ground (arith, r, q),
      (
        record {
          rep' = i.rep';
          depth' = i.depth';
          forest = i.forest;
          shallow = λ y. omega (arith, i.shallow y);
          kept = λ y z e. i.kept y z (j.kept y z e);
          keys = λ y. i.keys y ∙ j.keys y;
        },
        λ x y m. ground (arith, m, all_same x y, i.kept a b same),
      ),
    )
