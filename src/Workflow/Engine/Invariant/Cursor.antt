-- ===== src/Workflow/Engine/Invariant/Cursor.antt =====
-- A list split at a cursor: one predicate before it, one at it, one behind it.
use mathlib.Core.Path.{subst}
use mathlib.Core.Option.{some-injective}
use hymenium.Prelude.{
  ℕ, zero, suc, ◌<◌, ◌≡◌, refl, sym, some, List, [], ◌∷◌, length, get_elem?, modify, arith,
}

module _ {A : Type 0} where
  abbrev pub All : (A → Type 0) → List A → Type 0
  All P [] = Unit {0}
  All P (x ∷ xs) = P x × All P xs

  abbrev pub AtCursor : (A → Type 0) → (A → Type 0) → (A → Type 0) → ℕ → List A → Type 0
  AtCursor P H F i [] = ⊥
  AtCursor P H F zero (x ∷ xs) = H x × All F xs
  AtCursor P H F (suc i) (x ∷ xs) = P x × AtCursor P H F i xs

module _ {A : Type 0} (P H F : A → Type 0) where
  pub AtCursor-get :
      (i : ℕ) (xs : List A) → AtCursor P H F i xs → (x : A) × (get_elem? xs i ≡ some x) × H x
  AtCursor-get i [] c = absurd c
  AtCursor-get zero (x ∷ xs) c = (x, refl, c.0)
  AtCursor-get (suc i) (x ∷ xs) c = AtCursor-get i xs c.1

  -- A write at the cursor.
  pub AtCursor-modify :
      (H' : A → Type 0) (f : A → A) (i : ℕ) (xs : List A)
      → AtCursor P H F i xs
      → (x : A) → get_elem? xs i ≡ some x
      → H' (f x)
      → AtCursor P H' F i (modify xs i f)
  AtCursor-modify H' f i [] c x e h = absurd c
  AtCursor-modify H' f zero (y ∷ ys) c x e h =
      (subst (λ z. H' (f z)) (sym (some-injective y x e)) h, c.1)
  AtCursor-modify H' f (suc i) (y ∷ ys) c x e h = (c.0, AtCursor-modify H' f i ys c.1 x e h)

  -- The cursor moves on.
  pub AtCursor-suc :
      (H' : A → Type 0) (i : ℕ) (xs : List A)
      → AtCursor P H F i xs
      → ((x : A) → get_elem? xs i ≡ some x → P x)
      → ((x : A) → F x → H' x)
      → suc i < length xs
      → AtCursor P H' F (suc i) xs
  AtCursor-suc H' i [] c past here lt = absurd c
  AtCursor-suc H' zero (x ∷ []) c past here lt = absurd (omega arith)
  AtCursor-suc H' zero (x ∷ y ∷ ys) c past here lt = (past x refl, (here y c.1.0, c.1.1))
  AtCursor-suc H' (suc i) (x ∷ xs) c past here lt =
      (c.0, AtCursor-suc H' i xs c.1 past here (omega arith))

  -- Another predicate at the cursor.
  pub AtCursor-change :
      (H' : A → Type 0) (i : ℕ) (xs : List A)
      → AtCursor P H F i xs
      → (x : A) → get_elem? xs i ≡ some x
      → H' x
      → AtCursor P H' F i xs
  AtCursor-change H' i [] c x e h = absurd c
  AtCursor-change H' zero (y ∷ ys) c x e h = (subst H' (sym (some-injective y x e)) h, c.1)
  AtCursor-change H' (suc i) (y ∷ ys) c x e h = (c.0, AtCursor-change H' i ys c.1 x e h)
