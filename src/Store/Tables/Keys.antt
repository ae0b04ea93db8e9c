-- ===== src/Store/Tables/Keys.antt =====
-- The rows of `workflows` under an insert and an update (src/store.rs).
use hymenium.Prelude.{
  ◌≡◌, refl, String, Bool, false, ◌||◌, none, some, List, [], ◌∷◌, ◌++◌, any, str_eq, is_some,
  eq_iff, Bool-cases, Option-cases, inl, inr, arith, if◌then◌else◌,
}
use hymenium.Store.Tables.{WorkflowRow, find_row, collides, clashes, update_rows}

-- `workflow_id` is the key.
abbrev pub UniqueIds : List WorkflowRow → Type 0
UniqueIds [] = Unit {0}
UniqueIds (r ∷ rest) = (find_row r.workflow_id rest ≡ none) × UniqueIds rest

-- No two live workflows have the same hash.
abbrev pub NoTwins : List WorkflowRow → Type 0
NoTwins [] = Unit {0}
NoTwins (r ∷ rest) = (any (collides r) rest ≡ false) × NoTwins rest

collides_sym : (a b : WorkflowRow) → collides a b ≡ collides b a
unfolding collides
collides_sym a b = elim (Option-cases a.content_hash) [
  | inl e ↦ ground arith
  | inr (x, e) ↦ elim (Option-cases b.content_hash) [
    | inl e' ↦ ground arith
    | inr (y, e') ↦ ground (arith, eq_iff x y, eq_iff y x)
  ]
]

pub clashes-absent :
    (r : WorkflowRow) (ws : List WorkflowRow)
    → find_row r.workflow_id ws ≡ none
    → any (collides r) ws ≡ clashes r ws
clashes-absent r [] a = refl
clashes-absent r (x ∷ ws) a = ground (arith, clashes-absent r ws)

pub find_row-append :
    (id : String) (r : WorkflowRow) (ws : List WorkflowRow)
    → find_row id (ws ++ r ∷ []) ≡ (
        if is_some (find_row id ws)
        then find_row id ws
        else if str_eq r.workflow_id id
        then some r
        else none)
find_row-append id r [] = refl
find_row-append id r (x ∷ ws) = ground (arith, find_row-append id r ws)

pub find_row-id :
    (id : String) (ws : List WorkflowRow) (r : WorkflowRow)
    → find_row id ws ≡ some r
    → r.workflow_id ≡ id
find_row-id id [] r e = cc
find_row-id id (x ∷ ws) r e = ground (arith, find_row-id id ws r, eq_iff x.workflow_id id)

pub append-UniqueIds :
    (r : WorkflowRow) (ws : List WorkflowRow)
    → UniqueIds ws
    → find_row r.workflow_id ws ≡ none
    → UniqueIds (ws ++ r ∷ [])
append-UniqueIds r [] u a = (refl, tt)
append-UniqueIds r (x ∷ ws) u a = ground (
  arith,
  append-UniqueIds r ws u.1,
  find_row-append x.workflow_id r ws,
  eq_iff r.workflow_id x.workflow_id,
  eq_iff x.workflow_id r.workflow_id,
)

any-append :
    (p : WorkflowRow → Bool) (ws : List WorkflowRow) (r : WorkflowRow)
    → any p (ws ++ r ∷ []) ≡ (any p ws || p r)
any-append p [] r = ground arith
any-append p (x ∷ ws) r = ground (arith, any-append p ws r)

pub append-NoTwins :
    (r : WorkflowRow) (ws : List WorkflowRow)
    → NoTwins ws
    → any (collides r) ws ≡ false
    → NoTwins (ws ++ r ∷ [])
append-NoTwins r [] n a = (refl, tt)
append-NoTwins r (x ∷ ws) n a =
    ground (arith, append-NoTwins r ws n.1, any-append (collides x) ws r, collides_sym r x)

module _ (id : String) (f : WorkflowRow → WorkflowRow)
    (named : (r : WorkflowRow) → (f r).workflow_id ≡ r.workflow_id) where
  update_rows-absent : (ws : List WorkflowRow) → find_row id ws ≡ none → update_rows id f ws ≡ ws
  update_rows-absent [] a = refl
  update_rows-absent (x ∷ ws) a = ground (arith, update_rows-absent ws)

  pub find_row-update_rows :
      (k : String) (ws : List WorkflowRow)
      → find_row k (update_rows id f ws)
        ≡ elim (find_row k ws) [ none ↦ none | some r ↦ some (if str_eq k id then f r else r) ]
  find_row-update_rows k [] = refl
  find_row-update_rows k (x ∷ ws) = ground (
    arith,
    find_row-update_rows k ws,
    named x,
    eq_iff x.workflow_id id,
    eq_iff x.workflow_id k,
    eq_iff k id,
  )

  pub update_rows-UniqueIds :
      (ws : List WorkflowRow) → UniqueIds ws → UniqueIds (update_rows id f ws)
  update_rows-UniqueIds [] u = tt
  update_rows-UniqueIds (x ∷ ws) u =
      ground (arith, update_rows-UniqueIds ws u.1, find_row-update_rows x.workflow_id ws, named x)

  any-update_rows :
      (p : WorkflowRow → Bool) (ws : List WorkflowRow) (r : WorkflowRow)
      → UniqueIds ws
      → find_row id ws ≡ some r
      → any p ws ≡ false
      → p (f r) ≡ false
      → any p (update_rows id f ws) ≡ false
  any-update_rows p [] r u e a b = refl
  any-update_rows p (x ∷ ws) r u e a b = elim (Bool-cases (str_eq x.workflow_id id)) [
    | inl t ↦ ground (arith, update_rows-absent ws, eq_iff x.workflow_id id)
    | inr t ↦ ground (arith, any-update_rows p ws r u.1)
  ]

  pub update_rows-NoTwins :
      (ws : List WorkflowRow) (r : WorkflowRow)
      → UniqueIds ws
      → NoTwins ws
      → find_row id ws ≡ some r
      → clashes (f r) ws ≡ false
      → NoTwins (update_rows id f ws)
  update_rows-NoTwins [] r u n e c = tt
  update_rows-NoTwins (x ∷ ws) r u n e c = elim (Bool-cases (str_eq x.workflow_id id)) [
    | inl t ↦
        ground
          (arith, update_rows-absent ws, clashes-absent (f x) ws, named x, eq_iff x.workflow_id id)
    | inr t ↦ ground (
      arith,
      find_row-id id ws r,
      named r,
      collides_sym x (f r),
      eq_iff x.workflow_id (f r).workflow_id,
      eq_iff x.workflow_id id,
      any-update_rows (collides x) ws r u.1,
      update_rows-NoTwins ws r u.1 n.1,
    )
  ]
