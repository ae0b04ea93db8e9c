-- ===== src/Decompose/Steps.antt =====
-- A decomposition keeps the handoff's steps (src/decompose/mod.rs).
use hymenium.Prelude.{
  ℕ, suc, ◌+◌, String, Bool, false, some, List, [], ◌∷◌, ◌++◌, ◌≡◌, refl, ap, ◌∙◌, arith, inl, inr,
  map, is_empty, length, Option-cases, if◌then◌else◌,
}
use hymenium.Handoff.{ParsedStep, ParsedHandoff}
use hymenium.Decompose.Groups.{
  Texts, group_by_project, pack_chunks, pack_warnings, effort_warnings, concat,
}
use hymenium.Decompose.Packing.{concat-pack_chunks}
use hymenium.Decompose.Merge.Together.{Entries, has_dep, merge_dependency_groups-together}
use hymenium.Decompose.Counting.{
  count, total, count-append, total-group_by_project, count-chunks_of,
}
use hymenium.Decompose.{
  HandoffPiece, Decomposing, DecompositionResult, decomposed, piece_of, pieces_of, chunks_of,
  split_groups, link_pieces, result_of, decompose,
}

-- The steps of the pieces, in the order of the pieces.
abbrev pub steps_of : List HandoffPiece → List ParsedStep
steps_of pieces = concat (map (λ q. q.steps) pieces)

steps_of-pieces_of :
    (t : Texts) (slug : String) (idx : ℕ) (packed : List (List ParsedStep))
    → steps_of (pieces_of t slug idx packed) ≡ concat packed
unfolding pieces_of piece_of
steps_of-pieces_of t slug idx [] = refl
steps_of-pieces_of t slug idx (sub ∷ rest) =
    ap (λ xs. sub ++ xs) (steps_of-pieces_of t slug (suc idx) rest)

count-steps_of-append :
    (p : ParsedStep → Bool) (xs ys : List HandoffPiece)
    → count p (steps_of (xs ++ ys)) ≡ count p (steps_of xs) + count p (steps_of ys)
count-steps_of-append p [] ys = omega arith
count-steps_of-append p (x ∷ xs) ys = omega (
  arith,
  count-steps_of-append p xs ys,
  count-append p x.steps (steps_of (xs ++ ys)),
  count-append p x.steps (steps_of xs),
)

count-split_groups :
    (d : Decomposing) (groups : List (String × List ParsedStep)) (pieces out : List HandoffPiece)
    (warnings later : List String) (p : ParsedStep → Bool)
    → split_groups d groups pieces warnings ≡ some (out, later)
    → count p (steps_of out) ≡ count p (steps_of pieces) + total p groups
unfolding split_groups
count-split_groups d [] pieces out warnings later p e =
    let same : pieces ≡ out = cc in omega (arith, ap (λ xs. count p (steps_of xs)) same)
count-split_groups d ((k, steps) ∷ rest) pieces out warnings later p e =
    elim (Option-cases (chunks_of d steps)) [
      | inl n ↦ ground (arith, n, e)
      | inr (chunks, c) ↦
          let packed : List (List ParsedStep) = pack_chunks d.texts d.config chunks in
          let more : List HandoffPiece = pieces_of d.texts d.parent_slug (length pieces) packed in
          let go =
            count-split_groups d rest (pieces ++ more) out
              (warnings
                ++ (pack_warnings d.texts chunks ++ concat (map (effort_warnings d.texts) packed)))
              later p (ground (arith, c, e)) in
          let here : count p (steps_of more) ≡ count p steps =
            ap (count p) (
              steps_of-pieces_of d.texts d.parent_slug (length pieces) packed
              ∙ concat-pack_chunks d.texts d.config chunks)
            ∙ count-chunks_of d steps chunks p c in
          omega (arith, go, here, count-steps_of-append p pieces more)
    ]

steps_of-link_pieces :
    (t : Texts) (steps : List ParsedStep) (pieces : List HandoffPiece) (idx : ℕ)
    (rest : List HandoffPiece)
    → steps_of (link_pieces t steps pieces idx rest) ≡ steps_of rest
unfolding link_pieces
steps_of-link_pieces t steps pieces idx [] = refl
steps_of-link_pieces t steps pieces idx (q ∷ rest) =
    ap (λ xs. q.steps ++ xs) (steps_of-link_pieces t steps pieces (suc idx) rest)

split_groups-some :
    (d : Decomposing) (groups : List (String × List ParsedStep)) (pieces : List HandoffPiece)
    (warnings : List String)
    → ((es : Entries) (a b : ℕ) → has_dep a b (d.iteration es) ≡ has_dep a b es)
    → (r : List HandoffPiece × List String) × (split_groups d groups pieces warnings ≡ some r)
unfolding split_groups chunks_of
split_groups-some d [] pieces warnings i = ((pieces, warnings), refl)
split_groups-some d ((k, steps) ∷ rest) pieces warnings i =
    let (merged, m, _) = merge_dependency_groups-together d.texts d.iteration steps i in
    let chunks : List (List ParsedStep) =
      if d.config.respect_dependencies then merged else map (λ s. s ∷ []) steps in
    let found : chunks_of d steps ≡ some chunks = ground (arith, m) in
    let packed : List (List ParsedStep) = pack_chunks d.texts d.config chunks in
    let (r, e) =
      split_groups-some d rest (pieces ++ pieces_of d.texts d.parent_slug (length pieces) packed)
        (warnings
          ++ (pack_warnings d.texts chunks ++ concat (map (effort_warnings d.texts) packed)))
        i in
    (r, ground (arith, found, e))

-- Where the order of iteration over a map loses and adds no entry, a handoff with a step is
-- decomposed into pieces that keep each step as often as the handoff has it: whatever test is put
-- to the steps, as many pass among the steps of all pieces as among those of the handoff.
pub decompose-count :
    (d : Decomposing) (handoff : ParsedHandoff)
    → ((es : Entries) (a b : ℕ) → has_dep a b (d.iteration es) ≡ has_dep a b es)
    → is_empty handoff.steps ≡ false
    → (r : DecompositionResult) × (decompose d handoff ≡ decomposed r)
      × ((p : ParsedStep → Bool) → count p (steps_of r.pieces) ≡ count p handoff.steps)
unfolding decompose
decompose-count d handoff i n =
    let groups : List (String × List ParsedStep) =
      group_by_project handoff.steps d.config.respect_project_boundaries in
    let ((pieces, warnings), e) = split_groups-some d groups [] [] i in
    (
      result_of d handoff pieces warnings,
      ground (arith, n, e),
      λ p.
          ap (count p) (steps_of-link_pieces d.texts handoff.steps pieces 0 pieces)
          ∙ (count-split_groups d groups [] pieces [] warnings p e
              ∙ omega (
                arith,
                total-group_by_project p handoff.steps d.config.respect_project_boundaries,
              )),
    )
