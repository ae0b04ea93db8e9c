-- ===== src/Decompose/Packing.antt =====
-- How chunks are packed into pieces (src/decompose/algorithm.rs).
use hymenium.Prelude.{
  ℕ, ◌+◌, ◌^◌, ◌≤◌, ◌<◌, true, false, not, ◌&&◌, List, [], ◌∷◌, ◌++◌, ◌≡◌, refl, sym, ◌∙◌, arith,
  ◌⊎◌, inl, inr, length-append, ltb, is_empty, length, Bool-cases,
}
use mathlib.Core.Path.{subst}
use mathlib.Core.List.{append_assoc}
use hymenium.Handoff.{ParsedStep}
use hymenium.Decompose.Groups.{
  Texts, DecompositionConfig, pack_loop, pack_chunks, has_effort, chunk_effort_secs, concat, wrap,
}

concat-pack_loop :
    (cost : List ParsedStep → ℕ) (limit : ℕ) (chunks : List (List ParsedStep))
    (current : List ParsedStep) (spent : ℕ)
    → concat (pack_loop cost limit chunks current spent) ≡ current ++ concat chunks
unfolding pack_loop
concat-pack_loop cost limit [] [] spent = refl
concat-pack_loop cost limit [] (s ∷ current) spent = refl
concat-pack_loop cost limit (chunk ∷ rest) current spent =
    elim (Bool-cases (not (is_empty current) && ltb limit (wrap (spent + cost chunk)))) [
      | inl t ↦ ground (arith, t, concat-pack_loop cost limit rest chunk (wrap (cost chunk)))
      | inr f ↦ ground (
        arith,
        f,
        concat-pack_loop cost limit rest (current ++ chunk) (wrap (spent + cost chunk)),
        append_assoc current chunk (concat rest),
      )
    ]

-- Packing neither drops nor reorders a step: the pieces in order are the chunks in order.
pub concat-pack_chunks :
    (t : Texts) (config : DecompositionConfig) (chunks : List (List ParsedStep))
    → concat (pack_chunks t config chunks) ≡ concat chunks
unfolding pack_chunks
concat-pack_chunks t config chunks = elim (Bool-cases (has_effort chunks)) [
  | inl e ↦ ground (
    arith,
    e,
    concat-pack_loop (chunk_effort_secs t 0) config.max_effort_per_piece_secs chunks [] 0,
  )
  | inr e ↦ ground (arith, e, concat-pack_loop length config.max_steps_per_piece chunks [] 0)
]

abbrev IsOneOf : List ParsedStep → List (List ParsedStep) → Type 0
IsOneOf xs [] = ⊥
IsOneOf xs (c ∷ chunks) = (c ≡ xs) ⊎ IsOneOf xs chunks

-- Each of the pieces has at most so many steps, or is one of the chunks.
abbrev pub AreCut : ℕ → List (List ParsedStep) → List (List ParsedStep) → Type 0
AreCut limit chunks [] = Unit {0}
AreCut limit chunks (piece ∷ rest) =
    ((length piece ≤ limit) ⊎ IsOneOf piece chunks) × AreCut limit chunks rest

wrap-small : (n : ℕ) → n < 2 ^ 64 → wrap n ≡ n
wrap-small n h = omega arith

pack_loop-AreCut :
    (limit : ℕ) (known chunks : List (List ParsedStep)) (current : List ParsedStep) (spent : ℕ)
    → ((chunk : List ParsedStep) → IsOneOf chunk chunks → IsOneOf chunk known)
    → spent ≡ length current
    → length current + length (concat chunks) < 2 ^ 64
    → (is_empty current ≡ true) ⊎ ((length current ≤ limit) ⊎ IsOneOf current known)
    → AreCut limit known (pack_loop length limit chunks current spent)
unfolding pack_loop
pack_loop-AreCut limit known [] [] spent k s b c = tt
pack_loop-AreCut limit known [] (x ∷ current) spent k s b (inl c) = ground (arith, c)
pack_loop-AreCut limit known [] (x ∷ current) spent k s b (inr c) = (c, tt)
pack_loop-AreCut limit known (chunk ∷ rest) [] spent k s b c =
    pack_loop-AreCut limit known rest chunk (wrap (spent + length chunk)) (λ d m. k d (inr m))
      (wrap-small (spent + length chunk) (omega (arith, s, b, length-append chunk (concat rest)))
        ∙ omega (arith, s))
      (omega (arith, b, length-append chunk (concat rest))) (inr (inr (k chunk (inl refl))))
pack_loop-AreCut limit known (chunk ∷ rest) (x ∷ current) spent k s b (inl c) = ground (arith, c)
pack_loop-AreCut limit known (chunk ∷ rest) (x ∷ current) spent k s b (inr c) =
    let so_far : List ParsedStep = x ∷ current in
    let size = length-append so_far chunk in
    let more = length-append chunk (concat rest) in
    let small = wrap-small (spent + length chunk) (omega (arith, s, b, more)) in
    let whole : List (List ParsedStep) = pack_loop length limit (chunk ∷ rest) so_far spent in
    elim (Bool-cases (ltb limit (wrap (spent + length chunk)))) [
      | inl t ↦
          let cut : whole ≡ so_far ∷ pack_loop length limit rest chunk (wrap (length chunk)) =
            ground (arith, t) in
          subst (AreCut limit known) (sym cut) (
            c,
            pack_loop-AreCut limit known rest chunk (wrap (length chunk)) (λ d m. k d (inr m))
                (wrap-small (length chunk) (omega (arith, b, more))) (omega (arith, b, more))
                (inr (inr (k chunk (inl refl)))),
          )
      | inr f ↦
          let on : whole
              ≡ pack_loop length limit rest (so_far ++ chunk) (wrap (spent + length chunk)) =
            ground (arith, f) in
          subst (AreCut limit known) (sym on) (
            pack_loop-AreCut limit known rest (so_far ++ chunk) (wrap (spent + length chunk))
              (λ d m. k d (inr m)) (small ∙ omega (arith, s, size)) (omega (arith, b, more, size))
              (inr (inl (ground (arith, f, small, s, size)))))
    ]

-- Where no step has an effort, and there are fewer steps than a machine word counts, each piece of
-- the packing has at most the configured number of steps, or is a single chunk.
pub pack_chunks-AreCut :
    (t : Texts) (config : DecompositionConfig) (chunks : List (List ParsedStep))
    → has_effort chunks ≡ false
    → length (concat chunks) < 2 ^ 64
    → AreCut config.max_steps_per_piece chunks (pack_chunks t config chunks)
unfolding pack_chunks
pack_chunks-AreCut t config chunks n b =
    let counted : pack_chunks t config chunks
        ≡ pack_loop length config.max_steps_per_piece chunks [] 0 =
      ground (arith, n) in
    subst (AreCut config.max_steps_per_piece chunks) (sym counted) (
      pack_loop-AreCut config.max_steps_per_piece chunks chunks [] 0 (λ c m. m) refl
        (omega (arith, b)) (inl refl))
