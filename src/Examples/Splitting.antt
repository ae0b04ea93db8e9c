-- ===== src/Examples/Splitting.antt =====
-- Splitting a handoff of four steps.
use hymenium.Prelude.{
  ℕ, ◌≡◌, refl, arith, String, Bool, true, none, some, List, [], ◌∷◌, str_eq, if◌then◌else◌,
}
use hymenium.Handoff.{ParsedStep, ParsedHandoff}
use hymenium.Decompose.{Decomposing, DecompositionResult, decomposed, decompose}
use hymenium.Decompose.Groups.{
  Texts, seconds, default_config, pack_chunks, parse_dep_step_number, sort_by_key,
}
use hymenium.Decompose.Packing.{AreCut, pack_chunks-AreCut}
use hymenium.Decompose.Steps.{steps_of, decompose-count}
use hymenium.Decompose.Counting.{count}
use hymenium.Decompose.Merge.{merge_dependency_groups, is_number}
use hymenium.Decompose.Merge.Together.{depends, together, merge_dependency_groups-together}

abbrev plain : Texts
plain = record {
  trim = λ s. s;
  to_lowercase = λ s. s;
  parse_u32 = λ s. if str_eq s "1" then some 1 else if str_eq s "2" then some 2 else none;
  parse_effort_secs = λ s. seconds 60;
}

abbrev step : ℕ → List String → ParsedStep
step n deps = record {
  number = n;
  title = "";
  project = none;
  effort = none;
  depends_on = deps;
  description = "";
  files_to_modify = [];
  verification = none;
  checklist = [];
}

-- The fourth step depends on the first, and the third on one that is not there.
abbrev four : List ParsedStep
four = step 1 [] ∷ step 2 [] ∷ step 3 ("step9" ∷ []) ∷ step 4 ("step1" ∷ []) ∷ []

abbrev long_paper : ParsedHandoff
long_paper = record {
  title = "Long";
  metadata = none;
  problem = "";
  state = [];
  intent = "";
  steps = four;
  completion_protocol = none;
  context = none;
}

abbrev by_default : Decomposing
by_default = record {
  texts = plain;
  config = default_config;
  iteration = λ es. es;
  parent_slug = "long";
}

abbrev chunks : List (List ParsedStep)
chunks =
    (step 1 [] ∷ step 4 ("step1" ∷ []) ∷ []) ∷ (step 2 [] ∷ []) ∷ (step 3 ("step9" ∷ []) ∷ []) ∷ []

merged : merge_dependency_groups plain (λ es. es) four ≡ some chunks
unfolding merge_dependency_groups parse_dep_step_number sort_by_key
merged = refl

merge_dependency_groups-together_example :
    (cs : List (List ParsedStep)) × (merge_dependency_groups plain (λ es. es) four ≡ some cs)
    × ((a b : ℕ) → depends plain a b four ≡ true → is_number b four ≡ true → together a b cs ≡ true)
merge_dependency_groups-together_example =
    merge_dependency_groups-together plain (λ es. es) four (λ es a b. refl)

pack_chunks-AreCut_example : AreCut 3 chunks (pack_chunks plain default_config chunks)
unfolding default_config
pack_chunks-AreCut_example = pack_chunks-AreCut plain default_config chunks refl (omega arith)

decompose-count_example :
    (r : DecompositionResult) × (decompose by_default long_paper ≡ decomposed r)
    × ((p : ParsedStep → Bool) → count p (steps_of r.pieces) ≡ count p four)
decompose-count_example = decompose-count by_default long_paper (λ es a b. refl) refl
