-- ===== src/Decompose.antt =====
-- Splitting a handoff into pieces (src/decompose/).
pub mod Groups
pub mod Merge
pub mod Packing
pub mod Counting
pub mod Steps
use hymenium.Prelude.{
  ℕ, zero, suc, ◌+◌, String, Bool, true, false, not, ◌&&◌, Option, none, some, List, [], ◌∷◌, ◌++◌,
  map, any, is_empty, ltb, ◌==◌, length, format, decimal, if◌then◌else◌,
}
use hymenium.Handoff.{ParsedHandoff, ParsedStep}
use hymenium.Workflow.Template.{AgentTier, opus, sonnet, haiku}
use hymenium.Decompose.Groups.{
  DecompositionConfig, Texts, group_by_project, parse_dep_step_number, effort_warnings,
  total_effort_secs, pack_chunks, pack_warnings, piece_title, concat,
}
use hymenium.Decompose.Merge.{is_number, merge_dependency_groups}

pub record HandoffPiece : Type 0 where
  pub suggested_slug : String
  pub title : String
  pub steps : List ParsedStep
  pub estimated_effort_secs : Option ℕ
  pub suggested_tier : AgentTier
  pub depends_on : List ℕ

pub record DecompositionResult : Type 0 where
  pub original_title : String
  pub pieces : List HandoffPiece
  pub dependency_graph : List (ℕ × ℕ)
  pub warnings : List String

-- `stuck` is the model's own: the union-find has run out of fuel.
pub data Decomposition : Type 0 where
  no_steps stuck : Decomposition
  decomposed : DecompositionResult → Decomposition

-- The tier for an effort: over six hours, from two hours on, and below.
unfoldable pub tier_from_effort_secs : ℕ → AgentTier
tier_from_effort_secs secs =
    if ltb 21600 secs then opus else if ltb secs 7200 then haiku else sonnet

unfoldable pub tier_from_step_count : ℕ → AgentTier
tier_from_step_count count = if ltb count 2 then haiku else if ltb count 4 then sonnet else opus

abbrev tier_of : Option ℕ → ℕ → AgentTier
tier_of (some secs) count = tier_from_effort_secs secs
tier_of none count = tier_from_step_count count

unfoldable pub piece_of : Texts → String → ℕ → List ParsedStep → HandoffPiece
unfolding total_effort_secs piece_title tier_from_effort_secs tier_from_step_count
piece_of t parent_slug idx sub = record {
  suggested_slug = format (parent_slug ∷ "-" ∷ decimal (idx + 1) ∷ []);
  title = piece_title sub;
  steps = sub;
  estimated_effort_secs = total_effort_secs t sub;
  suggested_tier = tier_of (total_effort_secs t sub) (length sub);
  depends_on = [];
}

-- The pieces of one packing, numbered from `idx`.
unfoldable pub pieces_of : Texts → String → ℕ → List (List ParsedStep) → List HandoffPiece
unfolding piece_of
pieces_of t parent_slug idx [] = []
pieces_of t parent_slug idx (sub ∷ rest) =
    piece_of t parent_slug idx sub ∷ pieces_of t parent_slug (suc idx) rest

-- What is fixed for one decomposition. `iteration` is the order of a map's entries.
pub record Decomposing : Type 0 where
  pub texts : Texts
  pub config : DecompositionConfig
  pub iteration : List (ℕ × List ℕ) → List (ℕ × List ℕ)
  pub parent_slug : String

unfoldable pub chunks_of : Decomposing → List ParsedStep → Option (List (List ParsedStep))
chunks_of d steps =
    if d.config.respect_dependencies
    then merge_dependency_groups d.texts d.iteration steps
    else some (map (λ s. s ∷ []) steps)

-- The loop over the projects' groups: the pieces and the warnings so far grow.
unfoldable pub split_groups :
    Decomposing
    → List (String × List ParsedStep)
    → List HandoffPiece
    → List String
    → Option (List HandoffPiece × List String)
unfolding chunks_of pack_chunks pieces_of
split_groups d [] pieces warnings = some (pieces, warnings)
split_groups d ((_, steps) ∷ rest) pieces warnings = elim (chunks_of d steps) [
  | none ↦ none
  | some chunks ↦
      let packed = pack_chunks d.texts d.config chunks in
      split_groups d rest (pieces ++ pieces_of d.texts d.parent_slug (length pieces) packed) (
        warnings ++ (pack_warnings d.texts chunks ++ concat (map (effort_warnings d.texts) packed)))
]

-- `step_to_piece`: the last piece that has a step of the number.
unfoldable pub step_to_piece : ℕ → List HandoffPiece → ℕ → Option ℕ
step_to_piece idx [] n = none
step_to_piece idx (p ∷ rest) n =
    let later = step_to_piece (suc idx) rest n in
    elim later [ some i ↦ some i | none ↦ if is_number n p.steps then some idx else none ]

-- A `HashSet` that is sorted when it has been filled.
unfoldable pub insert_index : ℕ → List ℕ → List ℕ
insert_index n [] = n ∷ []
insert_index n (m ∷ rest) =
    if ltb n m then n ∷ m ∷ rest else if n == m then m ∷ rest else m ∷ insert_index n rest

-- One dependency of a step of the piece `idx`: its number is of some step, and of another piece.
unfoldable pub dep_piece : Texts → List ParsedStep → List HandoffPiece → ℕ → String → Option ℕ
unfolding step_to_piece
dep_piece t steps pieces idx dep = elim (parse_dep_step_number t dep) [
  | none ↦ none
  | some n ↦ if not (is_number n steps) then none else elim (step_to_piece 0 pieces n) [
    | none ↦ none
    | some i ↦ if i == idx then none else some i
  ]
]

unfoldable pub dep_pieces : Texts → List ParsedStep → List HandoffPiece → ℕ → List String → List ℕ
unfolding dep_piece insert_index
dep_pieces t steps pieces idx [] = []
dep_pieces t steps pieces idx (dep ∷ rest) =
    let others = dep_pieces t steps pieces idx rest in
    elim (dep_piece t steps pieces idx dep) [ none ↦ others | some i ↦ insert_index i others ]

abbrev dependencies : List ParsedStep → List String
dependencies steps = concat (map (λ s. s.depends_on) steps)

abbrev missing : Texts → List ParsedStep → ParsedStep → String → List String
missing t steps s dep = elim (parse_dep_step_number t dep) [
  | none ↦ []
  | some n ↦
      if is_number n steps
      then []
      else format (
          "step "
          ∷ decimal s.number
          ∷ ": dependency 'Step "
          ∷ decimal n
          ∷ "' not found in handoff steps"
          ∷ [])
        ∷ []
]

-- The warnings of the pass over the dependencies.
unfoldable pub dep_warnings : Texts → List ParsedStep → List ParsedStep → List String
dep_warnings t steps [] = []
dep_warnings t steps (s ∷ rest) =
    concat (map (missing t steps s) s.depends_on) ++ dep_warnings t steps rest

-- The pass over the pieces that fills in what each depends on.
unfoldable pub link_pieces :
    Texts → List ParsedStep → List HandoffPiece → ℕ → List HandoffPiece → List HandoffPiece
unfolding dep_pieces
link_pieces t steps pieces idx [] = []
link_pieces t steps pieces idx (p ∷ rest) =
    record p { depends_on = dep_pieces t steps pieces idx (dependencies p.steps) }
    ∷ link_pieces t steps pieces (suc idx) rest

unfoldable pub graph_of : ℕ → List HandoffPiece → List (ℕ × ℕ)
graph_of idx [] = []
graph_of idx (p ∷ rest) = map (λ i. (idx, i)) p.depends_on ++ graph_of (suc idx) rest

abbrev pub result_of :
    Decomposing → ParsedHandoff → List HandoffPiece → List String → DecompositionResult
result_of d handoff pieces warnings =
    let linked = link_pieces d.texts handoff.steps pieces 0 pieces in
    record {
      original_title = handoff.title;
      pieces = linked;
      dependency_graph = graph_of 0 linked;
      warnings =
          warnings ++ dep_warnings d.texts handoff.steps (concat (map (λ p. p.steps) pieces));
    }

unfoldable pub decompose : Decomposing → ParsedHandoff → Decomposition
unfolding group_by_project split_groups link_pieces graph_of dep_warnings
decompose d handoff =
    if is_empty handoff.steps
    then no_steps
    else elim (split_groups d (group_by_project handoff.steps d.config.respect_project_boundaries)
        [] []) [
          | none ↦ stuck
          | some (pieces, warnings) ↦ decomposed (result_of d handoff pieces warnings)
        ]
