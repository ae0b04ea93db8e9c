-- ===== src/Decompose/Groups.antt =====
-- Grouping, sorting and packing the steps of a handoff (src/decompose/algorithm.rs).
use Prim.Native.Nat.{Ordering}
use Prim.Native.String.{len, slice, compare as compare_text}
use text.Mathlib.Text.{starts_with}
use hymenium.Prelude.{
  ℕ, ◌+◌, ◌%◌, ◌^◌, ◌*◌, String, Bool, true, false, not, ◌&&◌, Option, none, some, List, [], ◌∷◌,
  ◌++◌, map, any, is_empty, is_some, leb, ltb, length, unwrap_or, format, decimal, if◌then◌else◌,
}
use hymenium.Handoff.{ParsedStep}

pub record DecompositionConfig : Type 0 where
  pub max_effort_per_piece_secs : ℕ  -- u64
  pub max_steps_per_piece : ℕ  -- usize
  pub respect_dependencies : Bool
  pub respect_project_boundaries : Bool

unfoldable pub default_config : DecompositionConfig
default_config = record {
  max_effort_per_piece_secs = 4 * 3600;
  max_steps_per_piece = 3;
  respect_dependencies = true;
  respect_project_boundaries = true;
}

-- The standard library's operations on texts; and `parse_effort_secs`, which computes with floats
-- and gives the seconds or an error's text.
pub data Effort : Type 0 where
  seconds : ℕ → Effort
  invalid_effort : String → Effort

pub record Texts : Type 0 where
  pub trim : String → String
  pub to_lowercase : String → String
  pub parse_u32 : String → Option ℕ
  pub parse_effort_secs : String → Effort

-- A `BTreeMap` from keys to lists: `entry(key).or_default().push(a)`.
unfoldable pub push_group :
    {K A : Type 0} → (K → K → Ordering) → K → A → List (K × List A) → List (K × List A)
push_group cmp k a [] = (k, a ∷ []) ∷ []
push_group cmp k a ((j, as') ∷ rest) = elim (cmp k j) [
  | Ordering.lt ↦ (k, a ∷ []) ∷ (j, as') ∷ rest
  | Ordering.eq ↦ (j, as' ++ a ∷ []) ∷ rest
  | Ordering.gt ↦ (j, as') ∷ push_group cmp k a rest
]

unfoldable pub group_steps :
    List ParsedStep → List (String × List ParsedStep) → List (String × List ParsedStep)
unfolding push_group
group_steps [] groups = groups
group_steps (s ∷ rest) groups =
    group_steps rest (push_group compare_text (unwrap_or s.project "default") s groups)

unfoldable pub group_by_project : List ParsedStep → Bool → List (String × List ParsedStep)
unfolding group_steps
group_by_project steps respect_boundaries =
    if not respect_boundaries then ("default", steps) ∷ [] else group_steps steps []

unfoldable pub parse_dep_step_number : Texts → String → Option ℕ
parse_dep_step_number t dep =
    let lower = t.to_lowercase (t.trim dep) in
    if starts_with lower "step" then t.parse_u32 (t.trim (slice lower 4 (len lower))) else none

-- A stable sort by a number.
unfoldable pub insert_by : {A : Type 0} → (A → ℕ) → A → List A → List A
insert_by key a [] = a ∷ []
insert_by key a (b ∷ rest) = if leb (key a) (key b) then a ∷ b ∷ rest else b ∷ insert_by key a rest

unfoldable pub sort_by_key : {A : Type 0} → (A → ℕ) → List A → List A
unfolding insert_by
sort_by_key key [] = []
sort_by_key key (a ∷ rest) = insert_by key a (sort_by_key key rest)

abbrev pub wrap : ℕ → ℕ
wrap n = n % 2 ^ 64

-- The steps' efforts that are understood, added up in a `u64`.
unfoldable pub chunk_effort_secs : Texts → ℕ → List ParsedStep → ℕ
chunk_effort_secs t total [] = total
chunk_effort_secs t total (s ∷ rest) =
    chunk_effort_secs t
      (elim s.effort [
        | none ↦ total
        | some effort ↦ elim (t.parse_effort_secs effort) [
          | seconds secs ↦ wrap (total + secs)
          | invalid_effort e ↦ total
        ]
      ])
      rest

-- The warnings of that loop.
unfoldable pub effort_warnings : Texts → List ParsedStep → List String
effort_warnings t [] = []
effort_warnings t (s ∷ rest) =
    let others = effort_warnings t rest in
    elim s.effort [
      | none ↦ others
      | some effort ↦ elim (t.parse_effort_secs effort) [
        | seconds secs ↦ others
        | invalid_effort e ↦ format ("step " ∷ decimal s.number ∷ ": " ∷ e ∷ []) ∷ others
      ]
    ]

abbrev is_understood : Texts → ParsedStep → Bool
is_understood t s = elim s.effort [
  | none ↦ false
  | some effort ↦ elim (t.parse_effort_secs effort) [
    | seconds secs ↦ true
    | invalid_effort e ↦ false
  ]
]

unfoldable pub total_effort_secs : Texts → List ParsedStep → Option ℕ
unfolding chunk_effort_secs
total_effort_secs t steps =
    if any (is_understood t) steps then some (chunk_effort_secs t 0 steps) else none

abbrev pub concat : {A : Type 0} → List (List A) → List A
concat [] = []
concat (xs ∷ rest) = xs ++ concat rest

-- The two loops of `pack_chunks` differ in what a chunk costs and in the limit.
unfoldable pub pack_loop :
    (List ParsedStep → ℕ)
    → ℕ
    → List (List ParsedStep)
    → List ParsedStep
    → ℕ
    → List (List ParsedStep)
pack_loop cost limit [] current spent = if is_empty current then [] else current ∷ []
pack_loop cost limit (chunk ∷ rest) current spent =
    elim (not (is_empty current) && ltb limit (wrap (spent + cost chunk))) [
      | true ↦ current ∷ pack_loop cost limit rest chunk (wrap (cost chunk))
      | false ↦ pack_loop cost limit rest (current ++ chunk) (wrap (spent + cost chunk))
    ]

abbrev pub has_effort : List (List ParsedStep) → Bool
has_effort chunks = any (λ s. is_some s.effort) (concat chunks)

unfoldable pub pack_chunks :
    Texts → DecompositionConfig → List (List ParsedStep) → List (List ParsedStep)
unfolding pack_loop
pack_chunks t config chunks =
    if has_effort chunks
    then pack_loop (chunk_effort_secs t 0) config.max_effort_per_piece_secs chunks [] 0
    else pack_loop length config.max_steps_per_piece chunks [] 0

unfoldable pub pack_warnings : Texts → List (List ParsedStep) → List String
pack_warnings t chunks = if has_effort chunks then concat (map (effort_warnings t) chunks) else []

abbrev last : ParsedStep → List ParsedStep → ParsedStep
last s [] = s
last s (t ∷ rest) = last t rest

unfoldable pub piece_title : List ParsedStep → String
piece_title [] = ""
piece_title (s ∷ []) = s.title
piece_title (s ∷ t ∷ rest) =
    let end = last t rest in
    format (
      "Steps "
      ∷ decimal s.number
      ∷ "-"
      ∷ decimal end.number
      ∷ ": "
      ∷ s.title
      ∷ " & "
      ∷ end.title
      ∷ [])
