-- ===== src/Handoff.antt =====
-- A parsed handoff document (src/parser/mod.rs).
use hymenium.Prelude.{ℕ, String, Bool, Option, List}

pub data Dispatchability : Type 0 where
  direct umbrella : Dispatchability

pub record HandoffMetadata : Type 0 where
  pub dispatchability : Dispatchability
  pub owning_repo : String
  pub allowed_write_scope : List String
  pub cross_repo_rule : Option String
  pub non_goals : List String
  pub verification_contract : String
  pub completion_update : String
  pub source_scope : Option (List String)

pub record FileModification : Type 0 where
  pub path : String
  pub description : String

pub record PasteMarker : Type 0 where
  pub line_number : ℕ
  pub has_content : Bool

pub record VerificationBlock : Type 0 where
  pub commands : List String
  pub paste_markers : List PasteMarker

pub record ChecklistItem : Type 0 where
  pub text : String
  pub checked : Bool

pub record ParsedStep : Type 0 where
  pub number : ℕ  -- u32
  pub title : String
  pub project : Option String
  pub effort : Option String
  pub depends_on : List String
  pub description : String
  pub files_to_modify : List FileModification
  pub verification : Option VerificationBlock
  pub checklist : List ChecklistItem

pub record ParsedHandoff : Type 0 where
  pub title : String
  pub metadata : Option HandoffMetadata
  pub problem : String
  pub state : List String
  pub intent : String
  pub steps : List ParsedStep
  pub completion_protocol : Option String
  pub context : Option String
