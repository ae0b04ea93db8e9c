-- ===== src/Dispatch/Canopy.antt =====
-- What the dispatcher asks of Canopy, and the answers (src/dispatch/mod.rs).
use hymenium.Prelude.{ℕ, String, Bool, false, not, Option, List, [], ◌∷◌, unwrap_or, format}

pub data DispatchError : Type 0 where
  canopy_error task_creation_failed handoff_not_found template_not_found invalid_state :
      String → DispatchError

-- The `Display` of the error.
unfoldable pub dispatch_error_text : DispatchError → String
dispatch_error_text (canopy_error m) = format ("canopy error: " ∷ m ∷ [])
dispatch_error_text (task_creation_failed m) = format ("task creation failed: " ∷ m ∷ [])
dispatch_error_text (handoff_not_found m) = format ("handoff not found: " ∷ m ∷ [])
dispatch_error_text (template_not_found m) = format ("template not found: " ∷ m ∷ [])
dispatch_error_text (invalid_state m) = format ("invalid state: " ∷ m ∷ [])

pub data DispatchResult (A : Type 0) : Type 0 where
  done : A → DispatchResult A
  failed_with : DispatchError → DispatchResult A

infixl 10 ◌>>=◌
abbrev pub ◌>>=◌ : {A B : Type 0} → DispatchResult A → (A → DispatchResult B) → DispatchResult B
done a >>= f = f a
failed_with e >>= f = failed_with e

pub record NextAction : Type 0 where
  pub follow_up_task_id : Option String
  pub directive : Option String

pub record CompletionSignal : Type 0 where
  pub status : Option String
  pub should_continue : Option Bool
  pub next_action : Option NextAction
  pub summary : Option String
  pub agent_id : Option String

abbrev pub wants_stop : CompletionSignal → Bool
wants_stop s = not (unwrap_or s.should_continue false)

pub record TaskDetail : Type 0 where
  pub task_id : String
  pub title : String
  pub status : String
  pub agent_id : Option String
  pub parent_id : Option String
  pub required_capabilities : List String
  pub has_code_diff : Bool
  pub has_verification_passed : Bool
  pub completion_signal : Option CompletionSignal

pub record CompletenessReport : Type 0 where
  pub complete : Bool
  pub total_items : ℕ
  pub completed_items : ℕ
  pub missing : List String

-- The queries of the `CanopyClient` trait, as Canopy answers them at one moment.
pub record CanopyClient : Type 0 where
  pub get_task : String → DispatchResult TaskDetail
  pub check_completeness : String → DispatchResult CompletenessReport
