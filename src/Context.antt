-- ===== src/Context.antt =====
-- Context messages, and the pairing of tool calls with their results (src/context.rs).
pub mod Pairing
use hymenium.Prelude.{
  ℕ, String, Bool, true, false, Option, none, some, List, [], ◌∷◌, ◌++◌, any, str_eq, if◌then◌else◌,
}

pub data ContextMessageRole : Type 0 where
  system user assistant tool_call tool_result : ContextMessageRole

pub record ContextMessage : Type 0 where
  pub id : String
  pub role : ContextMessageRole
  pub content : String
  pub tool_call_id : Option String
  pub tool_name : Option String

abbrev pub text_message : String → ContextMessageRole → String → ContextMessage
text_message id role content = record {
  id = id;
  role = role;
  content = content;
  tool_call_id = none;
  tool_name = none;
}

abbrev pub tool_call_message : String → String → String → ContextMessage
tool_call_message id tool_name content = record {
  id = id;
  role = tool_call;
  content = content;
  tool_call_id = none;
  tool_name = some tool_name;
}

abbrev pub tool_result_message : String → String → String → String → ContextMessage
tool_result_message id tool_call_id tool_name content = record {
  id = id;
  role = tool_result;
  content = content;
  tool_call_id = some tool_call_id;
  tool_name = some tool_name;
}

pub record CompressionItem : Type 0 where
  pub message_id : String
  pub role : ContextMessageRole
  pub note : String

-- `HashSet::contains` and `insert` on a set of IDs, kept as the list of its members.
abbrev pub member : String → List String → Bool
member id = any (λ s. str_eq s id)

-- `SanitizedRetention` without the maps that only the stubs read, and with the report's removals.
-- The keys of `retained_call_positions` are the retained calls.
pub record Retention : Type 0 where
  pub output : List ContextMessage
  pub retained_calls : List String
  pub retained_results : List String
  pub removed : List CompressionItem

abbrev pub empty_retention : Retention
empty_retention = record { output = []; retained_calls = []; retained_results = []; removed = [] }

abbrev pub remove : ContextMessage → String → Retention → Retention
remove m note st = record st {
  removed = st.removed ++ record { message_id = m.id; role = m.role; note = note } ∷ [];
}

abbrev pub keep_call : ContextMessage → Retention → Retention
keep_call m st =
    if member m.id st.retained_calls
    then remove m "duplicate tool call removed during sanitization" st
    else record st { retained_calls = m.id ∷ st.retained_calls; output = st.output ++ m ∷ [] }

abbrev pub keep_result : ContextMessage → Option String → Retention → Retention
keep_result m none st = remove m "tool result missing call id removed during sanitization" st
keep_result m (some call_id) st =
    if member call_id st.retained_calls
    then (if member call_id st.retained_results
        then remove m "tool result removed during sanitization" st
        else record st {
          retained_results = call_id ∷ st.retained_results;
          output = st.output ++ m ∷ [];
        })
    else remove m "orphaned tool result removed" st

-- The body of the loop.
abbrev pub retain_role : ContextMessageRole → ContextMessage → Retention → Retention
retain_role tool_call m st = keep_call m st
retain_role tool_result m st = keep_result m m.tool_call_id st
retain_role _ m st = record st { output = st.output ++ m ∷ [] }

unfoldable pub retain_from : List ContextMessage → Retention → Retention
retain_from [] st = st
retain_from (m ∷ rest) st = retain_from rest (retain_role m.role m st)

unfoldable pub retain_and_prune : List ContextMessage → Retention
unfolding retain_from
retain_and_prune messages = retain_from messages empty_retention
