-- ===== src/Examples/Messages.antt =====
-- A session with a call, its result, a second result for it, and an orphan.
use hymenium.Prelude.{◌≡◌, true, some, List, [], ◌∷◌, is_some}
use hymenium.Context.{
  user, ContextMessage, text_message, tool_call_message, tool_result_message, retain_and_prune,
}
use hymenium.Context.Pairing.{see_all, see_all-retain_and_prune, Sorted, retain_and_prune-Sorted}

abbrev session : List ContextMessage
session =
    text_message "m1" user "list the files"
    ∷ tool_call_message "c1" "ls" "."
    ∷ tool_result_message "r1" "c1" "ls" "README.md"
    ∷ tool_result_message "r2" "c1" "ls" "README.md"
    ∷ tool_result_message "r3" "c0" "cat" "text"
    ∷ []

see_all-retain_and_prune_example :
    is_some (see_all (some ([], [])) (retain_and_prune session).output) ≡ true
see_all-retain_and_prune_example = see_all-retain_and_prune session

retain_and_prune-Sorted_example :
    Sorted ([], []) session (retain_and_prune session).output (retain_and_prune session).removed
retain_and_prune-Sorted_example = retain_and_prune-Sorted session
