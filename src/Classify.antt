-- ===== src/Classify.antt =====
-- The provider error classifier (src/classify.rs).
use text.Mathlib.Text.{find?}
use hymenium.Prelude.{
  ℕ, String, Bool, true, false, ◌&&◌, ◌||◌, Option, none, some, leb, ◌==◌, is_some, if◌then◌else◌,
}

pub data FailoverReason : Type 0 where
  auth_failure quota_exhausted rate_limited content_policy : FailoverReason
  transport_error context_overflow server_error unknown : FailoverReason

pub record RecoveryHint : Type 0 where
  pub retryable : Bool
  pub should_compress : Bool
  pub should_rotate_credential : Bool
  pub should_fallback : Bool

abbrev pub no_hint : RecoveryHint
no_hint = record {
  retryable = false;
  should_compress = false;
  should_rotate_credential = false;
  should_fallback = false;
}

abbrev pub contains : String → String → Bool
contains text part = is_some (find? text part)

abbrev pub has_status : Option ℕ → ℕ → Bool
has_status none code = false
has_status (some s) code = s == code

abbrev pub is_5xx : Option ℕ → Bool
is_5xx none = false
is_5xx (some s) = leb 500 s

-- The lowercase body, or the empty text.
abbrev pub lowered : (String → String) → Option String → String
lowered to_lowercase none = ""
lowered to_lowercase (some body) = to_lowercase body

abbrev overflow_signal : String → Bool
overflow_signal body = contains body "context" || contains body "overflow"

abbrev overflow : FailoverReason × RecoveryHint
overflow = (context_overflow, record no_hint { should_compress = true; should_fallback = true })

-- Checks 6 to 8, on the status that is left.
abbrev last_checks : Option ℕ → String → FailoverReason × RecoveryHint
last_checks none body =
    if overflow_signal body
    then overflow
    else (transport_error, record no_hint { retryable = true })
last_checks (some s) body = if overflow_signal body then overflow else (unknown, no_hint)

-- The Unicode lowercase mapping is an argument.
unfoldable pub classify_error :
    (String → String) → Option ℕ → Option String → FailoverReason × RecoveryHint
classify_error to_lowercase status body_hint =
    let body = lowered to_lowercase body_hint in
    if has_status status 401
    then (auth_failure, record no_hint { should_rotate_credential = true })
    else if has_status status 402 && contains body "quota"
    then (quota_exhausted, record no_hint { should_fallback = true })
    else if (has_status status 402 || has_status status 429) && contains body "rate"
    then (rate_limited, record no_hint { retryable = true })
    else if (has_status status 400 || has_status status 402) && contains body "content"
    then (content_policy, record no_hint { should_compress = true })
    else if is_5xx status
    then (server_error, record no_hint { retryable = true })
    else last_checks status body
