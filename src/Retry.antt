-- ===== src/Retry.antt =====
-- Retry policy and recovery actions (src/retry.rs).
pub mod Limits
use hymenium.Prelude.{
  ℕ, String, Bool, true, false, Option, none, some, List, [], ◌∷◌, leb, ◌==◌, if◌then◌else◌, format,
  decimal,
}
use hymenium.Workflow.Template.{AgentTier, haiku, sonnet, opus, any_tier}
use hymenium.Failure.{
  FailureKind, spec_ambiguity, task_too_large, missing_dependency, execution_incomplete,
  scope_violation, contract_mismatch, minor_defect, TypedFailure,
}
use hymenium.Monitor.Signal.{
  ProgressSignal, healthy, stalled, phase_complete, gate_satisfied, failed, StallReason,
  heartbeat_timeout, no_code_diff, no_paste_marker_progress, status_chatter_only,
}

pub record RetryPolicy : Type 0 where
  pub max_retries : ℕ  -- u32
  pub narrow_scope_on_retry : Bool
  pub escalate_tier_on_retry : Bool

abbrev pub default_policy : RetryPolicy
default_policy = record {
  max_retries = 2;
  narrow_scope_on_retry = true;
  escalate_tier_on_retry = false;
}

pub data RecoveryAction : Type 0 where
  retry : Option String → Option AgentTier → RecoveryAction
  escalate cancel : String → RecoveryAction

unfoldable pub next_tier : AgentTier → AgentTier
next_tier haiku = sonnet
next_tier any_tier = sonnet
next_tier sonnet = opus
next_tier opus = opus

-- `<what> after <n> retries — retry limit exceeded`
abbrev pub limit_exceeded : String → ℕ → RecoveryAction
limit_exceeded what retry_count =
    escalate
      (format (what ∷ " after " ∷ decimal retry_count ∷ " retries — retry limit exceeded" ∷ []))

unfoldable pub decide_progressive_recovery : ℕ → RetryPolicy → AgentTier → String → RecoveryAction
unfolding next_tier
decide_progressive_recovery retry_count policy current_tier context =
    if leb policy.max_retries retry_count
    then limit_exceeded context retry_count
    else if retry_count == 0
    then retry none none
    else retry (if policy.narrow_scope_on_retry then some "narrow" else none)
        (if policy.escalate_tier_on_retry then some (next_tier current_tier) else none)

abbrev pub within_limit : ℕ → RetryPolicy → String → RecoveryAction → RecoveryAction
within_limit retry_count policy what action =
    if leb policy.max_retries retry_count then limit_exceeded what retry_count else action

unfoldable pub decide_recovery : ProgressSignal → ℕ → RetryPolicy → AgentTier → RecoveryAction
unfolding decide_progressive_recovery
decide_recovery (healthy p at) n policy tier = cancel "no recovery needed"
decide_recovery (phase_complete p) n policy tier = cancel "no recovery needed"
decide_recovery (gate_satisfied g) n policy tier = cancel "no recovery needed"
decide_recovery (stalled p since heartbeat_timeout) n policy tier =
    within_limit n policy "heartbeat timeout" (retry none none)
decide_recovery (stalled p since status_chatter_only) n policy tier =
    within_limit n policy "status chatter only" (
      retry (if policy.narrow_scope_on_retry then some "narrow scope to reduce chatter" else none)
        none)
decide_recovery (stalled p since no_code_diff) n policy tier =
    decide_progressive_recovery n policy tier "no code diff"
decide_recovery (stalled p since no_paste_marker_progress) n policy tier =
    decide_progressive_recovery n policy tier "partial progress stalled"
decide_recovery (failed p error) n policy tier =
    within_limit n policy "phase failed" (retry none none)

-- `": {d}"`, or nothing.
abbrev pub detail_text : Option String → String
detail_text none = ""
detail_text (some d) = format (": " ∷ d ∷ [])

unfoldable pub decide_recovery_typed : TypedFailure → ℕ → RetryPolicy → RecoveryAction
decide_recovery_typed failure n policy = elim failure.kind [
  | spec_ambiguity ↦ escalate (
      format (
        "spec ambiguity — cannot retry without operator clarification"
        ∷ detail_text failure.detail
        ∷ []))
  | contract_mismatch ↦ escalate (
      format (
        "contract mismatch — output does not conform to expected schema"
        ∷ detail_text failure.detail
        ∷ []))
  | scope_violation ↦ escalate (
      format
        ("scope violation — agent edited outside allowed scope" ∷ detail_text failure.detail ∷ []))
  | task_too_large ↦
      if n == 0
      then retry (some "decompose task into smaller units") none
      else escalate (
          format (
            "task too large — narrowed scope did not fit context budget after "
            ∷ decimal n
            ∷ " retries"
            ∷ []))
  | missing_dependency ↦ cancel (
      format
        ("missing dependency — prerequisite task not complete" ∷ detail_text failure.detail ∷ []))
  | execution_incomplete ↦ within_limit n policy "execution incomplete" (retry none none)
  | minor_defect ↦
      if leb policy.max_retries n
      then escalate (
          format (
            "minor defect persisted after "
            ∷ decimal n
            ∷ " retries — escalating for review"
            ∷ detail_text failure.detail
            ∷ []))
      else retry none none
]
