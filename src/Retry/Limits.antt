-- ===== src/Retry/Limits.antt =====
-- When a phase is retried, and at which tier (src/retry.rs).
use hymenium.Prelude.{
  ℕ, ◌≤◌, ◌<◌, ◌≡◌, refl, String, Bool, true, false, not, ◌&&◌, some, leb, ltb, arith,
}
use hymenium.Workflow.Template.{AgentTier, haiku, sonnet, opus, any_tier}
use hymenium.Failure.{
  FailureKind, spec_ambiguity, contract_mismatch, scope_violation, missing_dependency, TypedFailure,
}
use hymenium.Monitor.Signal.{
  ProgressSignal, healthy, stalled, phase_complete, gate_satisfied, failed, heartbeat_timeout,
  no_code_diff, no_paste_marker_progress, status_chatter_only,
}
use hymenium.Retry.{
  RetryPolicy, RecoveryAction, retry, escalate, next_tier, decide_progressive_recovery,
  decide_recovery, decide_recovery_typed,
}

abbrev pub is_retry : RecoveryAction → Bool
is_retry (retry s t) = true
is_retry _ = false

abbrev pub is_escalation : RecoveryAction → Bool
is_escalation (escalate r) = true
is_escalation _ = false

-- A signal of a phase in trouble.
abbrev pub is_trouble : ProgressSignal → Bool
is_trouble (stalled p since r) = true
is_trouble (failed p e) = true
is_trouble _ = false

progressive_lem :
    (n : ℕ) (policy : RetryPolicy) (tier : AgentTier) (context : String)
    → (is_retry (decide_progressive_recovery n policy tier context) ≡ ltb n policy.max_retries)
      × (is_escalation (decide_progressive_recovery n policy tier context)
          ≡ leb policy.max_retries n)
unfolding decide_progressive_recovery
progressive_lem n policy tier context = ground arith

-- A phase is retried exactly if the signal is one of trouble and fewer retries than the policy's
-- maximum were made, and escalated exactly if it is one of trouble and the maximum is reached.
pub decide_recovery_exactly :
    (signal : ProgressSignal) (n : ℕ) (policy : RetryPolicy) (tier : AgentTier)
    → (is_retry (decide_recovery signal n policy tier)
        ≡ (is_trouble signal && ltb n policy.max_retries))
      × (is_escalation (decide_recovery signal n policy tier)
          ≡ (is_trouble signal && leb policy.max_retries n))
unfolding decide_recovery
decide_recovery_exactly (healthy p at) n policy tier = (refl, refl)
decide_recovery_exactly (phase_complete p) n policy tier = (refl, refl)
decide_recovery_exactly (gate_satisfied g) n policy tier = (refl, refl)
decide_recovery_exactly (stalled p since heartbeat_timeout) n policy tier = ground arith
decide_recovery_exactly (stalled p since status_chatter_only) n policy tier = ground arith
decide_recovery_exactly (stalled p since no_code_diff) n policy tier =
    progressive_lem n policy tier "no code diff"
decide_recovery_exactly (stalled p since no_paste_marker_progress) n policy tier =
    progressive_lem n policy tier "partial progress stalled"
decide_recovery_exactly (failed p e) n policy tier = ground arith

-- The kinds that an operator or another team has to resolve before the phase can go on.
abbrev pub is_unretryable : FailureKind → Bool
is_unretryable spec_ambiguity = true
is_unretryable contract_mismatch = true
is_unretryable scope_violation = true
is_unretryable missing_dependency = true
is_unretryable _ = false

abbrev pub is_cancellation : RecoveryAction → Bool
is_cancellation (RecoveryAction.cancel r) = true
is_cancellation _ = false

abbrev pub is_dependency : FailureKind → Bool
is_dependency missing_dependency = true
is_dependency _ = false

-- A typed failure that is not retried after some number of retries is not retried after any greater
-- number. It is not retried once a retry was made and the policy's maximum is reached, and not at
-- all if it is a spec ambiguity, a contract mismatch, a scope violation or a missing dependency.
-- Whatever is not retried is escalated, except a missing dependency, which is always cancelled.
pub decide_recovery_typed_ends :
    (failure : TypedFailure) (n m : ℕ) (policy : RetryPolicy)
    → n ≤ m
    → let retried = is_retry (decide_recovery_typed failure m policy) in
      (is_retry (decide_recovery_typed failure n policy) ≡ false → retried ≡ false)
      × (0 < m → policy.max_retries ≤ m → retried ≡ false)
      × (is_unretryable failure.kind ≡ true → retried ≡ false)
      × (is_cancellation (decide_recovery_typed failure m policy) ≡ is_dependency failure.kind)
      × (is_escalation (decide_recovery_typed failure m policy)
          ≡ (not retried && not (is_dependency failure.kind)))
unfolding decide_recovery_typed
decide_recovery_typed_ends failure n m policy le = ground arith

-- The cost of a tier, `any` below all others.
abbrev pub rank : AgentTier → ℕ
rank any_tier = 0
rank haiku = 1
rank sonnet = 2
rank opus = 3

abbrev pub tier_or : RecoveryAction → AgentTier → AgentTier
tier_or (retry s (some t)) tier = t
tier_or _ tier = tier

rank-next_tier : (t : AgentTier) → rank t ≤ rank (next_tier t)
unfolding next_tier
rank-next_tier any_tier = omega arith
rank-next_tier haiku = omega arith
rank-next_tier sonnet = omega arith
rank-next_tier opus = omega arith

progressive_tier :
    (n : ℕ) (policy : RetryPolicy) (tier : AgentTier) (context : String)
    → rank tier ≤ rank (tier_or (decide_progressive_recovery n policy tier context) tier)
unfolding decide_progressive_recovery
progressive_tier n policy tier context = ground (arith, rank-next_tier tier)

-- No recovery lowers the agent's tier.
pub tier_never_lowered :
    (signal : ProgressSignal) (n : ℕ) (policy : RetryPolicy) (tier : AgentTier)
    → rank tier ≤ rank (tier_or (decide_recovery signal n policy tier) tier)
unfolding decide_recovery
tier_never_lowered (healthy p at) n policy tier = omega arith
tier_never_lowered (phase_complete p) n policy tier = omega arith
tier_never_lowered (gate_satisfied g) n policy tier = omega arith
tier_never_lowered (stalled p since heartbeat_timeout) n policy tier = ground arith
tier_never_lowered (stalled p since status_chatter_only) n policy tier = ground arith
tier_never_lowered (stalled p since no_code_diff) n policy tier =
    progressive_tier n policy tier "no code diff"
tier_never_lowered (stalled p since no_paste_marker_progress) n policy tier =
    progressive_tier n policy tier "partial progress stalled"
tier_never_lowered (failed p e) n policy tier = ground arith
