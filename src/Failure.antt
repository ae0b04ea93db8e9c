-- ===== src/Failure.antt =====
-- The failure taxonomy (src/failure.rs) and its terminal categories (src/outcome.rs).
use hymenium.Prelude.{String, Option, none, some}

pub data FailureKind : Type 0 where
  spec_ambiguity task_too_large missing_dependency execution_incomplete : FailureKind
  scope_violation contract_mismatch minor_defect : FailureKind

unfoldable pub label : FailureKind → String
label spec_ambiguity = "spec ambiguity"
label task_too_large = "task too large"
label missing_dependency = "missing dependency"
label execution_incomplete = "execution incomplete"
label scope_violation = "scope violation"
label contract_mismatch = "contract mismatch"
label minor_defect = "minor defect"

pub record TypedFailure : Type 0 where
  pub kind : FailureKind
  pub detail : Option String

abbrev pub new_failure : FailureKind → TypedFailure
new_failure kind = record { kind = kind; detail = none }

abbrev pub with_detail : FailureKind → String → TypedFailure
with_detail kind detail = record { kind = kind; detail = some detail }

pub data TerminalFailureType : Type 0 where
  gate_violation verification_failed stall_timeout operator_cancelled : TerminalFailureType
  audit_rejected infrastructure_error unknown : TerminalFailureType

unfoldable pub to_terminal_failure_type : FailureKind → TerminalFailureType
to_terminal_failure_type spec_ambiguity = unknown
to_terminal_failure_type task_too_large = gate_violation
to_terminal_failure_type missing_dependency = gate_violation
to_terminal_failure_type execution_incomplete = stall_timeout
to_terminal_failure_type scope_violation = audit_rejected
to_terminal_failure_type contract_mismatch = verification_failed
to_terminal_failure_type minor_defect = verification_failed
