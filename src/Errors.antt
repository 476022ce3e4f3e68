-- ===== src/Errors.antt =====
-- The errors of the engine (internal/implementation/orchestrator/errors.go) and the audit status of
-- each (statusFromError in internal/implementation/orchestrator/engine.go). Messages are left out:
-- no decision of the engine reads one.
pub mod Laws
pub mod Action
use eywa.Prelude.{Bool, true, false, Option, none, some, String}

-- The codes; the last two occur in `statusFromError` alone.
pub data Code : Type 0 where
  invalid_config validation_failed lock_acquisition_failed memory_busy duplicate_event : Code
  scout_failed spirit_not_found memory_operation_failed reasoning_failed persistence_failed : Code
  timeout_exceeded rate_limit_exceeded tool_budget_exceeded prompt_injection_detected : Code
  filter_blocked filter_not_allowed session_held scheduled_task_skip : Code
  enrichment_failed session_operation_failed : Code

-- An OrchestrationError with its code and its Retriable flag, with or without a cause; an error
-- wrapped by `fmt.Errorf("…: %w", err)`; any other error.
pub data Err : Type 0 where
  plain : Err
  wrapped : Err → Err
  orchestration : Code → Bool → Err
  caused : Code → Bool → Err → Err

-- errors.As with an *OrchestrationError target: the outermost one.
unfoldable pub as_orchestration : Err → Option (Code × Bool)
as_orchestration plain = none
as_orchestration (wrapped e) = as_orchestration e
as_orchestration (orchestration c r) = some (c, r)
as_orchestration (caused c r e) = some (c, r)

unfoldable pub is_retriable : Err → Bool
unfolding as_orchestration
is_retriable e = elim (as_orchestration e) [ none ↦ false | some (c, r) ↦ r ]

abbrev is_duplicate_code : Code → Bool
is_duplicate_code duplicate_event = true
is_duplicate_code _ = false

unfoldable pub is_duplicate_event : Err → Bool
unfolding as_orchestration
is_duplicate_event e = elim (as_orchestration e) [
  | none ↦ false
  | some (c, r) ↦ is_duplicate_code c
]

unfoldable pub err_validation_failed : Err
err_validation_failed = orchestration validation_failed false

unfoldable pub err_lock_acquisition_failed : Option Err → Err
err_lock_acquisition_failed none = orchestration lock_acquisition_failed true
err_lock_acquisition_failed (some e) = caused lock_acquisition_failed true e

unfoldable pub err_memory_busy : Err
err_memory_busy = orchestration memory_busy false

unfoldable pub err_duplicate_event : Err
err_duplicate_event = orchestration duplicate_event false

unfoldable pub err_scout_failed : Err → Err
err_scout_failed e = caused scout_failed false e

unfoldable pub err_spirit_not_found : Err → Err
err_spirit_not_found e = caused spirit_not_found false e

unfoldable pub err_memory_operation_failed : Err → Err
err_memory_operation_failed e = caused memory_operation_failed true e

unfoldable pub err_reasoning_failed : Err → Err
err_reasoning_failed e = caused reasoning_failed true e

unfoldable pub err_persistence_failed : Err → Err
err_persistence_failed e = caused persistence_failed false e

unfoldable pub err_timeout_exceeded : Err
err_timeout_exceeded = orchestration timeout_exceeded true

unfoldable pub err_rate_limit_exceeded : Err
err_rate_limit_exceeded = orchestration rate_limit_exceeded false

unfoldable pub err_tool_budget_exceeded : Err
err_tool_budget_exceeded = orchestration tool_budget_exceeded false

unfoldable pub err_prompt_injection_detected : Err
err_prompt_injection_detected = orchestration prompt_injection_detected false

unfoldable pub err_filter_blocked : Err
err_filter_blocked = orchestration filter_blocked false

unfoldable pub err_filter_not_allowed : Err
err_filter_not_allowed = orchestration filter_not_allowed false

unfoldable pub err_session_held : Err
err_session_held = orchestration session_held false

status_of_code : Code → String
status_of_code rate_limit_exceeded = "rate_limited"
status_of_code validation_failed = "validation_failed"
status_of_code prompt_injection_detected = "validation_failed"
status_of_code duplicate_event = "duplicate"
status_of_code memory_busy = "session_busy"
status_of_code session_held = "session_held"
status_of_code lock_acquisition_failed = "lock_acquisition_failed"
status_of_code enrichment_failed = "enrichment_failed"
status_of_code spirit_not_found = "spirit_not_found"
status_of_code session_operation_failed = "session_operation_failed"
status_of_code reasoning_failed = "reasoning_failed"
status_of_code persistence_failed = "persistence_failed"
status_of_code timeout_exceeded = "timeout_exceeded"
status_of_code tool_budget_exceeded = "tool_budget_exceeded"
status_of_code filter_blocked = "filter_blocked"
status_of_code filter_not_allowed = "filter_not_allowed"
status_of_code _ = "error"

status_of : Option (Code × Bool) → String
unfolding status_of_code
status_of none = "error"
status_of (some (c, r)) = status_of_code c

unfoldable pub status_from_error : Err → String
unfolding status_of as_orchestration
status_from_error e = status_of (as_orchestration e)
