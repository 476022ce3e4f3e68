-- ===== src/Errors/Laws.antt =====
-- The audit status of an error (statusFromError in internal/implementation/orchestrator/engine.go).
use eywa.Prelude.{◌≡◌, refl, Bool, false, Option, none, some, String, is_empty, str_eq}
use eywa.Errors.{
  Code, Err, as_orchestration, status_of_code, status_of, status_from_error, invalid_config,
  validation_failed, lock_acquisition_failed, memory_busy, duplicate_event, scout_failed,
  spirit_not_found, memory_operation_failed, reasoning_failed, persistence_failed, timeout_exceeded,
  rate_limit_exceeded, tool_budget_exceeded, prompt_injection_detected, filter_blocked,
  filter_not_allowed, session_held, scheduled_task_skip, enrichment_failed,
  session_operation_failed,
}

-- A text that a failed run may have as its status.
abbrev IsFailure : String → Type 0
IsFailure s = (is_empty s ≡ false) × (str_eq s "success" ≡ false)

status_of_code-IsFailure : (c : Code) → IsFailure (status_of_code c)
unfolding status_of_code
status_of_code-IsFailure invalid_config = (refl, refl)
status_of_code-IsFailure validation_failed = (refl, refl)
status_of_code-IsFailure lock_acquisition_failed = (refl, refl)
status_of_code-IsFailure memory_busy = (refl, refl)
status_of_code-IsFailure duplicate_event = (refl, refl)
status_of_code-IsFailure scout_failed = (refl, refl)
status_of_code-IsFailure spirit_not_found = (refl, refl)
status_of_code-IsFailure memory_operation_failed = (refl, refl)
status_of_code-IsFailure reasoning_failed = (refl, refl)
status_of_code-IsFailure persistence_failed = (refl, refl)
status_of_code-IsFailure timeout_exceeded = (refl, refl)
status_of_code-IsFailure rate_limit_exceeded = (refl, refl)
status_of_code-IsFailure tool_budget_exceeded = (refl, refl)
status_of_code-IsFailure prompt_injection_detected = (refl, refl)
status_of_code-IsFailure filter_blocked = (refl, refl)
status_of_code-IsFailure filter_not_allowed = (refl, refl)
status_of_code-IsFailure session_held = (refl, refl)
status_of_code-IsFailure scheduled_task_skip = (refl, refl)
status_of_code-IsFailure enrichment_failed = (refl, refl)
status_of_code-IsFailure session_operation_failed = (refl, refl)

status_of-IsFailure : (o : Option (Code × Bool)) → IsFailure (status_of o)
unfolding status_of
status_of-IsFailure none = (refl, refl)
status_of-IsFailure (some (c, r)) = status_of_code-IsFailure c

pub status_from_error-IsFailure :
    (e : Err)
    → (is_empty (status_from_error e) ≡ false) × (str_eq (status_from_error e) "success" ≡ false)
unfolding status_from_error
status_from_error-IsFailure e = status_of-IsFailure (as_orchestration e)
