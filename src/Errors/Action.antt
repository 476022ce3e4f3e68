-- ===== src/Errors/Action.antt =====
-- The errors of Actions (internal/domain/errors): an ActionError with its type and message, with or
-- without a cause; an error wrapped by `fmt.Errorf("…: %w", err)`; any other error.
use eywa.Prelude.{Bool, true, false, Option, none, some, String}

pub data ActionErrorType : Type 0 where
  business infrastructure : ActionErrorType

pub data ActionErr : Type 0 where
  plain : String → ActionErr
  wrapped : ActionErr → ActionErr
  action : ActionErrorType → String → ActionErr
  caused : ActionErrorType → String → ActionErr → ActionErr

-- errors.As with an *ActionError target: the outermost one.
unfoldable pub as_action : ActionErr → Option (ActionErrorType × String)
as_action (plain message) = none
as_action (wrapped e) = as_action e
as_action (action type message) = some (type, message)
as_action (caused type message e) = some (type, message)

abbrev is_business_type : Option (ActionErrorType × String) → Bool
is_business_type (some (business, message)) = true
is_business_type _ = false

abbrev is_infrastructure_type : Option (ActionErrorType × String) → Bool
is_infrastructure_type (some (infrastructure, message)) = true
is_infrastructure_type _ = false

unfoldable pub is_business_error : ActionErr → Bool
unfolding as_action
is_business_error e = is_business_type (as_action e)

unfoldable pub is_infrastructure_error : ActionErr → Bool
unfolding as_action
is_infrastructure_error e = is_infrastructure_type (as_action e)

-- `text` is err.Error(), for an error without an ActionError.
unfoldable pub message_for : (ActionErr → String) → ActionErr → String
unfolding as_action
message_for text e = elim (as_action e) [ none ↦ text e | some (type, message) ↦ message ]
