-- ===== src/Reasoning/Iteration/Peer.antt =====
-- The handoff of a turn to a peer (findHandoffCall and executeHandoff in
-- internal/implementation/orchestrator/reasoning_service.go).
use eywa.Prelude.{
  Bool, false, ◌||◌, not, Option, none, some, List, [], ◌∷◌, String, str_eq, is_empty,
  if◌then◌else◌,
}
use eywa.Prelude.Maps.{get}
use eywa.Entities.Value.{Value, text}
use eywa.Entities.Spirit.{Spirit, has_handoff}
use eywa.Errors.Action.{ActionErr, action, business, is_business_error}
use eywa.Reasoning.Oracle.{ToolCall}
use eywa.Reasoning.Dispatch.{ActionResult}
use eywa.Reasoning.Turn.{ReasoningService, TurnState, HandoffOutcome, transferred, refused}
use eywa.Reasoning.Calls.{append_message, log_call, action_error_message}
use eywa.Reasoning.Answer.{accrue_tokens}
use eywa.Reasoning.Iteration.Outcome.{Step, again, finished}

module _ (svc : ReasoningService) where
  abbrev pub handoff_call : List ToolCall → Option ToolCall
  handoff_call [] = none
  handoff_call (c ∷ cs) = if str_eq c.name "handoff_spirit" then some c else handoff_call cs

  unfoldable pub find_handoff_call : Spirit → List ToolCall → Option ToolCall
  unfolding has_handoff
  find_handoff_call sp calls =
      if not svc.has_handoff || not (has_handoff sp) then none else handoff_call calls

  abbrev pub text_or_empty : Option Value → String
  text_or_empty (some (text s)) = s
  text_or_empty _ = ""

  abbrev pub failing : ToolCall → ActionErr → Bool → ActionResult
  failing call e critical = record {
    action_name = call.name;
    result = "";
    error = some e;
    is_critical = critical;
    is_voice_delivery = false;
  }

  abbrev pub unhanded : ToolCall → ActionErr → Bool → TurnState → Step
  unhanded call e critical ts = again (
      log_call call (failing call e critical)
        (append_message (action_error_message svc call critical e) ts))

  abbrev pub handed : ToolCall → HandoffOutcome → TurnState → Step
  handed call (refused e) ts = unhanded call e (not (is_business_error e)) ts
  handed call (transferred sub) ts =
      let ts' = accrue_tokens "" sub.tokens_used ts in
      finished (
        log_call call
          (record {
            action_name = call.name;
            result = sub.final_response;
            error = none;
            is_critical = false;
            is_voice_delivery = false;
          })
          (record ts' {
            result = record (ts'.result) {
              final_response = sub.final_response;
              structured = sub.structured;
              final_session = ts.req.session;
            };
          }))

  unfoldable pub execute_handoff : ToolCall → TurnState → Step
  unfolding log_call action_error_message is_business_error accrue_tokens
  execute_handoff call ts =
      let target = text_or_empty (get call.arguments "target_spirit") in
      if is_empty target
      then unhanded call (action business "handoff_spirit requires target_spirit") false ts
      else handed call (svc.hand_off target ts.req ts.outside) ts
