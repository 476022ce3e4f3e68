-- ===== src/Reasoning/Calls/Messages.antt =====
-- The messages and logs that an action call leaves in a turn (reasoning_service.go of
-- internal/implementation/orchestrator).
use eywa.Prelude.{
  suc, Bool, true, false, ◌&&◌, ◌||◌, Option, none, some, not, is_some, List, [], ◌∷◌, ◌++◌, String,
  concat, if◌then◌else◌,
}
use eywa.Errors.{Err}
use eywa.Errors.Action.{ActionErr, is_business_error, message_for}
use eywa.Reasoning.Oracle.{ToolCall, OracleMessage, accumulate_tokens}
use eywa.Reasoning.Dispatch.{ActionResult}
use eywa.Reasoning.Shaping.{shape_result_for_context}
use eywa.Reasoning.Turn.{ActionCallLog, MemoEntry, ReasoningService, TurnState}

abbrev pub tool_message : ToolCall → Bool → String → OracleMessage
tool_message call failed content = record {
  role = "tool";
  content = content;
  tool_calls = [];
  tool_call_id = call.id;
  tool_name = call.name;
  is_error = failed;
}

-- Both contexts of a turn, which are one slice.
abbrev pub append_message : OracleMessage → TurnState → TurnState
append_message m ts = record ts { working_context = ts.working_context ++ m ∷ [] }

unfoldable pub build_action_call_log : ToolCall → ActionResult → ActionCallLog
build_action_call_log call r = record {
  action_name = call.name;
  is_critical = r.is_critical;
  is_error = is_some r.error;
}

unfoldable pub log_call : ToolCall → ActionResult → TurnState → TurnState
unfolding build_action_call_log
log_call call r ts = record ts {
  iter_log = record (ts.iter_log) {
    action_calls = ts.iter_log.action_calls ++ build_action_call_log call r ∷ [];
  };
}

abbrev pub note_banned : ToolCall → TurnState → TurnState
note_banned call ts = record ts {
  iter_log = record (ts.iter_log) { banned_actions = ts.iter_log.banned_actions ++ call.name ∷ [] };
}

abbrev pub note_error : TurnState → TurnState
note_error ts = record ts { iter_log = record (ts.iter_log) { errors = suc ts.iter_log.errors } }

unfoldable pub banned_signature_message : ToolCall → OracleMessage
banned_signature_message call =
    tool_message call true
      "You already called this with identical arguments and it failed. Use different arguments or take another approach — it will not be retried as-is."

-- banned, infraTerminal, err, and the state.
pub record Processed : Type 0 where
  pub banned : List String
  pub infra_terminal : Bool
  pub error : Option Err
  pub state : TurnState

abbrev pub completed : TurnState → Processed
completed ts = record { banned = []; infra_terminal = false; error = none; state = ts }

module _ (svc : ReasoningService) where
  -- actionErrorMessage, for a result with this error.
  unfoldable pub action_error_message : ToolCall → Bool → ActionErr → OracleMessage
  unfolding is_business_error message_for
  action_error_message call critical e = tool_message call true (
      if critical && is_business_error e
      then concat "Business error: " (
          concat (message_for svc.error_text e)
            "\nThe identical call will not be retried — correct the arguments or take a different approach.")
      else if critical
      then "This operation failed due to a technical error."
      else if is_business_error e
      then concat "Business error: " (message_for svc.error_text e)
      else "This operation is temporarily unavailable. Try an alternative approach if possible.")

  abbrev pub or_empty : Option String → String
  or_empty none = ""
  or_empty (some s) = s

  -- Where the shaping panics, the caller stops the turn, and its context is never read.
  unfoldable pub handle_action_success : ToolCall → String → Bool → TurnState → TurnState
  unfolding accumulate_tokens shape_result_for_context
  handle_action_success call text delivery ts =
      let shaped = shape_result_for_context svc ts.req call.name text ts.outside in
      record ts {
        working_context = ts.working_context ++ tool_message call false (or_empty shaped.0) ∷ [];
        unwinding = ts.unwinding || not (is_some shaped.0);
        result = record (ts.result) {
          tokens_used = accumulate_tokens ts.result.tokens_used shaped.1;
          response_delivered = ts.result.response_delivered || delivery;
        };
      }

  abbrev pub reused : ToolCall → MemoEntry → ActionResult
  reused call entry = record {
    action_name = call.name;
    result = entry.result;
    error = none;
    is_critical = false;
    is_voice_delivery = entry.is_voice_delivery;
  }

  abbrev pub skipped : ToolCall → ActionResult
  skipped call = record {
    action_name = call.name;
    result = "";
    error = none;
    is_critical = false;
    is_voice_delivery = false;
  }

  -- What a repeated call leaves: it is refused if it is banned, else answered from the memo.
  unfoldable pub refuse_banned : ToolCall → TurnState → TurnState
  unfolding log_call banned_signature_message
  refuse_banned call ts =
      note_banned call
        (log_call call (skipped call) (append_message (banned_signature_message call) ts))

  unfoldable pub reuse_memo : ToolCall → MemoEntry → TurnState → TurnState
  unfolding log_call handle_action_success
  reuse_memo call entry ts =
      log_call call (reused call entry)
        (handle_action_success call entry.result entry.is_voice_delivery ts)
