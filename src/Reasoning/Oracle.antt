-- ===== src/Reasoning/Oracle.antt =====
-- Requests, messages and answers of an Oracle (internal/domain/ports/oracle.go): the fields that the
-- reasoning service reads or writes. A tool descriptor is its name.
use eywa.Prelude.{ℕ, ◌+◌, Bool, Option, List, String}
use eywa.Prelude.Maps.{GoMap}
use eywa.Entities.Value.{Value}

pub record ToolCall : Type 0 where
  pub id : String
  pub name : String
  pub arguments : GoMap Value
  pub is_critical_override : Option Bool

pub record OracleMessage : Type 0 where
  pub role : String
  pub content : String
  pub tool_calls : List ToolCall
  pub tool_call_id : String
  pub tool_name : String
  pub is_error : Bool

pub record OracleUsage : Type 0 where
  pub prompt_tokens : ℕ
  pub completion_tokens : ℕ
  pub total_tokens : ℕ

pub record OracleRequest : Type 0 where
  pub model : String
  pub system_prompt : String
  pub messages : List OracleMessage
  pub tools : List String
  pub with_format : Bool

-- `structured` is empty where there is none.
pub record OracleResponse : Type 0 where
  pub content : String
  pub tool_calls : List ToolCall
  pub stop_reason : String
  pub tokens_used : OracleUsage
  pub structured : String

-- ReasoningResult.accumulateTokens
unfoldable pub accumulate_tokens : OracleUsage → OracleUsage → OracleUsage
accumulate_tokens t u = record {
  prompt_tokens = t.prompt_tokens + u.prompt_tokens;
  completion_tokens = t.completion_tokens + u.completion_tokens;
  total_tokens = t.total_tokens + u.total_tokens;
}
