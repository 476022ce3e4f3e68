-- ===== src/Reasoning/Turn.antt =====
-- One reasoning turn: its request, result and state (reasoning_service.go, reasoning_loop.go and
-- reasoning_durable.go of internal/implementation/orchestrator), what is outside of it, and the service with
-- its ports. The local iterLog of an iteration is a field of the state. `unwinding` is no field of the source: an
-- operation sets it where it panics, and its caller then stops the turn.
use eywa.Prelude.{ℕ, Bool, Option, List, String}
use eywa.Prelude.Maps.{Assoc, GoMap}
use eywa.Entities.Value.{Value}
use eywa.Entities.Pulse.{Pulse}
use eywa.Entities.Memory.{Memory}
use eywa.Entities.Policies.{
  ProgressPolicy, CompressionPolicy, ReflectionPolicy, GroundingPolicy, PlanPolicy, HandoffPolicy,
  Confidence,
}
use eywa.Entities.Spirit.{Spirit}
use eywa.Errors.Action.{ActionErr}
use eywa.Reasoning.Oracle.{ToolCall, OracleMessage, OracleUsage, OracleRequest, OracleResponse}
use eywa.Reasoning.Plan.{PlanItem, PlanState}
use eywa.Reasoning.Stall.{StallTracker}
use eywa.Reasoning.Dispatch.{ActionResult}
use eywa.Reasoning.Summon.{SummonService}
use eywa.Reasoning.Limits.{ToolResultLimits}

-- ResponseFormat is its schema, where there is one.
pub record ReasoningRequest : Type 0 where
  pub event : Pulse
  pub spirit : Spirit
  pub session : Option Memory
  pub system_prompt : String
  pub conversation_context : List OracleMessage
  pub response_format : Option Value

pub record ActionCallLog : Type 0 where
  pub action_name : String
  pub is_critical : Bool
  pub is_error : Bool

-- The texts of errors are left out, and only their number is kept.
pub record IterationLog : Type 0 where
  pub iteration : ℕ
  pub oracle_response : String
  pub tokens_used : OracleUsage
  pub action_calls : List ActionCallLog
  pub banned_actions : List String
  pub reflection_issues : List String
  pub errors : ℕ

-- WorkingContext is the same slice as the state's, and stands there only.
pub record ReasoningResult : Type 0 where
  pub iterations : List IterationLog
  pub final_response : String
  pub final_error : String
  pub iterations_used : ℕ
  pub tokens_used : OracleUsage
  pub tokens_by_model : GoMap OracleUsage
  pub final_session : Option Memory
  pub response_delivered : Bool
  pub citations : List String
  pub plan : List PlanItem
  pub confidence : Confidence
  pub handoff_raised : Bool
  pub structured : String

pub record MemoEntry : Type 0 where
  pub result : String
  pub is_voice_delivery : Bool

-- What a turn does to its surroundings, newest first: the requests made to oracles, but those for
-- summaries of results and of the context, the batches of calls that were executed with their results, the
-- takeovers raised; and the stored checkpoints.
pub record Outside : Type 0 where
  pub prompts : List OracleRequest
  pub batches : List (List (ToolCall × ActionResult))
  pub takeovers : List String
  pub checkpoints : Assoc String

pub record TurnState : Type 0 where
  pub req : ReasoningRequest
  pub result : ReasoningResult
  pub iter_log : IterationLog
  pub actions : List String
  pub working_context : List OracleMessage
  pub active_topic : String
  pub conversation_offset : ℕ
  pub enforce_voice_delivery : Bool
  pub banned_signatures : List String
  pub tool_memo : GoMap MemoEntry
  pub infra_terminal : Bool
  pub total_action_calls : ℕ
  pub iter_boundaries : List ℕ
  pub topic_switched : Bool
  pub reflection_rounds : ℕ
  pub grounding_revised : Bool
  pub plan_nudged : Bool
  pub critical_errors : ℕ
  pub progress : ProgressPolicy
  pub reflection : ReflectionPolicy
  pub grounding : GroundingPolicy
  pub plan_policy : PlanPolicy
  pub handoff : HandoffPolicy
  pub compression_enabled : Bool
  pub plan : Option PlanState
  pub stall : StallTracker
  pub draft_model : String
  pub unwinding : Bool
  pub outside : Outside

pub record TurnSnapshot : Type 0 where
  pub iterations_used : ℕ
  pub working_context : List OracleMessage
  pub active_topic : String
  pub conversation_offset : ℕ
  pub banned_signatures : List String
  pub infra_terminal : Bool
  pub total_action_calls : ℕ
  pub iter_boundaries : List ℕ
  pub topic_switched : Bool
  pub reflection_rounds : ℕ
  pub grounding_revised : Bool
  pub plan_nudged : Bool
  pub critical_errors : ℕ
  pub plan_items : List PlanItem
  pub tokens_used : OracleUsage
  pub tokens_by_model : GoMap OracleUsage
  pub response_delivered : Bool
  pub tool_results : GoMap MemoEntry

-- The fields of the target's result that a handoff takes over.
pub record Transferred : Type 0 where
  pub final_response : String
  pub structured : String
  pub tokens_used : OracleUsage

pub data HandoffOutcome : Type 0 where
  transferred : Transferred → HandoffOutcome
  refused : ActionErr → HandoffOutcome

-- The service. Its ports answer as they like, also in view of all that was done before: an oracle with
-- none is an error. `execute_all` is the executor's ExecuteAll, with the session that the Actions leave. An option
-- that is none, and a store or service that is not wired, are nil. The rest are functions of Go's
-- libraries (JSON, regular expressions, case folding, formatting) under the source's names for their uses.
pub record ReasoningService : Type 0 where
  pub max_iterations : ℕ
  pub max_iterations_message : String
  pub max_actions_per_cycle : ℕ
  pub progress_policy : ProgressPolicy
  pub compression_policy : CompressionPolicy
  pub reflection_policy : ReflectionPolicy
  pub grounding_policy : GroundingPolicy
  pub plan_policy : PlanPolicy
  pub handoff_policy : HandoffPolicy
  pub summon_service : Option (Outside → SummonService)
  pub has_handoff : Bool
  pub has_checkpoints : Bool
  pub get_provider : String → Bool
  pub generate_response : OracleRequest → Outside → Option OracleResponse
  pub get_action : String → Option String
  pub execute_all : List ToolCall → Option Memory → Outside → List ActionResult × Option Memory
  pub hand_off : String → ReasoningRequest → Outside → HandoffOutcome
  pub rebuild_for_topic : Option (String → String → Outside → Option Memory)
  pub raise_takeover : Option (String → Outside → Bool)
  pub cancelled : Outside → Bool
  pub checkpoint_load_up : Outside → Bool
  pub checkpoint_save_up : Outside → Bool
  pub checkpoint_delete_up : Outside → Bool
  pub marshal : TurnSnapshot → Option String
  pub unmarshal : String → Option TurnSnapshot
  pub call_signature : ToolCall → String
  pub tool_result_limits : ToolResultLimits
  pub result_limit : String → Option ToolResultLimits
  pub parse_reflection_verdict : String → Bool × List String
  pub parse_citations : String → List String
  pub extract_lore_chunk_ids : String → List String
  pub to_lower : String → String
  pub supports_structured : String → Bool
  pub schema_fault : Value → String → Option String
  pub structured_instruction : Value → String
  pub plan_fault : GoMap Value → String
  pub error_text : ActionErr → String
  pub show : Value → String
  pub sprintf : String → ℕ → String
