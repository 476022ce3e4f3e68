-- ===== src/Reasoning/Shaping.antt =====
-- The shaping of an Action's result before it enters the context: shapeResultForContext and
-- summarizeToolResult of internal/implementation/orchestrator/tool_shaping.go, limitsFor of reasoning_service.go.
use eywa.Prelude.{ℕ, false, Option, none, some, [], ◌∷◌, String, is_empty, if◌then◌else◌}
use eywa.Chunking.Windows.{trim_space}
use eywa.Reasoning.Oracle.{OracleUsage, OracleRequest, OracleResponse}
use eywa.Reasoning.Limits.{
  ToolResultLimits, ToolShapeStrategy, truncate, summarize, fits, truncate_tool_result,
}
use eywa.Reasoning.Turn.{Outside, ReasoningRequest, ReasoningService}
use eywa.Reasoning.Answer.{user_message}

abbrev limits_or : ToolResultLimits → Option ToolResultLimits → ToolResultLimits
limits_or l none = l
limits_or l (some own) = own

abbrev no_tokens : OracleUsage
no_tokens = record { prompt_tokens = 0; completion_tokens = 0; total_tokens = 0 }

module _ (svc : ReasoningService) where
  unfoldable pub limits_for : String → ToolResultLimits
  limits_for name = limits_or svc.tool_result_limits (svc.result_limit name)

  abbrev truncation_notice : ℕ → String
  truncation_notice omitted =
      svc.sprintf "\n...[result truncated: %d chars omitted; refine your query for detail]...\n"
        omitted

  abbrev summary_request : ReasoningRequest → String → OracleRequest
  summary_request req full = record {
    model = req.spirit.model_config.model;
    system_prompt =
        "Summarize the following tool result for an AI agent that will continue a task. Preserve every concrete fact, identifier, numeric value, and error. Be dense and drop filler. Output only the summary.";
    messages = user_message full ∷ [];
    tools = [];
    with_format = false;
  }

  -- An answer that is an error or blank leaves the truncation, and its tokens are not counted.
  abbrev summarized :
      Option OracleResponse → String → ToolResultLimits → Option String × OracleUsage
  summarized none full limits = (truncate_tool_result truncation_notice full limits, no_tokens)
  summarized (some resp) full limits =
      if is_empty (trim_space resp.content)
      then (truncate_tool_result truncation_notice full limits, no_tokens)
      else (truncate_tool_result truncation_notice resp.content limits, resp.tokens_used)

  abbrev shaped_by :
      ToolShapeStrategy
      → ReasoningRequest
      → String
      → ToolResultLimits
      → Outside
      → Option String × OracleUsage
  shaped_by truncate req full limits o =
      (truncate_tool_result truncation_notice full limits, no_tokens)
  shaped_by summarize req full limits o =
      summarized (svc.generate_response (summary_request req full) o) full limits

  -- The text for the context, or none for a panic, and the tokens that it cost.
  unfoldable pub shape_result_for_context :
      ReasoningRequest → String → String → Outside → Option String × OracleUsage
  unfolding limits_for truncate_tool_result trim_space
  shape_result_for_context req name full o =
      let limits = limits_for name in
      if fits limits full
      then (some full, no_tokens)
      else shaped_by limits.strategy req full limits o
