-- ===== src/Reasoning/Iteration.antt =====
-- One iteration of the reasoning loop: runIteration and executeIterationActions
-- (internal/implementation/orchestrator/reasoning_loop.go), with what they call of reasoning_service.go. The
-- buffered path: no events are emitted.
pub mod Outcome
pub mod Topic
pub mod Peer
pub mod Compress
unfoldable pub use Outcome.*
unfoldable pub use Topic.*
unfoldable pub use Peer.*
unfoldable pub use Compress.*
use eywa.Prelude.{
  ℕ, suc, ◌+◌, Bool, true, false, ◌&&◌, ◌||◌, not, Option, none, some, List, [], ◌∷◌, ◌++◌, length,
  map, drop, String, concat, str_eq, is_empty, ltb, if◌then◌else◌,
}
use eywa.Prelude.Maps.{GoMap, get, put_all}
use eywa.Entities.Value.{Value, text}
use eywa.Entities.Policies.{CompressionPolicy, ReasoningOverrides}
use eywa.Entities.Spirit.{Spirit, has_handoff}
use eywa.Entities.Memory.{Memory}
use eywa.Errors.{Err, plain, wrapped, err_tool_budget_exceeded}
use eywa.Errors.Action.{ActionErr, action, business, is_business_error}
use eywa.Reasoning.Plan.{render}
use eywa.Reasoning.Oracle.{ToolCall, OracleUsage, OracleResponse}
use eywa.Reasoning.Stall.{observe}
use eywa.Reasoning.Compression.{Working, end_iteration}
use eywa.Reasoning.Dispatch.{ActionResult}
use eywa.Reasoning.Turn.{
  Outside, ReasoningRequest, ReasoningService, TurnState, HandoffOutcome, transferred, refused,
}
use eywa.Reasoning.Calls.{
  append_message, log_call, action_error_message, Processed, process_action_calls,
}
use eywa.Reasoning.Answer.{accrue_tokens, call_llm, synthesize_final, user_message}
use eywa.Reasoning.Gates.{finalize_terminal_response, Gate, pass, revise, deliver}
use eywa.Reasoning.Setup.{new_iter_log, topic_of, override, chat_messages_to_llm, is_nil}

module _ (svc : ReasoningService) where
  abbrev pub synthesized_step : String → String × TurnState → Step
  synthesized_step e (response, ts) =
      finished
        (ends_with svc e (record ts { result = record (ts.result) { final_response = response } }))

  abbrev pub stalled : TurnState → Step
  stalled ts =
      synthesized_step
        (svc.sprintf "reasoning stalled at iteration %d; forced final synthesis"
          ts.result.iterations_used)
        (synthesize_final svc ts)

  -- After the calls of an iteration have been handled without an error.
  unfoldable pub advance : List ToolCall → TurnState → Step
  unfolding handle_topic_switch observe synthesize_final compress_context
  advance calls ts =
      let switched = handle_topic_switch svc ts in
      let seen = observe (map svc.call_signature calls) switched.stall in
      let noted = record switched { stall = seen.1 } in
      if switched.unwinding
      then panicked switched
      else if seen.0
      then stalled noted
      else compress_context svc noted

  -- What the caller of processActionCalls writes back before it looks at the error.
  abbrev pub noted_outcome : Processed → TurnState
  noted_outcome p = record (p.state) {
    banned_signatures = p.banned ++ p.state.banned_signatures;
    critical_errors =
        (if not (is_nil p.banned) || p.infra_terminal
          then suc p.state.critical_errors
          else p.state.critical_errors);
    infra_terminal = p.state.infra_terminal || p.infra_terminal;
  }

  abbrev pub after_outcome : Option Err → List ToolCall → TurnState → Step
  after_outcome none calls ts = advance calls ts
  after_outcome (some e) calls ts = failed e (
      ends_with svc (svc.sprintf "Critical Action failed at iteration %d" ts.result.iterations_used)
        ts)

  unfoldable pub after_calls : List ToolCall → Processed → Step
  unfolding advance
  after_calls calls p =
      if p.state.unwinding then panicked p.state else after_outcome p.error calls (noted_outcome p)

  abbrev pub over_budget : ℕ → Bool
  over_budget total = ltb 0 svc.max_actions_per_cycle && ltb svc.max_actions_per_cycle total

  abbrev pub counted : List ToolCall → TurnState → TurnState
  counted calls ts = record ts { total_action_calls = ts.total_action_calls + length calls }

  abbrev pub budget_exceeded : TurnState → Step
  budget_exceeded ts =
      failed err_tool_budget_exceeded
        (ends_with svc (svc.sprintf "action budget of %d exceeded" svc.max_actions_per_cycle) ts)

  -- The budget counts every call that the model asked for.
  unfoldable pub regular_calls : List ToolCall → TurnState → Step
  unfolding process_action_calls after_calls
  regular_calls calls ts =
      let ts' = counted calls ts in
      if over_budget ts'.total_action_calls
      then budget_exceeded ts'
      else after_calls calls (process_action_calls svc calls ts')

  abbrev pub routed : Option ToolCall → List ToolCall → TurnState → Step
  routed (some call) calls ts = execute_handoff svc call ts
  routed none calls ts = regular_calls calls ts

  unfoldable pub execute_iteration_actions : List ToolCall → TurnState → Step
  unfolding find_handoff_call execute_handoff regular_calls
  execute_iteration_actions calls ts = routed (find_handoff_call svc ts.req.spirit calls) calls ts

  -- Only the stop reason for tool calls does not end a turn without calls.
  unfoldable pub is_terminal_response : OracleResponse → Bool
  is_terminal_response resp = not (str_eq resp.stop_reason "tool_calls")

  abbrev pub gated : Gate → Step
  gated (pass ts) = finished ts
  gated (revise ts) = again ts
  gated (deliver ts) = finished ts

  -- The answer of the oracle is logged, counted and appended before it is read.
  abbrev pub heard : OracleResponse → TurnState → TurnState
  heard resp ts =
      append_message
        (record {
          role = "assistant";
          content = resp.content;
          tool_calls = resp.tool_calls;
          tool_call_id = "";
          tool_name = "";
          is_error = false;
        })
        (accrue_tokens ts.draft_model resp.tokens_used (record ts {
          iter_log = record (ts.iter_log) {
            oracle_response = resp.content;
            tokens_used = resp.tokens_used;
          };
        }))

  abbrev pub reacted : List ToolCall → OracleResponse → TurnState → Step
  reacted [] resp ts =
      if is_terminal_response resp then gated (finalize_terminal_response svc resp ts) else again ts
  reacted (c ∷ cs) resp ts = execute_iteration_actions (c ∷ cs) ts

  unfoldable pub react : OracleResponse → TurnState → Step
  unfolding accrue_tokens is_terminal_response finalize_terminal_response execute_iteration_actions
  react resp ts = reacted resp.tool_calls resp (heard resp ts)

  abbrev pub answered : Option OracleResponse × TurnState → Step
  answered (none, ts) = failed (wrapped plain) (
      ends_with svc (svc.sprintf "LLM call failed at iteration %d" ts.result.iterations_used)
        (record ts { iter_log = record (ts.iter_log) { errors = suc ts.iter_log.errors } }))
  answered (some resp, ts) = react resp ts

  -- The deferred appendIter.
  abbrev pub append_iter : TurnState → TurnState
  append_iter ts = record ts {
    result = record (ts.result) { iterations = ts.result.iterations ++ ts.iter_log ∷ [] };
  }

  abbrev pub with_log : Step → Step
  with_log (again ts) = again (append_iter ts)
  with_log (finished ts) = finished (append_iter ts)
  with_log (failed e ts) = failed e (append_iter ts)
  with_log (panicked ts) = panicked (append_iter ts)

  abbrev pub active_actions : TurnState → List String
  active_actions ts = if ts.infra_terminal then [] else ts.actions

  abbrev pub closing_hint : TurnState → String
  closing_hint ts =
      concat (elim ts.plan [ none ↦ "" | some p ↦ render p.items ])
        (if ts.infra_terminal
          then "\n\n--- CLOSING INSTRUCTION ---\nA technical error prevented this operation from completing. Apologize to the\nuser and inform them that the service is temporarily unavailable.\nDo not attempt any further actions."
          else "")

  abbrev pub started : ℕ → TurnState → TurnState
  started iteration ts = record ts {
    iter_log = new_iter_log (suc iteration);
    result = record (ts.result) { iterations_used = suc iteration };
  }

  unfoldable pub run_iteration : ℕ → TurnState → Step
  unfolding call_llm react
  run_iteration iteration ts =
      let ts' = started iteration ts in
      if svc.cancelled ts'.outside
      then failed (wrapped plain)
          (ends_with svc (svc.sprintf "context cancelled at iteration %d" (suc iteration)) ts')
      else with_log (
          answered (
            call_llm svc ts' ts'.working_context (active_actions ts') (closing_hint ts')
              ts'.draft_model false))
