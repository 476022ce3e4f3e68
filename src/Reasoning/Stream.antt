-- ===== src/Reasoning/Stream.antt =====
-- Streamed answers: assembleStream and the choice of invokeProvider (internal/implementation/orchestrator,
-- streaming.go and reasoning_service.go). A channel is the list of its events until it is closed.
pub mod Laws
use eywa.Prelude.{Bool, true, false, Option, none, some, List, [], ◌∷◌, String, concat}
use eywa.Reasoning.Oracle.{ToolCall, OracleUsage, OracleRequest, OracleResponse}

pub data StreamEvent : Type 0 where
  delta : String → StreamEvent
  done : List ToolCall → OracleUsage → String → StreamEvent
  error : StreamEvent

abbrev pub empty_response : OracleResponse
empty_response = record {
  content = "";
  tool_calls = [];
  stop_reason = "";
  tokens_used = record { prompt_tokens = 0; completion_tokens = 0; total_tokens = 0 };
  structured = "";
}

abbrev pub emitting :
    String → Option OracleResponse × List String → Option OracleResponse × List String
emitting d (resp, emitted) = (resp, d ∷ emitted)

-- The loop, with the content that was written; of an error there is no response. The deltas are those that
-- are forwarded, in their order.
unfoldable pub assemble_from :
    String → OracleResponse → List StreamEvent → Option OracleResponse × List String
assemble_from content resp [] = (some (record resp { content = content }), [])
assemble_from content resp (delta d ∷ events) =
    emitting d (assemble_from (concat content d) resp events)
assemble_from content resp (done calls usage reason ∷ events) =
    assemble_from content
      (record resp { tool_calls = calls; tokens_used = usage; stop_reason = reason }) events
assemble_from content resp (error ∷ events) = (none, [])

unfoldable pub assemble_stream : List StreamEvent → Option OracleResponse × List String
unfolding assemble_from
assemble_stream events = assemble_from "" empty_response events

-- A provider that streams answers none where the stream does not start.
pub record Provider : Type 0 where
  pub generate_response : OracleRequest → Option OracleResponse
  pub generate_stream : Option (OracleRequest → Option (List StreamEvent))

abbrev pub started_stream : Option (List StreamEvent) → Option OracleResponse × List String
started_stream none = (none, [])
started_stream (some events) = assemble_stream events

abbrev pub streamed :
    Option (OracleRequest → Option (List StreamEvent))
    → Provider
    → OracleRequest
    → Option OracleResponse × List String
streamed none p q = (p.generate_response q, [])
streamed (some stream) p q = started_stream (stream q)

-- Whether the caller wants events, with what it gets of them.
unfoldable pub invoke_provider :
    Bool → Provider → OracleRequest → Option OracleResponse × List String
unfolding assemble_stream
invoke_provider false p q = (p.generate_response q, [])
invoke_provider true p q = streamed p.generate_stream p q
