-- ===== src/Reasoning/Iteration/Compress.antt =====
-- The compression of the context after an iteration (executeIterationActions in
-- internal/implementation/orchestrator/reasoning_loop.go, summarizeMessages in context_compression.go).
use eywa.Prelude.{Bool, true, false, Option, none, some, [], ◌∷◌, String, if◌then◌else◌}
use eywa.Entities.Policies.{CompressionPolicy, ReasoningOverrides}
use eywa.Reasoning.Oracle.{OracleUsage, OracleResponse}
use eywa.Reasoning.Compression.{Working, end_iteration}
use eywa.Reasoning.Turn.{ReasoningRequest, ReasoningService, TurnState}
use eywa.Reasoning.Answer.{user_message}
use eywa.Reasoning.Setup.{override}
use eywa.Reasoning.Iteration.Outcome.{Step, again, panicked}

module _ (svc : ReasoningService) where
  abbrev pub summary_of : Option OracleResponse → Option (String × OracleUsage)
  summary_of none = none
  summary_of (some resp) = some (resp.content, resp.tokens_used)

  -- summarizeMessages
  abbrev pub summarize : TurnState → String → Option (String × OracleUsage)
  summarize ts rendered = summary_of (
      svc.generate_response
        (record {
          model = ts.req.spirit.model_config.model;
          system_prompt =
              "Compress the following agent tool interactions into a dense evidence ledger. Preserve every concrete fact, identifier, value, decision, and unresolved error. Drop verbosity. Output only a bulleted ledger an agent can act on.";
          messages = user_message rendered ∷ [];
          tools = [];
          with_format = false;
        })
        ts.outside)

  abbrev pub compressed : Option Working → TurnState → Step
  compressed none ts = panicked ts
  compressed (some w) ts = again (record ts {
    working_context = w.messages;
    iter_boundaries = w.boundaries;
    result = record (ts.result) { tokens_used = w.tokens_used };
  })

  abbrev pub compression_of : ReasoningRequest → CompressionPolicy
  compression_of req =
      override (λ (o : ReasoningOverrides). o.compression) req svc.compression_policy

  abbrev pub working_of : TurnState → Working
  working_of ts = record {
    messages = ts.working_context;
    boundaries = ts.iter_boundaries;
    tokens_used = ts.result.tokens_used;
  }

  -- Once the topic has switched, the context is no longer compressed.
  abbrev pub compress_unless : Bool → TurnState → Step
  compress_unless true ts = again ts
  compress_unless false ts =
      compressed
        (end_iteration (summarize ts) (compression_of ts.req) ts.conversation_offset
          (working_of ts))
        ts

  unfoldable pub compress_context : TurnState → Step
  unfolding end_iteration
  compress_context ts =
      if ts.compression_enabled then compress_unless ts.topic_switched ts else again ts
