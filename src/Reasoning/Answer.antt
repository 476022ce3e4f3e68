-- ===== src/Reasoning/Answer.antt =====
-- The calls of an oracle: callLLM, synthesizeFinal, finalizeStructured and the accounting of tokens
-- (reasoning_service.go and model_tiering.go of internal/implementation/orchestrator).
use eywa.Prelude.{
  ℕ, zero, suc, Bool, false, ◌&&◌, not, Option, none, some, List, [], ◌∷◌, String, concat, str_eq,
  is_empty, if◌then◌else◌,
}
use eywa.Prelude.Maps.{entries, insert, get}
use eywa.Entities.Value.{Value}
use eywa.Reasoning.Oracle.{
  OracleMessage, OracleUsage, OracleRequest, OracleResponse, accumulate_tokens,
}
use eywa.Reasoning.Turn.{ReasoningRequest, ReasoningResult, ReasoningService, TurnState}

unfoldable pub tiering_active : ReasoningRequest → Bool
tiering_active req =
    let m = req.spirit.model_config in
    not (is_empty m.draft_model) && not (str_eq m.draft_model m.model)

abbrev usage_or_zero : Option OracleUsage → OracleUsage
usage_or_zero none = record { prompt_tokens = 0; completion_tokens = 0; total_tokens = 0 }
usage_or_zero (some u) = u

unfoldable pub accumulate_model_tokens : String → OracleUsage → ReasoningResult → ReasoningResult
unfolding accumulate_tokens
accumulate_model_tokens model usage r = record r {
  tokens_used = accumulate_tokens r.tokens_used usage;
  tokens_by_model = some (
      insert model (accumulate_tokens (usage_or_zero (get r.tokens_by_model model)) usage)
        (entries r.tokens_by_model));
}

unfoldable pub accrue_tokens : String → OracleUsage → TurnState → TurnState
unfolding tiering_active accumulate_model_tokens accumulate_tokens
accrue_tokens model usage ts =
    let name : String = (if is_empty model then ts.req.spirit.model_config.model else model) in
    record ts {
      result =
          (if tiering_active ts.req
            then accumulate_model_tokens name usage ts.result
            else record (ts.result) {
              tokens_used = accumulate_tokens ts.result.tokens_used usage;
            });
    }

abbrev pub ask : OracleRequest → TurnState → TurnState
ask q ts = record ts { outside = record (ts.outside) { prompts = q ∷ ts.outside.prompts } }

abbrev pub user_message : String → OracleMessage
user_message content = record {
  role = "user";
  content = content;
  tool_calls = [];
  tool_call_id = "";
  tool_name = "";
  is_error = false;
}

unfoldable pub join : String → List String → String
join sep [] = ""
join sep (s ∷ ss) = elim ss [ [] ↦ s | s' ∷ rest ↦ concat s (concat sep (join sep ss)) ]

abbrev pub or_primary : String → String → String
or_primary model primary = if is_empty model then primary else model

-- The request of callLLM. An empty model is the Spirit's primary one.
abbrev pub request_of :
    ReasoningRequest → List OracleMessage → List String → String → String → Bool → OracleRequest
request_of req messages actions hint model with_format = record {
  model = or_primary model req.spirit.model_config.model;
  system_prompt = concat req.system_prompt hint;
  messages = messages;
  tools = actions;
  with_format = with_format;
}

module _ (svc : ReasoningService) where
  unfoldable pub call_llm :
      TurnState
      → List OracleMessage
      → List String
      → String
      → String
      → Bool
      → Option OracleResponse × TurnState
  call_llm ts messages actions hint model with_format =
      let q = request_of ts.req messages actions hint model with_format in
      (svc.generate_response q ts.outside, ask q ts)

  abbrev pub synthesized : Option OracleResponse × TurnState → String × TurnState
  synthesized (none, ts) = (svc.max_iterations_message, ts)
  synthesized (some resp, ts) = (resp.content, accrue_tokens "" resp.tokens_used ts)

  unfoldable pub synthesize_final : TurnState → String × TurnState
  unfolding call_llm
  synthesize_final ts = synthesized (
      call_llm ts ts.working_context []
        "\n\n--- FINAL SYNTHESIS ---\nYou have reached the limit of useful steps. Provide the best possible answer to the user using the information gathered so far. Do not request any more actions."
        "" false)

  abbrev pub payload_of : OracleResponse → String
  payload_of resp = if is_empty resp.structured then resp.content else resp.structured

  -- The attempts that are left, with the hint of the next and the payload of the last.
  unfoldable pub structured_from :
      ℕ → Value → Bool → String → String → String → TurnState → String × TurnState
  unfolding call_llm accrue_tokens
  structured_from zero schema native base hint last ts = (last, ts)
  structured_from (suc left) schema native base hint last ts =
      let asked = call_llm ts ts.working_context [] hint "" native in
      elim asked.0 [
        | none ↦ (last, asked.1)
        | some resp ↦
            let ts' = accrue_tokens "" resp.tokens_used asked.1 in
            let payload = payload_of resp in
            elim (svc.schema_fault schema payload) [
              | none ↦
                  (payload, record ts' { result = record (ts'.result) { structured = payload } })
              | some fault ↦
                  structured_from left schema native base
                    (concat base (
                      concat "\n\nYour previous answer did not match the required schema: "
                        (concat fault "\nReturn ONLY corrected JSON.")))
                    payload ts'
            ]
      ]

  unfoldable pub finalize_structured : Value → TurnState → String × TurnState
  unfolding structured_from
  finalize_structured schema ts =
      let native = svc.supports_structured ts.req.spirit.model_config.model in
      let base : String = (if native then "" else svc.structured_instruction schema) in
      structured_from 2 schema native base base "" ts
