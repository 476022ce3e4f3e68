-- ===== src/Reasoning/Gates/Review.antt =====
-- The answer of the primary model, the nudge to finish the plan, and reflection (reasoning_loop.go and
-- reflection.go of internal/implementation/orchestrator).
use eywa.Prelude.{
  suc, Bool, true, false, ◌&&◌, not, Option, none, some, List, [], ◌∷◌, ◌++◌, String, concat, ltb,
  if◌then◌else◌,
}
use eywa.Entities.Policies.{ReflectionPolicy}
use eywa.Reasoning.Oracle.{OracleRequest, OracleResponse, accumulate_tokens}
use eywa.Reasoning.Plan.{PlanState, incomplete}
use eywa.Reasoning.Turn.{ReasoningService, TurnState}
use eywa.Reasoning.Calls.{append_message}
use eywa.Reasoning.Answer.{
  tiering_active, accrue_tokens, ask, user_message, join, or_primary, call_llm,
}
use eywa.Reasoning.Gates.Messages.{
  Gate, is_nil, pass, plan_nudge_message, reflection_revision_message, revise, set_last,
}

module _ (svc : ReasoningService) where
  -- A gate that acts only while nothing was delivered.
  abbrev pub undelivered : TurnState → Bool → Bool
  undelivered ts wanted = wanted && not ts.result.response_delivered

  abbrev pub resynthesized :
      String → TurnState → Option OracleResponse × TurnState → String × TurnState
  resynthesized content ts (none, asked) = (content, asked)
  resynthesized content ts (some resp, asked) =
      let ts' = accrue_tokens "" resp.tokens_used asked in
      (resp.content, record ts' { working_context = set_last resp.content ts'.working_context })

  -- The answer of the primary model in place of the draft model's.
  unfoldable pub resynthesize : String → TurnState → String × TurnState
  unfolding call_llm accrue_tokens set_last
  resynthesize content ts =
      if undelivered ts (tiering_active ts.req)
      then resynthesized content ts (call_llm svc ts ts.working_context [] "" "" false)
      else (content, ts)

  abbrev pub nudged : List String → TurnState → TurnState
  nudged open_items ts =
      append_message (plan_nudge_message open_items) (record ts { plan_nudged = true })

  abbrev pub nudge : Option PlanState → TurnState → Gate
  nudge none ts = pass ts
  nudge (some p) ts =
      if undelivered ts (not ts.plan_nudged) && not (is_nil (incomplete p.items))
      then revise (nudged (incomplete p.items) ts)
      else pass ts

  unfoldable pub plan_gate : TurnState → Gate
  unfolding incomplete plan_nudge_message
  plan_gate ts = nudge ts.plan ts

  -- The critique of a draft. It fails open.
  abbrev pub critiqued :
      OracleRequest → Option OracleResponse → TurnState → (Bool × List String) × TurnState
  critiqued q none ts = ((true, []), ask q ts)
  critiqued q (some resp) ts = (
    svc.parse_reflection_verdict resp.content,
    record (ask q ts) {
      result = record (ts.result) {
        tokens_used = accumulate_tokens ts.result.tokens_used resp.tokens_used;
      };
    },
  )

  abbrev pub critique_request : ReflectionPolicy → TurnState → OracleRequest
  critique_request policy ts = record {
    model = or_primary policy.model ts.req.spirit.model_config.model;
    system_prompt =
        concat
          "You are reviewing a draft answer an agent is about to send to the user. Check that it directly answers the user's request, that every factual claim is supported by the tool results in the conversation, and that no tool error was ignored."
          (if is_nil policy.criteria then "" else concat "\n- " (join "\n- " policy.criteria));
    messages =
        ts.working_context
        ++ user_message
            "Review the draft answer above against the criteria. Reply with ONLY a JSON object: {\"pass\": boolean, \"issues\": [string]}. Set pass=false only if the draft must be revised."
          ∷ [];
    tools = [];
    with_format = false;
  }

  unfoldable pub reflect : TurnState → (Bool × List String) × TurnState
  unfolding join accumulate_tokens
  reflect ts =
      let q = critique_request ts.reflection ts in
      critiqued q (svc.generate_response q ts.outside) ts

  -- The state in which the loop goes on after a critique that the draft did not pass.
  abbrev pub reworked : List String → TurnState → TurnState
  reworked issues ts = append_message (reflection_revision_message issues) (record ts {
    reflection_rounds = suc ts.reflection_rounds;
    iter_log = record (ts.iter_log) { reflection_issues = issues };
  })

  abbrev pub reflected : (Bool × List String) × TurnState → Gate
  reflected ((true, issues), ts) = pass ts
  reflected ((false, issues), ts) = revise (reworked issues ts)

  unfoldable pub reflection_gate : TurnState → Gate
  unfolding reflect reflection_revision_message
  reflection_gate ts =
      if undelivered ts (ts.reflection.enabled && ltb ts.reflection_rounds ts.reflection.max_rounds)
      then reflected (reflect ts)
      else pass ts
