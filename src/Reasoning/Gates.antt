-- ===== src/Reasoning/Gates.antt =====
-- The gates before an answer is final: finalizeTerminalResponse of reasoning_loop.go, with reflection.go,
-- grounding.go and maybeHandoff of handoff.go (internal/implementation/orchestrator).
pub mod Messages
pub mod Review
pub mod Grounding
unfoldable pub use Messages.*
unfoldable pub use Review.*
unfoldable pub use Grounding.*
use eywa.Prelude.{
  ℕ, zero, suc, Bool, true, false, ◌&&◌, ◌||◌, not, Option, none, some, List, [], ◌∷◌, ◌++◌, length,
  String, concat, contains, is_empty, ltb, leb, if◌then◌else◌,
}
use eywa.Prelude.Maps.{get}
use eywa.Entities.Value.{Value, text}
use eywa.Entities.Policies.{
  ReflectionPolicy, GroundingPolicy, GroundingViolationAction, revise_once, annotate, block,
  Confidence,
}
use eywa.Reasoning.Confidence.{matches_uncertainty}
use eywa.Reasoning.Oracle.{OracleMessage, OracleRequest, OracleResponse, accumulate_tokens}
use eywa.Reasoning.Confidence.{ConfidenceSignals, maybe_handoff, Verdict}
use eywa.Reasoning.Plan.{PlanItem, PlanState, incomplete}
use eywa.Reasoning.Turn.{ReasoningRequest, ReasoningService, TurnState}
use eywa.Reasoning.Calls.{append_message}
use eywa.Reasoning.Answer.{
  tiering_active, accrue_tokens, ask, user_message, join, or_primary, call_llm, finalize_structured,
}

module _ (svc : ReasoningService) where
  abbrev plan_items : TurnState → List PlanItem
  plan_items ts = elim ts.plan [ none ↦ ts.result.plan | some p ↦ p.items ]

  -- What a finished turn has in common: the answer, the session and the plan.
  abbrev pub with_answer : String → TurnState → TurnState
  with_answer response ts = record ts {
    result = record (ts.result) {
      final_response = response;
      final_session = ts.req.session;
      plan = plan_items ts;
    };
  }

  unfoldable pub confidence_signals : String → TurnState → ConfidenceSignals
  confidence_signals content ts = record {
    critical_errors = ts.critical_errors;
    reflection_failed =
        ts.reflection.enabled
        && ltb 0 ts.reflection.max_rounds
        && leb ts.reflection.max_rounds ts.reflection_rounds;
    grounded = not (is_nil ts.result.citations);
    uncertain_content = matches_uncertainty svc.to_lower content ts.handoff.uncertainty_markers;
  }

  abbrev sink_answer : TurnState → Option Bool
  sink_answer ts = elim svc.raise_takeover [
    | none ↦ none
    | some raise ↦ some (raise ts.req.event.memory_key ts.outside)
  ]

  abbrev pub with_confidence : Option Confidence → TurnState → TurnState
  with_confidence none ts = ts
  with_confidence (some c) ts = record ts { result = record (ts.result) { confidence = c } }

  abbrev pub taken_over : Option String → TurnState → Gate
  taken_over none ts = pass ts
  taken_over (some message) ts =
      let ts' = with_answer message ts in
      deliver (record ts' {
        result = record (ts'.result) { handoff_raised = true };
        outside = record (ts.outside) {
          takeovers = ts.req.event.memory_key ∷ ts.outside.takeovers;
        };
      })

  abbrev pub judged : Verdict → TurnState → Gate
  judged v ts = taken_over v.holding (with_confidence v.confidence ts)

  abbrev pub verdict_of : String → TurnState → Verdict
  verdict_of content ts =
      maybe_handoff ts.req.spirit ts.handoff (confidence_signals content ts) (sink_answer ts)

  unfoldable pub handoff_gate : String → TurnState → Gate
  unfolding maybe_handoff confidence_signals
  handoff_gate content ts =
      if undelivered svc ts ts.handoff.enabled then judged (verdict_of content ts) ts else pass ts

  abbrev answered : String × TurnState → TurnState
  answered (response, ts) = with_answer response ts

  abbrev pub formatted : Option Value → String → TurnState → Gate
  formatted none content ts = deliver (with_answer content ts)
  formatted (some schema) content ts =
      if ts.result.response_delivered
      then deliver (with_answer content ts)
      else deliver (answered (finalize_structured svc schema ts))

  unfoldable pub deliver_answer : String → TurnState → Gate
  unfolding finalize_structured
  deliver_answer content ts = formatted ts.req.response_format content ts

  -- The gates after the answer of the primary model is there.
  abbrev pub gates : String → TurnState → Gate
  gates content ts = and_pass (plan_gate svc ts) (λ ts'. and_pass (reflection_gate svc ts') (λ ts''.
      and_pass (grounding_gate svc content ts'')
        (λ ts3. and_pass (handoff_gate content ts3) (deliver_answer content))))

  unfoldable pub finalize_terminal_response : OracleResponse → TurnState → Gate
  unfolding resynthesize plan_gate reflection_gate grounding_gate handoff_gate deliver_answer
  finalize_terminal_response resp ts =
      let drafted = resynthesize svc resp.content ts in gates drafted.0 drafted.1
