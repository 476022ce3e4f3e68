-- ===== src/Reasoning/Gates/Grounding.antt =====
-- The check of citations (grounding.go of internal/implementation/orchestrator).
use eywa.Prelude.{
  ℕ, zero, suc, Bool, true, false, ◌||◌, List, length, String, is_empty, leb, if◌then◌else◌,
}
use eywa.Entities.Policies.{GroundingPolicy, GroundingViolationAction, revise_once, annotate, block}
use eywa.Reasoning.Turn.{ReasoningService, TurnState}
use eywa.Reasoning.Calls.{append_message}
use eywa.Reasoning.Gates.Messages.{
  Gate, citation_revision_message, deliver, is_nil, keep_valid_citations, pass,
  retrieved_lore_context, revise,
}
use eywa.Reasoning.Gates.Review.{undelivered}

module _ (svc : ReasoningService) where
  abbrev pub at_least_one : ℕ → ℕ
  at_least_one zero = 1
  at_least_one (suc n) = suc n

  pub blocked_answer : GroundingPolicy → String
  blocked_answer policy =
      if is_empty policy.blocked_message
      then "I don't have enough sourced information to answer that confidently."
      else policy.blocked_message

  abbrev pub with_error : String → TurnState → TurnState
  with_error e ts = record ts { result = record (ts.result) { final_error = e } }

  abbrev pub sent_back : TurnState → TurnState
  sent_back ts = append_message citation_revision_message (record ts { grounding_revised = true })

  abbrev pub with_citations : List String → TurnState → TurnState
  with_citations cited ts = record ts { result = record (ts.result) { citations = cited } }

  -- A draft that cites too few sources.
  unfoldable pub violation : GroundingViolationAction → TurnState → Gate
  unfolding blocked_answer citation_revision_message
  violation block ts = deliver (record ts {
    result = record (ts.result) {
      final_response = blocked_answer ts.grounding;
      final_error = "grounding violation: answer blocked for insufficient citations";
      final_session = ts.req.session;
    };
  })
  violation annotate ts =
      pass (with_error "grounding violation: delivered without sufficient citations" ts)
  violation revise_once ts = if ts.grounding_revised then pass ts else revise (sent_back ts)

  -- Whether there is nothing to cite, whether enough is cited, and what.
  abbrev pub weighed : Bool → Bool → List String → TurnState → Gate
  weighed true enough cited ts = pass ts
  weighed false true cited ts = pass (with_citations cited ts)
  weighed false false cited ts = violation ts.grounding.on_violation ts

  unfoldable pub enforce_grounding : String → TurnState → Gate
  unfolding violation retrieved_lore_context keep_valid_citations
  enforce_grounding draft ts =
      let lore = retrieved_lore_context ts.req in
      let valid = svc.extract_lore_chunk_ids lore in
      let cited = keep_valid_citations (svc.parse_citations draft) valid in
      weighed (is_empty lore || is_nil valid)
        (leb (at_least_one ts.grounding.min_citations) (length cited)) cited ts

  unfoldable pub grounding_gate : String → TurnState → Gate
  unfolding enforce_grounding
  grounding_gate draft ts =
      if undelivered svc ts ts.grounding.enabled then enforce_grounding draft ts else pass ts
