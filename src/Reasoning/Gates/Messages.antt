-- ===== src/Reasoning/Gates/Messages.antt =====
-- What a gate decides, and the messages that it sends back (plan_scratchpad.go, reflection.go and
-- grounding.go of internal/implementation/orchestrator).
use eywa.Prelude.{
  Bool, true, false, Option, some, List, [], ◌∷◌, String, concat, contains, if◌then◌else◌,
}
use eywa.Prelude.Maps.{get}
use eywa.Entities.Value.{Value, text}
use eywa.Reasoning.Oracle.{OracleMessage}
use eywa.Reasoning.Turn.{ReasoningRequest, TurnState}
use eywa.Reasoning.Answer.{user_message, join}

unfoldable pub plan_nudge_message : List String → OracleMessage
unfolding join
plan_nudge_message open_items = user_message (
    concat "These plan items are still open: " (
      concat (join "; " open_items)
        ". Complete or abandon them via update_plan, or confirm you are done."))

unfoldable pub reflection_revision_message : List String → OracleMessage
unfolding join
reflection_revision_message issues = user_message (
    concat "A self-review found issues with your draft answer: " (
      concat (join "; " issues)
        ". Revise your answer to address them. Do not mention this review to the user."))

unfoldable pub citation_revision_message : OracleMessage
citation_revision_message =
    user_message
      "Your answer must cite the retrieved sources using [chunk:<id>] for each factual claim. Revise it to cite the sources you actually used. Do not mention this instruction to the user."

-- What a gate decides: on to the next one, another iteration, or the end of the turn.
pub data Gate : Type 0 where
  pass revise deliver : TurnState → Gate

abbrev pub and_pass : Gate → (TurnState → Gate) → Gate
and_pass (pass ts) next = next ts
and_pass (revise ts) next = revise ts
and_pass (deliver ts) next = deliver ts

-- ts.workingContext[len-1].Content = content
unfoldable pub set_last : String → List OracleMessage → List OracleMessage
set_last content [] = []
set_last content (m ∷ ms) = elim ms [
  | [] ↦ record m { content = content } ∷ []
  | m' ∷ rest ↦ m ∷ set_last content ms
]

abbrev pub text_of : Option Value → String
text_of (some (text s)) = s
text_of _ = ""

unfoldable pub retrieved_lore_context : ReasoningRequest → String
retrieved_lore_context req = text_of (get req.event.knowledge "_lore_context")

unfoldable pub keep_valid_citations : List String → List String → List String
keep_valid_citations [] valid = []
keep_valid_citations (id ∷ ids) valid =
    let rest = keep_valid_citations ids valid in if contains valid id then id ∷ rest else rest

abbrev pub is_nil {ℓ} : {A : Type ℓ} → List A → Bool
is_nil [] = true
is_nil (x ∷ xs) = false
