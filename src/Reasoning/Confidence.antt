-- ===== src/Reasoning/Confidence.antt =====
-- The confidence of a turn and the raising of a human takeover
-- (internal/implementation/orchestrator/handoff.go). Lower-casing and the search for markers are given
-- by `uncertain`; the sink answers whether the takeover was raised.
use eywa.Prelude.{
  ℕ, zero, suc, ◌+◌, ◌≤◌, Bool, true, false, not, ◌&&◌, ◌||◌, List, [], ◌∷◌, Option, none, some,
  String, is_empty, leb, if◌then◌else◌, arith,
}
use eywa.Prelude.Int.{ℤ, pos, negsuc, sub_ℕ}
use eywa.Entities.Policies.{
  Confidence, unset, low, medium, high, HandoffMode, raise_vigil, annotate_only, HandoffPolicy,
}
use eywa.Engine.Condition.{contains_text}
use eywa.Entities.Spirit.{Spirit, is_conversational}

unfoldable pub confidence_rank : Confidence → ℕ
confidence_rank low = 0
confidence_rank medium = 1
confidence_rank high = 2
confidence_rank unset = 1

pub record ConfidenceSignals : Type 0 where
  pub critical_errors : ℕ
  pub reflection_failed : Bool
  pub grounded : Bool
  pub uncertain_content : Bool

abbrev bit : Bool → ℕ → ℕ
bit true n = n
bit false n = 0

-- The switch on the score: at least 0, -1, or below.
unfoldable pub band : ℤ → Confidence
band (pos n) = high
band (negsuc zero) = medium
band (negsuc (suc n)) = low

unfoldable pub score_confidence : ConfidenceSignals → Confidence
unfolding band
score_confidence s = band (
    sub_ℕ (bit s.grounded 1)
      (s.critical_errors + bit s.reflection_failed 2 + bit s.uncertain_content 1))

abbrev default_holding_message : String
default_holding_message =
    "Thanks for your patience — a member of our team will follow up with you shortly."

abbrev medium_by_default : Confidence → Confidence
medium_by_default unset = medium
medium_by_default c = c

abbrev annotates : HandoffMode → Bool
annotates annotate_only = true
annotates raise_vigil = false

-- What a turn is left with: the recorded confidence, and the holding message where a human takes over.
pub record Verdict : Type 0 where
  pub confidence : Option Confidence
  pub holding : Option String

-- `sink` is none where no sink is wired, else whether it raised the takeover.
unfoldable pub maybe_handoff : Spirit → HandoffPolicy → ConfidenceSignals → Option Bool → Verdict
unfolding score_confidence confidence_rank
maybe_handoff sp p s sink =
    let c = score_confidence s in
    let keep : Verdict = record { confidence = some c; holding = none } in
    let message =
      (if is_empty p.holding_message then default_holding_message else p.holding_message) in
    if not (is_conversational sp)
    then record { confidence = none; holding = none }
    else if leb (confidence_rank (medium_by_default p.min_confidence)) (confidence_rank c)
    then keep
    else if annotates p.mode
    then keep
    else (elim sink [
      | none ↦ keep
      | some false ↦ keep
      | some true ↦ record { confidence = some c; holding = some message }
    ])

-- More errors never raise the confidence, whatever the other signals are.
pub score_confidence_mono :
    (s : ConfidenceSignals) (n : ℕ)
    → s.critical_errors ≤ n
    → confidence_rank (score_confidence (record s { critical_errors = n }))
      ≤ confidence_rank (score_confidence s)
unfolding score_confidence confidence_rank
score_confidence_mono s n h = ground arith

-- `lower` is strings.ToLower.
unfoldable pub matches_uncertainty : (String → String) → String → List String → Bool
unfolding contains_text
matches_uncertainty lower content [] = false
matches_uncertainty lower content (m ∷ ms) =
    not (is_empty m) && contains_text (lower content) (lower m)
    || matches_uncertainty lower content ms
