-- ===== src/Tests/Reasoning.antt =====
-- The policies of the reasoning service on concrete inputs.
use eywa.Prelude.{
  ◌≡◌, ◌≤◌, ◌<◌, ◌+◌, ◌*◌, refl, suc, true, false, none, some, List, [], ◌∷◌, map, String, length,
  arith,
}
use eywa.Prelude.Int.{pos}
use eywa.Prelude.Maps.{insert, lookup}
use eywa.Entities.Pulse.{Pulse}
use eywa.Entities.Value.{text}
use eywa.Engine.State.{Scout}
use eywa.Engine.Routing.{run_scouts}
use eywa.Reasoning.Stall.{new_stall_tracker, survives}
use eywa.Reasoning.Stall.Laws.{survives-bound}
use eywa.Reasoning.Plan.{render, PlanItem, pending, done, new_plan_state, incomplete}
use eywa.Reasoning.Plan.Laws.{updates, updates-bounded}
use eywa.Reasoning.Oracle.{ToolCall}
use eywa.Reasoning.Dispatch.{
  ActionResult, execute_actions_with_plan, in_turn, execute_actions_with_plan-in_turn,
}
use eywa.Reasoning.Confidence.{
  matches_uncertainty, ConfidenceSignals, confidence_rank, score_confidence, score_confidence_mono,
}
use eywa.Reasoning.Transfer.{
  Transfer, build_child_pulse, validate_handoff, transfers, transfers-bounded, max_handoffs_of,
}
use eywa.Stores.Handoff.{get_active_spirit, set_active_spirit}
use eywa.Reasoning.Handoff.{Ports, handoff, Pinned, handoff-pins}
use eywa.Tests.Fixtures.{hello, guide}

-- Two new calls, then one of them again.
two_rounds : survives (("a" ∷ "b" ∷ []) ∷ ("a" ∷ []) ∷ []) (new_stall_tracker (pos 2)) ≡ true
unfolding survives new_stall_tracker
two_rounds = refl

survives-bound_example : 2 < suc 2 * 2
survives-bound_example =
    survives-bound ("a" ∷ "b" ∷ []) (("a" ∷ "b" ∷ []) ∷ ("a" ∷ []) ∷ []) (pos 2)
      ((refl, (refl, tt)), ((refl, tt), tt)) refl two_rounds

abbrev pay : PlanItem
pay = record { title = "pay"; status = pending }

abbrev ship : PlanItem
ship = record { title = "ship"; status = done }

updates-bounded_example :
    (length (updates ((pay ∷ ship ∷ []) ∷ []) (new_plan_state (pos 1))).items
      ≤ (new_plan_state (pos 1)).max_items)
    × (length (incomplete (updates ((pay ∷ ship ∷ []) ∷ []) (new_plan_state (pos 1))).items)
        ≤ (new_plan_state (pos 1)).max_items)
updates-bounded_example = updates-bounded (pos 1) ((pay ∷ ship ∷ []) ∷ [])

abbrev clean : ConfidenceSignals
clean = record {
  critical_errors = 0;
  reflection_failed = false;
  grounded = true;
  uncertain_content = false;
}

score_confidence_mono_example :
    confidence_rank (score_confidence (record clean { critical_errors = 2 }))
    ≤ confidence_rank (score_confidence clean)
score_confidence_mono_example = score_confidence_mono clean 2 (omega arith)

-- A scout that notes the customer's tier.
abbrev tier_scout : Scout
tier_scout = record {
  is_applicable = λ e. true;
  harvest = λ e. record e { knowledge = some (("tier", text "gold") ∷ []) };
}

abbrev one_hop : List Transfer
one_hop = record { target = "expert"; spirit = guide; scouts = tier_scout ∷ [] } ∷ []

abbrev handed : Pulse
handed = run_scouts (tier_scout ∷ []) (build_child_pulse hello)

hops : transfers one_hop hello ≡ some handed
unfolding transfers validate_handoff
hops = refl

within : max_handoffs_of guide.handoff_config ≤ 3
unfolding max_handoffs_of
within = omega arith

transfers-bounded_example : (handed.handoff_count ≡ 0 + 1) × (handed.handoff_count ≤ 3)
transfers-bounded_example =
    transfers-bounded one_hop hello handed 3 ((within, (λ e. refl, tt)), tt) (omega arith) hops

abbrev ran : ToolCall → ActionResult
ran c = record {
  action_name = c.name;
  result = "done";
  error = none;
  is_critical = false;
  is_voice_delivery = false;
}

abbrev no_plan : List PlanItem → String
no_plan its = ""

abbrev two_calls : List ToolCall
two_calls =
    record { id = "1"; name = "search"; arguments = none; is_critical_override = none }
    ∷ record { id = "2"; name = "update_plan"; arguments = none; is_critical_override = none }
    ∷ []

execute_actions_with_plan-in_turn_example :
    (execute_actions_with_plan
      (λ v. "")
      no_plan
      (λ m. "bad")
      (λ calls. some (map ran calls))
      two_calls
      (some (new_plan_state (pos 3)))).0
    ≡ some (
        in_turn
          (λ v. "")
          no_plan
          (λ m. "bad")
          (λ calls. some (map ran calls))
          ran
          two_calls
          (new_plan_state (pos 3)))
execute_actions_with_plan-in_turn_example =
    execute_actions_with_plan-in_turn (λ v. "") no_plan (λ m. "bad") (λ calls. some (map ran calls))
      ran two_calls (new_plan_state (pos 3)) (λ l. refl)

-- The target hands the conversation back before it fails.
abbrev desk : Ports
desk = record {
  find_active_by_name = λ s. some guide;
  get_scouts = λ l. none;
  archivist = none;
  reason = λ e sp i pins. (none, (set_active_spirit "whatsapp:569" "guide" pins).1);
}

handoff-pins_example :
    Pinned desk "expert" hello guide none [] [] (handoff desk "expert" hello guide none [] [])
handoff-pins_example = handoff-pins desk "expert" hello guide none [] []

handed_back :
    get_active_spirit "whatsapp:569" (handoff desk "expert" hello guide none [] []).1 ≡ "guide"
unfolding handoff validate_handoff get_active_spirit set_active_spirit insert lookup
handed_back = refl

plan_shown : render (pay ∷ ship ∷ []) ≡ "\n\n--- CURRENT PLAN ---\n[ ] pay\n[x] ship"
unfolding render
plan_shown = refl

unsure : matches_uncertainty (λ s. s) "i am not sure" ("" ∷ "not sure" ∷ []) ≡ true
unfolding matches_uncertainty
unsure = refl
