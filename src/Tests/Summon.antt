-- ===== src/Tests/Summon.antt =====
-- Summons, results and streams on concrete inputs.
use eywa.Prelude.{
  ℕ, ◌+◌, ◌≡◌, ◌≤◌, refl, true, false, Option, none, some, List, [], ◌∷◌, map, length, String,
  arith,
}
use eywa.Prelude.Int.{pos, negsuc}
use eywa.Prelude.Maps.{insert, merge}
use eywa.Entities.Value.{text}
use eywa.Entities.Memory.{Memory}
use eywa.Entities.Pulse.{Pulse}
use eywa.Entities.Spirit.{Spirit, orchestrator}
use eywa.Engine.State.{Scout}
use eywa.Engine.Routing.{run_scouts}
use eywa.Reasoning.Oracle.{ToolCall, OracleRequest, OracleResponse}
use eywa.Reasoning.Dispatch.{ActionResult}
use eywa.Reasoning.Executor.{Action, ActionRetryConfig, done, execute_one, execute_all}
use eywa.Reasoning.Summon.{
  SummonService, max_depth_of, validate_summon, build_child_pulse, execute_all_actions,
  apply_is_critical_overrides,
}
use eywa.Reasoning.Summon.Laws.{
  Hop, summons, summons-bounded, relay, relay-unbounded, result_of, execute_all_actions-in_place,
}
use eywa.Reasoning.Limits.{ToolResultLimits, truncate, truncate_tool_result}
use eywa.Reasoning.Limits.Laws.{Truncation, truncate_tool_result-Cut}
use eywa.Reasoning.Stream.{Provider, invoke_provider, StreamEvent}
use eywa.Reasoning.Stream.Laws.{spelled, broken, written, with_content, invoke_provider-spelled}
use eywa.Tests.Fixtures.{hello, guide}

-- It may summon the expert, at most two deep, and the expert may hand off to it.
abbrev conductor : Spirit
conductor = record guide {
  type = orchestrator;
  orchestrator_config = record {
    mode = "";
    sub_spirits = "expert" ∷ [];
    logic_router_name = "";
    max_depth = pos 2;
  };
  handoff_config = record {
    allowed_targets = "guide" ∷ [];
    context_transfer = "none";
    max_handoffs = pos 1;
  };
  allowed_actions = record { name = "lookup_order"; is_critical = some true } ∷ [];
}

abbrev to_expert : Hop
to_expert = record { name = "expert"; task = "price it"; spirit = conductor }

abbrev to_guide : Hop
to_guide = record { name = "guide"; task = "ask back"; spirit = conductor }

-- A scout that notes the customer's tier.
abbrev tier_scout : Scout
tier_scout = record {
  is_applicable = λ e. true;
  harvest = λ e. record e { knowledge = some (("tier", text "gold") ∷ []) };
}

abbrev scouted_hop : Hop × List Scout
scouted_hop = (to_expert, tier_scout ∷ [])

abbrev two_deep : Pulse
unfolding run_scouts build_child_pulse merge insert
two_deep = run_scouts (tier_scout ∷ []) (
    build_child_pulse "price it"
      (run_scouts (tier_scout ∷ []) (build_child_pulse "price it" hello)))

summons-bounded_example :
    (two_deep.orchestration_depth
      ≡ hello.orchestration_depth + length (scouted_hop ∷ scouted_hop ∷ []))
    × (two_deep.orchestration_depth ≤ 2)
unfolding summons validate_summon max_depth_of run_scouts build_child_pulse merge insert
summons-bounded_example =
    summons-bounded (scouted_hop ∷ scouted_hop ∷ []) hello two_deep 2
      ((omega arith, (λ e. refl, tt)), ((omega arith, (λ e. refl, tt)), tt)) (omega arith) refl

-- The third summon is refused.
third_refused : summons (scouted_hop ∷ scouted_hop ∷ scouted_hop ∷ []) hello ≡ none
unfolding summons validate_summon max_depth_of run_scouts build_child_pulse merge insert
third_refused = refl

relay-unbounded_example :
    (e' : Pulse) × ((relay to_guide to_expert 5 hello ≡ some e') × (e'.orchestration_depth ≡ 0))
relay-unbounded_example = relay-unbounded to_guide to_expert hello 5 refl refl refl

abbrev experts : SummonService
experts = record {
  find_active_by_name = λ name. some guide;
  get_multiple = λ names. none;
  execute = λ e sp. some "42";
}

abbrev steady : Action
steady = record {
  is_critical = false;
  is_delivery = false;
  validate = λ args. none;
  execute = λ n. done "shipped";
  cancelled = λ n. false;
}

abbrev once : ActionRetryConfig
once = record { max_attempts = pos 1; base_delay = pos 0 }

abbrev run_batch : List ToolCall → List ActionResult × Option Memory
unfolding execute_all
run_batch calls = (execute_all (λ call. some steady) once calls, none)

abbrev run_one : ToolCall → ActionResult
run_one call = (execute_one (λ c. some steady) once call).answer

abbrev look_up : ToolCall
look_up = record { id = "1"; name = "lookup_order"; arguments = none; is_critical_override = none }

abbrev ask_expert : ToolCall
ask_expert = record {
  id = "2";
  name = "summon_spirit";
  arguments = some (("spirit_name", text "expert") ∷ ("task", text "price it") ∷ []);
  is_critical_override = none;
}

execute_all_actions-in_place_example :
    (execute_all_actions
      (some experts)
      run_batch
      hello
      conductor
      none
      (ask_expert ∷ look_up ∷ [])).0
    ≡ some (
        map
          (result_of (some experts) run_one hello conductor)
          (apply_is_critical_overrides (ask_expert ∷ look_up ∷ []) conductor.allowed_actions))
unfolding execute_all
execute_all_actions-in_place_example =
    execute_all_actions-in_place (some experts) run_batch run_one hello conductor none
      (ask_expert ∷ look_up ∷ []) (λ batch. refl)

abbrev notice : ℕ → String
notice n = "..."

abbrev ten : ToolResultLimits
ten = record { max_chars = pos 10; strategy = truncate; keep_head = pos 6; keep_tail = pos 2 }

truncate_tool_result-Cut_example :
    Truncation notice "abcdefghijklmnopqrst" ten
      (truncate_tool_result notice "abcdefghijklmnopqrst" ten)
truncate_tool_result-Cut_example = truncate_tool_result-Cut notice "abcdefghijklmnopqrst" ten

six_and_two : truncate_tool_result notice "abcdefghijklmnopqrst" ten ≡ some "abcdef...st"
unfolding truncate_tool_result
six_and_two = refl

seven_and_three :
    truncate_tool_result notice "abcdefghijklmnopqrst" (record ten { keep_head = pos 90 })
    ≡ some "abcdefg...rst"
unfolding truncate_tool_result
seven_and_three = refl

below_0 :
    truncate_tool_result notice "abcdefghijklmnopqrst"
      (record ten { keep_head = negsuc 0; keep_tail = pos 5 })
    ≡ none
unfolding truncate_tool_result
below_0 = refl

abbrev reply : OracleResponse
reply = record {
  content = "";
  tool_calls = look_up ∷ [];
  stop_reason = "stop";
  tokens_used = record { prompt_tokens = 3; completion_tokens = 2; total_tokens = 5 };
  structured = "";
}

abbrev question : OracleRequest
question = record {
  model = "mini";
  system_prompt = "";
  messages = [];
  tools = [];
  with_format = false;
}

abbrev live_answer : OracleRequest → Option (List StreamEvent)
live_answer q = some (spelled ("your " ∷ "order" ∷ []) reply)

abbrev provider : Provider
provider = record { generate_response = λ q. none; generate_stream = some live_answer }

invoke_provider-spelled_example :
    (live_answer question ≡ some (spelled ("your " ∷ "order" ∷ []) reply)
      → invoke_provider true provider question
        ≡ (some (with_content (written "" ("your " ∷ "order" ∷ [])) reply), "your " ∷ "order" ∷ []))
    × (live_answer question ≡ some (broken ("your " ∷ "order" ∷ []) [])
        → invoke_provider true provider question ≡ (none, "your " ∷ "order" ∷ []))
invoke_provider-spelled_example =
    invoke_provider-spelled provider live_answer question ("your " ∷ "order" ∷ []) reply [] refl
