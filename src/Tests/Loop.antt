-- ===== src/Tests/Loop.antt =====
-- Runs of the reasoning loop and of the executor's retries on concrete inputs.
use eywa.Prelude.{
  ℕ, suc, ◌+◌, ◌≤◌, ◌≡◌, refl, true, false, Option, none, some, List, [], ◌∷◌, length, map, ◌++◌,
  is_some, String, if◌then◌else◌, ltb, arith,
}
use eywa.Prelude.Int.{pos, negsuc, pos_part}
use eywa.Prelude.Maps.{insert, lookup, remove}
use eywa.Entities.Policies.{low, revise_once, raise_vigil}
use eywa.Errors.Action.{plain, action, infrastructure}
use eywa.Reasoning.Oracle.{ToolCall, OracleUsage, OracleResponse}
use eywa.Reasoning.Dispatch.{ActionResult}
use eywa.Reasoning.Executor.{
  Action, ActionRetryConfig, done, failed, execute_one, retries, described,
}
use eywa.Reasoning.Executor.Laws.{LastOf, Doubling, execute_one-LastOf}
use eywa.Reasoning.Turn.{
  Outside, ReasoningRequest, ReasoningService, TurnSnapshot, TurnState, refused,
}
use eywa.Reasoning.Limits.{truncate}
use eywa.Reasoning.Setup.{fresh_turn}
use eywa.Reasoning.Loop.{Ended, returned, crashed, run}
use eywa.Reasoning.Bounds.{executed}
use eywa.Reasoning.Durable.{checkpoint_id}
use eywa.Reasoning.Iteration.{is_terminal_response}
use eywa.Reasoning.Liveness.Run.{run-succeeds}
use eywa.Reasoning.Novel.{Novel}
use eywa.Reasoning.Novel.Run.{run-Novel}
use eywa.Reasoning.Bounds.Run.{last, run-budget}
use eywa.Tests.Fixtures.{hello, guide}

abbrev lookup_order : ToolCall
lookup_order = record {
  id = "c1";
  name = "lookup_order";
  arguments = none;
  is_critical_override = none;
}

-- It fails twice for infrastructure, and then answers.
abbrev flaky : Action
flaky = record {
  is_critical = true;
  is_delivery = false;
  validate = λ args. none;
  execute = λ n. (if ltb n 3 then failed (action infrastructure "timeout") else done "shipped");
  cancelled = λ n. false;
}

abbrev thrice : ActionRetryConfig
thrice = record { max_attempts = pos 3; base_delay = pos 100 }

abbrev registry : ToolCall → Option Action
registry call = some flaky

answered_at_last : execute_one registry thrice lookup_order ≡ record {
  answer = record (described flaky lookup_order) { result = "shipped" };
  attempts = 3;
  waits = 100 ∷ 200 ∷ [];
}
unfolding execute_one
answered_at_last = refl

execute_one-LastOf_example :
    ((m : ℕ) × ((k : ℕ) × LastOf flaky
          (described flaky lookup_order)
          1
          (suc (retries thrice))
          m
          k
          (execute_one registry thrice lookup_order)))
    × Doubling (pos_part thrice.base_delay) (execute_one registry thrice lookup_order).waits
execute_one-LastOf_example = execute_one-LastOf registry thrice lookup_order flaky refl refl

abbrev usage : OracleUsage
usage = record { prompt_tokens = 5; completion_tokens = 2; total_tokens = 7 }

-- The oracle asks for a lookup until two have been made, and then answers.
abbrev ask : Outside → OracleResponse
ask o =
    if ltb (length o.batches) 2
    then record {
      content = "";
      tool_calls = lookup_order ∷ [];
      stop_reason = "tool_calls";
      tokens_used = usage;
      structured = "";
    }
    else record {
      content = "your order has shipped";
      tool_calls = [];
      stop_reason = "stop";
      tokens_used = usage;
      structured = "";
    }

abbrev service : ℕ → ReasoningService
service limit = record {
  max_iterations = 4;
  max_iterations_message = "sorry";
  max_actions_per_cycle = limit;
  progress_policy = record { enabled = false; stall_window = pos 0 };
  compression_policy = record { enabled = false; max_context_chars = 0; keep_recent = 0 };
  reflection_policy = record { enabled = false; max_rounds = 0; model = ""; criteria = [] };
  grounding_policy = record {
    enabled = false;
    min_citations = 0;
    on_violation = revise_once;
    blocked_message = "";
  };
  plan_policy = record { enabled = false; max_items = pos 0; required = false };
  handoff_policy = record {
    enabled = false;
    min_confidence = low;
    mode = raise_vigil;
    holding_message = "";
    uncertainty_markers = [];
  };
  summon_service = none;
  has_handoff = false;
  has_checkpoints = true;
  get_provider = λ name. true;
  generate_response = λ request o. some (ask o);
  get_action = λ name. some name;
  execute_all = λ calls session o.
      (map (λ call. record (described flaky call) { result = "shipped" }) calls, session);
  hand_off = λ target request o. refused (plain "no peer");
  rebuild_for_topic = none;
  raise_takeover = none;
  cancelled = λ o. false;
  checkpoint_load_up = λ o. true;
  checkpoint_save_up = λ o. true;
  checkpoint_delete_up = λ o. true;
  marshal = λ snap. some "snapshot";
  unmarshal = λ bytes. none;
  call_signature = λ call. call.id;
  tool_result_limits = record {
    max_chars = pos 0;
    strategy = truncate;
    keep_head = pos 0;
    keep_tail = pos 0;
  };
  result_limit = λ name. none;
  parse_reflection_verdict = λ s. (true, []);
  parse_citations = λ s. [];
  extract_lore_chunk_ids = λ s. [];
  to_lower = λ s. s;
  supports_structured = λ provider. false;
  schema_fault = λ schema s. none;
  structured_instruction = λ schema. "";
  plan_fault = λ args. "";
  error_text = λ e. "error";
  show = λ v. "";
  sprintf = λ format n. format;
}

abbrev request : ReasoningRequest
request = record {
  event = hello;
  spirit = guide;
  session = none;
  system_prompt = "be kind";
  conversation_context = [];
  response_format = none;
}

abbrev nothing_done : Outside
nothing_done = record { prompts = []; batches = []; takeovers = []; checkpoints = [] }

abbrev reply_of : Option Ended → String × (ℕ × (ℕ × ℕ))
reply_of none = ("unknown provider", (0, (0, 0)))
reply_of (some (returned ts e)) = (
  ts.result.final_response,
  (ts.result.iterations_used, (executed ts.outside.batches, length ts.outside.checkpoints)),
)
reply_of (some (crashed ts)) = ("panic", (0, (0, 0)))

-- On a durable turn the second lookup is answered from the memo.
answered_from_memo :
    reply_of (run (service 5) request nothing_done) ≡ ("your order has shipped", (3, (1, 0)))
unfolding run lookup insert remove
answered_from_memo = refl

-- A call that is new each time is executed, until the budget of calls ends the turn.
abbrev impatient : ReasoningService
impatient = record (service 1) { call_signature = λ call. ""; has_checkpoints = false }

out_of_budget : reply_of (run impatient request nothing_done) ≡ ("", (2, (1, 0)))
unfolding run lookup insert remove
out_of_budget = refl

answers :
    reply_of (run (record impatient { max_actions_per_cycle = 2 }) request nothing_done)
    ≡ ("your order has shipped", (3, (2, 0)))
unfolding run lookup insert remove
answers = refl

abbrev forced : Option Ended → Ended
forced (some x) = x
forced none = crashed (fresh_turn (service 1) request nothing_done)

abbrev ending : ReasoningService → Ended
unfolding run lookup insert remove
ending svc = forced (run svc request nothing_done)

-- One call was counted and executed before the turn was interrupted, and its offset is out of range.
abbrev halfway : TurnSnapshot
halfway = record {
  iterations_used = 1;
  working_context = [];
  active_topic = "";
  conversation_offset = 7;
  banned_signatures = [];
  infra_terminal = false;
  total_action_calls = 1;
  iter_boundaries = [];
  topic_switched = false;
  reflection_rounds = 0;
  grounding_revised = false;
  plan_nudged = false;
  critical_errors = 0;
  plan_items = [];
  tokens_used = usage;
  tokens_by_model = none;
  response_delivered = false;
  tool_results = none;
}

abbrev resuming : ReasoningService
resuming = record (service 2) {
  call_signature = λ call. "";
  marshal = λ snap. none;
  unmarshal = λ bytes. some halfway;
}

abbrev interrupted : Outside
interrupted = record nothing_done { checkpoints = ("wamid.1", "first") ∷ [] }

abbrev resumed_ending : Ended
unfolding run lookup insert remove
resumed_ending = forced (run resuming request interrupted)

-- The first iteration is not run again; one call of the budget is left, and the next one ends the turn.
one_left : reply_of (some resumed_ending) ≡ ("", (3, (1, 1)))
unfolding run lookup insert remove
one_left = refl

run-budget_example :
    executed (last resumed_ending).outside.batches
    ≤ executed interrupted.batches + resuming.max_actions_per_cycle
unfolding run lookup insert remove
run-budget_example = run-budget resuming request interrupted resumed_ending (omega arith) refl

-- An executor that leaves a result out, for a Spirit that plans no summon: the error of a mismatch.
abbrev negligent : ReasoningService
negligent = record (service 5) { execute_all = λ calls session o. ([], session) }

mismatch : reply_of (run negligent request nothing_done) ≡ ("", (1, (1, 0)))
unfolding run lookup insert remove
mismatch = refl

-- A head below 0 beside a positive tail ends the turn in a panic as soon as a long result is shaped.
abbrev ill_limited : ReasoningService
ill_limited = record (service 5) {
  tool_result_limits = record {
    max_chars = pos 3;
    strategy = truncate;
    keep_head = negsuc 0;
    keep_tail = pos 2;
  };
}

shaping_panics : reply_of (run ill_limited request nothing_done) ≡ ("panic", (0, (0, 0)))
unfolding run lookup insert remove
shaping_panics = refl

run-Novel_example :
    (own : List (List (ToolCall × ActionResult))) × (((last (ending (service 5))).outside.batches
        ≡ own ++ nothing_done.batches)
      × Novel (service 5) (is_some (checkpoint_id (service 5) request)) own)
unfolding run lookup insert remove
run-Novel_example = run-Novel (service 5) request nothing_done (ending (service 5)) refl

abbrev at_once : OracleResponse
at_once = record {
  content = "your order has shipped";
  tool_calls = [];
  stop_reason = "stop";
  tokens_used = usage;
  structured = "";
}

-- Its reviewer is never content, and may send an answer back once.
abbrev reviewed : ReasoningService
reviewed = record (service 5) {
  has_checkpoints = false;
  reflection_policy = record { enabled = true; max_rounds = 1; model = ""; criteria = [] };
  generate_response = λ request o. some at_once;
  parse_reflection_verdict = λ s. (false, "too short" ∷ []);
}

revised_once :
    reply_of (run reviewed request nothing_done) ≡ ("your order has shipped", (2, (0, 0)))
unfolding run lookup insert remove
revised_once = refl

run-succeeds_example :
    (ts : TurnState) × (run reviewed request nothing_done ≡ some (returned ts none))
unfolding is_terminal_response fresh_turn
run-succeeds_example =
    run-succeeds reviewed request nothing_done (λ q o. (at_once, (refl, (refl, refl)))) (λ o. refl)
      refl refl (omega arith)
