-- ===== src/Reasoning/Durable.antt =====
-- Durable turns: snapshots, and the store of checkpoints
-- (internal/implementation/orchestrator/reasoning_durable.go).
use eywa.Prelude.{not, Option, none, some, List, [], String, is_empty, if◌then◌else◌}
use eywa.Prelude.Maps.{lookup, insert, remove}
use eywa.Reasoning.Plan.{PlanItem, PlanState}
use eywa.Reasoning.Turn.{ReasoningRequest, ReasoningService, TurnSnapshot, TurnState}

abbrev pub items_of : Option PlanState → List PlanItem
items_of none = []
items_of (some p) = p.items

abbrev pub with_items : List PlanItem → Option PlanState → Option PlanState
with_items its none = none
with_items its (some p) = some (record p { items = its })

unfoldable pub snapshot : TurnState → TurnSnapshot
snapshot ts = record {
  iterations_used = ts.result.iterations_used;
  working_context = ts.working_context;
  active_topic = ts.active_topic;
  conversation_offset = ts.conversation_offset;
  banned_signatures = ts.banned_signatures;
  infra_terminal = ts.infra_terminal;
  total_action_calls = ts.total_action_calls;
  iter_boundaries = ts.iter_boundaries;
  topic_switched = ts.topic_switched;
  reflection_rounds = ts.reflection_rounds;
  grounding_revised = ts.grounding_revised;
  plan_nudged = ts.plan_nudged;
  critical_errors = ts.critical_errors;
  plan_items = items_of ts.plan;
  tokens_used = ts.result.tokens_used;
  tokens_by_model = ts.result.tokens_by_model;
  response_delivered = ts.result.response_delivered;
  tool_results = ts.tool_memo;
}

unfoldable pub restore : TurnSnapshot → TurnState → TurnState
restore snap ts = record ts {
  working_context = snap.working_context;
  active_topic = snap.active_topic;
  conversation_offset = snap.conversation_offset;
  infra_terminal = snap.infra_terminal;
  total_action_calls = snap.total_action_calls;
  iter_boundaries = snap.iter_boundaries;
  topic_switched = snap.topic_switched;
  reflection_rounds = snap.reflection_rounds;
  grounding_revised = snap.grounding_revised;
  plan_nudged = snap.plan_nudged;
  critical_errors = snap.critical_errors;
  banned_signatures = snap.banned_signatures;
  plan = with_items snap.plan_items ts.plan;
  tool_memo = snap.tool_results;
  result = record (ts.result) {
    iterations_used = snap.iterations_used;
    tokens_used = snap.tokens_used;
    tokens_by_model = snap.tokens_by_model;
    response_delivered = snap.response_delivered;
  };
}

abbrev some_unless_empty : String → Option String
some_unless_empty id = if is_empty id then none else some id

-- None where the turn is not durable.
unfoldable pub checkpoint_id : ReasoningService → ReasoningRequest → Option String
checkpoint_id svc req =
    if not svc.has_checkpoints
    then none
    else if is_empty req.event.idempotency_key
    then some_unless_empty req.event.id
    else some req.event.idempotency_key

abbrev pub restored : Option TurnSnapshot → TurnState → Option TurnState
restored none ts = none
restored (some snap) ts = some (restore snap ts)

abbrev pub found : ReasoningService → Option String → TurnState → Option TurnState
found svc none ts = none
found svc (some bytes) ts = restored (svc.unmarshal bytes) ts

-- None where the turn starts fresh: nothing is stored, or what is stored cannot be read.
unfoldable pub resume_from_checkpoint : ReasoningService → String → TurnState → Option TurnState
unfolding restore
resume_from_checkpoint svc turn_id ts =
    if svc.checkpoint_load_up ts.outside
    then found svc (lookup turn_id ts.outside.checkpoints) ts
    else none

abbrev pub stored : ReasoningService → String → Option String → TurnState → TurnState
stored svc turn_id none ts = ts
stored svc turn_id (some bytes) ts =
    if svc.checkpoint_save_up ts.outside
    then record ts {
      outside = record (ts.outside) { checkpoints = insert turn_id bytes ts.outside.checkpoints };
    }
    else ts

unfoldable pub save_checkpoint : ReasoningService → String → TurnState → TurnState
unfolding snapshot
save_checkpoint svc turn_id ts = stored svc turn_id (svc.marshal (snapshot ts)) ts

unfoldable pub delete_checkpoint : ReasoningService → String → TurnState → TurnState
delete_checkpoint svc turn_id ts =
    if svc.checkpoint_delete_up ts.outside
    then record ts {
      outside = record (ts.outside) { checkpoints = remove turn_id ts.outside.checkpoints };
    }
    else ts
