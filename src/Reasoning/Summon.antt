-- ===== src/Reasoning/Summon.antt =====
-- SummonService (internal/implementation/orchestrator/summon_service.go), and the routing of the calls of
-- an iteration between it and the executor: executeAllActions, executeSummonCall and
-- applyIsCriticalOverrides of reasoning_service.go. ParallelSummon is left out: summons do not share state.
pub mod Laws
use eywa.Prelude.{
  ℕ, suc, Bool, true, false, ◌||◌, not, Option, none, some, List, [], ◌∷◌, map, String, contains,
  str_eq, is_empty, leb, if◌then◌else◌,
}
use eywa.Prelude.Int.{positive_or}
use eywa.Prelude.Maps.{get, put_all}
use eywa.Entities.Value.{Value, text}
use eywa.Entities.Memory.{Memory}
use eywa.Entities.Pulse.{Pulse}
use eywa.Entities.Spirit.{Spirit, AllowedAction, OrchestratorConfig, is_orchestrator}
use eywa.Errors.Action.{ActionErr, action, caused, plain, business, infrastructure}
use eywa.Engine.State.{Scout}
use eywa.Engine.Routing.{run_scouts}
use eywa.Reasoning.Oracle.{ToolCall}
use eywa.Reasoning.Dispatch.{ActionResult, zero_result, and_then}
use eywa.Reasoning.Executor.{Outcome, done, failed}

abbrev pub default_max_depth : ℕ
default_max_depth = 3

unfoldable pub max_depth_of : OrchestratorConfig → ℕ
max_depth_of c = positive_or c.max_depth default_max_depth

unfoldable pub validate_summon : String → Pulse → Spirit → Option ActionErr
unfolding max_depth_of
validate_summon name parent sp =
    if not (contains sp.orchestrator_config.sub_spirits name)
    then some (action business "not in the allowed sub-spirits list")
    else if leb (max_depth_of sp.orchestrator_config) parent.orchestration_depth
    then some (action business "orchestration depth limit reached")
    else none

-- The fields that the literal leaves out are Go's zero values; Knowledge is a copy.
unfoldable pub build_child_pulse : String → Pulse → Pulse
build_child_pulse task parent = record {
  id = "";
  memory_key = parent.memory_key;
  timestamp = 0;
  user_message = task;
  contact_phone = parent.contact_phone;
  source = parent.source;
  sub_type = "";
  event_type = parent.event_type;
  idempotency_key = "";
  attachments = [];
  payload = none;
  subject_key = "";
  metadata = none;
  knowledge = put_all parent.knowledge (some []);
  parent_pulse_id = parent.id;
  orchestration_depth = suc parent.orchestration_depth;
  handoff_count = 0;
}

-- The ports of the service; none is an error, and of an answer there is the FinalResponse. Without a
-- registry of Scouts, get_multiple answers none, which is passed over as well.
pub record SummonService : Type 0 where
  pub find_active_by_name : String → Option Spirit
  pub get_multiple : List String → Option (List Scout)
  pub execute : Pulse → Spirit → Option String

abbrev pub scouted : Option (List Scout) → Pulse → Pulse
scouted none e = e
scouted (some scouts) e = run_scouts scouts e

abbrev pub with_scouts : SummonService → List String → Pulse → Pulse
with_scouts s [] e = e
with_scouts s (n ∷ ns) e = scouted (s.get_multiple (n ∷ ns)) e

abbrev pub answer_of : Option String → Outcome
answer_of none = failed (caused infrastructure "reasoning failed" (plain "reasoning"))
answer_of (some response) = done response

unfoldable pub summon : SummonService → String → String → Pulse → Spirit → Outcome
unfolding validate_summon build_child_pulse run_scouts
summon s name task parent sp = elim (validate_summon name parent sp) [
  | some e ↦ failed e
  | none ↦ elim (s.find_active_by_name name) [
    | none ↦ failed (caused infrastructure "spirit not found" (plain "repository"))
    | some sub ↦
        answer_of (s.execute (with_scouts s sub.require_scouts (build_child_pulse task parent)) sub)
  ]
]

abbrev text_or_empty : Option Value → String
text_or_empty (some (text s)) = s
text_or_empty _ = ""

abbrev pub of_outcome : Outcome → ActionResult
of_outcome (done response) = record zero_result { result = response }
of_outcome (failed e) = record zero_result { error = some e; is_critical = true }

unfoldable pub execute_summon_call : SummonService → Pulse → Spirit → ToolCall → ActionResult
unfolding summon
execute_summon_call s parent sp call =
    let name = text_or_empty (get call.arguments "spirit_name") in
    let task = text_or_empty (get call.arguments "task") in
    if is_empty name || is_empty task
    then record zero_result {
      error = some (action business "summon_spirit requires spirit_name and task");
    }
    else of_outcome (summon s name task parent sp)

-- index[name], where the last entry of a name counts.
unfoldable pub critical_override : String → List AllowedAction → Option Bool → Option Bool
critical_override name [] found = found
critical_override name (a ∷ as') found =
    let here : Option Bool =
      (if str_eq a.name name
        then elim a.is_critical [ none ↦ found | some b ↦ some b ]
        else found) in
    critical_override name as' here

abbrev pub overridden : Option Bool → ToolCall → ToolCall
overridden none call = call
overridden (some b) call = record call { is_critical_override = some b }

unfoldable pub apply_is_critical_overrides : List ToolCall → List AllowedAction → List ToolCall
unfolding critical_override
apply_is_critical_overrides calls allowed =
    map (λ (call : ToolCall). overridden (critical_override call.name allowed none) call) calls

abbrev pub is_summon : ToolCall → Bool
is_summon call = str_eq call.name "summon_spirit"

unfoldable pub regular_of : List ToolCall → List ToolCall
regular_of [] = []
regular_of (call ∷ calls) =
    let rest = regular_of calls in if is_summon call then rest else call ∷ rest

abbrev others : List ActionResult → List ActionResult
others [] = []
others (r ∷ rs) = rs

-- regularResults[i] is out of range, and panics, where there are too few.
abbrev pub first_then : List ActionResult → Option (List ActionResult) → Option (List ActionResult)
first_then [] rest = none
first_then (r ∷ rs) rest = and_then r rest

-- results[ic.index]: of the regular calls in turn, of the summons one by one. None is a panic; results
-- beyond the regular calls are left out.
unfoldable pub placed :
    (ToolCall → ActionResult) → List ToolCall → List ActionResult → Option (List ActionResult)
placed summoned [] rs = some []
placed summoned (call ∷ calls) rs =
    let skipped = placed summoned calls rs in
    let taken = placed summoned calls (others rs) in
    if is_summon call then and_then (summoned call) skipped else first_then rs taken

-- The executor answers with the results and the session that the Actions leave; without a regular call it is
-- not asked. `regular` are the regular ones of all calls.
abbrev pub apart :
    (List ToolCall → List ActionResult × Option Memory)
    → (ToolCall → ActionResult)
    → Option Memory
    → List ToolCall
    → List ToolCall
    → Option (List ActionResult) × Option Memory
apart execute_all summoned session all [] = (placed summoned all [], session)
apart execute_all summoned session all (c ∷ cs) =
    let ran = execute_all (c ∷ cs) in (placed summoned all ran.0, ran.1)

-- As the executor answers them.
abbrev pub executed_by :
    (List ToolCall → List ActionResult × Option Memory)
    → List ToolCall
    → Option (List ActionResult) × Option Memory
executed_by execute_all all = let ran = execute_all all in (some ran.0, ran.1)

-- Without a service, and for a Spirit that does not orchestrate, the executor gets every call.
abbrev pub by_service :
    Option SummonService
    → (List ToolCall → List ActionResult × Option Memory)
    → Pulse
    → Spirit
    → Option Memory
    → List ToolCall
    → Option (List ActionResult) × Option Memory
by_service none execute_all parent sp session all = executed_by execute_all all
by_service (some s) execute_all parent sp session all =
    if not (is_orchestrator sp)
    then executed_by execute_all all
    else apart execute_all (execute_summon_call s parent sp) session all (regular_of all)

unfoldable pub execute_all_actions :
    Option SummonService
    → (List ToolCall → List ActionResult × Option Memory)
    → Pulse
    → Spirit
    → Option Memory
    → List ToolCall
    → Option (List ActionResult) × Option Memory
unfolding apply_is_critical_overrides is_orchestrator regular_of placed execute_summon_call
execute_all_actions service execute_all parent sp session calls =
    by_service service execute_all parent sp session
      (apply_is_critical_overrides calls sp.allowed_actions)
