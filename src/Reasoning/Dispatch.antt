-- ===== src/Reasoning/Dispatch.antt =====
-- The dispatch of a round's action calls between the plan and the executor
-- (executeActionsWithPlan in internal/implementation/orchestrator/plan_scratchpad.go). The executor is a
-- parameter.
use eywa.Prelude.{
  ◌≡◌, refl, ◌∙◌, ap, Bool, false, Option, none, some, List, [], ◌∷◌, map, String, concat, str_eq,
  Bool-cases, inl, inr, if◌then◌else◌,
}
use eywa.Prelude.Maps.{GoMap}
use eywa.Entities.Value.{Value}
use eywa.Errors.Action.{ActionErr, action, business}
use eywa.Reasoning.Oracle.{ToolCall}
use eywa.Reasoning.Plan.{PlanItem, PlanState, apply, parse_plan_items}

pub record ActionResult : Type 0 where
  pub action_name : String
  pub result : String
  pub error : Option ActionErr
  pub is_critical : Bool
  pub is_voice_delivery : Bool

abbrev update_plan : String
update_plan = "update_plan"

abbrev pub zero_result : ActionResult
zero_result = record {
  action_name = "";
  result = "";
  error = none;
  is_critical = false;
  is_voice_delivery = false;
}

-- A result before the rest, where there is a rest.
abbrev pub and_then : ActionResult → Option (List ActionResult) → Option (List ActionResult)
and_then r none = none
and_then r (some rs) = some (r ∷ rs)

-- `render` gives the block of a plan in a prompt, and `fault` the text of the error on its items.
module _ (show : Value → String) (render : List PlanItem → String) (fault : GoMap Value → String)
    (execute_all : List ToolCall → Option (List ActionResult)) where
  apply_items : ToolCall → Option (List PlanItem) → PlanState → ActionResult × PlanState
  unfolding apply
  apply_items call none p = (
    record zero_result {
      action_name = call.name;
      error = some (action business (fault call.arguments));
    },
    p,
  )
  apply_items call (some its) p = (
    record zero_result {
      action_name = call.name;
      result = concat "Plan updated." (render (apply its p).items);
    },
    apply its p,
  )

  unfoldable pub apply_update_plan : ToolCall → PlanState → ActionResult × PlanState
  unfolding apply_items parse_plan_items
  apply_update_plan call p = apply_items call (parse_plan_items show call.arguments) p

  -- The first loop: the slots of the results, the calls that are left, and the plan after it.
  unfoldable pub split_calls :
      List ToolCall → PlanState → List (Option ActionResult) × List ToolCall × PlanState
  unfolding apply_update_plan
  split_calls [] p = ([], [], p)
  split_calls (c ∷ calls) p =
      let planned = apply_update_plan c p in
      let is_plan = str_eq c.name update_plan in
      let next : PlanState = (if is_plan then planned.1 else p) in
      let rest = split_calls calls next in
      if is_plan
      then (some planned.0 ∷ rest.0, rest.1, rest.2)
      else (none ∷ rest.0, c ∷ rest.1, rest.2)

  -- The second loop: results[restIdx[j]] = sub[j]. A slot without a result keeps the zero result; a result
  -- without a slot is an index out of range, which panics.
  unfoldable pub fill : List (Option ActionResult) → List ActionResult → Option (List ActionResult)
  fill [] [] = some []
  fill [] (r ∷ sub) = none
  fill (some r ∷ slots) sub = and_then r (fill slots sub)
  fill (none ∷ slots) [] = and_then zero_result (fill slots [])
  fill (none ∷ slots) (r ∷ sub) = and_then r (fill slots sub)

  abbrev if_any : List ToolCall → Option (List ActionResult)
  if_any [] = some []
  if_any (c ∷ cs) = execute_all (c ∷ cs)

  abbrev filled :
      List (Option ActionResult) → Option (List ActionResult) → Option (List ActionResult)
  filled slots none = none
  filled slots (some sub) = fill slots sub

  -- None for the results is a panic.
  unfoldable pub execute_actions_with_plan :
      List ToolCall → Option PlanState → Option (List ActionResult) × Option PlanState
  unfolding split_calls fill
  execute_actions_with_plan calls none = (execute_all calls, none)
  execute_actions_with_plan calls (some p) =
      let s = split_calls calls p in (filled s.0 (if_any s.1), some s.2)

  -- Each call in its turn, against one executor of single calls.
  abbrev pub in_turn : (ToolCall → ActionResult) → List ToolCall → PlanState → List ActionResult
  in_turn run [] p = []
  in_turn run (c ∷ calls) p =
      let planned = apply_update_plan c p in
      let next : PlanState = (if str_eq c.name update_plan then planned.1 else p) in
      let rest = in_turn run calls next in
      (if str_eq c.name update_plan then planned.0 else run c) ∷ rest

  fill-split_calls :
      (run : ToolCall → ActionResult) (calls : List ToolCall) (p : PlanState)
      → fill (split_calls calls p).0 (map run (split_calls calls p).1) ≡ some (in_turn run calls p)
  unfolding split_calls fill
  fill-split_calls run [] p = refl
  fill-split_calls run (c ∷ calls) p = elim (Bool-cases (str_eq c.name update_plan)) [
    | inl h ↦ rw h (
        ap (and_then (apply_update_plan c p).0)
          (fill-split_calls run calls (apply_update_plan c p).1))
    | inr h ↦ rw h (ap (and_then (run c)) (fill-split_calls run calls p))
  ]

  map-if_any :
      (run : ToolCall → ActionResult) (cs : List ToolCall)
      → ((l : List ToolCall) → execute_all l ≡ some (map run l))
      → if_any cs ≡ some (map run cs)
  map-if_any run [] h = refl
  map-if_any run (c ∷ cs) h = h (c ∷ cs)

-- Where the executor handles a list of calls call by call, the results of a round under a plan are
-- there, without a panic, and are those of its calls handled one after the other: every result stands at the place of its call, and an
-- update of the plan sees the updates before it.
pub execute_actions_with_plan-in_turn :
    (show : Value → String) (render : List PlanItem → String) (fault : GoMap Value → String)
    (execute_all : List ToolCall → Option (List ActionResult)) (run : ToolCall → ActionResult)
    (calls : List ToolCall) (p : PlanState)
    → ((l : List ToolCall) → execute_all l ≡ some (map run l))
    → (execute_actions_with_plan show render fault execute_all calls (some p)).0
      ≡ some (in_turn show render fault execute_all run calls p)
unfolding execute_actions_with_plan
execute_actions_with_plan-in_turn show render fault execute_all run calls p h =
    ap (filled show render fault execute_all (split_calls show render fault execute_all calls p).0)
      (map-if_any show render fault execute_all run
        (split_calls show render fault execute_all calls p).1 h)
    ∙ fill-split_calls show render fault execute_all run calls p
