-- ===== src/Reasoning/Plan.antt =====
-- The plan of a turn and the actions that keep it (internal/implementation/orchestrator/plan_scratchpad.go).
-- fmt.Sprintf("%v", x) is the parameter `show`; rendered texts are left out of the results.
pub mod Laws
use Prim.Native.Char.{code}
use eywa.Prelude.{
  ℕ, zero, suc, Bool, true, false, not, ◌||◌, Option, none, some, List, [], ◌∷◌, ◌++◌, String,
  concat, is_empty, ◌&&◌, ◌==◌, str_eq, take, length, ltb, if◌then◌else◌,
}
use eywa.Prelude.Int.{ℤ, positive_or}
use eywa.Prelude.Maps.{Assoc, GoMap, get, lookup}
use eywa.Entities.Value.{Value, Items, nil, text, items, fields, no_items, item, to_assoc}

pub data PlanStatus : Type 0 where
  pending in_progress done abandoned : PlanStatus

pub record PlanItem : Type 0 where
  pub title : String
  pub status : PlanStatus

pub record PlanState : Type 0 where
  pub items : List PlanItem
  pub max_items : ℕ

abbrev default_max_plan_items : ℕ
default_max_plan_items = 12

unfoldable pub new_plan_state : ℤ → PlanState
new_plan_state max = record { items = []; max_items = positive_or max default_max_plan_items }

unfoldable pub apply : List PlanItem → PlanState → PlanState
apply its p = record p {
  items = if ltb p.max_items (length its) then take p.max_items its else its;
}

is_open : PlanStatus → Bool
is_open pending = true
is_open in_progress = true
is_open _ = false

unfoldable pub incomplete : List PlanItem → List String
unfolding is_open
incomplete [] = []
incomplete (it ∷ its) =
    let rest = incomplete its in if is_open it.status then it.title ∷ rest else rest

-- validPlanStatus, with the status that the text names.
unfoldable pub plan_status : String → Option PlanStatus
plan_status s =
    if str_eq s "pending"
    then some pending
    else if str_eq s "in_progress"
    then some in_progress
    else if str_eq s "done"
    then some done
    else if str_eq s "abandoned"
    then some abandoned
    else none

abbrev text_or_empty : Option Value → String
text_or_empty (some (text s)) = s
text_or_empty _ = ""

abbrev value_or_nil : Option Value → Value
value_or_nil none = nil
value_or_nil (some v) = v

abbrev cons_item : Option PlanItem → Option (List PlanItem) → Option (List PlanItem)
cons_item (some it) (some its) = some (it ∷ its)
cons_item _ _ = none

abbrev plan_item : String → Option PlanStatus → Option PlanItem
plan_item title none = none
plan_item title (some status) = some (record { title = title; status = status })

unfoldable pub plan_marker : PlanStatus → String
plan_marker done = "[x]"
plan_marker in_progress = "[~]"
plan_marker abandoned = "[-]"
plan_marker pending = "[ ]"

unfoldable plan_lines : List PlanItem → String
unfolding plan_marker
plan_lines [] = ""
plan_lines (it ∷ its) =
    concat (plan_marker it.status) (concat " " (concat it.title (concat "\n" (plan_lines its))))

-- strings.TrimRight(s, "\n")
unfoldable trim_newlines : String → String
trim_newlines String.[] = ""
trim_newlines (String.◌∷◌ c s) =
    let rest = trim_newlines s in if is_empty rest && code c == 10 then "" else String.◌∷◌ c rest

-- planState.render
unfoldable pub render : List PlanItem → String
unfolding plan_lines trim_newlines
render [] = ""
render (it ∷ its) = trim_newlines (concat "\n\n--- CURRENT PLAN ---\n" (plan_lines (it ∷ its)))

module _ (show : Value → String) where
  parse_item : Value → Option PlanItem
  unfolding plan_status
  parse_item (fields fs) =
      let m = to_assoc fs in
      plan_item (text_or_empty (lookup "title" m))
        (plan_status (show (value_or_nil (lookup "status" m))))
  parse_item _ = none

  parse_each : Items → Option (List PlanItem)
  unfolding parse_item
  parse_each no_items = some []
  parse_each (item v vs) = let rest = parse_each vs in cons_item (parse_item v) rest

  parse_value : Option Value → Option (List PlanItem)
  unfolding parse_each
  parse_value (some (items vs)) = parse_each vs
  parse_value _ = none

  -- `none` is any of the three errors.
  unfoldable pub parse_plan_items : GoMap Value → Option (List PlanItem)
  unfolding parse_value
  parse_plan_items args = parse_value (get args "items")
