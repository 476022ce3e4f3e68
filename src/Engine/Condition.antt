-- ===== src/Engine/Condition.antt =====
-- ConditionEvaluationStep: the conditions of a notifier against the knowledge of a Pulse
-- (internal/implementation/orchestrator/pipeline_step_condition.go). A nil `any` is none or `nil`.
use package.text.Mathlib.Text.{starts_with}
use eywa.Prelude.{
  Bool, true, false, not, ◌||◌, Option, none, some, List, [], ◌∷◌, String, str_eq, if◌then◌else◌,
}
use eywa.Prelude.Maps.{Assoc, entries, get}
use eywa.Pipeline.{Outcome, ok}
use eywa.Entities.Value.{
  Value, Items, Fields, nil, text, texts, items, fields, no_items, item, no_fields,
}
use eywa.Entities.Pulse.{Pulse}
use eywa.Entities.Spirit.{NotifierCondition, is_notifier}
use eywa.Engine.State.{Turn, Env, Comparison, less, equal, greater}
use eywa.Engine.Filter.{cut}

of_assoc : Assoc Value → Fields
of_assoc [] = no_fields
of_assoc ((k, v) ∷ m) = Fields.field k v (of_assoc m)

-- pulse.Knowledge[k], which is nil where the key is missing.
abbrev or_nil_value : Option Value → Value
or_nil_value none = nil
or_nil_value (some v) = v

-- strings.SplitN(field, ".", 2), then the switch on its first part.
unfoldable pub resolve_knowledge_field : Pulse → String → Value
unfolding of_assoc
resolve_knowledge_field e name =
    let top : String = (elim (cut name) [ none ↦ name | some (before, after) ↦ before ]) in
    if str_eq top "knowledge"
    then (elim (cut name) [
      | none ↦ fields (of_assoc (entries e.knowledge))
      | some (before, after) ↦ or_nil_value (get e.knowledge after)
    ])
    else if str_eq top "user_message"
    then text e.user_message
    else if str_eq top "event_type"
    then text e.event_type
    else if str_eq top "source"
    then text e.source
    else if str_eq top "contact_phone"
    then text e.contact_phone
    else or_nil_value (get e.knowledge name)

-- strings.Contains(s, t)
unfoldable pub contains_text : String → String → Bool
contains_text String.[] t = starts_with String.[] t
contains_text (String.◌∷◌ c s) t =
    let rest = contains_text s t in starts_with (String.◌∷◌ c s) t || rest

abbrev is_less : Option Comparison → Bool
is_less (some less) = true
is_less _ = false

abbrev is_greater : Option Comparison → Bool
is_greater (some greater) = true
is_greater _ = false

abbrev is_equal : Option Comparison → Bool
is_equal (some equal) = true
is_equal _ = false

module _ (env : Env) where
  unfoldable pub compare_numeric : String → Value → Value → Bool
  compare_numeric op actual expected =
      let c = env.float_compare actual expected in
      if str_eq op "gt"
      then is_greater c
      else if str_eq op "gte"
      then is_greater c || is_equal c
      else if str_eq op "lt"
      then is_less c
      else if str_eq op "lte"
      then is_less c || is_equal c
      else false

  items_show : String → Items → Bool
  items_show s no_items = false
  items_show s (item v vs) = let rest = items_show s vs in str_eq (env.show v) s || rest

  texts_have : String → List String → Bool
  texts_have s [] = false
  texts_have s (v ∷ vs) = let rest = texts_have s vs in str_eq v s || rest

  unfoldable pub is_in_slice : Value → Value → Bool
  unfolding items_show texts_have
  is_in_slice actual (items vs) = items_show (env.show actual) vs
  is_in_slice actual (texts vs) = texts_have (env.show actual) vs
  is_in_slice actual _ = false

  holds : String → Value → Value → Bool
  unfolding compare_numeric is_in_slice contains_text
  holds op actual expected =
      if str_eq op "exists"
      then true
      else if str_eq op "not_exists"
      then false
      else if str_eq op "eq"
      then str_eq (env.show actual) (env.show expected)
      else if str_eq op "neq"
      then not (str_eq (env.show actual) (env.show expected))
      else if str_eq op "contains"
      then contains_text (env.show actual) (env.show expected)
      else if str_eq op "gt" || str_eq op "gte" || str_eq op "lt" || str_eq op "lte"
      then compare_numeric op actual expected
      else if str_eq op "in"
      then is_in_slice actual expected
      else if str_eq op "not_in"
      then not (is_in_slice actual expected)
      else false

  unfoldable pub evaluate_condition : NotifierCondition → Value → Bool
  unfolding holds
  evaluate_condition c nil = str_eq c.operator "not_exists"
  evaluate_condition c actual = holds c.operator actual c.value

  -- The loop over the conditions: whether all of them hold.
  unfoldable pub conditions_hold : List NotifierCondition → Pulse → Bool
  conditions_hold [] e = true
  conditions_hold (c ∷ cs) e =
      let rest = conditions_hold cs e in
      if evaluate_condition c (resolve_knowledge_field e c.field) then rest else false

  unfoldable pub condition_evaluation : Turn → Outcome Turn
  unfolding conditions_hold
  condition_evaluation t = elim t.state.spirit [
    | none ↦ ok t
    | some sp ↦
        if not (is_notifier sp) || conditions_hold sp.notifier_config.conditions t.state.event
        then ok t
        else ok (record t {
          state = record (t.state) { skipped = true; processing_status = "skipped" };
        })
  ]
