-- ===== src/Engine/Filter.antt =====
-- FilterStep: the guards of a Link against the fields of a Pulse
-- (internal/implementation/orchestrator/pipeline_step_validation.go).
pub mod Laws
use Prim.Native.Char.{Char, code}
use eywa.Prelude.{
  ℕ, zero, suc, Bool, true, false, Option, none, some, List, [], ◌∷◌, String, str_eq, is_empty,
  ◌==◌, if◌then◌else◌,
}
use eywa.Prelude.Maps.{Assoc, entries, lookup}
use eywa.Errors.{Err, err_filter_blocked, err_filter_not_allowed}
use eywa.Pipeline.{Outcome, ok, fail}
use eywa.Entities.Keys.{memory_string}
use eywa.Entities.Value.{Value, text, memory_key, stringer, fields, to_assoc}
use eywa.Entities.Pulse.{Pulse}
use eywa.Entities.Link.{CompiledGuard, is_blocked, is_not_allowed}
use eywa.Engine.State.{Turn}

abbrev cons_first : Char → Option (String × String) → Option (String × String)
cons_first c none = none
cons_first c (some (before, after)) = some (String.◌∷◌ c before, after)

-- strings.Cut(s, "."): `none` where there is no dot, and then Go's `before` is all of `s`.
unfoldable pub cut : String → Option (String × String)
cut String.[] = none
cut (String.◌∷◌ c s) =
    let rest = cut s in if code c == b'.' then some ("", s) else cons_first c rest

-- val, ok := m[key]; a missing key and a nil value read as "". A MemoryKey has a String method too.
unfoldable pub leaf_text : Option Value → String
leaf_text (some (text s)) = s
leaf_text (some (memory_key k)) = memory_string k
leaf_text (some (stringer s n)) = s
leaf_text _ = ""

-- val.(map[string]any)
unfoldable pub sub_map : Option Value → Option (Assoc Value)
sub_map (some (fields fs)) = some (to_assoc fs)
sub_map _ = none

-- The recursion of the source is on the path; the fuel is the number of calls left.
unfoldable pub resolve_fuel : ℕ → Assoc Value → String → String
unfolding leaf_text sub_map
resolve_fuel zero m path = ""
resolve_fuel (suc n) m path = elim (cut path) [
  | none ↦ leaf_text (lookup path m)
  | some (key, rest) ↦ elim (sub_map (lookup key m)) [
    | none ↦ ""
    | some sub ↦ resolve_fuel n sub rest
  ]
]

-- The characters of a text.
unfoldable pub size : String → ℕ
size String.[] = 0
size (String.◌∷◌ c s) = suc (size s)

unfoldable pub resolve_map_path : Assoc Value → String → String
unfolding resolve_fuel size
resolve_map_path m path = resolve_fuel (suc (size path)) m path

unfoldable pub resolve_top_level_field : Pulse → String → String
resolve_top_level_field e field =
    if str_eq field "contact_phone"
    then e.contact_phone
    else if str_eq field "memory_key"
    then e.memory_key
    else if str_eq field "source"
    then e.source
    else if str_eq field "sub_type"
    then e.sub_type
    else if str_eq field "event_type"
    then e.event_type
    else if str_eq field "subject_key"
    then e.subject_key
    else if str_eq field "idempotency_key"
    then e.idempotency_key
    else if str_eq field "user_message"
    then e.user_message
    else ""

unfoldable pub resolve_event_field : Pulse → String → String
unfolding cut resolve_top_level_field resolve_map_path
resolve_event_field e field = elim (cut field) [
  | none ↦ resolve_top_level_field e field
  | some (prefix, rest) ↦
      if str_eq prefix "knowledge"
      then resolve_map_path (entries e.knowledge) rest
      else if str_eq prefix "metadata"
      then resolve_map_path (entries e.metadata) rest
      else if str_eq prefix "payload"
      then resolve_map_path (entries e.payload) rest
      else ""
]

-- The loop over the compiled rules: `none` when all rules pass.
unfoldable pub check_rules : Pulse → List CompiledGuard → Option Err
check_rules e [] = none
check_rules e (rule ∷ rules) =
    let value = resolve_event_field e rule.field in
    let rest = check_rules e rules in
    if is_empty value
    then rest
    else if is_blocked rule value
    then some err_filter_blocked
    else if is_not_allowed rule value
    then some err_filter_not_allowed
    else rest

unfoldable pub filter_step : Turn → Outcome Turn
filter_step t = elim (check_rules t.state.event t.state.event_config.compiled_rules) [
  | none ↦ ok t
  | some e ↦ fail e t
]
