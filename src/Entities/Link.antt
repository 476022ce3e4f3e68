-- ===== src/Entities/Link.antt =====
-- The Link and its guards (internal/domain/entities/link.go). Its fluent setters, which each write
-- one field, are record updates here.
pub mod Laws
use eywa.Prelude.{
  ℕ, ◌*◌, ◌≡◌, refl, Bool, true, false, not, ◌&&◌, Option, none, some, List, [], ◌∷◌, ◌++◌, map,
  String, length, ◌==◌, ltb, contains, is_some, if◌then◌else◌, arith,
}
use eywa.Prelude.Maps.{Assoc, GoMap, get, insert, entries}
use eywa.Entities.Value.{Value}

pub record Guard : Type 0 where
  pub field : String
  pub block_list : List String
  pub allow_list : List String

-- map[string]struct{}
pub record CompiledGuard : Type 0 where
  pub field : String
  pub block_set : GoMap (Unit {0})
  pub allow_set : GoMap (Unit {0})

-- The loop `for _, v := range list { set[v] = struct{}{} }`.
unfoldable pub add_values : List String → Assoc (Unit {0}) → Assoc (Unit {0})
add_values [] set = set
add_values (v ∷ vs) set = add_values vs (insert v tt set)

unfoldable pub value_set : List String → GoMap (Unit {0})
unfolding add_values
value_set [] = none
value_set (v ∷ vs) = some (add_values (v ∷ vs) [])

unfoldable pub compile_guard : Guard → CompiledGuard
unfolding value_set
compile_guard r = record {
  field = r.field;
  block_set = value_set r.block_list;
  allow_set = value_set r.allow_list;
}

unfoldable pub is_blocked : CompiledGuard → String → Bool
is_blocked r value = is_some (get r.block_set value)

unfoldable pub is_not_allowed : CompiledGuard → String → Bool
is_not_allowed r value =
    if length (entries r.allow_set) == 0 then false else not (is_some (get r.allow_set value))

pub record Link : Type 0 where
  pub event_type : String
  pub inbound_converter_name : String
  pub require_scouts : List String
  pub pathfinder_name : String
  pub allowed_spirits : List String
  pub default_spirit : String
  pub voice_name : String
  pub channel_name : String
  pub ingestion_timeout : ℕ
  pub processing_timeout : ℕ
  pub guards : List Guard
  pub compiled_rules : List CompiledGuard
  pub metadata : GoMap Value

unfoldable pub new_link : String → Link
new_link event_type = record {
  event_type = event_type;
  inbound_converter_name = "";
  require_scouts = [];
  pathfinder_name = "";
  allowed_spirits = [];
  default_spirit = "";
  voice_name = "";
  channel_name = "";
  ingestion_timeout = 0;
  processing_timeout = 0;
  guards = [];
  compiled_rules = [];
  metadata = some [];
}

unfoldable pub with_channel : String → Link → Link
with_channel name l = record l {
  channel_name = name;
  inbound_converter_name = name;
  voice_name = name;
}

unfoldable pub add_guard : Guard → Link → Link
add_guard r l = record l { guards = l.guards ++ r ∷ [] }

unfoldable pub build : Link → Link
unfolding compile_guard
build l = record l { compiled_rules = map compile_guard l.guards }

unfoldable pub is_spirit_allowed : Link → String → Bool
is_spirit_allowed l name = elim l.allowed_spirits [
  | [] ↦ true
  | s ∷ rest ↦ contains (s ∷ rest) name
]

unfoldable pub has_multiple_spirits : Link → Bool
has_multiple_spirits l = ltb 1 (length l.allowed_spirits)

unfoldable pub has_single_spirit : Link → Bool
has_single_spirit l = length l.allowed_spirits == 1

-- time.Second in nanoseconds
abbrev pub second : ℕ
second = 1000000000

unfoldable pub get_ingestion_timeout : Link → ℕ
get_ingestion_timeout l = if l.ingestion_timeout == 0 then 5 * second else l.ingestion_timeout

unfoldable pub get_processing_timeout : Link → ℕ
get_processing_timeout l = if l.processing_timeout == 0 then 60 * second else l.processing_timeout
