-- ===== src/Stores/Handoff.antt =====
-- inMemoryHandoffStore (internal/implementation/orchestrator/handoff_store_memory.go).
use eywa.Prelude.{
  ℕ, ◌≡◌, Bool, true, false, not, ◌&&◌, Option, none, some, String, str_eq, length, leb, is_some,
  if◌then◌else◌, ◌||◌, ltb, arith,
}
use eywa.Prelude.Maps.{Assoc, lookup, insert, remove, lookup-insert}

abbrev pub max_keys : ℕ
max_keys = 10000

abbrev pub Pins : Type 0
Pins = Assoc String

abbrev pub or_empty : Option String → String
or_empty none = ""
or_empty (some s) = s

-- A missing key reads as "".
unfoldable pub get_active_spirit : String → Pins → String
get_active_spirit key pins = or_empty (lookup key pins)

-- `false` is the key limit error.
unfoldable pub set_active_spirit : String → String → Pins → Bool × Pins
set_active_spirit key spirit pins =
    if not (is_some (lookup key pins)) && leb max_keys (length pins)
    then (false, pins)
    else (true, insert key spirit pins)

unfoldable pub clear_active_spirit : String → Pins → Pins
clear_active_spirit key pins = remove key pins

pub read-set_active_spirit :
    (key j spirit : String) (pins : Pins)
    → get_active_spirit j (set_active_spirit key spirit pins).1 ≡ (
        if (set_active_spirit key spirit pins).0 && str_eq key j
        then spirit
        else get_active_spirit j pins)
unfolding get_active_spirit set_active_spirit
read-set_active_spirit key j spirit pins = ground (arith, lookup-insert key j spirit pins)

room-set_active_spirit :
    (key spirit : String) (pins : Pins)
    → (set_active_spirit key spirit pins).0
      ≡ (is_some (lookup key pins) || ltb (length pins) max_keys)
unfolding set_active_spirit
room-set_active_spirit key spirit pins = ground (arith)

-- The store takes a pin exactly for a session that has one already or while it holds fewer than
-- max_keys pins. A pin that it takes is read back for its session, and no other session changes; a pin
-- that it refuses changes nothing.
pub get-set_active_spirit :
    (key j spirit : String) (pins : Pins)
    → ((set_active_spirit key spirit pins).0
        ≡ (is_some (lookup key pins) || ltb (length pins) max_keys))
      × (get_active_spirit j (set_active_spirit key spirit pins).1 ≡ (
          if is_some (lookup key pins) || ltb (length pins) max_keys
          then (if str_eq key j then spirit else get_active_spirit j pins)
          else get_active_spirit j pins))
get-set_active_spirit key j spirit pins = (
  room-set_active_spirit key spirit pins,
  ground (arith, read-set_active_spirit key j spirit pins, room-set_active_spirit key spirit pins),
)
