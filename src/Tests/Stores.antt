-- ===== src/Tests/Stores.antt =====
-- The in-process stores on concrete inputs.
use eywa.Prelude.{
  is_some, ltb, ◌||◌, ◌≡◌, ◌≤◌, refl, true, false, [], ◌∷◌, str_eq, length, if◌then◌else◌, arith,
}
use eywa.Prelude.Maps.{lookup}
use eywa.Stores.Idempotency.{max_keys, seen, reap_expired}
use eywa.Stores.Idempotency.Laws.{Ask, asks, seen-duplicate, length-asks}
use eywa.Stores.Handoff.{
  max_keys as max_pins, Pins, get_active_spirit, set_active_spirit, get-set_active_spirit,
}

abbrev other_ask : Ask
other_ask = record { key = "b"; now = 20; ttl = 5 }

fresh : (seen "a" 10 60 []).0 ≡ false
unfolding seen lookup reap_expired
fresh = refl

seen-duplicate_example : (seen "a" 30 60 (asks (other_ask ∷ []) (seen "a" 10 60 []).1)).0 ≡ true
seen-duplicate_example =
    seen-duplicate "a" 10 60 30 60 (other_ask ∷ []) [] (omega arith) fresh (omega arith, tt)
      (omega arith)

length-asks_example : length (asks (other_ask ∷ other_ask ∷ []) []) ≤ max_keys
length-asks_example = length-asks (other_ask ∷ other_ask ∷ [])

abbrev no_pins : Pins
no_pins = []

get-set_active_spirit_example :
    ((set_active_spirit "whatsapp:569" "expert" []).0
      ≡ (is_some (lookup "whatsapp:569" no_pins) || ltb (length no_pins) max_pins))
    × (get_active_spirit "whatsapp:569" (set_active_spirit "whatsapp:569" "expert" []).1 ≡ (
        if is_some (lookup "whatsapp:569" no_pins) || ltb (length no_pins) max_pins
        then (if str_eq "whatsapp:569" "whatsapp:569"
            then "expert"
            else get_active_spirit "whatsapp:569" [])
        else get_active_spirit "whatsapp:569" []))
get-set_active_spirit_example = get-set_active_spirit "whatsapp:569" "whatsapp:569" "expert" []
