-- ===== src/Tests/Entities.antt =====
-- Session keys and Pulses on concrete inputs.
use eywa.Prelude.{◌≡◌, refl, true, ◌&&◌, none, [], ◌∷◌, str_eq, is_some, if◌then◌else◌}
use eywa.Prelude.Maps.{get}
use eywa.Entities.Keys.{MemoryKey, memory_string, memory_valid}
use eywa.Entities.Keys.Laws.{memory_string-inj}
use eywa.Entities.Pulse.{set_memory_key}
use eywa.Entities.Pulse.Builder.{Call, chain, build, new_pulse, with_subject}
use eywa.Entities.Pulse.Laws.{build-chain, calls_ok, set_memory_key-valid, rekeyed, audit}
use eywa.Tests.Fixtures.{hello}

abbrev phone_key : MemoryKey
phone_key = record { channel = "whatsapp"; user = "570" }

memory_string-inj_example : phone_key ≡ phone_key
memory_string-inj_example = memory_string-inj phone_key phone_key refl refl refl

abbrev no_topic : Call
no_topic = with_subject (record { entity = ""; id = "" })

build-chain_example :
    is_some (build (chain (no_topic ∷ []) (new_pulse "p2" 5 phone_key)))
    ≡ (memory_valid phone_key && calls_ok (no_topic ∷ []))
build-chain_example = build-chain "p2" 5 phone_key (no_topic ∷ [])

phone_valid : memory_valid phone_key ≡ true
unfolding memory_valid
phone_valid = refl

set_memory_key-valid_example :
    let (err, e') = set_memory_key phone_key "scout" hello in
    (err ≡ none)
    × (e' ≡ rekeyed (memory_string phone_key) hello e')
    × (get e'.metadata "session" ≡ (
        if str_eq (memory_string phone_key) "whatsapp:569"
        then get hello.metadata "session"
        else audit (memory_string phone_key) "scout" "session" "whatsapp:569" hello))
set_memory_key-valid_example = set_memory_key-valid phone_key "scout" "session" hello phone_valid
