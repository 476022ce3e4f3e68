-- ===== src/Entities/Pulse/Laws.antt =====
-- What the builder and the setters of a Pulse guarantee (internal/domain/entities/pulse.go).
use eywa.Prelude.{
  ℕ, ◌≡◌, Bool, true, false, ◌&&◌, not, Option, none, some, List, [], ◌∷◌, String, str_eq, eq_iff,
  is_empty, is_some, if◌then◌else◌, arith,
}
use eywa.Prelude.Maps.{entries, get, lookup-insert}
use eywa.Entities.Keys.{MemoryKey, memory_string, memory_valid, subject_valid}
use eywa.Entities.Value.{Value, text}
use eywa.Entities.Pulse.{Pulse, invalid_session_key, note_text, add_metadata, set_memory_key}
use eywa.Entities.Pulse.Builder.{PulseBuilder, Call, with_subject, new_pulse, call, chain, build}

-- The validity of the topic keys that a chain carries.
abbrev pub call_ok : Call → Bool
call_ok (with_subject k) = subject_valid k
call_ok _ = true

abbrev pub calls_ok : List Call → Bool
calls_ok [] = true
calls_ok (c ∷ cs) = call_ok c && calls_ok cs

-- `build` succeeds on this builder.
abbrev alive : PulseBuilder → Bool
alive b = is_some (build b)

alive-call : (c : Call) (b : PulseBuilder) → alive (call c b) ≡ (alive b && call_ok c)
unfolding build call
alive-call (with_subject k) b = ground arith
alive-call _ b = ground arith

alive-chain : (cs : List Call) (b : PulseBuilder) → alive (chain cs b) ≡ (alive b && calls_ok cs)
unfolding chain
alive-chain [] b = ground arith
alive-chain (c ∷ cs) b = ground (arith, alive-chain cs (call c b), alive-call c b)

alive-new_pulse :
    (id : String) (now : ℕ) (k : MemoryKey) → alive (new_pulse id now k) ≡ memory_valid k
unfolding build new_pulse
alive-new_pulse id now k = ground arith

-- A chain of builder calls from NewPulse builds a Pulse exactly when the session key and every
-- topic key of the chain are valid; otherwise Build returns nil.
pub build-chain :
    (id : String) (now : ℕ) (k : MemoryKey) (cs : List Call)
    → is_some (build (chain cs (new_pulse id now k))) ≡ (memory_valid k && calls_ok cs)
build-chain id now k cs =
    ground (arith, alive-chain cs (new_pulse id now k), alive-new_pulse id now k)

-- The metadata entry that `SetMemoryKey` leaves at `j`, when the key changes.
abbrev pub audit : String → String → String → String → Pulse → Option Value
audit new_key updated_by j old e =
    if str_eq "session" j
    then some (text new_key)
    else if str_eq "session_updated_by" j && not (is_empty updated_by)
    then some (text updated_by)
    else if str_eq "previous_session" j && not (is_empty old)
    then some (text old)
    else get e.metadata j

get-add_metadata :
    (k j : String) (v : Value) (e : Pulse)
    → get (add_metadata k v e).metadata j ≡ (if str_eq k j then some v else get e.metadata j)
unfolding add_metadata
get-add_metadata k j v e = lookup-insert k j v (entries e.metadata)

get-note_text :
    (k j s : String) (e : Pulse)
    → get (note_text k s e).metadata j
      ≡ (if str_eq k j && not (is_empty s) then some (text s) else get e.metadata j)
unfolding note_text
get-note_text k j s e = ground (arith, get-add_metadata k j (text s) e)

-- The Pulse that SetMemoryKey leaves behind, up to its metadata.
abbrev pub rekeyed : String → Pulse → Pulse → Pulse
rekeyed new_key e e' = record e { memory_key = new_key; metadata = e'.metadata }

-- SetMemoryKey with a valid key moves the Pulse to the session of that key and leaves every field
-- but the key and the metadata as it was. When the key changes, the metadata records the new key,
-- the editor and the previous key where they are not empty, and keeps every other entry; when it
-- does not change, the metadata stays as it was.
pub set_memory_key-valid :
    (k : MemoryKey) (updated_by j : String) (e : Pulse)
    → memory_valid k ≡ true
    → let (err, e') = set_memory_key k updated_by e in
      (err ≡ none)
      × (e' ≡ rekeyed (memory_string k) e e')
      × (get e'.metadata j ≡ (
          if str_eq (memory_string k) e.memory_key
          then get e.metadata j
          else audit (memory_string k) updated_by j e.memory_key e))
unfolding set_memory_key
set_memory_key-valid k updated_by j e h =
    let e1 = note_text "previous_session" e.memory_key e in
    let e2 = note_text "session_updated_by" updated_by e1 in
    (
      ground arith,
      ground (arith, eq_iff (memory_string k) e.memory_key),
      ground (
        arith,
        get-note_text "previous_session" j e.memory_key e,
        get-note_text "session_updated_by" j updated_by e1,
        get-add_metadata "session" j (text (memory_string k)) e2,
      ),
    )

-- SetMemoryKey with an invalid key reports the error and leaves the Pulse as it was.
pub set_memory_key-invalid :
    (k : MemoryKey) (updated_by : String) (e : Pulse)
    → memory_valid k ≡ false
    → set_memory_key k updated_by e ≡ (some invalid_session_key, e)
unfolding set_memory_key
set_memory_key-invalid k updated_by e h = ground arith
