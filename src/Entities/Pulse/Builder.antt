-- ===== src/Entities/Pulse/Builder.antt =====
-- PulseBuilder (internal/domain/entities/pulse.go). `event` is none after an invalid MemoryKey.
use eywa.Prelude.{Option, none, some, List, [], ◌∷◌, ◌++◌, String, ℕ, if◌then◌else◌}
use eywa.Prelude.Maps.{GoMap}
use eywa.Entities.Keys.{
  MemoryKey, SubjectKey, memory_string, memory_valid, subject_string, subject_valid,
}
use eywa.Entities.Value.{Value, text}
use eywa.Entities.Pulse
use eywa.Entities.Pulse.{Artifact, Pulse, SetError, invalid_session_key, invalid_topic_key}

pub record PulseBuilder : Type 0 where
  pub event : Option Pulse
  pub errs : List SetError

-- A valid key gives a Pulse with the random id and the time that the environment provides.
unfoldable pub new_pulse : String → ℕ → MemoryKey → PulseBuilder
new_pulse id now k =
    if memory_valid k
    then record {
      event = some (record {
        id = id;
        memory_key = memory_string k;
        timestamp = now;
        user_message = "";
        contact_phone = "";
        source = "";
        sub_type = "";
        event_type = "";
        idempotency_key = "";
        attachments = [];
        payload = some [];
        subject_key = "";
        metadata = some (("session", Value.memory_key k) ∷ []);
        knowledge = some [];
        parent_pulse_id = "";
        orchestration_depth = 0;
        handoff_count = 0;
      });
      errs = [];
    }
    else record { event = none; errs = invalid_session_key ∷ [] }

-- `if b.event == nil { return b }`, then a write to the event.
unfoldable pub on_event : (Pulse → Pulse) → PulseBuilder → PulseBuilder
on_event f b = record b { event = elim b.event [ none ↦ none | some e ↦ some (f e) ] }

unfoldable pub add_err : SetError → PulseBuilder → PulseBuilder
add_err e b = record b { errs = b.errs ++ e ∷ [] }

-- WithSubjectKey does nothing without an event, and refuses an invalid key.
subject_onto : SubjectKey → Option Pulse → PulseBuilder → PulseBuilder
unfolding add_err on_event Pulse.add_metadata
subject_onto k none b = b
subject_onto k (some e) b =
    if subject_valid k
    then on_event
        (λ e.
          Pulse.add_metadata "topic" (text (subject_string k))
            (record e { subject_key = subject_string k }))
        b
    else add_err invalid_topic_key b

unfoldable pub with_subject_key : SubjectKey → PulseBuilder → PulseBuilder
unfolding subject_onto
with_subject_key k b = subject_onto k b.event b

-- One call of the fluent interface.
pub data Call : Type 0 where
  with_id with_user_message with_contact_phone with_source with_sub_type : String → Call
  with_event_type with_idempotency_key : String → Call
  with_subject : SubjectKey → Call
  with_timestamp : ℕ → Call
  with_payload with_metadata with_knowledge : GoMap Value → Call
  merge_payload merge_metadata merge_knowledge : GoMap Value → Call
  add_payload add_metadata add_knowledge : String → Value → Call
  with_attachments : List Artifact → Call
  add_attachment : Artifact → Call
  with_parent : String → ℕ → Call

-- What a call writes to the event. WithSubjectKey is not among these: it can also record an error.
unfoldable pub write : Call → Pulse → Pulse
write (with_id s) e = record e { id = s }
write (with_user_message s) e = record e { user_message = s }
write (with_contact_phone s) e = record e { contact_phone = s }
write (with_source s) e = record e { source = s }
write (with_sub_type s) e = record e { sub_type = s }
write (with_event_type s) e = record e { event_type = s }
write (with_idempotency_key s) e = record e { idempotency_key = s }
write (with_subject k) e = e
write (with_timestamp t) e = record e { timestamp = t }
write (with_payload m) e = record e { payload = m }
write (with_metadata m) e = record e { metadata = m }
write (with_knowledge m) e = record e { knowledge = m }
write (merge_payload m) e = Pulse.merge_payload m e
write (merge_metadata m) e = Pulse.merge_metadata m e
write (merge_knowledge m) e = Pulse.merge_knowledge m e
write (add_payload k v) e = Pulse.add_payload k v e
write (add_metadata k v) e = Pulse.add_metadata k v e
write (add_knowledge k v) e = Pulse.add_knowledge k v e
write (with_attachments l) e = Pulse.set_attachments l e
write (add_attachment a) e = Pulse.add_attachment a e
write (with_parent p d) e = record e { parent_pulse_id = p; orchestration_depth = d }

unfoldable pub call : Call → PulseBuilder → PulseBuilder
unfolding on_event write with_subject_key
call (with_subject k) b = with_subject_key k b
call c b = on_event (write c) b

-- A chain of calls, the first one first.
unfoldable pub chain : List Call → PulseBuilder → PulseBuilder
chain [] b = b
chain (c ∷ cs) b = chain cs (call c b)

-- Build gives nothing once an error is recorded.
unfoldable pub build : PulseBuilder → Option Pulse
build b = elim b.errs [ [] ↦ b.event | e ∷ es ↦ none ]
