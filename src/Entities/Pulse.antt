-- ===== src/Entities/Pulse.antt =====
-- The Pulse, the unit of work, and its setters (internal/domain/entities/pulse.go).
-- A Go map that a caller hands over is taken by value: the aliasing of that map with the caller's is
-- not modelled. Identifiers and times come from outside and are arguments.
pub mod Builder
pub mod Reads
pub mod Laws
use eywa.Prelude.{
  ℕ, ◌≡◌, Bool, true, false, Option, none, some, List, [], ◌∷◌, ◌++◌, String, str_eq, is_empty,
  if◌then◌else◌,
}
use eywa.Prelude.Maps.{GoMap, get, put, put_all}
use eywa.Entities.Keys.{
  MemoryKey, SubjectKey, memory_string, memory_valid, subject_string, subject_valid,
}
use eywa.Entities.Value.{Value, text}

pub data ArtifactType : Type 0 where
  image audio video document : ArtifactType

pub record Artifact : Type 0 where
  pub type : ArtifactType
  pub url : String
  pub mime_type : String
  pub file_name : String
  pub caption : String
  pub media_id : String
  pub bytes : List ℕ

pub record Pulse : Type 0 where
  pub id : String
  pub memory_key : String
  pub timestamp : ℕ
  pub user_message : String
  pub contact_phone : String
  pub source : String
  pub sub_type : String
  pub event_type : String
  pub idempotency_key : String
  pub attachments : List Artifact
  pub payload : GoMap Value
  pub subject_key : String
  pub metadata : GoMap Value
  pub knowledge : GoMap Value
  pub parent_pulse_id : String
  pub orchestration_depth : ℕ
  pub handoff_count : ℕ

unfoldable pub add_knowledge : String → Value → Pulse → Pulse
add_knowledge k v e = record e { knowledge = put k v e.knowledge }

unfoldable pub set_knowledge : GoMap Value → Pulse → Pulse
set_knowledge m e = record e { knowledge = m }

unfoldable pub merge_knowledge : GoMap Value → Pulse → Pulse
merge_knowledge m e = record e { knowledge = put_all m e.knowledge }

unfoldable pub add_payload : String → Value → Pulse → Pulse
add_payload k v e = record e { payload = put k v e.payload }

unfoldable pub set_payload : GoMap Value → Pulse → Pulse
set_payload m e = record e { payload = m }

unfoldable pub merge_payload : GoMap Value → Pulse → Pulse
merge_payload m e = record e { payload = put_all m e.payload }

unfoldable pub add_metadata : String → Value → Pulse → Pulse
add_metadata k v e = record e { metadata = put k v e.metadata }

unfoldable pub set_metadata : GoMap Value → Pulse → Pulse
set_metadata m e = record e { metadata = m }

unfoldable pub merge_metadata : GoMap Value → Pulse → Pulse
merge_metadata m e = record e { metadata = put_all m e.metadata }

unfoldable pub add_attachment : Artifact → Pulse → Pulse
add_attachment a e = record e { attachments = e.attachments ++ a ∷ [] }

unfoldable pub set_attachments : List Artifact → Pulse → Pulse
set_attachments atts e = record e { attachments = atts }

-- `if s != "" { e.AddMetadata(key, s) }`
unfoldable pub note_text : String → String → Pulse → Pulse
unfolding add_metadata
note_text key s e = if is_empty s then e else add_metadata key (text s) e

pub data SetError : Type 0 where
  invalid_session_key invalid_topic_key : SetError

-- The error, if any, and the Pulse as it is afterwards.
unfoldable pub set_memory_key : MemoryKey → String → Pulse → Option SetError × Pulse
unfolding note_text add_metadata
set_memory_key k updated_by e =
    let new_key = memory_string k in
    if memory_valid k
    then (if str_eq new_key e.memory_key
        then (none, e)
        else (let e1 = note_text "previous_session" e.memory_key e in
            let e2 = note_text "session_updated_by" updated_by e1 in
            let e3 = add_metadata "session" (text new_key) e2 in
            (none, record e3 { memory_key = new_key })))
    else (some invalid_session_key, e)

unfoldable pub set_topic : SubjectKey → String → Pulse → Option SetError × Pulse
unfolding note_text add_metadata
set_topic k updated_by e =
    let new_key = subject_string k in
    if subject_valid k
    then (if str_eq new_key e.subject_key
        then (none, e)
        else (let e1 = note_text "previous_topic" e.subject_key e in
            let e2 = note_text "topic_updated_by" updated_by e1 in
            let e3 = add_metadata "topic" (text new_key) e2 in
            (none, record e3 { subject_key = new_key })))
    else (some invalid_topic_key, e)

unfoldable pub set_contact_phone : String → String → Pulse → Pulse
unfolding note_text add_metadata
set_contact_phone phone updated_by e =
    if str_eq phone e.contact_phone
    then e
    else (let e1 = note_text "previous_contact_phone" e.contact_phone e in
        let e2 = note_text "contact_phone_updated_by" updated_by e1 in
        record e2 { contact_phone = phone })
