-- ===== src/Entities/Keys.antt =====
-- The keys of a session and of a topic (internal/domain/entities/pulse.go).
pub mod Laws
use eywa.Prelude.{Bool, true, false, String, concat, is_empty, ◌||◌, if◌then◌else◌}

pub record MemoryKey : Type 0 where
  pub channel : String
  pub user : String

pub record SubjectKey : Type 0 where
  pub entity : String
  pub id : String

-- fmt.Sprintf("%s:%s", a, b)
abbrev pub colon_pair : String → String → String
colon_pair a b = concat a (concat ":" b)

unfoldable pub memory_string : MemoryKey → String
memory_string k = colon_pair k.channel k.user

-- `Validate` returns an error exactly when this is false.
unfoldable pub memory_valid : MemoryKey → Bool
memory_valid k = if is_empty k.channel || is_empty k.user then false else true

unfoldable pub subject_string : SubjectKey → String
subject_string k = colon_pair k.entity k.id

unfoldable pub subject_valid : SubjectKey → Bool
subject_valid k = if is_empty k.entity || is_empty k.id then false else true
