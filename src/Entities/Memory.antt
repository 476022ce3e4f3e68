-- ===== src/Entities/Memory.antt =====
-- The session memory and its messages (internal/domain/entities/memory.go). Timestamps are left out.
use eywa.Prelude.{Bool, List, String}
use eywa.Prelude.Maps.{GoMap}
use eywa.Entities.Value.{Value}

pub record Thread : Type 0 where
  pub role : String
  pub content : String
  pub is_user_facing : Bool

pub record Memory : Type 0 where
  pub memory_key : String
  pub subject_key : String
  pub threads : List Thread
  pub summary : String
  pub topic_facts : GoMap Value
