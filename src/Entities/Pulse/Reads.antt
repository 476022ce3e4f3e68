-- ===== src/Entities/Pulse/Reads.antt =====
-- The getters of a Pulse (internal/domain/entities/pulse.go). `none` is `ok == false`.
use eywa.Prelude.{Bool, Option, none, some, List, [], ◌∷◌, String}
use eywa.Prelude.Int.{ℤ}
use eywa.Prelude.Maps.{Assoc, GoMap, get}
use eywa.Entities.Value.{
  Value, Items, text, int, int64, float64, bool, texts, items, fields, no_items, item, to_assoc,
}
use eywa.Entities.Pulse.{Pulse}

-- val, ok := m[key]; then a type assertion or a type switch on val
abbrev pub read {ℓ} : {A : Type ℓ} → (Value → Option A) → GoMap Value → String → Option A
read as_type m key = elim (get m key) [ none ↦ none | some v ↦ as_type v ]

unfoldable pub as_text : Value → Option String
as_text (text s) = some s
as_text _ = none

unfoldable pub as_int : Value → Option ℤ
as_int (int n) = some n
as_int (int64 n) = some n
as_int (float64 x) = some x.truncated
as_int _ = none

unfoldable pub as_bool : Value → Option Bool
as_bool (bool b) = some b
as_bool _ = none

-- The loop over []any keeps the strings and skips the rest.
unfoldable pub only_texts : Items → List String
only_texts no_items = []
only_texts (item (text s) xs) = s ∷ only_texts xs
only_texts (item _ xs) = only_texts xs

unfoldable pub as_texts : Value → Option (List String)
unfolding only_texts
as_texts (texts l) = some l
as_texts (items xs) = some (only_texts xs)
as_texts _ = none

unfoldable pub as_map : Value → Option (Assoc Value)
unfolding to_assoc
as_map (fields fs) = some (to_assoc fs)
as_map _ = none

unfoldable pub get_payload_string : Pulse → String → Option String
unfolding as_text
get_payload_string e = read as_text e.payload

unfoldable pub get_knowledge_string : Pulse → String → Option String
unfolding as_text
get_knowledge_string e = read as_text e.knowledge

unfoldable pub get_metadata : Pulse → String → Option Value
get_metadata e key = get e.metadata key

unfoldable pub get_metadata_string : Pulse → String → Option String
unfolding as_text
get_metadata_string e = read as_text e.metadata

unfoldable pub get_metadata_int : Pulse → String → Option ℤ
unfolding as_int
get_metadata_int e = read as_int e.metadata

unfoldable pub get_metadata_bool : Pulse → String → Option Bool
unfolding as_bool
get_metadata_bool e = read as_bool e.metadata

unfoldable pub get_metadata_string_slice : Pulse → String → Option (List String)
unfolding as_texts
get_metadata_string_slice e = read as_texts e.metadata

unfoldable pub get_metadata_map : Pulse → String → Option (Assoc Value)
unfolding as_map
get_metadata_map e = read as_map e.metadata
