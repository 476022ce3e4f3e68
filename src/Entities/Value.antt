-- ===== src/Entities/Value.antt =====
-- Values of Go's `any`, as the maps of a Pulse hold them (internal/domain/entities/pulse.go).
use eywa.Prelude.{ℕ, Bool, List, [], ◌∷◌, String}
use eywa.Prelude.Int.{ℤ}
use eywa.Prelude.Maps.{Assoc}
use eywa.Entities.Keys.{MemoryKey}

-- A float64 is read only through its conversion to an integer, so it is that integer and a rest.
pub record Float : Type 0 where
  pub truncated : ℤ
  pub rest : ℕ

-- `stringer` is a value of another type with a String method (fmt.Stringer), as time.Time, with the text that
-- the method gives; `other` is one of a type without it. The number tells such values apart.
mutual
  pub data Value : Type 0 where
    nil : Value
    text : String → Value
    int : ℤ → Value
    int64 : ℤ → Value
    float64 : Float → Value
    bool : Bool → Value
    texts : List String → Value
    items : Items → Value
    fields : Fields → Value
    memory_key : MemoryKey → Value
    stringer : String → ℕ → Value
    other : ℕ → Value

  -- []any
  pub data Items : Type 0 where
    no_items : Items
    item : Value → Items → Items

  -- map[string]any
  pub data Fields : Type 0 where
    no_fields : Fields
    field : String → Value → Fields → Fields

unfoldable pub to_assoc : Fields → Assoc Value
to_assoc Fields.no_fields = []
to_assoc (Fields.field k v fs) = (k, v) ∷ to_assoc fs
