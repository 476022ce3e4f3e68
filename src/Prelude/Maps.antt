-- ===== src/Prelude/Maps.antt =====
-- Go's map[string]V: `none` is the nil map, an allocated map is an association list. Insertion
-- replaces a key in place, so keys stay unique; the order of entries stands for an iteration order
-- that Go leaves open.
use Prim.Native.Nat.{suc, ◌≤◌}
use Prim.Native.String.{String}
use mathlib.Core.Path.{◌≡◌, refl}
use mathlib.Core.Option.{Option, none, some}
use mathlib.Core.List.{List, [], ◌∷◌}
use native.Mathlib.Omega.{arith}
use text.Mathlib.Text.{◌==◌ as str_eq}
use text.Mathlib.TextEquality.{eq_iff}
use eywa.Prelude.Tests.{if◌then◌else◌, is_some}
use eywa.Prelude.Lists.{length}

abbrev pub Assoc {ℓ} : Type ℓ → Type ℓ
Assoc V = List (String × V)

module _ {ℓ} {V : Type ℓ} where
  unfoldable pub lookup : String → Assoc V → Option V
  lookup key [] = none
  lookup key ((first, v) ∷ rest) = if str_eq first key then some v else lookup key rest

  -- m[k] = v
  unfoldable pub insert : String → V → Assoc V → Assoc V
  insert key v [] = (key, v) ∷ []
  insert key v ((first, w) ∷ rest) =
      if str_eq first key then (first, v) ∷ rest else (first, w) ∷ insert key v rest

  -- delete(m, k)
  unfoldable pub remove : String → Assoc V → Assoc V
  remove key [] = []
  remove key ((first, v) ∷ rest) =
      let kept = remove key rest in if str_eq first key then kept else (first, v) ∷ kept

  -- for k, v := range from { to[k] = v }
  unfoldable pub merge : Assoc V → Assoc V → Assoc V
  merge [] to = to
  merge ((k, v) ∷ from) to = insert k v (merge from to)

  pub lookup-insert :
      (k j : String) (v : V) (m : Assoc V)
      → lookup j (insert k v m) ≡ (if str_eq k j then some v else lookup j m)
  unfolding lookup insert
  lookup-insert k j v [] = refl
  lookup-insert k j v ((first, w) ∷ rest) =
      ground (arith, lookup-insert k j v rest, eq_iff first k, eq_iff first j, eq_iff k j)

  pub lookup-remove :
      (k j : String) (m : Assoc V)
      → lookup j (remove k m) ≡ (if str_eq k j then none else lookup j m)
  unfolding lookup remove
  lookup-remove k j [] = ground arith
  lookup-remove k j ((first, w) ∷ rest) =
      ground (arith, lookup-remove k j rest, eq_iff first k, eq_iff first j, eq_iff k j)

  abbrev pub or_else : Option V → Option V → Option V
  or_else (some v) o = some v
  or_else none o = o

  pub lookup-merge :
      (j : String) (from to : Assoc V)
      → lookup j (merge from to) ≡ or_else (lookup j from) (lookup j to)
  unfolding lookup merge
  lookup-merge j [] to = refl
  lookup-merge j ((k, v) ∷ from) to =
      ground (arith, lookup-insert k j v (merge from to), lookup-merge j from to)

  -- How far a write grows the map.
  pub length-insert :
      (k : String) (v : V) (m : Assoc V)
      → length (insert k v m) ≡ (if is_some (lookup k m) then length m else suc (length m))
  unfolding lookup insert
  length-insert k v [] = refl
  length-insert k v ((j, w) ∷ m) = ground (arith, length-insert k v m)

  pub length-remove-le : (k : String) (m : Assoc V) → length (remove k m) ≤ length m
  unfolding remove
  length-remove-le k [] = omega arith
  length-remove-le k ((j, w) ∷ m) = ground (arith, length-remove-le k m)

-- A Go map value, nil or allocated.
abbrev pub GoMap {ℓ} : Type ℓ → Type ℓ
GoMap V = Option (Assoc V)

module _ {ℓ} {V : Type ℓ} where
  -- The entries that `range` visits; a nil map has none.
  abbrev pub entries : GoMap V → Assoc V
  entries none = []
  entries (some m) = m

  -- v, ok := m[k]
  abbrev pub get : GoMap V → String → Option V
  get m k = lookup k (entries m)

  -- if m == nil { m = make(...) }; m[k] = v
  abbrev pub put : String → V → GoMap V → GoMap V
  put k v m = some (insert k v (entries m))

  -- if m == nil { m = make(...) }; for k, v := range from { m[k] = v }
  abbrev pub put_all : GoMap V → GoMap V → GoMap V
  put_all from m = some (merge (entries from) (entries m))

pub ruleset map_laws = (lookup-insert, lookup-remove, lookup-merge)
