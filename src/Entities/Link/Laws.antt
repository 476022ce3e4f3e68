-- ===== src/Entities/Link/Laws.antt =====
-- Compiled guards decide membership in the lists that they were built from
-- (internal/domain/entities/link.go).
use eywa.Prelude.{
  ◌≡◌, refl, Bool, false, not, ◌||◌, List, [], ◌∷◌, String, length, contains, is_some, arith, ◌<◌,
  ◌≤◌,
}
use eywa.Prelude.Maps.{get, entries, Assoc, lookup, insert, lookup-insert, length-insert}
use eywa.Entities.Link.{Guard, add_values, value_set, compile_guard, is_blocked, is_not_allowed}

lookup-add_values :
    (s : String) (vs : List String) (set : Assoc (Unit {0}))
    → is_some (lookup s (add_values vs set)) ≡ (contains vs s || is_some (lookup s set))
unfolding add_values
lookup-add_values s [] set = refl
lookup-add_values s (v ∷ vs) set =
    ground (arith, lookup-add_values s vs (insert v tt set), lookup-insert v s tt set)

length-add_values :
    (vs : List String) (set : Assoc (Unit {0})) → length set ≤ length (add_values vs set)
unfolding add_values
length-add_values [] set = ground arith
length-add_values (v ∷ vs) set =
    ground (arith, length-add_values vs (insert v tt set), length-insert v tt set)

-- The verdicts of a guard, read off its lists.
abbrev pub listed : Guard → String → Bool
listed r s = contains r.block_list s

abbrev pub outside : Guard → String → Bool
outside r s = elim r.allow_list [ [] ↦ false | v ∷ vs ↦ not (contains (v ∷ vs) s) ]

is_some-value_set : (vs : List String) (s : String) → is_some (get (value_set vs) s) ≡ contains vs s
unfolding value_set lookup
is_some-value_set [] s = refl
is_some-value_set (v ∷ vs) s =
    ground (arith, lookup-add_values s vs (insert v tt []), lookup-insert {0} v s tt [])

value_set-pos : (v : String) (vs : List String) → 0 < length (entries (value_set (v ∷ vs)))
unfolding value_set insert
value_set-pos v vs = ground (arith, length-add_values vs (insert v tt []))

-- A compiled guard gives the verdicts of the lists that it was compiled from: a value is blocked
-- when the block list has it, and not allowed when a non-empty allow list lacks it.
pub compile_guard_lem :
    (r : Guard) (s : String)
    → (is_blocked (compile_guard r) s ≡ listed r s)
      × (is_not_allowed (compile_guard r) s ≡ outside r s)
unfolding compile_guard is_blocked is_not_allowed
compile_guard_lem r s = (is_some-value_set r.block_list s, allowed r.allow_list)
  where
    allowed :
        (vs : List String)
        → is_not_allowed (compile_guard (record r { allow_list = vs })) s
          ≡ outside (record r { allow_list = vs }) s
    allowed [] = refl
    allowed (v ∷ vs) = ground (arith, is_some-value_set (v ∷ vs) s, value_set-pos v vs)

pub field-compile_guard : (r : Guard) → (compile_guard r).field ≡ r.field
unfolding compile_guard
field-compile_guard r = refl
