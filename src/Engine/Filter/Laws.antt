-- ===== src/Engine/Filter/Laws.antt =====
-- What the filter lets through (internal/implementation/orchestrator/pipeline_step_validation.go).
use eywa.Prelude.{
  ℕ, zero, suc, ◌<◌, ◌≡◌, refl, Option, none, some, List, [], ◌∷◌, map, String, is_empty,
  if◌then◌else◌, inl, inr, arith, Option-cases,
}
use eywa.Prelude.Maps.{Assoc, lookup}
use eywa.Errors.{Err, err_filter_blocked, err_filter_not_allowed}
use eywa.Entities.Value.{Value}
use eywa.Entities.Pulse.{Pulse}
use eywa.Entities.Link.{Guard, Link, build, compile_guard}
use eywa.Entities.Link.Laws.{listed, outside, compile_guard_lem, field-compile_guard}
use eywa.Engine.Filter.{
  cut, leaf_text, sub_map, size, resolve_fuel, resolve_map_path, resolve_event_field, check_rules,
}

-- The verdict on a value by one guard, from the guard's own lists.
abbrev pub guard_verdict : Guard → String → Option Err
guard_verdict g value =
    if is_empty value
    then none
    else if listed g value
    then some err_filter_blocked
    else if outside g value
    then some err_filter_not_allowed
    else none

-- The first guard with a verdict against the Pulse decides.
abbrev pub first_verdict : Pulse → List Guard → Option Err
first_verdict e [] = none
first_verdict e (g ∷ gs) = elim (guard_verdict g (resolve_event_field e g.field)) [
  | some x ↦ some x
  | none ↦ first_verdict e gs
]

check_rules-compiled :
    (e : Pulse) (gs : List Guard) → check_rules e (map compile_guard gs) ≡ first_verdict e gs
unfolding check_rules
check_rules-compiled e [] = refl
check_rules-compiled e (g ∷ gs) =
    simp field-compile_guard (
      ground
        (arith, compile_guard_lem g (resolve_event_field e g.field), check_rules-compiled e gs))

-- The filter's verdict on a built Link is that of the guards as they were written: the first guard,
-- in order, whose field resolves to a text that its block list has, or that its non-empty allow list
-- lacks, refuses the Pulse with the error of that list, the block list first; a guard whose field
-- resolves to nothing is skipped; and the Pulse passes if no guard refuses it.
pub check_rules-build :
    (e : Pulse) (l : Link) → check_rules e (build l).compiled_rules ≡ first_verdict e l.guards
unfolding build
check_rules-build e l = check_rules-compiled e l.guards

size-cut : (s before after : String) → cut s ≡ some (before, after) → size after < size s
unfolding cut size
size-cut String.[] before after h = cc
size-cut (String.◌∷◌ c s) before after h = elim (Option-cases (cut s)) [
  | inl p ↦ ground arith
  | inr (r, p) ↦ ground (arith, size-cut s r.0 r.1 p)
]

resolve_fuel-enough :
    (n k : ℕ) (m : Assoc Value) (path : String)
    → size path < n
    → size path < k
    → resolve_fuel n m path ≡ resolve_fuel k m path
unfolding resolve_fuel
resolve_fuel-enough zero k m path h h' = elim h [ ]
resolve_fuel-enough (suc n) zero m path h h' = elim h' [ ]
resolve_fuel-enough (suc n) (suc k) m path h h' = elim (Option-cases (cut path)) [
  | inl p ↦ rw (p, resolve_fuel)
  | inr ((key, rest), p) ↦ elim (Option-cases (sub_map (lookup key m))) [
    | inl q ↦ rw (p, resolve_fuel) (rw q)
    | inr (sub, q) ↦
        rw (p, resolve_fuel)
          (rw q (
            resolve_fuel-enough n k sub rest (omega (arith, size-cut path key rest p))
              (omega (arith, size-cut path key rest p))))
  ]
]

-- One step of the recursion in the source.
abbrev pub resolve_once : Assoc Value → String → String
resolve_once m path = elim (cut path) [
  | none ↦ leaf_text (lookup path m)
  | some (key, rest) ↦ elim (sub_map (lookup key m)) [
    | none ↦ ""
    | some sub ↦ resolve_map_path sub rest
  ]
]

-- The fuel is enough on every map and every path.
resolve_map_path-step :
    (m : Assoc Value) (path : String) → resolve_map_path m path ≡ resolve_once m path
unfolding resolve_map_path resolve_fuel
resolve_map_path-step m path = elim (Option-cases (cut path)) [
  | inl p ↦ rw (p, resolve_fuel, resolve_once)
  | inr ((key, rest), p) ↦ elim (Option-cases (sub_map (lookup key m))) [
    | inl q ↦ rw (p, resolve_fuel, resolve_once) (rw q)
    | inr (sub, q) ↦
        rw (p, resolve_fuel, resolve_once)
          (rw q (
            resolve_fuel-enough (size path) (suc (size rest)) sub rest
              (omega (arith, size-cut path key rest p)) (omega arith)))
  ]
]
