-- ===== src/Reasoning/Plan/Laws.antt =====
-- What the plan of a turn guarantees (internal/implementation/orchestrator/plan_scratchpad.go).
use eywa.Prelude.{◌≡◌, ◌≤◌, refl, List, [], ◌∷◌, length, length-take, arith}
use eywa.Prelude.Int.{ℤ}
use eywa.Reasoning.Plan.{PlanState, PlanItem, new_plan_state, apply, incomplete}

-- What the updates of one turn leave: each replaces the items.
abbrev pub updates : List (List PlanItem) → PlanState → PlanState
updates [] p = p
updates (its ∷ more) p = updates more (apply its p)

length-apply : (its : List PlanItem) (p : PlanState) → length (apply its p).items ≤ p.max_items
unfolding apply
length-apply its p = ground (arith, length-take p.max_items its)

max_items-apply : (its : List PlanItem) (p : PlanState) → (apply its p).max_items ≡ p.max_items
unfolding apply
max_items-apply its p = refl

length-updates :
    (us : List (List PlanItem)) (p : PlanState)
    → length p.items ≤ p.max_items
    → length (updates us p).items ≤ p.max_items
length-updates [] p h = h
length-updates (its ∷ us) p h = omega (
  arith,
  length-updates us (apply its p) (omega (arith, length-apply its p, max_items-apply its p)),
  max_items-apply its p,
)

length-incomplete-le : (its : List PlanItem) → length (incomplete its) ≤ length its
unfolding incomplete
length-incomplete-le [] = omega arith
length-incomplete-le (it ∷ its) = ground (arith, length-incomplete-le its)

-- However often the model updates its plan in a turn, the plan never has more items than the limit that
-- the turn started with, and no more titles are reported as open.
pub updates-bounded :
    (max : ℤ) (us : List (List PlanItem))
    → (length (updates us (new_plan_state max)).items ≤ (new_plan_state max).max_items)
      × (length (incomplete (updates us (new_plan_state max)).items)
          ≤ (new_plan_state max).max_items)
unfolding new_plan_state
updates-bounded max us =
    let b = length-updates us (new_plan_state max) (omega arith) in
    (b, omega (arith, b, length-incomplete-le (updates us (new_plan_state max)).items))
