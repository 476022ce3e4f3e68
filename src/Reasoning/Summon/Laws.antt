-- ===== src/Reasoning/Summon/Laws.antt =====
-- Chains of summons, relays of summons and handoffs, and the places of the results
-- (internal/implementation/orchestrator/summon_service.go, handoff_service.go and reasoning_service.go).
use eywa.Prelude.{
  ℕ, zero, suc, ◌+◌, ◌≡◌, ◌≤◌, ◌<◌, refl, ◌∙◌, ap, subst, Bool, true, false, Option, none, some,
  List, [], ◌∷◌, map, length, All, String, contains, inl, inr, Bool-cases, Option-cases,
  if◌then◌else◌, arith, not,
}
use eywa.Prelude.Int.{positive_or, ℤ, pos, negsuc}
use eywa.Errors.Action.{ActionErr}
use eywa.Entities.Memory.{Memory}
use eywa.Entities.Pulse.{Pulse}
use eywa.Entities.Spirit.{Spirit, is_orchestrator}
use eywa.Engine.State.{Scout}
use eywa.Engine.Routing.{run_scouts}
use eywa.Reasoning.Oracle.{ToolCall}
use eywa.Reasoning.Dispatch.{ActionResult, and_then}
use eywa.Reasoning.Transfer.{
  validate_handoff, max_handoffs_of, build_child_pulse as handed_pulse, HandoffError, Leaves,
  run_scouts-Leaves,
}
use eywa.Reasoning.Summon.{
  SummonService, max_depth_of, validate_summon, build_child_pulse, apply_is_critical_overrides,
  is_summon, regular_of, placed, execute_summon_call, execute_all_actions, apart, executed_by,
}

pub record Hop : Type 0 where
  pub name : String
  pub task : String
  pub spirit : Spirit

-- Successive summons: each Spirit summons the next on the child Pulse, once the scouts of the next have
-- run on it.
unfoldable pub summons : List (Hop × List Scout) → Pulse → Option Pulse
summons [] e = some e
summons ((hop, scouts) ∷ hops) e =
    let rest = summons hops (run_scouts scouts (build_child_pulse hop.task e)) in
    elim (validate_summon hop.name e hop.spirit) [ none ↦ rest | some x ↦ none ]

validate_summon-lt :
    (name : String) (e : Pulse) (sp : Spirit)
    → validate_summon name e sp ≡ none
    → e.orchestration_depth < max_depth_of sp.orchestrator_config
unfolding validate_summon
validate_summon-lt name e sp h = ground arith

-- A chain of summons that is let through, with scouts that leave the depth alone, counts its depth and never
-- goes beyond the largest limit of the Spirits that summon.
pub summons-bounded :
    (hops : List (Hop × List Scout)) (e e' : Pulse) (limit : ℕ)
    → All
        (λ (hop : Hop × List Scout).
          (max_depth_of hop.0.spirit.orchestrator_config ≤ limit)
          × All (Leaves (λ (x : Pulse). x.orchestration_depth)) hop.1)
        hops
    → e.orchestration_depth ≤ limit
    → summons hops e ≡ some e'
    → (e'.orchestration_depth ≡ e.orchestration_depth + length hops)
      × (e'.orchestration_depth ≤ limit)
unfolding summons build_child_pulse
summons-bounded [] e e' limit a l h =
    let p : e ≡ e' = cc in
    subst
      (λ (x : Pulse).
        (x.orchestration_depth ≡ e.orchestration_depth + 0) × (x.orchestration_depth ≤ limit))
      p (omega arith, l)
summons-bounded ((hop, scouts) ∷ hops) e e' limit ((al, modest), a) l h =
    let child = run_scouts scouts (build_child_pulse hop.task e) in
    elim (Option-cases (validate_summon hop.name e hop.spirit)) [
      | inl v ↦
          let on : summons hops child ≡ some e' =
            subst (λ o. (elim o [ none ↦ summons hops child | some x ↦ none ]) ≡ some e') v h in
          let below = validate_summon-lt hop.name e hop.spirit v in
          let counted : child.orchestration_depth ≡ suc e.orchestration_depth =
            run_scouts-Leaves (λ (x : Pulse). x.orchestration_depth) scouts
              (build_child_pulse hop.task e) modest in
          let (count, inside) =
            summons-bounded hops child e' limit a (omega (arith, counted, below, al)) on in
          (omega (arith, count, counted), inside)
      | inr (x, v) ↦
          let lost : ◌≡◌ {A = Option Pulse} none (some e') =
            subst (λ o. (elim o [ none ↦ summons hops child | some x ↦ none ]) ≡ some e') v h in
          cc
    ]

-- One round of a relay: `a` summons `b`, which answers by a handoff to `a`.
abbrev pub let_through : Option ActionErr → Option HandoffError → Pulse → Option Pulse
let_through none none e = some e
let_through _ _ e = none

abbrev pub relay_round : Hop → Hop → Pulse → Option Pulse
relay_round a b e =
    let child = build_child_pulse b.task e in
    let_through (validate_summon b.name e a.spirit) (validate_handoff a.name child b.spirit)
      (handed_pulse child)

abbrev pub and_round : Hop → Hop → Option Pulse → Option Pulse
and_round a b none = none
and_round a b (some e) = relay_round a b e

unfoldable pub relay : Hop → Hop → ℕ → Pulse → Option Pulse
relay a b zero e = some e
relay a b (suc n) e = and_round a b (relay a b n e)

positive_or-positive : (z : ℤ) (n : ℕ) → 0 < n → 0 < positive_or z n
unfolding positive_or
positive_or-positive (pos zero) n h = h
positive_or-positive (pos (suc m)) n h = omega arith
positive_or-positive (negsuc m) n h = h

validate_summon-ground :
    (name : String) (e : Pulse) (sp : Spirit)
    → contains sp.orchestrator_config.sub_spirits name ≡ true
    → e.orchestration_depth ≡ 0
    → validate_summon name e sp ≡ none
unfolding validate_summon max_depth_of
validate_summon-ground name e sp c d =
    let above = positive_or-positive sp.orchestrator_config.max_depth 3 (omega arith) in
    ground (arith, c, d, above)

validate_handoff-first :
    (name : String) (e : Pulse) (sp : Spirit)
    → contains sp.handoff_config.allowed_targets name ≡ true
    → e.handoff_count ≡ 0
    → validate_handoff name e sp ≡ none
unfolding validate_handoff max_handoffs_of
validate_handoff-first name e sp c d =
    let above = positive_or-positive sp.handoff_config.max_handoffs 3 (omega arith) in
    ground (arith, c, d, above)

let_through-none :
    (o : Option ActionErr) (o' : Option HandoffError) (e : Pulse)
    → o ≡ none
    → o' ≡ none
    → let_through o o' e ≡ some e
let_through-none none none e p q = refl
let_through-none (some x) o' e p q = cc
let_through-none none (some x) e p q = cc

-- A round from a Pulse at depth 0 is let through, whatever its count of handoffs, and ends at depth 0.
relay_round-passes :
    (a b : Hop) (e : Pulse)
    → contains a.spirit.orchestrator_config.sub_spirits b.name ≡ true
    → contains b.spirit.handoff_config.allowed_targets a.name ≡ true
    → e.orchestration_depth ≡ 0
    → (e' : Pulse) × ((relay_round a b e ≡ some e') × (e'.orchestration_depth ≡ 0))
unfolding build_child_pulse handed_pulse
relay_round-passes a b e summoned handed d =
    let first = validate_summon-ground b.name e a.spirit summoned d in
    let second = validate_handoff-first a.name (build_child_pulse b.task e) b.spirit handed refl in
    (handed_pulse (build_child_pulse b.task e), (let_through-none _ _ _ first second, refl))

-- The limits on depth and on handoffs do not bound a relay: where `a` may summon `b` and `b` may hand off to `a`,
-- any number of rounds from a Pulse at depth 0 is let through, whatever MaxDepth and MaxHandoffs are, since a
-- summon resets the count of handoffs and a handoff resets the depth.
pub relay-unbounded :
    (a b : Hop) (e : Pulse) (n : ℕ)
    → contains a.spirit.orchestrator_config.sub_spirits b.name ≡ true
    → contains b.spirit.handoff_config.allowed_targets a.name ≡ true
    → e.orchestration_depth ≡ 0
    → (e' : Pulse) × ((relay a b n e ≡ some e') × (e'.orchestration_depth ≡ 0))
unfolding relay
relay-unbounded a b e zero summoned handed d = (e, (refl, d))
relay-unbounded a b e (suc n) summoned handed d =
    let (e', (reached, depth)) = relay-unbounded a b e n summoned handed d in
    let (e'', (passes, depth')) = relay_round-passes a b e' summoned handed depth in
    (e'', (ap (and_round a b) reached ∙ passes, depth'))

-- The result of a call on its own.
abbrev pub alone : (ToolCall → ActionResult) → (ToolCall → ActionResult) → ToolCall → ActionResult
alone summoned one call = if is_summon call then summoned call else one call

placed-in_place :
    (summoned one : ToolCall → ActionResult) (calls : List ToolCall)
    → placed summoned calls (map one (regular_of calls)) ≡ some (map (alone summoned one) calls)
unfolding placed regular_of
placed-in_place summoned one [] = refl
placed-in_place summoned one (call ∷ calls) = elim (Bool-cases (is_summon call)) [
  | inl e ↦ rw e (ap (and_then (summoned call)) (placed-in_place summoned one calls))
  | inr e ↦ rw e (ap (and_then (one call)) (placed-in_place summoned one calls))
]

apart-in_place :
    (execute_all : List ToolCall → List ActionResult × Option Memory)
    (summoned one : ToolCall → ActionResult) (session : Option Memory) (all regular : List ToolCall)
    → ((calls : List ToolCall) → (execute_all calls).0 ≡ map one calls)
    → regular_of all ≡ regular
    → (apart execute_all summoned session all regular).0 ≡ some (map (alone summoned one) all)
apart-in_place execute_all summoned one session all [] each e =
    subst (λ regular. placed summoned all (map one regular) ≡ some (map (alone summoned one) all)) e
      (placed-in_place summoned one all)
apart-in_place execute_all summoned one session all (c ∷ cs) each e =
    ap (placed summoned all) (each (c ∷ cs))
    ∙ subst (λ regular. placed summoned all (map one regular) ≡ some (map (alone summoned one) all))
        e (placed-in_place summoned one all)

-- What a call comes to: where the Spirit orchestrates with a service, a summon is one, and any other call, and
-- every call of another Spirit, goes to the executor.
abbrev pub result_of :
    Option SummonService → (ToolCall → ActionResult) → Pulse → Spirit → ToolCall → ActionResult
result_of none one parent sp call = one call
result_of (some s) one parent sp call =
    if is_orchestrator sp then alone (execute_summon_call s parent sp) one call else one call

by_service-in_place :
    (s : SummonService) (execute_all : List ToolCall → List ActionResult × Option Memory)
    (one : ToolCall → ActionResult) (parent : Pulse) (sp : Spirit) (session : Option Memory)
    (b : Bool) (all : List ToolCall)
    → ((batch : List ToolCall) → (execute_all batch).0 ≡ map one batch)
    → (if not b
        then executed_by execute_all all
        else apart execute_all (execute_summon_call s parent sp) session all (regular_of all)).0
      ≡ some (
          map
            (λ (call : ToolCall).
              if b then alone (execute_summon_call s parent sp) one call else one call)
            all)
by_service-in_place s execute_all one parent sp session true all each =
    apart-in_place execute_all (execute_summon_call s parent sp) one session all (regular_of all)
      each refl
by_service-in_place s execute_all one parent sp session false all each = ap some (each all)

-- With an executor that answers each call on its own, a batch does not panic, and its results stand at the places
-- of their calls, each as if its call, with its override of criticality, had been alone: the split into summons and regular calls
-- changes nothing.
pub execute_all_actions-in_place :
    (service : Option SummonService)
    (execute_all : List ToolCall → List ActionResult × Option Memory)
    (one : ToolCall → ActionResult) (parent : Pulse) (sp : Spirit) (session : Option Memory)
    (calls : List ToolCall)
    → ((batch : List ToolCall) → (execute_all batch).0 ≡ map one batch)
    → (execute_all_actions service execute_all parent sp session calls).0
      ≡ some (
          map
            (result_of service one parent sp)
            (apply_is_critical_overrides calls sp.allowed_actions))
unfolding execute_all_actions
execute_all_actions-in_place none execute_all one parent sp session calls each = ap some (each _)
execute_all_actions-in_place (some s) execute_all one parent sp session calls each =
    by_service-in_place s execute_all one parent sp session (is_orchestrator sp)
      (apply_is_critical_overrides calls sp.allowed_actions) each
