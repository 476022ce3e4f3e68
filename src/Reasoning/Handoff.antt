-- ===== src/Reasoning/Handoff.antt =====
-- HandoffService.Handoff as a whole (internal/implementation/orchestrator/handoff_service.go), over the
-- in-process handoff store.
use eywa.Prelude.{
  ◌≡◌, refl, subst, Bool, true, false, ◌&&◌, Option, none, some, List, [], ◌∷◌, String, str_eq,
  if◌then◌else◌, Option-cases, inl, inr, arith,
}
use eywa.Entities.Pulse.{Pulse}
use eywa.Entities.Spirit.{Spirit}
use eywa.Entities.Memory.{Memory, Thread}
use eywa.Stores.Handoff.{Pins, get_active_spirit, set_active_spirit, read-set_active_spirit}
use eywa.Engine.State.{ReasoningResult, Scout}
use eywa.Engine.Routing.{run_scouts}
use eywa.Reasoning.Transfer.{
  HandoffError, not_allowed, limit_reached, spirit_not_found, pin_failed, reasoning_failed,
  validate_handoff, build_child_pulse, Summarize, Inheritance, transfer_context,
}

-- The ports of the service; none is an error. The target's reasoning may hand off again, so it takes the
-- pins and leaves others.
pub record Ports : Type 0 where
  pub find_active_by_name : String → Option Spirit
  pub get_scouts : List String → Option (List Scout)
  pub archivist : Option Summarize
  pub reason : Pulse → Spirit → Inheritance → Pins → Option ReasoningResult × Pins

pub data HandoffAnswer : Type 0 where
  answered : ReasoningResult → HandoffAnswer
  refused : HandoffError → HandoffAnswer

-- Scouts that cannot be found are passed over.
scouted : Option (List Scout) → Pulse → Pulse
unfolding run_scouts
scouted none e = e
scouted (some scouts) e = run_scouts scouts e

with_scouts : Ports → List String → Pulse → Pulse
unfolding scouted
with_scouts ports [] e = e
with_scouts ports (n ∷ ns) e = scouted (ports.get_scouts (n ∷ ns)) e

unfoldable pub or_reasoning_failed : Option ReasoningResult → HandoffAnswer
or_reasoning_failed none = refused reasoning_failed
or_reasoning_failed (some r) = answered r

-- Once the target is pinned, or the store has refused the pin.
pinned_run : Bool × Pins → (Pins → Option ReasoningResult × Pins) → HandoffAnswer × Pins
unfolding or_reasoning_failed
pinned_run (true, pins) reason = (or_reasoning_failed (reason pins).0, (reason pins).1)
pinned_run (false, pins) reason = (refused pin_failed, pins)

unfoldable pub handoff :
    Ports → String → Pulse → Spirit → Option Memory → List Thread → Pins → HandoffAnswer × Pins
unfolding with_scouts or_reasoning_failed pinned_run transfer_context build_child_pulse
handoff ports target parent sp session messages pins = elim (validate_handoff target parent sp) [
  | some x ↦ (refused x, pins)
  | none ↦ elim (ports.find_active_by_name target) [
    | none ↦ (refused spirit_not_found, pins)
    | some to ↦
        let child = with_scouts ports to.require_scouts (build_child_pulse parent) in
        let given =
          transfer_context sp.handoff_config.context_transfer session messages ports.archivist in
        pinned_run (set_active_spirit parent.memory_key target pins) (ports.reason child to given)
  ]
]

-- Whether the answer comes from a turn that was handed over.
abbrev pub handed_over : HandoffAnswer → Bool
handed_over (answered r) = true
handed_over (refused reasoning_failed) = true
handed_over (refused _) = false

kept-validate_handoff :
    (target : String) (parent : Pulse) (sp : Spirit) (x : HandoffError)
    → validate_handoff target parent sp ≡ some x
    → handed_over (refused x) ≡ false
unfolding validate_handoff
kept-validate_handoff target parent sp not_allowed h = refl
kept-validate_handoff target parent sp limit_reached h = refl
kept-validate_handoff target parent sp spirit_not_found h = refl
kept-validate_handoff target parent sp pin_failed h = refl
kept-validate_handoff target parent sp reasoning_failed h = ground arith

kept-refused :
    (key target : String) (pins same : Pins)
    → set_active_spirit key target pins ≡ (false, same)
    → pins ≡ same
unfolding set_active_spirit
kept-refused key target pins same e = ground (arith, e)

module _ (ports : Ports) (target : String) (parent : Pulse) (sp : Spirit) (session : Option Memory)
    (messages : List Thread) (pins : Pins) where
  -- The target is pinned for the session of the parent, and for no other one.
  abbrev pub PinnedAs : Pins → Type 0
  PinnedAs pinned =
      (j : String)
      → get_active_spirit j pinned
        ≡ (if str_eq parent.memory_key j then target else get_active_spirit j pins)

  unfoldable pub reasoned_by : Spirit → Pins → Option ReasoningResult × Pins
  unfolding with_scouts transfer_context build_child_pulse
  reasoned_by to pinned =
      ports.reason (with_scouts ports to.require_scouts (build_child_pulse parent)) to
        (transfer_context sp.handoff_config.context_transfer session messages ports.archivist)
        pinned

  -- An answer with the pins that it leaves.
  pub data Pinned : HandoffAnswer × Pins → Type 0 where
    turned_down : (x : HandoffError) → handed_over (refused x) ≡ false → Pinned (refused x, pins)
    reasoned :
        (to : Spirit) (pinned : Pins)
        → ports.find_active_by_name target ≡ some to
        → PinnedAs pinned
        → Pinned (or_reasoning_failed (reasoned_by to pinned).0, (reasoned_by to pinned).1)

  pinned_run-Pinned :
      (to : Spirit) (answer : Bool × Pins)
      → ports.find_active_by_name target ≡ some to
      → set_active_spirit parent.memory_key target pins ≡ answer
      → Pinned (pinned_run answer (reasoned_by to))
  unfolding pinned_run or_reasoning_failed
  pinned_run-Pinned to (true, pinned) f e = reasoned to pinned f (λ j.
      subst
        (λ (x : Bool × Pins).
          get_active_spirit j x.1
          ≡ (if x.0 && str_eq parent.memory_key j then target else get_active_spirit j pins))
        e (read-set_active_spirit parent.memory_key j target pins))
  pinned_run-Pinned to (false, same) f e =
      subst (λ p. Pinned (refused pin_failed, p))
        (kept-refused parent.memory_key target pins same e) (turned_down pin_failed refl)

-- A handoff that is refused before the target reasons, for any reason, leaves every pin as it was. One
-- that gets that far has pinned the target for the session of the Pulse, and for no other session, before
-- the target reasons, even where that fails; the pins it leaves are then those that the target's reasoning
-- leaves.
pub handoff-pins :
    (ports : Ports) (target : String) (parent : Pulse) (sp : Spirit) (session : Option Memory)
    (messages : List Thread) (pins : Pins)
    → Pinned ports target parent sp session messages pins
        (handoff ports target parent sp session messages pins)
unfolding handoff reasoned_by
handoff-pins ports target parent sp session messages pins =
    elim (Option-cases (validate_handoff target parent sp)) [
      | inr (x, v) ↦ rw (v, handoff) (turned_down x (kept-validate_handoff target parent sp x v))
      | inl v ↦ elim (Option-cases (ports.find_active_by_name target)) [
        | inl f ↦ rw (v, f, handoff) (turned_down spirit_not_found refl)
        | inr (to, f) ↦
            rw (v, f, handoff)
              (pinned_run-Pinned ports target parent sp session messages pins to
                (set_active_spirit parent.memory_key target pins) f refl)
      ]
    ]
