-- ===== src/Engine/Delivery.antt =====
-- What the steps of the engine do to the messages that it sends itself
-- (internal/implementation/orchestrator). The messages that a tool sends during reasoning belong to the
-- tool; the engine learns of them by ResponseDelivered.
pub mod Once
use eywa.Prelude.{
  ◌≡◌, refl, ℕ, zero, suc, ◌+◌, ◌≤◌, ◌⊎◌, Bool, true, false, Option, none, some, List, [], ◌∷◌,
  String, length, arith,
}
use eywa.Pipeline.{Outcome, ok, fail, panic, state_of}
use eywa.Engine.State.{ProcessingState, World, Turn, Env, Scout}
use eywa.Engine.Admission.{
  validation, idempotency_check, rate_limit, push_inbox, lock_acquisition, vigil_check,
}
use eywa.Engine.Filter.{filter_step}
use eywa.Engine.Routing.{
  link_scout, scout_named, scout_by, lock_moved, run_scouts, set_event, spirit_selection,
  spirit_load, spirit_scout, orchestrator_routing, model_routing,
}
use eywa.Engine.Session.{
  session_setup, message_coalescing, ritual_mark, mark_executed, typing_start, typing_stop,
}
use eywa.Engine.Condition.{condition_evaluation}
use eywa.Engine.Budget.{cost_enforcement, ledger_update}
use eywa.Engine.Answer.{
  reasoning_step, notification, output_guard, persistence, response_delivery, audit_log,
}

abbrev pub bit : Bool → ℕ
bit true = 1
bit false = 0

-- The step sends no message, whichever way it ends.
abbrev pub Silent : (Turn → Outcome Turn) → Type 0
Silent f = (t : Turn) → (state_of (f t)).world.sent ≡ t.world.sent

-- At most `n` messages, and one more only where the answer counts as delivered.
abbrev pub AtMost : ℕ → Turn → Type 0
AtMost n t = length t.world.sent ≤ n + bit t.state.response_delivered

-- Where the turn has `AtMost n`, so has the turn that the step leaves.
abbrev pub Bounded : (Turn → Outcome Turn) → Type 0
Bounded f = (n : ℕ) (t : Turn) → AtMost n t → AtMost n (state_of (f t))

pub AtMost-of_unsent : (n : ℕ) (t : Turn) → length t.world.sent ≡ n → AtMost n t
AtMost-of_unsent n t h = omega (arith, h)

module _ (env : Env) where
  pub validation-Silent : Silent (validation env)
  unfolding validation
  validation-Silent t = ground arith

  pub idempotency_check-Silent : Silent (idempotency_check env)
  unfolding idempotency_check
  idempotency_check-Silent t = ground arith

  pub rate_limit-Silent : Silent (rate_limit env)
  unfolding rate_limit
  rate_limit-Silent t = ground arith

  pub lock_acquisition-Silent : Silent (lock_acquisition env)
  unfolding lock_acquisition
  lock_acquisition-Silent t = ground arith

  pub vigil_check-Silent : Silent (vigil_check env)
  unfolding vigil_check
  vigil_check-Silent t = ground arith

  pub typing_start-Silent : Silent typing_start
  unfolding typing_start
  typing_start-Silent t = ground arith

  pub ritual_mark-Silent : Silent (ritual_mark env)
  unfolding ritual_mark
  ritual_mark-Silent t = ground arith

  pub filter_step-Silent : Silent filter_step
  unfolding filter_step
  filter_step-Silent t = ground arith

  pub spirit_selection-Silent : Silent (spirit_selection env)
  unfolding spirit_selection
  spirit_selection-Silent t = ground arith

  pub spirit_load-Silent : Silent (spirit_load env)
  unfolding spirit_load
  spirit_load-Silent t = ground arith

  pub spirit_scout-Silent : Silent (spirit_scout env)
  unfolding spirit_scout
  spirit_scout-Silent t = ground arith

  pub orchestrator_routing-Silent : Silent (orchestrator_routing env)
  unfolding orchestrator_routing
  orchestrator_routing-Silent t = ground arith

  pub model_routing-Silent : Silent (model_routing env)
  unfolding model_routing
  model_routing-Silent t = ground arith

  pub session_setup-Silent : Silent (session_setup env)
  unfolding session_setup
  session_setup-Silent t = ground arith

  pub message_coalescing-Silent : Silent (message_coalescing env)
  unfolding message_coalescing
  message_coalescing-Silent t = ground arith

  pub cost_enforcement-Silent : Silent (cost_enforcement env)
  unfolding cost_enforcement
  cost_enforcement-Silent t = ground arith

  pub condition_evaluation-Silent : Silent (condition_evaluation env)
  unfolding condition_evaluation
  condition_evaluation-Silent t = ground arith

  pub reasoning_step-Silent : Silent (reasoning_step env)
  unfolding reasoning_step
  reasoning_step-Silent t = ground arith

  lock_moved-Silent : (original : String) → Silent (lock_moved original)
  unfolding lock_moved
  lock_moved-Silent original t = ground arith

  scout_by-Silent : (o : Option (List Scout)) → Silent (scout_by env o)
  unfolding scout_by
  scout_by-Silent none t = refl
  scout_by-Silent (some scouts) t =
      lock_moved-Silent t.state.event.memory_key (set_event (run_scouts scouts t.state.event) t)

  scout_named-Silent : (names : List String) → Silent (scout_named env names)
  unfolding scout_named
  scout_named-Silent [] t = refl
  scout_named-Silent (s ∷ ss) t = scout_by-Silent (env.get_scouts (s ∷ ss)) t

  pub link_scout-Silent : Silent (link_scout env)
  unfolding link_scout
  link_scout-Silent t = scout_named-Silent t.state.event_config.require_scouts t

  pub notification-AtMost :
      (n : ℕ) (t : Turn) → length t.world.sent ≡ n → AtMost n (state_of (notification env t))
  unfolding notification
  notification-AtMost n t h = ground arith

  pub output_guard-Bounded : Bounded (output_guard env)
  unfolding output_guard
  output_guard-Bounded n t h = ground arith

  pub persistence-Bounded : Bounded (persistence env)
  unfolding persistence
  persistence-Bounded n t h = ground arith

  pub response_delivery-Bounded : Bounded (response_delivery env)
  unfolding response_delivery
  response_delivery-Bounded n t h = ground arith

  pub audit_log-Bounded : Bounded (audit_log env)
  unfolding audit_log
  audit_log-Bounded n t h = ground arith

  pub ledger_update-Bounded : Bounded (ledger_update env)
  unfolding ledger_update
  ledger_update-Bounded n t h = ground arith

  pub mark_executed-Bounded : Bounded (mark_executed env)
  unfolding mark_executed
  mark_executed-Bounded n t h = ground arith

  pub typing_stop-Bounded : Bounded typing_stop
  unfolding typing_stop
  typing_stop-Bounded n t h = ground arith
