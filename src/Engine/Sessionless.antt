-- ===== src/Engine/Sessionless.antt =====
-- An executor Spirit without session memory has no session to reason on
-- (internal/implementation/orchestrator: SessionSetupStep, ReasoningStep, buildMessageHistory).
use eywa.Prelude.{
  ◌≡◌, refl, Bool, true, false, not, ◌&&◌, Option, none, some, [], ◌∷◌, is_some, arith,
}
use eywa.Pipeline.{
  Outcome, ok, fail, panic, state_of, run_steps, run_deferred, execute_step, finish, execute,
}
use eywa.Pipeline.Laws.{run_steps-append}
use eywa.Entities.Spirit.{
  Spirit, is_executor, is_conversational, is_orchestrator, is_notifier, needs_session,
  needs_message_coalescing,
}
use eywa.Engine.State.{Turn, Env}
use eywa.Engine.Session.{session_setup, message_coalescing, typing_stop}
use eywa.Engine.Condition.{condition_evaluation}
use eywa.Engine.Answer.{reasoning_step}
use eywa.Engine.Template.{loading_steps, deciding_steps, split_steps}
use eywa.Engine.Run.{
  runner, step_if, thinking_steps, notification_step, answer_steps, build_processing_pipeline,
  panicked, settle, run_processing_pipeline,
}

lacks_memory : Option Spirit → Bool
lacks_memory none = false
lacks_memory (some sp) = is_executor sp && not sp.with_session_memory

-- An executor without session memory whose turn has no session and is not skipped.
unfoldable pub is_sessionless : Turn → Bool
unfolding lacks_memory
is_sessionless t =
    lacks_memory t.state.spirit && not (is_some t.state.session) && not t.state.skipped

module _ (env : Env) where
  idle-session_setup : (t : Turn) → is_sessionless t ≡ true → session_setup env t ≡ ok t
  unfolding session_setup is_sessionless needs_session is_executor is_conversational is_orchestrator
  idle-session_setup t h = ground (arith, h)

  idle-message_coalescing : (t : Turn) → is_sessionless t ≡ true → message_coalescing env t ≡ ok t
  unfolding message_coalescing is_sessionless needs_message_coalescing is_executor is_conversational
  idle-message_coalescing t h = ground (arith, h)

  idle-condition_evaluation :
      (t : Turn) → is_sessionless t ≡ true → condition_evaluation env t ≡ ok t
  unfolding condition_evaluation is_sessionless is_notifier is_executor
  idle-condition_evaluation t h = ground (arith, h)

  panics-reasoning_step : (t : Turn) → is_sessionless t ≡ true → reasoning_step env t ≡ panic t
  unfolding reasoning_step is_sessionless is_notifier is_executor
  panics-reasoning_step t h = ground (arith, h)

  panics-thinking_steps :
      (t : Turn)
      → env.config.has_ledger ≡ false
      → env.config.routing_rules ≡ []
      → is_sessionless t ≡ true
      → run_steps (runner env) (thinking_steps env) t ≡ panic t
  unfolding thinking_steps step_if run_steps execute_step
  panics-thinking_steps t l r h = ground (
    arith,
    l,
    r,
    idle-session_setup t h,
    idle-message_coalescing t h,
    idle-condition_evaluation t h,
    panics-reasoning_step t h,
  )

  panics-run_steps :
      (t t1 : Turn)
      → run_steps (runner env) (loading_steps env) ((runner env).begin t) ≡ ok t1
      → env.config.has_ledger ≡ false
      → env.config.routing_rules ≡ []
      → is_sessionless t1 ≡ true
      → run_steps (runner env) ((build_processing_pipeline env).steps) ((runner env).begin t)
        ≡ panic t1
  panics-run_steps t t1 e l r h = rw (
    split_steps env,
    run_steps-append (runner env) (loading_steps env) (deciding_steps env) ((runner env).begin t),
    e,
    run_steps-append (runner env) (thinking_steps env) (notification_step env ∷ answer_steps env)
        t1,
    panics-thinking_steps t1 l r h,
  )

  panics-finish :
      (s : Turn) (o : Outcome Turn) → finish (runner env) (panic s) o ≡ panic (state_of o)
  unfolding finish
  panics-finish s (ok t) = refl
  panics-finish s (fail e t) = refl
  panics-finish s (panic t) = refl

  locks-deferred :
      (t : Turn)
      → (state_of (
          run_deferred (runner env) ((build_processing_pipeline env).deferred_steps) t)).world.locks
        ≡ t.world.locks
  unfolding build_processing_pipeline run_deferred execute_step step_if typing_stop
  locks-deferred t = ground arith

-- Where the steps up to the routing leave an executor without session memory, no session, and no
-- budget or model rule in between, the run ends in a panic, and the session lock and any lock that a
-- scout took stay as those steps left them: nothing releases them.
pub run_processing_pipeline-leaks_locks :
    (env : Env) (t t1 : Turn)
    → run_steps (runner env) (loading_steps env) ((runner env).begin t) ≡ ok t1
    → env.config.has_ledger ≡ false
    → env.config.routing_rules ≡ []
    → is_sessionless t1 ≡ true
    → ((run_processing_pipeline env t).0 ≡ panicked)
      × ((run_processing_pipeline env t).1.world.locks ≡ t1.world.locks)
unfolding run_processing_pipeline execute settle
run_processing_pipeline-leaks_locks env t t1 e l r h =
    let d = run_deferred (runner env) ((build_processing_pipeline env).deferred_steps) t1 in
    rw (panics-run_steps env t t1 e l r h, panics-finish env t1 d) (refl, locks-deferred env t1)
