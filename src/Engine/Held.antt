-- ===== src/Engine/Held.antt =====
-- A session that an operator holds (VigilCheckStep in
-- internal/implementation/orchestrator/pipeline_step_vigil.go).
use eywa.Prelude.{
  ◌≡◌, refl, ap, sym, subst, ◌∙◌, Bool, true, false, some, List, [], ◌∷◌, ◌++◌, drop, String,
  is_empty, arith,
}
use mathlib.Core.List.{append_assoc}
use eywa.Prelude.Maps.{Assoc, lookup}
use eywa.Errors.{wrapped, err_session_held, as_orchestration, is_duplicate_event}
use eywa.Pipeline.{Outcome, ok, fail, state_of, Step, run_steps, execute_step}
use eywa.Pipeline.Laws.{run_steps-append}
use eywa.Entities.Memory.{Memory}
use eywa.Entities.Pulse.{Pulse}
use eywa.Entities.Response.{new_error_response}
use eywa.Stores.Bond.{acquired, acquire_lock}
use eywa.Engine.State.{Turn, Env}
use eywa.Engine.Admission.{
  validation, idempotency_check, rate_limit, lock_acquisition, vigil_check, lock_release,
  push_inbox, lock_name, or_nil,
}
use eywa.Engine.Session.{typing_stop}
use eywa.Engine.Answer.{log_interaction}
use eywa.Engine.Kept.{Kept, After, always, wired, after-run_steps}
use eywa.Engine.Kept
use eywa.Engine.Run.{
  runner, admission_steps, lock_step, spirit_steps, build_processing_pipeline, Reply, returned,
  settle, run_processing_pipeline,
}
use eywa.Engine.Refusal.{
  OnTime, locked_steps, stopped, refused, inbox-lock_acquisition, lookup-push_inbox,
}

abbrev vigil_step : Env → Step Turn
vigil_step env = record { name = "VigilCheck"; timeout = 3000; execute = vigil_check env }

-- The turn that the vigil step leaves when it refuses.
abbrev held_turn : Turn → Turn
held_turn t = record t { state = record (t.state) { processing_status = "session_held" } }

abbrev shown : Turn → List (String × String) × (Assoc (List String) × Assoc Memory)
shown t = (t.world.sent, (t.world.inbox, t.world.memories))

abbrev pub held_reply : Pulse → Bool → Reply
held_reply e delivered =
    returned (record (new_error_response e.id e.memory_key) { response_delivered = delivered })
      (some (wrapped err_session_held))

module _ (env : Env) where
  held-vigil_check :
      (t : Turn)
      → env.config.has_vigil ≡ true
      → env.vigil_held t.state.event.memory_key t.world ≡ some true
      → vigil_check env t ≡ fail err_session_held (held_turn t)
  unfolding vigil_check
  held-vigil_check t v h = ground (arith, v, h)

  held-settle :
      (t : Turn)
      → ((settle env (fail (wrapped err_session_held) (stopped env "VigilCheck" (held_turn t)))).0
          ≡ held_reply t.state.event t.state.response_delivered)
        × (shown
              (settle env
                (fail (wrapped err_session_held) (stopped env "VigilCheck" (held_turn t)))).1
            ≡ shown t)
  unfolding settle stopped lock_release log_interaction typing_stop is_duplicate_event
      err_session_held as_orchestration
  held-settle t = ground arith

  -- What admission leaves alone.
  abbrev Untouched : Turn → Turn → Type 0
  Untouched t s =
      (s.state.event ≡ t.state.event)
      × (s.state.response_delivered ≡ t.state.response_delivered)
      × (shown s ≡ shown t)

  validation-Untouched : (t : Turn) → After env (Untouched t) (validation env)
  unfolding validation
  validation-Untouched t s h = ground (arith, h)

  idempotency_check-Untouched : (t : Turn) → After env (Untouched t) (idempotency_check env)
  unfolding idempotency_check
  idempotency_check-Untouched t s h = ground (arith, h)

  rate_limit-Untouched : (t : Turn) → After env (Untouched t) (rate_limit env)
  unfolding rate_limit
  rate_limit-Untouched t s h = ground (arith, h)

  admission_steps-Kept : (t : Turn) → Kept env (Untouched t) (admission_steps env)
  unfolding admission_steps
  admission_steps-Kept t =
      Kept.◌⊕◌ env (Untouched t)
        (Kept.◌⊕◌ env (Untouched t) (always env (Untouched t) (validation-Untouched t))
          (wired env (Untouched t) _ _ _ (idempotency_check env) (idempotency_check-Untouched t)))
        (wired env (Untouched t) _ _ _ (rate_limit env) (rate_limit-Untouched t))

  admitted-Untouched :
      (t t1 : Turn)
      → run_steps (runner env) (admission_steps env) ((runner env).begin t) ≡ ok t1
      → Untouched t t1
  admitted-Untouched t t1 e =
      subst (λ (o : Outcome Turn). Untouched t (state_of o)) e
        (after-run_steps env (Untouched t) (λ n s p. p) (admission_steps env) ((runner env).begin t)
          (admission_steps-Kept t) (refl, refl, refl))

  acquired-lock_acquisition :
      (t : Turn)
      → (acquire_lock (lock_name t.state.event.memory_key) t.world.locks).0 ≡ acquired
      → (lock_acquisition env t ≡ ok (state_of (lock_acquisition env t)))
        × ((state_of (lock_acquisition env t)).world.sent ≡ t.world.sent)
        × ((state_of (lock_acquisition env t)).world.memories ≡ t.world.memories)
  unfolding lock_acquisition acquire_lock push_inbox
  acquired-lock_acquisition t h = ground (arith, h)

  -- The message is noted for the session before its lock is asked for.
  noted-lock_acquisition :
      (t : Turn)
      → env.config.has_inbox ≡ true
      → env.inbox_up t.world ≡ true
      → is_empty t.state.event.user_message ≡ false
      → lookup t.state.event.memory_key (state_of (lock_acquisition env t)).world.inbox
        ≡ some (
            or_nil (lookup t.state.event.memory_key t.world.inbox)
            ++ t.state.event.user_message ∷ [])
  noted-lock_acquisition t i u m =
      ap (lookup t.state.event.memory_key) (inbox-lock_acquisition env t).0
      ∙ lookup-push_inbox env t.state t.world i u m

  -- The steps up to the vigil, after admission.
  locked :
      (t t1 : Turn)
      → run_steps (runner env) (admission_steps env) ((runner env).begin t) ≡ ok t1
      → lock_acquisition env t1 ≡ ok (state_of (lock_acquisition env t1))
      → run_steps (runner env) (admission_steps env ++ lock_step env ∷ []) ((runner env).begin t)
        ≡ ok (state_of (lock_acquisition env t1))
  unfolding run_steps execute_step
  locked t t1 ran l =
      run_steps-append (runner env) (admission_steps env) (lock_step env ∷ [])
        ((runner env).begin t)
      ∙ rw (ran, l, execute_step, run_steps)

-- Where no deadline passes, the vigil is wired, and an inbox is wired and up, a Pulse with a message that is
-- admitted and gets its session's lock while an operator holds the session is answered SESSION_HELD; its
-- message then stands last in the inbox of the session, and the whole run has sent nothing and left the
-- stored memories alone.
pub run_processing_pipeline-held :
    (env : Env) (t t1 : Turn)
    → OnTime env
    → run_steps (runner env) (admission_steps env) ((runner env).begin t) ≡ ok t1
    → (acquire_lock (lock_name t1.state.event.memory_key) t1.world.locks).0 ≡ acquired
    → env.config.has_inbox ≡ true
    → env.inbox_up t1.world ≡ true
    → is_empty t1.state.event.user_message ≡ false
    → env.config.has_vigil ≡ true
    → env.vigil_held t1.state.event.memory_key (state_of (lock_acquisition env t1)).world
      ≡ some true
    → ((run_processing_pipeline env t).0 ≡ held_reply t.state.event t.state.response_delivered)
      × (lookup t.state.event.memory_key (run_processing_pipeline env t).1.world.inbox
          ≡ some (
              or_nil (lookup t.state.event.memory_key t.world.inbox)
              ++ t.state.event.user_message ∷ []))
      × ((run_processing_pipeline env t).1.world.sent ≡ t.world.sent)
      × ((run_processing_pipeline env t).1.world.memories ≡ t.world.memories)
unfolding build_processing_pipeline spirit_steps
run_processing_pipeline-held env t t1 late ran free i u m v h =
    let before = admission_steps env ++ lock_step env ∷ [] in
    let rest = drop 1 (locked_steps env) in
    let t2 = state_of (lock_acquisition env t1) in
    let (took, sent, memories) = acquired-lock_acquisition env t1 free in
    let (box, event, delivered) = inbox-lock_acquisition env t1 in
    let (event1, delivered1, shown1) = admitted-Untouched env t t1 ran in
    let key = ap (λ (e : Pulse). e.memory_key) event in
    let stop =
      refused env before rest (vigil_step env) t t2 (held_turn t2) err_session_held late
        (sym (append_assoc (admission_steps env) (lock_step env ∷ []) (vigil_step env ∷ rest)))
        (locked env t t1 ran took)
        (held-vigil_check env t2 v (ap (λ k. env.vigil_held k t2.world) key ∙ h)) in
    let (reply, left) = held-settle env t2 in
    rw stop (
      reply
          ∙ ap (λ (e : Pulse). held_reply e t2.state.response_delivered) (event ∙ event1)
          ∙ ap (held_reply t.state.event) (delivered ∙ delivered1),
      subst
          (λ (e : Pulse).
            lookup e.memory_key
              (settle env (
                fail (wrapped err_session_held)
                  (stopped env "VigilCheck" (held_turn t2)))).1.world.inbox
            ≡ some (or_nil (lookup e.memory_key t.world.inbox) ++ e.user_message ∷ []))
          event1
          (ap (λ x. lookup t1.state.event.memory_key x.1.0) left
            ∙ noted-lock_acquisition env t1 i u m
            ∙ ap
                (λ x. some (
                  or_nil (lookup t1.state.event.memory_key x.1.0)
                  ++ t1.state.event.user_message ∷ []))
                shown1),
      ap (λ x. x.0) left ∙ sent ∙ ap (λ x. x.0) shown1,
      ap (λ x. x.1.1) left ∙ memories ∙ ap (λ x. x.1.1) shown1,
    )
