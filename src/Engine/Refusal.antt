-- ===== src/Engine/Refusal.antt =====
-- What a caller gets when a step of the pipeline refuses the Pulse (runProcessingPipeline in
-- internal/implementation/orchestrator/engine.go).
use eywa.Prelude.{
  ◌≡◌, refl, ◌∙◌, ap, Bool, true, false, none, some, List, [], ◌∷◌, ◌++◌, String, ltb, is_empty,
  eq_iff, if◌then◌else◌, arith,
}
use eywa.Prelude.Maps.{lookup, lookup-insert}
use eywa.Errors.{
  Err, wrapped, err_duplicate_event, err_memory_busy, as_orchestration, is_duplicate_event,
  is_retriable,
}
use eywa.Pipeline.{
  ok, fail, state_of, Step, run_steps, run_deferred, execute, execute_step, step_error,
}
use eywa.Pipeline.Laws.{execute-first_failure}
use eywa.Entities.Response.{new_duplicate_response, new_error_response}
use eywa.Entities.Pulse.{Pulse}
use eywa.Stores.Bond.{held, acquire_lock}
use eywa.Stores.Idempotency
use eywa.Engine.State.{ProcessingState, World, Turn, Env}
use eywa.Engine.Admission.{
  validation, idempotency_check, rate_limit, lock_acquisition, lock_release, push_inbox, lock_name,
  or_nil,
}
use eywa.Engine.Session.{typing_stop}
use eywa.Engine.Answer.{log_interaction}
use eywa.Engine.Run.{
  runner, step, step_if, admission_steps, lock_step, spirit_steps, thinking_steps,
  notification_step, answer_steps, build_processing_pipeline, Reply, returned, settle,
  run_processing_pipeline,
}

-- The steps after the lock.
abbrev pub locked_steps : Env → List (Step Turn)
locked_steps env =
    spirit_steps env ++ thinking_steps env ++ notification_step env ∷ answer_steps env

abbrev busy_response : Pulse → Bool → Reply
busy_response e delivered =
    returned (record (new_error_response e.id e.memory_key) { response_delivered = delivered })
      (some (wrapped err_memory_busy))

-- No deadline passes.
abbrev pub OnTime : Env → Type 0
OnTime env = (timed : Bool) (t : Turn) → env.late timed t ≡ false

module _ (env : Env) where
  -- The turn once the pipeline has stopped at the step `name`.
  unfoldable pub stopped : String → Turn → Turn
  stopped name t =
      let t1 = (runner env).failed_at name t in
      if env.config.has_typing then state_of (typing_stop t1) else t1

  deferred-stopped :
      (name : String) (t : Turn)
      → run_deferred
          (runner env)
          ((build_processing_pipeline env).deferred_steps)
          ((runner env).failed_at name t)
        ≡ ok (stopped name t)
  unfolding build_processing_pipeline stopped run_deferred execute_step typing_stop step_if
  deferred-stopped name t = ground arith

  in_time :
      (st : Step Turn) (e : Err) (t : Turn)
      → OnTime env
      → step_error (runner env) st e t ≡ wrapped e
  unfolding step_error
  in_time st e t late = ground (arith, late (ltb 0 st.timeout) t)

  -- The step after `pre` refuses.
  pub refused :
      (pre post : List (Step Turn)) (st : Step Turn) (t t1 t2 : Turn) (e : Err)
      → OnTime env
      → (build_processing_pipeline env).steps ≡ pre ++ st ∷ post
      → run_steps (runner env) pre ((runner env).begin t) ≡ ok t1
      → st.execute t1 ≡ fail e t2
      → run_processing_pipeline env t ≡ settle env (fail (wrapped e) (stopped st.name t2))
  unfolding run_processing_pipeline
  refused pre post st t t1 t2 e late steps before now =
      let p = build_processing_pipeline env in
      let same : p ≡ record { steps = pre ++ st ∷ post; deferred_steps = p.deferred_steps } =
        ap (λ (x : List (Step Turn)). record { steps = x; deferred_steps = p.deferred_steps })
          steps in
      let f =
        execute-first_failure (runner env) pre post p.deferred_steps st t t1 t2 (stopped st.name t2)
          e before now (deferred-stopped st.name t2) in
      ap (λ x. settle env (execute (runner env) x t)) same
      ∙ ap (settle env) (f ∙ ap (λ x. fail x (stopped st.name t2)) (in_time st e t2 late))

  valid-run_steps :
      (t : Turn)
      → env.validate t.state.event ≡ none
      → run_steps
          (runner env)
          (step "Validation" env.config.lock_acquire_timeout (validation env))
          t
        ≡ ok t
  unfolding run_steps execute_step validation
  valid-run_steps t v = ground (arith, v)

  duplicate-idempotency_check :
      (t : Turn)
      → is_empty t.state.event.idempotency_key ≡ false
      → (Idempotency.seen t.state.event.idempotency_key t.world.clock env.config.idempotency_ttl
          t.world.seen).0
        ≡ true
      → idempotency_check env t ≡ fail err_duplicate_event (state_of (idempotency_check env t))
  unfolding idempotency_check
  duplicate-idempotency_check t k d = ground (arith, k, d)

  untouched-idempotency_check :
      (t : Turn)
      → ((state_of (idempotency_check env t)).world.inbox ≡ t.world.inbox)
        × ((state_of (idempotency_check env t)).world.locks ≡ t.world.locks)
        × ((state_of (idempotency_check env t)).state ≡ t.state)
  unfolding idempotency_check
  untouched-idempotency_check t = ground arith

  busy-lock_acquisition :
      (t : Turn)
      → held t.world.locks (lock_name t.state.event.memory_key) ≡ true
      → lock_acquisition env t ≡ fail err_memory_busy (state_of (lock_acquisition env t))
  unfolding lock_acquisition acquire_lock push_inbox
  busy-lock_acquisition t h = ground (arith, h)

  pub inbox-lock_acquisition :
      (t : Turn)
      → ((state_of (lock_acquisition env t)).world.inbox ≡ (push_inbox env t.state t.world).inbox)
        × ((state_of (lock_acquisition env t)).state.event ≡ t.state.event)
        × ((state_of (lock_acquisition env t)).state.response_delivered
            ≡ t.state.response_delivered)
  unfolding lock_acquisition
  inbox-lock_acquisition t = ground arith

  -- The message stands last in the inbox of its session.
  pub lookup-push_inbox :
      (s : ProcessingState) (w : World)
      → env.config.has_inbox ≡ true
      → env.inbox_up w ≡ true
      → is_empty s.event.user_message ≡ false
      → lookup s.event.memory_key (push_inbox env s w).inbox
        ≡ some (or_nil (lookup s.event.memory_key w.inbox) ++ s.event.user_message ∷ [])
  unfolding push_inbox
  lookup-push_inbox s w i u m =
      let key = s.event.memory_key in
      ground (
        arith,
        i,
        u,
        m,
        eq_iff key key,
        lookup-insert key key (or_nil (lookup key w.inbox) ++ s.event.user_message ∷ []) w.inbox,
      )

  -- A refused Pulse that holds no lock leaves the locks and the inbox alone.
  refused-untouched :
      (e : Err) (name : String) (t : Turn)
      → t.state.lock_acquired ≡ false
      → ((settle env (fail e (stopped name t))).1.world.inbox ≡ t.world.inbox)
        × ((settle env (fail e (stopped name t))).1.world.locks ≡ t.world.locks)
  unfolding settle stopped lock_release log_interaction typing_stop
  refused-untouched e name t a = ground (arith, a)

  duplicate-reply :
      (name : String) (t : Turn)
      → (settle env (fail (wrapped err_duplicate_event) (stopped name t))).0
        ≡ returned (new_duplicate_response t.state.event.id t.state.event.memory_key) none
  unfolding settle stopped lock_release log_interaction typing_stop is_duplicate_event
      err_duplicate_event as_orchestration
  duplicate-reply name t = ground arith

  busy-reply :
      (name : String) (t : Turn)
      → (settle env (fail (wrapped err_memory_busy) (stopped name t))).0
        ≡ returned
            (record (new_error_response t.state.event.id t.state.event.memory_key) {
              response_delivered = t.state.response_delivered;
            })
            (some (wrapped err_memory_busy))
  unfolding settle stopped lock_release log_interaction typing_stop is_duplicate_event
      err_memory_busy as_orchestration
  busy-reply name t = ground arith

  inbox-settle :
      (e : Err) (name : String) (t : Turn)
      → (settle env (fail e (stopped name t))).1.world.inbox ≡ t.world.inbox
  unfolding settle stopped lock_release log_interaction typing_stop
  inbox-settle e name t = ground arith

-- Where an idempotency store is wired and no deadline passes, a valid Pulse whose key the store knows
-- as live gets a duplicate response with a nil error, and the run touches neither the session locks
-- nor the inbox.
pub run_processing_pipeline-duplicate :
    (env : Env) (t : Turn)
    → OnTime env
    → env.config.has_idempotency ≡ true
    → env.validate t.state.event ≡ none
    → is_empty t.state.event.idempotency_key ≡ false
    → (Idempotency.seen t.state.event.idempotency_key t.world.clock env.config.idempotency_ttl
        t.world.seen).0
      ≡ true
    → t.state.lock_acquired ≡ false
    → ((run_processing_pipeline env t).0
        ≡ returned (new_duplicate_response t.state.event.id t.state.event.memory_key) none)
      × ((run_processing_pipeline env t).1.world.locks ≡ t.world.locks)
      × ((run_processing_pipeline env t).1.world.inbox ≡ t.world.inbox)
unfolding build_processing_pipeline admission_steps step_if
run_processing_pipeline-duplicate env t late i v k d a =
    let post =
      step_if env.config.has_rate_limiter "RateLimit" env.config.lock_acquire_timeout
        (rate_limit env)
      ++ lock_step env ∷ locked_steps env in
    let r =
      refused env (step "Validation" env.config.lock_acquire_timeout (validation env)) post
        (record {
          name = "IdempotencyCheck";
          timeout = env.config.lock_acquire_timeout;
          execute = idempotency_check env;
        })
        t ((runner env).begin t) (state_of (idempotency_check env ((runner env).begin t)))
        err_duplicate_event late (rw i) (valid-run_steps env ((runner env).begin t) v)
        (duplicate-idempotency_check env ((runner env).begin t) k d) in
    let u = untouched-idempotency_check env ((runner env).begin t) in
    let t2 = state_of (idempotency_check env ((runner env).begin t)) in
    let w =
      refused-untouched env (wrapped err_duplicate_event) "IdempotencyCheck" t2
        (ap (λ (s : ProcessingState). s.lock_acquired) (u.2) ∙ a) in
    rw r (
      duplicate-reply env "IdempotencyCheck" t2
          ∙ ap
              (λ (s : ProcessingState).
                returned (new_duplicate_response s.event.id s.event.memory_key) none)
              (u.2),
      w.1 ∙ u.1,
      w.0 ∙ u.0,
    )

-- Where an inbox is wired and up and no deadline passes, a Pulse that passes admission while another
-- turn holds its session gets MEMORY_BUSY, which is not retriable, and its message stands last in the
-- inbox of the session, for the holder or the next turn to read.
pub run_processing_pipeline-busy :
    (env : Env) (t t1 : Turn)
    → OnTime env
    → run_steps (runner env) (admission_steps env) ((runner env).begin t) ≡ ok t1
    → held t1.world.locks (lock_name t1.state.event.memory_key) ≡ true
    → env.config.has_inbox ≡ true
    → env.inbox_up t1.world ≡ true
    → is_empty t1.state.event.user_message ≡ false
    → ((run_processing_pipeline env t).0
        ≡ returned
            (record (new_error_response t1.state.event.id t1.state.event.memory_key) {
              response_delivered = t1.state.response_delivered;
            })
            (some (wrapped err_memory_busy)))
      × (is_retriable (wrapped err_memory_busy) ≡ false)
      × (lookup t1.state.event.memory_key (run_processing_pipeline env t).1.world.inbox
          ≡ some (
              or_nil (lookup t1.state.event.memory_key t1.world.inbox)
              ++ t1.state.event.user_message ∷ []))
unfolding build_processing_pipeline is_retriable err_memory_busy
run_processing_pipeline-busy env t t1 late ok1 h i u m =
    let t2 = state_of (lock_acquisition env t1) in
    let r =
      refused env (admission_steps env) (locked_steps env) (lock_step env) t t1 t2 err_memory_busy
        late refl ok1 (busy-lock_acquisition env t1 h) in
    let x = inbox-lock_acquisition env t1 in
    let box = inbox-settle env (wrapped err_memory_busy) "LockAcquisition" t2 ∙ x.0 in
    rw r (
      busy-reply env "LockAcquisition" t2
          ∙ ap (λ (e : Pulse). busy_response e t2.state.response_delivered) (x.1)
          ∙ ap (busy_response t1.state.event) (x.2),
      refl,
      ap (lookup t1.state.event.memory_key) box ∙ lookup-push_inbox env t1.state t1.world i u m,
    )
