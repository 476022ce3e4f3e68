-- ===== src/Engine/Run.antt =====
-- The pipeline and its driver (buildProcessingPipeline and runProcessingPipeline in
-- internal/implementation/orchestrator/engine.go). The deployments modelled wire no media store, media
-- processor, archivist, HTTP tools or imprint repository, so the pipeline has none of their steps.
use eywa.Prelude.{
  ℕ, Bool, true, false, Option, none, some, List, [], ◌∷◌, ◌++◌, String, ltb, length, if◌then◌else◌,
}
use eywa.Errors.{Err, is_duplicate_event, status_from_error}
use eywa.Pipeline.{Outcome, ok, fail, panic, state_of, Step, Pipeline, Runner, execute}
use eywa.Entities.Response.{Response, new_response, new_duplicate_response, new_error_response}
use eywa.Engine.State.{ProcessingState, Turn, Env}
use eywa.Engine.Admission.{
  validation, idempotency_check, rate_limit, lock_acquisition, vigil_check, lock_release,
}
use eywa.Engine.Filter.{filter_step}
use eywa.Engine.Routing.{
  link_scout, spirit_selection, spirit_load, spirit_scout, orchestrator_routing, model_routing,
}
use eywa.Engine.Session.{
  session_setup, message_coalescing, ritual_mark, mark_executed, typing_start, typing_stop,
}
use eywa.Engine.Condition.{condition_evaluation}
use eywa.Engine.Budget.{cost_enforcement, ledger_update}
use eywa.Engine.Answer.{
  reasoning_step, notification, output_guard, persistence, response_delivery, audit_log,
  log_interaction,
}

-- In milliseconds; 0 sets no deadline.
abbrev ritual_step_timeout : ℕ
ritual_step_timeout = 5000

abbrev short_timeout : ℕ
short_timeout = 3000

-- `if wired { pipeline.AddStep(s) }`
unfoldable pub step_if : Bool → String → ℕ → (Turn → Outcome Turn) → List (Step Turn)
step_if true name timeout f = record { name = name; timeout = timeout; execute = f } ∷ []
step_if false name timeout f = []

abbrev pub step : String → ℕ → (Turn → Outcome Turn) → List (Step Turn)
step name timeout f = record { name = name; timeout = timeout; execute = f } ∷ []

module _ (env : Env) where
  abbrev pub runner : Runner Turn
  runner = record {
    late = env.late;
    begin = λ t. record t {
      state = record (t.state) { start_time = t.world.clock; processing_status = "success" };
    };
    failed_at = λ n t. record t { state = record (t.state) { pipeline_failed_at_step = n } };
  }

  -- buildProcessingPipeline as runs of steps, with the lock and the notification between them.
  unfoldable pub admission_steps : List (Step Turn)
  admission_steps =
      let c = env.config in
      step "Validation" c.lock_acquire_timeout (validation env)
      ++ step_if c.has_idempotency "IdempotencyCheck" c.lock_acquire_timeout (idempotency_check env)
      ++ step_if c.has_rate_limiter "RateLimit" c.lock_acquire_timeout (rate_limit env)

  abbrev pub lock_step : Step Turn
  lock_step = record {
    name = "LockAcquisition";
    timeout = env.config.lock_acquire_timeout;
    execute = lock_acquisition env;
  }

  unfoldable pub spirit_steps : List (Step Turn)
  spirit_steps =
      let c = env.config in
      step "VigilCheck" short_timeout (vigil_check env)
      ++ step_if c.has_typing "TypingStart" short_timeout typing_start
      ++ step_if c.has_rituals "RitualMark" ritual_step_timeout (ritual_mark env)
      ++ step "LinkScout" c.scout_timeout (link_scout env)
      ++ step "Filter" c.lock_acquire_timeout filter_step
      ++ step "SpiritSelection" c.spirit_selection_timeout (spirit_selection env)
      ++ step "SpiritLoad" c.spirit_load_timeout (spirit_load env)
      ++ step "SpiritScout" c.scout_timeout (spirit_scout env)
      ++ step "OrchestratorRouting" c.spirit_selection_timeout (orchestrator_routing env)

  unfoldable pub thinking_steps : List (Step Turn)
  thinking_steps =
      let c = env.config in
      step "SessionSetup" c.session_timeout (session_setup env)
      ++ step "MessageCoalescing" c.message_coalescing_timeout (message_coalescing env)
      ++ step_if c.has_ledger "CostEnforcement" c.scout_timeout (cost_enforcement env)
      ++ step_if (ltb 0 (length c.routing_rules)) "ModelRouting" c.scout_timeout (model_routing env)
      ++ step "ConditionEvaluation" c.scout_timeout (condition_evaluation env)
      ++ step "Reasoning" c.reasoning_timeout (reasoning_step env)

  abbrev pub notification_step : Step Turn
  notification_step = record {
    name = "Notification";
    timeout = env.config.reasoning_timeout;
    execute = notification env;
  }

  unfoldable pub answer_steps : List (Step Turn)
  answer_steps =
      let c = env.config in
      step_if c.has_output_guard "OutputGuard" c.scout_timeout (output_guard env)
      ++ step "Persistence" c.persistence_timeout (persistence env)
      ++ step "ResponseDelivery" c.persistence_timeout (response_delivery env)
      ++ step "AuditLog" c.persistence_timeout (audit_log env)
      ++ step_if c.has_ledger "LedgerUpdate" c.persistence_timeout (ledger_update env)
      ++ step_if c.has_rituals "MarkExecuted" ritual_step_timeout (mark_executed env)

  unfoldable pub build_processing_pipeline : Pipeline Turn
  unfolding admission_steps spirit_steps thinking_steps answer_steps step_if
  build_processing_pipeline = record {
    steps =
        admission_steps
        ++ lock_step ∷ (spirit_steps ++ thinking_steps ++ notification_step ∷ answer_steps);
    deferred_steps = step_if env.config.has_typing "TypingStop" short_timeout typing_stop;
  }

-- What the caller gets: a Response with a nil or a non-nil error, or a panic.
pub data Reply : Type 0 where
  returned : Response → Option Err → Reply
  panicked : Reply

-- The Response after a nil error; the log line reads state.ReasoningResult through a pointer.
success_reply : ProcessingState → Reply
success_reply s = elim s.spirit [
  | none ↦ panicked
  | some sp ↦ elim s.reasoning_result [
    | none ↦ panicked
    | some r ↦
        returned
          (record (new_response s.event.id s.event.memory_key sp.name r.action_names) {
            response_delivered = s.response_delivered;
            final_response = s.response;
          })
          none
  ]
]

error_reply : Err → ProcessingState → Reply
error_reply e s =
    if is_duplicate_event e
    then returned (new_duplicate_response s.event.id s.event.memory_key) none
    else returned
        (record (new_error_response s.event.id s.event.memory_key) {
          response_delivered = s.response_delivered;
        })
        (some e)

-- runProcessingPipeline after the pipeline. The release is no deferred call: a panic skips it.
unfoldable pub settle : Env → Outcome Turn → Reply × Turn
unfolding success_reply error_reply
settle env (ok t) = let t1 = state_of (lock_release t) in (success_reply t1.state, t1)
settle env (fail e t) =
    let t1 = state_of (lock_release t) in
    let s = record (t1.state) { processing_status = status_from_error e } in
    let t2 = log_interaction env (record t1 { state = s }) in (error_reply e t2.state, t2)
settle env (panic t) = (panicked, t)

unfoldable pub run_processing_pipeline : Env → Turn → Reply × Turn
unfolding settle build_processing_pipeline execute
run_processing_pipeline env t = settle env (execute (runner env) (build_processing_pipeline env) t)
