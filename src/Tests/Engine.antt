-- ===== src/Tests/Engine.antt =====
-- The engine on the small deployment.
use eywa.Prelude.{
  ◌≡◌, ◌≢◌, refl, ◌≤◌, ◌+◌, Bool, true, false, none, some, [], ◌∷◌, ◌++◌, length, str_eq, is_empty,
  if◌then◌else◌, arith,
}
use eywa.Prelude.Maps.{lookup, insert}
use eywa.Errors.{wrapped, err_memory_busy, is_retriable, status_from_error}
use eywa.Pipeline.{ok, fail, state_of, run_steps, execute_step, execute}
use eywa.Entities.Response.{new_duplicate_response, new_error_response}
use eywa.Stores.Bond.{held}
use eywa.Engine.State.{Turn, Env}
use eywa.Engine.Run.{
  Reply, returned, panicked, runner, admission_steps, spirit_steps, step_if,
  build_processing_pipeline, run_processing_pipeline,
}
use eywa.Stores.Idempotency
use eywa.Stores.Bond.{acquired, acquire_lock}
use eywa.Engine.Admission.{
  validation, idempotency_check, lock_acquisition, push_inbox, vigil_check, lock_release, or_nil,
  lock_name,
}
use eywa.Engine.Filter.{filter_step, check_rules}
use eywa.Engine.Routing.{
  link_scout, spirit_selection, spirit_load, spirit_scout, orchestrator_routing,
}
use eywa.Entities.Spirit.{
  is_orchestrator, is_conversational, is_notifier, is_executor, needs_session,
  needs_message_coalescing,
}
use eywa.Engine.Session.{session_setup, message_coalescing}
use eywa.Engine.Condition.{condition_evaluation}
use eywa.Engine.Answer.{reasoning_step, notification, persistence, response_delivery, audit_log}
use eywa.Engine.Locks.Run.{run_processing_pipeline-locks}
use eywa.Engine.Delivery.{bit}
use eywa.Engine.Delivery.Once.{run_processing_pipeline-sends_once}
use eywa.Engine.Refusal.{run_processing_pipeline-busy, run_processing_pipeline-duplicate}
use eywa.Engine.Held.{held_reply, run_processing_pipeline-held}
use eywa.Engine.Audit.{failure_record, run_processing_pipeline-audits}
use eywa.Engine.Template.{loading_steps}
use eywa.Engine.Sessionless.{is_sessionless, run_processing_pipeline-leaks_locks}
use eywa.Tests.Fixtures.{chat, first_turn, quiet, env_of, plain_config, guide, herald, clerk, hello}

was_returned : Reply → Bool
was_returned (returned r e) = true
was_returned panicked = false

returned≢panicked : (r : Reply) → was_returned r ≡ true → r ≢ panicked
unfolding was_returned
returned≢panicked r h e = ground (arith, h, e)

replies : was_returned (run_processing_pipeline chat first_turn).0 ≡ true
unfolding run_processing_pipeline was_returned validation idempotency_check Idempotency.seen lookup
    Idempotency.reap_expired lock_acquisition acquire_lock vigil_check link_scout filter_step
    check_rules spirit_selection spirit_load spirit_scout orchestrator_routing is_orchestrator
    session_setup message_coalescing condition_evaluation reasoning_step notification persistence
    response_delivery audit_log is_conversational is_notifier needs_session needs_message_coalescing
    lock_release insert push_inbox held
replies = refl

run_processing_pipeline-locks_example :
    held (run_processing_pipeline chat first_turn).1.world.locks "memory:whatsapp:569" ≡ false
unfolding held lookup
run_processing_pipeline-locks_example =
    run_processing_pipeline-locks chat first_turn "memory:whatsapp:569" refl refl
      (returned≢panicked (run_processing_pipeline chat first_turn).0 replies)

run_processing_pipeline-sends_once_example :
    length (run_processing_pipeline chat first_turn).1.world.sent
    ≤ 0 + bit (run_processing_pipeline chat first_turn).1.state.response_delivered
run_processing_pipeline-sends_once_example = run_processing_pipeline-sends_once chat first_turn

-- The session is held by another turn.
abbrev busy_turn : Turn
busy_turn = record first_turn {
  world = record quiet { locks = ("memory:whatsapp:569", true) ∷ [] };
}

abbrev admitted_turn : Turn
admitted_turn = record {
  state = record (first_turn.state) { start_time = 100; processing_status = "success" };
  world = record (busy_turn.world) { seen = ("wamid.1", 3700) ∷ [] };
}

admitted :
    run_steps (runner chat) (admission_steps chat) ((runner chat).begin busy_turn)
    ≡ ok admitted_turn
unfolding admission_steps spirit_steps step_if run_steps execute_step validation idempotency_check
    Idempotency.seen lookup Idempotency.reap_expired Idempotency.record_key Idempotency.live
    lock_acquisition acquire_lock vigil_check link_scout filter_step check_rules spirit_selection
    spirit_load spirit_scout orchestrator_routing is_orchestrator session_setup message_coalescing
    condition_evaluation reasoning_step notification persistence response_delivery audit_log
    is_conversational is_notifier is_executor needs_session needs_message_coalescing lock_release
    insert push_inbox held err_memory_busy
admitted = refl

is_held : held admitted_turn.world.locks "memory:whatsapp:569" ≡ true
unfolding held lookup
is_held = refl

run_processing_pipeline-busy_example :
    ((run_processing_pipeline chat busy_turn).0
      ≡ returned (new_error_response "p1" "whatsapp:569") (some (wrapped err_memory_busy)))
    × (is_retriable (wrapped err_memory_busy) ≡ false)
    × (lookup "whatsapp:569" (run_processing_pipeline chat busy_turn).1.world.inbox
        ≡ some (or_nil (lookup "whatsapp:569" []) ++ "hello" ∷ []))
unfolding new_error_response
run_processing_pipeline-busy_example =
    run_processing_pipeline-busy chat busy_turn admitted_turn (λ timed t. refl) admitted is_held
      refl refl refl

-- The key of the Pulse was seen a moment ago.
abbrev repeated_turn : Turn
repeated_turn = record first_turn { world = record quiet { seen = ("wamid.1", 3000) ∷ [] } }

is_seen : (Idempotency.seen "wamid.1" 100 3600 repeated_turn.world.seen).0 ≡ true
unfolding Idempotency.seen lookup Idempotency.reap_expired
is_seen = refl

run_processing_pipeline-duplicate_example :
    ((run_processing_pipeline chat repeated_turn).0
      ≡ returned (new_duplicate_response "p1" "whatsapp:569") none)
    × ((run_processing_pipeline chat repeated_turn).1.world.locks ≡ [])
    × ((run_processing_pipeline chat repeated_turn).1.world.inbox ≡ [])
run_processing_pipeline-duplicate_example =
    run_processing_pipeline-duplicate chat repeated_turn (λ timed t. refl) refl refl refl is_seen
      refl

abbrev busy_end : Turn
busy_end = state_of (execute (runner chat) (build_processing_pipeline chat) busy_turn)

busy_fails :
    execute (runner chat) (build_processing_pipeline chat) busy_turn
    ≡ fail (wrapped err_memory_busy) busy_end
unfolding build_processing_pipeline execute validation idempotency_check Idempotency.seen lookup
    Idempotency.reap_expired Idempotency.record_key Idempotency.live lock_acquisition acquire_lock
    vigil_check link_scout filter_step check_rules spirit_selection spirit_load spirit_scout
    orchestrator_routing is_orchestrator session_setup message_coalescing condition_evaluation
    reasoning_step notification persistence response_delivery audit_log is_conversational
    is_notifier is_executor needs_session needs_message_coalescing lock_release insert push_inbox
    held err_memory_busy
busy_fails = refl

run_processing_pipeline-audits_example :
    ((run_processing_pipeline chat busy_turn).1.world.chronicles ≡ (
      if chat.log_interaction_up (state_of (lock_release busy_end)).world
      then failure_record (wrapped err_memory_busy) busy_end ∷ busy_end.world.chronicles
      else busy_end.world.chronicles))
    × (str_eq (status_from_error (wrapped err_memory_busy)) "success" ≡ false)
    × (is_empty (status_from_error (wrapped err_memory_busy)) ≡ false)
run_processing_pipeline-audits_example =
    run_processing_pipeline-audits chat busy_turn busy_end (wrapped err_memory_busy) busy_fails

abbrev herald_env : Env
herald_env = env_of plain_config herald

abbrev herald_loaded : Turn
herald_loaded = state_of (
    run_steps (runner herald_env) (loading_steps herald_env) ((runner herald_env).begin first_turn))

abbrev herald_end : Turn
herald_end =
    state_of (execute (runner herald_env) (build_processing_pipeline herald_env) first_turn)

abbrev clerk_env : Env
clerk_env = env_of plain_config clerk

abbrev clerk_loaded : Turn
clerk_loaded =
    state_of
      (run_steps (runner clerk_env) (loading_steps clerk_env) ((runner clerk_env).begin first_turn))

clerk_loads :
    run_steps (runner clerk_env) (loading_steps clerk_env) ((runner clerk_env).begin first_turn)
    ≡ ok clerk_loaded
unfolding admission_steps spirit_steps step_if run_steps execute_step validation idempotency_check
    Idempotency.seen lookup Idempotency.reap_expired Idempotency.record_key Idempotency.live
    lock_acquisition acquire_lock vigil_check link_scout filter_step check_rules spirit_selection
    spirit_load spirit_scout orchestrator_routing is_orchestrator session_setup message_coalescing
    condition_evaluation reasoning_step notification persistence response_delivery audit_log
    is_conversational is_notifier is_executor needs_session needs_message_coalescing lock_release
    insert push_inbox held err_memory_busy
clerk_loads = refl

clerk_sessionless : is_sessionless clerk_loaded ≡ true
unfolding admission_steps spirit_steps step_if run_steps execute_step validation idempotency_check
    Idempotency.seen lookup Idempotency.reap_expired Idempotency.record_key Idempotency.live
    lock_acquisition acquire_lock vigil_check link_scout filter_step check_rules spirit_selection
    spirit_load spirit_scout orchestrator_routing is_orchestrator session_setup message_coalescing
    condition_evaluation reasoning_step notification persistence response_delivery audit_log
    is_conversational is_notifier is_executor needs_session needs_message_coalescing lock_release
    insert push_inbox held err_memory_busy is_sessionless
clerk_sessionless = refl

run_processing_pipeline-leaks_locks_example :
    ((run_processing_pipeline clerk_env first_turn).0 ≡ panicked)
    × ((run_processing_pipeline clerk_env first_turn).1.world.locks ≡ clerk_loaded.world.locks)
run_processing_pipeline-leaks_locks_example =
    run_processing_pipeline-leaks_locks clerk_env first_turn clerk_loaded clerk_loads refl refl
      clerk_sessionless

-- An operator holds every session.
abbrev operated : Env
operated = record (env_of (record plain_config { has_vigil = true }) guide) {
  vigil_held = λ k w. some true;
}

abbrev seated_turn : Turn
seated_turn =
    state_of
      (run_steps (runner operated) (admission_steps operated) ((runner operated).begin first_turn))

is_seated :
    run_steps (runner operated) (admission_steps operated) ((runner operated).begin first_turn)
    ≡ ok seated_turn
unfolding admission_steps step_if run_steps execute_step validation idempotency_check
    Idempotency.seen lookup Idempotency.reap_expired Idempotency.record_key Idempotency.live insert
is_seated = refl

session_free :
    (acquire_lock (lock_name seated_turn.state.event.memory_key) seated_turn.world.locks).0
    ≡ acquired
unfolding admission_steps step_if run_steps execute_step validation idempotency_check
    Idempotency.seen lookup Idempotency.reap_expired Idempotency.record_key Idempotency.live insert
    acquire_lock held
session_free = refl

run_processing_pipeline-held_example :
    ((run_processing_pipeline operated first_turn).0 ≡ held_reply hello false)
    × (lookup hello.memory_key (run_processing_pipeline operated first_turn).1.world.inbox
        ≡ some (or_nil (lookup hello.memory_key first_turn.world.inbox) ++ hello.user_message ∷ []))
    × ((run_processing_pipeline operated first_turn).1.world.sent ≡ first_turn.world.sent)
    × ((run_processing_pipeline operated first_turn).1.world.memories ≡ first_turn.world.memories)
unfolding run_steps admission_steps execute_step validation step_if idempotency_check
    Idempotency.seen lookup Idempotency.reap_expired
run_processing_pipeline-held_example =
    run_processing_pipeline-held operated first_turn seated_turn (λ timed t. refl) is_seated
      session_free refl refl refl refl refl
