-- ===== src/Engine/Admission.antt =====
-- The steps that admit a Pulse (internal/implementation/orchestrator): validation, idempotency, rate
-- limit, the session lock, and the check for an operator's seat.
use eywa.Prelude.{
  true, false, not, ◌&&◌, Option, none, some, List, [], ◌∷◌, ◌++◌, String, concat, is_empty,
  if◌then◌else◌,
}
use eywa.Prelude.Maps.{insert, lookup}
use eywa.Errors.{
  wrapped, err_duplicate_event, err_rate_limit_exceeded, err_lock_acquisition_failed,
  err_memory_busy, err_session_held, plain,
}
use eywa.Pipeline.{Outcome, ok, fail}
use eywa.Stores.Bond.{Acquired, acquired, busy, failed, acquire_lock, release_lock, Locks}
use eywa.Stores.Idempotency
use eywa.Engine.State.{ProcessingState, World, Turn, Env}

abbrev pub set_state : ProcessingState → Turn → Turn
set_state s t = record t { state = s }

abbrev pub set_world : World → Turn → Turn
set_world w t = record t { world = w }

abbrev pub or_nil : Option (List String) → List String
or_nil none = []
or_nil (some l) = l

-- fmt.Sprintf("memory:%s", key)
abbrev pub lock_name : String → String
lock_name key = concat "memory:" key

module _ (env : Env) where
  unfoldable pub validation : Turn → Outcome Turn
  validation t = elim (env.validate t.state.event) [ none ↦ ok t | some e ↦ fail (wrapped e) t ]

  -- The in-process store never errors, so the fail-open branch does not arise.
  unfoldable pub idempotency_check : Turn → Outcome Turn
  idempotency_check t =
      let w = t.world in
      let (dup, store) =
        Idempotency.seen t.state.event.idempotency_key w.clock env.config.idempotency_ttl w.seen in
      if is_empty t.state.event.idempotency_key
      then ok t
      else if dup
      then fail err_duplicate_event (record t { world = record w { seen = store } })
      else ok (record t { world = record w { seen = store } })

  -- A limiter that errors lets the Pulse through.
  unfoldable pub rate_limit : Turn → Outcome Turn
  rate_limit t = elim (env.allow t.state.event.memory_key t.world) [
    | none ↦ ok t
    | some true ↦ ok t
    | some false ↦ fail err_rate_limit_exceeded t
  ]

  -- s.messageInbox.Push; a failure is logged only.
  unfoldable pub push_inbox : ProcessingState → World → World
  push_inbox s w =
      let key = s.event.memory_key in
      if env.config.has_inbox && not (is_empty s.event.user_message) && env.inbox_up w
      then record w {
        inbox = insert key (or_nil (lookup key w.inbox) ++ s.event.user_message ∷ []) w.inbox;
      }
      else w

  take_lock : Acquired → Locks → Turn → Outcome Turn
  take_lock acquired locks t = ok (record {
    state = record (t.state) { lock_acquired = true };
    world = record (t.world) { locks = locks };
  })
  take_lock busy locks t =
      fail err_memory_busy (record t { world = record (t.world) { locks = locks } })
  take_lock failed locks t =
      fail (err_lock_acquisition_failed (some plain))
        (record t { world = record (t.world) { locks = locks } })

  unfoldable pub lock_acquisition : Turn → Outcome Turn
  unfolding push_inbox take_lock
  lock_acquisition t =
      let w = push_inbox t.state t.world in
      let s = record (t.state) { lock_key = lock_name t.state.event.memory_key } in
      let (answer, locks) = acquire_lock s.lock_key w.locks in
      take_lock answer locks (record { state = s; world = w })

  -- A repository that errors lets the Pulse through.
  unfoldable pub vigil_check : Turn → Outcome Turn
  vigil_check t =
      if env.config.has_vigil
      then (elim (env.vigil_held t.state.event.memory_key t.world) [
        | none ↦ ok t
        | some false ↦ ok t
        | some true ↦
            fail err_session_held
              (record t { state = record (t.state) { processing_status = "session_held" } })
      ])
      else ok t

-- The loop over state.AdditionalLocks.
unfoldable pub release_all : List String → Locks → Locks
release_all [] locks = locks
release_all (k ∷ ks) locks = release_all ks (release_lock k locks)

unfoldable pub lock_release : Turn → Outcome Turn
unfolding release_all
lock_release t =
    if t.state.lock_acquired
    then ok (record {
      state = record (t.state) { lock_acquired = false };
      world = record (t.world) {
        locks = release_all t.state.additional_locks (release_lock t.state.lock_key t.world.locks);
      };
    })
    else ok t
