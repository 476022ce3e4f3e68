-- ===== src/Engine/Locks.antt =====
-- Which steps of the engine touch the session locks (internal/implementation/orchestrator): all but
-- three leave the lock state alone.
pub mod Answer
pub mod Restore
pub mod Run
use eywa.Prelude.{
  ◌≡◌, refl, Bool, true, false, Option, none, some, List, [], ◌∷◌, ◌++◌, String, arith,
}
use eywa.Pipeline.{Outcome, ok, fail, panic, state_of}
use eywa.Stores.Bond.{Locks}
use eywa.Engine.State.{ProcessingState, World, Turn, Env}
use eywa.Engine.Admission.{validation, idempotency_check, rate_limit, push_inbox, vigil_check}
use eywa.Engine.Filter.{filter_step}
use eywa.Engine.Routing.{spirit_selection, spirit_load, spirit_scout, orchestrator_routing}
use eywa.Engine.Session.{ritual_mark, typing_start}

-- What the lock and the release of a turn are made of.
pub record LockView : Type 0 where
  pub locks : Locks
  pub lock_key : String
  pub lock_acquired : Bool
  pub additional_locks : List String

abbrev pub lock_view : Turn → LockView
lock_view t = record {
  locks = t.world.locks;
  lock_key = t.state.lock_key;
  lock_acquired = t.state.lock_acquired;
  additional_locks = t.state.additional_locks;
}

-- A step that leaves the lock state alone, whichever way it ends.
abbrev pub LeavesLocks : (Turn → Outcome Turn) → Type 0
LeavesLocks f = (t : Turn) → lock_view (state_of (f t)) ≡ lock_view t

module _ (env : Env) where
  pub validation-LeavesLocks : LeavesLocks (validation env)
  unfolding validation
  validation-LeavesLocks t = ground arith

  pub idempotency_check-LeavesLocks : LeavesLocks (idempotency_check env)
  unfolding idempotency_check
  idempotency_check-LeavesLocks t = ground arith

  pub rate_limit-LeavesLocks : LeavesLocks (rate_limit env)
  unfolding rate_limit
  rate_limit-LeavesLocks t = ground arith

  pub vigil_check-LeavesLocks : LeavesLocks (vigil_check env)
  unfolding vigil_check
  vigil_check-LeavesLocks t = ground arith

  pub typing_start-LeavesLocks : LeavesLocks typing_start
  unfolding typing_start
  typing_start-LeavesLocks t = ground arith

  pub ritual_mark-LeavesLocks : LeavesLocks (ritual_mark env)
  unfolding ritual_mark
  ritual_mark-LeavesLocks t = ground arith

  pub filter_step-LeavesLocks : LeavesLocks filter_step
  unfolding filter_step
  filter_step-LeavesLocks t = ground arith

  pub spirit_selection-LeavesLocks : LeavesLocks (spirit_selection env)
  unfolding spirit_selection
  spirit_selection-LeavesLocks t = ground arith

  pub spirit_load-LeavesLocks : LeavesLocks (spirit_load env)
  unfolding spirit_load
  spirit_load-LeavesLocks t = ground arith

  pub spirit_scout-LeavesLocks : LeavesLocks (spirit_scout env)
  unfolding spirit_scout
  spirit_scout-LeavesLocks t = ground arith

  pub orchestrator_routing-LeavesLocks : LeavesLocks (orchestrator_routing env)
  unfolding orchestrator_routing
  orchestrator_routing-LeavesLocks t = ground arith
