-- ===== src/Engine/Locks/Run.antt =====
-- The locks across a whole run of the pipeline (runProcessingPipeline in
-- internal/implementation/orchestrator/engine.go).
use eywa.Prelude.{◌≡◌, ◌≢◌, refl, sym, subst, ℕ, Bool, false, List, [], ◌∷◌, ◌++◌, String, arith}
use eywa.Pipeline.{Outcome, ok, fail, panic, state_of, Step, run_steps, execute}
use eywa.Stores.Bond.{Locks, held}
use eywa.Engine.State.{Turn, Env}
use eywa.Engine.Admission.{validation, idempotency_check, rate_limit, vigil_check}
use eywa.Engine.Answer.{
  reasoning_step, notification, output_guard, persistence, response_delivery, audit_log,
  log_interaction,
}
use eywa.Engine.Session.{
  session_setup, message_coalescing, ritual_mark, mark_executed, typing_start, typing_stop,
}
use eywa.Engine.Condition.{condition_evaluation}
use eywa.Engine.Budget.{cost_enforcement, ledger_update}
use eywa.Engine.Filter.{filter_step}
use eywa.Engine.Routing.{
  link_scout, spirit_selection, spirit_load, spirit_scout, orchestrator_routing, model_routing,
}
use eywa.Engine.Kept.{
  Kept, always, wired, after-run_steps, after-deferred, after-append, after-first,
}
use eywa.Engine.Kept
use eywa.Engine.Run.{
  runner, step, step_if, admission_steps, lock_step, spirit_steps, thinking_steps,
  notification_step, answer_steps, build_processing_pipeline, panicked, settle,
  run_processing_pipeline,
}
use eywa.Engine.Locks.{
  LockView, lock_view, LeavesLocks, validation-LeavesLocks, idempotency_check-LeavesLocks,
  rate_limit-LeavesLocks, vigil_check-LeavesLocks, typing_start-LeavesLocks,
  ritual_mark-LeavesLocks, filter_step-LeavesLocks, spirit_selection-LeavesLocks,
  spirit_load-LeavesLocks, spirit_scout-LeavesLocks, orchestrator_routing-LeavesLocks,
}
use eywa.Engine.Locks.Answer.{
  session_setup-LeavesLocks, message_coalescing-LeavesLocks, cost_enforcement-LeavesLocks,
  model_routing-LeavesLocks, condition_evaluation-LeavesLocks, reasoning_step-LeavesLocks,
  notification-LeavesLocks, output_guard-LeavesLocks, persistence-LeavesLocks,
  response_delivery-LeavesLocks, audit_log-LeavesLocks, ledger_update-LeavesLocks,
  mark_executed-LeavesLocks, typing_stop-LeavesLocks,
}
use eywa.Engine.Locks.Restore.{
  held-cleaned, cleaned-lock_release, Restores, IsFree, IsLocked, lock_acquisition-Restores,
  lock_acquisition-IsLocked, link_scout-IsLocked,
}

module _ (env : Env) (P : LockView → Type 0) where
  abbrev OnView : Turn → Type 0
  OnView t = P (lock_view t)

  keeps :
      (f : Turn → Outcome Turn) → LeavesLocks f → (t : Turn) → OnView t → OnView (state_of (f t))
  keeps f l t h = subst P (sym (l t)) h

  left :
      {name : String} {timeout : ℕ} (f : Turn → Outcome Turn)
      → LeavesLocks f
      → Kept env OnView (step name timeout f)
  left f l = always env OnView (keeps f l)

  left_if :
      (b : Bool) (name : String) (timeout : ℕ) (f : Turn → Outcome Turn)
      → LeavesLocks f
      → Kept env OnView (step_if b name timeout f)
  left_if b name timeout f l = wired env OnView b name timeout f (keeps f l)

  infixl 65 ◌⊕◌
  ◌⊕◌ :
      {xs ys : List (Step Turn)}
      → Kept env OnView xs
      → Kept env OnView ys
      → Kept env OnView (xs ++ ys)
  ◌⊕◌ = Kept.◌⊕◌ env OnView

  admission_steps-Kept : Kept env OnView (admission_steps env)
  unfolding admission_steps
  admission_steps-Kept =
      left (validation env) (validation-LeavesLocks env)
      ⊕ left_if _ _ _ (idempotency_check env) (idempotency_check-LeavesLocks env)
      ⊕ left_if _ _ _ (rate_limit env) (rate_limit-LeavesLocks env)

  thinking_steps-Kept : Kept env OnView (thinking_steps env)
  unfolding thinking_steps
  thinking_steps-Kept =
      left (session_setup env) (session_setup-LeavesLocks env)
      ⊕ left (message_coalescing env) (message_coalescing-LeavesLocks env)
      ⊕ left_if _ _ _ (cost_enforcement env) (cost_enforcement-LeavesLocks env)
      ⊕ left_if _ _ _ (model_routing env) (model_routing-LeavesLocks env)
      ⊕ left (condition_evaluation env) (condition_evaluation-LeavesLocks env)
      ⊕ left (reasoning_step env) (reasoning_step-LeavesLocks env)

  answer_steps-Kept : Kept env OnView (notification_step env ∷ answer_steps env)
  unfolding answer_steps
  answer_steps-Kept =
      left (notification env) (notification-LeavesLocks env)
      ⊕ (left_if _ _ _ (output_guard env) (output_guard-LeavesLocks env)
          ⊕ left (persistence env) (persistence-LeavesLocks env)
          ⊕ left (response_delivery env) (response_delivery-LeavesLocks env)
          ⊕ left (audit_log env) (audit_log-LeavesLocks env)
          ⊕ left_if _ _ _ (ledger_update env) (ledger_update-LeavesLocks env)
          ⊕ left_if _ _ _ (mark_executed env) (mark_executed-LeavesLocks env))

  spirit_steps-Kept :
      ((t : Turn) → OnView t → OnView (state_of (link_scout env t)))
      → Kept env OnView (spirit_steps env)
  unfolding spirit_steps
  spirit_steps-Kept link =
      left (vigil_check env) (vigil_check-LeavesLocks env)
      ⊕ left_if _ _ _ typing_start (typing_start-LeavesLocks env)
      ⊕ left_if _ _ _ (ritual_mark env) (ritual_mark-LeavesLocks env)
      ⊕ always env OnView link
      ⊕ left filter_step (filter_step-LeavesLocks env)
      ⊕ left (spirit_selection env) (spirit_selection-LeavesLocks env)
      ⊕ left (spirit_load env) (spirit_load-LeavesLocks env)
      ⊕ left (spirit_scout env) (spirit_scout-LeavesLocks env)
      ⊕ left (orchestrator_routing env) (orchestrator_routing-LeavesLocks env)

abbrev rest_steps : Env → List (Step Turn)
rest_steps env = spirit_steps env ++ thinking_steps env ++ notification_step env ∷ answer_steps env

module _ (env : Env) (before : Locks) where
  abbrev Restored : Turn → Type 0
  Restored t = Restores before (lock_view t)

  abbrev Free : Turn → Type 0
  Free t = IsFree before (lock_view t)

  abbrev Locked : Turn → Type 0
  Locked t = IsLocked before (lock_view t)

  Restored-of_Free : (t : Turn) → Free t → Restored t
  unfolding IsFree
  Restored-of_Free t h = h.2

  Restored-of_Locked : (t : Turn) → Locked t → Restored t
  unfolding IsLocked
  Restored-of_Locked t h = h.1

  admission-Free :
      (t : Turn) → Free t → Free (state_of (run_steps (runner env) (admission_steps env) t))
  admission-Free t h =
      after-run_steps env Free (λ n s p. p) (admission_steps env) t
        (admission_steps-Kept env (IsFree before)) h

  rest-IsLocked :
      (t : Turn) → Locked t → Locked (state_of (run_steps (runner env) (rest_steps env) t))
  rest-IsLocked t h =
      let k =
        ◌⊕◌ env (IsLocked before)
          (◌⊕◌ env (IsLocked before)
            (spirit_steps-Kept env (IsLocked before) (link_scout-IsLocked env before))
            (thinking_steps-Kept env (IsLocked before)))
          (answer_steps-Kept env (IsLocked before)) in
      after-run_steps env Locked (λ n s p. p) (rest_steps env) t k h

  lock_on-Restored :
      (t : Turn)
      → Free t
      → Restored (state_of (run_steps (runner env) (lock_step env ∷ rest_steps env) t))
  lock_on-Restored t h =
      after-first env Free Restored (λ n s p. p) (lock_step env) (rest_steps env) t
        (lock_acquisition-Restores env before t h)
        (λ s e q.
          Restored-of_Locked (state_of (run_steps (runner env) (rest_steps env) s))
            (rest-IsLocked s (lock_acquisition-IsLocked env before t s h e)))

  run_steps-Restored :
      (t : Turn)
      → Free t
      → Restored (state_of (run_steps (runner env) ((build_processing_pipeline env).steps) t))
  unfolding build_processing_pipeline
  run_steps-Restored t h =
      after-append env Free Restored (λ n s p. p) Restored-of_Free (admission_steps env)
        (lock_step env ∷ rest_steps env) t (admission_steps-Kept env (IsFree before))
        lock_on-Restored h

  deferred_steps-Kept : Kept env Restored ((build_processing_pipeline env).deferred_steps)
  unfolding build_processing_pipeline
  deferred_steps-Kept =
      left_if env (Restores before) _ _ _ typing_stop (typing_stop-LeavesLocks env)

  execute-Restored :
      (t : Turn)
      → Free t
      → Restored (state_of (execute (runner env) (build_processing_pipeline env) t))
  execute-Restored t h =
      after-deferred env Restored (λ n s p. p) t deferred_steps-Kept
        (run_steps-Restored ((runner env).begin t) h)

  held-settle :
      (o : Outcome Turn) (j : String)
      → Restored (state_of o)
      → ((settle env o).0 ≢ panicked)
      → held ((settle env o).1.world.locks) j ≡ held before j
  unfolding settle log_interaction
  held-settle (ok t) j h n = rw (cleaned-lock_release t) (h j)
  held-settle (fail e t) j h n = ground (arith, cleaned-lock_release t, h j)
  held-settle (panic t) j h n = absurd (n refl)

-- A turn that starts without a lock and whose run does not panic leaves every session lock as it
-- found it, whichever step failed and whatever the ports answered: the run gives back the lock of its
-- session and those that its scouts made it take, and never frees the lock of another turn.
pub run_processing_pipeline-locks :
    (env : Env) (t : Turn) (j : String)
    → t.state.lock_acquired ≡ false
    → t.state.additional_locks ≡ []
    → (run_processing_pipeline env t).0 ≢ panicked
    → held (run_processing_pipeline env t).1.world.locks j ≡ held t.world.locks j
unfolding run_processing_pipeline IsFree
run_processing_pipeline-locks env t j a l n =
    let free : IsFree t.world.locks (lock_view t) =
      (a, l, λ i. ground (arith, a, held-cleaned (lock_view t) i)) in
    held-settle env t.world.locks (execute (runner env) (build_processing_pipeline env) t) j
      (execute-Restored env t.world.locks t free) n
