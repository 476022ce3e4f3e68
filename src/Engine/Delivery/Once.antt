-- ===== src/Engine/Delivery/Once.antt =====
-- How often a run of the pipeline sends an answer (runProcessingPipeline in
-- internal/implementation/orchestrator/engine.go).
use eywa.Prelude.{
  ◌≡◌, refl, sym, ◌∙◌, ap, ℕ, ◌+◌, ◌≤◌, Bool, List, ◌∷◌, ◌++◌, String, length, arith,
}
use eywa.Pipeline.{Outcome, ok, fail, panic, state_of, Step, run_steps, execute}
use eywa.Engine.State.{Turn, Env}
use eywa.Engine.Admission.{
  validation, idempotency_check, rate_limit, vigil_check, lock_acquisition, lock_release,
}
use eywa.Engine.Answer.{
  reasoning_step, output_guard, persistence, response_delivery, audit_log, log_interaction,
}
use eywa.Engine.Session.{
  session_setup, message_coalescing, ritual_mark, mark_executed, typing_start, typing_stop,
}
use eywa.Engine.Condition.{condition_evaluation}
use eywa.Engine.Budget.{cost_enforcement, ledger_update}
use eywa.Engine.Filter.{filter_step}
use eywa.Engine.Routing.{
  link_scout, spirit_selection, spirit_load, spirit_scout, orchestrator_routing, model_routing,
}
use eywa.Engine.Kept.{
  Kept, always, wired, after-run_steps, after-deferred, after-append, after-first,
}
use eywa.Engine.Kept
use eywa.Engine.Run.{
  runner, step, step_if, admission_steps, lock_step, spirit_steps, thinking_steps,
  notification_step, answer_steps, build_processing_pipeline, settle, run_processing_pipeline,
}
use eywa.Engine.Delivery.{
  Silent, AtMost, bit, Bounded, AtMost-of_unsent, notification-AtMost, validation-Silent,
  idempotency_check-Silent, rate_limit-Silent, lock_acquisition-Silent, vigil_check-Silent,
  typing_start-Silent, ritual_mark-Silent, filter_step-Silent, spirit_selection-Silent,
  spirit_load-Silent, spirit_scout-Silent, orchestrator_routing-Silent, model_routing-Silent,
  session_setup-Silent, message_coalescing-Silent, cost_enforcement-Silent,
  condition_evaluation-Silent, reasoning_step-Silent, link_scout-Silent, output_guard-Bounded,
  persistence-Bounded, response_delivery-Bounded, audit_log-Bounded, ledger_update-Bounded,
  mark_executed-Bounded, typing_stop-Bounded,
}

module _ (env : Env) (n : ℕ) where
  abbrev Unsent : Turn → Type 0
  Unsent t = length t.world.sent ≡ n

  abbrev Once : Turn → Type 0
  Once t = AtMost n t

  mute :
      {name : String} {timeout : ℕ} (f : Turn → Outcome Turn)
      → Silent f
      → Kept env Unsent (step name timeout f)
  mute f l = always env Unsent (λ t h. ap length (l t) ∙ h)

  mute_if :
      (b : Bool) (name : String) (timeout : ℕ) (f : Turn → Outcome Turn)
      → Silent f
      → Kept env Unsent (step_if b name timeout f)
  mute_if b name timeout f l = wired env Unsent b name timeout f (λ t h. ap length (l t) ∙ h)

  infixl 65 ◌⊕◌
  ◌⊕◌ :
      {xs ys : List (Step Turn)}
      → Kept env Unsent xs
      → Kept env Unsent ys
      → Kept env Unsent (xs ++ ys)
  ◌⊕◌ = Kept.◌⊕◌ env Unsent

  admission_steps-Kept : Kept env Unsent (admission_steps env)
  unfolding admission_steps
  admission_steps-Kept =
      mute (validation env) (validation-Silent env)
      ⊕ mute_if _ _ _ (idempotency_check env) (idempotency_check-Silent env)
      ⊕ mute_if _ _ _ (rate_limit env) (rate_limit-Silent env)

  spirit_steps-Kept : Kept env Unsent (spirit_steps env)
  unfolding spirit_steps
  spirit_steps-Kept =
      mute (vigil_check env) (vigil_check-Silent env)
      ⊕ mute_if _ _ _ typing_start (typing_start-Silent env)
      ⊕ mute_if _ _ _ (ritual_mark env) (ritual_mark-Silent env)
      ⊕ mute (link_scout env) (link_scout-Silent env)
      ⊕ mute filter_step (filter_step-Silent env)
      ⊕ mute (spirit_selection env) (spirit_selection-Silent env)
      ⊕ mute (spirit_load env) (spirit_load-Silent env)
      ⊕ mute (spirit_scout env) (spirit_scout-Silent env)
      ⊕ mute (orchestrator_routing env) (orchestrator_routing-Silent env)

  thinking_steps-Kept : Kept env Unsent (thinking_steps env)
  unfolding thinking_steps
  thinking_steps-Kept =
      mute (session_setup env) (session_setup-Silent env)
      ⊕ mute (message_coalescing env) (message_coalescing-Silent env)
      ⊕ mute_if _ _ _ (cost_enforcement env) (cost_enforcement-Silent env)
      ⊕ mute_if _ _ _ (model_routing env) (model_routing-Silent env)
      ⊕ mute (condition_evaluation env) (condition_evaluation-Silent env)
      ⊕ mute (reasoning_step env) (reasoning_step-Silent env)

  guarded :
      {name : String} {timeout : ℕ} (f : Turn → Outcome Turn)
      → Bounded f
      → Kept env Once (step name timeout f)
  guarded f l = always env Once (l n)

  guarded_if :
      (b : Bool) (name : String) (timeout : ℕ) (f : Turn → Outcome Turn)
      → Bounded f
      → Kept env Once (step_if b name timeout f)
  guarded_if b name timeout f l = wired env Once b name timeout f (l n)

  infixl 65 ◌⊗◌
  ◌⊗◌ : {xs ys : List (Step Turn)} → Kept env Once xs → Kept env Once ys → Kept env Once (xs ++ ys)
  ◌⊗◌ = Kept.◌⊕◌ env Once

  answer_steps-Once : Kept env Once (answer_steps env)
  unfolding answer_steps
  answer_steps-Once =
      guarded_if _ _ _ (output_guard env) (output_guard-Bounded env)
      ⊗ guarded (persistence env) (persistence-Bounded env)
      ⊗ guarded (response_delivery env) (response_delivery-Bounded env)
      ⊗ guarded (audit_log env) (audit_log-Bounded env)
      ⊗ guarded_if _ _ _ (ledger_update env) (ledger_update-Bounded env)
      ⊗ guarded_if _ _ _ (mark_executed env) (mark_executed-Bounded env)

  Once-of_Unsent : (t : Turn) → Unsent t → Once t
  Once-of_Unsent t h = AtMost-of_unsent n t h

  Unsent-of_Silent :
      (f : Turn → Outcome Turn) (t s : Turn) → Silent f → f t ≡ ok s → Unsent t → Unsent s
  Unsent-of_Silent f t s l e h =
      ap (λ (o : Outcome Turn). length ((state_of o).world.sent)) (sym e) ∙ (ap length (l t) ∙ h)

  notified-Once :
      (t : Turn)
      → Unsent t
      → Once (state_of (run_steps (runner env) (notification_step env ∷ answer_steps env) t))
  notified-Once t h =
      after-first env Unsent Once (λ m s p. p) (notification_step env) (answer_steps env) t
        (notification-AtMost env n t h)
        (λ s e q. after-run_steps env Once (λ m s p. p) (answer_steps env) s answer_steps-Once q)

  locked-Once :
      (t : Turn)
      → Unsent t
      → Once (
          state_of (
            run_steps
              (runner env)
              (lock_step env
                ∷ (spirit_steps env
                    ++ thinking_steps env
                    ++ notification_step env ∷ answer_steps env))
              t))
  locked-Once t h =
      let sent = ap length (lock_acquisition-Silent env t) ∙ h in
      after-first env Unsent Once (λ m s p. p) (lock_step env)
        (spirit_steps env ++ thinking_steps env ++ notification_step env ∷ answer_steps env) t
        (Once-of_Unsent (state_of (lock_acquisition env t)) sent)
        (λ s e q.
          after-append env Unsent Once (λ m s p. p) Once-of_Unsent
            (spirit_steps env ++ thinking_steps env) (notification_step env ∷ answer_steps env) s
            (spirit_steps-Kept ⊕ thinking_steps-Kept) notified-Once
            (Unsent-of_Silent (lock_acquisition env) t s (lock_acquisition-Silent env) e h))

  execute-Once :
      (t : Turn)
      → Unsent t
      → Once (state_of (execute (runner env) (build_processing_pipeline env) t))
  unfolding build_processing_pipeline
  execute-Once t h =
      after-deferred env Once (λ m s p. p) t
        (guarded_if _ _ _ typing_stop (typing_stop-Bounded env))
        (after-append env Unsent Once (λ m s p. p) Once-of_Unsent (admission_steps env)
          (lock_step env
            ∷ (spirit_steps env ++ thinking_steps env ++ notification_step env ∷ answer_steps env))
          ((runner env).begin t) admission_steps-Kept locked-Once h)

settle-AtMost :
    (env : Env) (n : ℕ) (o : Outcome Turn) → AtMost n (state_of o) → AtMost n ((settle env o).1)
unfolding settle lock_release log_interaction
settle-AtMost env n (ok t) h = ground arith
settle-AtMost env n (fail e t) h = ground arith
settle-AtMost env n (panic t) h = h

-- A run of the pipeline, however it ends, sends at most one answer of its own, and sends one only if
-- the turn it leaves says that the response was delivered; whatever the ports answer.
pub run_processing_pipeline-sends_once :
    (env : Env) (t : Turn)
    → length (run_processing_pipeline env t).1.world.sent
      ≤ length t.world.sent + bit (run_processing_pipeline env t).1.state.response_delivered
unfolding run_processing_pipeline
run_processing_pipeline-sends_once env t =
    let n = length t.world.sent in
    settle-AtMost env n (execute (runner env) (build_processing_pipeline env) t)
      (execute-Once env n t refl)
