-- ===== src/Engine/Template.antt =====
-- A notifier Spirit in template mode never gets a reasoning result
-- (internal/implementation/orchestrator: NotificationStep, runProcessingPipeline).
use eywa.Prelude.{
  ◌≡◌, sym, ◌∙◌, ap, Bool, true, false, not, ◌&&◌, Option, none, some, List, ◌∷◌, ◌++◌, String, ℕ,
  is_some, str_eq,
}
use mathlib.Core.List.{append_assoc}
use eywa.Pipeline.{Outcome, state_of, Step}
use eywa.Entities.Spirit.{Spirit, is_notifier}
use eywa.Engine.State.{Turn, Env}
use eywa.Engine.Kept.{Kept, always, after-append}
use eywa.Engine.Kept
use eywa.Engine.Run.{
  step, admission_steps, lock_step, spirit_steps, thinking_steps, notification_step, answer_steps,
  build_processing_pipeline,
}

is_template : Option Spirit → Bool
is_template none = false
is_template (some sp) = is_notifier sp && str_eq sp.notifier_config.mode "template"

-- The Spirit is a notifier in template mode, and nothing has been reasoned.
unfoldable pub is_unreasoned_template : Turn → Bool
unfolding is_template
is_unreasoned_template t = is_template t.state.spirit && not (is_some t.state.reasoning_result)

abbrev Template : Turn → Type 0
Template t = is_unreasoned_template t ≡ true

regroup :
    {A : Type 0} (pre : List A) (l : A) (a b c : List A)
    → pre ++ l ∷ (a ++ b ++ c) ≡ (pre ++ l ∷ a) ++ (b ++ c)
regroup pre l a b c =
    ap (λ x. pre ++ l ∷ x) (append_assoc a b c) ∙ sym (append_assoc pre (l ∷ a) (b ++ c))

module _ (env : Env) where
  keep :
      {name : String} {timeout : ℕ} (f : Turn → Outcome Turn)
      → ((t : Turn) → Template t → Template (state_of (f t)))
      → Kept env Template (step name timeout f)
  keep f l = always env Template l

  infixl 65 ◌⊕◌
  ◌⊕◌ :
      {xs ys : List (Step Turn)}
      → Kept env Template xs
      → Kept env Template ys
      → Kept env Template (xs ++ ys)
  ◌⊕◌ = Kept.◌⊕◌ env Template

  abbrev pub loading_steps : List (Step Turn)
  loading_steps = admission_steps env ++ lock_step env ∷ spirit_steps env

  abbrev pub deciding_steps : List (Step Turn)
  deciding_steps = thinking_steps env ++ notification_step env ∷ answer_steps env

  pub split_steps : (build_processing_pipeline env).steps ≡ loading_steps ++ deciding_steps
  unfolding build_processing_pipeline
  split_steps =
      regroup (admission_steps env) (lock_step env) (spirit_steps env) (thinking_steps env)
        (notification_step env ∷ answer_steps env)
