-- ===== src/Pipeline.antt =====
-- The step runner (internal/implementation/orchestrator/pipeline.go), over any state. Logging and
-- tracing are left out.
pub mod Laws
use eywa.Prelude.{
  ℕ, Bool, true, false, ◌&&◌, Option, none, some, List, [], ◌∷◌, ◌++◌, String, ltb, if◌then◌else◌,
}
use eywa.Errors.{Err, wrapped, err_timeout_exceeded}

-- How a step, or the pipeline, ends: a nil error, an error, or a Go panic that unwinds it.
pub data Outcome {ℓ} (S : Type ℓ) : Type ℓ where
  ok : S → Outcome S
  fail : Err → S → Outcome S
  panic : S → Outcome S

abbrev pub state_of {ℓ} : {S : Type ℓ} → Outcome S → S
state_of (ok s) = s
state_of (fail e s) = s
state_of (panic s) = s

-- The same ending at another state.
abbrev pub at_state {ℓ} : {S : Type ℓ} → Outcome S → S → Outcome S
at_state (ok _) d = ok d
at_state (fail e _) d = fail e d
at_state (panic _) d = panic d

pub record Step {ℓ} (S : Type ℓ) : Type ℓ where
  pub name : String
  pub timeout : ℕ
  pub execute : S → Outcome S

pub record Pipeline {ℓ} (S : Type ℓ) : Type ℓ where
  pub steps : List (Step S)
  pub deferred_steps : List (Step S)

unfoldable pub new_pipeline {ℓ} : {S : Type ℓ} → Pipeline S
new_pipeline = record { steps = []; deferred_steps = [] }

unfoldable pub add_step {ℓ} : {S : Type ℓ} → Step S → Pipeline S → Pipeline S
add_step st p = record p { steps = p.steps ++ st ∷ [] }

unfoldable pub add_deferred_step {ℓ} : {S : Type ℓ} → Step S → Pipeline S → Pipeline S
add_deferred_step st p = record p { deferred_steps = p.deferred_steps ++ st ∷ [] }

-- What the runner asks of a state: whether the deadline of a step has passed (`timed` says that the
-- step set one), and the writes that Execute makes itself.
pub record Runner {ℓ} (S : Type ℓ) : Type ℓ where
  pub late : Bool → S → Bool
  pub begin : S → S
  pub failed_at : String → S → S

module _ {ℓ} {S : Type ℓ} (r : Runner S) where
  -- The error that executeStep returns.
  unfoldable pub step_error : Step S → Err → S → Err
  step_error st e s = if r.late (ltb 0 st.timeout) s then err_timeout_exceeded else wrapped e

  unfoldable pub execute_step : Step S → S → Outcome S
  unfolding step_error
  execute_step st s = elim (st.execute s) [
    | ok s' ↦ ok s'
    | fail e s' ↦ fail (step_error st e s') s'
    | panic s' ↦ panic s'
  ]

  -- The loop over `p.steps`: the first error ends it.
  unfoldable pub run_steps : List (Step S) → S → Outcome S
  run_steps [] s = ok s
  run_steps (st ∷ sts) s = elim (execute_step st s) [
    | ok s' ↦ run_steps sts s'
    | fail e s' ↦ fail e (r.failed_at st.name s')
    | panic s' ↦ panic s'
  ]

  -- The deferred loop: errors are logged only. A deferred step that panics ends the loop.
  unfoldable pub run_deferred : List (Step S) → S → Outcome S
  run_deferred [] s = ok s
  run_deferred (st ∷ sts) s = elim (execute_step st s) [
    | ok s' ↦ run_deferred sts s'
    | fail e s' ↦ run_deferred sts s'
    | panic s' ↦ panic s'
  ]

  -- The deferred steps run after the steps, however these ended.
  unfoldable pub finish : Outcome S → Outcome S → Outcome S
  finish o (ok s) = at_state o s
  finish o (fail e s) = panic s
  finish o (panic s) = panic s

  unfoldable pub execute : Pipeline S → S → Outcome S
  unfolding run_steps run_deferred finish execute_step
  execute p s =
      let o = run_steps p.steps (r.begin s) in finish o (run_deferred p.deferred_steps (state_of o))
