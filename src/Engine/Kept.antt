-- ===== src/Engine/Kept.antt =====
-- Predicates on turns that every step of a list keeps, whichever way the step ends; the lists are the
-- parts of the pipeline (buildProcessingPipeline in internal/implementation/orchestrator/engine.go).
use eywa.Prelude.{◌≡◌, subst, ℕ, Bool, true, false, List, ◌∷◌, ◌++◌, String, All, All-append}
use eywa.Pipeline.{Outcome, ok, execute_step, state_of, Step, run_steps, run_deferred, execute}
use eywa.Pipeline.Laws.{
  Keeps, run_steps-Keeps, run_deferred-Keeps, run_steps-append, state_of-finish, ended, was_ok,
  was_fail, was_panic,
}
use eywa.Engine.State.{Turn, Env}
use eywa.Engine.Run.{runner, step, step_if, build_processing_pipeline}

module _ (env : Env) (P : Turn → Type 0) where
  -- Where a turn has `P`, so has the turn that the step leaves.
  abbrev pub After : (Turn → Outcome Turn) → Type 0
  After f = (t : Turn) → P t → P (state_of (f t))

  pub record Kept (sts : List (Step Turn)) : Type 0 where
    pub all : All (Keeps (runner env) P) sts

  pub always :
      {name : String} {timeout : ℕ} {f : Turn → Outcome Turn} → After f → Kept (step name timeout f)
  always l = record { all = (l, tt) }

  pub wired :
      (b : Bool) (name : String) (timeout : ℕ) (f : Turn → Outcome Turn)
      → After f
      → Kept (step_if b name timeout f)
  unfolding step_if
  wired true name timeout f l = record { all = (l, tt) }
  wired false name timeout f l = record { all = tt }

  infixl 65 ◌⊕◌
  pub ◌⊕◌ : {xs ys : List (Step Turn)} → Kept xs → Kept ys → Kept (xs ++ ys)
  ◌⊕◌ {xs} {ys} k k' = record { all = All-append (Keeps (runner env) P) xs ys k.all k'.all }

  module _ (mark : (n : String) → (t : Turn) → P t → P ((runner env).failed_at n t)) where
    pub after-run_steps :
        (sts : List (Step Turn)) (t : Turn)
        → Kept sts
        → P t
        → P (state_of (run_steps (runner env) sts t))
    after-run_steps sts t k h = run_steps-Keeps (runner env) P mark sts t k.all h

    -- What the deferred steps keep holds after Execute where it holds after its steps.
    pub after-deferred :
        (t : Turn)
        → Kept ((build_processing_pipeline env).deferred_steps)
        → P (
            state_of (
              run_steps
                (runner env)
                ((build_processing_pipeline env).steps)
                ((runner env).begin t)))
        → P (state_of (execute (runner env) (build_processing_pipeline env) t))
    unfolding execute
    after-deferred t k h =
        let p = build_processing_pipeline env in
        let o = run_steps (runner env) p.steps ((runner env).begin t) in
        rw
          (state_of-finish (runner env) o (run_deferred (runner env) p.deferred_steps (state_of o)))
          (run_deferred-Keeps (runner env) P mark p.deferred_steps (state_of o) k.all h)

module _ (env : Env) (P Q : Turn → Type 0) where
  -- From `P` to `Q` along a list that has a last step with `P` and a first step with `Q`.
  pub after-append :
      ((n : String) → (t : Turn) → P t → P ((runner env).failed_at n t))
      → ((t : Turn) → P t → Q t)
      → (pre post : List (Step Turn)) (t : Turn) → Kept env P pre
      → ((s : Turn) → P s → Q (state_of (run_steps (runner env) post s)))
      → P t
      → Q (state_of (run_steps (runner env) (pre ++ post) t))
  after-append mark weaken pre post t k go h =
      let p = run_steps-append (runner env) pre post t in
      let a = after-run_steps env P mark pre t k h in
      elim (ended (run_steps (runner env) pre t)) [
        | was_ok s e ↦ rw (p, e) (go s (subst (λ o. P (state_of o)) e a))
        | was_fail x s e ↦ rw (p, e) (weaken s (subst (λ o. P (state_of o)) e a))
        | was_panic s e ↦ rw (p, e) (weaken s (subst (λ o. P (state_of o)) e a))
      ]

  -- The same for a first step that leads from `P` to `Q`.
  pub after-first :
      ((n : String) → (t : Turn) → Q t → Q ((runner env).failed_at n t))
      → (st : Step Turn) (post : List (Step Turn)) (t : Turn) → Q (state_of (st.execute t))
      → ((s : Turn) → st.execute t ≡ ok s → Q s → Q (state_of (run_steps (runner env) post s)))
      → Q (state_of (run_steps (runner env) (st ∷ post) t))
  unfolding run_steps execute_step
  after-first mark st post t q go = elim (ended (st.execute t)) [
    | was_ok s e ↦ rw (e, execute_step, run_steps) (go s e (subst (λ o. Q (state_of o)) e q))
    | was_fail x s e ↦
        rw (e, execute_step, run_steps) (mark st.name s (subst (λ o. Q (state_of o)) e q))
    | was_panic s e ↦ rw (e, execute_step, run_steps) (subst (λ o. Q (state_of o)) e q)
  ]
