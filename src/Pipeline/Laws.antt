-- ===== src/Pipeline/Laws.antt =====
-- What the step runner guarantees, whatever the steps do
-- (internal/implementation/orchestrator/pipeline.go).
use eywa.Prelude.{◌≡◌, refl, sym, ap, ◌∙◌, subst, List, [], ◌∷◌, ◌++◌, String, All}
use eywa.Errors.{Err}
use eywa.Pipeline.{
  Outcome, ok, fail, panic, state_of, at_state, step_error, Step, Pipeline, Runner, execute_step,
  run_steps, run_deferred, finish, execute,
}

-- How an outcome ended, with the equation.
pub data Ended {ℓ} {S : Type ℓ} (o : Outcome S) : Type ℓ where
  was_ok : (s : S) → o ≡ ok s → Ended o
  was_fail : (e : Err) (s : S) → o ≡ fail e s → Ended o
  was_panic : (s : S) → o ≡ panic s → Ended o

pub ended {ℓ} : {S : Type ℓ} (o : Outcome S) → Ended o
ended (ok s) = was_ok s refl
ended (fail e s) = was_fail e s refl
ended (panic s) = was_panic s refl

module _ {ℓ} {S : Type ℓ} (r : Runner S) where
  -- Running more steps after an outcome.
  abbrev pub then_steps : Outcome S → List (Step S) → Outcome S
  then_steps (ok s) sts = run_steps r sts s
  then_steps (fail e s) sts = fail e s
  then_steps (panic s) sts = panic s

  pub run_steps-append :
      (pre post : List (Step S)) (s : S)
      → run_steps r (pre ++ post) s ≡ then_steps (run_steps r pre s) post
  unfolding run_steps
  run_steps-append [] post s = refl
  run_steps-append (st ∷ pre) post s = elim (ended (execute_step r st s)) [
    | was_ok s' e ↦ rw (e, run_steps) (run_steps-append pre post s')
    | was_fail x s' e ↦ rw (e, run_steps)
    | was_panic s' e ↦ rw (e, run_steps)
  ]

  pub state_of-execute_step :
      (st : Step S) (s : S) → state_of (execute_step r st s) ≡ state_of (st.execute s)
  unfolding execute_step
  state_of-execute_step st s = elim (ended (st.execute s)) [
    | was_ok s' e ↦ rw (e, execute_step)
    | was_fail x s' e ↦ rw (e, execute_step)
    | was_panic s' e ↦ rw (e, execute_step)
  ]

  -- A step that keeps `P`, whichever way it ends.
  abbrev pub Keeps {κ} : (S → Type κ) → Step S → Type (ℓ ⊔ κ)
  Keeps P st = (s : S) → P s → P (state_of (st.execute s))

  module _ {κ} (P : S → Type κ) (mark : (n : String) (s : S) → P s → P (r.failed_at n s)) where
    pub run_steps-Keeps :
        (sts : List (Step S)) (s : S) → All (Keeps P) sts → P s → P (state_of (run_steps r sts s))
    unfolding run_steps
    run_steps-Keeps [] s k h = h
    run_steps-Keeps (st ∷ sts) s k h =
        let h' = subst P (sym (state_of-execute_step st s)) (k.0 s h) in
        elim (ended (execute_step r st s)) [
          | was_ok s' e ↦
              rw (e, run_steps) (run_steps-Keeps sts s' k.1 (subst (λ o. P (state_of o)) e h'))
          | was_fail x s' e ↦ rw (e, run_steps) (mark st.name s' (subst (λ o. P (state_of o)) e h'))
          | was_panic s' e ↦ rw (e, run_steps) (subst (λ o. P (state_of o)) e h')
        ]

    pub run_deferred-Keeps :
        (sts : List (Step S)) (s : S)
        → All (Keeps P) sts
        → P s
        → P (state_of (run_deferred r sts s))
    unfolding run_deferred
    run_deferred-Keeps [] s k h = h
    run_deferred-Keeps (st ∷ sts) s k h =
        let h' = subst P (sym (state_of-execute_step st s)) (k.0 s h) in
        elim (ended (execute_step r st s)) [
          | was_ok s' e ↦
              rw (e, run_deferred)
                (run_deferred-Keeps sts s' k.1 (subst (λ o. P (state_of o)) e h'))
          | was_fail x s' e ↦
              rw (e, run_deferred)
                (run_deferred-Keeps sts s' k.1 (subst (λ o. P (state_of o)) e h'))
          | was_panic s' e ↦ rw (e, run_deferred) (subst (λ o. P (state_of o)) e h')
        ]

  run_steps-first_failure :
      (pre post : List (Step S)) (st : Step S) (s s1 s2 : S) (e : Err)
      → run_steps r pre s ≡ ok s1
      → st.execute s1 ≡ fail e s2
      → run_steps r (pre ++ st ∷ post) s ≡ fail (step_error r st e s2) (r.failed_at st.name s2)
  unfolding run_steps execute_step
  run_steps-first_failure pre post st s s1 s2 e h f =
      rw run_steps-append (rw h (rw (f, run_steps, execute_step)))

  -- The deferred steps run however the steps ended, and change neither the kind of the ending nor
  -- its error.
  pub execute-deferred :
      (p : Pipeline S) (s d : S)
      → run_deferred r p.deferred_steps (state_of (run_steps r p.steps (r.begin s))) ≡ ok d
      → execute r p s ≡ at_state (run_steps r p.steps (r.begin s)) d
  unfolding execute
  execute-deferred p s d h = rw (h, finish)

pub state_of-finish {ℓ} :
    {S : Type ℓ} (r : Runner S) (o d : Outcome S) → state_of (finish r o d) ≡ state_of d
unfolding finish
state_of-finish r (ok s) (ok d) = refl
state_of-finish r (fail e s) (ok d) = refl
state_of-finish r (panic s) (ok d) = refl
state_of-finish r o (fail e d) = refl
state_of-finish r o (panic d) = refl

-- When the steps before `st` succeed and `st` fails, Execute returns the error of `st`, which is
-- the timeout error where the deadline of `st` has passed; the audit state records the name of `st`;
-- no later step runs, whatever the later steps are; and the deferred steps, where none of them
-- panics, still run from there and leave the state that Execute leaves.
pub execute-first_failure {ℓ} :
    {S : Type ℓ} (r : Runner S) (pre post deferred : List (Step S)) (st : Step S) (s s1 s2 d : S)
    (e : Err)
    → run_steps r pre (r.begin s) ≡ ok s1
    → st.execute s1 ≡ fail e s2
    → run_deferred r deferred (r.failed_at st.name s2) ≡ ok d
    → execute r (record { steps = pre ++ st ∷ post; deferred_steps = deferred }) s
      ≡ fail (step_error r st e s2) d
execute-first_failure r pre post deferred st s s1 s2 d e h f g =
    let p = run_steps-first_failure r pre post st (r.begin s) s1 s2 e h f in
    execute-deferred r (record { steps = pre ++ st ∷ post; deferred_steps = deferred }) s d (rw p g)
    ∙ ap (λ o. at_state o d) p
