-- ===== src/Reasoning/Liveness/Run.antt =====
-- A turn whose oracle answers ends with an answer (run in
-- internal/implementation/orchestrator/reasoning_loop.go).
use eywa.Prelude.{
  ℕ, zero, suc, ◌+◌, ◌<◌, ◌≡◌, refl, sym, ◌∙◌, ap, subst, true, false, [], none, some,
  if◌then◌else◌, arith,
}
use eywa.Reasoning.Oracle.{OracleRequest, OracleResponse}
use eywa.Reasoning.Turn.{Outside, ReasoningRequest, ReasoningService, TurnState}
use eywa.Reasoning.Durable.{checkpoint_id}
use eywa.Reasoning.Answer.{call_llm, ask, request_of}
use eywa.Reasoning.Gates.{Gate}
use eywa.Reasoning.Setup.{fresh_turn, new_turn_state}
use eywa.Reasoning.Iteration.{
  Step, again, finished, gated, heard, reacted, react, answered, with_log, started, run_iteration,
  active_actions, closing_hint, is_terminal_response,
}
use eywa.Reasoning.Loop.{Ended, returned, after_step, loop, start_turn, started_run, run}
use eywa.Reasoning.Liveness.{
  open_gates, Calm, calm, Calm-trans, CalmGate, on_pass, on_revise, on_deliver, accrue_tokens-Calm,
  finalize_terminal_response-Calm,
}

-- The oracle always answers, without a tool call and with a stop reason that ends a turn.
abbrev pub Answers : ReasoningService → Type 0
Answers svc =
    (q : OracleRequest) (o : Outside)
    → (r : OracleResponse) × ((svc.generate_response q o ≡ some r)
        × ((r.tool_calls ≡ []) × (is_terminal_response svc r ≡ true)))

module _ (svc : ReasoningService) where
  -- A step that ends the turn without an error, or goes on with fewer than n gates open.
  data LiveStep (n : ℕ) : Step → Type 0 where
    on_again : {ts : TurnState} → open_gates ts < n → LiveStep n (again ts)
    on_finished : {ts : TurnState} → LiveStep n (finished ts)

  gated-Live : {ts : TurnState} {g : Gate} → CalmGate ts g → LiveStep (open_gates ts) (gated svc g)
  gated-Live (on_pass c) = on_finished
  gated-Live (on_revise h) = on_again h
  gated-Live on_deliver = on_finished

  with_log-Live : {n : ℕ} {step : Step} → LiveStep n step → LiveStep n (with_log svc step)
  with_log-Live (on_again h) = on_again h
  with_log-Live on_finished = on_finished

  reacted-Live :
      (resp : OracleResponse) (ts : TurnState)
      → is_terminal_response svc resp ≡ true
      → LiveStep (open_gates ts) (reacted svc [] resp ts)
  reacted-Live resp ts e = rw e (gated-Live (finalize_terminal_response-Calm svc resp ts))

  heard-Calm : (resp : OracleResponse) (ts : TurnState) → Calm ts (heard svc resp ts)
  heard-Calm resp ts =
      Calm-trans (Calm-trans (calm refl) (accrue_tokens-Calm svc ts.draft_model resp.tokens_used _))
        (calm refl)

  react-Live :
      (resp : OracleResponse) (ts : TurnState)
      → resp.tool_calls ≡ []
      → is_terminal_response svc resp ≡ true
      → LiveStep (open_gates ts) (react svc resp ts)
  unfolding react
  react-Live resp ts none_called e = fewer (heard-Calm resp ts) (
      subst
        (λ calls.
          LiveStep (open_gates (heard svc resp ts)) (reacted svc calls resp (heard svc resp ts)))
        (sym none_called) (reacted-Live resp (heard svc resp ts) e))
    where
      fewer :
          {x y : TurnState} {step : Step}
          → Calm x y
          → LiveStep (open_gates y) step
          → LiveStep (open_gates x) step
      fewer {step = step} (calm p) h = subst (λ n. LiveStep n step) p h

  run_iteration-Live :
      (n : ℕ) (ts : TurnState)
      → Answers svc
      → ((o : Outside) → svc.cancelled o ≡ false)
      → LiveStep (open_gates ts) (run_iteration svc n ts)
  unfolding run_iteration call_llm
  run_iteration-Live n ts answers goes_on =
      let ts' = started svc n ts in
      let q =
        request_of ts'.req ts'.working_context (active_actions svc ts') (closing_hint svc ts')
          ts'.draft_model false in
      let (r, (said, (none_called, terminal))) = answers q ts'.outside in
      rw (goes_on ts'.outside) (
        subst (λ o. LiveStep (open_gates ts) (with_log svc (answered svc (o, ask q ts'))))
          (sym said) (with_log-Live (react-Live r (ask q ts') none_called terminal)))

  -- It returns without an error.
  data Fine : Ended → Type 0 where
    fine : {ts : TurnState} → Fine (returned ts none)

  after_step-Live :
      {n : ℕ} {step : Step} (next : TurnState → Ended)
      → LiveStep n step
      → ((ts : TurnState) → open_gates ts < n → Fine (next ts))
      → Fine (after_step svc step none next)
  after_step-Live next (on_again {ts} h) ih = ih ts h
  after_step-Live next on_finished ih = fine

  -- More iterations are left than gates are open.
  loop-Live :
      (left n : ℕ) (ts : TurnState)
      → Answers svc
      → ((o : Outside) → svc.cancelled o ≡ false)
      → open_gates ts < left
      → Fine (loop svc left n none ts)
  unfolding loop
  loop-Live zero n ts answers goes_on h = absurd (omega (arith, h))
  loop-Live (suc left) n ts answers goes_on h =
      after_step-Live (λ ts'. loop svc left (suc n) none ts')
        (run_iteration-Live n ts answers goes_on)
        (λ ts' less. loop-Live left (suc n) ts' answers goes_on (omega (arith, h, less)))

fresh_turn-open :
    (svc : ReasoningService) (req : ReasoningRequest) (o : Outside)
    → open_gates (fresh_turn svc req o) ≡ 2 + (fresh_turn svc req o).reflection.max_rounds
unfolding fresh_turn
fresh_turn-open svc req o = omega arith

checkpoint_id-none :
    (svc : ReasoningService) (req : ReasoningRequest)
    → svc.has_checkpoints ≡ false
    → checkpoint_id svc req ≡ none
unfolding checkpoint_id
checkpoint_id-none svc req h = rw h refl

start_turn-Live :
    (svc : ReasoningService) (req : ReasoningRequest) (ts : TurnState)
    → Answers svc
    → ((o : Outside) → svc.cancelled o ≡ false)
    → svc.has_checkpoints ≡ false
    → open_gates ts < svc.max_iterations
    → Fine svc (start_turn svc req ts)
unfolding start_turn
start_turn-Live svc req ts answers goes_on volatile h =
    rw (checkpoint_id-none svc req volatile)
      (loop-Live svc svc.max_iterations 0 ts answers goes_on h)

Fine-returned :
    (svc : ReasoningService) (x : Ended) → Fine svc x → (ts : TurnState) × (x ≡ returned ts none)
Fine-returned svc _ (fine {ts}) = (ts, refl)

-- Where the provider is known, the turn is not durable, the context is never cancelled, and the oracle always answers
-- without a tool call and with a stop reason that ends a turn, a run returns without an error, provided that
-- there are more iterations than two and the rounds of reflection: the nudge to finish the plan, each round of
-- reflection and the revision for citations send the answer back at most once.
pub run-succeeds :
    (svc : ReasoningService) (req : ReasoningRequest) (o : Outside)
    → Answers svc
    → ((outside : Outside) → svc.cancelled outside ≡ false)
    → svc.has_checkpoints ≡ false
    → svc.get_provider req.spirit.model_config.provider ≡ true
    → 2 + (fresh_turn svc req o).reflection.max_rounds < svc.max_iterations
    → (ts : TurnState) × (run svc req o ≡ some (returned ts none))
unfolding run new_turn_state
run-succeeds svc req o answers goes_on volatile known enough =
    let fresh = fresh_turn svc req o in
    let open_at_first = fresh_turn-open svc req o in
    let (ts, e) = Fine-returned svc (start_turn svc req fresh) (
      start_turn-Live svc req fresh answers goes_on volatile
        (omega (arith, enough, open_at_first))) in
    (ts, ap (λ b. started_run svc req (if b then some fresh else none)) known ∙ ap (λ x. some x) e)
