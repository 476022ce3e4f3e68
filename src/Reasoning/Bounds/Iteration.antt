-- ===== src/Reasoning/Bounds/Iteration.antt =====
-- An iteration of the reasoning loop keeps the turn in its budget (runIteration in
-- internal/implementation/orchestrator/reasoning_loop.go).
use eywa.Prelude.{
  ℕ, zero, suc, ◌+◌, ◌≤◌, ◌≡◌, Bool, false, ◌&&◌, not, List, [], ◌∷◌, length, Option, none, some,
  ltb, Bool-cases, inl, inr, arith,
}
use eywa.Errors.{Err}
use eywa.Errors.Action.{ActionErr, is_business_error, business, action}
use eywa.Prelude.Maps.{get}
use eywa.Reasoning.Oracle.{ToolCall, OracleResponse}
use eywa.Reasoning.Turn.{ReasoningService, TurnState, HandoffOutcome, transferred, refused}
use eywa.Reasoning.Calls.{process_action_calls, Processed}
use eywa.Reasoning.Answer.{accrue_tokens, call_llm, ask, request_of}
use eywa.Reasoning.Gates.{Gate}
use eywa.Reasoning.Iteration.{
  Step, noted_outcome, after_outcome, after_calls, over_budget, counted, regular_calls, unhanded,
  handed, execute_handoff, routed, find_handoff_call, execute_iteration_actions, gated, heard,
  reacted, react, answered, with_log, started, run_iteration, active_actions, closing_hint, failing,
  text_or_empty,
}
use eywa.Reasoning.Frame.{
  kept, same, Frame-trans, append_message-Frame, accrue_tokens-Frame, log_call-kept, appended,
}
use eywa.Reasoning.Frame.Gates.{
  FrameGate, on_pass, on_revise, on_deliver, finalize_terminal_response-Frame,
}
use eywa.Reasoning.Bounds.{executed, Cap, Good, good, Good-Frame}
use eywa.Reasoning.Bounds.Steps.{
  GoodStep, on_again, on_finished, on_failed, on_panicked, if-GoodStep, advance-Good,
  process_action_calls-Good, ends_with-Frame,
}

module _ (svc : ReasoningService) (base : ℕ) where
  abbrev Fine : ℕ → TurnState → Type 0
  Fine = Good svc.max_actions_per_cycle base

  abbrev FineStep : Step → Type 0
  FineStep = GoodStep svc svc.max_actions_per_cycle base

  -- Bans, flags and the count of critical errors are none of the counts.
  noted_outcome-Good : (p : Processed) → Fine 0 p.state → Fine 0 (noted_outcome svc p)
  noted_outcome-Good p (good spent cap) = good spent cap

  after_outcome-Good :
      (o : Option Err) (calls : List ToolCall) (ts : TurnState)
      → Fine 0 ts
      → FineStep (after_outcome svc o calls ts)
  after_outcome-Good none calls ts h = advance-Good svc svc.max_actions_per_cycle base calls ts h
  after_outcome-Good (some e) calls ts h =
      on_failed (Good-Frame (ends_with-Frame svc svc.max_actions_per_cycle base _ ts) h)

  -- Within the budget there is room for the calls that were counted.
  room :
      (limit k spent total : ℕ)
      → (ltb 0 limit && ltb limit (total + k)) ≡ false
      → spent + 0 ≤ base + total
      → Cap limit base (spent + k)
  room zero k spent total b h = tt
  room (suc limit) k spent total b h = ground (arith, b, h)

  counted-Good :
      (calls : List ToolCall) (ts : TurnState)
      → over_budget svc (counted svc calls ts).total_action_calls ≡ false
      → Fine 0 ts
      → Fine (length calls) (counted svc calls ts)
  counted-Good calls ts b (good spent cap) = good (omega (arith, spent)) (
      room svc.max_actions_per_cycle (length calls) (executed ts.outside.batches)
        ts.total_action_calls b spent)

  -- Counting alone keeps what was executed below the counts.
  uncounted-Good :
      (calls : List ToolCall) (ts : TurnState) → Fine 0 ts → Fine 0 (counted svc calls ts)
  uncounted-Good calls ts (good spent cap) = good (omega (arith, spent)) cap

  regular_calls-Good :
      (calls : List ToolCall) (ts : TurnState) → Fine 0 ts → FineStep (regular_calls svc calls ts)
  unfolding regular_calls after_calls
  regular_calls-Good calls ts h =
      let ts' = counted svc calls ts in
      elim (Bool-cases (over_budget svc ts'.total_action_calls)) [
        | inl b ↦ rw b (
            on_failed (
              Good-Frame (ends_with-Frame svc svc.max_actions_per_cycle base _ ts')
                (uncounted-Good calls ts h)))
        | inr b ↦
            let p = process_action_calls svc calls ts' in
            let fine =
              process_action_calls-Good svc svc.max_actions_per_cycle base calls ts'
                (counted-Good calls ts b h) in
            rw b (
              if-GoodStep svc svc.max_actions_per_cycle base p.state.unwinding (on_panicked fine) (
                after_outcome-Good p.error calls (noted_outcome svc p) (noted_outcome-Good p fine)))
      ]

  unhanded-Good :
      (call : ToolCall) (e : ActionErr) (critical : Bool) (ts : TurnState)
      → Fine 0 ts
      → FineStep (unhanded svc call e critical ts)
  unhanded-Good call e critical ts h =
      on_again (
        Good-Frame (log_call-kept call (failing svc call e critical) (append_message-Frame _ ts)) h)

  handed-Good :
      (call : ToolCall) (o : HandoffOutcome) (ts : TurnState)
      → Fine 0 ts
      → FineStep (handed svc call o ts)
  handed-Good call (refused e) ts h = unhanded-Good call e (not (is_business_error e)) ts h
  handed-Good call (transferred sub) ts h = on_finished (
      Good-Frame
        (log_call-kept call _ (
          Frame-trans (accrue_tokens-Frame "" sub.tokens_used ts)
            (kept (same (accrue_tokens "" sub.tokens_used ts)))))
        h)

  execute_handoff-Good :
      (call : ToolCall) (ts : TurnState) → Fine 0 ts → FineStep (execute_handoff svc call ts)
  unfolding execute_handoff
  execute_handoff-Good call ts h =
      let target = text_or_empty svc (get call.arguments "target_spirit") in
      if-GoodStep svc svc.max_actions_per_cycle base _
        (unhanded-Good call (action business "handoff_spirit requires target_spirit") false ts h)
        (handed-Good call (svc.hand_off target ts.req ts.outside) ts h)

  routed-Good :
      (o : Option ToolCall) (calls : List ToolCall) (ts : TurnState)
      → Fine 0 ts
      → FineStep (routed svc o calls ts)
  routed-Good (some call) calls ts h = execute_handoff-Good call ts h
  routed-Good none calls ts h = regular_calls-Good calls ts h

  gated-Good : {ts : TurnState} {g : Gate} → FrameGate ts g → Fine 0 ts → FineStep (gated svc g)
  gated-Good (on_pass f) h = on_finished (Good-Frame f h)
  gated-Good (on_revise f) h = on_again (Good-Frame f h)
  gated-Good (on_deliver f) h = on_finished (Good-Frame f h)

  reacted-Good :
      (calls : List ToolCall) (resp : OracleResponse) (ts : TurnState)
      → Fine 0 ts
      → FineStep (reacted svc calls resp ts)
  unfolding execute_iteration_actions
  reacted-Good [] resp ts h =
      if-GoodStep svc svc.max_actions_per_cycle base _
        (gated-Good (finalize_terminal_response-Frame svc resp ts) h) (on_again h)
  reacted-Good (c ∷ cs) resp ts h =
      routed-Good (find_handoff_call svc ts.req.spirit (c ∷ cs)) (c ∷ cs) ts h

  heard-Good : (resp : OracleResponse) (ts : TurnState) → Fine 0 ts → Fine 0 (heard svc resp ts)
  heard-Good resp ts h =
      Good-Frame
        (appended _
          (Frame-trans (kept (same ts)) (accrue_tokens-Frame ts.draft_model resp.tokens_used _)))
        h

  answered-Good :
      (o : Option OracleResponse) (ts : TurnState) → Fine 0 ts → FineStep (answered svc (o, ts))
  unfolding react
  answered-Good none ts (good spent cap) = on_failed (good spent cap)
  answered-Good (some resp) ts h =
      reacted-Good resp.tool_calls resp (heard svc resp ts) (heard-Good resp ts h)

  with_log-Good : {step : Step} → FineStep step → FineStep (with_log svc step)
  with_log-Good (on_again {ts} h) = on_again (Good-Frame (kept (same ts)) h)
  with_log-Good (on_finished {ts} h) = on_finished (Good-Frame (kept (same ts)) h)
  with_log-Good (on_failed {ts} h) = on_failed (Good-Frame (kept (same ts)) h)
  with_log-Good (on_panicked {ts} h) = on_panicked (Good-Frame (kept (same ts)) h)

pub run_iteration-Good :
    (svc : ReasoningService) (base n : ℕ) (ts : TurnState)
    → Good svc.max_actions_per_cycle base 0 ts
    → GoodStep svc svc.max_actions_per_cycle base (run_iteration svc n ts)
unfolding run_iteration call_llm
run_iteration-Good svc base n ts (good spent cap) =
    let ts' = started svc n ts in
    let fine : Good svc.max_actions_per_cycle base 0 ts' = good spent cap in
    let q =
      request_of ts'.req ts'.working_context (active_actions svc ts') (closing_hint svc ts')
        ts'.draft_model false in
    if-GoodStep svc svc.max_actions_per_cycle base _
      (on_failed (Good-Frame (ends_with-Frame svc svc.max_actions_per_cycle base _ ts') fine))
      (with_log-Good svc base (
        answered-Good svc base (svc.generate_response q ts'.outside) (ask q ts')
          (Good-Frame (kept (same ts')) fine)))
