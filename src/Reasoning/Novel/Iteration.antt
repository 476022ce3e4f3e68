-- ===== src/Reasoning/Novel/Iteration.antt =====
-- An iteration of the reasoning loop executes no call that was settled (runIteration in
-- internal/implementation/orchestrator/reasoning_loop.go).
use eywa.Prelude.{
  ℕ, ◌≡◌, refl, ◌∙◌, Bool, true, false, List, [], ◌∷◌, String, Option, none, some, not,
  if◌then◌else◌, map, str_eq,
}
use eywa.Prelude.Maps.{GoMap, get}
use eywa.Entities.Value.{Value}
use eywa.Entities.Memory.{Memory}
use eywa.Errors.{Err}
use eywa.Errors.Action.{ActionErr, is_business_error, business, action}
use eywa.Reasoning.Oracle.{ToolCall, OracleResponse}
use eywa.Reasoning.Stall.{observe}
use eywa.Reasoning.Compression.{Working}
use eywa.Reasoning.Turn.{Outside, ReasoningService, TurnState, HandoffOutcome, transferred, refused}
use eywa.Reasoning.Calls.{Processed, process_action_calls}
use eywa.Reasoning.Answer.{accrue_tokens, call_llm, ask, request_of}
use eywa.Reasoning.Gates.{Gate}
use eywa.Reasoning.Setup.{topic_of}
use eywa.Reasoning.Iteration.{
  Step, again, finished, failed, panicked, noted_outcome, after_outcome, after_calls, over_budget,
  counted, regular_calls, unhanded, handed, execute_handoff, routed, find_handoff_call,
  execute_iteration_actions, gated, heard, reacted, react, answered, with_log, started,
  run_iteration, active_actions, closing_hint, failing, text_or_empty, handle_topic_switch, reload,
  reloaded, stalled, compressed, compress_unless, compress_context, advance, ends_with,
}
use eywa.Reasoning.Frame.{
  Frame, kept, same, Frame-trans, append_message-Frame, accrue_tokens-Frame, log_call-kept,
  appended,
}
use eywa.Reasoning.Frame.Gates.{
  FrameGate, on_pass, on_revise, on_deliver, finalize_terminal_response-Frame,
  synthesize_final-Frame,
}
use eywa.Reasoning.Novel.{
  Batch, Clean, Over, over, Clean-Over, Quiet, quiet, Frame-Quiet, Clean-Quiet, Over-Quiet,
}
use eywa.Reasoning.Novel.Calls.{process_action_calls-Handled}

reloaded-Quiet :
    (svc : ReasoningService) (facts : GoMap Value) (o : Option Memory) (ts : TurnState)
    → Quiet ts (reloaded svc facts o ts)
reloaded-Quiet svc facts none ts = quiet refl refl refl
reloaded-Quiet svc facts (some m) ts = quiet refl refl refl

reload-Quiet :
    (svc : ReasoningService) (rebuild : Option (String → String → Outside → Option Memory))
    (o : Option Memory) (ts : TurnState)
    → Quiet ts (reload svc rebuild o ts)
reload-Quiet svc none o ts = quiet refl refl refl
reload-Quiet svc (some rebuild) none ts = quiet refl refl refl
reload-Quiet svc (some rebuild) (some m) ts = reloaded-Quiet svc m.topic_facts _ ts

pub unchanged : (ts : TurnState) → Quiet ts ts
unchanged ts = quiet refl refl refl

pub Quiet-trans : {ts ts' ts'' : TurnState} → Quiet ts ts' → Quiet ts' ts'' → Quiet ts ts''
Quiet-trans (quiet e n m) (quiet e' n' m') = quiet (e' ∙ e) (n' ∙ n) (m' ∙ m)

pub if-Quiet :
    (b : Bool) {ts x y : TurnState} → Quiet ts x → Quiet ts y → Quiet ts (if b then x else y)
if-Quiet true f g = f
if-Quiet false f g = g

-- The topic is none of what is kept.
switched :
    {ts ts' : TurnState} (topic : String)
    → Quiet ts ts'
    → Quiet ts (record ts' { active_topic = topic; topic_switched = true })
switched topic (quiet e n m) = quiet e n m

handle_topic_switch-Quiet :
    (svc : ReasoningService) (ts : TurnState) → Quiet ts (handle_topic_switch svc ts)
unfolding handle_topic_switch
handle_topic_switch-Quiet svc ts =
    if-Quiet (str_eq (topic_of ts.req.session) ts.active_topic) (unchanged ts)
      (switched _ (reload-Quiet svc svc.rebuild_for_topic ts.req.session ts))

module _ (svc : ReasoningService) (durable : Bool) (base : List Batch) where
  abbrev Tidy : TurnState → Type 0
  Tidy = Clean svc durable base

  -- A step that leaves the turn clean, or ends it.
  pub data TidyStep : Step → Type 0 where
    on_again : {ts : TurnState} → Tidy ts → TidyStep (again ts)
    on_finished : {ts : TurnState} → Over svc durable base ts → TidyStep (finished ts)
    on_failed : {e : Err} {ts : TurnState} → Over svc durable base ts → TidyStep (failed e ts)
    on_panicked : {ts : TurnState} → Over svc durable base ts → TidyStep (panicked ts)

  if-TidyStep : (b : Bool) {x y : Step} → TidyStep x → TidyStep y → TidyStep (if b then x else y)
  if-TidyStep true x y = x
  if-TidyStep false x y = y

  -- Whatever leaves the bans, the memo and the batches alone.
  still : {ts ts' : TurnState} → Quiet ts ts' → Tidy ts → Tidy ts'
  still = Clean-Quiet svc durable base

  stop : {ts ts' : TurnState} → Quiet ts ts' → Tidy ts → Over svc durable base ts'
  stop q h = Clean-Over svc durable (still q h)

  stalled-Tidy : (ts : TurnState) → Tidy ts → TidyStep (stalled svc ts)
  stalled-Tidy ts h = on_finished (stop (also (Frame-Quiet (synthesize_final-Frame svc ts))) h)
    where
      also :
          {ts' : TurnState} {s e : String}
          → Quiet ts ts'
          → Quiet ts
              (ends_with svc e (record ts' { result = record (ts'.result) { final_response = s } }))
      also (quiet e n m) = quiet e n m

  compressed-Tidy : (w : Option Working) (ts : TurnState) → Tidy ts → TidyStep (compressed svc w ts)
  compressed-Tidy none ts h = on_panicked (Clean-Over svc durable h)
  compressed-Tidy (some w) ts h = on_again (still (quiet refl refl refl) h)

  compress_unless-Tidy : (b : Bool) (ts : TurnState) → Tidy ts → TidyStep (compress_unless svc b ts)
  compress_unless-Tidy true ts h = on_again h
  compress_unless-Tidy false ts h = compressed-Tidy _ ts h

  compress_context-Tidy : (ts : TurnState) → Tidy ts → TidyStep (compress_context svc ts)
  unfolding compress_context
  compress_context-Tidy ts h =
      if-TidyStep ts.compression_enabled (compress_unless-Tidy ts.topic_switched ts h) (on_again h)

  advance-Tidy :
      (calls : List ToolCall) (ts : TurnState) → Tidy ts → TidyStep (advance svc calls ts)
  unfolding advance
  advance-Tidy calls ts h =
      let switched = handle_topic_switch svc ts in
      let seen = observe (map svc.call_signature calls) switched.stall in
      let noted = record switched { stall = seen.1 } in
      let tidy : Tidy noted =
        still (quiet refl refl refl) (still (handle_topic_switch-Quiet svc ts) h) in
      if-TidyStep switched.unwinding (on_panicked (stop (handle_topic_switch-Quiet svc ts) h))
        (if-TidyStep seen.0 (stalled-Tidy noted tidy) (compress_context-Tidy noted tidy))

  after_outcome-Tidy :
      (o : Option Err) (calls : List ToolCall) (ts : TurnState)
      → (o ≡ none → Tidy ts)
      → Over svc durable base ts
      → TidyStep (after_outcome svc o calls ts)
  after_outcome-Tidy none calls ts h ended = advance-Tidy calls ts (h refl)
  after_outcome-Tidy (some e) calls ts h ended =
      on_failed (Over-Quiet svc durable base (quiet refl refl refl) ended)

  -- What is written back is none of the batches.
  unnoted :
      (p : Processed) → Over svc durable base (noted_outcome svc p) → Over svc durable base p.state
  unnoted p (over own at novel) = over own at novel

  regular_calls-Tidy :
      (calls : List ToolCall) (ts : TurnState) → Tidy ts → TidyStep (regular_calls svc calls ts)
  unfolding regular_calls after_calls
  regular_calls-Tidy calls ts h =
      let ts' = counted svc calls ts in
      let p = process_action_calls svc calls ts' in
      let (tidy, ended) =
        process_action_calls-Handled svc durable base calls ts' (still (quiet refl refl refl) h) in
      if-TidyStep (over_budget svc ts'.total_action_calls)
        (on_failed (stop (quiet refl refl refl) h))
        (if-TidyStep p.state.unwinding (on_panicked (unnoted p ended))
          (after_outcome-Tidy p.error calls (noted_outcome svc p) tidy ended))

  -- Through what keeps the frame of the turn.
  framed : {ts ts' : TurnState} → Frame ts ts' → Tidy ts → Tidy ts'
  framed f h = still (Frame-Quiet f) h

  unhanded-Tidy :
      (call : ToolCall) (e : ActionErr) (critical : Bool) (ts : TurnState)
      → Tidy ts
      → TidyStep (unhanded svc call e critical ts)
  unhanded-Tidy call e critical ts h =
      on_again
        (framed (log_call-kept call (failing svc call e critical) (append_message-Frame _ ts)) h)

  handed-Tidy :
      (call : ToolCall) (o : HandoffOutcome) (ts : TurnState)
      → Tidy ts
      → TidyStep (handed svc call o ts)
  handed-Tidy call (refused e) ts h = unhanded-Tidy call e (not (is_business_error e)) ts h
  handed-Tidy call (transferred sub) ts h = on_finished (
      Clean-Over svc durable (
        framed
          (log_call-kept call _ (
            Frame-trans (accrue_tokens-Frame "" sub.tokens_used ts)
              (kept (same (accrue_tokens "" sub.tokens_used ts)))))
          h))

  execute_handoff-Tidy :
      (call : ToolCall) (ts : TurnState) → Tidy ts → TidyStep (execute_handoff svc call ts)
  unfolding execute_handoff
  execute_handoff-Tidy call ts h =
      let target = text_or_empty svc (get call.arguments "target_spirit") in
      if-TidyStep _
        (unhanded-Tidy call (action business "handoff_spirit requires target_spirit") false ts h)
        (handed-Tidy call (svc.hand_off target ts.req ts.outside) ts h)

  routed-Tidy :
      (o : Option ToolCall) (calls : List ToolCall) (ts : TurnState)
      → Tidy ts
      → TidyStep (routed svc o calls ts)
  routed-Tidy (some call) calls ts h = execute_handoff-Tidy call ts h
  routed-Tidy none calls ts h = regular_calls-Tidy calls ts h

  gated-Tidy : {ts : TurnState} {g : Gate} → FrameGate ts g → Tidy ts → TidyStep (gated svc g)
  gated-Tidy (on_pass f) h = on_finished (Clean-Over svc durable (framed f h))
  gated-Tidy (on_revise f) h = on_again (framed f h)
  gated-Tidy (on_deliver f) h = on_finished (Clean-Over svc durable (framed f h))

  reacted-Tidy :
      (calls : List ToolCall) (resp : OracleResponse) (ts : TurnState)
      → Tidy ts
      → TidyStep (reacted svc calls resp ts)
  unfolding execute_iteration_actions
  reacted-Tidy [] resp ts h =
      if-TidyStep _ (gated-Tidy (finalize_terminal_response-Frame svc resp ts) h) (on_again h)
  reacted-Tidy (c ∷ cs) resp ts h =
      routed-Tidy (find_handoff_call svc ts.req.spirit (c ∷ cs)) (c ∷ cs) ts h

  heard-Tidy : (resp : OracleResponse) (ts : TurnState) → Tidy ts → Tidy (heard svc resp ts)
  heard-Tidy resp ts h =
      framed
        (appended _
          (Frame-trans (kept (same ts)) (accrue_tokens-Frame ts.draft_model resp.tokens_used _)))
        h

  answered-Tidy :
      (o : Option OracleResponse) (ts : TurnState) → Tidy ts → TidyStep (answered svc (o, ts))
  unfolding react
  answered-Tidy none ts h = on_failed (stop (quiet refl refl refl) h)
  answered-Tidy (some resp) ts h =
      reacted-Tidy resp.tool_calls resp (heard svc resp ts) (heard-Tidy resp ts h)

  with_log-Tidy : {step : Step} → TidyStep step → TidyStep (with_log svc step)
  with_log-Tidy (on_again h) = on_again (still (quiet refl refl refl) h)
  with_log-Tidy (on_finished h) = on_finished (Over-Quiet svc durable base (quiet refl refl refl) h)
  with_log-Tidy (on_failed h) = on_failed (Over-Quiet svc durable base (quiet refl refl refl) h)
  with_log-Tidy (on_panicked h) = on_panicked (Over-Quiet svc durable base (quiet refl refl refl) h)

  pub run_iteration-Tidy : (n : ℕ) (ts : TurnState) → Tidy ts → TidyStep (run_iteration svc n ts)
  unfolding run_iteration call_llm
  run_iteration-Tidy n ts h =
      let ts' = started svc n ts in
      let q =
        request_of ts'.req ts'.working_context (active_actions svc ts') (closing_hint svc ts')
          ts'.draft_model false in
      if-TidyStep _ (on_failed (stop (quiet refl refl refl) h)) (
        with_log-Tidy (
          answered-Tidy (svc.generate_response q ts'.outside) (ask q ts')
            (still (quiet refl refl refl) h)))
