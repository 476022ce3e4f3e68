-- ===== src/Reasoning/Bounds/Steps.antt =====
-- Every operation of an iteration keeps a turn in its budget (reasoning_loop.go of
-- internal/implementation/orchestrator).
use eywa.Prelude.{
  ℕ, ◌+◌, ◌≤◌, ◌≡◌, ◌==◌, refl, Bool, true, false, List, [], ◌∷◌, length, map, String, str_eq,
  Option, none, some, if◌then◌else◌, arith,
}
use eywa.Prelude.Maps.{GoMap}
use eywa.Entities.Value.{Value}
use eywa.Entities.Memory.{Memory}
use eywa.Errors.{Err}
use eywa.Reasoning.Oracle.{ToolCall}
use eywa.Reasoning.Dispatch.{ActionResult}
use eywa.Reasoning.Compression.{Working}
use eywa.Reasoning.Turn.{Outside, ReasoningService, TurnState}
use eywa.Reasoning.Calls.{pair_up, Processed, triage, dispatch, process_action_calls}
use eywa.Reasoning.Iteration.{
  Step, again, finished, failed, panicked, ends_with, reload, reloaded, handle_topic_switch,
  stalled, compressed, compress_unless, compress_context, advance,
}
use eywa.Reasoning.Setup.{topic_of}
use eywa.Reasoning.Frame.{Frame, kept, same, Frame-trans}
use eywa.Reasoning.Stall.{observe}
use eywa.Reasoning.Answer.{synthesize_final}
use eywa.Reasoning.Frame.Gates.{synthesize_final-Frame}
use eywa.Reasoning.Frame.Calls.{triage-Sorted, settle_calls-Grown}
use eywa.Reasoning.Bounds.{executed, Cap-mono, Good, good, Good-Grown, Good-Frame}

length-pair_up :
    (svc : ReasoningService) (cs : List ToolCall) (rs : List ActionResult)
    → length (pair_up svc cs rs) ≡ length cs
length-pair_up svc [] rs = refl
length-pair_up svc (c ∷ cs) [] = omega (arith, length-pair_up svc cs [])
length-pair_up svc (c ∷ cs) (r ∷ rs) = omega (arith, length-pair_up svc cs rs)

module _ (svc : ReasoningService) (limit base : ℕ) where
  abbrev Fine : ℕ → TurnState → Type 0
  Fine = Good limit base

  pub data GoodStep : Step → Type 0 where
    on_again : {ts : TurnState} → Fine 0 ts → GoodStep (again ts)
    on_finished : {ts : TurnState} → Fine 0 ts → GoodStep (finished ts)
    on_failed : {e : Err} {ts : TurnState} → Fine 0 ts → GoodStep (failed e ts)
    on_panicked : {ts : TurnState} → Fine 0 ts → GoodStep (panicked ts)

  pub if-GoodStep :
      (b : Bool) {x y : Step} → GoodStep x → GoodStep y → GoodStep (if b then x else y)
  if-GoodStep true p q = p
  if-GoodStep false p q = q

  dispatch-Good :
      (k : ℕ) (calls : List ToolCall) (ts : TurnState)
      → length calls ≤ k
      → Fine k ts
      → Fine 0 (dispatch svc calls ts).1
  unfolding dispatch
  dispatch-Good k calls ts le (good spent cap) =
      let count = length-pair_up svc calls (dispatch svc calls ts).0 in
      good (omega (arith, count, le, spent))
        (Cap-mono limit base _ (executed ts.outside.batches + k) (omega (arith, count, le)) cap)

  if-state :
      (b : Bool) (p q : Processed)
      → Fine 0 p.state
      → Fine 0 q.state
      → Fine 0 (if b then p else q).state
  if-state true p q x y = x
  if-state false p q x y = y

  -- Room that is not used.
  less : (k : ℕ) (ts : TurnState) → Fine k ts → Fine 0 ts
  less k ts (good spent cap) =
      good (omega (arith, spent))
        (Cap-mono limit base _ (executed ts.outside.batches + k) (omega arith) cap)

  pub process_action_calls-Good :
      (calls : List ToolCall) (ts : TurnState)
      → Fine (length calls) ts
      → Fine 0 (process_action_calls svc calls ts).state
  unfolding process_action_calls
  process_action_calls-Good calls ts h =
      let sorted = triage svc calls ts in
      let (shorter, fresh, frame) = triage-Sorted svc calls ts in
      let ran = dispatch svc sorted.0 sorted.1 in
      let fine = dispatch-Good (length calls) sorted.0 sorted.1 shorter (Good-Frame frame h) in
      if-state sorted.1.unwinding _ _ (less (length calls) sorted.1 (Good-Frame frame h)) (
        if-state (length ran.0 == length sorted.0) _ _
          (Good-Grown (settle_calls-Grown svc sorted.0 ran.0 ran.1) fine) fine)

  -- The counts do not depend on the context.
  reload-Good :
      (rebuild : Option (String → String → Outside → Option Memory)) (o : Option Memory)
      (ts : TurnState)
      → Fine 0 ts
      → Fine 0 (record (reload svc rebuild o ts) { topic_switched = true })
  reload-Good none o ts (good spent cap) = good spent cap
  reload-Good (some rebuild) none ts (good spent cap) = good spent cap
  reload-Good (some rebuild) (some m) ts h =
      reloaded-Good m.topic_facts (rebuild m.memory_key m.subject_key ts.outside) ts h
    where
      reloaded-Good :
          (facts : GoMap Value) (o : Option Memory) (ts : TurnState)
          → Fine 0 ts
          → Fine 0 (record (reloaded svc facts o ts) { topic_switched = true })
      reloaded-Good facts none ts (good spent cap) = good spent cap
      reloaded-Good facts (some m) ts (good spent cap) = good spent cap

  if-Fine :
      (b : Bool) {ts ts' : TurnState} → Fine 0 ts → Fine 0 ts' → Fine 0 (if b then ts else ts')
  if-Fine true x y = x
  if-Fine false x y = y

  -- The active topic is none of the counts.
  active :
      {topic : String} {ts : TurnState} → Fine 0 ts → Fine 0 (record ts { active_topic = topic })
  active (good spent cap) = good spent cap

  handle_topic_switch-Good : (ts : TurnState) → Fine 0 ts → Fine 0 (handle_topic_switch svc ts)
  unfolding handle_topic_switch
  handle_topic_switch-Good ts h =
      if-Fine (str_eq (topic_of ts.req.session) ts.active_topic) h
        (active (reload-Good svc.rebuild_for_topic ts.req.session ts h))

  pub ends_with-Frame : (e : String) (ts : TurnState) → Frame ts (ends_with svc e ts)
  ends_with-Frame e ts = kept (same ts)

  pub with_response-Frame :
      (s : String) (ts : TurnState)
      → Frame ts (record ts { result = record (ts.result) { final_response = s } })
  with_response-Frame s ts = kept (same ts)

  stalled-Good : (ts : TurnState) → Fine 0 ts → GoodStep (stalled svc ts)
  stalled-Good ts h =
      let (response, ts') = synthesize_final svc ts in
      on_finished (
        Good-Frame
          (Frame-trans (synthesize_final-Frame svc ts)
            (Frame-trans (with_response-Frame _ _) (ends_with-Frame _ _)))
          h)

  compressed-Good :
      (w : Option Working) (ts : TurnState) → Fine 0 ts → GoodStep (compressed svc w ts)
  compressed-Good none ts h = on_panicked h
  compressed-Good (some w) ts (good spent cap) = on_again (good spent cap)

  compress_unless-Good :
      (b : Bool) (ts : TurnState) → Fine 0 ts → GoodStep (compress_unless svc b ts)
  compress_unless-Good true ts h = on_again h
  compress_unless-Good false ts h = compressed-Good _ ts h

  compress_context-Good : (ts : TurnState) → Fine 0 ts → GoodStep (compress_context svc ts)
  unfolding compress_context
  compress_context-Good ts h =
      if-GoodStep ts.compression_enabled (compress_unless-Good ts.topic_switched ts h) (on_again h)

  pub advance-Good :
      (calls : List ToolCall) (ts : TurnState) → Fine 0 ts → GoodStep (advance svc calls ts)
  unfolding advance
  advance-Good calls ts h =
      let switched = handle_topic_switch svc ts in
      let seen = observe (map svc.call_signature calls) switched.stall in
      let noted = record switched { stall = seen.1 } in
      let fine : Fine 0 noted = Good-Frame (kept (same switched)) (handle_topic_switch-Good ts h) in
      if-GoodStep switched.unwinding (on_panicked (handle_topic_switch-Good ts h))
        (if-GoodStep seen.0 (stalled-Good noted fine) (compress_context-Good noted fine))
