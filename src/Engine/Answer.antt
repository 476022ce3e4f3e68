-- ===== src/Engine/Answer.antt =====
-- The steps that produce and deliver the answer (internal/implementation/orchestrator): reasoning,
-- notification, output guard, persistence, delivery and audit.
use eywa.Prelude.{
  ℕ, ◌+◌, Bool, true, false, not, ◌||◌, Option, none, some, [], ◌∷◌, ◌++◌, String, str_eq, is_empty,
  is_some, length, if◌then◌else◌,
}
use eywa.Prelude.Maps.{insert}
use eywa.Errors.{Err, err_reasoning_failed, err_persistence_failed, plain}
use eywa.Pipeline.{Outcome, ok, fail, panic}
use eywa.Entities.Spirit.{Spirit, NotifierConfig, is_notifier}
use eywa.Entities.Memory.{Memory, Thread}
use eywa.Engine.State.{ReasoningResult, ProcessingState, Chronicle, Echo, Turn, Env, Voice}

-- populateStateFromResult
unfoldable pub populate_state : Option ReasoningResult → ProcessingState → ProcessingState
populate_state none s = s
populate_state (some r) s = record s {
  reasoning_result = some r;
  response = r.final_response;
  final_error = r.final_error;
  session = elim r.final_session [ none ↦ s.session | some m ↦ some m ];
  response_delivered = r.response_delivered || s.response_delivered;
}

unfoldable pub is_notifier_spirit : Option Spirit → Bool
is_notifier_spirit none = false
is_notifier_spirit (some sp) = is_notifier sp

-- What the step makes of the answer of the reasoning service.
answered : Turn → Option ReasoningResult × Option Err → Outcome Turn
unfolding populate_state
answered t (r, none) = ok (record t { state = populate_state r t.state })
answered t (r, some e) =
    fail (err_reasoning_failed e) (record t { state = populate_state r t.state })

abbrev note_sent : String → String → Turn → Turn
note_sent voice message t = record t {
  state = record (t.state) { response_delivered = true };
  world = record (t.world) { sent = (voice, message) ∷ t.world.sent };
}

-- The fields of logInteraction that the engine's decisions make.
abbrev chronicle_of : ProcessingState → Chronicle
chronicle_of s =
    let status =
      (if not (is_empty s.processing_status)
        then s.processing_status
        else if not (is_empty s.final_error)
        then "error"
        else "success") in
    record {
      status = status;
      failed_at_step = s.pipeline_failed_at_step;
      delivered = s.response_delivered;
    }

module _ (env : Env) where
  -- A record that cannot be written is lost; both callers go on.
  unfoldable pub log_interaction : Turn → Turn
  log_interaction t =
      if env.log_interaction_up t.world
      then record t {
        world = record (t.world) { chronicles = chronicle_of t.state ∷ t.world.chronicles };
      }
      else t

  -- buildReasoningRequest reads the threads of the session through a pointer, so a nil session
  -- panics; the Spirit is read the same way.
  unfoldable pub reasoning_step : Turn → Outcome Turn
  unfolding answered is_notifier_spirit
  reasoning_step t =
      if t.state.skipped || is_notifier_spirit t.state.spirit then ok t else (elim t.state.session [
        | none ↦ panic t
        | some m ↦
            let s = record (t.state) { session_messages_count = length m.threads } in
            if is_some t.state.spirit
            then answered (record t { state = s }) (env.reason s t.world)
            else panic (record t { state = s })
      ])

  -- The voice has the last word: a send that errors is logged only.
  send : Voice → String → String → Turn → Turn
  send voice name message t =
      if voice.send_response t.state.event message t.world then note_sent name message t else t

  notify : Voice → String → String → Turn → Turn
  unfolding send
  notify voice name message t =
      if is_empty message
      then record t { state = record (t.state) { skipped = true; processing_status = "skipped" } }
      else send voice name message (record t { state = record (t.state) { response = message } })

  -- state.ReasoningResult.accumulateTokens, on a fresh result where there is none.
  accumulate_tokens : ℕ → Turn → Turn
  accumulate_tokens n t =
      let r0 : ReasoningResult = record {
        action_names = [];
        iterations = 0;
        iterations_used = 0;
        final_response = "";
        final_error = "";
        final_session = none;
        total_tokens = 0;
        response_delivered = false;
      } in
      let r : ReasoningResult = (elim t.state.reasoning_result [ none ↦ r0 | some r ↦ r ]) in
      record t {
        state = record (t.state) {
          reasoning_result = some (record r { total_tokens = r.total_tokens + n });
        };
      }

  notify_oracle : Voice → String → Turn → Option (String × ℕ) → Turn
  unfolding notify accumulate_tokens
  notify_oracle voice name t none = t
  notify_oracle voice name t (some (message, tokens)) =
      notify voice name message (accumulate_tokens tokens t)

  notify_by : NotifierConfig → Voice → String → Turn → Turn
  unfolding notify_oracle notify
  notify_by c voice name t =
      if str_eq c.mode "template"
      then notify voice name (env.render_template c.template t.state.event.knowledge) t
      else if str_eq c.mode "llm"
      then notify_oracle voice name t (env.oracle_answer t.state t.world)
      else t

  unfoldable pub notification : Turn → Outcome Turn
  unfolding notify_by
  notification t = elim t.state.spirit [
    | none ↦ ok t
    | some sp ↦
        let name = t.state.event_config.voice_name in
        if not (is_notifier sp) || t.state.skipped || is_empty name
        then ok t
        else (elim (env.get_voice name) [
          | none ↦ ok t
          | some voice ↦ ok (notify_by sp.notifier_config voice name t)
        ])
  ]

  abbrev set_response : String → Turn → Turn
  set_response r t = record t { state = record (t.state) { response = r } }

  -- The denylist replaces a response wholesale, else PII is redacted. The step is built only where
  -- the guard is enabled.
  unfoldable pub output_guard : Turn → Outcome Turn
  output_guard t =
      let r = t.state.response in
      if is_empty r
      then ok t
      else if env.output_blocked r
      then ok (set_response env.config.blocked_message t)
      else if env.config.redact_pii
      then ok (set_response (env.redact r) t)
      else ok t

  -- appendMessage: best effort.
  append_message : String → String → String → Turn → Turn
  append_message topic role content t =
      let e : Echo = record {
        memory_key = t.state.event.memory_key;
        subject_key = topic;
        role = role;
        content = content;
      } in
      if is_empty content || not (env.append_echo t.world)
      then t
      else record t { world = record (t.world) { echoes = t.world.echoes ++ e ∷ [] } }

  with_answer : String → Memory → Memory
  with_answer response m =
      let thread : Thread = record {
        role = "assistant";
        content = response;
        is_user_facing = true;
      } in
      if is_empty response then m else env.update_memory thread m

  unfoldable pub persistence : Turn → Outcome Turn
  unfolding append_message with_answer
  persistence t = elim t.state.session [
    | none ↦ ok t
    | some m ↦
        let m' = with_answer t.state.response m in
        let t1 = record t { state = record (t.state) { session = some m' } } in
        if env.save_memory t.world
        then (let t2 = record t1 {
          world = record (t.world) { memories = insert m'.memory_key m' t.world.memories };
        } in
            ok (
              append_message m'.subject_key "assistant" t.state.response
                (append_message m'.subject_key "user" t.state.event.user_message t2)))
        else fail (err_persistence_failed plain) t1
  ]

  deliver_by : Voice → String → Turn → Turn
  unfolding send
  deliver_by voice name t =
      if voice.should_auto_respond then send voice name t.state.response t else t

  unfoldable pub response_delivery : Turn → Outcome Turn
  unfolding deliver_by
  response_delivery t =
      let name = t.state.event_config.voice_name in
      if t.state.streaming
      then ok (record t { state = record (t.state) { response_delivered = true } })
      else if t.state.response_delivered || is_empty name || is_empty t.state.response
      then ok t
      else (elim (env.get_voice name) [ none ↦ ok t | some voice ↦ ok (deliver_by voice name t) ])

  unfoldable pub audit_log : Turn → Outcome Turn
  unfolding log_interaction
  audit_log t = ok (log_interaction t)
