-- ===== src/Engine/Session.antt =====
-- The steps that set the session up (internal/implementation/orchestrator/pipeline_step_session.go),
-- mark rituals (pipeline_step_scheduled.go) and show typing (pipeline_step_typing.go).
use eywa.Prelude.{
  Bool, true, false, not, ◌&&◌, ◌||◌, Option, none, some, List, [], ◌∷◌, String, concat, is_empty,
  is_some, length, ltb, if◌then◌else◌,
}
use eywa.Prelude.Maps.{Assoc, entries, get, lookup, remove}
use eywa.Errors.{err_memory_operation_failed, plain, orchestration, scheduled_task_skip}
use eywa.Pipeline.{Outcome, ok, fail}
use eywa.Entities.Value.{Value, text}
use eywa.Entities.Pulse.{Pulse, add_knowledge}
use eywa.Entities.Pulse.Reads.{get_metadata_string}
use eywa.Entities.Spirit.{Spirit, needs_session, needs_message_coalescing}
use eywa.Entities.Memory.{Memory, Thread}
use eywa.Engine.State.{Turn, Env, RitualAnswer, marked, terminal, unavailable}
use eywa.Engine.Admission.{or_nil}

-- `if _, exists := event.Knowledge[k]; !exists { event.AddKnowledge(k, v) }`
unfoldable pub add_missing : String → Value → Pulse → Pulse
unfolding add_knowledge
add_missing k v e = if is_some (get e.knowledge k) then e else add_knowledge k v e

-- The loop over session.TopicFacts.
unfoldable pub add_facts : Assoc Value → Pulse → Pulse
unfolding add_missing
add_facts [] e = e
add_facts ((k, v) ∷ fs) e = add_facts fs (add_missing k v e)

unfoldable pub expose_topic : Memory → Pulse → Pulse
unfolding add_facts add_missing add_knowledge
expose_topic session e =
    let e1 = add_facts (entries session.topic_facts) e in
    let e2 =
      (if is_empty session.summary
        then e1
        else add_missing "conversation_summary" (text session.summary) e1) in
    if is_empty session.subject_key
    then e
    else add_knowledge "active_topic" (text session.subject_key) e2

-- `state.Spirit != nil && !p(state.Spirit)`
abbrev spirit_lacks : (Spirit → Bool) → Option Spirit → Bool
spirit_lacks p none = false
spirit_lacks p (some sp) = not (p sp)

-- strings.Join(messages, "\n")
unfoldable pub join_lines : List String → String
join_lines [] = ""
join_lines (m ∷ ms) = elim ms [ [] ↦ m | m' ∷ ms' ↦ concat m (concat "\n" (join_lines ms)) ]

module _ (env : Env) where
  unfoldable pub session_setup : Turn → Outcome Turn
  unfolding expose_topic
  session_setup t =
      let e = t.state.event in
      let topic =
        (if is_empty e.subject_key
          then env.find_last_topic_key e.memory_key t.world
          else e.subject_key) in
      if spirit_lacks needs_session t.state.spirit
      then ok t
      else (elim (env.get_or_create e.memory_key topic t.world) [
        | none ↦ fail (err_memory_operation_failed plain) t
        | some m ↦
            ok
              (record t { state = record (t.state) { session = some m; event = expose_topic m e } })
      ])

  -- messageInbox.PopAll: the messages of the session leave the inbox.
  unfoldable pub drain : Turn → Turn
  unfolding join_lines
  drain t =
      let key = t.state.event.memory_key in
      let messages = or_nil (lookup key t.world.inbox) in
      let t1 = record t { world = record (t.world) { inbox = remove key t.world.inbox } } in
      if env.config.has_inbox && env.inbox_up t.world
      then (if ltb 1 (length messages)
          then record t1 {
            state = record (t.state) {
              event = record (t.state.event) { user_message = join_lines messages };
              coalesced_messages_count = length messages;
            };
          }
          else t1)
      else t

  -- The user's message goes into the session memory.
  unfoldable pub remember : Turn → Turn
  remember t =
      let s = t.state in
      let thread : Thread = record {
        role = "user";
        content = s.event.user_message;
        is_user_facing = true;
      } in
      if is_empty s.event.user_message then t else (elim s.session [
        | none ↦ t
        | some m ↦ record t { state = record s { session = some (env.update_memory thread m) } }
      ])

  unfoldable pub message_coalescing : Turn → Outcome Turn
  unfolding drain remember
  message_coalescing t =
      if spirit_lacks needs_message_coalescing t.state.spirit then ok t else ok (remember (drain t))

  mark_as : RitualAnswer → String → Turn → Outcome Turn
  mark_as marked id t =
      ok (record t { world = record (t.world) { rituals = (id, "running") ∷ t.world.rituals } })
  mark_as terminal id t = fail (orchestration scheduled_task_skip false) t
  mark_as unavailable id t = ok t

  unfoldable pub ritual_mark : Turn → Outcome Turn
  unfolding mark_as
  ritual_mark t = elim (get_metadata_string t.state.event "ritual_id") [
    | none ↦ ok t
    | some id ↦ if is_empty id then ok t else mark_as (env.mark_running id t.world) id t
  ]

  unfoldable pub mark_executed : Turn → Outcome Turn
  mark_executed t = elim (get_metadata_string t.state.event "ritual_id") [
    | none ↦ ok t
    | some id ↦
        if is_empty id || not (env.mark_executed id t.world)
        then ok t
        else ok
            (record t { world = record (t.world) { rituals = (id, "executed") ∷ t.world.rituals } })
  ]

abbrev note_typing : Bool → Turn → Turn
note_typing on t =
    let phone = t.state.event.contact_phone in
    if is_empty phone
    then t
    else record t { world = record (t.world) { typing = (phone, on) ∷ t.world.typing } }

-- An indicator that errors is logged only; the calls are recorded.
unfoldable pub typing_start : Turn → Outcome Turn
typing_start t = ok (note_typing true t)

unfoldable pub typing_stop : Turn → Outcome Turn
typing_stop t = ok (note_typing false t)
