-- ===== src/Reasoning/Iteration/Topic.antt =====
-- A switch of topic (handleTopicSwitch in internal/implementation/orchestrator/reasoning_service.go).
use eywa.Prelude.{
  true, ltb, Option, none, some, [], ◌∷◌, ◌++◌, length, drop, String, str_eq, if◌then◌else◌,
}
use eywa.Prelude.Maps.{GoMap, put_all}
use eywa.Entities.Value.{Value}
use eywa.Entities.Memory.{Memory}
use eywa.Reasoning.Turn.{Outside, ReasoningService, TurnState}
use eywa.Reasoning.Setup.{topic_of, chat_messages_to_llm}

module _ (svc : ReasoningService) where
  -- TopicFacts that the Actions of this cycle wrote survive the reload.
  abbrev pub with_facts : GoMap Value → Memory → Memory
  with_facts none m = m
  with_facts (some []) m = m
  with_facts (some (f ∷ fs)) m = record m { topic_facts = put_all (some (f ∷ fs)) m.topic_facts }

  abbrev pub reloaded : GoMap Value → Option Memory → TurnState → TurnState
  reloaded facts none ts = ts
  reloaded facts (some m) ts =
      let history = chat_messages_to_llm m.threads in
      record ts {
        req = record (ts.req) { session = some (with_facts facts m) };
        working_context = history ++ drop ts.conversation_offset ts.working_context;
        conversation_offset = length history;
        unwinding = ltb (length ts.working_context) ts.conversation_offset;
      }

  -- Without a memory manager, or where it fails, only the topic changes. A rebuild without a session reads the
  -- memory key of a nil session, and panics; so does the slice of a context that is shorter than the offset.
  abbrev pub reload :
      Option (String → String → Outside → Option Memory) → Option Memory → TurnState → TurnState
  reload none session ts = ts
  reload (some rebuild) none ts = record ts { unwinding = true }
  reload (some rebuild) (some m) ts =
      reloaded m.topic_facts (rebuild m.memory_key m.subject_key ts.outside) ts

  -- With the flag that the caller sets on a switch.
  unfoldable pub handle_topic_switch : TurnState → TurnState
  unfolding chat_messages_to_llm
  handle_topic_switch ts =
      let current = topic_of ts.req.session in
      if str_eq current ts.active_topic
      then ts
      else record (reload svc.rebuild_for_topic ts.req.session ts) {
        active_topic = current;
        topic_switched = true;
      }
