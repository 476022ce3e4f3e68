-- ===== src/Reasoning/Setup.antt =====
-- The start of a turn: newTurnState (internal/implementation/orchestrator/reasoning_loop.go) and what it
-- calls of reasoning_service.go.
use eywa.Prelude.{
  is_some, ℕ, ◌-◌, Bool, true, false, ◌&&◌, ◌||◌, not, Option, none, some, List, [], ◌∷◌, ◌++◌,
  length, String, concat, str_eq, is_empty, if◌then◌else◌,
}
use eywa.Prelude.Int.{pos}
use eywa.Entities.Policies.{ReasoningOverrides, unset}
use eywa.Entities.Spirit.{AllowedAction, is_orchestrator, has_handoff}
use eywa.Entities.Memory.{Memory, Thread}
use eywa.Reasoning.Oracle.{OracleMessage, OracleUsage}
use eywa.Reasoning.Plan.{new_plan_state}
use eywa.Reasoning.Stall.{new_stall_tracker}
use eywa.Reasoning.Turn.{
  IterationLog, Outside, ReasoningRequest, ReasoningResult, ReasoningService, TurnState,
}
use eywa.Reasoning.Answer.{tiering_active, user_message}
use eywa.Reasoning.Gates.{retrieved_lore_context}

abbrev pub no_usage : OracleUsage
no_usage = record { prompt_tokens = 0; completion_tokens = 0; total_tokens = 0 }

abbrev pub new_iter_log : ℕ → IterationLog
new_iter_log n = record {
  iteration = n;
  oracle_response = "";
  tokens_used = no_usage;
  action_calls = [];
  banned_actions = [];
  reflection_issues = [];
  errors = 0;
}

abbrev pub new_result : Option Memory → ReasoningResult
new_result session = record {
  iterations = [];
  final_response = "";
  final_error = "";
  iterations_used = 0;
  tokens_used = no_usage;
  tokens_by_model = none;
  final_session = session;
  response_delivered = false;
  citations = [];
  plan = [];
  confidence = unset;
  handoff_raised = false;
  structured = "";
}

abbrev pub topic_of : Option Memory → String
topic_of none = ""
topic_of (some m) = m.subject_key

abbrev or_default {ℓ} : {A : Type ℓ} → Option A → A → A
or_default none d = d
or_default (some a) d = a

abbrev pub override {ℓ} : {A : Type ℓ} → (ReasoningOverrides → Option A) → ReasoningRequest → A → A
override pick req d = elim req.spirit.reasoning_overrides [
  | none ↦ d
  | some o ↦ or_default (pick o) d
]

abbrev ends_with_user_message : String → List OracleMessage → Bool
ends_with_user_message s [] = false
ends_with_user_message s (m ∷ ms) = elim ms [
  | [] ↦ str_eq m.role "user" && str_eq m.content s
  | m' ∷ rest ↦ ends_with_user_message s ms
]

unfoldable pub initialize_working_context : ReasoningRequest → List OracleMessage
initialize_working_context req =
    let s = req.event.user_message in
    let context = req.conversation_context in
    if is_empty s || ends_with_user_message s context
    then context
    else context ++ user_message s ∷ []

unfoldable pub chat_messages_to_llm : List Thread → List OracleMessage
chat_messages_to_llm [] = []
chat_messages_to_llm (m ∷ ms) =
    record (user_message m.content) { role = m.role } ∷ chat_messages_to_llm ms

abbrev known_actions : ReasoningService → List AllowedAction → List String
known_actions svc [] = []
known_actions svc (a ∷ as') = elim (svc.get_action a.name) [
  | none ↦ known_actions svc as'
  | some n ↦ n ∷ known_actions svc as'
]

abbrev only_if : Bool → String → List String
only_if true name = name ∷ []
only_if false name = []

abbrev pub is_nil {ℓ} : {A : Type ℓ} → List A → Bool
is_nil [] = true
is_nil (x ∷ xs) = false

unfoldable pub available_actions : ReasoningService → ReasoningRequest → Bool → List String
unfolding is_orchestrator has_handoff
available_actions svc req planning =
    let sp = req.spirit in
    known_actions svc sp.allowed_actions
    ++ (only_if
          (is_some svc.summon_service
            && is_orchestrator sp
            && not (is_nil sp.orchestrator_config.sub_spirits))
          "summon_spirit"
        ++ (only_if (svc.has_handoff && has_handoff sp) "handoff_spirit"
            ++ only_if planning "update_plan"))

abbrev with_prompt : Bool → String → ReasoningRequest → ReasoningRequest
with_prompt true s req = record req { system_prompt = concat req.system_prompt s }
with_prompt false s req = req

module _ (svc : ReasoningService) where
  -- The turn with its effective policies; the prompt gains the addenda of grounding and planning.
  unfoldable pub fresh_turn : ReasoningRequest → Outside → TurnState
  unfolding initialize_working_context available_actions tiering_active retrieved_lore_context
      new_plan_state new_stall_tracker
  fresh_turn req outside =
      let progress = override (λ (o : ReasoningOverrides). o.progress) req svc.progress_policy in
      let grounding = override (λ (o : ReasoningOverrides). o.grounding) req svc.grounding_policy in
      let planning = override (λ (o : ReasoningOverrides). o.plan) req svc.plan_policy in
      let compression =
        override (λ (o : ReasoningOverrides). o.compression) req svc.compression_policy in
      let context = initialize_working_context req in
      let grounded =
        with_prompt (grounding.enabled && not (is_empty (retrieved_lore_context req)))
          "\n\n--- SOURCE GROUNDING ---\nBase your answer only on the retrieved sources provided in the Knowledge section. Cite each factual claim with [chunk:<id>] using the id of the <lore> block it came from. If the sources do not contain the answer, say so."
          req in
      record {
        req =
            with_prompt (planning.enabled && planning.required)
              "\n\n--- PLANNING ---\nBefore acting, lay out your plan using the update_plan action, and keep it current as you work."
              grounded;
        result = new_result req.session;
        iter_log = new_iter_log 0;
        actions = available_actions svc req planning.enabled;
        working_context = context;
        active_topic = topic_of req.session;
        conversation_offset =
            (if is_empty req.event.user_message then length context else length context - 1);
        enforce_voice_delivery = req.spirit.enforce_voice_delivery;
        banned_signatures = [];
        tool_memo = none;
        infra_terminal = false;
        total_action_calls = 0;
        unwinding = false;
        iter_boundaries = [];
        topic_switched = false;
        reflection_rounds = 0;
        grounding_revised = false;
        plan_nudged = false;
        critical_errors = 0;
        progress = progress;
        reflection = override (λ (o : ReasoningOverrides). o.reflection) req svc.reflection_policy;
        grounding = grounding;
        plan_policy = planning;
        handoff = override (λ (o : ReasoningOverrides). o.handoff) req svc.handoff_policy;
        compression_enabled = compression.enabled;
        plan = (if planning.enabled then some (new_plan_state planning.max_items) else none);
        stall = new_stall_tracker (if progress.enabled then progress.stall_window else pos 0);
        draft_model = (if tiering_active req then req.spirit.model_config.draft_model else "");
        outside = outside;
      }

  -- None where the provider of the Spirit's model is not known.
  unfoldable pub new_turn_state : ReasoningRequest → Outside → Option TurnState
  unfolding fresh_turn
  new_turn_state req outside =
      if svc.get_provider req.spirit.model_config.provider
      then some (fresh_turn req outside)
      else none
