-- ===== src/Tests/Fixtures.antt =====
-- A small deployment: one Spirit, one voice, an inbox and an idempotency store.
use eywa.Prelude.{true, false, none, some, [], ◌∷◌, ◌++◌}
use eywa.Prelude.Int.{pos}
use eywa.Entities.Value.{text}
use eywa.Entities.Pulse.{Pulse}
use eywa.Entities.Link.{Link}
use eywa.Entities.Spirit.{
  Spirit, SpiritType, conversational, executor, notifier, NotifierConfig, SpiritModel,
}
use eywa.Entities.Memory.{Memory}
use eywa.Engine.State.{
  ReasoningResult, ProcessingState, World, Turn, Config, Env, Voice, TokenBudget, marked,
}

abbrev pub hello : Pulse
hello = record {
  id = "p1";
  memory_key = "whatsapp:569";
  timestamp = 100;
  user_message = "hello";
  contact_phone = "569";
  source = "webhook";
  sub_type = "";
  event_type = "message";
  idempotency_key = "wamid.1";
  attachments = [];
  payload = none;
  subject_key = "";
  metadata = none;
  knowledge = some (("name", text "Ada") ∷ []);
  parent_pulse_id = "";
  orchestration_depth = 0;
  handoff_count = 0;
}

abbrev pub chat_link : Link
chat_link = record {
  event_type = "message";
  inbound_converter_name = "";
  require_scouts = [];
  pathfinder_name = "";
  allowed_spirits = "guide" ∷ [];
  default_spirit = "guide";
  voice_name = "whatsapp";
  channel_name = "";
  ingestion_timeout = 0;
  processing_timeout = 0;
  guards = [];
  compiled_rules = [];
  metadata = none;
}

abbrev pub no_notifier : NotifierConfig
no_notifier = record { mode = ""; template = ""; conditions = [] }

abbrev pub small_model : SpiritModel
small_model = record { provider = "openai"; model = "mini"; draft_model = "" }

abbrev pub spirit_of : SpiritType → NotifierConfig → Spirit
spirit_of type n = record {
  id = "s1";
  name = "guide";
  type = type;
  require_scouts = [];
  lore_ids = [];
  with_session_memory = false;
  notifier_config = n;
  orchestrator_config = record {
    mode = "";
    sub_spirits = [];
    logic_router_name = "";
    max_depth = pos 0;
  };
  handoff_config = record {
    allowed_targets = "expert" ∷ [];
    context_transfer = "none";
    max_handoffs = pos 0;
  };
  model_config = small_model;
  allowed_actions = [];
  enforce_voice_delivery = false;
  reasoning_overrides = none;
}

abbrev pub guide : Spirit
guide = spirit_of conversational no_notifier

abbrev pub clerk : Spirit
clerk = spirit_of executor no_notifier

abbrev pub herald : Spirit
herald = spirit_of notifier (record { mode = "template"; template = "hi"; conditions = [] })

abbrev pub empty_memory : Memory
empty_memory = record {
  memory_key = "whatsapp:569";
  subject_key = "";
  threads = [];
  summary = "";
  topic_facts = none;
}

abbrev pub answer : ReasoningResult
answer = record {
  action_names = [];
  iterations = 1;
  iterations_used = 1;
  final_response = "hi there";
  final_error = "";
  final_session = none;
  total_tokens = 12;
  response_delivered = false;
}

abbrev pub plain_config : Config
plain_config = record {
  idempotency_ttl = 3600;
  lock_acquire_timeout = 5;
  scout_timeout = 5;
  spirit_selection_timeout = 5;
  spirit_load_timeout = 5;
  session_timeout = 5;
  message_coalescing_timeout = 5;
  reasoning_timeout = 60;
  persistence_timeout = 5;
  has_idempotency = true;
  has_rate_limiter = false;
  has_inbox = true;
  has_vigil = false;
  has_typing = false;
  has_rituals = false;
  has_handoff = false;
  has_logic_routers = false;
  has_ledger = false;
  has_lore = false;
  has_imprint = false;
  has_alert_hook = false;
  has_output_guard = false;
  redact_pii = false;
  blocked_message = "";
  routing_rules = [];
}

abbrev pub phone_voice : Voice
phone_voice = record { should_auto_respond = true; send_response = λ e s w. true }

abbrev pub spent_budget : TokenBudget
spent_budget = record {
  monthly_token_limit = pos 1000;
  over_threshold = λ used. true;
  downgrade_at_threshold = false;
  downgrade_model = small_model;
  on_exceed = "block";
}

abbrev pub env_of : Config → Spirit → Env
env_of config spirit = record {
  config = config;
  late = λ timed t. false;
  validate = λ e. none;
  allow = λ k w. some true;
  inbox_up = λ w. true;
  vigil_held = λ k w. some false;
  mark_running = λ i w. marked;
  mark_executed = λ i w. true;
  get_scouts = λ l. none;
  harvest_lore = λ l e. e;
  harvest_imprint = λ l e. e;
  get_pathfinder = λ s. none;
  find_spirit = λ s w. some spirit;
  get_logic_router = λ s. none;
  find_last_topic_key = λ k w. "";
  get_or_create = λ k s w. some empty_memory;
  update_memory = λ t m. record m { threads = m.threads ++ t ∷ [] };
  save_memory = λ w. true;
  append_echo = λ w. true;
  log_interaction_up = λ w. true;
  reason = λ s w. (some answer, none);
  get_voice = λ s. some phone_voice;
  get_budget = λ s w. some spent_budget;
  month_usage = λ s w. some 1000;
  increment_usage = λ w. true;
  oracle_answer = λ s w. none;
  render_template = λ s k. s;
  show = λ v. "";
  output_blocked = λ s. false;
  redact = λ s. s;
  float_compare = λ v w. none;
}

abbrev pub chat : Env
chat = env_of plain_config guide

abbrev pub start : ProcessingState
start = record {
  event = hello;
  event_config = chat_link;
  spirit_name = "";
  spirit = none;
  session = none;
  reasoning_result = none;
  response = "";
  final_error = "";
  start_time = 0;
  lock_key = "";
  lock_acquired = false;
  additional_locks = [];
  response_delivered = false;
  skipped = false;
  streaming = false;
  processing_status = "";
  pipeline_failed_at_step = "";
  pathfinder_used = "";
  session_messages_count = 0;
  coalesced_messages_count = 0;
}

abbrev pub quiet : World
quiet = record {
  clock = 100;
  locks = [];
  seen = [];
  pins = [];
  inbox = [];
  memories = [];
  echoes = [];
  sent = [];
  chronicles = [];
  typing = [];
  rituals = [];
  usage = [];
  alerts = [];
}

abbrev pub first_turn : Turn
first_turn = record { state = start; world = quiet }
