-- ===== src/Engine/State.antt =====
-- The state of one turn (ProcessingState in internal/implementation/orchestrator/pipeline.go), the
-- world that turns share, and the ports that the engine calls (internal/domain/ports). The world
-- holds the in-process adapters of the repository and what the turns leave behind; what other
-- services answer is given by the functions of `Env`, which may depend on the whole world.
use eywa.Prelude.{ℕ, Bool, Option, List, String}
use eywa.Prelude.Maps.{Assoc, GoMap}
use eywa.Prelude.Int.{ℤ}
use eywa.Errors.{Err}
use eywa.Entities.Value.{Value}
use eywa.Entities.Pulse.{Pulse}
use eywa.Entities.Link.{Link}
use eywa.Entities.Spirit.{Spirit, SpiritModel}
use eywa.Entities.Memory.{Memory, Thread}
use eywa.Stores.Bond.{Locks}
use eywa.Stores.Idempotency.{Store}
use eywa.Stores.Handoff.{Pins}

-- The part of a ReasoningResult that the engine reads.
pub record ReasoningResult : Type 0 where
  pub action_names : List String
  pub iterations : ℕ
  pub iterations_used : ℕ
  pub final_response : String
  pub final_error : String
  pub final_session : Option Memory
  pub total_tokens : ℕ
  pub response_delivered : Bool

pub record ProcessingState : Type 0 where
  pub event : Pulse
  pub event_config : Link
  pub spirit_name : String
  pub spirit : Option Spirit
  pub session : Option Memory
  pub reasoning_result : Option ReasoningResult
  pub response : String
  pub final_error : String
  pub start_time : ℕ
  pub lock_key : String
  pub lock_acquired : Bool
  pub additional_locks : List String
  pub response_delivered : Bool
  pub skipped : Bool
  pub streaming : Bool
  pub processing_status : String
  pub pipeline_failed_at_step : String
  pub pathfinder_used : String
  pub session_messages_count : ℕ
  pub coalesced_messages_count : ℕ

-- An audit record: the status, the failed step, and whether the user got a response.
pub record Chronicle : Type 0 where
  pub status : String
  pub failed_at_step : String
  pub delivered : Bool

-- A persisted message: session, topic, role and text.
pub record Echo : Type 0 where
  pub memory_key : String
  pub subject_key : String
  pub role : String
  pub content : String

pub record World : Type 0 where
  pub clock : ℕ
  pub locks : Locks
  pub seen : Store
  pub pins : Pins
  pub inbox : Assoc (List String)
  pub memories : Assoc Memory
  pub echoes : List Echo
  pub sent : List (String × String)
  pub chronicles : List Chronicle
  pub typing : List (String × Bool)
  pub rituals : List (String × String)
  pub usage : List (String × ℕ)
  pub alerts : List String

pub record Turn : Type 0 where
  pub state : ProcessingState
  pub world : World

-- A Scout: whether it applies, and what it leaves of the Pulse, whether or not it reports an error.
pub record Scout : Type 0 where
  pub is_applicable : Pulse → Bool
  pub harvest : Pulse → Pulse

pub record Voice : Type 0 where
  pub should_auto_respond : Bool
  pub send_response : Pulse → String → World → Bool

pub data RitualAnswer : Type 0 where
  marked terminal unavailable : RitualAnswer

-- The monthly budget of a Spirit. `over_threshold` is the float test
-- `AlertThreshold > 0 && used / limit >= AlertThreshold`, a function of the usage.
pub record TokenBudget : Type 0 where
  pub monthly_token_limit : ℤ
  pub over_threshold : ℕ → Bool
  pub downgrade_at_threshold : Bool
  pub downgrade_model : SpiritModel
  pub on_exceed : String

pub record RoutingCondition : Type 0 where
  pub input_length_gte : ℤ
  pub input_length_lt : ℤ
  pub has_attachments : Bool
  pub event_type : String
  pub topic_prefix : String
  pub user_tier : String

pub record RoutingRule : Type 0 where
  pub condition : RoutingCondition
  pub model : SpiritModel

-- What is wired at construction. An option that is none, or a flag that is false, is a nil port.
pub record Config : Type 0 where
  pub idempotency_ttl : ℕ
  pub lock_acquire_timeout : ℕ
  pub scout_timeout : ℕ
  pub spirit_selection_timeout : ℕ
  pub spirit_load_timeout : ℕ
  pub session_timeout : ℕ
  pub message_coalescing_timeout : ℕ
  pub reasoning_timeout : ℕ
  pub persistence_timeout : ℕ
  pub has_idempotency : Bool
  pub has_rate_limiter : Bool
  pub has_inbox : Bool
  pub has_vigil : Bool
  pub has_typing : Bool
  pub has_rituals : Bool
  pub has_handoff : Bool
  pub has_logic_routers : Bool
  pub has_ledger : Bool
  pub has_lore : Bool
  pub has_imprint : Bool
  pub has_alert_hook : Bool
  pub has_output_guard : Bool
  pub redact_pii : Bool
  pub blocked_message : String
  pub routing_rules : List RoutingRule

-- How the float64 forms of two numbers compare; `none` where one of them is no number.
pub data Comparison : Type 0 where
  less equal greater : Comparison

-- The answers of the ports and of the Go interfaces that the engine is built on (EventValidatorIface,
-- MemoryManager, ReasoningExecutor), and of fmt.Sprintf("%v", x). `none` is an error.
pub record Env : Type 0 where
  pub config : Config
  pub late : Bool → Turn → Bool
  pub validate : Pulse → Option Err
  pub allow : String → World → Option Bool
  pub inbox_up : World → Bool
  pub vigil_held : String → World → Option Bool
  pub mark_running : String → World → RitualAnswer
  pub mark_executed : String → World → Bool
  pub get_scouts : List String → Option (List Scout)
  pub harvest_lore : List String → Pulse → Pulse
  pub harvest_imprint : String → Pulse → Pulse
  pub get_pathfinder : String → Option (Pulse → List String → String)
  pub find_spirit : String → World → Option Spirit
  pub get_logic_router : String → Option (Pulse → String)
  pub find_last_topic_key : String → World → String
  pub get_or_create : String → String → World → Option Memory
  pub update_memory : Thread → Memory → Memory
  pub save_memory : World → Bool
  pub append_echo : World → Bool
  pub log_interaction_up : World → Bool
  pub reason : ProcessingState → World → Option ReasoningResult × Option Err
  pub get_voice : String → Option Voice
  pub get_budget : String → World → Option TokenBudget
  pub month_usage : String → World → Option ℕ
  pub increment_usage : World → Bool
  pub oracle_answer : ProcessingState → World → Option (String × ℕ)
  pub render_template : String → GoMap Value → String
  pub show : Value → String
  pub output_blocked : String → Bool
  pub redact : String → String
  pub float_compare : Value → Value → Option Comparison
