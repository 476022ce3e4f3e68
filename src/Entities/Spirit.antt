-- ===== src/Entities/Spirit.antt =====
-- The Spirit (internal/domain/entities/spirit.go): the fields that the engine's decisions read.
use eywa.Prelude.{Bool, true, false, ◌&&◌, ◌||◌, Option, List, [], ◌∷◌, String}
use eywa.Prelude.Int.{ℤ}
use eywa.Entities.Value.{Value}
use eywa.Entities.Policies.{ReasoningOverrides}

-- `unset` is the empty string.
pub data SpiritType : Type 0 where
  unset conversational executor notifier orchestrator : SpiritType

pub record NotifierCondition : Type 0 where
  pub field : String
  pub operator : String
  pub value : Value

pub record NotifierConfig : Type 0 where
  pub mode : String
  pub template : String
  pub conditions : List NotifierCondition

pub record OrchestratorConfig : Type 0 where
  pub mode : String
  pub sub_spirits : List String
  pub logic_router_name : String
  pub max_depth : ℤ

pub record HandoffConfig : Type 0 where
  pub allowed_targets : List String
  pub context_transfer : String
  pub max_handoffs : ℤ

pub record SpiritModel : Type 0 where
  pub provider : String
  pub model : String
  pub draft_model : String

-- An override that is none leaves the Action's own setting.
pub record AllowedAction : Type 0 where
  pub name : String
  pub is_critical : Option Bool

pub record Spirit : Type 0 where
  pub id : String
  pub name : String
  pub type : SpiritType
  pub require_scouts : List String
  pub lore_ids : List String
  pub with_session_memory : Bool
  pub notifier_config : NotifierConfig
  pub orchestrator_config : OrchestratorConfig
  pub handoff_config : HandoffConfig
  pub model_config : SpiritModel
  pub allowed_actions : List AllowedAction
  pub enforce_voice_delivery : Bool
  pub reasoning_overrides : Option ReasoningOverrides

is_conversational_type : SpiritType → Bool
is_conversational_type unset = true
is_conversational_type conversational = true
is_conversational_type _ = false

unfoldable pub is_conversational : Spirit → Bool
unfolding is_conversational_type
is_conversational s = is_conversational_type s.type

is_executor_type : SpiritType → Bool
is_executor_type executor = true
is_executor_type _ = false

unfoldable pub is_executor : Spirit → Bool
unfolding is_executor_type
is_executor s = is_executor_type s.type

is_notifier_type : SpiritType → Bool
is_notifier_type notifier = true
is_notifier_type _ = false

unfoldable pub is_notifier : Spirit → Bool
unfolding is_notifier_type
is_notifier s = is_notifier_type s.type

is_orchestrator_type : SpiritType → Bool
is_orchestrator_type orchestrator = true
is_orchestrator_type _ = false

unfoldable pub is_orchestrator : Spirit → Bool
unfolding is_orchestrator_type
is_orchestrator s = is_orchestrator_type s.type

unfoldable pub has_handoff : Spirit → Bool
has_handoff s = elim s.handoff_config.allowed_targets [ [] ↦ false | t ∷ ts ↦ true ]

unfoldable pub needs_session : Spirit → Bool
unfolding is_conversational is_orchestrator is_executor
needs_session s =
    is_conversational s || is_orchestrator s || (is_executor s && s.with_session_memory)

unfoldable pub needs_message_coalescing : Spirit → Bool
unfolding is_conversational
needs_message_coalescing s = is_conversational s
