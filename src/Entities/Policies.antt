-- ===== src/Entities/Policies.antt =====
-- The policies of the reasoning loop (internal/domain/entities/reasoning.go), as a Spirit carries them.
use eywa.Prelude.{ℕ, Bool, Option, List, String}
use eywa.Prelude.Int.{ℤ}

pub record ProgressPolicy : Type 0 where
  pub enabled : Bool
  pub stall_window : ℤ

-- Limits below 0 are not considered.
pub record CompressionPolicy : Type 0 where
  pub enabled : Bool
  pub max_context_chars : ℕ
  pub keep_recent : ℕ

pub record ReflectionPolicy : Type 0 where
  pub enabled : Bool
  pub max_rounds : ℕ
  pub model : String
  pub criteria : List String

-- An action that is not set is revise_once.
pub data GroundingViolationAction : Type 0 where
  revise_once annotate block : GroundingViolationAction

pub record GroundingPolicy : Type 0 where
  pub enabled : Bool
  pub min_citations : ℕ
  pub on_violation : GroundingViolationAction
  pub blocked_message : String

pub record PlanPolicy : Type 0 where
  pub enabled : Bool
  pub max_items : ℤ
  pub required : Bool

-- `unset` is the empty string.
pub data Confidence : Type 0 where
  unset low medium high : Confidence

pub data HandoffMode : Type 0 where
  raise_vigil annotate_only : HandoffMode

pub record HandoffPolicy : Type 0 where
  pub enabled : Bool
  pub min_confidence : Confidence
  pub mode : HandoffMode
  pub holding_message : String
  pub uncertainty_markers : List String

-- A policy that is none is the default of the service.
pub record ReasoningOverrides : Type 0 where
  pub progress : Option ProgressPolicy
  pub compression : Option CompressionPolicy
  pub reflection : Option ReflectionPolicy
  pub grounding : Option GroundingPolicy
  pub plan : Option PlanPolicy
  pub handoff : Option HandoffPolicy
