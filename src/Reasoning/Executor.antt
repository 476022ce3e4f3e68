-- ===== src/Reasoning/Executor.antt =====
-- DefaultActionExecutor (internal/implementation/orchestrator/tool_executor.go). What an Action answers at
-- its n-th execution for a call is a function of n, and so is whether the context ends while the
-- executor waits after it; durations of calls are left out.
pub mod Laws
use eywa.Prelude.{
  ℕ, zero, suc, ◌+◌, ◌*◌, Bool, true, false, not, ◌&&◌, Option, none, some, List, [], ◌∷◌, map,
  String, leb, if◌then◌else◌,
}
use eywa.Prelude.Int.{ℤ, pos, negsuc, pos_part, le_zero}
use eywa.Prelude.Maps.{GoMap}
use eywa.Entities.Value.{Value}
use eywa.Errors.Action.{ActionErr, plain, wrapped, is_infrastructure_error}
use eywa.Reasoning.Oracle.{ToolCall}
use eywa.Reasoning.Dispatch.{ActionResult}

-- Delays are in milliseconds.
pub record ActionRetryConfig : Type 0 where
  pub max_attempts : ℤ
  pub base_delay : ℤ

pub data Outcome : Type 0 where
  done : String → Outcome
  failed : ActionErr → Outcome

pub record Action : Type 0 where
  pub is_critical : Bool
  pub is_delivery : Bool
  pub validate : GoMap Value → Option ActionErr
  pub execute : ℕ → Outcome
  pub cancelled : ℕ → Bool

-- What a call comes to: its result, the executions made and the waits between them.
pub record Ran : Type 0 where
  pub answer : ActionResult
  pub attempts : ℕ
  pub waits : List ℕ

abbrev min_retry_delay : ℕ
min_retry_delay = 50

abbrev is_neg : ℤ → Bool
is_neg (pos n) = false
is_neg (negsuc n) = true

abbrev is_zero : ℤ → Bool
is_zero (pos zero) = true
is_zero (pos (suc n)) = false
is_zero (negsuc n) = false

abbrev above_one : ℤ → Bool
above_one n = leb 2 (pos_part n)

unfoldable pub with_retry : ActionRetryConfig → ActionRetryConfig
with_retry cfg =
    let attempts : ℤ = (if le_zero cfg.max_attempts then pos 1 else cfg.max_attempts) in
    let delay : ℤ = (if is_neg cfg.base_delay then pos 0 else cfg.base_delay) in
    record {
      max_attempts = attempts;
      base_delay = if above_one attempts && is_zero delay then pos min_retry_delay else delay;
    }

abbrev pub is_transient : Outcome → Bool
is_transient (done s) = false
is_transient (failed e) = is_infrastructure_error e

-- The result of an execution that is the last one.
abbrev pub conclude : ActionResult → Outcome → ActionResult
conclude r (done s) = record r { result = s }
conclude r (failed e) = record r { error = some (wrapped e) }

abbrev pub cut_short : ActionResult → ActionResult
cut_short r = record r { error = some (wrapped (plain "context canceled")) }

abbrev ended : ActionResult → ℕ → Ran
ended r n = record { answer = r; attempts = n; waits = [] }

-- The loop from attempt number `attempt`, with `left` attempts after it.
unfoldable pub attempt_from : Action → ActionResult → ℕ → ℕ → ℕ → Ran
unfolding is_infrastructure_error
attempt_from a r zero attempt delay = ended (conclude r (a.execute attempt)) attempt
attempt_from a r (suc left) attempt delay =
    let rest = attempt_from a r left (suc attempt) (delay * 2) in
    if not (is_transient (a.execute attempt))
    then ended (conclude r (a.execute attempt)) attempt
    else if a.cancelled attempt
    then record { answer = cut_short r; attempts = attempt; waits = delay ∷ [] }
    else record rest { waits = delay ∷ rest.waits }

-- The attempts after the first one; a maximum that is not positive stands for 1.
abbrev pub retries : ActionRetryConfig → ℕ
retries cfg = elim (pos_part cfg.max_attempts) [ zero ↦ 0 | suc n ↦ n ]

abbrev or_else : Bool → Option Bool → Bool
or_else b none = b
or_else b (some b') = b'

abbrev pub named : ToolCall → ActionResult
named call = record {
  action_name = call.name;
  result = "";
  error = none;
  is_critical = false;
  is_voice_delivery = false;
}

-- The fields that executeOne sets once the Action is found.
abbrev pub described : Action → ToolCall → ActionResult
described a call = record (named call) {
  is_critical = or_else a.is_critical call.is_critical_override;
  is_voice_delivery = a.is_delivery;
}

-- The registry answers none for a name that it does not have.
unfoldable pub execute_one : (ToolCall → Option Action) → ActionRetryConfig → ToolCall → Ran
unfolding attempt_from
execute_one registry cfg call = elim (registry call) [
  | none ↦ ended (record (named call) { error = some (wrapped (plain "not found")) }) 0
  | some a ↦ elim (a.validate call.arguments) [
    | some e ↦ ended (record (described a call) { error = some (wrapped e) }) 0
    | none ↦ attempt_from a (described a call) (retries cfg) 1 (pos_part cfg.base_delay)
  ]
]

-- In parallel or not, the result of a call stands at its place.
unfoldable pub execute_all :
    (ToolCall → Option Action) → ActionRetryConfig → List ToolCall → List ActionResult
unfolding execute_one
execute_all registry cfg calls =
    map (λ (call : ToolCall). (execute_one registry cfg call).answer) calls
