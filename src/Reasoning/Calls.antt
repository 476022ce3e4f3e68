-- ===== src/Reasoning/Calls.antt =====
-- The action calls of an iteration: processActionCalls and what it calls
-- (internal/implementation/orchestrator/reasoning_service.go).
pub mod Messages
unfoldable pub use Messages.*
use eywa.Prelude.{
  suc, Bool, true, false, ◌&&◌, ◌||◌, not, ◌==◌, Option, none, some, is_some, List, [], ◌∷◌, ◌++◌,
  length, String, concat, contains, if◌then◌else◌,
}
use eywa.Prelude.Maps.{GoMap, insert, get}
use eywa.Entities.Memory.{Memory}
use eywa.Errors.{Err, plain, wrapped}
use eywa.Errors.Action.{ActionErr, is_business_error, message_for}
use eywa.Reasoning.Plan.{render}
use eywa.Reasoning.Oracle.{ToolCall, OracleMessage, accumulate_tokens}
use eywa.Reasoning.Plan.{PlanState}
use eywa.Reasoning.Dispatch.{ActionResult, execute_actions_with_plan, split_calls}
use eywa.Reasoning.Shaping.{shape_result_for_context}
use eywa.Reasoning.Summon.{SummonService, execute_all_actions}
use eywa.Reasoning.Turn.{Outside, ActionCallLog, MemoEntry, ReasoningService, TurnState}

module _ (svc : ReasoningService) where
  -- Whether a call is banned, and what the memo has for it, with the rest of the calls as `next`.
  abbrev pub sort_call :
      Bool
      → Option MemoEntry
      → ToolCall
      → TurnState
      → (TurnState → List ToolCall × TurnState)
      → List ToolCall × TurnState
  sort_call true found call ts next = next (refuse_banned svc call ts)
  sort_call false (some entry) call ts next = next (reuse_memo svc call entry ts)
  sort_call false none call ts next = let rest = next ts in (call ∷ rest.0, rest.1)

  -- The first loop: the calls that are left to execute.
  unfoldable pub triage : List ToolCall → TurnState → List ToolCall × TurnState
  unfolding refuse_banned reuse_memo
  triage [] ts = ([], ts)
  triage (call ∷ calls) ts =
      let sig = svc.call_signature call in
      sort_call (contains ts.banned_signatures sig) (get ts.tool_memo sig) call ts
        (λ ts'. triage calls ts')

  abbrev pub pair_up : List ToolCall → List ActionResult → List (ToolCall × ActionResult)
  pair_up [] rs = []
  pair_up (c ∷ cs) [] = (c, skipped svc c) ∷ pair_up cs []
  pair_up (c ∷ cs) (r ∷ rs) = (c, r) ∷ pair_up cs rs

  abbrev pub summons_in : Outside → Option (Outside → SummonService) → Option SummonService
  summons_in o none = none
  summons_in o (some service) = some (service o)

  -- executeAllActions in a turn.
  unfoldable pub all_actions :
      List ToolCall → TurnState → Option (List ActionResult) × Option Memory
  unfolding execute_all_actions
  all_actions calls ts =
      execute_all_actions (summons_in ts.outside svc.summon_service)
        (λ (batch : List ToolCall). svc.execute_all batch ts.req.session ts.outside) ts.req.event
        ts.req.spirit ts.req.session calls

  -- The calls that reach executeAllActions, and the session that it leaves.
  abbrev pub session_after : List ToolCall → TurnState → Option Memory
  session_after [] ts = ts.req.session
  session_after (c ∷ cs) ts = (all_actions (c ∷ cs) ts).1

  abbrev pub delegated :
      (List ToolCall → Option (List ActionResult))
      → List ToolCall
      → Option PlanState
      → List ToolCall
  delegated run calls none = calls
  delegated run calls (some p) = (split_calls svc.show render svc.plan_fault run calls p).1

  abbrev pub results_of : Option (List ActionResult) → List ActionResult
  results_of none = []
  results_of (some rs) = rs

  -- executeActionsWithPlan, with the plan and the session after it. Where it panics there are no results, but the
  -- calls that were left were executed.
  unfoldable pub dispatch : List ToolCall → TurnState → List ActionResult × TurnState
  unfolding execute_actions_with_plan all_actions
  dispatch calls ts =
      let run = λ (l : List ToolCall). (all_actions l ts).0 in
      let out = execute_actions_with_plan svc.show render svc.plan_fault run calls ts.plan in
      (
        results_of out.0,
        record ts {
          plan = out.1;
          unwinding = not (is_some out.0);
          req = record (ts.req) { session = session_after (delegated run calls ts.plan) ts };
          outside = record (ts.outside) {
            batches = pair_up calls (results_of out.0) ∷ ts.outside.batches;
          };
        },
      )

  -- if memo != nil { memo[sig] = entry }
  unfoldable pub memoize : String → MemoEntry → GoMap MemoEntry → GoMap MemoEntry
  memoize sig entry none = none
  memoize sig entry (some m) = some (insert sig entry m)

  -- A call that the executor answered without an error.
  unfoldable pub settle_success : ToolCall → ActionResult → TurnState → TurnState
  unfolding handle_action_success memoize log_call
  settle_success call r ts =
      let ts' = handle_action_success svc call r.result r.is_voice_delivery ts in
      log_call call r (record ts' {
        tool_memo =
            memoize (svc.call_signature call)
              (record { result = r.result; is_voice_delivery = r.is_voice_delivery }) ts'.tool_memo;
      })

  -- Of a call with an error, the message that the model gets and the log.
  unfoldable pub settle_error : ToolCall → ActionResult → ActionErr → TurnState → TurnState
  unfolding action_error_message log_call
  settle_error call r e ts =
      log_call call r
        (append_message (action_error_message svc call r.is_critical e) (note_error ts))

  abbrev pub banning : String → Processed → Processed
  banning sig p = record p { banned = sig ∷ p.banned }

  abbrev pub stripping : Processed → Processed
  stripping p = record p { infra_terminal = not (is_some p.error) }

  abbrev pub stopped : ToolCall → ActionResult → TurnState → Processed
  stopped call r ts = record {
    banned = [];
    infra_terminal = false;
    error = some (wrapped plain);
    state = log_call call r (note_error ts);
  }

  -- handleActionError for a critical error or not, a business error or not, and a Spirit that must deliver
  -- or not; the rest of the calls is `next`.
  abbrev pub settle_failure :
      Bool
      → Bool
      → Bool
      → ToolCall
      → ActionResult
      → ActionErr
      → TurnState
      → (TurnState → Processed)
      → Processed
  settle_failure false business enforce call r e ts next = next (settle_error call r e ts)
  settle_failure true true enforce call r e ts next =
      banning (svc.call_signature call) (next (note_banned call (settle_error call r e ts)))
  settle_failure true false true call r e ts next = stripping (next (settle_error call r e ts))
  settle_failure true false false call r e ts next = stopped call r ts

  abbrev pub settle_one :
      Option ActionErr → ToolCall → ActionResult → TurnState → (TurnState → Processed) → Processed
  settle_one none call r ts next = next (settle_success call r ts)
  settle_one (some e) call r ts next =
      settle_failure r.is_critical (is_business_error e) ts.enforce_voice_delivery call r e ts next

  -- The second loop, call by call; a critical infrastructure error of a Spirit that need not deliver
  -- ends it.
  unfoldable pub settle_calls : List ToolCall → List ActionResult → TurnState → Processed
  unfolding settle_success settle_error log_call is_business_error
  settle_calls [] rs ts = completed ts
  settle_calls (call ∷ calls) [] ts = completed ts
  settle_calls (call ∷ calls) (r ∷ rs) ts =
      settle_one r.error call r ts (λ ts'. settle_calls calls rs ts')

  abbrev pub mismatched : TurnState → Processed
  mismatched ts = record { banned = []; infra_terminal = false; error = some plain; state = ts }

  -- A panic in the first loop lets nothing be executed.
  unfoldable pub process_action_calls : List ToolCall → TurnState → Processed
  unfolding triage dispatch settle_calls
  process_action_calls calls ts =
      let sorted = triage calls ts in
      let ran = dispatch sorted.0 sorted.1 in
      let all = settle_calls sorted.0 ran.0 ran.1 in
      if sorted.1.unwinding
      then mismatched sorted.1
      else if length ran.0 == length sorted.0
      then all
      else mismatched ran.1
