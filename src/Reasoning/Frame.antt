-- ===== src/Reasoning/Frame.antt =====
-- What the operations of a turn leave as it is, apart from the calls of Actions, a switch of topic and the
-- compression of the context (reasoning_service.go and reasoning_loop.go of
-- internal/implementation/orchestrator).
pub mod Gates
pub mod Calls
use eywa.Prelude.{
  ℕ, zero, suc, ◌+◌, ◌≤◌, ◌≡◌, refl, ◌∙◌, Bool, true, false, List, [], ◌∷◌, ◌++◌, length,
  length-append, String, Option, none, some, if◌then◌else◌, Bool-cases, inl, inr, arith,
}
use eywa.Prelude.Maps.{GoMap}
use eywa.Reasoning.Oracle.{OracleMessage, OracleUsage, OracleResponse, ToolCall}
use eywa.Reasoning.Dispatch.{ActionResult}
use eywa.Reasoning.Turn.{MemoEntry, ReasoningRequest, ReasoningService, TurnState}
use eywa.Reasoning.Calls.{append_message, log_call}
use eywa.Reasoning.Answer.{accrue_tokens, accumulate_model_tokens, tiering_active}

-- The context only grows; the marks in it, the counts, the bans, the memo and the executed batches stay.
abbrev pub Same : TurnState → TurnState → Type 0
Same ts ts' =
    (ts'.conversation_offset ≡ ts.conversation_offset)
    × (ts'.iter_boundaries ≡ ts.iter_boundaries)
    × (ts'.topic_switched ≡ ts.topic_switched)
    × (length ts.working_context ≤ length ts'.working_context)
    × (ts'.total_action_calls ≡ ts.total_action_calls)
    × (ts'.outside.batches ≡ ts.outside.batches)
    × (ts'.banned_signatures ≡ ts.banned_signatures)
    × (ts'.tool_memo ≡ ts.tool_memo)
    × (ts'.result.iterations_used ≡ ts.result.iterations_used)

pub data Frame (ts ts' : TurnState) : Type 0 where
  kept : Same ts ts' → Frame ts ts'

pub same : (ts : TurnState) → Same ts ts
same ts = (refl, refl, refl, omega arith, refl, refl, refl, refl, refl)

pub Frame-trans : {ts ts' ts'' : TurnState} → Frame ts ts' → Frame ts' ts'' → Frame ts ts''
Frame-trans (kept (o, b, s, l, t, e, n, m, u)) (kept (o', b', s', l', t', e', n', m', u')) =
    kept (o' ∙ o, b' ∙ b, s' ∙ s, omega (arith, l, l'), t' ∙ t, e' ∙ e, n' ∙ n, m' ∙ m, u' ∙ u)

pub append_message-Frame : (m : OracleMessage) (ts : TurnState) → Frame ts (append_message m ts)
append_message-Frame m ts =
    let more : length ts.working_context ≤ length (ts.working_context ++ m ∷ []) =
      omega (arith, length-append ts.working_context (m ∷ [])) in
    kept (refl, refl, refl, more, refl, refl, refl, refl, refl)

pub accrue_tokens-Frame :
    (model : String) (usage : OracleUsage) (ts : TurnState)
    → Frame ts (accrue_tokens model usage ts)
unfolding accrue_tokens accumulate_model_tokens
accrue_tokens-Frame model usage ts = elim (Bool-cases (tiering_active ts.req)) [
  | inl e ↦ rw e (kept (same ts))
  | inr e ↦ rw e (kept (same ts))
]

pub log_call-Frame :
    (call : ToolCall) (r : ActionResult) (ts : TurnState) → Frame ts (log_call call r ts)
unfolding log_call
log_call-Frame call r ts = kept (same ts)

pub log_call-kept :
    {ts ts' : TurnState} (call : ToolCall) (r : ActionResult)
    → Frame ts ts'
    → Frame ts (log_call call r ts')
log_call-kept call r f = Frame-trans f (log_call-Frame call r _)

pub appended :
    {ts ts' : TurnState} (m : OracleMessage) → Frame ts ts' → Frame ts (append_message m ts')
appended m f = Frame-trans f (append_message-Frame m _)

-- The same, but for the memo.
abbrev pub SameButMemo : TurnState → TurnState → Type 0
SameButMemo ts ts' =
    (ts'.conversation_offset ≡ ts.conversation_offset)
    × (ts'.iter_boundaries ≡ ts.iter_boundaries)
    × (ts'.topic_switched ≡ ts.topic_switched)
    × (length ts.working_context ≤ length ts'.working_context)
    × (ts'.total_action_calls ≡ ts.total_action_calls)
    × (ts'.outside.batches ≡ ts.outside.batches)
    × (ts'.banned_signatures ≡ ts.banned_signatures)
    × (ts'.result.iterations_used ≡ ts.result.iterations_used)

pub data Grown (ts ts' : TurnState) : Type 0 where
  grown : SameButMemo ts ts' → Grown ts ts'

pub Frame-Grown : {ts ts' : TurnState} → Frame ts ts' → Grown ts ts'
Frame-Grown (kept (o, b, s, l, t, e, n, m, u)) = grown (o, b, s, l, t, e, n, u)

pub Grown-trans : {ts ts' ts'' : TurnState} → Grown ts ts' → Grown ts' ts'' → Grown ts ts''
Grown-trans (grown (o, b, s, l, t, e, n, u)) (grown (o', b', s', l', t', e', n', u')) =
    grown (o' ∙ o, b' ∙ b, s' ∙ s, omega (arith, l, l'), t' ∙ t, e' ∙ e, n' ∙ n, u' ∙ u)
