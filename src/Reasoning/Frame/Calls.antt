-- ===== src/Reasoning/Frame/Calls.antt =====
-- The calls of an iteration (processActionCalls in
-- internal/implementation/orchestrator/reasoning_service.go): which of them are executed, and what they
-- leave of the turn.
use eywa.Prelude.{
  ℕ, suc, ◌≤◌, ◌≡◌, refl, subst, Bool, true, false, List, [], ◌∷◌, length, All, String, contains,
  Option, none, some, arith,
}
use eywa.Prelude.Maps.{GoMap, get}
use eywa.Errors.Action.{ActionErr, is_business_error}
use eywa.Reasoning.Oracle.{ToolCall}
use eywa.Reasoning.Dispatch.{ActionResult}
use eywa.Reasoning.Turn.{MemoEntry, ReasoningService, TurnState}
use eywa.Reasoning.Calls.{
  append_message, log_call, note_banned, note_error, handle_action_success, reused, refuse_banned,
  reuse_memo, sort_call, triage, settle_success, settle_error, settle_failure, settle_one,
  settle_calls, Processed,
}
use eywa.Reasoning.Frame.{
  Frame, kept, same, appended, log_call-kept, Frame-trans, append_message-Frame, Grown, grown,
  Grown-trans, Frame-Grown,
}

module _ (svc : ReasoningService) where
  handle_action_success-Frame :
      (call : ToolCall) (text : String) (delivery : Bool) (ts : TurnState)
      → Frame ts (handle_action_success svc call text delivery ts)
  unfolding handle_action_success
  handle_action_success-Frame call text delivery ts = appended _ (kept (same ts))

  refuse_banned-Frame : (call : ToolCall) (ts : TurnState) → Frame ts (refuse_banned svc call ts)
  unfolding refuse_banned
  refuse_banned-Frame call ts =
      Frame-trans (append_message-Frame _ ts) (kept (same (append_message _ ts)))

  reuse_memo-Frame :
      (call : ToolCall) (entry : MemoEntry) (ts : TurnState)
      → Frame ts (reuse_memo svc call entry ts)
  unfolding reuse_memo
  reuse_memo-Frame call entry ts =
      log_call-kept call (reused svc call entry)
        (handle_action_success-Frame call entry.result entry.is_voice_delivery ts)

  -- A call that is neither banned nor in the memo.
  abbrev pub Fresh : List String → GoMap MemoEntry → ToolCall → Type 0
  Fresh banned memo call =
      (contains banned (svc.call_signature call) ≡ false)
      × (get memo (svc.call_signature call) ≡ none)

  -- What triage comes to: no more calls than before, all of them fresh, and the turn as it was.
  abbrev pub Sorted : ℕ → TurnState → List ToolCall × TurnState → Type 0
  Sorted n ts out =
      (length out.0 ≤ n) × All (Fresh ts.banned_signatures ts.tool_memo) out.0 × Frame ts out.1

  Sorted-after :
      (n : ℕ) (ts ts' : TurnState) (out : List ToolCall × TurnState)
      → Frame ts ts'
      → Sorted n ts' out
      → Sorted n ts out
  Sorted-after n ts ts' out (kept (o, b, s, l, t, e, banned, memo, u)) (shorter, fresh, frame) = (
    shorter,
    subst (λ bans. All (Fresh bans ts.tool_memo) out.0) banned
        (subst (λ m. All (Fresh ts'.banned_signatures m) out.0) memo fresh),
    Frame-trans (kept (o, b, s, l, t, e, banned, memo, u)) frame,
  )

  sort_call-Sorted :
      (b : Bool) (found : Option MemoEntry) (call : ToolCall) (ts : TurnState)
      (next : TurnState → List ToolCall × TurnState) (n : ℕ)
      → contains ts.banned_signatures (svc.call_signature call) ≡ b
      → get ts.tool_memo (svc.call_signature call) ≡ found
      → ((ts' : TurnState) → Sorted n ts' (next ts'))
      → Sorted (suc n) ts (sort_call svc b found call ts next)
  sort_call-Sorted true found call ts next n hb hm ih =
      let (shorter, fresh, frame) =
        Sorted-after n ts (refuse_banned svc call ts) (next (refuse_banned svc call ts))
          (refuse_banned-Frame call ts) (ih (refuse_banned svc call ts)) in
      (omega (arith, shorter), fresh, frame)
  sort_call-Sorted false (some entry) call ts next n hb hm ih =
      let (shorter, fresh, frame) =
        Sorted-after n ts (reuse_memo svc call entry ts) (next (reuse_memo svc call entry ts))
          (reuse_memo-Frame call entry ts) (ih (reuse_memo svc call entry ts)) in
      (omega (arith, shorter), fresh, frame)
  sort_call-Sorted false none call ts next n hb hm ih =
      let (shorter, fresh, frame) = ih ts in (omega (arith, shorter), ((hb, hm), fresh), frame)

  pub triage-Sorted :
      (calls : List ToolCall) (ts : TurnState) → Sorted (length calls) ts (triage svc calls ts)
  unfolding triage
  triage-Sorted [] ts = (omega arith, tt, kept (same ts))
  triage-Sorted (call ∷ calls) ts =
      sort_call-Sorted (contains ts.banned_signatures (svc.call_signature call))
        (get ts.tool_memo (svc.call_signature call)) call ts (λ ts'. triage svc calls ts')
        (length calls) refl refl (λ ts'. triage-Sorted calls ts')

  note_banned-Frame : (call : ToolCall) (ts : TurnState) → Frame ts (note_banned call ts)
  note_banned-Frame call ts = kept (same ts)

  note_error-Frame : (ts : TurnState) → Frame ts (note_error ts)
  note_error-Frame ts = kept (same ts)

  settle_error-Frame :
      (call : ToolCall) (r : ActionResult) (e : ActionErr) (ts : TurnState)
      → Frame ts (settle_error svc call r e ts)
  unfolding settle_error
  settle_error-Frame call r e ts = log_call-kept call r (appended _ (kept (same ts)))

  settle_success-Grown :
      (call : ToolCall) (r : ActionResult) (ts : TurnState)
      → Grown ts (settle_success svc call r ts)
  unfolding settle_success log_call
  settle_success-Grown call r ts =
      Grown-trans (Frame-Grown (handle_action_success-Frame call r.result r.is_voice_delivery ts))
        (grown (refl, refl, refl, omega arith, refl, refl, refl, refl))

  settle_failure-Grown :
      (critical business enforce : Bool) (call : ToolCall) (r : ActionResult) (e : ActionErr)
      (ts : TurnState) (next : TurnState → Processed)
      → ((ts' : TurnState) → Grown ts' (next ts').state)
      → Grown ts (settle_failure svc critical business enforce call r e ts next).state
  settle_failure-Grown false business enforce call r e ts next ih =
      Grown-trans (Frame-Grown (settle_error-Frame call r e ts)) (ih _)
  settle_failure-Grown true true enforce call r e ts next ih =
      Grown-trans
        (Frame-Grown (
          Frame-trans (settle_error-Frame call r e ts)
            (note_banned-Frame call (settle_error svc call r e ts))))
        (ih (note_banned call (settle_error svc call r e ts)))
  settle_failure-Grown true false true call r e ts next ih =
      Grown-trans (Frame-Grown (settle_error-Frame call r e ts)) (ih (settle_error svc call r e ts))
  settle_failure-Grown true false false call r e ts next ih =
      Frame-Grown (log_call-kept call r (note_error-Frame ts))

  settle_one-Grown :
      (o : Option ActionErr) (call : ToolCall) (r : ActionResult) (ts : TurnState)
      (next : TurnState → Processed)
      → ((ts' : TurnState) → Grown ts' (next ts').state)
      → Grown ts (settle_one svc o call r ts next).state
  settle_one-Grown none call r ts next ih =
      Grown-trans (settle_success-Grown call r ts) (ih (settle_success svc call r ts))
  settle_one-Grown (some e) call r ts next ih =
      settle_failure-Grown r.is_critical (is_business_error e) ts.enforce_voice_delivery call r e ts
        next ih

  pub settle_calls-Grown :
      (calls : List ToolCall) (rs : List ActionResult) (ts : TurnState)
      → Grown ts (settle_calls svc calls rs ts).state
  unfolding settle_calls
  settle_calls-Grown [] rs ts = Frame-Grown (kept (same ts))
  settle_calls-Grown (call ∷ calls) [] ts = Frame-Grown (kept (same ts))
  settle_calls-Grown (call ∷ calls) (r ∷ rs) ts =
      settle_one-Grown r.error call r ts (λ ts'. settle_calls svc calls rs ts')
        (λ ts'. settle_calls-Grown calls rs ts')
