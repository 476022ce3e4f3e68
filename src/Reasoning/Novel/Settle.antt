-- ===== src/Reasoning/Novel/Settle.antt =====
-- What the results of a batch leave in the bans and the memo (the second loop of processActionCalls in
-- internal/implementation/orchestrator/reasoning_service.go).
use eywa.Prelude.{
  ◌≡◌, refl, sym, ◌∙◌, subst, Bool, true, false, ◌&&◌, ◌||◌, List, [], ◌∷◌, String, contains,
  Option, none, some, is_some, not, if◌then◌else◌, str_eq, arith, Bool-cases, inl, inr, length,
}
use eywa.Prelude.Maps.{GoMap, get, lookup, lookup-insert}
use eywa.Errors.Action.{ActionErr, is_business_error}
use eywa.Reasoning.Oracle.{ToolCall}
use eywa.Reasoning.Dispatch.{ActionResult}
use eywa.Reasoning.Turn.{MemoEntry, ReasoningService, TurnState}
use eywa.Reasoning.Calls.{
  Processed, memoize, note_banned, settle_success, settle_error, settle_failure, settle_one,
  settle_calls, pair_up, handle_action_success, log_call,
}
use eywa.Reasoning.Novel.{Batch, settles, is_business, settled_in}

memoized :
    (svc : ReasoningService) (sig : String) (entry : MemoEntry) (memo : GoMap MemoEntry)
    (s : String)
    → get (memoize svc sig entry memo) s ≡ none
    → (get memo s ≡ none) × (is_some memo ≡ true → str_eq sig s ≡ false)
unfolding memoize lookup
memoized svc sig entry none s h = (refl, λ e. cc)
memoized svc sig entry (some m) s h = elim (Bool-cases (str_eq sig s)) [
  | inl e ↦
      let taken : (if str_eq sig s then some entry else lookup s m) ≡ none =
        sym (lookup-insert sig s entry m) ∙ h in
      let lost : some entry ≡ none =
        subst (λ b. (if b then some entry else lookup s m) ≡ none) e taken in
      cc
  | inr e ↦
      let left : (if str_eq sig s then some entry else lookup s m) ≡ none =
        sym (lookup-insert sig s entry m) ∙ h in
      (subst (λ b. (if b then some entry else lookup s m) ≡ none) e left, λ d. e)
]

memoize-is_some :
    (svc : ReasoningService) (sig : String) (entry : MemoEntry) (memo : GoMap MemoEntry)
    → is_some (memoize svc sig entry memo) ≡ is_some memo
unfolding memoize
memoize-is_some svc sig entry none = refl
memoize-is_some svc sig entry (some m) = refl

pub neither : (a b : Bool) → (a || b) ≡ false → (a ≡ false) × (b ≡ false)
neither false b h = (refl, h)
neither true b h = cc

pub both_false : (a b : Bool) → a ≡ false → b ≡ false → (a || b) ≡ false
both_false false b x y = y
both_false true b x y = cc

module _ (svc : ReasoningService) (durable : Bool) where
  -- A batch whose calls the bans and the memo of p know, and the memo that was there before.
  abbrev pub Closes : TurnState → Batch → Processed → Type 0
  Closes ts b p =
      (is_some p.state.tool_memo ≡ durable)
      × (p.error ≡ none
          → (s : String) → contains p.banned s ≡ false
          → get p.state.tool_memo s ≡ none
          → (contains (settled_in svc durable b) s ≡ false) × (get ts.tool_memo s ≡ none))

  settled_in-cons :
      (call : ToolCall) (r : ActionResult) (rest : Batch) (s : String)
      → (settles durable r ≡ true → str_eq (svc.call_signature call) s ≡ false)
      → contains (settled_in svc durable rest) s ≡ false
      → contains (settled_in svc durable ((call, r) ∷ rest)) s ≡ false
  settled_in-cons call r rest s other h = elim (Bool-cases (settles durable r)) [
    | inl e ↦ let differs = other e in rw (e, differs) h
    | inr e ↦ rw e h
  ]

  -- Of a call that stays open.
  open_call :
      (r : ActionResult) (e : ActionErr)
      → r.error ≡ some e
      → (r.is_critical && is_business_error e) ≡ false
      → settles durable r ≡ false
  open_call r e he h = rw he (ground (arith, h))

  settle_success-Closes :
      (call : ToolCall) (r : ActionResult) (ts : TurnState) (rest : Batch) (p : Processed)
      → is_some ts.tool_memo ≡ durable
      → r.error ≡ none
      → Closes (settle_success svc call r ts) rest p
      → Closes ts ((call, r) ∷ rest) p
  unfolding settle_success log_call handle_action_success
  settle_success-Closes call r ts rest p d he (still, closed) = (
    still,
    λ ok s banned memo.
        let (old, left) = closed ok s banned memo in
        let (before, other) =
          memoized svc (svc.call_signature call)
            (record { result = r.result; is_voice_delivery = r.is_voice_delivery }) ts.tool_memo s
            left in
        (settled_in-cons call r rest s (λ e. other (d ∙ only_durable e)) old, before),
  )
    where
      only_durable : settles durable r ≡ true → durable ≡ true
      only_durable e =
          let e' : (r.is_critical && false || (durable && true)) ≡ true =
            subst
              (λ (o : Option ActionErr).
                (r.is_critical && is_business o || (durable && not (is_some o))) ≡ true)
              he e in
          ground (arith, e')

  -- A call that failed and is neither banned nor the last.
  open-Closes :
      (call : ToolCall) (r : ActionResult) (e : ActionErr) (ts ts' : TurnState) (rest : Batch)
      (p : Processed)
      → r.error ≡ some e
      → (r.is_critical && is_business_error e) ≡ false
      → ts'.tool_memo ≡ ts.tool_memo
      → Closes ts' rest p
      → Closes ts ((call, r) ∷ rest) p
  open-Closes call r e ts ts' rest p he free same_memo (still, closed) = (
    still,
    λ ok s banned memo.
        let (old, before) = closed ok s banned memo in
        let unsettled = open_call r e he free in
        (
          settled_in-cons call r rest s (λ t. cc) old,
          subst (λ (m : GoMap MemoEntry). get m s ≡ none) same_memo before,
        ),
  )

  banned-Closes :
      (call : ToolCall) (r : ActionResult) (ts ts' : TurnState) (rest : Batch) (p : Processed)
      → ts'.tool_memo ≡ ts.tool_memo
      → Closes ts' rest p
      → Closes ts ((call, r) ∷ rest) (record p { banned = svc.call_signature call ∷ p.banned })
  banned-Closes call r ts ts' rest p same_memo (still, closed) = (
    still,
    λ ok s banned memo.
        let (differs, later) =
          neither (str_eq (svc.call_signature call) s) (contains p.banned s) banned in
        let (old, before) = closed ok s later memo in
        (
          settled_in-cons call r rest s (λ t. differs) old,
          subst (λ (m : GoMap MemoEntry). get m s ≡ none) same_memo before,
        ),
  )

  settle_error-memo :
      (call : ToolCall) (r : ActionResult) (e : ActionErr) (ts : TurnState)
      → (settle_error svc call r e ts).tool_memo ≡ ts.tool_memo
  unfolding settle_error log_call
  settle_error-memo call r e ts = refl

  settle_success-memo :
      (call : ToolCall) (r : ActionResult) (ts : TurnState)
      → is_some (settle_success svc call r ts).tool_memo ≡ is_some ts.tool_memo
  unfolding settle_success log_call handle_action_success
  settle_success-memo call r ts = memoize-is_some svc (svc.call_signature call) _ ts.tool_memo

  settle_failure-Closes :
      (critical business enforce : Bool) (call : ToolCall) (r : ActionResult) (e : ActionErr)
      (ts : TurnState) (next : TurnState → Processed) (rest : Batch)
      → is_some ts.tool_memo ≡ durable
      → r.error ≡ some e
      → (r.is_critical && is_business_error e) ≡ (critical && business)
      → ((ts' : TurnState) → is_some ts'.tool_memo ≡ durable → Closes ts' rest (next ts'))
      → Closes ts ((call, r) ∷ rest) (settle_failure svc critical business enforce call r e ts next)
  unfolding settle_error log_call
  settle_failure-Closes false business enforce call r e ts next rest d he free ih =
      open-Closes call r e ts (settle_error svc call r e ts) rest
        (next (settle_error svc call r e ts)) he free refl (ih (settle_error svc call r e ts) d)
  settle_failure-Closes true true enforce call r e ts next rest d he free ih =
      banned-Closes call r ts (note_banned call (settle_error svc call r e ts)) rest
        (next (note_banned call (settle_error svc call r e ts))) refl
        (ih (note_banned call (settle_error svc call r e ts)) d)
  settle_failure-Closes true false true call r e ts next rest d he free ih =
      open-Closes call r e ts (settle_error svc call r e ts) rest
        (next (settle_error svc call r e ts)) he free refl (ih (settle_error svc call r e ts) d)
  settle_failure-Closes true false false call r e ts next rest d he free ih =
      (d, λ ok s banned memo. cc)

  settle_one-Closes :
      (o : Option ActionErr) (call : ToolCall) (r : ActionResult) (ts : TurnState)
      (next : TurnState → Processed) (rest : Batch)
      → is_some ts.tool_memo ≡ durable
      → r.error ≡ o
      → ((ts' : TurnState) → is_some ts'.tool_memo ≡ durable → Closes ts' rest (next ts'))
      → Closes ts ((call, r) ∷ rest) (settle_one svc o call r ts next)
  settle_one-Closes none call r ts next rest d he ih =
      settle_success-Closes call r ts rest (next (settle_success svc call r ts)) d he
        (ih (settle_success svc call r ts) (settle_success-memo call r ts ∙ d))
  settle_one-Closes (some e) call r ts next rest d he ih =
      settle_failure-Closes r.is_critical (is_business_error e) ts.enforce_voice_delivery call r e
        ts next rest d he refl ih

  -- All results are there, and the batch is closed unless an error stops the turn.
  pub settle_calls-Closes :
      (calls : List ToolCall) (rs : List ActionResult) (ts : TurnState)
      → is_some ts.tool_memo ≡ durable
      → length rs ≡ length calls
      → Closes ts (pair_up svc calls rs) (settle_calls svc calls rs ts)
  unfolding settle_calls
  settle_calls-Closes [] rs ts d e = (d, λ ok s banned memo. (refl, memo))
  settle_calls-Closes (call ∷ calls) [] ts d e = absurd (omega (arith, e))
  settle_calls-Closes (call ∷ calls) (r ∷ rs) ts d e =
      settle_one-Closes r.error call r ts (λ ts'. settle_calls svc calls rs ts')
        (pair_up svc calls rs) d refl
        (λ ts' d'. settle_calls-Closes calls rs ts' d' (omega (arith, e)))
