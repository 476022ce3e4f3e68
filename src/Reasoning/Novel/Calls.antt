-- ===== src/Reasoning/Novel/Calls.antt =====
-- The calls of one iteration settle what they should (processActionCalls in
-- internal/implementation/orchestrator/reasoning_service.go).
use eywa.Prelude.{
  ◌≡◌, refl, sym, ap, ◌∙◌, subst, Bool, true, false, List, [], ◌∷◌, ◌++◌, All, String, contains,
  none, is_some, if◌then◌else◌, arith, length, ◌==◌,
}
use eywa.Prelude.Maps.{GoMap}
use eywa.Reasoning.Oracle.{ToolCall}
use eywa.Reasoning.Dispatch.{ActionResult}
use eywa.Reasoning.Turn.{MemoEntry, ReasoningService, TurnState}
use eywa.Reasoning.Calls.{
  Processed, mismatched, triage, dispatch, process_action_calls, settle_calls, pair_up,
}
use eywa.Reasoning.Iteration.{noted_outcome}
use eywa.Reasoning.Frame.{Grown, grown}
use eywa.Reasoning.Frame.Calls.{Fresh, triage-Sorted, settle_calls-Grown}
use eywa.Reasoning.Novel.{
  Batch, settled_in, settled, Novel, Noted, Clean, clean, Over, over, contains-append, Quiet, quiet,
  Frame-Quiet,
}
use eywa.Reasoning.Novel.Settle.{Closes, settle_calls-Closes, neither, both_false}

module _ (svc : ReasoningService) (durable : Bool) where
  -- What was not settled before, in a batch of fresh calls.
  pair_up-Novel :
      (own : List Batch) (banned : List String) (memo : GoMap MemoEntry) (calls : List ToolCall)
      (rs : List ActionResult)
      → Noted svc durable own banned memo
      → All (Fresh svc banned memo) calls
      → All
          (λ (p : ToolCall × ActionResult).
            contains (settled svc durable own) (svc.call_signature p.0) ≡ false)
          (pair_up svc calls rs)
  pair_up-Novel own banned memo [] rs noted fresh = tt
  pair_up-Novel own banned memo (c ∷ cs) [] noted ((b, m), fresh) =
      (noted (svc.call_signature c) b m, pair_up-Novel own banned memo cs [] noted fresh)
  pair_up-Novel own banned memo (c ∷ cs) (r ∷ rs) noted ((b, m), fresh) =
      (noted (svc.call_signature c) b m, pair_up-Novel own banned memo cs rs noted fresh)

  closed-Noted :
      (own : List Batch) (batch : Batch) (ts : TurnState) (p : Processed)
      → Noted svc durable own ts.banned_signatures ts.tool_memo
      → p.error ≡ none
      → Closes svc durable ts batch p
      → Noted svc durable (batch ∷ own) (p.banned ++ ts.banned_signatures) p.state.tool_memo
  closed-Noted own batch ts p noted ok (still, closed) s banned memo =
      let (new, old) =
        neither (contains p.banned s) (contains ts.banned_signatures s)
          (sym (contains-append p.banned ts.banned_signatures s) ∙ banned) in
      let (batch_free, before) = closed ok s new memo in
      contains-append (settled_in svc durable batch) (settled svc durable own) s
      ∙ both_false (contains (settled_in svc durable batch) s)
          (contains (settled svc durable own) s) batch_free (noted s old before)

  -- The calls of an iteration after the outcome is written back, with an error or without.
  abbrev pub Handled : List Batch → Processed → Type 0
  Handled base p =
      (p.error ≡ none → Clean svc durable base (noted_outcome svc p))
      × Over svc durable base (noted_outcome svc p)

  settled-Handled :
      (base own : List Batch) (calls : List ToolCall) (rs : List ActionResult) (ts : TurnState)
      (p : Processed)
      → ts.outside.batches ≡ pair_up svc calls rs ∷ own ++ base
      → Novel svc durable (pair_up svc calls rs ∷ own)
      → Noted svc durable own ts.banned_signatures ts.tool_memo
      → Grown ts p.state
      → Closes svc durable ts (pair_up svc calls rs) p
      → Handled base p
  settled-Handled base own calls rs ts p at novel noted (grown (o, b, s, l, t, e, bans, u))
        (still, closed) =
      let batch = pair_up svc calls rs in
      (
        λ ok.
            clean (batch ∷ own) (e ∙ at) novel
              (subst (λ old. Noted svc durable (batch ∷ own) (p.banned ++ old) p.state.tool_memo)
                (sym bans) (closed-Noted own batch ts p noted ok (still, closed)))
              still,
        over (batch ∷ own) (e ∙ at) novel,
      )

  mismatched-Handled :
      (base own : List Batch) (batch : Batch) (ts : TurnState)
      → ts.outside.batches ≡ batch ∷ own ++ base
      → Novel svc durable (batch ∷ own)
      → Handled base (mismatched svc ts)
  mismatched-Handled base own batch ts at novel = (λ ok. cc, over (batch ∷ own) at novel)

  dispatch-logs :
      (calls : List ToolCall) (ts : TurnState)
      → ((dispatch svc calls ts).1.outside.batches
          ≡ pair_up svc calls (dispatch svc calls ts).0 ∷ ts.outside.batches)
        × ((dispatch svc calls ts).1.banned_signatures ≡ ts.banned_signatures)
        × ((dispatch svc calls ts).1.tool_memo ≡ ts.tool_memo)
  unfolding dispatch
  dispatch-logs calls ts = (refl, refl, refl)

  if-Handled :
      (base : List Batch) (b : Bool) (p q : Processed)
      → (b ≡ true → Handled base p)
      → Handled base q
      → Handled base (if b then p else q)
  if-Handled base true p q x y = x refl
  if-Handled base false p q x y = y

  dispatched-Handled :
      (base own : List Batch) (calls : List ToolCall) (ts mid : TurnState) (rs : List ActionResult)
      (ran : TurnState)
      → Quiet ts mid
      → All (Fresh svc ts.banned_signatures ts.tool_memo) calls
      → ts.outside.batches ≡ own ++ base
      → Novel svc durable own
      → Noted svc durable own ts.banned_signatures ts.tool_memo
      → is_some ts.tool_memo ≡ durable
      → ran.outside.batches ≡ pair_up svc calls rs ∷ mid.outside.batches
      → ran.banned_signatures ≡ mid.banned_signatures
      → ran.tool_memo ≡ mid.tool_memo
      → Handled base
          (if length rs == length calls then settle_calls svc calls rs ran else mismatched svc ran)
  dispatched-Handled base own calls ts mid rs ran (quiet e n m) fresh at novel noted d logged bans'
        memo' =
      let batch = pair_up svc calls rs in
      let bans = bans' ∙ n in
      let memo = memo' ∙ m in
      let at' : ran.outside.batches ≡ batch ∷ own ++ base =
        logged ∙ ap (λ bs. batch ∷ bs) (e ∙ at) in
      let novel' : Novel svc durable (batch ∷ own) =
        (pair_up-Novel own ts.banned_signatures ts.tool_memo calls rs noted fresh, novel) in
      let noted' : Noted svc durable own ran.banned_signatures ran.tool_memo =
        subst (λ b. Noted svc durable own b ran.tool_memo) (sym bans)
          (subst (λ m. Noted svc durable own ts.banned_signatures m) (sym memo) noted) in
      let d' : is_some ran.tool_memo ≡ durable = ap (λ (m : GoMap MemoEntry). is_some m) memo ∙ d in
      if-Handled base (length rs == length calls) (settle_calls svc calls rs ran)
        (mismatched svc ran)
        (λ f.
          settled-Handled base own calls rs ran (settle_calls svc calls rs ran) at' novel' noted'
            (settle_calls-Grown svc calls rs ran)
            (settle_calls-Closes svc durable calls rs ran d' (ground (arith, f))))
        (mismatched-Handled base own batch ran at' novel')

  -- Nothing is executed where the first loop panics.
  halted-Handled :
      (base : List Batch) (ts mid : TurnState)
      → Quiet ts mid
      → Clean svc durable base ts
      → Handled base (mismatched svc mid)
  halted-Handled base ts mid (quiet e n m) (clean own at novel noted d) =
      (λ ok. cc, over own (e ∙ at) novel)

  either-Handled :
      (base : List Batch) (b : Bool) (p q : Processed)
      → Handled base p
      → Handled base q
      → Handled base (if b then p else q)
  either-Handled base true p q x y = x
  either-Handled base false p q x y = y

  pub process_action_calls-Handled :
      (base : List Batch) (calls : List ToolCall) (ts : TurnState)
      → Clean svc durable base ts
      → Handled base (process_action_calls svc calls ts)
  unfolding process_action_calls
  process_action_calls-Handled base calls ts (clean own at novel noted d) =
      let sorted = triage svc calls ts in
      let (shorter, fresh, frame) = triage-Sorted svc calls ts in
      let (logged, bans, memo) = dispatch-logs sorted.0 sorted.1 in
      either-Handled base sorted.1.unwinding _ _
        (halted-Handled base ts sorted.1 (Frame-Quiet frame) (clean own at novel noted d))
        (dispatched-Handled base own sorted.0 ts sorted.1 (dispatch svc sorted.0 sorted.1).0
          (dispatch svc sorted.0 sorted.1).1 (Frame-Quiet frame) fresh at novel noted d logged bans
          memo)
