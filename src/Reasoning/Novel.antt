-- ===== src/Reasoning/Novel.antt =====
-- Which calls a turn does not execute again (processActionCalls in
-- internal/implementation/orchestrator/reasoning_service.go): those whose signature failed critically as a
-- business error, and on a durable turn also those that succeeded.
pub mod Settle
pub mod Calls
pub mod Iteration
pub mod Run
use eywa.Prelude.{
  ◌≡◌, refl, sym, ◌∙◌, subst, Bool, true, false, ◌&&◌, ◌||◌, List, [], ◌∷◌, ◌++◌, All, String,
  contains, Option, none, some, is_some, not, if◌then◌else◌, str_eq, eq_iff, arith,
}
use eywa.Prelude.Maps.{GoMap, get}
use eywa.Errors.Action.{ActionErr, is_business_error}
use eywa.Reasoning.Oracle.{ToolCall}
use eywa.Reasoning.Dispatch.{ActionResult}
use eywa.Reasoning.Turn.{MemoEntry, ReasoningService, TurnState}
use eywa.Reasoning.Frame.{Frame, kept}

abbrev pub Batch : Type 0
Batch = List (ToolCall × ActionResult)

abbrev pub is_business : Option ActionErr → Bool
is_business none = false
is_business (some e) = is_business_error e

-- Whether a result settles its call for the rest of the turn, on a durable turn or another.
abbrev pub settles : Bool → ActionResult → Bool
settles durable r = (r.is_critical && is_business r.error) || (durable && not (is_some r.error))

pub contains-append :
    (xs ys : List String) (s : String) → contains (xs ++ ys) s ≡ (contains xs s || contains ys s)
contains-append [] ys s = refl
contains-append (x ∷ xs) ys s = ground (arith, contains-append xs ys s)

module _ (svc : ReasoningService) (durable : Bool) where
  -- The signatures of the calls of a batch that are settled.
  abbrev pub settled_in : Batch → List String
  settled_in [] = []
  settled_in ((call, r) ∷ rest) =
      if settles durable r then svc.call_signature call ∷ settled_in rest else settled_in rest

  abbrev pub settled : List Batch → List String
  settled [] = []
  settled (b ∷ bs) = settled_in b ++ settled bs

  -- Of batches, newest first: no call of a batch was settled in an earlier one.
  abbrev pub Novel : List Batch → Type 0
  Novel [] = Unit
  Novel (b ∷ bs) =
      All (λ (p : ToolCall × ActionResult). contains (settled bs) (svc.call_signature p.0) ≡ false)
        b
      × Novel bs

  -- The bans and the memo know every call that was settled.
  abbrev pub Noted : List Batch → List String → GoMap MemoEntry → Type 0
  Noted bs banned memo =
      (s : String) → contains banned s ≡ false → get memo s ≡ none → contains (settled bs) s ≡ false

  -- Of a turn that began with the batches `base`.
  pub data Clean (base : List Batch) (ts : TurnState) : Type 0 where
    clean :
        (own : List Batch)
        → ts.outside.batches ≡ own ++ base
        → Novel own
        → Noted own ts.banned_signatures ts.tool_memo
        → is_some ts.tool_memo ≡ durable
        → Clean base ts

  -- The same of a turn that has ended, whose bans are not read again.
  pub data Over (base : List Batch) (ts : TurnState) : Type 0 where
    over : (own : List Batch) → ts.outside.batches ≡ own ++ base → Novel own → Over base ts

  pub Clean-Over : {base : List Batch} {ts : TurnState} → Clean base ts → Over base ts
  Clean-Over (clean own e novel noted d) = over own e novel

-- The batches, the bans and the memo are the same.
pub data Quiet (ts ts' : TurnState) : Type 0 where
  quiet :
      ts'.outside.batches ≡ ts.outside.batches
      → ts'.banned_signatures ≡ ts.banned_signatures
      → ts'.tool_memo ≡ ts.tool_memo
      → Quiet ts ts'

pub Frame-Quiet : {ts ts' : TurnState} → Frame ts ts' → Quiet ts ts'
Frame-Quiet (kept (o, b, s, l, t, e, n, m, u)) = quiet e n m

module _ (svc : ReasoningService) (durable : Bool) (base : List Batch) where
  pub Clean-Quiet :
      {ts ts' : TurnState} → Quiet ts ts' → Clean svc durable base ts → Clean svc durable base ts'
  Clean-Quiet {ts} {ts'} (quiet e n m) (clean own at novel noted d) =
      clean own (e ∙ at) novel
        (subst (λ bans. Noted svc durable own bans ts'.tool_memo) (sym n)
          (subst (λ memo. Noted svc durable own ts.banned_signatures memo) (sym m) noted))
        (subst (λ memo. is_some memo ≡ durable) (sym m) d)

  pub Over-Quiet :
      {ts ts' : TurnState} → Quiet ts ts' → Over svc durable base ts → Over svc durable base ts'
  Over-Quiet (quiet e n m) (over own at novel) = over own (e ∙ at) novel
