-- ===== src/Reasoning/Bounds.antt =====
-- The counts of a turn (reasoning_loop.go of
-- internal/implementation/orchestrator): what keeps the budget of Actions.
pub mod Steps
pub mod Iteration
pub mod Resume
pub mod Run
use eywa.Prelude.{
  ℕ, zero, suc, ◌+◌, ◌≤◌, ◌≡◌, refl, sym, subst, ◌∙◌, Bool, true, false, List, [], ◌∷◌, ◌++◌,
  length, All, Option, none, some, arith,
}
use eywa.Reasoning.Oracle.{ToolCall}
use eywa.Reasoning.Dispatch.{ActionResult}
use eywa.Reasoning.Turn.{Outside, TurnState}
use eywa.Reasoning.Frame.{Frame, Frame-Grown, Grown, grown}

-- How many calls were executed.
abbrev pub executed : List (List (ToolCall × ActionResult)) → ℕ
executed [] = 0
executed (b ∷ bs) = length b + executed bs

-- Without a limit on calls there is no cap.
abbrev pub Cap : ℕ → ℕ → ℕ → Type 0
Cap zero base n = Unit
Cap (suc limit) base n = n ≤ base + suc limit

pub Cap-mono : (limit base m n : ℕ) → m ≤ n → Cap limit base n → Cap limit base m
Cap-mono zero base m n le h = tt
Cap-mono (suc limit) base m n le h = omega (arith, le, h)

-- A turn in which `base` calls were executed before, under a limit of calls, with room for k more.
pub data Good (limit base k : ℕ) (ts : TurnState) : Type 0 where
  good :
      executed ts.outside.batches + k ≤ base + ts.total_action_calls
      → Cap limit base (executed ts.outside.batches + k)
      → Good limit base k ts

pub Good-Grown :
    {limit base k : ℕ} {ts ts' : TurnState}
    → Grown ts ts'
    → Good limit base k ts
    → Good limit base k ts'
Good-Grown {limit} {base} {k} {ts} {ts'} (grown (o, b, s, l, t, e, bans, u)) (good spent cap) =
    good
      (subst (λ bs. executed bs + k ≤ base + ts'.total_action_calls) (sym e)
        (omega (arith, t, spent)))
      (subst (λ bs. Cap limit base (executed bs + k)) (sym e) cap)

pub Good-Frame :
    {limit base k : ℕ} {ts ts' : TurnState}
    → Frame ts ts'
    → Good limit base k ts
    → Good limit base k ts'
Good-Frame f h = Good-Grown (Frame-Grown f) h
