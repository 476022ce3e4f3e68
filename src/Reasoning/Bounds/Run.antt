-- ===== src/Reasoning/Bounds/Run.antt =====
-- A whole turn stays in its budget (ReasoningService.run in
-- internal/implementation/orchestrator/reasoning_loop.go).
use eywa.Prelude.{
  ℕ, zero, suc, ◌+◌, ◌-◌, ◌≤◌, ◌<◌, ◌≡◌, refl, subst, Bool, true, false, String, Option, none, some,
  Bool-cases, inl, inr, if◌then◌else◌, arith,
}
use eywa.Errors.{Err}
use eywa.Reasoning.Turn.{Outside, ReasoningRequest, ReasoningService, TurnState}
use eywa.Reasoning.Durable.{snapshot, save_checkpoint, stored, delete_checkpoint, checkpoint_id}
use eywa.Reasoning.Setup.{fresh_turn, new_turn_state}
use eywa.Reasoning.Iteration.{Step}
use eywa.Reasoning.Loop.{
  Ended, returned, crashed, handle_max_iterations, dropped, saved, drop_after, after_step, loop,
  with_memo, resumed, begun, start_turn, started_run, run,
}
use eywa.Reasoning.Frame.{Frame, kept, same, Frame-trans, Grown, grown, Frame-Grown}
use eywa.Reasoning.Frame.Gates.{synthesize_final-Frame}
use eywa.Reasoning.Bounds.{executed, Cap, Good, good, Good-Frame, Good-Grown}
use eywa.Reasoning.Bounds.Resume.{Cap-start, resumed-Good}
use eywa.Reasoning.Bounds.Steps.{
  GoodStep, on_again, on_finished, on_failed, on_panicked, ends_with-Frame, with_response-Frame,
}
use eywa.Reasoning.Bounds.Iteration.{run_iteration-Good}

module _ (svc : ReasoningService) (base : ℕ) where
  abbrev limit : ℕ
  limit = svc.max_actions_per_cycle

  -- However the run ends, it is in its budget.
  data Within : Ended → Type 0 where
    within :
        {ts : TurnState} {e : Option Err}
        → Good svc.max_actions_per_cycle base 0 ts
        → Within (returned ts e)
    broken : {ts : TurnState} → Good svc.max_actions_per_cycle base 0 ts → Within (crashed ts)

  if_kept :
      (b : Bool) {ts x y : TurnState} → Frame ts x → Frame ts y → Frame ts (if b then x else y)
  if_kept true f g = f
  if_kept false f g = g

  stored-Frame : (id : String) (o : Option String) (ts : TurnState) → Frame ts (stored svc id o ts)
  stored-Frame id none ts = kept (same ts)
  stored-Frame id (some bytes) ts =
      if_kept (svc.checkpoint_save_up ts.outside) (kept (same ts)) (kept (same ts))

  saved-Frame : (id : Option String) (ts : TurnState) → Frame ts (saved svc id ts)
  unfolding save_checkpoint
  saved-Frame none ts = kept (same ts)
  saved-Frame (some id) ts = stored-Frame id (svc.marshal (snapshot ts)) ts

  dropped-Frame : (id : Option String) (ts : TurnState) → Frame ts (dropped svc id ts)
  unfolding delete_checkpoint
  dropped-Frame none ts = kept (same ts)
  dropped-Frame (some id) ts =
      if_kept (svc.checkpoint_delete_up ts.outside) (kept (same ts)) (kept (same ts))

  drop_after-Within : {x : Ended} (id : Option String) → Within x → Within (drop_after svc id x)
  drop_after-Within id (within {ts} h) = within (Good-Frame (dropped-Frame id ts) h)
  drop_after-Within id (broken h) = broken h

  if-Within : (b : Bool) {x y : Ended} → Within x → Within y → Within (if b then x else y)
  if-Within true p q = p
  if-Within false p q = q

  handle_max_iterations-Within :
      (ts : TurnState)
      → Good svc.max_actions_per_cycle base 0 ts
      → Within (handle_max_iterations svc ts)
  unfolding handle_max_iterations
  handle_max_iterations-Within ts h =
      let L = svc.max_actions_per_cycle in
      if-Within ts.progress.enabled
        (within (
          Good-Frame
            (Frame-trans (synthesize_final-Frame svc ts)
              (Frame-trans (with_response-Frame svc L base _ _) (ends_with-Frame svc L base _ _)))
            h))
        (within (
          Good-Frame
            (Frame-trans (with_response-Frame svc L base svc.max_iterations_message ts)
              (ends_with-Frame svc L base _ _))
            h))

  after_step-Within :
      {step : Step} (id : Option String) (next : TurnState → Ended)
      → GoodStep svc svc.max_actions_per_cycle base step
      → ((ts : TurnState) → Good svc.max_actions_per_cycle base 0 ts → Within (next ts))
      → Within (after_step svc step id next)
  after_step-Within id next (on_again {ts} h) ih =
      ih (saved svc id ts) (Good-Frame (saved-Frame id ts) h)
  after_step-Within id next (on_finished {ts} h) ih = within (Good-Frame (dropped-Frame id ts) h)
  after_step-Within id next (on_failed h) ih = within h
  after_step-Within id next (on_panicked h) ih = broken h

  loop-Within :
      (left n : ℕ) (id : Option String) (ts : TurnState)
      → Good svc.max_actions_per_cycle base 0 ts
      → Within (loop svc left n id ts)
  unfolding loop
  loop-Within zero n id ts h = drop_after-Within id (handle_max_iterations-Within ts h)
  loop-Within (suc left) n id ts h =
      after_step-Within id (λ ts'. loop svc left (suc n) id ts')
        (run_iteration-Good svc base n ts h) (λ ts' h'. loop-Within left (suc n) id ts' h')

  with_memo-Frame : (id : Option String) (ts : TurnState) → Grown ts (with_memo svc id ts)
  with_memo-Frame none ts = Frame-Grown (kept (same ts))
  with_memo-Frame (some id) ts = grown (refl, refl, refl, omega arith, refl, refl, refl, refl)

  begun-Within :
      (id : Option String) (o : Option TurnState) (ts : TurnState)
      → Good svc.max_actions_per_cycle base 0 ts
      → ((ts' : TurnState) → o ≡ some ts' → Good svc.max_actions_per_cycle base 0 ts')
      → Within (begun svc id o ts)
  begun-Within id none ts h k =
      loop-Within svc.max_iterations 0 id (with_memo svc id ts)
        (Good-Grown (with_memo-Frame id ts) h)
  begun-Within id (some ts') ts h k =
      loop-Within (svc.max_iterations - ts'.result.iterations_used) ts'.result.iterations_used id
        (with_memo svc id ts') (Good-Grown (with_memo-Frame id ts') (k ts' refl))

  start_turn-Within :
      (req : ReasoningRequest) (ts : TurnState)
      → executed ts.outside.batches ≡ base
      → Good svc.max_actions_per_cycle base 0 ts
      → Within (start_turn svc req ts)
  unfolding start_turn
  start_turn-Within req ts e h =
      let id = checkpoint_id svc req in
      begun-Within id (resumed svc id ts) ts h (λ ts' r. resumed-Good svc base id ts ts' e r)

pub fresh_turn-Good :
    (svc : ReasoningService) (req : ReasoningRequest) (o : Outside)
    → Good svc.max_actions_per_cycle (executed o.batches) 0 (fresh_turn svc req o)
unfolding fresh_turn
fresh_turn-Good svc req o =
    good (omega arith) (Cap-start svc (executed o.batches) svc.max_actions_per_cycle)

abbrev pub last : Ended → TurnState
last (returned ts e) = ts
last (crashed ts) = ts

untouched :
    (svc : ReasoningService) (req : ReasoningRequest) (o : Outside)
    → executed (fresh_turn svc req o).outside.batches ≡ executed o.batches
unfolding fresh_turn
untouched svc req o = refl

run-Within :
    (svc : ReasoningService) (req : ReasoningRequest) (o : Outside) (x : Ended)
    → run svc req o ≡ some x
    → Within svc (executed o.batches) x
unfolding run new_turn_state
run-Within svc req o x e =
    let fresh = fresh_turn svc req o in
    elim (Bool-cases (svc.get_provider req.spirit.model_config.provider)) [
      | inl up ↦
          let taken : ◌≡◌ {A = Option Ended} (some (start_turn svc req fresh)) (some x) =
            subst (λ b. started_run svc req (if b then some fresh else none) ≡ some x) up e in
          let ended : start_turn svc req fresh ≡ x = cc in
          subst (λ y. Within svc (executed o.batches) y) ended
            (start_turn-Within svc (executed o.batches) req fresh (untouched svc req o)
              (fresh_turn-Good svc req o))
      | inr down ↦
          let lost : ◌≡◌ {A = Option Ended} none (some x) =
            subst (λ b. started_run svc req (if b then some fresh else none) ≡ some x) down e in
          cc
    ]

below : (limit base k : ℕ) → 0 < limit → Cap limit base (k + 0) → k ≤ base + limit
below zero base k p c = absurd (omega (arith, p))
below (suc limit) base k p c = omega (arith, c)

Within-spent :
    (svc : ReasoningService) (base : ℕ) (x : Ended)
    → 0 < svc.max_actions_per_cycle
    → Within svc base x
    → executed (last x).outside.batches ≤ base + svc.max_actions_per_cycle
Within-spent svc base _ p (within {ts} (good spent cap)) =
    below svc.max_actions_per_cycle base (executed ts.outside.batches) p cap
Within-spent svc base _ p (broken {ts} (good spent cap)) =
    below svc.max_actions_per_cycle base (executed ts.outside.batches) p cap

-- Where the limit of Action calls is positive, a run executes no more calls than that limit, whatever the oracle
-- asks for, whatever checkpoint it resumes from, and however it ends.
pub run-budget :
    (svc : ReasoningService) (req : ReasoningRequest) (o : Outside) (x : Ended)
    → 0 < svc.max_actions_per_cycle
    → run svc req o ≡ some x
    → executed (last x).outside.batches ≤ executed o.batches + svc.max_actions_per_cycle
run-budget svc req o x p e = Within-spent svc (executed o.batches) x p (run-Within svc req o x e)
