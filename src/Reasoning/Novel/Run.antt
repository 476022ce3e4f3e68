-- ===== src/Reasoning/Novel/Run.antt =====
-- A whole turn executes no call that it has settled (ReasoningService.run in
-- internal/implementation/orchestrator/reasoning_loop.go).
use eywa.Prelude.{
  ℕ, zero, suc, ◌-◌, ◌≡◌, refl, sym, subst, Bool, true, false, List, [], ◌++◌, String, Option, none,
  some, is_some, if◌then◌else◌, Bool-cases, inl, inr,
}
use eywa.Prelude.Maps.{lookup}
use eywa.Reasoning.Turn.{Outside, ReasoningRequest, ReasoningService, TurnSnapshot, TurnState}
use eywa.Reasoning.Durable.{
  snapshot, restore, restored, found, resume_from_checkpoint, save_checkpoint, stored,
  delete_checkpoint, checkpoint_id,
}
use eywa.Reasoning.Setup.{fresh_turn, new_turn_state}
use eywa.Reasoning.Iteration.{Step}
use eywa.Reasoning.Loop.{
  Ended, returned, crashed, handle_max_iterations, dropped, saved, drop_after, after_step, loop,
  with_memo, resumed, begun, start_turn, started_run, run,
}
use eywa.Reasoning.Bounds.Run.{last}
use eywa.Reasoning.Frame.Gates.{synthesize_final-Frame}
use eywa.Reasoning.Novel.{
  Batch, Novel, Clean, clean, Over, over, Clean-Over, Quiet, quiet, Frame-Quiet, Clean-Quiet,
  Over-Quiet,
}
use eywa.Reasoning.Novel.Iteration.{
  TidyStep, on_again, on_finished, on_failed, on_panicked, run_iteration-Tidy, if-Quiet, unchanged,
  Quiet-trans,
}

module _ (svc : ReasoningService) (durable : Bool) (base : List Batch) where
  -- The turn is over.
  data TidyEnd : Ended → Type 0 where
    tidy : {x : Ended} → Over svc durable base (last x) → TidyEnd x

  stored-Quiet : (id : String) (o : Option String) (ts : TurnState) → Quiet ts (stored svc id o ts)
  stored-Quiet id none ts = unchanged ts
  stored-Quiet id (some bytes) ts =
      if-Quiet (svc.checkpoint_save_up ts.outside) (quiet refl refl refl) (unchanged ts)

  saved-Quiet : (id : Option String) (ts : TurnState) → Quiet ts (saved svc id ts)
  unfolding save_checkpoint
  saved-Quiet none ts = unchanged ts
  saved-Quiet (some id) ts = stored-Quiet id (svc.marshal (snapshot ts)) ts

  dropped-Quiet : (id : Option String) (ts : TurnState) → Quiet ts (dropped svc id ts)
  unfolding delete_checkpoint
  dropped-Quiet none ts = unchanged ts
  dropped-Quiet (some id) ts =
      if-Quiet (svc.checkpoint_delete_up ts.outside) (quiet refl refl refl) (unchanged ts)

  drop_after-Tidy : {x : Ended} (id : Option String) → TidyEnd x → TidyEnd (drop_after svc id x)
  drop_after-Tidy {x = returned ts e} id (tidy h) =
      tidy (Over-Quiet svc durable base (dropped-Quiet id ts) h)
  drop_after-Tidy {x = crashed ts} id (tidy h) = tidy h

  if-Tidy : (b : Bool) {x y : Ended} → TidyEnd x → TidyEnd y → TidyEnd (if b then x else y)
  if-Tidy true p q = p
  if-Tidy false p q = q

  handle_max_iterations-Tidy :
      (ts : TurnState) → Over svc durable base ts → TidyEnd (handle_max_iterations svc ts)
  unfolding handle_max_iterations
  handle_max_iterations-Tidy ts h =
      if-Tidy ts.progress.enabled
        (tidy (
          Over-Quiet svc durable base
            (Quiet-trans (Frame-Quiet (synthesize_final-Frame svc ts)) (quiet refl refl refl)) h))
        (tidy (Over-Quiet svc durable base (quiet refl refl refl) h))

  after_step-Tidy :
      {step : Step} (id : Option String) (next : TurnState → Ended)
      → TidyStep svc durable base step
      → ((ts : TurnState) → Clean svc durable base ts → TidyEnd (next ts))
      → TidyEnd (after_step svc step id next)
  after_step-Tidy id next (on_again {ts} h) ih =
      ih (saved svc id ts) (Clean-Quiet svc durable base (saved-Quiet id ts) h)
  after_step-Tidy id next (on_finished {ts} h) ih =
      tidy (Over-Quiet svc durable base (dropped-Quiet id ts) h)
  after_step-Tidy id next (on_failed h) ih = tidy h
  after_step-Tidy id next (on_panicked h) ih = tidy h

  loop-Tidy :
      (left n : ℕ) (id : Option String) (ts : TurnState)
      → Clean svc durable base ts
      → TidyEnd (loop svc left n id ts)
  unfolding loop
  loop-Tidy zero n id ts h =
      drop_after-Tidy id (handle_max_iterations-Tidy ts (Clean-Over svc durable h))
  loop-Tidy (suc left) n id ts h =
      after_step-Tidy id (λ ts'. loop svc left (suc n) id ts')
        (run_iteration-Tidy svc durable base n ts h) (λ ts' g. loop-Tidy left (suc n) id ts' g)

-- A turn that has executed nothing is clean, whatever is banned or in its memo.
with_memo-Clean :
    (svc : ReasoningService) (id : Option String) (ts : TurnState)
    → (id ≡ none → is_some ts.tool_memo ≡ false)
    → Clean svc (is_some id) ts.outside.batches (with_memo svc id ts)
with_memo-Clean svc none ts h = clean [] refl tt (λ s b m. refl) (h refl)
with_memo-Clean svc (some id) ts h = clean [] refl tt (λ s b m. refl) refl

begun-Tidy :
    (svc : ReasoningService) (id : Option String) (o : Option TurnState) (ts : TurnState)
    (base : List Batch)
    → (id ≡ none → is_some ts.tool_memo ≡ false)
    → (id ≡ none → o ≡ none)
    → ts.outside.batches ≡ base
    → ((ts' : TurnState) → o ≡ some ts' → ts'.outside.batches ≡ base)
    → TidyEnd svc (is_some id) base (begun svc id o ts)
begun-Tidy svc id none ts base fresh resumes at k =
    loop-Tidy svc (is_some id) base svc.max_iterations 0 id (with_memo svc id ts) (
      subst (λ b. Clean svc (is_some id) b (with_memo svc id ts)) at
        (with_memo-Clean svc id ts fresh))
begun-Tidy svc id (some ts') ts base fresh resumes at k =
    loop-Tidy svc (is_some id) base (svc.max_iterations - ts'.result.iterations_used)
      ts'.result.iterations_used id (with_memo svc id ts')
      (subst (λ b. Clean svc (is_some id) b (with_memo svc id ts')) (k ts' refl)
        (with_memo-Clean svc id ts' (λ e. let lost = resumes e in cc)))

restored-batches :
    (o : Option TurnSnapshot) (ts ts' : TurnState)
    → restored o ts ≡ some ts'
    → ts'.outside.batches ≡ ts.outside.batches
unfolding restore
restored-batches none ts ts' r = cc
restored-batches (some snap) ts ts' r =
    let same_turn : ts' ≡ restore snap ts = cc in
    subst (λ (t : TurnState). t.outside.batches ≡ ts.outside.batches) (sym same_turn) refl

found-batches :
    (svc : ReasoningService) (o : Option String) (ts ts' : TurnState)
    → found svc o ts ≡ some ts'
    → ts'.outside.batches ≡ ts.outside.batches
found-batches svc none ts ts' r = cc
found-batches svc (some bytes) ts ts' r = restored-batches (svc.unmarshal bytes) ts ts' r

resumed-batches :
    (svc : ReasoningService) (id : Option String) (ts ts' : TurnState)
    → resumed svc id ts ≡ some ts'
    → ts'.outside.batches ≡ ts.outside.batches
unfolding resume_from_checkpoint
resumed-batches svc none ts ts' r = cc
resumed-batches svc (some id) ts ts' r = elim (Bool-cases (svc.checkpoint_load_up ts.outside)) [
  | inl up ↦ found-batches svc (lookup id ts.outside.checkpoints) ts ts' (
      subst (λ b. (if b then found svc (lookup id ts.outside.checkpoints) ts else none) ≡ some ts')
        up r)
  | inr down ↦
      let lost : ◌≡◌ {A = Option TurnState} none (some ts') =
        subst
          (λ b. (if b then found svc (lookup id ts.outside.checkpoints) ts else none) ≡ some ts')
          down r in
      cc
]

resumed-none :
    (svc : ReasoningService) (id : Option String) (ts : TurnState)
    → id ≡ none
    → resumed svc id ts ≡ none
resumed-none svc none ts e = refl
resumed-none svc (some id) ts e = cc

start_turn-Tidy :
    (svc : ReasoningService) (req : ReasoningRequest) (ts : TurnState)
    → is_some ts.tool_memo ≡ false
    → TidyEnd svc (is_some (checkpoint_id svc req)) ts.outside.batches (start_turn svc req ts)
unfolding start_turn
start_turn-Tidy svc req ts fresh =
    let id = checkpoint_id svc req in
    begun-Tidy svc id (resumed svc id ts) ts ts.outside.batches (λ e. fresh)
      (resumed-none svc id ts) refl (λ ts' r. resumed-batches svc id ts ts' r)

fresh_turn-empty :
    (svc : ReasoningService) (req : ReasoningRequest) (o : Outside)
    → (is_some (fresh_turn svc req o).tool_memo ≡ false)
      × ((fresh_turn svc req o).outside.batches ≡ o.batches)
unfolding fresh_turn
fresh_turn-empty svc req o = (refl, refl)

run-Tidy :
    (svc : ReasoningService) (req : ReasoningRequest) (o : Outside) (x : Ended)
    → run svc req o ≡ some x
    → TidyEnd svc (is_some (checkpoint_id svc req)) o.batches x
unfolding run new_turn_state
run-Tidy svc req o x e =
    let fresh = fresh_turn svc req o in
    let (empty, at) = fresh_turn-empty svc req o in
    elim (Bool-cases (svc.get_provider req.spirit.model_config.provider)) [
      | inl up ↦
          let taken : ◌≡◌ {A = Option Ended} (some (start_turn svc req fresh)) (some x) =
            subst (λ b. started_run svc req (if b then some fresh else none) ≡ some x) up e in
          let ended : start_turn svc req fresh ≡ x = cc in
          subst (λ y. TidyEnd svc (is_some (checkpoint_id svc req)) o.batches y) ended
            (subst (λ b. TidyEnd svc (is_some (checkpoint_id svc req)) b (start_turn svc req fresh))
              at (start_turn-Tidy svc req fresh empty))
      | inr down ↦
          let lost : ◌≡◌ {A = Option Ended} none (some x) =
            subst (λ b. started_run svc req (if b then some fresh else none) ≡ some x) down e in
          cc
    ]

Over-own :
    (svc : ReasoningService) (durable : Bool) (base : List Batch) (x : Ended)
    → TidyEnd svc durable base x
    → (own : List Batch) × (((last x).outside.batches ≡ own ++ base) × Novel svc durable own)
Over-own svc durable base x (tidy (over own at novel)) = (own, (at, novel))

-- A run, resumed or not, never executes a call again whose signature is settled: one that failed critically
-- as a business error in an earlier batch of the run, or, on a durable turn, one that succeeded there, an
-- update of the plan included. The batches that the run executes come on top of those that were there.
pub run-Novel :
    (svc : ReasoningService) (req : ReasoningRequest) (o : Outside) (x : Ended)
    → run svc req o ≡ some x
    → (own : List Batch) × (((last x).outside.batches ≡ own ++ o.batches)
        × Novel svc (is_some (checkpoint_id svc req)) own)
run-Novel svc req o x e =
    Over-own svc (is_some (checkpoint_id svc req)) o.batches x (run-Tidy svc req o x e)
