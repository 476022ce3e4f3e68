-- ===== src/Reasoning/Loop.antt =====
-- The reasoning loop: run and handleMaxIterations
-- (internal/implementation/orchestrator/reasoning_loop.go).
use eywa.Prelude.{ℕ, zero, suc, ◌-◌, Option, none, some, String, if◌then◌else◌}
use eywa.Prelude.Maps.{entries}
use eywa.Errors.{Err, plain}
use eywa.Reasoning.Turn.{Outside, ReasoningRequest, ReasoningService, TurnState}
use eywa.Reasoning.Answer.{synthesize_final}
use eywa.Reasoning.Durable.{
  checkpoint_id, resume_from_checkpoint, save_checkpoint, delete_checkpoint,
}
use eywa.Reasoning.Setup.{new_turn_state}
use eywa.Reasoning.Iteration.{Step, again, finished, failed, panicked, ends_with, run_iteration}

-- How a run ends: with a result, and an error or none.
pub data Ended : Type 0 where
  returned : TurnState → Option Err → Ended
  crashed : TurnState → Ended

module _ (svc : ReasoningService) where
  unfoldable pub handle_max_iterations : TurnState → Ended
  unfolding synthesize_final
  handle_max_iterations ts =
      let forced = synthesize_final svc ts in
      if ts.progress.enabled
      then returned
          (ends_with svc
            (svc.sprintf "max iterations (%d) reached; forced final synthesis" svc.max_iterations)
            (record (forced.1) { result = record (forced.1.result) { final_response = forced.0 } }))
          none
      else returned
          (ends_with svc
            (svc.sprintf "Max iterations (%d) reached without completion" svc.max_iterations)
            (record ts {
              result = record (ts.result) { final_response = svc.max_iterations_message };
            }))
          (some plain)

  abbrev pub dropped : Option String → TurnState → TurnState
  dropped none ts = ts
  dropped (some turn_id) ts = delete_checkpoint svc turn_id ts

  abbrev pub saved : Option String → TurnState → TurnState
  saved none ts = ts
  saved (some turn_id) ts = save_checkpoint svc turn_id ts

  abbrev pub drop_after : Option String → Ended → Ended
  drop_after id (returned ts e) = returned (dropped id ts) e
  drop_after id (crashed ts) = crashed ts

  abbrev pub after_step : Step → Option String → (TurnState → Ended) → Ended
  after_step (again ts) id next = next (saved id ts)
  after_step (finished ts) id next = returned (dropped id ts) none
  after_step (failed e ts) id next = returned ts (some e)
  after_step (panicked ts) id next = crashed ts

  -- The for loop, with the iterations that are left and the number of those begun.
  unfoldable pub loop : ℕ → ℕ → Option String → TurnState → Ended
  unfolding run_iteration handle_max_iterations save_checkpoint delete_checkpoint
  loop zero iteration id ts = drop_after id (handle_max_iterations ts)
  loop (suc left) iteration id ts =
      after_step (run_iteration svc iteration ts) id (λ ts'. loop left (suc iteration) id ts')

  abbrev pub with_memo : Option String → TurnState → TurnState
  with_memo none ts = ts
  with_memo (some turn_id) ts = record ts { tool_memo = some (entries ts.tool_memo) }

  abbrev pub resumed : Option String → TurnState → Option TurnState
  resumed none ts = none
  resumed (some turn_id) ts = resume_from_checkpoint svc turn_id ts

  -- From the first iteration, or after those of the checkpoint.
  abbrev pub begun : Option String → Option TurnState → TurnState → Ended
  begun id none ts = loop svc.max_iterations 0 id (with_memo id ts)
  begun id (some ts') ts =
      loop (svc.max_iterations - ts'.result.iterations_used) ts'.result.iterations_used id
        (with_memo id ts')

  unfoldable pub start_turn : ReasoningRequest → TurnState → Ended
  unfolding checkpoint_id resume_from_checkpoint loop
  start_turn req ts = let id = checkpoint_id svc req in begun id (resumed id ts) ts

  abbrev pub started_run : ReasoningRequest → Option TurnState → Option Ended
  started_run req none = none
  started_run req (some ts) = some (start_turn req ts)

  -- None is the error of an unknown provider.
  unfoldable pub run : ReasoningRequest → Outside → Option Ended
  unfolding new_turn_state start_turn
  run req outside = started_run req (new_turn_state svc req outside)
