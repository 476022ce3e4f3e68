-- ===== src/Reasoning/Iteration/Outcome.antt =====
-- How an iteration ends (reasoning_loop.go of internal/implementation/orchestrator).
use eywa.Prelude.{String}
use eywa.Errors.{Err}
use eywa.Reasoning.Turn.{ReasoningService, TurnState}

-- How an iteration ends.
pub data Step : Type 0 where
  again finished : TurnState → Step
  failed : Err → TurnState → Step
  panicked : TurnState → Step

module _ (svc : ReasoningService) where
  abbrev pub ends_with : String → TurnState → TurnState
  ends_with e ts = record ts {
    result = record (ts.result) { final_error = e; final_session = ts.req.session };
  }
