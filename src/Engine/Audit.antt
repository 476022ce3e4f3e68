-- ===== src/Engine/Audit.antt =====
-- The audit record of a failed run (runProcessingPipeline and statusFromError in
-- internal/implementation/orchestrator/engine.go).
use eywa.Prelude.{◌≡◌, false, ◌∷◌, str_eq, is_empty, if◌then◌else◌, arith}
use eywa.Errors.{Err, status_from_error}
use eywa.Errors.Laws.{status_from_error-IsFailure}
use eywa.Pipeline.{fail, execute, state_of}
use eywa.Engine.State.{Turn, Env, Chronicle}
use eywa.Engine.Admission.{lock_release}
use eywa.Engine.Answer.{log_interaction}
use eywa.Engine.Run.{runner, build_processing_pipeline, settle, run_processing_pipeline}

-- The record that a failed run is to leave.
abbrev pub failure_record : Err → Turn → Chronicle
failure_record e t = record {
  status = status_from_error e;
  failed_at_step = t.state.pipeline_failed_at_step;
  delivered = t.state.response_delivered;
}

audit-settle :
    (env : Env) (e : Err) (t : Turn)
    → (settle env (fail e t)).1.world.chronicles ≡ (
        if env.log_interaction_up (state_of (lock_release t)).world
        then failure_record e t ∷ t.world.chronicles
        else t.world.chronicles)
unfolding settle log_interaction lock_release
audit-settle env e t = ground (arith, status_from_error-IsFailure e)

-- A run whose pipeline fails writes one audit record more than the pipeline did where the log takes
-- it once the locks are released, and none otherwise, whatever the release did: the record has the
-- status of the error, the step that failed and the delivery flag of the turn, and its status is
-- neither empty nor "success".
pub run_processing_pipeline-audits :
    (env : Env) (t d : Turn) (e : Err)
    → execute (runner env) (build_processing_pipeline env) t ≡ fail e d
    → ((run_processing_pipeline env t).1.world.chronicles ≡ (
        if env.log_interaction_up (state_of (lock_release d)).world
        then failure_record e d ∷ d.world.chronicles
        else d.world.chronicles))
      × (str_eq (status_from_error e) "success" ≡ false)
      × (is_empty (status_from_error e) ≡ false)
unfolding run_processing_pipeline
run_processing_pipeline-audits env t d e h =
    let known = status_from_error-IsFailure e in (rw h (audit-settle env e d), known.1, known.0)
