-- ===== src/Tests/Steps.antt =====
-- Single steps of the engine and the runner on concrete inputs.
use eywa.Prelude.{◌≡◌, refl, ℕ, suc, ◌+◌, true, false, some, [], ◌∷◌, ◌++◌}
use eywa.Errors.{plain}
use eywa.Pipeline.{
  ok, fail, Step, Runner, run_steps, run_deferred, execute, execute_step, step_error,
}
use eywa.Pipeline.Laws.{execute-first_failure}
use eywa.Entities.Link.{Link, build}
use eywa.Engine.State.{Turn, Env}
use eywa.Engine.Filter.{check_rules}
use eywa.Engine.Filter.Laws.{check_rules-build, first_verdict}
use eywa.Tests.Fixtures.{first_turn, start, hello, chat_link, env_of, plain_config, guide}

-- A pipeline over a counter whose second step fails.
abbrev counting : Runner ℕ
counting = record { late = λ timed n. false; begin = λ n. n; failed_at = λ name n. n + 100 }

abbrev count : Step ℕ
count = record { name = "count"; timeout = 0; execute = λ n. ok (suc n) }

abbrev refuse : Step ℕ
refuse = record { name = "refuse"; timeout = 0; execute = λ n. fail plain (n + 10) }

counted : run_steps counting (count ∷ []) 0 ≡ ok 1
unfolding run_steps execute_step
counted = refl

cleaned_up : run_deferred counting (count ∷ []) 111 ≡ ok 112
unfolding run_deferred execute_step
cleaned_up = refl

execute-first_failure_example :
    execute counting
      (record { steps = count ∷ [] ++ refuse ∷ count ∷ []; deferred_steps = count ∷ [] })
      0
    ≡ fail (step_error counting refuse plain 11) 112
execute-first_failure_example =
    execute-first_failure counting (count ∷ []) (count ∷ []) (count ∷ []) refuse 0 1 11 112 plain
      counted refl cleaned_up

abbrev guarded_link : Link
guarded_link = record chat_link {
  guards = record { field = "contact_phone"; block_list = "569" ∷ []; allow_list = [] } ∷ [];
}

check_rules-build_example :
    check_rules hello (build guarded_link).compiled_rules ≡ first_verdict hello guarded_link.guards
check_rules-build_example = check_rules-build hello guarded_link

abbrev metered : Env
metered = env_of (record plain_config { has_ledger = true }) guide

abbrev guided_turn : Turn
guided_turn = record first_turn { state = record start { spirit = some guide } }
