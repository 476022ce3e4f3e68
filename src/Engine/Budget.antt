-- ===== src/Engine/Budget.antt =====
-- The token budget of a Spirit: CostEnforcementStep and LedgerUpdateStep
-- (internal/implementation/orchestrator/pipeline_step_cost.go). The alert hook runs in a goroutine of
-- its own; the calls are recorded. The estimated cost is left out.
use eywa.Prelude.{
  ℕ, zero, suc, Bool, true, not, ◌&&◌, none, some, ◌∷◌, String, str_eq, is_empty, ltb,
  if◌then◌else◌,
}
use eywa.Prelude.Int.{le_zero, pos_part}
use eywa.Pipeline.{Outcome, ok}
use eywa.Entities.Spirit.{Spirit, SpiritModel}
use eywa.Engine.State.{Turn, Env, TokenBudget}

abbrev pub blocked_text : String
blocked_text = "Monthly request limit reached. Please try again next month."

unfoldable pub downgrade_model : SpiritModel → Spirit → Turn → Turn
downgrade_model to sp t = record t {
  state = record (t.state) { spirit = some (record sp { model_config = to }) };
}

abbrev note_alert : Bool → String → Turn → Turn
note_alert on name t =
    if on then record t { world = record (t.world) { alerts = name ∷ t.world.alerts } } else t

-- budget.OnExceed once the limit is reached.
unfoldable pub on_exceed : TokenBudget → Spirit → Turn → Turn
unfolding downgrade_model
on_exceed b sp t =
    if str_eq b.on_exceed "block"
    then record t {
      state = record (t.state) {
        response = blocked_text;
        processing_status = "budget_exceeded";
        response_delivered = true;
        skipped = true;
      };
    }
    else if str_eq b.on_exceed "downgrade" && not (is_empty b.downgrade_model.model)
    then downgrade_model b.downgrade_model sp t
    else t

module _ (env : Env) where
  -- The body once the budget and the usage are known.
  unfoldable pub enforce : TokenBudget → ℕ → Spirit → Turn → Turn
  unfolding on_exceed downgrade_model
  enforce b used sp t =
      let at_threshold = b.over_threshold used in
      let t1 = note_alert (at_threshold && env.config.has_alert_hook) sp.name t in
      if ltb used (pos_part b.monthly_token_limit)
      then (if at_threshold && b.downgrade_at_threshold && not (is_empty b.downgrade_model.model)
          then downgrade_model b.downgrade_model sp t1
          else t1)
      else on_exceed b sp (note_alert env.config.has_alert_hook sp.name t1)

  unfoldable pub cost_enforcement : Turn → Outcome Turn
  unfolding enforce
  cost_enforcement t = elim t.state.spirit [
    | none ↦ ok t
    | some sp ↦ if not env.config.has_ledger then ok t else elim (env.get_budget sp.name t.world) [
      | none ↦ ok t
      | some b ↦
          if le_zero b.monthly_token_limit then ok t else (elim (env.month_usage sp.name t.world) [
            | none ↦ ok t
            | some used ↦ ok (enforce b used sp t)
          ])
    ]
  ]

  unfoldable pub ledger_update : Turn → Outcome Turn
  ledger_update t = elim t.state.spirit [
    | none ↦ ok t
    | some sp ↦ if not env.config.has_ledger then ok t else elim t.state.reasoning_result [
      | none ↦ ok t
      | some r ↦ elim r.total_tokens [
        | zero ↦ ok t
        | suc n ↦
            if env.increment_usage t.world
            then ok
                (record t { world = record (t.world) { usage = (sp.name, suc n) ∷ t.world.usage } })
            else ok t
      ]
    ]
  ]
