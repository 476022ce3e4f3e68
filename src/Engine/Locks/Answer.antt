-- ===== src/Engine/Locks/Answer.antt =====
-- The steps from the session setup on leave the lock state alone
-- (internal/implementation/orchestrator).
use eywa.Prelude.{arith}
use eywa.Engine.State.{Env}
use eywa.Engine.Session.{session_setup, message_coalescing, mark_executed, typing_stop}
use eywa.Engine.Condition.{condition_evaluation}
use eywa.Engine.Budget.{cost_enforcement, ledger_update}
use eywa.Engine.Routing.{model_routing}
use eywa.Engine.Answer.{
  reasoning_step, notification, output_guard, persistence, response_delivery, audit_log,
}
use eywa.Engine.Locks.{LeavesLocks}

module _ (env : Env) where
  pub session_setup-LeavesLocks : LeavesLocks (session_setup env)
  unfolding session_setup
  session_setup-LeavesLocks t = ground arith

  pub message_coalescing-LeavesLocks : LeavesLocks (message_coalescing env)
  unfolding message_coalescing
  message_coalescing-LeavesLocks t = ground arith

  pub cost_enforcement-LeavesLocks : LeavesLocks (cost_enforcement env)
  unfolding cost_enforcement
  cost_enforcement-LeavesLocks t = ground arith

  pub model_routing-LeavesLocks : LeavesLocks (model_routing env)
  unfolding model_routing
  model_routing-LeavesLocks t = ground arith

  pub condition_evaluation-LeavesLocks : LeavesLocks (condition_evaluation env)
  unfolding condition_evaluation
  condition_evaluation-LeavesLocks t = ground arith

  pub reasoning_step-LeavesLocks : LeavesLocks (reasoning_step env)
  unfolding reasoning_step
  reasoning_step-LeavesLocks t = ground arith

  pub notification-LeavesLocks : LeavesLocks (notification env)
  unfolding notification
  notification-LeavesLocks t = ground arith

  pub output_guard-LeavesLocks : LeavesLocks (output_guard env)
  unfolding output_guard
  output_guard-LeavesLocks t = ground arith

  pub persistence-LeavesLocks : LeavesLocks (persistence env)
  unfolding persistence
  persistence-LeavesLocks t = ground arith

  pub response_delivery-LeavesLocks : LeavesLocks (response_delivery env)
  unfolding response_delivery
  response_delivery-LeavesLocks t = ground arith

  pub audit_log-LeavesLocks : LeavesLocks (audit_log env)
  unfolding audit_log
  audit_log-LeavesLocks t = ground arith

  pub ledger_update-LeavesLocks : LeavesLocks (ledger_update env)
  unfolding ledger_update
  ledger_update-LeavesLocks t = ground arith

  pub mark_executed-LeavesLocks : LeavesLocks (mark_executed env)
  unfolding mark_executed
  mark_executed-LeavesLocks t = ground arith

  pub typing_stop-LeavesLocks : LeavesLocks typing_stop
  unfolding typing_stop
  typing_stop-LeavesLocks t = ground arith
