-- ===== src/Engine/Budget/Laws.antt =====
-- What the budget tracker of core/engine/budget.go promises.
use workflow_execution_engin.Prelude.{◌≡◌, false, not, ◌&&◌, ◌||◌, arith, ℤ, pos, ◌≤ℤ◌}
use workflow_execution_engin.Domain.Value.{FloatOps}
use workflow_execution_engin.Engine.Budget.{BudgetTracker, exceeded, hits_threshold, should_warn}

module _ (ops : FloatOps) where
  -- A tracker warns exactly where it has not warned yet and a limit is near; then it has warned.
  pub should_warn_exact :
      (b : BudgetTracker) (ms : ℤ)
      → ((should_warn ops b ms).0 ≡ (not b.warned && hits_threshold ops b ms))
        × ((should_warn ops b ms).1.warned ≡ (b.warned || hits_threshold ops b ms))
  unfolding should_warn
  should_warn_exact b ms = ground arith

  -- Without limits nothing is ever exceeded.
  exceeded_unlimited :
      (b : BudgetTracker) (ms : ℤ)
      → ops.less (ops.of_int (pos 0)) b.limit.max_cost_usd ≡ false
      → b.limit.max_tokens ≤ℤ pos 0
      → b.limit.max_duration_ms ≤ℤ pos 0
      → exceeded ops b ms ≡ false
  unfolding exceeded
  exceeded_unlimited b ms c t d = ground arith
