-- ===== src/Engine/Budget.antt =====
-- core/engine/budget.go: the spending of one run. The clock is read by the caller: the methods take
-- the milliseconds since the start.
pub mod Laws
use workflow_execution_engin.Prelude.{
  Bool, true, false, ◌&&◌, ◌||◌, if◌then◌else◌, ℤ, pos, ◌+ℤ◌, leb_ℤ, ltb_ℤ, wrap64,
}
use workflow_execution_engin.Domain.Value.{Float64, float, int, Fields, end, field, FloatOps}
use workflow_execution_engin.Domain.Workflow.{Budget}

pub record BudgetTracker : Type 0 where
  pub limit : Budget
  pub cost : Float64
  pub tokens : ℤ
  pub warned : Bool

-- 0.8, by its bits
abbrev pub warn_threshold : Float64
warn_threshold = 0x3FE999999999999A

module _ (ops : FloatOps) where
  unfoldable pub new_budget_tracker : Budget → BudgetTracker
  new_budget_tracker limit = record {
    limit = limit;
    cost = ops.of_int (pos 0);
    tokens = pos 0;
    warned = false;
  }

  unfoldable pub add : BudgetTracker → Float64 → ℤ → BudgetTracker
  unfolding ◌+ℤ◌ wrap64
  add b cost tokens = record b { cost = ops.add b.cost cost; tokens = wrap64 (b.tokens +ℤ tokens) }

  abbrev pub positive : Float64 → Bool
  positive x = ops.less (ops.of_int (pos 0)) x

  unfoldable pub exceeded : BudgetTracker → (elapsed_ms : ℤ) → Bool
  exceeded b elapsed_ms =
      (positive b.limit.max_cost_usd && ops.less_eq b.limit.max_cost_usd b.cost)
      || (ltb_ℤ (pos 0) b.limit.max_tokens && leb_ℤ b.limit.max_tokens b.tokens)
      || (ltb_ℤ (pos 0) b.limit.max_duration_ms && leb_ℤ b.limit.max_duration_ms elapsed_ms)

  abbrev pub near : (limit spent : ℤ) → Bool
  near limit spent =
      ltb_ℤ (pos 0) limit
      && ops.less_eq (ops.mul warn_threshold (ops.of_int limit)) (ops.of_int spent)

  -- the three tests of shouldWarn
  unfoldable pub hits_threshold : BudgetTracker → (elapsed_ms : ℤ) → Bool
  hits_threshold b elapsed_ms =
      (positive b.limit.max_cost_usd
        && ops.less_eq (ops.mul warn_threshold b.limit.max_cost_usd) b.cost)
      || near b.limit.max_tokens b.tokens
      || near b.limit.max_duration_ms elapsed_ms

  unfoldable pub should_warn : BudgetTracker → (elapsed_ms : ℤ) → Bool × BudgetTracker
  unfolding hits_threshold
  should_warn b elapsed_ms =
      let hit = hits_threshold b elapsed_ms in
      if b.warned
      then (false, b)
      else if hit
      then (true, record b { warned = true })
      else (false, b)

-- the payload that BudgetWarning and BudgetExceeded share
unfoldable pub status : BudgetTracker → (elapsed_ms : ℤ) → Fields
status b elapsed_ms = field "spentCostUsd" (float b.cost) (
    field "spentTokens" (int b.tokens) (
      field "elapsedMs" (int elapsed_ms) (
        field "maxCostUsd" (float b.limit.max_cost_usd) (
          field "maxTokens" (int b.limit.max_tokens)
            (field "maxDurationMs" (int b.limit.max_duration_ms) end)))))
