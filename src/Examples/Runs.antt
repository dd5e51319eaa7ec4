-- ===== src/Examples/Runs.antt =====
-- A run of the sample workflow: its first node is executed, and then its second is taken.
use workflow_execution_engin.Prelude.{
  All, ◌++◌, ℕ, ℤ, ◌*◌, ◌+◌, ◌≤◌, ◌<◌, String, ◌≡◌, refl, ◌≢◌, ◌↔◌, true, Option, none, some, List,
  [], ◌∷◌, arith, is_some, is_distinct, ◌-◌, length, lookup, insert, at, pos, ◌-ℤ◌,
}
use workflow_execution_engin.Domain.Value.{FloatOps}
use workflow_execution_engin.Domain.Workflow.{Budget}
use workflow_execution_engin.Domain.Error.{Error, approval_required, cancelled, sentinel, is}
use workflow_execution_engin.Engine.Types.{NodeResult, unset, pending, is_pending, is_running}
use workflow_execution_engin.Engine.Conditional.{eval_condition}
use workflow_execution_engin.Engine.Budget.{new_budget_tracker}
use workflow_execution_engin.Engine.Scheduler.Graph.{Graph, build_graph}
use workflow_execution_engin.Engine.Scheduler.Coordinator.{Coordinator, state_of, process_decisions}
use workflow_execution_engin.Engine.Scheduler.Loop.{
  blank, start, Move, dispatch, finish, is_active, step, steps, finalize, skip_unused, judge,
}
use workflow_execution_engin.Engine.Scheduler.Shapes.{Allowed}
use workflow_execution_engin.Engine.Scheduler.Outstanding.{tasks_of, one_if}
use workflow_execution_engin.Engine.Scheduler.Dispatch.{
  incoming, dispatched-Allowed, dispatched_once,
}
use workflow_execution_engin.Engine.Scheduler.Teardown.{reached-IsTorn, warned_once}
use workflow_execution_engin.Engine.Scheduler.Torn.{cancellations, warnings}
use workflow_execution_engin.Engine.Scheduler.Verdict.{
  any_state, is_incomplete, finalize_incomplete, judge_halted,
}
use workflow_execution_engin.Engine.Scheduler.Feeding.{HasInputs, dispatched-HasInputs}
use workflow_execution_engin.Engine.Scheduler.Success.{names, is_settled, finalize_succeeded}
use workflow_execution_engin.Examples.Samples.{whole, flag, pipeline, yes_result, say, no_budget}
use workflow_execution_engin.Domain.Event.{execution_succeeded, execution_paused, execution_failed}
use workflow_execution_engin.Engine.Scheduler.Drains.{process_decisions_drains}
use workflow_execution_engin.Engine.Scheduler.Ends.Runs.{run_bound, run_progress}

abbrev first_moves : List Move
first_moves = dispatch ∷ finish 0 yes_result none none (pos 5) ∷ dispatch ∷ []

abbrev plan : Graph
plan = build_graph pipeline

abbrev or_blank : Option Coordinator → Coordinator
or_blank none = blank plan (new_budget_tracker whole no_budget)
or_blank (some s) = s

abbrev halfway : Coordinator
halfway =
    or_blank (steps whole flag say plan 1 first_moves (start whole flag say plan no_budget []))

halfway_reached :
    steps whole flag say plan 1 first_moves (start whole flag say plan no_budget []) ≡ some halfway
unfolding steps start build_graph lookup insert at ◌-ℤ◌ eval_condition
halfway_reached = refl

write_taken : 0 < tasks_of "write" halfway.ready + tasks_of "write" halfway.in_pool
unfolding steps start build_graph lookup insert at ◌-ℤ◌ eval_condition
write_taken = omega arith

dispatched-Allowed_example :
    Allowed whole flag halfway.state halfway.output (incoming pipeline "write")
dispatched-Allowed_example =
    dispatched-Allowed whole flag say pipeline no_budget [] 1 first_moves halfway "write"
      halfway_reached write_taken

dispatched-HasInputs_example : All (HasInputs pipeline) (halfway.ready ++ halfway.in_pool)
dispatched-HasInputs_example =
    dispatched-HasInputs whole flag say pipeline no_budget [] 1 first_moves halfway halfway_reached

dispatched_once_example :
    ((id : String)
      → tasks_of id halfway.ready + tasks_of id halfway.in_pool
        ≡ one_if (is_running (at id unset halfway.state)))
    × (halfway.in_flight ≡ pos (length halfway.in_pool))
dispatched_once_example =
    dispatched_once whole flag say pipeline no_budget [] 1 first_moves halfway halfway_reached

reached-IsTorn_example :
    (halfway.halted ≡ is_some halfway.halt_err)
    × (cancellations halfway.emitted ≤ one_if halfway.halted)
reached-IsTorn_example =
    reached-IsTorn whole flag say plan 1 no_budget [] first_moves halfway halfway_reached

-- a budget of two dollars, near which one dollar is
abbrev coarse : FloatOps
coarse = record whole { mul = λ x y. y - 1 }

abbrev two_dollars : Budget
two_dollars = record no_budget { max_cost_usd = 2 }

abbrev near_limit : Coordinator
near_limit =
    or_blank (steps coarse flag say plan 1 first_moves (start coarse flag say plan two_dollars []))

near_limit_reached :
    steps coarse flag say plan 1 first_moves (start coarse flag say plan two_dollars [])
    ≡ some near_limit
unfolding steps start build_graph lookup insert at ◌-ℤ◌ eval_condition
near_limit_reached = refl

near_limit_warned : near_limit.budget.warned ≡ true
unfolding steps start build_graph lookup insert at ◌-ℤ◌ eval_condition
near_limit_warned = refl

warned_once_example : warnings near_limit.emitted ≡ one_if near_limit.budget.warned
warned_once_example =
    warned_once coarse flag say plan 1 two_dollars [] first_moves near_limit near_limit_reached

halfway_distinct : is_distinct (names halfway.state) ≡ true
unfolding steps start build_graph lookup insert at ◌-ℤ◌ eval_condition
halfway_distinct = refl

finalize_succeeded_example : ((finalize plan "run" halfway).0.state ≡ execution_succeeded) ↔ (
    (halfway.halt_err ≡ none)
    × ((id : String)
        → is_settled (is_some (lookup id plan.fallback_only)) (state_of halfway id) ≡ true))
finalize_succeeded_example = finalize_succeeded plan "run" halfway halfway_distinct

-- a cycle of two nodes, of which none ever starts
abbrev stuck : Coordinator
stuck = record (blank plan (new_budget_tracker whole no_budget)) {
  state = ("plan", pending) ∷ ("write", pending) ∷ [];
}

stuck_waits : any_state is_pending (skip_unused plan.fallback_only stuck).state ≡ true
unfolding skip_unused build_graph lookup insert
stuck_waits = refl

finalize_incomplete_example : is_incomplete (finalize plan "run" stuck).1 ≡ true
finalize_incomplete_example = finalize_incomplete plan "run" stuck refl stuck_waits

judge_halted_example :
    ((judge (some (sentinel cancelled)) stuck.state).0 ≢ execution_succeeded)
    × ((judge (some (sentinel cancelled)) stuck.state).2 ≡ some (sentinel cancelled))
    × (((judge (some (sentinel cancelled)) stuck.state).0 ≡ execution_paused)
        ↔ (is approval_required (sentinel cancelled) ≡ true))
    × ((judge (some (sentinel cancelled)) stuck.state).1 ≡ true
        → (judge (some (sentinel cancelled)) stuck.state).0 ≡ execution_failed)
judge_halted_example = judge_halted (sentinel cancelled) stuck.state

process_decisions_drains_example :
    (process_decisions whole flag plan
      (record stuck { to_decide = "plan" ∷ "write" ∷ [] })).to_decide
    ≡ []
process_decisions_drains_example =
    process_decisions_drains whole flag plan (record stuck { to_decide = "plan" ∷ "write" ∷ [] })

run_bound_example : length first_moves ≤ 6 * length plan.nodes + 1
run_bound_example = run_bound whole flag say plan no_budget [] 1 first_moves halfway halfway_reached

goes_on : is_active halfway ≡ true
unfolding is_active steps start build_graph lookup insert at ◌-ℤ◌ eval_condition
goes_on = refl

run_progress_example :
    ((i : ℕ) (res : NodeResult) (failure p : Option Error) (ms_taken : ℤ)
      → i < length halfway.in_pool
      → is_some (step whole flag say plan 1 (finish i res failure p ms_taken) halfway) ≡ true)
    × (length halfway.in_pool ≡ 0 → is_some (step whole flag say plan 1 dispatch halfway) ≡ true)
run_progress_example =
    run_progress whole flag say plan no_budget [] 1 first_moves halfway (omega arith)
      halfway_reached goes_on
