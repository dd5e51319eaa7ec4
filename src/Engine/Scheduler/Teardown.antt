-- ===== src/Engine/Scheduler/Teardown.antt =====
-- How a run is halted: once, for its first cause, and with at most one Cancelled event; and how often
-- it warns about its budget.
use workflow_execution_engin.Prelude.{
  ℕ, ◌≤◌, String, ◌≡◌, refl, false, not, ◌&&◌, ◌||◌, Option, none, some, List, [], ◌∷◌, arith, ltb,
  is_some, length, get_elem?, Map, ℤ, pos, ◌-ℤ◌,
}
use workflow_execution_engin.Domain.Value.{Value, FloatOps}
use workflow_execution_engin.Domain.Workflow.{Node, Budget}
use workflow_execution_engin.Domain.Error.{Error}
use workflow_execution_engin.Engine.Types.{succeeded, NodeResult, NodeOutput, Task, Completion}
use workflow_execution_engin.Engine.Budget.{add, new_budget_tracker}
use workflow_execution_engin.Engine.Scheduler.Graph.{Graph}
use workflow_execution_engin.Engine.Scheduler.Coordinator.{Coordinator, settle}
use workflow_execution_engin.Engine.Scheduler.Completion.{
  handle_outcome, handle_completion, handle_success, record_success,
}
use workflow_execution_engin.Engine.Scheduler.Loop.{
  seed_node, blank, seeded, start, Move, dispatch, finish, context_done, remove_at, take_ready,
  finish_task, completion_of, move, steps,
}
use workflow_execution_engin.Engine.Scheduler.Outstanding.{one_if}
use workflow_execution_engin.Engine.Scheduler.Reachable.{Holds, Holds-some, Holds-if, steps_rule}
use mathlib.Core.List.{foldl}
use workflow_execution_engin.Engine.Scheduler.Torn.{
  cancellations, warnings, IsTorn, cancel_halt-IsTorn, process_decisions-IsTorn,
  handle_error-IsTorn, check_budget-IsTorn, settle-IsTorn,
}

module _ (ops : FloatOps) (unmarshal : String → Option Value) (describe : Error → String)
    (g : Graph) where
  handle_outcome-IsTorn :
      (p : Option Error) (ms : ℤ) (o : Option Error) (c : Completion) (s : Coordinator)
      → IsTorn s
      → IsTorn (handle_outcome ops unmarshal describe g p ms o c s)
  unfolding handle_outcome
  handle_outcome-IsTorn p ms (some e) c s i = handle_error-IsTorn ops unmarshal describe g p c e s i
  handle_outcome-IsTorn p ms none c s i =
      unfold handle_success in
      check_budget-IsTorn ops unmarshal describe g c.id ms
        (settle ops unmarshal g c.id succeeded (record_success ops unmarshal describe g c s))
        (settle-IsTorn ops unmarshal describe g c.id succeeded
          (record_success ops unmarshal describe g c s)
          (record { exact = i.exact; once = i.once; counted = unfold add in i.counted }))

  handle_completion-IsTorn :
      (p : Option Error) (ms : ℤ) (c : Completion) (s : Coordinator)
      → IsTorn s
      → IsTorn (handle_completion ops unmarshal describe g p ms c s)
  unfolding handle_completion
  handle_completion-IsTorn p ms c s i =
      handle_outcome-IsTorn p ms c.err c (record s { in_flight = s.in_flight -ℤ pos 1 }) i

  module _ (concurrency : ℕ) where
    take_ready-IsTorn :
        (q : List Task) (s : Coordinator)
        → IsTorn s
        → Holds IsTorn (take_ready ops unmarshal describe g concurrency q s)
    unfolding take_ready
    take_ready-IsTorn [] s i = tt
    take_ready-IsTorn (t ∷ ts) s i =
        Holds-if IsTorn (not s.halted && ltb (length s.in_pool) concurrency) _ i

    finish_task-IsTorn :
        (n : ℕ) (res : NodeResult) (failure p : Option Error) (ms : ℤ) (o : Option Task)
        (s : Coordinator)
        → IsTorn s
        → Holds IsTorn (finish_task ops unmarshal describe g concurrency n res failure p ms o s)
    unfolding finish_task
    finish_task-IsTorn n res failure p ms none s i = tt
    finish_task-IsTorn n res failure p ms (some t) s i =
        let c = completion_of ops unmarshal describe g concurrency t res failure in
        let s' = record s { in_pool = remove_at n s.in_pool } in
        process_decisions-IsTorn ops unmarshal describe g
          (handle_completion ops unmarshal describe g p ms c s')
          (handle_completion-IsTorn p ms c s' i)

    move-IsTorn :
        (m : Move) (s : Coordinator)
        → IsTorn s
        → Holds IsTorn (move ops unmarshal describe g concurrency m s)
    unfolding move
    move-IsTorn dispatch s i = take_ready-IsTorn s.ready s i
    move-IsTorn (finish n res failure p ms) s i =
        finish_task-IsTorn n res failure p ms (get_elem? s.in_pool n) s i
    move-IsTorn (context_done p) s i =
        Holds-if IsTorn (s.ctx_open && (s.ctx_cancelled || is_some p)) _
          (cancel_halt-IsTorn p (record s { ctx_open = false }) i)

module _ (pre : Map NodeOutput) where
  seed_node-IsTorn : (s : Coordinator) (n : Node) → IsTorn s → IsTorn (seed_node pre s n)
  seed_node-IsTorn s n i = record {
    exact = ground (arith, i.exact);
    once = ground (arith, i.once);
    counted = ground (arith, i.counted);
  }

  seed-IsTorn : (ns : List Node) (s : Coordinator) → IsTorn s → IsTorn (foldl (seed_node pre) s ns)
  seed-IsTorn [] s i = i
  seed-IsTorn (n ∷ ns) s i = seed-IsTorn ns (seed_node pre s n) (seed_node-IsTorn s n i)

module _ (ops : FloatOps) (unmarshal : String → Option Value) (describe : Error → String)
    (g : Graph) (concurrency : ℕ) where
  start-IsTorn :
      (limit : Budget) (pre : Map NodeOutput) → IsTorn (start ops unmarshal describe g limit pre)
  unfolding start
  start-IsTorn limit pre =
      let i = seed-IsTorn pre g.nodes (blank g (new_budget_tracker ops limit)) (record {
        exact = refl;
        once = omega arith;
        counted = unfold new_budget_tracker in refl;
      }) in
      process_decisions-IsTorn ops unmarshal describe g (seeded ops unmarshal describe g limit pre)
        (record { exact = i.exact; once = i.once; counted = i.counted })

  run_kept :
      (limit : Budget) (pre : Map NodeOutput) (ms : List Move) (s : Coordinator)
      → steps ops unmarshal describe g concurrency ms (start ops unmarshal describe g limit pre)
        ≡ some s
      → IsTorn s
  run_kept limit pre ms s e = Holds-some IsTorn _ s e (
      steps_rule ops unmarshal describe g concurrency IsTorn
        (move-IsTorn ops unmarshal describe g concurrency) ms
        (start ops unmarshal describe g limit pre) (start-IsTorn limit pre))

  -- In every state that a run reaches, it is halted exactly where a cause is recorded, at most one
  -- Cancelled event was emitted, and none while the run is not halted.
  pub reached-IsTorn :
      (limit : Budget) (pre : Map NodeOutput) (ms : List Move) (s : Coordinator)
      → steps ops unmarshal describe g concurrency ms (start ops unmarshal describe g limit pre)
        ≡ some s
      → (s.halted ≡ is_some s.halt_err) × (cancellations s.emitted ≤ one_if s.halted)
  reached-IsTorn limit pre ms s e = let i = run_kept limit pre ms s e in (i.exact, i.once)

  -- In every state that a run reaches, one BudgetWarning event was emitted if the tracker has warned,
  -- and none otherwise: a run warns about its budget at most once.
  pub warned_once :
      (limit : Budget) (pre : Map NodeOutput) (ms : List Move) (s : Coordinator)
      → steps ops unmarshal describe g concurrency ms (start ops unmarshal describe g limit pre)
        ≡ some s
      → warnings s.emitted ≡ one_if s.budget.warned
  warned_once limit pre ms s e = (run_kept limit pre ms s e).counted
