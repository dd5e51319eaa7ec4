-- ===== src/Engine/Scheduler/Ends/Runs.antt =====
-- How long a run can be, and that it never waits for nothing: core/engine/scheduler.go.
use workflow_execution_engin.Prelude.{
  ℕ, zero, suc, ◌+◌, ◌*◌, ◌≤◌, ◌<◌, String, ◌≡◌, refl, Bool, true, false, Option, some, List, [],
  ◌∷◌, arith, is_some, length, get_elem?, Map, insert, ℤ, pos,
}
use workflow_execution_engin.Domain.Value.{Value, FloatOps}
use workflow_execution_engin.Domain.Workflow.{Node, Budget}
use workflow_execution_engin.Domain.Error.{Error}
use mathlib.Core.List.{foldl}
use mathlib.Core.Path.{subst}
use native.Mathlib.Nat.{le_trans}
use workflow_execution_engin.Engine.Types.{
  NodeState, pending, succeeded, NodeResult, NodeOutput, Task,
}
use workflow_execution_engin.Engine.Budget.{new_budget_tracker}
use workflow_execution_engin.Engine.Scheduler.Graph.{Graph}
use workflow_execution_engin.Engine.Scheduler.Coordinator.{Coordinator, pending_count}
use workflow_execution_engin.Engine.Scheduler.Loop.{
  seeded, finish_task, seed_node, blank, start, Move, dispatch, finish, is_active, nonempty,
  take_ready, move, step, steps,
}
use workflow_execution_engin.Engine.Scheduler.Reachable.{Holds-some, reached-Inv, start-Good}
use workflow_execution_engin.Engine.Scheduler.Ends.Work.{untried, work, work-process_decisions}
use workflow_execution_engin.Engine.Scheduler.Ends.Bound.{steps_bound}

length-insert :
    {V : Type 0} (k : String) (v : V) (m : Map V) → length (insert k v m) ≤ suc (length m)
unfolding insert
length-insert k v [] = omega arith
length-insert k v ((j, w) ∷ m) = ground (arith, length-insert k v m)

pending_count_bound : (m : Map NodeState) → pending_count m ≤ length m
unfolding pending_count
pending_count_bound [] = omega arith
pending_count_bound ((k, st) ∷ m) = ground (arith, pending_count_bound m)

untried_bound : (fb : Map Bool) (m : Map NodeState) → untried fb m ≤ length m
unfolding untried
untried_bound fb [] = omega arith
untried_bound fb ((k, st) ∷ m) = ground (arith, untried_bound fb m)

-- what seeding leaves, with at most so many states
record SeededWithin (n : ℕ) (s : Coordinator) : Type 0 where
  states : length s.state ≤ n
  none_ready : s.ready ≡ []
  none_taken : s.in_pool ≡ []
  running_on : s.halted ≡ false

seed_node-SeededWithin :
    (pre : Map NodeOutput) (n : ℕ) (s : Coordinator) (node : Node)
    → SeededWithin n s
    → SeededWithin (suc n) (seed_node pre s node)
seed_node-SeededWithin pre n s node h = record {
  states = ground (
    arith,
    h.states,
    length-insert node.id succeeded s.state,
    length-insert node.id pending s.state,
  );
  none_ready = ground (arith, h.none_ready);
  none_taken = ground (arith, h.none_taken);
  running_on = ground (arith, h.running_on);
}

seed-SeededWithin :
    (pre : Map NodeOutput) (ns : List Node) (n k : ℕ) (s : Coordinator)
    → n + length ns ≡ k
    → SeededWithin n s
    → SeededWithin k (foldl (seed_node pre) s ns)
seed-SeededWithin pre [] n k s e h = subst (λ j. SeededWithin j s) (omega arith) h
seed-SeededWithin pre (node ∷ ns) n k s e h =
    seed-SeededWithin pre ns (suc n) k (seed_node pre s node) (omega arith)
      (seed_node-SeededWithin pre n s node h)

SeededWithin-work : (n : ℕ) (s : Coordinator) → SeededWithin n s → work s ≤ 6 * n + 1
SeededWithin-work n s h =
    rw (h.none_ready, h.none_taken, h.running_on)
      (ground (arith, h.states, pending_count_bound s.state, untried_bound s.fb_tried s.state))

module _ (ops : FloatOps) (unmarshal : String → Option Value) (describe : Error → String)
    (g : Graph) (limit : Budget) (pre : Map NodeOutput) where
  abbrev first : Coordinator
  first = start ops unmarshal describe g limit pre

  start_work : work first ≤ 6 * length g.nodes + 1
  unfolding start
  start_work =
      let b = blank g (new_budget_tracker ops limit) in
      let t = foldl (seed_node pre) b g.nodes in
      let h = seed-SeededWithin pre g.nodes 0 (length g.nodes) b (omega arith) (record {
        states = omega arith;
        none_ready = refl;
        none_taken = refl;
        running_on = refl;
      }) in
      le_trans (work-process_decisions ops unmarshal g (seeded ops unmarshal describe g limit pre))
        (SeededWithin-work (length g.nodes) t h)

  module _ (concurrency : ℕ) where
    abbrev reach : List Move → Option Coordinator
    reach ms = steps ops unmarshal describe g concurrency ms first

    -- The coordinator loop ends: whatever the executors return, in whatever order, and wherever the
    -- run is cancelled, it takes at most six rounds for each node, and one more.
    pub run_bound :
        (ms : List Move) (s : Coordinator) → reach ms ≡ some s → length ms ≤ 6 * length g.nodes + 1
    run_bound ms s e = omega (
      arith,
      start_work,
      Holds-some (λ (t : Coordinator). length ms + work t ≤ work first) (reach ms) s e
          (steps_bound ops unmarshal describe g concurrency ms first
            (start-Good ops unmarshal describe g limit pre)),
    )

    -- the task of the pool, of which there is one
    in_range : (i : ℕ) (ts : List Task) → i < length ts → (t : Task) × (get_elem? ts i ≡ some t)
    in_range i [] h = absurd (omega arith)
    in_range zero (t ∷ ts) h = (t, refl)
    in_range (suc i) (t ∷ ts) h = in_range i ts (omega arith)

    -- a finished task of the pool is handled
    finish_is_some :
        (i : ℕ) (res : NodeResult) (failure p : Option Error) (ms_taken : ℤ) (s : Coordinator)
        → is_active s ≡ true
        → i < length s.in_pool
        → is_some (step ops unmarshal describe g concurrency (finish i res failure p ms_taken) s)
          ≡ true
    unfolding step move finish_task
    finish_is_some i res failure p ms_taken s a h =
        let (t, q) = in_range i s.in_pool h in rw (a, q) refl

    -- an idle worker takes the first of the ready tasks
    take_is_some :
        (ts : List Task) (s : Coordinator)
        → 0 < concurrency
        → nonempty ts ≡ true
        → s.halted ≡ false
        → length s.in_pool ≡ 0
        → is_some (take_ready ops unmarshal describe g concurrency ts s) ≡ true
    unfolding take_ready
    take_is_some [] s c n h e = ground arith
    take_is_some (t ∷ ts) s c n h e = ground arith

    -- without a task in the pool the loop goes on for a ready one
    idle_ready :
        (s : Coordinator)
        → s.in_flight ≡ pos (length s.in_pool)
        → is_active s ≡ true
        → length s.in_pool ≡ 0
        → (nonempty s.ready ≡ true) × (s.halted ≡ false)
    unfolding is_active
    idle_ready s k a e = ground arith

    -- The loop never waits for nothing: in a state that a run reaches, and in which the loop goes on,
    -- any task of the pool can finish with any result or error; and where the pool is empty, a ready
    -- task can be dispatched.
    pub run_progress :
        (ms : List Move) (s : Coordinator)
        → 0 < concurrency
        → reach ms ≡ some s
        → is_active s ≡ true
        → ((i : ℕ) (res : NodeResult) (failure p : Option Error) (ms_taken : ℤ)
            → i < length s.in_pool
            → is_some
                (step ops unmarshal describe g concurrency (finish i res failure p ms_taken) s)
              ≡ true)
          × (length s.in_pool ≡ 0
              → is_some (step ops unmarshal describe g concurrency dispatch s) ≡ true)
    unfolding step move
    run_progress ms s c e a =
        let inv = reached-Inv ops unmarshal describe g limit pre concurrency ms s e in
        (
          λ i res failure p ms_taken h. finish_is_some i res failure p ms_taken s a h,
          λ h. let r = idle_ready s inv.counted a h in rw a (take_is_some s.ready s c r.0 r.1 h),
        )
