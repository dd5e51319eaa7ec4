-- ===== src/Engine/Scheduler/Feeding.antt =====
-- What a task is given to work on: the inputs of its node, also where it executes the fallback of
-- that node. core/engine/scheduler.go.
use workflow_execution_engin.Prelude.{
  All, All-append, All-map, Bool-cases, List, Map, Option, Option-cases, String, [], ap, at, false,
  get_elem?, inl, inr, is_some, length, lookup, ltb, map, none, not, pos, refl, some, true, ℕ, ℤ,
  ◌&&◌, ◌++◌, ◌-ℤ◌, ◌||◌, ◌∙◌, ◌∷◌, ◌≡◌,
}
use workflow_execution_engin.Domain.Value.{FloatOps, Value}
use workflow_execution_engin.Domain.Workflow.{Budget, Edge, FailurePolicy, Node, Workflow}
use workflow_execution_engin.Domain.Error.{Error, approval_rejected, approval_required, is}
use mathlib.Core.Path.{subst}
use workflow_execution_engin.Engine.Types.{
  Completion, NodeInput, NodeOutput, NodeResult, Task, failed, succeeded,
}
use workflow_execution_engin.Engine.Budget.{exceeded, new_budget_tracker, should_warn}
use workflow_execution_engin.Engine.Scheduler.Graph.{Graph, build_graph}
use workflow_execution_engin.Engine.Scheduler.Coordinator.{Coordinator, settle}
use workflow_execution_engin.Engine.Scheduler.Completion.{
  apply_policy, check_budget, fail_for_good, fail_node, failure_policy_of, handle_completion,
  handle_error, handle_outcome, handle_success, is_collateral, is_continue, is_fallback,
  record_success,
}
use workflow_execution_engin.Engine.Scheduler.Loop.{
  Move, blank, completion_of, context_done, dispatch, finish, finish_task, move, remove_at,
  seed_node, seeded, start, steps, take_ready,
}
use workflow_execution_engin.Engine.Scheduler.Reachable.{Holds, Holds-if, Holds-some, steps_rule}
use mathlib.Core.List.{foldl}
use workflow_execution_engin.Engine.Scheduler.Dispatch.{build_graph-parents, incoming}
use workflow_execution_engin.Engine.Scheduler.Fed.{
  All-get, All-remove_at, IsFed, Fed, recorded-IsSourced, feed_again, halt-Fed, cancel_halt-Fed,
  settle-Fed, process_decisions-Fed,
}

module _ (ops : FloatOps) (unmarshal : String → Option Value) (describe : Error → String)
    (g : Graph) where
  fail_node-Fed :
      (id : String) (e : Error) (s : Coordinator)
      → Fed g s
      → Fed g (fail_node ops unmarshal describe g id e s)
  fail_node-Fed id e s i = settle-Fed ops unmarshal g id failed _ i

  fail_for_good-Fed :
      (c : Completion) (e : Error) (pol : FailurePolicy) (s : Coordinator)
      → Fed g s
      → Fed g (fail_for_good ops unmarshal describe g c e pol s)
  unfolding fail_for_good
  fail_for_good-Fed c e pol s i = elim (Bool-cases (is_continue pol.mode)) [
    | inl h ↦ rw h (fail_node-Fed c.id e s i)
    | inr h ↦ rw h (halt-Fed g _ _ (fail_node-Fed c.id e s i))
  ]

  apply_policy-Fed :
      (c : Completion) (e : Error) (s : Coordinator)
      → is_some (lookup c.id s.inputs_used) ≡ true
      → Fed g s
      → Fed g (apply_policy ops unmarshal describe g c e s)
  unfolding apply_policy at
  apply_policy-Fed c e s k i =
      let pol = failure_policy_of c.node in
      elim (Bool-cases (is_fallback pol.mode && not (at c.id false s.fb_tried))) [
        | inr h ↦ rw h (fail_for_good-Fed c e pol s i)
        | inl h ↦ rw h (elim (Option-cases (lookup pol.fallback_node g.nodes_by_id)) [
          | inl n ↦ rw n (fail_for_good-Fed c e pol s i)
          | inr (fb, n) ↦ rw n (
              feed_again g (record { node = fb; inputs = at c.id [] s.inputs_used; attr_to = c.id })
                s.ready s.in_pool s.inputs_used
                (recorded-IsSourced g c.id (lookup c.id s.inputs_used) (i.recorded c.id) k, k) i)
        ])
      ]

  handle_error-Fed :
      (p : Option Error) (c : Completion) (e : Error) (s : Coordinator)
      → is_some (lookup c.id s.inputs_used) ≡ true
      → Fed g s
      → Fed g (handle_error ops unmarshal describe g p c e s)
  unfolding handle_error
  handle_error-Fed p c e s k i = elim (Bool-cases (is approval_required e)) [
    | inl a ↦ rw a (halt-Fed g e _ i)
    | inr a ↦ rw a (elim (Bool-cases (is approval_rejected e)) [
      | inl r ↦ rw r (halt-Fed g e _ (fail_node-Fed c.id e s i))
      | inr r ↦ rw r (elim (Bool-cases (is_collateral ops unmarshal describe g p e s)) [
        | inr n ↦ rw n (apply_policy-Fed c e s k i)
        | inl n ↦ rw n (elim (Bool-cases (is_some p)) [
          | inl q ↦ rw q (cancel_halt-Fed g p _ (fail_node-Fed c.id e s i))
          | inr q ↦ rw q (fail_node-Fed c.id e s i)
        ])
      ])
    ])
  ]

  check_budget-Fed :
      (id : String) (ms : ℤ) (s : Coordinator)
      → Fed g s
      → Fed g (check_budget ops unmarshal describe g id ms s)
  unfolding check_budget
  check_budget-Fed id ms s i = elim (Bool-cases (exceeded ops s.budget ms)) [
    | inl x ↦ rw x (halt-Fed g _ _ i)
    | inr x ↦
        rw x (elim (Bool-cases (should_warn ops s.budget ms).0) [ inl w ↦ rw w i | inr w ↦ rw w i ])
  ]

  handle_outcome-Fed :
      (p : Option Error) (ms : ℤ) (o : Option Error) (c : Completion) (s : Coordinator)
      → is_some (lookup c.id s.inputs_used) ≡ true
      → Fed g s
      → Fed g (handle_outcome ops unmarshal describe g p ms o c s)
  unfolding handle_outcome
  handle_outcome-Fed p ms (some e) c s k i = handle_error-Fed p c e s k i
  handle_outcome-Fed p ms none c s k i =
      unfold handle_success in
      check_budget-Fed c.id ms
        (settle ops unmarshal g c.id succeeded (record_success ops unmarshal describe g c s))
        (settle-Fed ops unmarshal g c.id succeeded (record_success ops unmarshal describe g c s) i)

  handle_completion-Fed :
      (p : Option Error) (ms : ℤ) (c : Completion) (s : Coordinator)
      → is_some (lookup c.id s.inputs_used) ≡ true
      → Fed g s
      → Fed g (handle_completion ops unmarshal describe g p ms c s)
  unfolding handle_completion
  handle_completion-Fed p ms c s k i =
      handle_outcome-Fed p ms c.err c (record s { in_flight = s.in_flight -ℤ pos 1 }) k i

  module _ (concurrency : ℕ) where
    take_ready-Fed :
        (q : List Task) (s : Coordinator)
        → s.ready ≡ q
        → Fed g s
        → Holds (Fed g) (take_ready ops unmarshal describe g concurrency q s)
    unfolding take_ready
    take_ready-Fed [] s e i = tt
    take_ready-Fed (t ∷ ts) s e i =
        let w = subst (All (IsFed g s.inputs_used)) e i.waiting in
        Holds-if (Fed g) (not s.halted && ltb (length s.in_pool) concurrency) _ (record {
          waiting = w.1;
          taken = All-append (IsFed g s.inputs_used) s.in_pool (t ∷ []) i.taken (w.0, tt);
          recorded = i.recorded;
        })

    finish_task-Fed :
        (n : ℕ) (res : NodeResult) (failure p : Option Error) (ms : ℤ) (o : Option Task)
        (s : Coordinator)
        → get_elem? s.in_pool n ≡ o
        → Fed g s
        → Holds (Fed g) (finish_task ops unmarshal describe g concurrency n res failure p ms o s)
    unfolding finish_task
    finish_task-Fed n res failure p ms none s e i = tt
    finish_task-Fed n res failure p ms (some t) s e i =
        let c = completion_of ops unmarshal describe g concurrency t res failure in
        let s' = record s { in_pool = remove_at n s.in_pool } in
        process_decisions-Fed ops unmarshal g (handle_completion ops unmarshal describe g p ms c s')
          (handle_completion-Fed p ms c s'
            (All-get (IsFed g s.inputs_used) n s.in_pool t i.taken e).1
            (record {
              waiting = i.waiting;
              taken = All-remove_at (IsFed g s.inputs_used) n s.in_pool i.taken;
              recorded = i.recorded;
            }))

    move-Fed :
        (m : Move) (s : Coordinator)
        → Fed g s
        → Holds (Fed g) (move ops unmarshal describe g concurrency m s)
    unfolding move
    move-Fed dispatch s i = take_ready-Fed s.ready s refl i
    move-Fed (finish n res failure p ms) s i =
        finish_task-Fed n res failure p ms (get_elem? s.in_pool n) s refl i
    move-Fed (context_done p) s i =
        Holds-if (Fed g) (s.ctx_open && (s.ctx_cancelled || is_some p)) _
          (cancel_halt-Fed g p (record s { ctx_open = false }) i)

  seed-Fed :
      (pre : Map NodeOutput) (ns : List Node) (s : Coordinator)
      → Fed g s
      → Fed g (foldl (seed_node pre) s ns)
  seed-Fed pre [] s i = i
  seed-Fed pre (n ∷ ns) s i =
      seed-Fed pre ns (seed_node pre s n) (elim (Option-cases (lookup n.id pre)) [
        | inl q ↦ rw (q, seed_node) i
        | inr (r, q) ↦ rw (q, seed_node) i
      ])

  start-Fed :
      (limit : Budget) (pre : Map NodeOutput) → Fed g (start ops unmarshal describe g limit pre)
  unfolding start lookup
  start-Fed limit pre =
      let i =
        seed-Fed pre g.nodes (blank g (new_budget_tracker ops limit))
          (record { waiting = tt; taken = tt; recorded = λ id. tt }) in
      process_decisions-Fed ops unmarshal g (seeded ops unmarshal describe g limit pre)
        (record { waiting = i.waiting; taken = i.taken; recorded = i.recorded })

  reached-Fed :
      (limit : Budget) (pre : Map NodeOutput) (concurrency : ℕ) (ms : List Move) (s : Coordinator)
      → steps ops unmarshal describe g concurrency ms (start ops unmarshal describe g limit pre)
        ≡ some s
      → Fed g s
  reached-Fed limit pre concurrency ms s e = Holds-some (Fed g) _ s e (
      steps_rule ops unmarshal describe g concurrency (Fed g) (move-Fed concurrency) ms
        (start ops unmarshal describe g limit pre) (start-Fed limit pre))

-- the origins of the inputs of a task are the sources of the edges of the workflow into its node
abbrev pub HasInputs : Workflow → Task → Type 0
HasInputs wf t =
    map (λ (i : NodeInput). i.from_node) t.inputs
    ≡ map (λ (e : Edge). e.source) (incoming wf t.attr_to)

module _ (ops : FloatOps) (unmarshal : String → Option Value) (describe : Error → String)
    (wf : Workflow) (limit : Budget) (pre : Map NodeOutput) (concurrency : ℕ) where
  -- In every state that a run reaches, the nodes that the inputs of a task, ready or taken, name as
  -- their origins are the sources of the edges of the workflow into the node that the task is attributed
  -- to, one for each edge and in their order; also where the task executes the fallback of that node.
  -- (The contents of the inputs are not in the statement.)
  pub dispatched-HasInputs :
      (ms : List Move) (s : Coordinator)
      → steps ops unmarshal describe
          (build_graph wf)
          concurrency
          ms
          (start ops unmarshal describe (build_graph wf) limit pre)
        ≡ some s
      → All (HasInputs wf) (s.ready ++ s.in_pool)
  dispatched-HasInputs ms s e =
      let i = reached-Fed ops unmarshal describe (build_graph wf) limit pre concurrency ms s e in
      All-append (HasInputs wf) s.ready s.in_pool
        (All-map (IsFed (build_graph wf) s.inputs_used) s.ready (sources s.inputs_used) i.waiting)
        (All-map (IsFed (build_graph wf) s.inputs_used) s.in_pool (sources s.inputs_used) i.taken)
    where
      sources :
          (used : Map (List NodeInput)) (t : Task) → IsFed (build_graph wf) used t → HasInputs wf t
      sources used t h =
          h.0 ∙ ap (λ es. map (λ (e : Edge). e.source) es) (build_graph-parents wf t.attr_to)
