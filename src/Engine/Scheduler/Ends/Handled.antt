-- ===== src/Engine/Scheduler/Ends/Handled.antt =====
-- Handling a finished task adds no work: handleCompletion of core/engine/scheduler.go.
use workflow_execution_engin.Prelude.{
  ◌≤◌, String, ◌≡◌, refl, inl, inr, true, false, not, ◌&&◌, Option, none, some, [], ◌∷◌, arith,
  Bool-cases, Option-cases, is_some, length-append, lookup, insert, at, ℤ, pos, ◌-ℤ◌,
}
use workflow_execution_engin.Domain.Value.{Value, FloatOps}
use workflow_execution_engin.Domain.Workflow.{FailurePolicy, Node}
use workflow_execution_engin.Domain.Error.{
  approval_required, approval_rejected, node_failed, Error, sentinel, wrapped, is,
}
use workflow_execution_engin.Engine.Types.{pending, succeeded, failed, is_running, Completion}
use workflow_execution_engin.Engine.Scheduler.Graph.{Graph}
use workflow_execution_engin.Engine.Scheduler.Coordinator.{
  Coordinator, state_of, halt, cancel_halt, settle,
}
use workflow_execution_engin.Engine.Scheduler.Completion.{
  is_fallback, is_continue, failure_policy_of, failed_outcome, fail_node, fail_for_good, retry_with,
  apply_policy, is_collateral, handle_error, record_success, check_budget, handle_success,
  handle_outcome, handle_completion,
}
use workflow_execution_engin.Engine.Scheduler.Shapes.{halt-Halting}
use workflow_execution_engin.Engine.Scheduler.Ends.Work.{
  is_unset, untried_lowers, closing, work, work-halt, Halting-work, running_is_set, settle-work,
}

module _ (ops : FloatOps) (unmarshal : String → Option Value) (describe : Error → String)
    (g : Graph) where
  abbrev pub Marked : String → Coordinator → Type 0
  Marked id s = is_unset (state_of s id) ≡ false

  -- the work that a change leaves
  abbrev pub Lowers : Coordinator → Coordinator → Type 0
  Lowers s t = work t ≤ work s

  halt-Lowers : (e : Error) (s t : Coordinator) → closing t ≤ work s → Lowers s (halt e t)
  halt-Lowers e s t h = omega (arith, work-halt e t)

  halt_keeps : (e : Error) (s t : Coordinator) → Lowers s t → Lowers s (halt e t)
  halt_keeps e s t h = omega (arith, Halting-work t (halt e t) (halt-Halting e t))

  pub cancel_halt-Lowers : (p : Option Error) (s : Coordinator) → Lowers s (cancel_halt p s)
  unfolding cancel_halt halt
  cancel_halt-Lowers p s = ground arith

  fail_node-Lowers :
      (id : String) (e : Error) (s : Coordinator)
      → Marked id s
      → Lowers s (fail_node ops unmarshal describe g id e s)
  fail_node-Lowers id e s u =
      (settle-work ops unmarshal g id failed
        (record s {
          outcomes = insert id (failed_outcome ops unmarshal describe g failed e) s.outcomes;
        })
        u refl).0

  fail_for_good-Lowers :
      (c : Completion) (e : Error) (pol : FailurePolicy) (s : Coordinator)
      → Marked c.id s
      → Lowers s (fail_for_good ops unmarshal describe g c e pol s)
  unfolding fail_for_good
  fail_for_good-Lowers c e pol s u = elim (Bool-cases (is_continue pol.mode)) [
    | inl h ↦ rw h (fail_node-Lowers c.id e s u)
    | inr h ↦ rw h (
        halt_keeps (wrapped (describe e) (sentinel node_failed)) s
          (fail_node ops unmarshal describe g c.id e s) (fail_node-Lowers c.id e s u))
  ]

  retry_with-Lowers :
      (c : Completion) (fb : Node) (s : Coordinator)
      → Marked c.id s
      → at c.id false s.fb_tried ≡ false
      → Lowers s (retry_with ops unmarshal describe g c fb s)
  retry_with-Lowers c fb s u t = ground (
    arith,
    untried_lowers s.fb_tried c.id s.state u t,
    length-append s.ready
        (record { node = fb; inputs = at c.id [] s.inputs_used; attr_to = c.id } ∷ []),
  )

  apply_policy-Lowers :
      (c : Completion) (e : Error) (s : Coordinator)
      → Marked c.id s
      → Lowers s (apply_policy ops unmarshal describe g c e s)
  unfolding apply_policy
  apply_policy-Lowers c e s u =
      let pol = failure_policy_of c.node in
      elim (Bool-cases (is_fallback pol.mode && not (at c.id false s.fb_tried))) [
        | inr h ↦ rw h (fail_for_good-Lowers c e pol s u)
        | inl h ↦ rw h (elim (Option-cases (lookup pol.fallback_node g.nodes_by_id)) [
          | inl n ↦ rw n (fail_for_good-Lowers c e pol s u)
          | inr (fb, n) ↦ rw n (retry_with-Lowers c fb s u (ground arith))
        ])
      ]

  handle_error-Lowers :
      (p : Option Error) (c : Completion) (e : Error) (s : Coordinator)
      → Marked c.id s
      → Lowers s (handle_error ops unmarshal describe g p c e s)
  unfolding handle_error
  handle_error-Lowers p c e s u = elim (Bool-cases (is approval_required e)) [
    | inl a ↦ rw a (
        halt-Lowers e s
          (record s {
            outcomes = insert c.id (failed_outcome ops unmarshal describe g pending e) s.outcomes;
            state = insert c.id pending s.state;
          })
          (omega arith))
    | inr a ↦ rw a (
        let t = fail_node ops unmarshal describe g c.id e s in
        let h = fail_node-Lowers c.id e s u in
        elim (Bool-cases (is approval_rejected e)) [
          | inl r ↦ rw r (halt_keeps e s t h)
          | inr r ↦ rw r (elim (Bool-cases (is_collateral ops unmarshal describe g p e s)) [
            | inr k ↦ rw k (apply_policy-Lowers c e s u)
            | inl k ↦ rw k (elim (Bool-cases (is_some p)) [
              | inl q ↦ rw q (omega (arith, cancel_halt-Lowers p t))
              | inr q ↦ rw q h
            ])
          ])
        ])
  ]

  check_budget-Lowers :
      (id : String) (ms : ℤ) (s : Coordinator)
      → Lowers s (check_budget ops unmarshal describe g id ms s)
  unfolding check_budget halt
  check_budget-Lowers id ms s = ground arith

  handle_success-Lowers :
      (ms : ℤ) (c : Completion) (s : Coordinator)
      → Marked c.id s
      → Lowers s (handle_success ops unmarshal describe g ms c s)
  unfolding handle_success
  handle_success-Lowers ms c s u =
      let t = record_success ops unmarshal describe g c s in
      omega (
        arith,
        check_budget-Lowers c.id ms (settle ops unmarshal g c.id succeeded t),
        (settle-work ops unmarshal g c.id succeeded t u refl).0,
      )

  handle_outcome-Lowers :
      (p : Option Error) (ms : ℤ) (o : Option Error) (c : Completion) (s : Coordinator)
      → Marked c.id s
      → Lowers s (handle_outcome ops unmarshal describe g p ms o c s)
  unfolding handle_outcome
  handle_outcome-Lowers p ms (some e) c s u = handle_error-Lowers p c e s u
  handle_outcome-Lowers p ms none c s u = handle_success-Lowers ms c s u

  pub work-handle_completion :
      (p : Option Error) (ms : ℤ) (c : Completion) (s : Coordinator)
      → is_running (state_of s c.id) ≡ true
      → work (handle_completion ops unmarshal describe g p ms c s) ≤ work s
  unfolding handle_completion
  work-handle_completion p ms c s r =
      handle_outcome-Lowers p ms c.err c (record s { in_flight = s.in_flight -ℤ pos 1 })
        (running_is_set (state_of s c.id) r)
