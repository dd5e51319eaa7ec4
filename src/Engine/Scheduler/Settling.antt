-- ===== src/Engine/Scheduler/Settling.antt =====
-- Handling a finished task keeps the account of the outstanding tasks.
use workflow_execution_engin.Prelude.{
  String, ◌≡◌, refl, sym, ◌≢◌, inl, inr, false, not, ◌&&◌, Option, none, some, Bool-cases,
  Option-cases, is_some, Map, lookup, insert, at, at-insert_ne, ℤ, pos, ◌-ℤ◌,
}
use workflow_execution_engin.Domain.Value.{Value, FloatOps}
use workflow_execution_engin.Domain.Workflow.{FailurePolicy}
use workflow_execution_engin.Domain.Error.{approval_required, approval_rejected, Error, is}
use mathlib.Core.Path.{subst}
use workflow_execution_engin.Engine.Types.{
  NodeState, pending, succeeded, failed, is_running, NodeOutput, no_output, Completion,
}
use workflow_execution_engin.Engine.Budget.{exceeded, should_warn}
use workflow_execution_engin.Engine.Scheduler.Graph.{Graph}
use workflow_execution_engin.Engine.Scheduler.Coordinator.{Coordinator, halt, cancel_halt, settle}
use workflow_execution_engin.Engine.Scheduler.Completion.{
  handle_outcome, handle_completion, handle_error, handle_success, apply_policy, fail_for_good,
  record_success, fail_node, check_budget, failure_policy_of, is_continue, is_fallback,
  is_collateral, failed_outcome,
}
use workflow_execution_engin.Engine.Scheduler.Shapes.{settle-Requeued, halt-Halting}
use workflow_execution_engin.Engine.Scheduler.Outstanding.{
  Inv, Left, LeftIn, Left-insert, Left-again,
}

module _ (ops : FloatOps) (unmarshal : String → Option Value) (describe : Error → String)
    (g : Graph) where
  abbrev Kept : Coordinator → Type 0
  Kept = Inv ops unmarshal g

  abbrev Leaving : String → Coordinator → Type 0
  Leaving = LeftIn ops unmarshal g

  halt-Inv : (e : Error) (s : Coordinator) → Kept s → Kept (halt e s)
  halt-Inv e s inv = subst (λ (u : Coordinator). Kept u) (sym (halt-Halting e s).same) inv

  pub cancel_halt-Inv : (p : Option Error) (s : Coordinator) → Kept s → Kept (cancel_halt p s)
  unfolding cancel_halt
  cancel_halt-Inv p s inv = elim (Bool-cases s.halted) [ inl h ↦ rw h inv | inr h ↦ rw h inv ]

  settle-Inv :
      (id : String) (st : NodeState) (output : Map NodeOutput) (s : Coordinator)
      → is_running st ≡ false
      → ((j : String) → id ≢ j → at j no_output s.output ≡ at j no_output output)
      → Left ops unmarshal g id s.state output s.ready s.in_pool s.in_flight
      → Kept (settle ops unmarshal g id st s)
  settle-Inv id st output s n same l =
      subst (λ (u : Coordinator). Kept u) (sym (settle-Requeued ops unmarshal g id st s).same)
        (Left-insert ops unmarshal g id st s.state output s.output s.ready s.in_pool s.in_flight n
          same l)

  fail_node-Inv :
      (id : String) (e : Error) (s : Coordinator)
      → Leaving id s
      → Kept (fail_node ops unmarshal describe g id e s)
  fail_node-Inv id e s l =
      settle-Inv id failed s.output
        (record s {
          outcomes = insert id (failed_outcome ops unmarshal describe g failed e) s.outcomes;
        })
        refl (λ j _. refl) l

  fail_for_good-Inv :
      (c : Completion) (e : Error) (pol : FailurePolicy) (s : Coordinator)
      → Leaving c.id s
      → Kept (fail_for_good ops unmarshal describe g c e pol s)
  unfolding fail_for_good
  fail_for_good-Inv c e pol s l = elim (Bool-cases (is_continue pol.mode)) [
    | inl h ↦ rw h (fail_node-Inv c.id e s l)
    | inr h ↦ rw h (halt-Inv _ _ (fail_node-Inv c.id e s l))
  ]

  apply_policy-Inv :
      (c : Completion) (e : Error) (s : Coordinator)
      → Leaving c.id s
      → Kept (apply_policy ops unmarshal describe g c e s)
  unfolding apply_policy
  apply_policy-Inv c e s l =
      let pol = failure_policy_of c.node in
      elim (Bool-cases (is_fallback pol.mode && not (at c.id false s.fb_tried))) [
        | inr h ↦ rw h (fail_for_good-Inv c e pol s l)
        | inl h ↦ rw h (elim (Option-cases (lookup pol.fallback_node g.nodes_by_id)) [
          | inl n ↦ rw n (fail_for_good-Inv c e pol s l)
          | inr (fb, n) ↦
              rw n (Left-again ops unmarshal g _ s.state s.output s.ready s.in_pool s.in_flight l)
        ])
      ]

  handle_error-Inv :
      (p : Option Error) (c : Completion) (e : Error) (s : Coordinator)
      → Leaving c.id s
      → Kept (handle_error ops unmarshal describe g p c e s)
  unfolding handle_error
  handle_error-Inv p c e s l = elim (Bool-cases (is approval_required e)) [
    | inl a ↦ rw a (
        halt-Inv e _ (
          Left-insert ops unmarshal g c.id pending s.state s.output s.output s.ready s.in_pool
            s.in_flight refl (λ j _. refl) l))
    | inr a ↦ rw a (elim (Bool-cases (is approval_rejected e)) [
      | inl r ↦ rw r (halt-Inv e _ (fail_node-Inv c.id e s l))
      | inr r ↦ rw r (elim (Bool-cases (is_collateral ops unmarshal describe g p e s)) [
        | inr k ↦ rw k (apply_policy-Inv c e s l)
        | inl k ↦ rw k (elim (Bool-cases (is_some p)) [
          | inl q ↦ rw q (cancel_halt-Inv p _ (fail_node-Inv c.id e s l))
          | inr q ↦ rw q (fail_node-Inv c.id e s l)
        ])
      ])
    ])
  ]

  check_budget-Inv :
      (id : String) (ms : ℤ) (s : Coordinator)
      → Kept s
      → Kept (check_budget ops unmarshal describe g id ms s)
  unfolding check_budget
  check_budget-Inv id ms s inv = elim (Bool-cases (exceeded ops s.budget ms)) [
    | inl x ↦ rw x (halt-Inv _ _ inv)
    | inr x ↦
        rw x (elim (Bool-cases (should_warn ops s.budget ms).0) [
          | inl w ↦ rw w inv
          | inr w ↦ rw w inv
        ])
  ]

  handle_success-Inv :
      (ms : ℤ) (c : Completion) (s : Coordinator)
      → Leaving c.id s
      → Kept (handle_success ops unmarshal describe g ms c s)
  unfolding handle_success
  handle_success-Inv ms c s l =
      let out : NodeOutput = record {
        hash = c.res.hash;
        content = c.res.content;
        type = c.res.type;
      } in
      check_budget-Inv c.id ms
        (settle ops unmarshal g c.id succeeded (record_success ops unmarshal describe g c s))
        (settle-Inv c.id succeeded s.output (record_success ops unmarshal describe g c s) refl
          (λ j n. at-insert_ne c.id j out no_output s.output n) l)

  handle_outcome-Inv :
      (p : Option Error) (ms : ℤ) (o : Option Error) (c : Completion) (s : Coordinator)
      → Leaving c.id s
      → Kept (handle_outcome ops unmarshal describe g p ms o c s)
  unfolding handle_outcome
  handle_outcome-Inv p ms (some e) c s l = handle_error-Inv p c e s l
  handle_outcome-Inv p ms none c s l = handle_success-Inv ms c s l

  pub handle_completion-Inv :
      (p : Option Error) (ms : ℤ) (c : Completion) (s : Coordinator)
      → Left ops unmarshal g c.id s.state s.output s.ready s.in_pool (s.in_flight -ℤ pos 1)
      → Kept (handle_completion ops unmarshal describe g p ms c s)
  unfolding handle_completion
  handle_completion-Inv p ms c s l =
      handle_outcome-Inv p ms c.err c (record s { in_flight = s.in_flight -ℤ pos 1 }) l
