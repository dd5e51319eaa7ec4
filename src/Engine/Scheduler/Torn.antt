-- ===== src/Engine/Scheduler/Torn.antt =====
-- What the closures of the coordinator do to a halt and to the events Cancelled and BudgetWarning:
-- core/engine/scheduler.go.
use workflow_execution_engin.Prelude.{
  ℕ, ◌≤◌, String, ◌≡◌, refl, sym, ap, ◌∙◌, inl, inr, Bool, true, false, not, ◌&&◌, Option, List, [],
  ◌∷◌, arith, Bool-cases, Option-cases, is_some, count, count-append, lookup, insert, at, ℤ,
}
use workflow_execution_engin.Domain.Value.{Value, Fields, end, FloatOps}
use workflow_execution_engin.Domain.Workflow.{FailurePolicy}
use workflow_execution_engin.Domain.Error.{approval_required, approval_rejected, Error, is}
use mathlib.Core.Path.{subst}
use workflow_execution_engin.Domain.Event
use workflow_execution_engin.Domain.Event.{EventType, is_cancelled}
use workflow_execution_engin.Engine.Types.{
  NodeState, failed, skipped, is_pending, bare_outcome, Completion, Emission,
}
use workflow_execution_engin.Engine.Budget.{BudgetTracker, exceeded, should_warn}
use workflow_execution_engin.Engine.Budget.Laws.{should_warn_exact}
use workflow_execution_engin.Engine.Scheduler.Graph.{Graph}
use workflow_execution_engin.Engine.Scheduler.Coordinator.{
  Coordinator, Decision, state_of, emit, halt, cancel_halt, settle, inspect_edges, conclude, decide,
  process_decisions,
}
use workflow_execution_engin.Engine.Scheduler.Completion.{
  handle_error, apply_policy, fail_for_good, fail_node, check_budget, failure_policy_of,
  is_continue, is_fallback, is_collateral,
}
use workflow_execution_engin.Engine.Scheduler.Shapes.{
  Halting, settle-Requeued, inspect_edges-Halting, halt-Halting, process_decisions_rule,
}
use workflow_execution_engin.Engine.Scheduler.Outstanding.{one_if}

-- the Cancelled events among those emitted
abbrev pub cancellations : List Emission → ℕ
cancellations = count (λ e. is_cancelled e.type)

abbrev pub is_warning : EventType → Bool
is_warning Event.budget_warning = true
is_warning _ = false

-- the BudgetWarning events among those emitted
abbrev pub warnings : List Emission → ℕ
warnings = count (λ e. is_warning e.type)

-- A halted run has a cause, Cancelled is emitted only where it halts the run, and BudgetWarning
-- exactly where the tracker has warned.
pub record Torn (halted : Bool) (cause : Option Error) (emitted : List Emission) (warned : Bool)
    : Type 0 where
  pub exact : halted ≡ is_some cause
  pub once : cancellations emitted ≤ one_if halted
  pub counted : warnings emitted ≡ one_if warned

abbrev pub IsTorn : Coordinator → Type 0
IsTorn s = Torn s.halted s.halt_err s.emitted s.budget.warned

Halting-IsTorn : (s t : Coordinator) → Halting s t → IsTorn s → IsTorn t
Halting-IsTorn s t h i =
    subst (λ (u : Coordinator). IsTorn u) (sym h.same)
      (record {
        exact = h.exact i.exact;
        once = ground (arith, i.once, h.kept);
        counted = i.counted;
      })

halt-IsTorn : (e : Error) (s : Coordinator) → IsTorn s → IsTorn (halt e s)
halt-IsTorn e s i = Halting-IsTorn s (halt e s) (halt-Halting e s) i

emit-IsTorn :
    (t : EventType) (id : String) (p : Fields) (s : Coordinator)
    → is_cancelled t ≡ false
    → is_warning t ≡ false
    → IsTorn s
    → IsTorn (emit t id p s)
emit-IsTorn t id p s n q i = record {
  exact = i.exact;
  once = ground (
    arith,
    i.once,
    count-append (λ (e : Emission). is_cancelled e.type) s.emitted
        (record { type = t; node_id = id; payload = p } ∷ []),
  );
  counted = ground (
    arith,
    i.counted,
    q,
    count-append (λ (e : Emission). is_warning e.type) s.emitted
        (record { type = t; node_id = id; payload = p } ∷ []),
  );
}

-- a warning, with which the tracker notes that it has warned
warn-IsTorn :
    (p : Fields) (b : BudgetTracker) (s : Coordinator)
    → s.budget.warned ≡ false
    → b.warned ≡ true
    → IsTorn s
    → IsTorn (emit Event.budget_warning "" p (record s { budget = b }))
warn-IsTorn p b s n w i = record {
  exact = i.exact;
  once = ground (
    arith,
    i.once,
    count-append (λ (e : Emission). is_cancelled e.type) s.emitted
        (record { type = Event.budget_warning; node_id = ""; payload = p } ∷ []),
  );
  counted = ground (
    arith,
    i.counted,
    n,
    w,
    count-append (λ (e : Emission). is_warning e.type) s.emitted
        (record { type = Event.budget_warning; node_id = ""; payload = p } ∷ []),
  );
}

-- the tracker replaced by one that has warned where it had
same_warned-IsTorn :
    (b : BudgetTracker) (s : Coordinator)
    → b.warned ≡ s.budget.warned
    → IsTorn s
    → IsTorn (record s { budget = b })
same_warned-IsTorn b s h i = record {
  exact = i.exact;
  once = i.once;
  counted = i.counted ∙ ap one_if (sym h);
}

pub cancel_halt-IsTorn : (p : Option Error) (s : Coordinator) → IsTorn s → IsTorn (cancel_halt p s)
unfolding cancel_halt
cancel_halt-IsTorn p s i = record {
  exact = ground (arith, i.exact);
  once = ground (
    arith,
    i.once,
    count-append (λ (e : Emission). is_cancelled e.type) s.emitted
        (record { type = Event.cancelled; node_id = ""; payload = end } ∷ []),
  );
  counted = ground (
    arith,
    i.counted,
    count-append (λ (e : Emission). is_warning e.type) s.emitted
        (record { type = Event.cancelled; node_id = ""; payload = end } ∷ []),
  );
}

module _ (ops : FloatOps) (unmarshal : String → Option Value) (describe : Error → String)
    (g : Graph) where
  pub settle-IsTorn :
      (id : String) (st : NodeState) (s : Coordinator)
      → IsTorn s
      → IsTorn (settle ops unmarshal g id st s)
  settle-IsTorn id st s i =
      subst (λ (u : Coordinator). IsTorn u) (sym (settle-Requeued ops unmarshal g id st s).same) i

  conclude-IsTorn :
      (id : String) (d : Decision) (s : Coordinator)
      → IsTorn s
      → IsTorn (conclude ops unmarshal g id (d, s))
  unfolding conclude
  conclude-IsTorn id d s i = elim (Bool-cases d.active) [
    | inl a ↦ rw a i
    | inr n ↦ rw n (
        settle-IsTorn id skipped
          (record s { outcomes = insert id (bare_outcome skipped) s.outcomes }) i)
  ]

  decide-IsTorn : (id : String) (s : Coordinator) → IsTorn s → IsTorn (decide ops unmarshal g id s)
  unfolding decide
  decide-IsTorn id s i = elim (Bool-cases (is_pending (state_of s id))) [
    | inl p ↦ rw p (
        let es = at id [] g.parents in
        let d0 : Decision = record { active = true; inputs = [] } in
        let (d, t) = inspect_edges ops unmarshal g es (d0, s) in
        conclude-IsTorn id d t
          (Halting-IsTorn s t (inspect_edges-Halting ops unmarshal g es d0 s) i))
    | inr n ↦ rw n i
  ]

  pub process_decisions-IsTorn :
      (s : Coordinator) → IsTorn s → IsTorn (process_decisions ops unmarshal g s)
  process_decisions-IsTorn =
      process_decisions_rule ops unmarshal g IsTorn
        (λ id rest s i. decide-IsTorn id (record s { to_decide = rest }) i)

  fail_node-IsTorn :
      (id : String) (e : Error) (s : Coordinator)
      → IsTorn s
      → IsTorn (fail_node ops unmarshal describe g id e s)
  fail_node-IsTorn id e s i = settle-IsTorn id failed _ i

  fail_for_good-IsTorn :
      (c : Completion) (e : Error) (pol : FailurePolicy) (s : Coordinator)
      → IsTorn s
      → IsTorn (fail_for_good ops unmarshal describe g c e pol s)
  unfolding fail_for_good
  fail_for_good-IsTorn c e pol s i = elim (Bool-cases (is_continue pol.mode)) [
    | inl h ↦ rw h (fail_node-IsTorn c.id e s i)
    | inr h ↦ rw h (halt-IsTorn _ _ (fail_node-IsTorn c.id e s i))
  ]

  apply_policy-IsTorn :
      (c : Completion) (e : Error) (s : Coordinator)
      → IsTorn s
      → IsTorn (apply_policy ops unmarshal describe g c e s)
  unfolding apply_policy
  apply_policy-IsTorn c e s i =
      let pol = failure_policy_of c.node in
      elim (Bool-cases (is_fallback pol.mode && not (at c.id false s.fb_tried))) [
        | inr h ↦ rw h (fail_for_good-IsTorn c e pol s i)
        | inl h ↦ rw h (elim (Option-cases (lookup pol.fallback_node g.nodes_by_id)) [
          | inl n ↦ rw n (fail_for_good-IsTorn c e pol s i)
          | inr (fb, n) ↦ rw n i
        ])
      ]

  pub handle_error-IsTorn :
      (p : Option Error) (c : Completion) (e : Error) (s : Coordinator)
      → IsTorn s
      → IsTorn (handle_error ops unmarshal describe g p c e s)
  unfolding handle_error
  handle_error-IsTorn p c e s i = elim (Bool-cases (is approval_required e)) [
    | inl a ↦ rw a (halt-IsTorn e _ i)
    | inr a ↦ rw a (elim (Bool-cases (is approval_rejected e)) [
      | inl r ↦ rw r (halt-IsTorn e _ (fail_node-IsTorn c.id e s i))
      | inr r ↦ rw r (elim (Bool-cases (is_collateral ops unmarshal describe g p e s)) [
        | inr k ↦ rw k (apply_policy-IsTorn c e s i)
        | inl k ↦ rw k (elim (Bool-cases (is_some p)) [
          | inl q ↦ rw q (cancel_halt-IsTorn p _ (fail_node-IsTorn c.id e s i))
          | inr q ↦ rw q (fail_node-IsTorn c.id e s i)
        ])
      ])
    ])
  ]

  pub check_budget-IsTorn :
      (id : String) (ms : ℤ) (s : Coordinator)
      → IsTorn s
      → IsTorn (check_budget ops unmarshal describe g id ms s)
  unfolding check_budget
  check_budget-IsTorn id ms s i = elim (Bool-cases (exceeded ops s.budget ms)) [
    | inl x ↦ rw x (halt-IsTorn _ _ (emit-IsTorn Event.budget_exceeded "" _ s refl refl i))
    | inr x ↦ rw x (
        let (hit, now) = should_warn_exact ops s.budget ms in
        elim (Bool-cases (should_warn ops s.budget ms).0) [
          | inl w ↦ rw w (
              warn-IsTorn _ (should_warn ops s.budget ms).1 s (ground (arith, hit, w))
                (ground (arith, hit, now, w)) i)
          | inr w ↦
              rw w (
                same_warned-IsTorn (should_warn ops s.budget ms).1 s (ground (arith, hit, now, w))
                  i)
        ])
  ]
