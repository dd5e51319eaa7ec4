-- ===== src/Engine/Scheduler/Verdict.antt =====
-- What the final state of a run says of its nodes: "Finalize" of core/engine/scheduler.go.
use workflow_execution_engin.Prelude.{
  String, ◌≡◌, refl, sym, ap, ◌∙◌, ◌≢◌, ◌↔◌, inl, inr, Bool, true, false, ◌||◌, Option, none, some,
  List, [], ◌∷◌, arith, if◌then◌else◌, Bool-cases, is_some, Map, lookup, insert,
}
use workflow_execution_engin.Domain.Workflow.{Node}
use workflow_execution_engin.Domain.Error.{approval_required, incomplete_graph, Error, is}
use workflow_execution_engin.Domain.Event.{
  ExecutionState, execution_succeeded, execution_failed, execution_paused,
}
use workflow_execution_engin.Engine.Types.{
  NodeState, unset, pending, running, succeeded, failed, skipped, is_pending, is_failed,
  bare_outcome,
}
use workflow_execution_engin.Engine.Scheduler.Graph.{Graph}
use workflow_execution_engin.Engine.Scheduler.Coordinator.{Coordinator, state_of}
use workflow_execution_engin.Engine.Scheduler.Loop.{
  skip_unused, fill_outcomes, skip_one, scan_states, judge, finalize, incomplete_error,
}

-- some node of the map is in such a state
abbrev pub any_state : (NodeState → Bool) → Map NodeState → Bool
any_state p [] = false
any_state p ((id, st) ∷ m) = p st || any_state p m

abbrev pub is_open : NodeState → Bool
is_open st = is_pending st || is_failed st

scan_states-failed :
    (m : Map NodeState) (e : Option Error)
    → (scan_states m (execution_failed, e)).0 ≡ execution_failed
unfolding scan_states
scan_states-failed [] e = refl
scan_states-failed ((id, pending) ∷ m) e = scan_states-failed m (some (incomplete_error id))
scan_states-failed ((id, failed) ∷ m) e = scan_states-failed m e
scan_states-failed ((id, unset) ∷ m) e = scan_states-failed m e
scan_states-failed ((id, running) ∷ m) e = scan_states-failed m e
scan_states-failed ((id, succeeded) ∷ m) e = scan_states-failed m e
scan_states-failed ((id, skipped) ∷ m) e = scan_states-failed m e

scan_states-state :
    (m : Map NodeState) (e : Option Error)
    → (scan_states m (execution_succeeded, e)).0
      ≡ (if any_state is_open m then execution_failed else execution_succeeded)
unfolding scan_states
scan_states-state [] e = refl
scan_states-state ((id, pending) ∷ m) e = scan_states-failed m (some (incomplete_error id))
scan_states-state ((id, failed) ∷ m) e = scan_states-failed m e
scan_states-state ((id, unset) ∷ m) e = scan_states-state m e
scan_states-state ((id, running) ∷ m) e = scan_states-state m e
scan_states-state ((id, succeeded) ∷ m) e = scan_states-state m e
scan_states-state ((id, skipped) ∷ m) e = scan_states-state m e

abbrev pub is_incomplete : Option Error → Bool
is_incomplete none = false
is_incomplete (some e) = is incomplete_graph e

scan_states-keeps :
    (m : Map NodeState) (r : ExecutionState × Option Error)
    → is_incomplete r.1 ≡ true
    → is_incomplete (scan_states m r).1 ≡ true
unfolding scan_states is
scan_states-keeps [] r h = h
scan_states-keeps ((id, pending) ∷ m) (st, e) h =
    scan_states-keeps m (execution_failed, some (incomplete_error id)) refl
scan_states-keeps ((id, failed) ∷ m) (st, e) h = scan_states-keeps m (execution_failed, e) h
scan_states-keeps ((id, unset) ∷ m) r h = scan_states-keeps m r h
scan_states-keeps ((id, running) ∷ m) r h = scan_states-keeps m r h
scan_states-keeps ((id, succeeded) ∷ m) r h = scan_states-keeps m r h
scan_states-keeps ((id, skipped) ∷ m) r h = scan_states-keeps m r h

scan_states_waiting :
    (m : Map NodeState) (r : ExecutionState × Option Error)
    → any_state is_pending m ≡ true
    → is_incomplete (scan_states m r).1 ≡ true
unfolding scan_states is
scan_states_waiting [] r h = cc
scan_states_waiting ((id, pending) ∷ m) (st, e) h =
    scan_states-keeps m (execution_failed, some (incomplete_error id)) refl
scan_states_waiting ((id, failed) ∷ m) (st, e) h = scan_states_waiting m (execution_failed, e) h
scan_states_waiting ((id, unset) ∷ m) r h = scan_states_waiting m r h
scan_states_waiting ((id, running) ∷ m) r h = scan_states_waiting m r h
scan_states_waiting ((id, succeeded) ∷ m) r h = scan_states_waiting m r h
scan_states_waiting ((id, skipped) ∷ m) r h = scan_states_waiting m r h

skip_one-halt_err : (id : String) (s : Coordinator) → (skip_one id s).halt_err ≡ s.halt_err
unfolding skip_one
skip_one-halt_err id s = ground arith

skip_unused-halt_err : (fb : Map Bool) (s : Coordinator) → (skip_unused fb s).halt_err ≡ s.halt_err
unfolding skip_unused
skip_unused-halt_err [] s = refl
skip_unused-halt_err ((id, b) ∷ fb) s =
    skip_unused-halt_err fb (skip_one id s) ∙ skip_one-halt_err id s

record FillsOnly (s t : Coordinator) : Type 0 where
  state : t.state ≡ s.state
  halt_err : t.halt_err ≡ s.halt_err

fill_outcomes-FillsOnly : (ns : List Node) (s : Coordinator) → FillsOnly s (fill_outcomes ns s)
unfolding fill_outcomes
fill_outcomes-FillsOnly [] s = record { state = refl; halt_err = refl }
fill_outcomes-FillsOnly (n ∷ ns) s = elim (Bool-cases (is_some (lookup n.id s.outcomes))) [
  | inl p ↦ rw p (fill_outcomes-FillsOnly ns s)
  | inr q ↦ rw q (
      let h =
        fill_outcomes-FillsOnly ns
          (record s { outcomes = insert n.id (bare_outcome (state_of s n.id)) s.outcomes }) in
      record { state = h.state; halt_err = h.halt_err })
]

judge_succeeded :
    (o : Option Error) (m : Map NodeState)
    → ((judge o m).0 ≡ execution_succeeded) ↔ ((o ≡ none) × (any_state is_open m ≡ false))
unfolding judge
judge_succeeded (some e) m = (λ h. ground arith, λ h. cc)
judge_succeeded none m =
    (λ h. ground (arith, scan_states-state m none), λ h. ground (arith, scan_states-state m none))

-- A run succeeds exactly where it was not halted and, once the unused fallback nodes are skipped, no
-- node is left pending or failed.
pub finalize_closed :
    (g : Graph) (id : String) (s : Coordinator)
    → ((finalize g id s).0.state ≡ execution_succeeded)
      ↔ ((s.halt_err ≡ none) × (any_state is_open (skip_unused g.fallback_only s).state ≡ false))
unfolding finalize
finalize_closed g id s =
    let t = skip_unused g.fallback_only s in
    let f = fill_outcomes-FillsOnly g.nodes t in
    let u = fill_outcomes g.nodes t in
    let j = judge_succeeded u.halt_err u.state in
    (
      λ h. (
        sym (f.halt_err ∙ skip_unused-halt_err g.fallback_only s) ∙ (j.0 h).0,
        sym (ap (any_state is_open) f.state) ∙ (j.0 h).1,
      ),
      λ h. j.1 (
        f.halt_err ∙ skip_unused-halt_err g.fallback_only s ∙ h.0,
        ap (any_state is_open) f.state ∙ h.1,
      ),
    )

judge_incomplete :
    (o : Option Error) (m : Map NodeState)
    → o ≡ none
    → any_state is_pending m ≡ true
    → is_incomplete (judge o m).2 ≡ true
unfolding judge
judge_incomplete none m h p = scan_states_waiting m (execution_succeeded, none) p
judge_incomplete (some e) m h p = cc

-- A run that was not halted, and in which a node stays pending, returns ErrIncompleteGraph.
pub finalize_incomplete :
    (g : Graph) (id : String) (s : Coordinator)
    → s.halt_err ≡ none
    → any_state is_pending (skip_unused g.fallback_only s).state ≡ true
    → is_incomplete (finalize g id s).1 ≡ true
unfolding finalize judge
finalize_incomplete g id s h p =
    let t = skip_unused g.fallback_only s in
    let f = fill_outcomes-FillsOnly g.nodes t in
    let u = fill_outcomes g.nodes t in
    judge_incomplete u.halt_err u.state (f.halt_err ∙ skip_unused-halt_err g.fallback_only s ∙ h)
      (ap (any_state is_pending) f.state ∙ p)

-- A halted run never counts as succeeded, and returns its cause. It is paused for an approval, and
-- only then; with BudgetExceeded set it failed.
pub judge_halted :
    (e : Error) (m : Map NodeState)
    → ((judge (some e) m).0 ≢ execution_succeeded)
      × ((judge (some e) m).2 ≡ some e)
      × (((judge (some e) m).0 ≡ execution_paused) ↔ (is approval_required e ≡ true))
      × ((judge (some e) m).1 ≡ true → (judge (some e) m).0 ≡ execution_failed)
unfolding judge
judge_halted e m = (ground arith, ground arith, (ground arith, ground arith), ground arith)
