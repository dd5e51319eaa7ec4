-- ===== src/Engine/Scheduler/Ends/Work.antt =====
-- A measure of the work that is left of a run: core/engine/scheduler.go.
use workflow_execution_engin.Prelude.{
  ℕ, suc, ◌+◌, ◌*◌, ◌≤◌, String, ◌≡◌, refl, ap, ◌∙◌, inl, inr, Bool, true, false, Option, List, [],
  ◌∷◌, arith, eq_iff, if◌then◌else◌, Bool-cases, length, length-append, Map, lookup, insert, at,
  at-insert,
}
use workflow_execution_engin.Domain.Value.{Value, FloatOps}
use workflow_execution_engin.Domain.Error.{Error}
use workflow_execution_engin.Engine.Types.{
  NodeState, unset, running, skipped, is_pending, is_running, Task, bare_outcome, no_node,
}
use workflow_execution_engin.Engine.Scheduler.Graph.{Graph}
use workflow_execution_engin.Engine.Scheduler.Coordinator.{
  Coordinator, Decision, state_of, halt, settle, inspect_edges, conclude, decide, process_decisions,
  pending_count,
}
use workflow_execution_engin.Engine.Scheduler.Shapes.{
  Halting, settle-Requeued, inspect_edges-Halting, process_decisions_rule,
}
use workflow_execution_engin.Engine.Scheduler.Outstanding.{one_if}
use workflow_execution_engin.Engine.Scheduler.Drains.{insert_lowers}

abbrev pub is_unset : NodeState → Bool
is_unset unset = true
is_unset _ = false

-- the nodes whose fallback has not been tried
unfoldable pub untried : Map Bool → Map NodeState → ℕ
untried fb [] = 0
untried fb ((id, st) ∷ m) = let rest = untried fb m in if at id false fb then rest else suc rest

pub untried-insert :
    (fb : Map Bool) (id : String) (st : NodeState) (m : Map NodeState)
    → is_unset (at id unset m) ≡ false
    → untried fb (insert id st m) ≡ untried fb m
unfolding untried at lookup insert
untried-insert fb id st [] h = cc
untried-insert fb id st ((k, w) ∷ m) h = ground (arith, untried-insert fb id st m)

untried_fewer :
    (fb : Map Bool) (id : String) (m : Map NodeState) → untried (insert id true fb) m ≤ untried fb m
unfolding untried
untried_fewer fb id [] = omega arith
untried_fewer fb id ((k, w) ∷ m) =
    ground (arith, untried_fewer fb id m, at-insert id k true false fb)

pub untried_lowers :
    (fb : Map Bool) (id : String) (m : Map NodeState)
    → is_unset (at id unset m) ≡ false
    → at id false fb ≡ false
    → suc (untried (insert id true fb) m) ≤ untried fb m
unfolding untried at lookup
untried_lowers fb id [] h t = cc
untried_lowers fb id ((k, w) ∷ m) h t = ground (
  arith,
  eq_iff k id,
  untried_lowers fb id m,
  untried_fewer fb id m,
  at-insert id k true false fb,
)

pub insert_not_more :
    (id : String) (st : NodeState) (m : Map NodeState)
    → is_unset (at id unset m) ≡ false
    → is_pending st ≡ false
    → pending_count (insert id st m) ≤ pending_count m
unfolding at lookup insert pending_count
insert_not_more id st [] h n = cc
insert_not_more id st ((k, w) ∷ m) h n = ground (arith, insert_not_more id st m)

-- What the work is counted over. A halted run dispatches nothing more.
abbrev pub open_work : List Task → Map NodeState → Map Bool → ℕ
open_work ready state fb = 2 * length ready + 3 * pending_count state + 3 * untried fb state

abbrev pub closing : Coordinator → ℕ
closing s = length s.in_pool + one_if s.ctx_open

abbrev pub work : Coordinator → ℕ
work s = closing s + (if s.halted then 0 else open_work s.ready s.state s.fb_tried)

halted_work : (s : Coordinator) → s.halted ≡ true → work s ≡ closing s
halted_work s h = rw h (omega arith)

pub work-halt : (e : Error) (s : Coordinator) → work (halt e s) ≡ closing s
unfolding halt
work-halt e s = ground arith

-- A halt that may have been recorded adds no work.
pub Halting-work : (s t : Coordinator) → Halting s t → work t ≤ work s
Halting-work s t h = rw (h.same) (ground (arith, h.kept))

pub pending_is_set : (st : NodeState) → is_pending st ≡ true → is_unset st ≡ false
pending_is_set st h = ground arith

pub running_is_set : (st : NodeState) → is_running st ≡ true → is_unset st ≡ false
running_is_set st h = ground arith

module _ (ops : FloatOps) (unmarshal : String → Option Value) (g : Graph) where
  pub settle-work :
      (id : String) (st : NodeState) (s : Coordinator)
      → is_unset (state_of s id) ≡ false
      → is_pending st ≡ false
      → (work (settle ops unmarshal g id st s) ≤ work s)
        × (closing (settle ops unmarshal g id st s) ≡ closing s)
  settle-work id st s u n =
      let q = settle-Requeued ops unmarshal g id st s in
      (
        rw (q.same) (
            ground (
              arith,
              untried-insert s.fb_tried id st s.state u,
              insert_not_more id st s.state u n,
            )),
        ap closing q.same,
      )

  work-conclude :
      (id : String) (d : Decision) (s : Coordinator)
      → is_pending (state_of s id) ≡ true
      → work (conclude ops unmarshal g id (d, s)) ≤ work s
  unfolding conclude
  work-conclude id d s p = elim (Bool-cases d.active) [
    | inl a ↦ rw a (
        ground (
          arith,
          length-append s.ready
              (record { node = at id no_node g.nodes_by_id; inputs = d.inputs; attr_to = id } ∷ []),
          untried-insert s.fb_tried id running s.state (pending_is_set (state_of s id) p),
          insert_lowers id running s.state p,
        ))
    | inr b ↦ rw b (
        (settle-work id skipped
          (record s { outcomes = insert id (bare_outcome skipped) s.outcomes })
          (pending_is_set (state_of s id) p) refl).0)
  ]

  work-decide : (id : String) (s : Coordinator) → work (decide ops unmarshal g id s) ≤ work s
  unfolding decide
  work-decide id s = elim (Bool-cases (is_pending (state_of s id))) [
    | inl p ↦
        let d0 : Decision = record { active = true; inputs = [] } in
        let r = inspect_edges ops unmarshal g (at id [] g.parents) (d0, s) in
        let h = inspect_edges-Halting ops unmarshal g (at id [] g.parents) d0 s in
        rw p (
          omega (
            arith,
            work-conclude id r.0 r.1
                (ap (λ (u : Coordinator). is_pending (state_of u id)) h.same ∙ p),
            Halting-work s r.1 h,
          ))
    | inr n ↦ rw n (omega arith)
  ]

  -- Deciding adds no work.
  pub work-process_decisions :
      (s : Coordinator) → work (process_decisions ops unmarshal g s) ≤ work s
  work-process_decisions s =
      process_decisions_rule ops unmarshal g (λ (u : Coordinator). work u ≤ work s)
        (λ id rest u h. omega (arith, work-decide id (record u { to_decide = rest }))) s
        (omega arith)
