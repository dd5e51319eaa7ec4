-- ===== src/Engine/Scheduler/Drains.antt =====
-- The loop of processDecisions empties its queue: core/engine/scheduler.go.
use workflow_execution_engin.Prelude.{
  ℕ, zero, suc, ◌+◌, ◌*◌, ◌≤◌, String, ◌≡◌, refl, ap, ◌∙◌, inl, inr, true, false, Option, List, [],
  ◌∷◌, arith, Bool-cases, length, length-append, Map, lookup, insert, at,
}
use workflow_execution_engin.Domain.Value.{Value, FloatOps}
use workflow_execution_engin.Engine.Types.{
  NodeState, unset, running, skipped, is_pending, bare_outcome,
}
use workflow_execution_engin.Engine.Scheduler.Graph.{Graph}
use workflow_execution_engin.Engine.Scheduler.Coordinator.{
  Coordinator, Decision, state_of, release, release_all, settle, inspect_edges, conclude, decide,
  decide_loop, total_children, pending_count, decision_fuel, process_decisions,
}
use workflow_execution_engin.Engine.Scheduler.Shapes.{
  Halting, release_all-Requeued, inspect_edges-Halting,
}
use native.Mathlib.Nat.{suc-mul}

-- A pending node that stops pending is one less.
pub insert_lowers :
    (id : String) (st : NodeState) (m : Map NodeState)
    → is_pending (at id unset m) ≡ true
    → is_pending st ≡ false
    → suc (pending_count (insert id st m)) ≡ pending_count m
unfolding at lookup insert pending_count
insert_lowers id st [] p n = cc
insert_lowers id st ((k, w) ∷ m) p n = ground (arith, insert_lowers id st m)

children_bound : (id : String) (m : Map (List String)) → length (at id [] m) ≤ total_children m
unfolding at lookup total_children
children_bound id [] = omega arith
children_bound id ((k, chs) ∷ m) = ground (arith, children_bound id m)

release_all-length :
    (chs : List String) (s : Coordinator)
    → length (release_all chs s).to_decide ≤ length s.to_decide + length chs
unfolding release_all
release_all-length [] s = omega arith
release_all-length (ch ∷ chs) s = omega (arith, release_all-length chs (release ch s), one)
  where
    one : length (release ch s).to_decide ≤ suc (length s.to_decide)
    one = unfold release in ground (arith, length-append s.to_decide (ch ∷ []))

release_all-state : (chs : List String) (s : Coordinator) → (release_all chs s).state ≡ s.state
release_all-state chs s = ap (λ (t : Coordinator). t.state) ((release_all-Requeued chs s).same)

module _ (ops : FloatOps) (unmarshal : String → Option Value) (g : Graph) where
  -- what decisionFuel counts, over the fields that it reads
  abbrev size : List String → Map NodeState → ℕ
  size q m = length q + pending_count m * suc (total_children g.children)

  abbrev rounds : Coordinator → ℕ
  rounds s = size s.to_decide s.state

  -- a pending node less pays for its children
  fewer_rounds :
      (q q' : List String) (m m' : Map NodeState)
      → suc (pending_count m') ≡ pending_count m
      → length q' ≤ length q + total_children g.children
      → suc (size q' m') ≤ size q m
  fewer_rounds q q' m m' p h =
      rw (← p, suc-mul (pending_count m') (suc (total_children g.children))) (omega arith)

  settle_lowers :
      (id : String) (st : NodeState) (s : Coordinator)
      → is_pending (state_of s id) ≡ true
      → is_pending st ≡ false
      → suc (rounds (settle ops unmarshal g id st s)) ≤ rounds s
  unfolding settle
  settle_lowers id st s p n =
      let chs = at id [] g.children in
      let t = record s { state = insert id st s.state } in
      fewer_rounds s.to_decide (release_all chs t).to_decide s.state (release_all chs t).state
        (ap (λ m. suc (pending_count m)) (release_all-state chs t)
          ∙ insert_lowers id st s.state p n)
        (omega (arith, release_all-length chs t, children_bound id g.children))

  conclude_lowers :
      (id : String) (d : Decision) (s : Coordinator)
      → is_pending (state_of s id) ≡ true
      → suc (rounds (conclude ops unmarshal g id (d, s))) ≤ rounds s
  unfolding conclude
  conclude_lowers id d s p = elim (Bool-cases d.active) [
    | inl a ↦ rw a (
        fewer_rounds s.to_decide s.to_decide s.state (insert id running s.state)
          (insert_lowers id running s.state p refl) (omega arith))
    | inr b ↦ rw b (
        settle_lowers id skipped
          (record s { outcomes = insert id (bare_outcome skipped) s.outcomes }) p refl)
  ]

  -- Halting leaves the queue and the states alone.
  Halting-rounds : (s t : Coordinator) → Halting s t → rounds t ≡ rounds s
  Halting-rounds s t h = ap rounds h.same

  Halting-state_of : (id : String) (s t : Coordinator) → Halting s t → state_of t id ≡ state_of s id
  Halting-state_of id s t h = ap (λ (u : Coordinator). state_of u id) h.same

  decide_lowers : (id : String) (s : Coordinator) → rounds (decide ops unmarshal g id s) ≤ rounds s
  unfolding decide
  decide_lowers id s = elim (Bool-cases (is_pending (state_of s id))) [
    | inl p ↦
        let r =
          inspect_edges ops unmarshal g (at id [] g.parents)
            (record { active = true; inputs = [] }, s) in
        let h =
          inspect_edges-Halting ops unmarshal g (at id [] g.parents)
            (record { active = true; inputs = [] }) s in
        rw p (
          omega (
            arith,
            conclude_lowers id r.0 r.1 (ap is_pending (Halting-state_of id s r.1 h) ∙ p),
            Halting-rounds s r.1 h,
          ))
    | inr n ↦ rw n (omega arith)
  ]

  decide_loop_drains :
      (fuel : ℕ) (s : Coordinator) (q : List String)
      → s.to_decide ≡ q
      → rounds s ≤ fuel
      → (decide_loop ops unmarshal g fuel s).to_decide ≡ []
  unfolding decide_loop
  decide_loop_drains zero s [] e h = e
  decide_loop_drains zero s (id ∷ rest) e h =
      absurd (omega (arith, ap (λ (l : List String). length l) e))
  decide_loop_drains (suc fuel) s [] e h = rw e refl
  decide_loop_drains (suc fuel) s (id ∷ rest) e h =
      let t = decide ops unmarshal g id (record s { to_decide = rest }) in
      rw e (
        decide_loop_drains fuel t t.to_decide refl (
          omega (
            arith,
            decide_lowers id (record s { to_decide = rest }),
            ap (λ (l : List String). length l) e,
          )))

  -- The loop of processDecisions ends with an empty queue: the rounds that it is given are enough,
  -- in every state and for every graph, also one with cycles.
  pub process_decisions_drains :
      (s : Coordinator) → (process_decisions ops unmarshal g s).to_decide ≡ []
  unfolding process_decisions decision_fuel
  process_decisions_drains s =
      decide_loop_drains (decision_fuel g s) s s.to_decide refl (omega arith)
