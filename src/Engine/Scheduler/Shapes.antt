-- ===== src/Engine/Scheduler/Shapes.antt =====
-- Which fields the closures of the coordinator change, as equations that the invariants use.
use workflow_execution_engin.Prelude.{
  zero, suc, ℕ, String, ◌≡◌, refl, ap, ◌∙◌, inl, inr, Bool, true, false, Option, some, List, [],
  ◌∷◌, arith, if◌then◌else◌, Bool-cases, is_some, Map, insert, at, ℤ,
}
use workflow_execution_engin.Domain.Value.{Value, FloatOps}
use workflow_execution_engin.Domain.Workflow.{Edge}
use workflow_execution_engin.Domain.Error.{Error, Fallible, ok, err}
use workflow_execution_engin.Engine.Types.{
  NodeState, unset, succeeded, is_succeeded, NodeOutput, no_output,
}
use workflow_execution_engin.Engine.Scheduler.Graph.{Graph}
use workflow_execution_engin.Engine.Scheduler.Coordinator.{
  Coordinator, Decision, state_of, halt, release, release_all, settle, edge_holds, inspect_edge,
  inspect_edges, condition_error, follow, decide, decide_loop, process_decisions,
}
use workflow_execution_engin.Engine.Conditional.{eval_condition}

-- Only the queue and the counters of pending parents change.
pub record Requeued (s t : Coordinator) : Type 0 where
  pub counters : Map ℤ
  pub queue : List String
  pub same : t ≡ record s { pending_parents = counters; to_decide = queue }

pub release_all-Requeued : (chs : List String) (s : Coordinator) → Requeued s (release_all chs s)
unfolding release_all
release_all-Requeued [] s = record {
  counters = s.pending_parents;
  queue = s.to_decide;
  same = refl;
}
release_all-Requeued (ch ∷ chs) s =
    let r = release_all-Requeued chs (release ch s) in
    record { counters = r.counters; queue = r.queue; same = r.same ∙ released r.counters r.queue }
  where
    released :
        (p : Map ℤ) (q : List String)
        → record (release ch s) { pending_parents = p; to_decide = q }
          ≡ record s { pending_parents = p; to_decide = q }
    released p q = unfold release in refl

-- Only the halt may be recorded.
pub record Halting (s t : Coordinator) : Type 0 where
  pub halted : Bool
  pub cause : Option Error
  pub cancel : Bool
  pub same : t ≡ record s { halted = halted; halt_err = cause; ctx_cancelled = cancel }
  pub exact : s.halted ≡ is_some s.halt_err → halted ≡ is_some cause
  pub kept : s.halted ≡ true → halted ≡ true

pub Halting-refl : (s : Coordinator) → Halting s s
Halting-refl s = record {
  halted = s.halted;
  cause = s.halt_err;
  cancel = s.ctx_cancelled;
  same = refl;
  exact = λ h. h;
  kept = λ h. h;
}

pub Halting-trans : (s t u : Coordinator) → Halting s t → Halting t u → Halting s u
Halting-trans s t u a b = record {
  halted = b.halted;
  cause = b.cause;
  cancel = b.cancel;
  same =
      b.same
      ∙ ap
          (λ (x : Coordinator). record x {
            halted = b.halted;
            halt_err = b.cause;
            ctx_cancelled = b.cancel;
          })
          a.same;
  exact = λ h. b.exact (ground (arith, a.same, a.exact h));
  kept = λ h. b.kept (ground (arith, a.same, a.kept h));
}

pub halt-Halting : (e : Error) (s : Coordinator) → Halting s (halt e s)
unfolding halt
halt-Halting e s = by_test s.halted
  where
    by_test :
        (b : Bool)
        → Halting s
            (if b then s else record s { halted = true; halt_err = some e; ctx_cancelled = true })
    by_test true = Halting-refl s
    by_test false = record {
      halted = true;
      cause = some e;
      cancel = true;
      same = refl;
      exact = λ _. refl;
      kept = λ _. refl;
    }

-- Every edge comes from a succeeded node, and its condition holds of that node's output.
abbrev pub Allowed :
    FloatOps → (String → Option Value) → Map NodeState → Map NodeOutput → List Edge → Type 0
Allowed ops unmarshal state output [] = Unit
Allowed ops unmarshal state output (e ∷ es) =
    ((at e.source unset state ≡ succeeded)
      × (eval_condition ops unmarshal e.condition (at e.source no_output output).content ≡ ok true))
    × Allowed ops unmarshal state output es

module _ (ops : FloatOps) (unmarshal : String → Option Value) (g : Graph) where
  pub settle-Requeued :
      (id : String) (st : NodeState) (s : Coordinator)
      → Requeued (record s { state = insert id st s.state }) (settle ops unmarshal g id st s)
  unfolding settle
  settle-Requeued id st s =
      release_all-Requeued (at id [] g.children) (record s { state = insert id st s.state })

  pub inspect_edge-Halting :
      (d : Decision) (s : Coordinator) (e : Edge)
      → Halting s (inspect_edge ops unmarshal g (d, s) e).1
  unfolding inspect_edge
  inspect_edge-Halting d s e = elim (Bool-cases (is_succeeded (state_of s e.source))) [
    | inl y ↦ rw y (by_condition (edge_holds ops unmarshal g s e))
    | inr n ↦ rw n (Halting-refl s)
  ]
    where
      by_condition : (r : Fallible Bool) → Halting s (follow ops unmarshal g r e (d, s)).1
      by_condition (err x) = halt-Halting (condition_error x e) s
      by_condition (ok true) = Halting-refl s
      by_condition (ok false) = Halting-refl s

  pub inspect_edges-Halting :
      (es : List Edge) (d : Decision) (s : Coordinator)
      → Halting s (inspect_edges ops unmarshal g es (d, s)).1
  unfolding inspect_edges
  inspect_edges-Halting [] d s = Halting-refl s
  inspect_edges-Halting (e ∷ es) d s =
      let (d', s') = inspect_edge ops unmarshal g (d, s) e in
      Halting-trans s s' _ (inspect_edge-Halting d s e) (inspect_edges-Halting es d' s')

  decide_loop_rule :
      (P : Coordinator → Type 0)
      → ((id : String) (rest : List String) (s : Coordinator)
          → P s
          → P (decide ops unmarshal g id (record s { to_decide = rest })))
      → (fuel : ℕ) (s : Coordinator) → P s
      → P (decide_loop ops unmarshal g fuel s)
  unfolding decide_loop
  decide_loop_rule P keep zero s p = p
  decide_loop_rule P keep (suc fuel) s p = by_queue (decide_loop_rule P keep fuel) s.to_decide
    where
      by_queue :
          ((u : Coordinator) → P u → P (decide_loop ops unmarshal g fuel u))
          → (q : List String)
          → P (elim q [
            | [] ↦ s
            | id ∷ rest ↦
                decide_loop ops unmarshal g fuel
                  (decide ops unmarshal g id (record s { to_decide = rest }))
          ])
      by_queue again [] = p
      by_queue again (id ∷ rest) = again _ (keep id rest s p)

  -- What every decision keeps, whichever nodes are left in the queue, the whole loop keeps.
  pub process_decisions_rule :
      (P : Coordinator → Type 0)
      → ((id : String) (rest : List String) (s : Coordinator)
          → P s
          → P (decide ops unmarshal g id (record s { to_decide = rest })))
      → (s : Coordinator) → P s
      → P (process_decisions ops unmarshal g s)
  unfolding process_decisions
  process_decisions_rule P keep s p = decide_loop_rule P keep _ s p
