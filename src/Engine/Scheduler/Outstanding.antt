-- ===== src/Engine/Scheduler/Outstanding.antt =====
-- Between two rounds of the loop every running node has one task, in the queue of ready tasks or in
-- the pool, and every node that runs was allowed to by all of its incoming edges.
use workflow_execution_engin.Prelude.{
  ℕ, ◌+◌, String, ◌≡◌, refl, sym, ap, ◌∙◌, ◌≢◌, inl, inr, Bool, true, false, Option, List, [], ◌∷◌,
  ◌++◌, arith, ◌==◌, eq_iff, Bool-cases, length, count, count-append, Map, insert, at, at-insert,
  at-insert_ne, ℤ, pos,
}
use workflow_execution_engin.Domain.Value.{Value, FloatOps}
use workflow_execution_engin.Domain.Workflow.{Edge}
use workflow_execution_engin.Domain.Error.{ok}
use workflow_execution_engin.Engine.Types.{
  NodeState, unset, running, succeeded, skipped, is_pending, is_running, bare_outcome, NodeOutput,
  no_output, Task,
}
use workflow_execution_engin.Engine.Scheduler.Graph.{Graph}
use workflow_execution_engin.Engine.Scheduler.Coordinator.{
  Coordinator, Decision, state_of, edge_holds, inspect_edge, inspect_edges, conclude, decide,
  process_decisions,
}
use workflow_execution_engin.Engine.Scheduler.Shapes.{
  process_decisions_rule, Allowed, settle-Requeued, inspect_edge-Halting, inspect_edges-Halting,
}
use mathlib.Core.Path.{subst}

-- the tasks of a list that are attributed to a node
abbrev pub tasks_of : String → List Task → ℕ
tasks_of id = count (λ t. t.attr_to == id)

abbrev pub one_if : Bool → ℕ
one_if true = 1
one_if false = 0

module _ (ops : FloatOps) (unmarshal : String → Option Value) (g : Graph) where
  -- the invariant, over the fields that it reads
  pub record Outstanding (state : Map NodeState) (output : Map NodeOutput) (ready pool : List Task)
      (in_flight : ℤ) : Type 0 where
    pub tasks :
        (id : String)
        → tasks_of id ready + tasks_of id pool ≡ one_if (is_running (at id unset state))
    pub counted : in_flight ≡ pos (length pool)
    pub allowed :
        (id : String)
        → is_running (at id unset state) ≡ true
        → Allowed ops unmarshal state output (at id [] g.parents)

  abbrev pub Inv : Coordinator → Type 0
  Inv s = Outstanding s.state s.output s.ready s.in_pool s.in_flight

  -- A write at a node that has not succeeded leaves what allows a node as it is.
  pub Allowed-insert :
      (es : List Edge) (state : Map NodeState) (output output' : Map NodeOutput) (id : String)
      (st : NodeState)
      → at id unset state ≢ succeeded
      → ((j : String) → id ≢ j → at j no_output output' ≡ at j no_output output)
      → Allowed ops unmarshal state output es
      → Allowed ops unmarshal (insert id st state) output' es
  Allowed-insert [] state output output' id st n same h = tt
  Allowed-insert (e ∷ es) state output output' id st n same h =
      let other : id ≢ e.source = λ p. n (rw p h.0.0) in
      (
        (at-insert_ne id e.source st unset state other ∙ h.0.0, rw (same e.source other) h.0.1),
        Allowed-insert es state output output' id st n same h.1,
      )

  inspect_edge-Allowed :
      (d : Decision) (s : Coordinator) (e : Edge)
      → (inspect_edge ops unmarshal g (d, s) e).0.active ≡ true
      → (d.active ≡ true)
        × (state_of s e.source ≡ succeeded)
        × (edge_holds ops unmarshal g s e ≡ ok true)
  unfolding inspect_edge
  inspect_edge-Allowed d s e h = ground arith

  -- The edges that leave a decision active all hold.
  inspect_edges-Allowed :
      (es : List Edge) (d : Decision) (s : Coordinator)
      → (inspect_edges ops unmarshal g es (d, s)).0.active ≡ true
      → (d.active ≡ true) × Allowed ops unmarshal s.state s.output es
  unfolding inspect_edges
  inspect_edges-Allowed [] d s h = (h, tt)
  inspect_edges-Allowed (e ∷ es) d s h =
      let (d', s') = inspect_edge ops unmarshal g (d, s) e in
      let rest = inspect_edges-Allowed es d' s' h in
      let here = inspect_edge-Allowed d s e rest.0 in
      let same = (inspect_edge-Halting ops unmarshal g d s e).same in
      (
        here.0,
        (
          (here.1, here.2),
          subst (λ (u : Coordinator). Allowed ops unmarshal u.state u.output es) same rest.1,
        ),
      )

  -- A pending node that all its edges allow gets one task.
  begin-Outstanding :
      (id : String) (t : Task) (state : Map NodeState) (output : Map NodeOutput)
      (ready pool : List Task) (in_flight : ℤ)
      → t.attr_to ≡ id
      → is_pending (at id unset state) ≡ true
      → Allowed ops unmarshal state output (at id [] g.parents)
      → Outstanding state output ready pool in_flight
      → Outstanding (insert id running state) output (ready ++ (t ∷ [])) pool in_flight
  begin-Outstanding id t state output ready pool in_flight n p al inv = record {
    tasks = λ j. ground (
      arith,
      inv.tasks j,
      count-append (λ (u : Task). u.attr_to == j) ready (t ∷ []),
      at-insert id j running unset state,
      eq_iff id j,
    );
    counted = inv.counted;
    allowed = λ j r. elim (Bool-cases (id == j)) [
      | inl e ↦ keep j (rw (← (eq_iff id j).0 e) al)
      | inr e ↦ keep j (inv.allowed j (ground (arith, at-insert id j running unset state)))
    ];
  }
    where
      keep :
          (j : String)
          → Allowed ops unmarshal state output (at j [] g.parents)
          → Allowed ops unmarshal (insert id running state) output (at j [] g.parents)
      keep j =
          Allowed-insert (at j [] g.parents) state output output id running
            (λ e. cc (ap is_pending e)) (λ k _. refl)

  -- A pending node that is skipped has no task.
  skip-Outstanding :
      (id : String) (state : Map NodeState) (output : Map NodeOutput) (ready pool : List Task)
      (in_flight : ℤ)
      → is_pending (at id unset state) ≡ true
      → Outstanding state output ready pool in_flight
      → Outstanding (insert id skipped state) output ready pool in_flight
  skip-Outstanding id state output ready pool in_flight p inv = record {
    tasks = λ j. ground (arith, inv.tasks j, at-insert id j skipped unset state, eq_iff id j);
    counted = inv.counted;
    allowed = λ j r.
        Allowed-insert (at j [] g.parents) state output output id skipped
          (λ e. cc (ap is_pending e)) (λ k _. refl)
          (inv.allowed j (ground (arith, at-insert id j skipped unset state, eq_iff id j)));
  }

  conclude-Inv :
      (id : String) (d : Decision) (s : Coordinator)
      → is_pending (state_of s id) ≡ true
      → (d.active ≡ true → Allowed ops unmarshal s.state s.output (at id [] g.parents))
      → Inv s
      → Inv (conclude ops unmarshal g id (d, s))
  unfolding conclude
  conclude-Inv id d s p al inv = elim (Bool-cases d.active) [
    | inl a ↦
        rw a
          (begin-Outstanding id _ s.state s.output s.ready s.in_pool s.in_flight refl p (al a) inv)
    | inr n ↦ rw n (
        let s' = record s { outcomes = insert id (bare_outcome skipped) s.outcomes } in
        let q = settle-Requeued ops unmarshal g id skipped s' in
        subst (λ (u : Coordinator). Inv u) (sym q.same)
          (skip-Outstanding id s.state s.output s.ready s.in_pool s.in_flight p inv))
  ]

  decide-Inv : (id : String) (s : Coordinator) → Inv s → Inv (decide ops unmarshal g id s)
  unfolding decide
  decide-Inv id s inv = elim (Bool-cases (is_pending (state_of s id))) [
    | inl p ↦ rw p (
        let es = at id [] g.parents in
        let d0 : Decision = record { active = true; inputs = [] } in
        let h = inspect_edges-Halting ops unmarshal g es d0 s in
        let d = (inspect_edges ops unmarshal g es (d0, s)).0 in
        let stopped = record s {
          halted = h.halted;
          halt_err = h.cause;
          ctx_cancelled = h.cancel;
        } in
        subst (λ (u : Coordinator). Inv (conclude ops unmarshal g id (d, u))) (sym h.same)
          (conclude-Inv id d stopped p (λ a. (inspect_edges-Allowed es d0 s a).1) inv))
    | inr n ↦ rw n inv
  ]

  pub process_decisions-Inv : (s : Coordinator) → Inv s → Inv (process_decisions ops unmarshal g s)
  process_decisions-Inv =
      process_decisions_rule ops unmarshal g Inv
        (λ id rest s inv. decide-Inv id (record s { to_decide = rest }) inv)

  -- The fields after a task of `id` has left the pool, and before its node is settled.
  pub record Left (id : String) (state : Map NodeState) (output : Map NodeOutput)
      (ready pool : List Task) (in_flight : ℤ) : Type 0 where
    pub tasks :
        (j : String)
        → tasks_of j ready + tasks_of j pool + one_if (id == j)
          ≡ one_if (is_running (at j unset state))
    pub counted : in_flight ≡ pos (length pool)
    pub allowed :
        (j : String)
        → is_running (at j unset state) ≡ true
        → Allowed ops unmarshal state output (at j [] g.parents)

  -- The node may then take any state but running; only its own output may be written.
  pub Left-insert :
      (id : String) (st : NodeState) (state : Map NodeState) (output output' : Map NodeOutput)
      (ready pool : List Task) (in_flight : ℤ)
      → is_running st ≡ false
      → ((j : String) → id ≢ j → at j no_output output' ≡ at j no_output output)
      → Left id state output ready pool in_flight
      → Outstanding (insert id st state) output' ready pool in_flight
  Left-insert id st state output output' ready pool in_flight n same l = record {
    tasks = λ j.
        ground
          (arith, l.tasks j, l.tasks id, at-insert id j st unset state, eq_iff id j, eq_iff id id);
    counted = l.counted;
    allowed = λ j r.
        Allowed-insert (at j [] g.parents) state output output' id st not_succeeded same
          (l.allowed j (ground (arith, at-insert id j st unset state, eq_iff id j)));
  }
    where
      not_succeeded : at id unset state ≢ succeeded
      not_succeeded e = ground (arith, l.tasks id, eq_iff id id, ap is_running e)

  -- Or its task goes back to the queue.
  pub Left-again :
      (t : Task) (state : Map NodeState) (output : Map NodeOutput) (ready pool : List Task)
      (in_flight : ℤ)
      → Left t.attr_to state output ready pool in_flight
      → Outstanding state output (ready ++ (t ∷ [])) pool in_flight
  Left-again t state output ready pool in_flight l = record {
    tasks =
        λ j. ground (arith, l.tasks j, count-append (λ (u : Task). u.attr_to == j) ready (t ∷ []));
    counted = l.counted;
    allowed = l.allowed;
  }

  abbrev pub LeftIn : String → Coordinator → Type 0
  LeftIn id s = Left id s.state s.output s.ready s.in_pool s.in_flight
