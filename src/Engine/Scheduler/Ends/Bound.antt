-- ===== src/Engine/Scheduler/Ends/Bound.antt =====
-- Every round of the coordinator loop does some of the work that is left, so there is a bound on the
-- rounds; and while the loop goes on, some round can be taken: core/engine/scheduler.go.
use workflow_execution_engin.Prelude.{
  ℕ, suc, ◌+◌, ◌≤◌, String, ◌≡◌, refl, ap, inl, inr, true, false, not, ◌&&◌, ◌||◌, Option, none,
  some, List, [], ◌∷◌, arith, ◌==◌, eq_refl, ltb, Bool-cases, is_some, length, get_elem?,
  length-append, ℤ,
}
use workflow_execution_engin.Domain.Value.{Value, FloatOps}
use workflow_execution_engin.Domain.Error.{Error}
use workflow_execution_engin.Engine.Types.{is_running, NodeResult, Task}
use workflow_execution_engin.Engine.Scheduler.Graph.{Graph}
use workflow_execution_engin.Engine.Scheduler.Coordinator.{Coordinator, state_of, cancel_halt}
use workflow_execution_engin.Engine.Scheduler.Completion.{handle_completion}
use workflow_execution_engin.Engine.Scheduler.Loop.{
  finish_task, Move, dispatch, finish, context_done, remove_at, take_ready, completion_of, move,
  steps,
}
use workflow_execution_engin.Engine.Scheduler.Outstanding.{Inv}
use workflow_execution_engin.Engine.Scheduler.Reachable.{
  length-remove_at, count-remove_at, Holds, Holds-rounds, move-Good,
}
use workflow_execution_engin.Engine.Scheduler.Ends.Work.{work, work-process_decisions}
use workflow_execution_engin.Engine.Scheduler.Ends.Handled.{
  cancel_halt-Lowers, work-handle_completion,
}

Holds-weaken :
    (P Q : Coordinator → Type 0) (o : Option Coordinator)
    → ((t : Coordinator) → P t → Q t)
    → Holds P o
    → Holds Q o
Holds-weaken P Q none f h = tt
Holds-weaken P Q (some t) f h = f t h

Holds-both :
    (P Q : Coordinator → Type 0) (o : Option Coordinator)
    → Holds P o
    → Holds Q o
    → Holds (λ (t : Coordinator). P t × Q t) o
Holds-both P Q none h k = tt
Holds-both P Q (some t) h k = (h, k)

module _ (ops : FloatOps) (unmarshal : String → Option Value) (describe : Error → String)
    (g : Graph) (concurrency : ℕ) where
  -- one round less
  abbrev Less : Coordinator → Coordinator → Type 0
  Less s t = suc (work t) ≤ work s

  take_ready-Less :
      (q : List Task) (s : Coordinator)
      → s.ready ≡ q
      → Holds (Less s) (take_ready ops unmarshal describe g concurrency q s)
  unfolding take_ready
  take_ready-Less [] s e = tt
  take_ready-Less (t ∷ ts) s e =
      elim (Bool-cases (not s.halted && ltb (length s.in_pool) concurrency)) [
        | inl h ↦
            rw h
              (ground (arith, ap (λ (l : List Task). length l) e, length-append s.in_pool (t ∷ [])))
        | inr h ↦ rw h tt
      ]

  -- the task that finishes is of a running node
  pool_running :
      (i : ℕ) (t : Task) (s : Coordinator)
      → get_elem? s.in_pool i ≡ some t
      → Inv ops unmarshal g s
      → is_running (state_of s t.attr_to) ≡ true
  pool_running i t s e inv = ground (
    arith,
    inv.tasks t.attr_to,
    eq_refl t.attr_to,
    count-remove_at (λ (u : Task). u.attr_to == t.attr_to) i s.in_pool t e,
  )

  finish_task-Less :
      (i : ℕ) (res : NodeResult) (failure p : Option Error) (ms : ℤ) (o : Option Task)
      (s : Coordinator)
      → get_elem? s.in_pool i ≡ o
      → Inv ops unmarshal g s
      → Holds (Less s) (finish_task ops unmarshal describe g concurrency i res failure p ms o s)
  unfolding finish_task
  finish_task-Less i res failure p ms none s e inv = tt
  finish_task-Less i res failure p ms (some t) s e inv =
      let c = completion_of ops unmarshal describe g concurrency t res failure in
      let left = record s { in_pool = remove_at i s.in_pool } in
      omega (
        arith,
        work-process_decisions ops unmarshal g
            (handle_completion ops unmarshal describe g p ms c left),
        work-handle_completion ops unmarshal describe g p ms c left (pool_running i t s e inv),
        length-remove_at i s.in_pool t e,
      )

  context_done-Less :
      (p : Option Error) (s : Coordinator)
      → s.ctx_open ≡ true
      → Less s (cancel_halt p (record s { ctx_open = false }))
  context_done-Less p s h =
      ground (arith, cancel_halt-Lowers ops unmarshal describe g p (record s { ctx_open = false }))

  move-Less :
      (m : Move) (s : Coordinator)
      → Inv ops unmarshal g s
      → Holds (Less s) (move ops unmarshal describe g concurrency m s)
  unfolding move
  move-Less dispatch s inv = take_ready-Less s.ready s refl
  move-Less (finish i res failure p ms) s inv =
      finish_task-Less i res failure p ms (get_elem? s.in_pool i) s refl inv
  move-Less (context_done p) s inv =
      elim (Bool-cases (s.ctx_open && (s.ctx_cancelled || is_some p))) [
        | inl h ↦ rw h (context_done-Less p s (ground arith))
        | inr h ↦ rw h tt
      ]

  abbrev pub after_steps : List Move → Coordinator → Option Coordinator
  after_steps = steps ops unmarshal describe g concurrency

  -- The rounds taken and the work left are together at most the work at first.
  pub steps_bound :
      (ms : List Move) (s : Coordinator)
      → Inv ops unmarshal g s
      → Holds (λ (t : Coordinator). length ms + work t ≤ work s) (after_steps ms s)
  unfolding steps
  steps_bound [] s inv = omega arith
  steps_bound (m ∷ ms) s inv =
      Holds-rounds ops unmarshal describe g concurrency
        (λ (t : Coordinator). Less s t × Inv ops unmarshal g t)
        (λ (t : Coordinator). length (m ∷ ms) + work t ≤ work s) m ms s
        (λ t h.
          Holds-weaken (λ (u : Coordinator). length ms + work u ≤ work t)
            (λ (u : Coordinator). length (m ∷ ms) + work u ≤ work s) (after_steps ms t)
            (λ u k. omega (arith, h.0)) (steps_bound ms t h.1))
        (Holds-both (Less s) (Inv ops unmarshal g) (move ops unmarshal describe g concurrency m s)
          (move-Less m s inv) (move-Good ops unmarshal describe g concurrency m s inv))
