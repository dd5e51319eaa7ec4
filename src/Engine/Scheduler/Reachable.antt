-- ===== src/Engine/Scheduler/Reachable.antt =====
-- What holds in every state that the loop of core/engine/scheduler.go reaches, whichever case each
-- select takes and whatever the executors return.
use workflow_execution_engin.Prelude.{
  ℕ, zero, suc, ◌+◌, String, ◌≡◌, refl, sym, ap, ◌∙◌, inl, inr, Bool, true, false, not, ◌&&◌, ◌||◌,
  Option, none, some, List, [], ◌∷◌, ◌++◌, arith, ◌==◌, ltb, if◌then◌else◌, Bool-cases, is_some,
  length, get_elem?, length-append, count, count-append, Map, lookup, at, at-insert, ℤ, pos, ◌+ℤ◌,
  ◌-ℤ◌,
}
use workflow_execution_engin.Domain.Value.{Value, FloatOps}
use workflow_execution_engin.Domain.Workflow.{Node, Budget}
use workflow_execution_engin.Domain.Error.{Error}
use mathlib.Core.List.{foldl}
use mathlib.Core.Path.{subst}
use workflow_execution_engin.Engine.Types.{
  unset, pending, succeeded, is_running, NodeResult, NodeOutput, Task,
}
use workflow_execution_engin.Engine.Budget.{new_budget_tracker}
use workflow_execution_engin.Engine.Scheduler.Graph.{Graph}
use workflow_execution_engin.Engine.Scheduler.Coordinator.{Coordinator}
use workflow_execution_engin.Engine.Scheduler.Completion.{handle_completion}
use workflow_execution_engin.Engine.Scheduler.Loop.{
  seeded, finish_task, seed_node, blank, account_precompleted, initial_queue, start, Move, dispatch,
  finish, context_done, is_active, remove_at, take_ready, completion_of, move, step, steps,
}
use workflow_execution_engin.Engine.Scheduler.Outstanding.{
  tasks_of, one_if, Outstanding, Inv, Left, process_decisions-Inv,
}
use workflow_execution_engin.Engine.Scheduler.Settling.{handle_completion-Inv, cancel_halt-Inv}

module _ {A : Type 0} where
  pub count-remove_at :
      (p : A → Bool) (i : ℕ) (xs : List A) (x : A)
      → get_elem? xs i ≡ some x
      → count p (remove_at i xs) + one_if (p x) ≡ count p xs
  unfolding remove_at
  count-remove_at p i [] x h = cc
  count-remove_at p zero (y ∷ ys) x h = ground arith
  count-remove_at p (suc i) (y ∷ ys) x h = ground (arith, count-remove_at p i ys x h)

  pub length-remove_at :
      (i : ℕ) (xs : List A) (x : A)
      → get_elem? xs i ≡ some x
      → suc (length (remove_at i xs)) ≡ length xs
  unfolding remove_at
  length-remove_at i [] x h = cc
  length-remove_at zero (y ∷ ys) x h = refl
  length-remove_at (suc i) (y ∷ ys) x h = ap suc (length-remove_at i ys x h)

one_less : (n : ℕ) → pos (suc n) -ℤ pos 1 ≡ pos n
unfolding ◌-ℤ◌
one_less n = ground arith

one_more : (n : ℕ) → pos n +ℤ pos 1 ≡ pos (suc n)
unfolding ◌+ℤ◌
one_more n = ground arith

-- A predicate of a state that may not be there.
abbrev pub Holds : (Coordinator → Type 0) → Option Coordinator → Type 0
Holds P none = Unit
Holds P (some s) = P s

pub Holds-some :
    (P : Coordinator → Type 0) (o : Option Coordinator) (s : Coordinator)
    → o ≡ some s
    → Holds P o
    → P s
Holds-some P o s e h = subst (Holds P) e h

pub Holds-if :
    (P : Coordinator → Type 0) (b : Bool) (s : Coordinator)
    → P s
    → Holds P (if b then some s else none)
Holds-if P true s h = h
Holds-if P false s h = tt

module _ (ops : FloatOps) (unmarshal : String → Option Value) (describe : Error → String)
    (g : Graph) (concurrency : ℕ) where
  -- a round is a move, where the loop goes on
  pub Holds-step :
      (P : Coordinator → Type 0) (m : Move) (s : Coordinator)
      → Holds P (move ops unmarshal describe g concurrency m s)
      → Holds P (step ops unmarshal describe g concurrency m s)
  unfolding step
  Holds-step P m s h = elim (Bool-cases (is_active s)) [
    | inl a ↦ rw (a, step) h
    | inr n ↦ rw (n, step) tt
  ]

  -- What the first round gives, the others build on.
  pub Holds-rounds :
      (P Q : Coordinator → Type 0) (m : Move) (ms : List Move) (s : Coordinator)
      → ((t : Coordinator) → P t → Holds Q (steps ops unmarshal describe g concurrency ms t))
      → Holds P (move ops unmarshal describe g concurrency m s)
      → Holds Q (steps ops unmarshal describe g concurrency (m ∷ ms) s)
  unfolding steps
  Holds-rounds P Q m ms s again h =
      after_step (step ops unmarshal describe g concurrency m s) (Holds-step P m s h)
    where
      after_step :
          (o : Option Coordinator)
          → Holds P o
          → Holds Q
              (elim o [ none ↦ none | some t ↦ steps ops unmarshal describe g concurrency ms t ])
      after_step none h = tt
      after_step (some t) h = again t h

  -- What every move keeps, every sequence of rounds keeps.
  pub steps_rule :
      (P : Coordinator → Type 0)
      → ((m : Move) (s : Coordinator)
          → P s
          → Holds P (move ops unmarshal describe g concurrency m s))
      → (ms : List Move) (s : Coordinator) → P s
      → Holds P (steps ops unmarshal describe g concurrency ms s)
  unfolding steps
  steps_rule P keep [] s p = p
  steps_rule P keep (m ∷ ms) s p = Holds-rounds P P m ms s (steps_rule P keep ms) (keep m s p)

module _ (ops : FloatOps) (unmarshal : String → Option Value) (describe : Error → String)
    (g : Graph) (concurrency : ℕ) where
  abbrev Good : Coordinator → Type 0
  Good = Inv ops unmarshal g

  abbrev after : Move → Coordinator → Option Coordinator
  after = move ops unmarshal describe g concurrency

  -- The first ready task goes to the pool.
  dispatch-Good :
      (t : Task) (ts : List Task) (s : Coordinator)
      → s.ready ≡ t ∷ ts
      → Good s
      → Outstanding ops unmarshal g s.state s.output ts
          (s.in_pool ++ (t ∷ []))
          (s.in_flight +ℤ pos 1)
  dispatch-Good t ts s e inv = record {
    tasks = λ id. ground (
      arith,
      inv.tasks id,
      ap (tasks_of id) e,
      count-append (λ (u : Task). u.attr_to == id) s.in_pool (t ∷ []),
    );
    counted =
        ap (λ n. n +ℤ pos 1) inv.counted
        ∙ one_more (length s.in_pool)
        ∙ ap pos (omega (arith, length-append s.in_pool (t ∷ [])));
    allowed = inv.allowed;
  }

  finish-Left :
      (i : ℕ) (t : Task) (s : Coordinator)
      → get_elem? s.in_pool i ≡ some t
      → Good s
      → Left ops unmarshal g t.attr_to s.state s.output s.ready
          (remove_at i s.in_pool)
          (s.in_flight -ℤ pos 1)
  finish-Left i t s e inv = record {
    tasks = λ id.
        omega
          (arith, inv.tasks id, count-remove_at (λ (u : Task). u.attr_to == id) i s.in_pool t e);
    counted =
        ap (λ n. n -ℤ pos 1) (inv.counted ∙ ap pos (sym (length-remove_at i s.in_pool t e)))
        ∙ one_less (length (remove_at i s.in_pool));
    allowed = inv.allowed;
  }

  take_ready-Good :
      (q : List Task) (s : Coordinator)
      → s.ready ≡ q
      → Good s
      → Holds Good (take_ready ops unmarshal describe g concurrency q s)
  unfolding take_ready
  take_ready-Good [] s e inv = tt
  take_ready-Good (t ∷ ts) s e inv =
      Holds-if Good (not s.halted && ltb (length s.in_pool) concurrency) _
        (dispatch-Good t ts s e inv)

  finish_task-Good :
      (i : ℕ) (res : NodeResult) (failure p : Option Error) (ms : ℤ) (o : Option Task)
      (s : Coordinator)
      → get_elem? s.in_pool i ≡ o
      → Good s
      → Holds Good (finish_task ops unmarshal describe g concurrency i res failure p ms o s)
  unfolding finish_task
  finish_task-Good i res failure p ms none s e inv = tt
  finish_task-Good i res failure p ms (some t) s e inv =
      let c = completion_of ops unmarshal describe g concurrency t res failure in
      let s' = record s { in_pool = remove_at i s.in_pool } in
      process_decisions-Inv ops unmarshal g (handle_completion ops unmarshal describe g p ms c s')
        (handle_completion-Inv ops unmarshal describe g p ms c s' (finish-Left i t s e inv))

  pub move-Good : (m : Move) (s : Coordinator) → Good s → Holds Good (after m s)
  unfolding move
  move-Good dispatch s inv = take_ready-Good s.ready s refl inv
  move-Good (finish i res failure p ms) s inv =
      finish_task-Good i res failure p ms (get_elem? s.in_pool i) s refl inv
  move-Good (context_done p) s inv =
      Holds-if Good (s.ctx_open && (s.ctx_cancelled || is_some p)) _
        (cancel_halt-Inv ops unmarshal describe g p (record s { ctx_open = false }) inv)

-- Before the first decision nothing runs.
record Seeded (s : Coordinator) : Type 0 where
  idle : (id : String) → is_running (at id unset s.state) ≡ false
  none_ready : s.ready ≡ []
  none_taken : s.in_pool ≡ []
  none_counted : s.in_flight ≡ pos 0

seed_node-Seeded :
    (pre : Map NodeOutput) (s : Coordinator) (n : Node) → Seeded s → Seeded (seed_node pre s n)
seed_node-Seeded pre s n h = record {
  idle = λ id. ground (
    arith,
    h.idle id,
    at-insert n.id id succeeded unset s.state,
    at-insert n.id id pending unset s.state,
  );
  none_ready = ground (arith, h.none_ready);
  none_taken = ground (arith, h.none_taken);
  none_counted = ground (arith, h.none_counted);
}

seed-Seeded :
    (pre : Map NodeOutput) (ns : List Node) (s : Coordinator)
    → Seeded s
    → Seeded (foldl (seed_node pre) s ns)
seed-Seeded pre [] s h = h
seed-Seeded pre (n ∷ ns) s h = seed-Seeded pre ns (seed_node pre s n) (seed_node-Seeded pre s n h)

module _ (ops : FloatOps) (unmarshal : String → Option Value) (describe : Error → String)
    (g : Graph) where
  Seeded-Outstanding :
      (s : Coordinator)
      → Seeded s
      → Outstanding ops unmarshal g s.state s.output s.ready s.in_pool s.in_flight
  Seeded-Outstanding s h = record {
    tasks = λ id.
        ground (arith, h.idle id, ap (tasks_of id) h.none_ready, ap (tasks_of id) h.none_taken);
    counted = ground (arith, h.none_counted, ap (λ (l : List Task). length l) h.none_taken);
    allowed = λ id r. cc (h.idle id);
  }

  pub start-Good :
      (limit : Budget) (pre : Map NodeOutput)
      → Inv ops unmarshal g (start ops unmarshal describe g limit pre)
  unfolding start
  start-Good limit pre =
      process_decisions-Inv ops unmarshal g (seeded ops unmarshal describe g limit pre) (
        Seeded-Outstanding (seeded ops unmarshal describe g limit pre) (
          reseed (
            seed-Seeded pre g.nodes (blank g (new_budget_tracker ops limit)) (record {
              idle = λ id. blank_idle id;
              none_ready = refl;
              none_taken = refl;
              none_counted = refl;
            }))))
    where
      blank_idle : (id : String) → is_running (at id unset []) ≡ false
      blank_idle id = unfold at lookup in refl

      reseed :
          {s : Coordinator}
          → Seeded s
          → Seeded (record s {
            pending_parents = account_precompleted g pre g.pending_parents;
            to_decide =
                initial_queue g s.state (account_precompleted g pre g.pending_parents) g.nodes;
          })
      reseed h = record {
        idle = h.idle;
        none_ready = h.none_ready;
        none_taken = h.none_taken;
        none_counted = h.none_counted;
      }

  -- The account of the outstanding tasks is right in every state that a run reaches.
  pub reached-Inv :
      (limit : Budget) (pre : Map NodeOutput) (concurrency : ℕ) (ms : List Move) (s : Coordinator)
      → steps ops unmarshal describe g concurrency ms (start ops unmarshal describe g limit pre)
        ≡ some s
      → Inv ops unmarshal g s
  reached-Inv limit pre concurrency ms s e = Holds-some (Inv ops unmarshal g) _ s e (
      steps_rule ops unmarshal describe g concurrency (Inv ops unmarshal g)
        (move-Good ops unmarshal describe g concurrency) ms
        (start ops unmarshal describe g limit pre) (start-Good limit pre))
