-- ===== src/Engine/Scheduler/Fed.antt =====
-- The inputs that processDecisions of core/engine/scheduler.go puts together for a node.
use workflow_execution_engin.Prelude.{
  All, All-append, All-map, Bool, Bool-cases, List, Map, Option, String, [], ap, arith, at, eq_iff,
  false, get_elem?, get_or, if◌then◌else◌, inl, inr, insert, is_some, lookup, lookup-insert, map,
  none, refl, some, suc, sym, true, zero, ℕ, ◌++◌, ◌==◌, ◌∙◌, ◌∷◌, ◌≡◌,
}
use workflow_execution_engin.Domain.Value.{FloatOps, Value}
use workflow_execution_engin.Domain.Workflow.{Edge}
use workflow_execution_engin.Domain.Error.{Error, Fallible, err, is, ok}
use mathlib.Core.Path.{subst}
use workflow_execution_engin.Engine.Types.{
  NodeInput, NodeState, Task, bare_outcome, is_pending, is_succeeded, no_node, skipped,
}
use workflow_execution_engin.Engine.Scheduler.Graph.{Graph}
use workflow_execution_engin.Engine.Scheduler.Coordinator.{
  Coordinator, Decision, cancel_halt, conclude, decide, edge_holds, follow, halt, inspect_edge,
  inspect_edges, process_decisions, settle, state_of,
}
use workflow_execution_engin.Engine.Scheduler.Shapes.{
  halt-Halting, inspect_edges-Halting, process_decisions_rule, settle-Requeued,
}
use workflow_execution_engin.Engine.Scheduler.Loop.{remove_at}
use mathlib.Core.List.{append_assoc, append-nil}

-- The sources of a node's inputs are those of the edges into it, one by one.
abbrev pub IsSourced : Graph → String → List NodeInput → Type 0
IsSourced g id is =
    map (λ (i : NodeInput). i.from_node) is ≡ map (λ (e : Edge). e.source) (at id [] g.parents)

map-append : {A B : Type 0} (f : A → B) (xs ys : List A) → map f (xs ++ ys) ≡ map f xs ++ map f ys
map-append f [] ys = refl
map-append f (x ∷ xs) ys = ap (λ l. f x ∷ l) (map-append f xs ys)

abbrev pub Given : {A : Type 0} → (A → Type 0) → Option A → Type 0
Given Q none = Unit
Given Q (some x) = Q x

pub All-get :
    {A : Type 0} (Q : A → Type 0) (i : ℕ) (xs : List A) (x : A)
    → All Q xs
    → get_elem? xs i ≡ some x
    → Q x
All-get Q i [] x h e = cc
All-get Q zero (y ∷ ys) x h e = subst (λ (o : Option _). Given Q o) e h.0
All-get Q (suc i) (y ∷ ys) x h e = All-get Q i ys x h.1 e

pub All-remove_at :
    {A : Type 0} (Q : A → Type 0) (i : ℕ) (xs : List A) → All Q xs → All Q (remove_at i xs)
unfolding remove_at
All-remove_at Q i [] h = tt
All-remove_at Q zero (y ∷ ys) h = h.1
All-remove_at Q (suc i) (y ∷ ys) h = (h.0, All-remove_at Q i ys h.1)

module _ (g : Graph) where
  -- A task has the inputs of the node that it is attributed to, and these were recorded.
  abbrev pub IsFed : Map (List NodeInput) → Task → Type 0
  IsFed used t = IsSourced g t.attr_to t.inputs × (is_some (lookup t.attr_to used) ≡ true)

  pub record Feeding (ready pool : List Task) (used : Map (List NodeInput)) : Type 0 where
    pub waiting : All (IsFed used) ready
    pub taken : All (IsFed used) pool
    pub recorded : (id : String) → Given (IsSourced g id) (lookup id used)

  abbrev pub Fed : Coordinator → Type 0
  Fed s = Feeding s.ready s.in_pool s.inputs_used

  pub recorded-IsSourced :
      (id : String) (o : Option (List NodeInput))
      → Given (IsSourced g id) o
      → is_some o ≡ true
      → IsSourced g id (get_or o [])
  recorded-IsSourced id none h k = cc
  recorded-IsSourced id (some is) h k = h

  IsFed-insert :
      (id : String) (is : List NodeInput) (used : Map (List NodeInput)) (t : Task)
      → IsFed used t
      → IsFed (insert id is used) t
  IsFed-insert id is used t h = (h.0, ground (arith, h.1, lookup-insert id t.attr_to is used))

  -- a decided node's task
  feed :
      (id : String) (t : Task) (ready pool : List Task) (used : Map (List NodeInput))
      → t.attr_to ≡ id
      → IsSourced g id t.inputs
      → Feeding ready pool used
      → Feeding (ready ++ (t ∷ [])) pool (insert id t.inputs used)
  feed id t ready pool used a h i = record {
    waiting =
        All-append (IsFed (insert id t.inputs used)) ready (t ∷ [])
          (All-map (IsFed used) ready (IsFed-insert id t.inputs used) i.waiting)
          ((subst (λ j. IsSourced g j t.inputs) (sym a) h, new), tt);
    taken = All-map (IsFed used) pool (IsFed-insert id t.inputs used) i.taken;
    recorded =
        λ j. subst (Given (IsSourced g j)) (sym (lookup-insert id j t.inputs used)) (written j);
  }
    where
      written :
          (j : String) → Given (IsSourced g j) (if id == j then some t.inputs else lookup j used)
      written j = elim (Bool-cases (id == j)) [
        | inl q ↦ rw q (subst (λ k. IsSourced g k t.inputs) ((eq_iff id j).0 q) h)
        | inr q ↦ rw q (i.recorded j)
      ]

      new : is_some (lookup t.attr_to (insert id t.inputs used)) ≡ true
      new = ground (arith, lookup-insert id t.attr_to t.inputs used, eq_iff id t.attr_to, a)

  -- the task of a fallback
  pub feed_again :
      (t : Task) (ready pool : List Task) (used : Map (List NodeInput))
      → IsFed used t
      → Feeding ready pool used
      → Feeding (ready ++ (t ∷ [])) pool used
  feed_again t ready pool used h i = record {
    waiting = All-append (IsFed used) ready (t ∷ []) i.waiting (h, tt);
    taken = i.taken;
    recorded = i.recorded;
  }

pub halt-Fed : (g : Graph) (e : Error) (s : Coordinator) → Fed g s → Fed g (halt e s)
halt-Fed g e s i = subst (λ (u : Coordinator). Fed g u) (sym (halt-Halting e s).same) i

pub cancel_halt-Fed :
    (g : Graph) (p : Option Error) (s : Coordinator) → Fed g s → Fed g (cancel_halt p s)
unfolding cancel_halt
cancel_halt-Fed g p s i = elim (Bool-cases s.halted) [ inl h ↦ rw h i | inr h ↦ rw h i ]

module _ (ops : FloatOps) (unmarshal : String → Option Value) (g : Graph) where
  -- the source of an edge is added, where the edge allows the node
  follow_sources :
      (r : Fallible Bool) (e : Edge) (d : Decision) (s : Coordinator)
      → (follow ops unmarshal g r e (d, s)).0.active ≡ true
      → (d.active ≡ true)
        × (map (λ (i : NodeInput). i.from_node) (follow ops unmarshal g r e (d, s)).0.inputs
            ≡ map (λ (i : NodeInput). i.from_node) d.inputs ++ (e.source ∷ []))
  unfolding follow
  follow_sources (err x) e d s h = cc
  follow_sources (ok false) e d s h = cc
  follow_sources (ok true) e d s h = (h, map-append _ d.inputs _)

  inspect_edge_sources :
      (e : Edge) (d : Decision) (s : Coordinator)
      → (inspect_edge ops unmarshal g (d, s) e).0.active ≡ true
      → (d.active ≡ true)
        × (map (λ (i : NodeInput). i.from_node) (inspect_edge ops unmarshal g (d, s) e).0.inputs
            ≡ map (λ (i : NodeInput). i.from_node) d.inputs ++ (e.source ∷ []))
  unfolding inspect_edge
  inspect_edge_sources e d s = by_state (is_succeeded (state_of s e.source))
    where
      by_state :
          (b : Bool)
          → (if b
              then follow ops unmarshal g (edge_holds ops unmarshal g s e) e (d, s)
              else (record d { active = false }, s)).0.active
            ≡ true
          → (d.active ≡ true)
            × (map
                  (λ (i : NodeInput). i.from_node)
                  (if b
                    then follow ops unmarshal g (edge_holds ops unmarshal g s e) e (d, s)
                    else (record d { active = false }, s)).0.inputs
                ≡ map (λ (i : NodeInput). i.from_node) d.inputs ++ (e.source ∷ []))
      by_state true h = follow_sources (edge_holds ops unmarshal g s e) e d s h
      by_state false h = cc

  inspect_edges_sources :
      (es : List Edge) (d : Decision) (s : Coordinator)
      → (inspect_edges ops unmarshal g es (d, s)).0.active ≡ true
      → (d.active ≡ true)
        × (map (λ (i : NodeInput). i.from_node) (inspect_edges ops unmarshal g es (d, s)).0.inputs
            ≡ map (λ (i : NodeInput). i.from_node) d.inputs ++ map (λ (e : Edge). e.source) es)
  unfolding inspect_edges
  inspect_edges_sources [] d s h = (h, sym (append-nil _))
  inspect_edges_sources (e ∷ es) d s h =
      let (d', s') = inspect_edge ops unmarshal g (d, s) e in
      let rest = inspect_edges_sources es d' s' h in
      let here = inspect_edge_sources e d s rest.0 in
      (
        here.0,
        rest.1
            ∙ ap (λ l. l ++ map (λ (e : Edge). e.source) es) here.1
            ∙ append_assoc (map (λ (i : NodeInput). i.from_node) d.inputs) (e.source ∷ []) _,
      )

  pub settle-Fed :
      (id : String) (st : NodeState) (s : Coordinator)
      → Fed g s
      → Fed g (settle ops unmarshal g id st s)
  settle-Fed id st s i =
      subst (λ (u : Coordinator). Fed g u) (sym (settle-Requeued ops unmarshal g id st s).same) i

  conclude-Fed :
      (id : String) (d : Decision) (s : Coordinator)
      → (d.active ≡ true → IsSourced g id d.inputs)
      → Fed g s
      → Fed g (conclude ops unmarshal g id (d, s))
  unfolding conclude
  conclude-Fed id d s h i = elim (Bool-cases d.active) [
    | inl a ↦ rw a (
        feed g id (record { node = at id no_node g.nodes_by_id; inputs = d.inputs; attr_to = id })
          s.ready s.in_pool s.inputs_used refl (h a) i)
    | inr n ↦ rw n (
        settle-Fed id skipped (record s { outcomes = insert id (bare_outcome skipped) s.outcomes })
          i)
  ]

  decide-Fed : (id : String) (s : Coordinator) → Fed g s → Fed g (decide ops unmarshal g id s)
  unfolding decide
  decide-Fed id s i = elim (Bool-cases (is_pending (state_of s id))) [
    | inl p ↦ rw p (
        let es = at id [] g.parents in
        let d0 : Decision = record { active = true; inputs = [] } in
        let (d, t) = inspect_edges ops unmarshal g es (d0, s) in
        conclude-Fed id d t (λ a. (inspect_edges_sources es d0 s a).1)
          (subst (λ (u : Coordinator). Fed g u)
            (sym (inspect_edges-Halting ops unmarshal g es d0 s).same) i))
    | inr n ↦ rw n i
  ]

  pub process_decisions-Fed :
      (s : Coordinator) → Fed g s → Fed g (process_decisions ops unmarshal g s)
  process_decisions-Fed =
      process_decisions_rule ops unmarshal g (Fed g)
        (λ id rest s i. decide-Fed id (record s { to_decide = rest }) i)
