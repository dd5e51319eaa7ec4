-- ===== src/Engine/Scheduler/Dispatch.antt =====
-- Which tasks a run dispatches: the guarantees that the loop of core/engine/scheduler.go gives, in
-- terms of the workflow.
use workflow_execution_engin.Prelude.{
  ℕ, ◌+◌, ◌<◌, String, ◌≡◌, refl, sym, ap, ◌∙◌, inl, inr, Bool, true, false, ◌&&◌, ◌||◌, Option,
  none, some, List, [], ◌∷◌, ◌++◌, arith, ◌==◌, eq_iff, if◌then◌else◌, Bool-cases, is_some, length,
  filter, Map, lookup, insert, at, lookup-insert, at-insert, pos,
}
use workflow_execution_engin.Domain.Value.{Value, FloatOps}
use workflow_execution_engin.Domain.Workflow.{Node, Edge, Budget, Workflow}
use workflow_execution_engin.Domain.Error.{Error}
use mathlib.Core.List.{foldl, append-nil, append_assoc}
use mathlib.Core.Path.{subst}
use workflow_execution_engin.Engine.Types.{unset, is_running, NodeOutput}
use workflow_execution_engin.Engine.Scheduler.Graph.{
  Graph, add_node, add_edge, add_fallback, empty_graph, fallback_target, build_graph,
}
use workflow_execution_engin.Engine.Scheduler.Coordinator.{Coordinator}
use workflow_execution_engin.Engine.Scheduler.Loop.{start, Move, steps}
use workflow_execution_engin.Engine.Scheduler.Shapes.{Allowed}
use workflow_execution_engin.Engine.Scheduler.Outstanding.{tasks_of, one_if}
use workflow_execution_engin.Engine.Scheduler.Reachable.{reached-Inv}

abbrev pub has_node : String → List Node → Bool
has_node id [] = false
has_node id (n ∷ ns) = (n.id == id) || has_node id ns

-- an edge of the workflow into a node, between nodes of the workflow
abbrev pub enters : List Node → String → Edge → Bool
enters ns id e = (e.target == id) && has_node e.source ns && has_node e.target ns

abbrev pub incoming : Workflow → String → List Edge
incoming wf id = filter (enters wf.nodes id) wf.edges

known_nodes :
    (x : String) (ns : List Node) (g : Graph)
    → is_some (lookup x (foldl add_node g ns).nodes_by_id)
      ≡ (is_some (lookup x g.nodes_by_id) || has_node x ns)
known_nodes x [] g = ground arith
known_nodes x (n ∷ ns) g =
    ground (arith, known_nodes x ns (add_node g n), lookup-insert n.id x n g.nodes_by_id)

add_node-parents : (ns : List Node) (g : Graph) → (foldl add_node g ns).parents ≡ g.parents
add_node-parents [] g = refl
add_node-parents (n ∷ ns) g = add_node-parents ns (add_node g n)

add_fallback_parents : (g : Graph) (n : Node) → (add_fallback g n).parents ≡ g.parents
add_fallback_parents g n = by_target (fallback_target n.on_failure)
  where
    by_target :
        (o : Option String)
        → (elim o as (λ _. Graph) [
          | none ↦ g
          | some t ↦ record g { fallback_only = insert t true g.fallback_only }
        ]).parents
          ≡ g.parents
    by_target none = refl
    by_target (some t) = refl

all_fallbacks-parents : (ns : List Node) (g : Graph) → (foldl add_fallback g ns).parents ≡ g.parents
all_fallbacks-parents [] g = refl
all_fallbacks-parents (n ∷ ns) g =
    all_fallbacks-parents ns (add_fallback g n) ∙ add_fallback_parents g n

abbrev known : Map Node → String → Edge → Bool
known m id e = (e.target == id) && is_some (lookup e.source m) && is_some (lookup e.target m)

abbrev one_edge : Map Node → String → Edge → List Edge
one_edge m id e = if known m id e then e ∷ [] else []

add_edge-parents :
    (id : String) (g : Graph) (e : Edge)
    → at id [] (add_edge g e).parents ≡ at id [] g.parents ++ one_edge g.nodes_by_id id e
add_edge-parents id g e = ground (
  arith,
  append-nil (at id [] g.parents),
  eq_iff e.target id,
  at-insert e.target id (at e.target [] g.parents ++ (e ∷ [])) [] g.parents,
)

add_edge-nodes : (g : Graph) (e : Edge) → (add_edge g e).nodes_by_id ≡ g.nodes_by_id
add_edge-nodes g e = ground arith

one_edge-filter :
    (m : Map Node) (id : String) (e : Edge) (es : List Edge)
    → one_edge m id e ++ filter (known m id) es ≡ filter (known m id) (e ∷ es)
one_edge-filter m id e es = elim (Bool-cases (known m id e)) [
  | inl k ↦ rw k refl
  | inr k ↦ rw k refl
]

all_edges-parents :
    (id : String) (es : List Edge) (g : Graph)
    → at id [] (foldl add_edge g es).parents
      ≡ at id [] g.parents ++ filter (known g.nodes_by_id id) es
all_edges-parents id [] g = sym (append-nil (at id [] g.parents))
all_edges-parents id (e ∷ es) g =
    all_edges-parents id es (add_edge g e)
    ∙ ap (λ m. at id [] (add_edge g e).parents ++ filter (known m id) es) (add_edge-nodes g e)
    ∙ ap (λ l. l ++ filter (known g.nodes_by_id id) es) (add_edge-parents id g e)
    ∙ append_assoc (at id [] g.parents) (one_edge g.nodes_by_id id e)
        (filter (known g.nodes_by_id id) es)
    ∙ ap (λ l. at id [] g.parents ++ l) (one_edge-filter g.nodes_by_id id e es)

abbrev pub with_nodes : List Node → Graph
with_nodes ns = foldl add_node (empty_graph ns) ns

has_node-known :
    (x : String) (ns : List Node) → is_some (lookup x (with_nodes ns).nodes_by_id) ≡ has_node x ns
unfolding lookup
has_node-known x ns = known_nodes x ns (empty_graph ns)

known-enters :
    (ns : List Node) (id : String) (es : List Edge)
    → filter (known (with_nodes ns).nodes_by_id id) es ≡ filter (enters ns id) es
known-enters ns id [] = refl
known-enters ns id (e ∷ es) =
    rw (has_node-known e.source ns, has_node-known e.target ns, known-enters ns id es) refl

-- The parents that the scheduler knows of a node are the edges of the workflow into it.
pub build_graph-parents :
    (wf : Workflow) (id : String) → at id [] (build_graph wf).parents ≡ incoming wf id
unfolding build_graph at lookup
build_graph-parents wf id =
    ap (at id []) (all_fallbacks-parents wf.nodes (foldl add_edge (with_nodes wf.nodes) wf.edges))
    ∙ all_edges-parents id wf.edges (with_nodes wf.nodes)
    ∙ ap (λ m. at id [] m ++ filter (known (with_nodes wf.nodes).nodes_by_id id) wf.edges)
        (add_node-parents wf.nodes (empty_graph wf.nodes))
    ∙ known-enters wf.nodes id wf.edges

module _ (ops : FloatOps) (unmarshal : String → Option Value) (describe : Error → String)
    (wf : Workflow) (limit : Budget) (pre : Map NodeOutput) (concurrency : ℕ) where
  -- A node whose task is ready or taken was released by every edge into it: in every state that a
  -- run reaches, each edge of the workflow into such a node, between nodes of the workflow, comes
  -- from a node that has succeeded, and its condition holds of that node's output.
  pub dispatched-Allowed :
      (ms : List Move) (s : Coordinator) (id : String)
      → steps ops unmarshal describe
          (build_graph wf)
          concurrency
          ms
          (start ops unmarshal describe (build_graph wf) limit pre)
        ≡ some s
      → 0 < tasks_of id s.ready + tasks_of id s.in_pool
      → Allowed ops unmarshal s.state s.output (incoming wf id)
  dispatched-Allowed ms s id e h =
      let i = reached-Inv ops unmarshal describe (build_graph wf) limit pre concurrency ms s e in
      subst (Allowed ops unmarshal s.state s.output) (build_graph-parents wf id)
        (i.allowed id (runs (is_running (at id unset s.state)) (i.tasks id) h))
    where
      runs : {n : ℕ} (b : Bool) → n ≡ one_if b → 0 < n → b ≡ true
      runs true p q = refl
      runs false p q = absurd (omega arith)

  -- In every state that a run reaches, one task, ready or taken, is attributed to each node that is
  -- running, and none to any other; and inFlight counts the tasks that are taken. (The task of a node
  -- that is tried again by its fallback executes the fallback, but is attributed to the node.)
  pub dispatched_once :
      (ms : List Move) (s : Coordinator)
      → steps ops unmarshal describe
          (build_graph wf)
          concurrency
          ms
          (start ops unmarshal describe (build_graph wf) limit pre)
        ≡ some s
      → ((id : String)
          → tasks_of id s.ready + tasks_of id s.in_pool ≡ one_if (is_running (at id unset s.state)))
        × (s.in_flight ≡ pos (length s.in_pool))
  dispatched_once ms s e =
      let i = reached-Inv ops unmarshal describe (build_graph wf) limit pre concurrency ms s e in
      (i.tasks, i.counted)
