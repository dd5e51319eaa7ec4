-- ===== src/Engine/Scheduler/Graph.antt =====
-- The structures that run builds from a workflow: core/engine/scheduler.go, "Build graph
-- structures".
use mathlib.Core.List.{foldl}
use workflow_execution_engin.Prelude.{
  String, Bool, true, ◌&&◌, Option, none, some, List, [], ◌∷◌, ◌++◌, ◌==◌, if◌then◌else◌, is_some,
  Map, lookup, insert, at, ℤ, pos, ◌+ℤ◌,
}
use workflow_execution_engin.Domain.Workflow.{fail_fallback, FailurePolicy, Node, Edge, Workflow}

pub record Graph : Type 0 where
  pub nodes : List Node
  pub nodes_by_id : Map Node
  pub children : Map (List String)
  pub parents : Map (List Edge)
  pub pending_parents : Map ℤ
  pub fallback_only : Map Bool

-- m[k] = append(m[k], x)
abbrev pub append_at : {A : Type 0} → String → A → Map (List A) → Map (List A)
append_at k x m = insert k (at k [] m ++ (x ∷ [])) m

abbrev pub add_node : Graph → Node → Graph
add_node g n = record g {
  nodes_by_id = insert n.id n g.nodes_by_id;
  pending_parents = insert n.id (pos 0) g.pending_parents;
}

abbrev pub add_edge : Graph → Edge → Graph
add_edge g e =
    if is_some (lookup e.source g.nodes_by_id) && is_some (lookup e.target g.nodes_by_id)
    then record g {
      children = append_at e.source e.target g.children;
      parents = append_at e.target e g.parents;
      pending_parents =
          insert e.target (at e.target (pos 0) g.pending_parents +ℤ pos 1) g.pending_parents;
    }
    else g

abbrev pub fallback_target : Option FailurePolicy → Option String
fallback_target none = none
fallback_target (some p) = elim p.mode [
  | fail_fallback ↦ if p.fallback_node == "" then none else some p.fallback_node
  | _ ↦ none
]

abbrev pub add_fallback : Graph → Node → Graph
add_fallback g n = elim (fallback_target n.on_failure) [
  | none ↦ g
  | some target ↦ record g { fallback_only = insert target true g.fallback_only }
]

abbrev pub empty_graph : List Node → Graph
empty_graph nodes = record {
  nodes = nodes;
  nodes_by_id = [];
  children = [];
  parents = [];
  pending_parents = [];
  fallback_only = [];
}

unfoldable pub build_graph : Workflow → Graph
build_graph wf =
    foldl add_fallback (foldl add_edge (foldl add_node (empty_graph wf.nodes) wf.nodes) wf.edges)
      wf.nodes
