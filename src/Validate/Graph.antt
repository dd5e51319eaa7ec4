-- ===== src/Validate/Graph.antt =====
-- core/validate/graph.go: the edges of a workflow, what is upstream of a node, and Graph itself. The
-- counts of incoming edges, which nothing reads, are left out.
use workflow_execution_engin.Prelude.{
  ℕ, zero, suc, ◌+◌, String, Bool, true, false, not, ◌&&◌, Option, none, some, List, [], ◌∷◌, ◌++◌,
  map, ◌==◌, ltb, if◌then◌else◌, is_some, length, Map, lookup, insert, at,
}
use mathlib.Core.List.{foldl}
use workflow_execution_engin.Domain.Workflow.{
  ContextMode, context_artifacts, Node, Edge, InputDecl, Workflow,
}
use workflow_execution_engin.Validate.Problem.{
  Pointer, at_key, at_index, orphan, cycle_detected, unknown_artifact, not_upstream, Problem,
  LineResolver,
}
use workflow_execution_engin.Validate.Cycle.{find_cycle}
use workflow_execution_engin.Validate.Nodes.{
  node_pointer, report, index_nodes, check_node_ref, check_input_refs, edge_endpoint,
}

abbrev pub append_to : String → String → Map (List String) → Map (List String)
append_to k x m = insert k (at k [] m ++ (x ∷ [])) m

-- what the loop over the edges collects
pub record Links : Type 0 where
  pub adj : Map (List String)
  pub touched : Map Bool
  pub problems : List Problem

-- an edge whose ends both exist
abbrev pub link : Edge → Links → Links
link e l = record l {
  adj = append_to e.source e.target l.adj;
  touched = insert e.target true (insert e.source true l.touched);
}

-- the nodes that an edge comes from, for each node
unfoldable pub reverse_into : String → List String → Map (List String) → Map (List String)
reverse_into source [] rev = rev
reverse_into source (t ∷ ts) rev = reverse_into source ts (append_to t source rev)

unfoldable pub reversed : Map (List String) → Map (List String) → Map (List String)
unfolding reverse_into
reversed [] rev = rev
reversed ((source, targets) ∷ m) rev = reversed m (reverse_into source targets rev)

abbrev pub under : String → Option (String × List String) → Option (String × List String)
under x none = none
under x (some (y, ys)) = some (y, x ∷ ys)

-- the top of a stack, which is its last element, and the rest
unfoldable pub pop : List String → Option (String × List String)
pop [] = none
pop (x ∷ []) = some (x, [])
pop (x ∷ y ∷ ys) = under x (pop (y ∷ ys))

unfoldable pub flood_up : ℕ → Map (List String) → List String → Map Bool → Map Bool
unfolding pop
flood_up zero rev stack seen = seen
flood_up (suc fuel) rev stack seen = elim (pop stack) [
  | none ↦ seen
  | some t ↦
      let skip = flood_up fuel rev t.1 seen in
      let rest = flood_up fuel rev (t.1 ++ at t.0 [] rev) (insert t.0 true seen) in
      if at t.0 false seen then skip else rest
]

unfoldable pub total_links : Map (List String) → ℕ
total_links [] = 0
total_links ((k, xs) ∷ m) = length xs + total_links m

-- Each node that is seen for the first time pushes its parents once.
unfoldable pub ancestors_of : String → Map (List String) → Map Bool
unfolding reversed flood_up total_links
ancestors_of target adj =
    let rev = reversed adj [] in
    flood_up (suc (total_links rev + total_links rev)) rev (at target [] rev) []

abbrev pub is_artifacts : ContextMode → Bool
is_artifacts context_artifacts = true
is_artifacts _ = false

-- the artifacts that a node's policy names, if it is one on artifacts
abbrev pub artifact_refs : Node → Option (List String)
artifact_refs n = elim n.context_policy [
  | none ↦ none
  | some p ↦ if is_artifacts p.mode then p.params else none
]

abbrev pub first_of : List String → String
first_of [] = ""
first_of (x ∷ xs) = x

abbrev pub node_ids : List Node → List String
node_ids ns = map (λ (n : Node). n.id) ns

abbrev pub declared_inputs : List InputDecl → Map Bool
declared_inputs ds = foldl (λ m (d : InputDecl). insert d.name true m) [] ds

abbrev pub no_links : Links
no_links = record { adj = []; touched = []; problems = [] }

module _ (src : Option LineResolver) where
  -- the body of the loop over the edges
  unfoldable pub link_edge : Map ℕ → ℕ → Edge → Links → Links
  unfolding edge_endpoint
  link_edge index i e l =
      let a = edge_endpoint src index i "from" e.source in
      let b = edge_endpoint src index i "to" e.target in
      let l' = record l { problems = l.problems ++ (a.1 ++ b.1) } in
      if a.0 && b.0 then link e l' else l'

  unfoldable pub link_edges : Map ℕ → ℕ → List Edge → Links → Links
  unfolding link_edge
  link_edges index i [] l = l
  link_edges index i (e ∷ es) l = link_edges index (suc i) es (link_edge index i e l)

  unfoldable pub orphans : Map ℕ → Map Bool → List Node → List Problem
  unfolding report
  orphans index touched [] = []
  orphans index touched (n ∷ ns) =
      let rest = orphans index touched ns in
      if not (n.id == "") && not (at n.id false touched)
      then report src (node_pointer (at n.id 0 index)) (orphan n.id) ++ rest
      else rest

  unfoldable pub check_refs : Map ℕ → Map Bool → String → Pointer → ℕ → List String → List Problem
  unfolding report
  check_refs index ancestors id ptr j [] = []
  check_refs index ancestors id ptr j (ref ∷ refs) =
      let here = ptr ++ (at_index j ∷ []) in
      let rest = check_refs index ancestors id ptr (suc j) refs in
      if not (is_some (lookup ref index))
      then report src here (unknown_artifact id ref) ++ rest
      else if not (at ref false ancestors)
      then report src here (not_upstream id ref) ++ rest
      else rest

  unfoldable pub check_context_artifacts : Map ℕ → Map (List String) → ℕ → List Node → List Problem
  unfolding check_refs ancestors_of
  check_context_artifacts index adj i [] = []
  check_context_artifacts index adj i (n ∷ ns) =
      let rest = check_context_artifacts index adj (suc i) ns in
      elim (artifact_refs n) [
        | none ↦ rest
        | some refs ↦
            check_refs index (ancestors_of n.id adj) n.id
              (node_pointer i
                ++ (at_key "contextPolicy" ∷ at_key "params" ∷ at_key "artifacts" ∷ []))
              0 refs
            ++ rest
      ]

  -- the last check: the cycles, or else the artifacts
  unfoldable pub check_order :
      Option (List String) → Map ℕ → Map (List String) → List Node → List Problem
  unfolding report check_context_artifacts
  check_order (some c) index adj ns =
      report src (node_pointer (at (first_of c) 0 index)) (cycle_detected c)
  check_order none index adj ns = check_context_artifacts index adj 0 ns

  -- The problems that Graph reports, of which there are none in a valid workflow.
  unfoldable pub graph : Workflow → List Problem
  unfolding index_nodes check_node_ref check_input_refs link_edges orphans check_order find_cycle
  graph wf =
      let ids = index_nodes src 0 wf.nodes [] in
      let links = link_edges ids.1 0 wf.edges no_links in
      ids.0
      ++ check_node_ref src 0 wf.nodes
      ++ check_input_refs src (declared_inputs wf.inputs) 0 wf.nodes
      ++ links.problems
      ++ (if ltb 1 (length wf.nodes) then orphans ids.1 links.touched wf.nodes else [])
      ++ check_order (find_cycle (node_ids wf.nodes) links.adj) ids.1 links.adj wf.nodes
