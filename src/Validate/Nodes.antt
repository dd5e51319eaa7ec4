-- ===== src/Validate/Nodes.antt =====
-- core/validate/graph.go: the checks on the nodes of a workflow, and on the ends of its edges. `range` over a Go map
-- follows the order of the association list.
use workflow_execution_engin.Prelude.{
  ℕ, suc, String, Bool, true, false, not, ◌&&◌, Option, none, some, List, [], ◌∷◌, ◌++◌, ◌==◌,
  if◌then◌else◌, is_some, Map, lookup, insert, at, placeholder,
}
use workflow_execution_engin.Domain.Value.{
  Value, null, bool, float, int, text, array, object, Items, nil, cons, Fields, end, field,
}
use workflow_execution_engin.Domain.Workflow.{Node}
use workflow_execution_engin.Validate.Problem.{
  Pointer, at_key, at_index, Message, empty_id, duplicate_id, no_reference, two_references,
  undeclared_input, unknown_end, Problem, LineResolver, problem_at,
}

abbrev pub node_pointer : ℕ → Pointer
node_pointer i = at_key "nodes" ∷ at_index i ∷ []

-- "${input:NAME}", as a whole
abbrev pub input_name : String → Option String
input_name s = placeholder "${input:" s

unfoldable mutual
  -- the placeholders that walkInputRefs reports, with their pointers
  pub walk_input_refs : Value → Pointer → List (String × Pointer)
  walk_input_refs null ptr = []
  walk_input_refs (bool b) ptr = []
  walk_input_refs (float x) ptr = []
  walk_input_refs (int n) ptr = []
  walk_input_refs (text s) ptr = elim (input_name s) [ none ↦ [] | some name ↦ (name, ptr) ∷ [] ]
  walk_input_refs (array vs) ptr = walk_items vs 0 ptr
  walk_input_refs (object fs) ptr = walk_fields fs ptr

  walk_items : Items → ℕ → Pointer → List (String × Pointer)
  walk_items nil i ptr = []
  walk_items (cons v vs) i ptr =
      walk_input_refs v (ptr ++ (at_index i ∷ [])) ++ walk_items vs (suc i) ptr

  walk_fields : Fields → Pointer → List (String × Pointer)
  walk_fields end ptr = []
  walk_fields (field k v fs) ptr = walk_input_refs v (ptr ++ (at_key k ∷ [])) ++ walk_fields fs ptr

module _ (src : Option LineResolver) where
  unfoldable pub report : Pointer → Message → List Problem
  unfolding problem_at
  report ptr m = problem_at src ptr m ∷ []

  -- the loop over the ids, with the index of the first node of each
  unfoldable pub index_nodes : ℕ → List Node → Map ℕ → List Problem × Map ℕ
  unfolding report
  index_nodes i [] index = ([], index)
  index_nodes i (n ∷ ns) index =
      let ptr = node_pointer i ++ (at_key "id" ∷ []) in
      let skip = index_nodes (suc i) ns index in
      let rest = index_nodes (suc i) ns (insert n.id i index) in
      if n.id == "" then (report ptr empty_id ++ skip.0, skip.1) else elim (lookup n.id index) [
        | some first ↦ (report ptr (duplicate_id n.id first) ++ skip.0, skip.1)
        | none ↦ rest
      ]

  unfoldable pub reference_problem : Node → Pointer → List Problem
  unfolding report
  reference_problem n ptr =
      if (n.worker == "") && not (is_some n.tool)
      then report ptr (no_reference n.id)
      else if not (n.worker == "") && is_some n.tool
      then report ptr (two_references n.id)
      else []

  unfoldable pub check_node_ref : ℕ → List Node → List Problem
  unfolding reference_problem
  check_node_ref i [] = []
  check_node_ref i (n ∷ ns) =
      let rest = check_node_ref (suc i) ns in
      if n.id == "" then rest else reference_problem n (node_pointer i) ++ rest

  unfoldable pub undeclared : Map Bool → String → List (String × Pointer) → List Problem
  unfolding report
  undeclared declared id [] = []
  undeclared declared id ((name, ptr) ∷ refs) =
      let rest = undeclared declared id refs in
      if at name false declared then rest else report ptr (undeclared_input id name) ++ rest

  unfoldable pub node_input_refs : Map Bool → ℕ → Node → List Problem
  unfolding undeclared walk_input_refs
  node_input_refs declared i n = elim n.tool [
    | none ↦ []
    | some call ↦ undeclared declared n.id (
        walk_input_refs (object call.input)
          (node_pointer i ++ (at_key "tool" ∷ at_key "input" ∷ [])))
  ]

  unfoldable pub check_input_refs : Map Bool → ℕ → List Node → List Problem
  unfolding node_input_refs
  check_input_refs declared i [] = []
  check_input_refs declared i (n ∷ ns) =
      node_input_refs declared i n ++ check_input_refs declared (suc i) ns

  -- edgeEndpointOK
  unfoldable pub edge_endpoint : Map ℕ → ℕ → (side id : String) → Bool × List Problem
  unfolding report
  edge_endpoint index i side id =
      if is_some (lookup id index)
      then (true, [])
      else (false, report (at_key "edges" ∷ at_index i ∷ at_key side ∷ []) (unknown_end i side id))
