-- ===== src/Validate/Accepted.antt =====
-- What a workflow is like that Graph of core/validate/graph.go accepts.
use workflow_execution_engin.Prelude.{
  ℕ, suc, String, ◌≡◌, refl, sym, ap, ◌∙◌, ◌≢◌, inl, inr, Bool, true, false, not, ◌&&◌, ◌||◌,
  Option, none, some, List, [], ◌∷◌, ◌++◌, arith, ◌==◌, eq_iff, eq_refl, ltb, if◌then◌else◌,
  Bool-cases, Option-cases, is_some, length, filter, All, Map, lookup, insert, lookup-insert, mem,
  is_distinct,
}
use mathlib.Core.Path.{subst}
use workflow_execution_engin.Domain.Workflow.{Node, Edge, Workflow}
use workflow_execution_engin.Validate.Problem.{Problem, Pointer, Message, LineResolver}
use workflow_execution_engin.Validate.Nodes.{
  node_pointer, report, index_nodes, check_node_ref, check_input_refs, reference_problem,
  edge_endpoint,
}
use workflow_execution_engin.Validate.Graph.{
  Links, link_edge, link_edges, node_ids, no_links, check_order, declared_inputs, orphans, graph,
}
use workflow_execution_engin.Validate.Linked.{
  linked, index_of, links_of, is_indexed, indexed-linked, Cyclic, cycle_of, none-Cyclic,
}

-- a worker or a tool, and not both
abbrev pub has_one_reference : Node → Bool
has_one_reference n =
    (n.worker == "" && is_some n.tool) || (not (n.worker == "") && not (is_some n.tool))

pub record IsAccepted (wf : Workflow) : Type 0 where
  pub distinct : is_distinct (node_ids wf.nodes) ≡ true
  pub named : (id : String) → mem (node_ids wf.nodes) id ≡ true → id ≢ ""
  pub referring : All (λ n. has_one_reference n ≡ true) wf.nodes
  pub linking : linked wf ≡ wf.edges
  pub acyclic : Cyclic wf.edges → ⊥

append-none : {A : Type 0} (xs ys : List A) → xs ++ ys ≡ [] → (xs ≡ []) × (ys ≡ [])
append-none [] ys e = (refl, e)
append-none (x ∷ xs) ys e = absurd (ground (arith, e))

module _ (src : Option LineResolver) where
  reported : (ptr : Pointer) (m : Message) (ps : List Problem) → report src ptr m ++ ps ≡ [] → ⊥
  unfolding report
  reported ptr m ps e = ground (arith, e)

  unreported : (ptr : Pointer) (m : Message) → report src ptr m ≡ [] → ⊥
  unfolding report
  unreported ptr m e = ground (arith, e)

  index_nodes-distinct :
      (i : ℕ) (ns : List Node) (m : Map ℕ)
      → (index_nodes src i ns m).0 ≡ []
      → (is_distinct (node_ids ns) ≡ true)
        × ((x : String)
            → mem (node_ids ns) x ≡ true
            → ((x == "") ≡ false) × (is_some (lookup x m) ≡ false))
  unfolding index_nodes
  index_nodes-distinct i [] m e = (refl, λ x h. absurd (ground arith))
  index_nodes-distinct i (n ∷ ns) m e = elim (Bool-cases (n.id == "")) [
    | inl k ↦ absurd (reported _ _ _ (rw k at e))
    | inr k ↦ elim (Option-cases (lookup n.id m)) [
      | inr (first, q) ↦ absurd (reported _ _ _ (rw (k, q) at e))
      | inl q ↦
          let h = index_nodes-distinct (suc i) ns (insert n.id i m) (rw (k, q) at e) in
          let fresh : mem (node_ids ns) n.id ≡ false = elim (Bool-cases (mem (node_ids ns) n.id)) [
            | inr f ↦ f
            | inl f ↦
                absurd (ground (arith, (h.1 n.id f).1, lookup-insert n.id n.id i m, eq_refl n.id))
          ] in
          (
            ground (arith, fresh, h.0),
            λ x p. elim (Bool-cases (n.id == x)) [
              | inl same ↦
                  subst (λ y. ((y == "") ≡ false) × (is_some (lookup y m) ≡ false))
                    ((eq_iff n.id x).0 same) (k, rw q refl)
              | inr other ↦
                  let r = h.1 x (rw other at p) in
                  (r.0, ground (arith, r.1, lookup-insert n.id x i m, other))
            ],
          )
    ]
  ]

  reference_problem-none :
      (n : Node) (ptr : Pointer) → reference_problem src n ptr ≡ [] → has_one_reference n ≡ true
  unfolding reference_problem report
  reference_problem-none n ptr e = ground (arith, e)

  check_node_ref-referring :
      (i : ℕ) (ns : List Node)
      → check_node_ref src i ns ≡ []
      → ((x : String) → mem (node_ids ns) x ≡ true → (x == "") ≡ false)
      → All (λ n. has_one_reference n ≡ true) ns
  unfolding check_node_ref
  check_node_ref-referring i [] e h = tt
  check_node_ref-referring i (n ∷ ns) e h =
      let k = h n.id (ground (arith, eq_refl n.id)) in
      let parts = append-none _ _ (rw k at e) in
      (
        reference_problem-none n (node_pointer i) parts.0,
        check_node_ref-referring (suc i) ns parts.1 (λ x m. h x (ground (arith, m))),
      )

  edge_endpoint-none :
      (index : Map ℕ) (i : ℕ) (side id : String)
      → (edge_endpoint src index i side id).1 ≡ []
      → is_some (lookup id index) ≡ true
  unfolding edge_endpoint report
  edge_endpoint-none index i side id e = ground (arith, e)

  link_edge-problems :
      (index : Map ℕ) (i : ℕ) (e : Edge) (l : Links)
      → (link_edge src index i e l).problems
        ≡ l.problems
          ++ ((edge_endpoint src index i "from" e.source).1
              ++ (edge_endpoint src index i "to" e.target).1)
  unfolding link_edge
  link_edge-problems index i e l =
      elim (Bool-cases (
        (edge_endpoint src index i "from" e.source).0
        && (edge_endpoint src index i "to" e.target).0)) [ inl k ↦ rw k refl | inr k ↦ rw k refl ]

  link_edges-linking :
      (index : Map ℕ) (i : ℕ) (es : List Edge) (l : Links)
      → (link_edges src index i es l).problems ≡ []
      → (l.problems ≡ []) × (filter (is_indexed src index) es ≡ es)
  unfolding link_edges
  link_edges-linking index i [] l e = (e, refl)
  link_edges-linking index i (x ∷ es) l e =
      let ih = link_edges-linking index (suc i) es (link_edge src index i x l) e in
      let parts = append-none _ _ (sym (link_edge-problems index i x l) ∙ ih.0) in
      let ends = append-none _ _ parts.1 in
      let from_ok = edge_endpoint-none index i "from" x.source ends.0 in
      let to_ok = edge_endpoint-none index i "to" x.target ends.1 in
      (parts.0, rw (from_ok, to_ok) (ap (λ l'. x ∷ l') ih.1))

  check_order-none :
      (c : Option (List String)) (index : Map ℕ) (adj : Map (List String)) (ns : List Node)
      → check_order src c index adj ns ≡ []
      → c ≡ none
  unfolding check_order
  check_order-none none index adj ns e = refl
  check_order-none (some c) index adj ns e = absurd (unreported _ _ e)

  -- What a workflow is like in which Graph finds no problem: the ids of its nodes are distinct and not
  -- empty, every node refers to a worker or to a tool, and not to both, every edge joins two nodes,
  -- and no walk along the edges ends where it began.
  pub graph-IsAccepted : (wf : Workflow) → graph src wf ≡ [] → IsAccepted wf
  unfolding graph
  graph-IsAccepted wf e =
      let links = links_of src wf in
      let order = check_order src (cycle_of src wf) (index_of src wf) links.adj wf.nodes in
      let lonely =
        if ltb 1 (length wf.nodes)
        then orphans src (index_of src wf) links.touched wf.nodes
        else [] in
      let inputs = check_input_refs src (declared_inputs wf.inputs) 0 wf.nodes in
      let refs = check_node_ref src 0 wf.nodes in
      let first = (index_nodes src 0 wf.nodes []).0 in
      let o = append-none (first ++ refs ++ inputs ++ links.problems ++ lonely) order e in
      let l = append-none (first ++ refs ++ inputs ++ links.problems) lonely o.0 in
      let d = append-none (first ++ refs ++ inputs) links.problems l.0 in
      let c = append-none (first ++ refs) inputs d.0 in
      let b = append-none first refs c.0 in
      let ids = index_nodes-distinct 0 wf.nodes [] b.0 in
      let linking =
        sym (indexed-linked src wf wf.edges)
        ∙ (link_edges-linking (index_of src wf) 0 wf.edges no_links d.1).1 in
      record {
        distinct = ids.0;
        named = λ id m q. absurd (ground (arith, (ids.1 id m).0, (eq_iff id "").1 q));
        referring = check_node_ref-referring 0 wf.nodes b.1 (λ x m. (ids.1 x m).0);
        linking = linking;
        acyclic =
            subst (λ es. Cyclic es → ⊥) linking
              (none-Cyclic src wf
                (check_order-none (cycle_of src wf) (index_of src wf) links.adj wf.nodes o.1));
      }
