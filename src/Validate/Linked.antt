-- ===== src/Validate/Linked.antt =====
-- The structures that Graph of core/validate/graph.go builds from a workflow, and its search for
-- cycles, in terms of the workflow.
use workflow_execution_engin.Prelude.{
  ℕ, suc, ◌≤◌, ◌<◌, String, ◌≡◌, refl, sym, ap, ◌∙◌, ◌↔◌, inl, inr, Bool, true, false, not, ◌&&◌,
  ◌||◌, Option, none, some, List, [], ◌∷◌, ◌++◌, map, arith, ◌==◌, eq_iff, if◌then◌else◌,
  Bool-cases, Option-cases, is_some, filter, Map, lookup, insert, at, lookup-insert, at-insert, mem,
  mem-append,
}
use mathlib.Core.Path.{subst}
use workflow_execution_engin.Domain.Workflow.{Node, Edge, Workflow}
use workflow_execution_engin.Engine.Resume.Descendants.{joins, Reach, here, next}
use workflow_execution_engin.Validate.Problem.{LineResolver}
use workflow_execution_engin.Validate.Cycle.{find_cycle}
use workflow_execution_engin.Validate.Cycle.Paths.{edge, is_path, IsCycle}
use workflow_execution_engin.Validate.Cycle.Finding.{find_cycle-IsCycle, find_cycle-ranked}
use workflow_execution_engin.Validate.Nodes.{index_nodes, edge_endpoint}
use workflow_execution_engin.Validate.Graph.{
  Links, append_to, link_edge, link_edges, node_ids, no_links,
}

-- a node of the workflow, with an id
abbrev pub is_node : List Node → String → Bool
is_node ns x = mem (map (λ (n : Node). n.id) ns) x && not (x == "")

-- the edges between nodes of the workflow
abbrev pub linked : Workflow → List Edge
linked wf = filter (λ e. is_node wf.nodes e.source && is_node wf.nodes e.target) wf.edges

module _ (src : Option LineResolver) where
  index_nodes-is_node :
      (x : String) (i : ℕ) (ns : List Node) (m : Map ℕ)
      → is_some (lookup x (index_nodes src i ns m).1) ≡ (is_some (lookup x m) || is_node ns x)
  unfolding index_nodes
  index_nodes-is_node x i [] m = ground arith
  index_nodes-is_node x i (n ∷ ns) m = elim (Bool-cases (n.id == "")) [
    | inl e ↦ rw e (
        ground (
          arith,
          index_nodes-is_node x (suc i) ns m,
          e,
          eq_iff n.id x,
          eq_iff x "",
          eq_iff n.id "",
        ))
    | inr e ↦ elim (Option-cases (lookup n.id m)) [
      | inl q ↦
          rw (e, q)
            (ground (
              arith,
              index_nodes-is_node x (suc i) ns (insert n.id i m),
              lookup-insert n.id x i m,
              e,
              eq_iff n.id x,
              eq_iff x "",
              eq_iff n.id "",
            ))
      | inr (first, q) ↦
          let there : (n.id == x) ≡ true → is_some (lookup x m) ≡ true =
            λ p. subst (λ y. is_some (lookup y m) ≡ true) ((eq_iff n.id x).0 p) (rw q refl) in
          rw (e, q) (ground (arith, index_nodes-is_node x (suc i) ns m, there))
    ]
  ]

  abbrev pub index_of : Workflow → Map ℕ
  index_of wf = (index_nodes src 0 wf.nodes []).1

  abbrev pub links_of : Workflow → Links
  links_of wf = link_edges src (index_of wf) 0 wf.edges no_links

  abbrev pub is_indexed : Map ℕ → Edge → Bool
  is_indexed index e = is_some (lookup e.source index) && is_some (lookup e.target index)

  link_edge-adj :
      (index : Map ℕ) (i : ℕ) (e : Edge) (l : Links)
      → (link_edge src index i e l).adj
        ≡ (if is_indexed index e then append_to e.source e.target l.adj else l.adj)
  unfolding link_edge edge_endpoint
  link_edge-adj index i e l = elim (Bool-cases (is_some (lookup e.source index))) [
    | inr p ↦ rw p refl
    | inl p ↦ elim (Bool-cases (is_some (lookup e.target index))) [
      | inl q ↦ rw (p, q) refl
      | inr q ↦ rw (p, q) refl
    ]
  ]

  append_to-edge :
      (s t a b : String) (m : Map (List String))
      → edge (append_to s t m) a b ≡ (edge m a b || ((s == a) && (t == b)))
  append_to-edge s t a b m = ground (
    arith,
    at-insert s a (at s [] m ++ (t ∷ [])) [] m,
    mem-append (at s [] m) (t ∷ []) b,
    eq_iff s a,
  )

  link_edges-joins :
      (index : Map ℕ) (a b : String) (i : ℕ) (es : List Edge) (l : Links)
      → edge (link_edges src index i es l).adj a b
        ≡ (edge l.adj a b || joins a b (filter (is_indexed index) es))
  unfolding link_edges
  link_edges-joins index a b i [] l = ground arith
  link_edges-joins index a b i (e ∷ es) l =
      let ih = link_edges-joins index a b (suc i) es (link_edge src index i e l) in
      elim (Bool-cases (is_indexed index e)) [
        | inl k ↦
            let one : edge (link_edge src index i e l).adj a b
                ≡ edge (append_to e.source e.target l.adj) a b =
              ap (λ m. edge m a b) (link_edge-adj index i e l ∙ rw k refl) in
            rw k (ih ∙ rw (one, append_to-edge e.source e.target a b l.adj) (ground arith))
        | inr k ↦
            let one : edge (link_edge src index i e l).adj a b ≡ edge l.adj a b =
              ap (λ m. edge m a b) (link_edge-adj index i e l ∙ rw k refl) in
            rw k (ih ∙ rw one refl)
      ]

  pub indexed-linked :
      (wf : Workflow) (es : List Edge)
      → filter (is_indexed (index_of wf)) es
        ≡ filter (λ e. is_node wf.nodes e.source && is_node wf.nodes e.target) es
  unfolding lookup
  indexed-linked wf [] = refl
  indexed-linked wf (e ∷ es) =
      rw
        (
          index_nodes-is_node e.source 0 wf.nodes [],
          index_nodes-is_node e.target 0 wf.nodes [],
          indexed-linked wf es,
        )
        refl

  -- The successors that the search follows are the edges between nodes of the workflow.
  pub links_of-joins :
      (wf : Workflow) (a b : String) → edge (links_of wf).adj a b ≡ joins a b (linked wf)
  unfolding at lookup
  links_of-joins wf a b =
      link_edges-joins (index_of wf) a b 0 wf.edges no_links
      ∙ ap (joins a b) (indexed-linked wf wf.edges)

joins-filter :
    (p : String → Bool) (a b : String) (es : List Edge)
    → joins a b (filter (λ e. p e.source && p e.target) es) ≡ true
    → (p a ≡ true) × (p b ≡ true)
joins-filter p a b [] h = absurd (ground arith)
joins-filter p a b (e ∷ es) h = elim (Bool-cases (p e.source && p e.target)) [
  | inr k ↦ joins-filter p a b es (rw k at h)
  | inl k ↦ elim (Bool-cases ((e.source == a) && (e.target == b))) [
    | inl q ↦ (
      subst (λ x. p x ≡ true) ((eq_iff e.source a).0 (ground arith)) (ground arith),
      subst (λ x. p x ≡ true) ((eq_iff e.target b).0 (ground arith)) (ground arith),
    )
    | inr q ↦ joins-filter p a b es (rw (k, q) at h)
  ]
]

-- a walk along the edges that ends where it begins
abbrev pub Cyclic : List Edge → Type 0
Cyclic es = (a : String) × (b : String) × Reach es a b × (joins b a es ≡ true)

-- a path is a walk up to its last edge
path-Reach :
    (es : List Edge) (adj : Map (List String)) (a x z : String) (ys : List String)
    → ((u v : String) → edge adj u v ≡ joins u v es)
    → Reach es a x
    → is_path adj (x ∷ (ys ++ (z ∷ []))) ≡ true
    → (y : String) × Reach es a y × (joins y z es ≡ true)
path-Reach es adj a x z [] same r p = (x, r, sym (same x z) ∙ ground (arith, p))
path-Reach es adj a x z (y ∷ ys) same r p =
    path-Reach es adj a y z ys same (next x y r (sym (same x y) ∙ ground (arith, p)))
      (ground (arith, p))

IsCycle-Cyclic :
    (es : List Edge) (adj : Map (List String)) (c : List String)
    → ((u v : String) → edge adj u v ≡ joins u v es)
    → IsCycle adj c
    → Cyclic es
IsCycle-Cyclic es adj c same h =
    let w = path-Reach es adj h.first h.first h.first h.between same here (rw h.closes at h.path) in
    (h.first, w.0, w.1, w.2)

Reach-rank :
    (es : List Edge) (rank : String → ℕ) (a b : String)
    → ((u v : String) → joins u v es ≡ true → rank v < rank u)
    → Reach es a b
    → rank b ≤ rank a
Reach-rank es rank a _ falls here = omega arith
Reach-rank es rank a _ falls (next b c r j) =
    omega (arith, Reach-rank es rank a b falls r, falls b c j)

module _ (src : Option LineResolver) (wf : Workflow) where
  abbrev pub succ : Map (List String)
  succ = (links_of src wf).adj

  -- both ends of an edge that the search follows are nodes
  ends-is_node :
      (a b : String)
      → edge succ a b ≡ true
      → (is_node wf.nodes a ≡ true) × (is_node wf.nodes b ≡ true)
  ends-is_node a b e =
      joins-filter (is_node wf.nodes) a b wf.edges (sym (links_of-joins src wf a b) ∙ e)

  known : (a b : String) → edge succ a b ≡ true → mem (node_ids wf.nodes) b ≡ true
  known a b e = let h = (ends-is_node a b e).1 in ground (arith, h)

  sources :
      (a b : String)
      → edge succ a b ≡ true
      → (mem (node_ids wf.nodes) a ≡ true) × ((a == "") ≡ false)
  sources a b e = let h = (ends-is_node a b e).0 in (ground (arith, h), ground (arith, h))

  abbrev pub cycle_of : Option (List String)
  cycle_of = find_cycle (node_ids wf.nodes) succ

  -- Where findCycle finds nothing, the nodes can be ranked so that every edge goes down.
  pub cycle_of-ranked :
      cycle_of ≡ none
      → (rank : String → ℕ) × ((a b : String) → joins a b (linked wf) ≡ true → rank b < rank a)
  cycle_of-ranked e =
      let r = find_cycle-ranked succ (node_ids wf.nodes) known sources e in
      (r.0, λ a b j. r.1 a b (links_of-joins src wf a b ∙ j))

  pub none-Cyclic : cycle_of ≡ none → Cyclic (linked wf) → ⊥
  none-Cyclic e (a, b, r, j) =
      let k = cycle_of-ranked e in
      absurd (omega (arith, Reach-rank (linked wf) k.0 a b k.1 r, k.1 b a j))

  some-Cyclic : (c : List String) → cycle_of ≡ some c → Cyclic (linked wf)
  some-Cyclic c e =
      IsCycle-Cyclic (linked wf) succ c (links_of-joins src wf)
        (find_cycle-IsCycle succ (node_ids wf.nodes) known c e)

  -- findCycle is exact: it finds a cycle exactly where some walk along the edges between nodes of the
  -- workflow ends where it began, and the nodes that it returns are such a walk.
  pub found-Cyclic :
      ((is_some cycle_of ≡ true) ↔ Cyclic (linked wf))
      × ((c : List String) → cycle_of ≡ some c → IsCycle succ c)
  found-Cyclic = (
    (
      λ h. elim (Option-cases cycle_of) [
        | inl e ↦ absurd (ground (arith, h, e))
        | inr (c, e) ↦ some-Cyclic c e
      ],
      λ w. elim (Option-cases cycle_of) [
        | inl e ↦ absurd (none-Cyclic e w)
        | inr (c, e) ↦ rw e refl
      ],
    ),
    find_cycle-IsCycle succ (node_ids wf.nodes) known,
  )
