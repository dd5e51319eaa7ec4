-- ===== src/Replay/Divergences.antt =====
-- What the comparison of two runs lists: core/replay/divergence.go.
use workflow_execution_engin.Prelude.{
  String, ◌≡◌, refl, ap, ◌∙◌, inl, inr, Bool, true, false, Option, none, some, List, [], ◌∷◌, ◌++◌,
  map, arith, ◌==◌, eq_iff, Bool-cases, Option-cases, is_some, filter, not, ◌&&◌, if◌then◌else◌,
  Map, lookup, mem, is_distinct,
}
use mathlib.Core.Path.{subst}
use workflow_execution_engin.Replay.{
  NodeRecord, Timeline, DivergenceStatus, cached, re_executed, added, removed, status_between,
  NodeDivergence, compare_node, compare_nodes, added_node, added_nodes, divergence,
}

abbrev pub keys : Map NodeRecord → List String
keys m = map (λ (e : String × NodeRecord). e.0) m

abbrev pub is_about : String → NodeDivergence → Bool
is_about id d = d.node_id == id

-- what is to be listed about one node, by its records in the two runs
abbrev pub entry :
    String → DivergenceStatus → Option NodeRecord → Option NodeRecord → NodeDivergence
entry id st x y = record {
  node_id = id;
  status = st;
  original_hash = elim x [ none ↦ "" | some a ↦ a.hash ];
  new_hash = elim y [ none ↦ "" | some b ↦ b.hash ];
  original_content = elim x [ none ↦ "" | some a ↦ a.content ];
  new_content = elim y [ none ↦ "" | some b ↦ b.content ];
}

abbrev pub same_artifact : NodeRecord → NodeRecord → Bool
same_artifact a b = if a.hash == "" then false else a.hash == b.hash

abbrev pub listed : String → Option NodeRecord → Option NodeRecord → List NodeDivergence
listed id none none = []
listed id none (some b) = entry id added none (some b) ∷ []
listed id (some a) none = entry id removed (some a) none ∷ []
listed id (some a) (some b) =
    entry id (if same_artifact a b then cached else re_executed) (some a) (some b) ∷ []

judged_same :
    (p q : Bool)
    → (if not p && q then cached else re_executed)
      ≡ (if (if p then false else q) then cached else re_executed)
judged_same true q = refl
judged_same false q = refl

status_between-same :
    (a b : NodeRecord) → status_between a b ≡ (if same_artifact a b then cached else re_executed)
status_between-same a b = judged_same (a.hash == "") (a.hash == b.hash)

filter-append :
    (p : NodeDivergence → Bool) (xs ys : List NodeDivergence)
    → filter p (xs ++ ys) ≡ filter p xs ++ filter p ys
filter-append p [] ys = refl
filter-append p (x ∷ xs) ys = elim (Bool-cases (p x)) [
  | inl k ↦ rw k (ap (λ l. x ∷ l) (filter-append p xs ys))
  | inr k ↦ rw k (filter-append p xs ys)
]

keys-lookup : (id : String) (m : Map NodeRecord) → mem (keys m) id ≡ is_some (lookup id m)
unfolding lookup
keys-lookup id [] = refl
keys-lookup id ((k, a) ∷ m) = ground (arith, keys-lookup id m)

absent :
    (k id : String) (m : Map NodeRecord)
    → (k == id) ≡ true
    → mem (keys m) k ≡ false
    → lookup id m ≡ none
absent k id m e h = elim (Option-cases (lookup id m)) [
  | inl q ↦ q
  | inr (a, q) ↦
      let there = subst (λ j. mem (keys m) j ≡ false) ((eq_iff k id).0 e) h in
      absurd (ground (arith, keys-lookup id m, there, q))
]

compare_node-id :
    (k : String) (a : NodeRecord) (o : Option NodeRecord) → (compare_node k a o).node_id ≡ k
compare_node-id k a none = refl
compare_node-id k a (some b) = refl

abbrev compared : String → Option NodeRecord → Map NodeRecord → List NodeDivergence
compared id none new = []
compared id (some a) new = compare_node id a (lookup id new) ∷ []

compare_nodes-compared :
    (id : String) (m new : Map NodeRecord)
    → is_distinct (keys m) ≡ true
    → filter (is_about id) (compare_nodes m new) ≡ compared id (lookup id m) new
unfolding compare_nodes lookup
compare_nodes-compared id [] new d = refl
compare_nodes-compared id ((k, a) ∷ m) new d =
    let ih = compare_nodes-compared id m new (ground (arith, d)) in
    elim (Bool-cases (k == id)) [
      | inr e ↦ rw (compare_node-id k a (lookup k new), e) ih
      | inl e ↦
          let q = (eq_iff k id).0 e in
          let gone = absent k id m e (ground (arith, d)) in
          rw (compare_node-id k a (lookup k new), e)
            (ap (λ l. compare_node k a (lookup k new) ∷ l) (ih ∙ rw gone refl)
              ∙ ap (λ j. compare_node j a (lookup j new) ∷ []) q)
    ]

abbrev extra : String → Bool → Option NodeRecord → List NodeDivergence
extra id true o = []
extra id false none = []
extra id false (some b) = added_node id b ∷ []

added_nodes-extra :
    (id : String) (original m : Map NodeRecord)
    → is_distinct (keys m) ≡ true
    → filter (is_about id) (added_nodes original m)
      ≡ extra id (is_some (lookup id original)) (lookup id m)
unfolding added_nodes lookup
added_nodes-extra id original [] d = extra_none (is_some (lookup id original))
  where
    extra_none : (b : Bool) → [] ≡ extra id b none
    extra_none true = refl
    extra_none false = refl
added_nodes-extra id original ((k, b) ∷ m) d =
    let ih = added_nodes-extra id original m (ground (arith, d)) in
    elim (Bool-cases (k == id)) [
      | inr e ↦ elim (Bool-cases (is_some (lookup k original))) [
        | inl o ↦ rw (o, e) ih
        | inr o ↦ rw (o, e) ih
      ]
      | inl e ↦
          let q = (eq_iff k id).0 e in
          let gone = absent k id m e (ground (arith, d)) in
          elim (Bool-cases (is_some (lookup k original))) [
            | inl o ↦
                let there = subst (λ j. is_some (lookup j original) ≡ true) q o in
                rw (o, e) (ih ∙ rw there refl)
            | inr o ↦
                let missing = subst (λ j. is_some (lookup j original) ≡ false) q o in
                rw (o, e)
                  (ap (λ l. added_node k b ∷ l) (ih ∙ rw (gone, missing) refl)
                    ∙ ap (λ j. added_node j b ∷ []) q
                    ∙ rw missing refl)
          ]
    ]

-- A comparison lists every node of either run exactly once, and no other: as removed, where only the
-- original has it, as added, where only the new run has it, and otherwise with both records, as cached
-- exactly where both have an artifact, with the same hash.
pub divergence-listed :
    (a b : Timeline) (id : String)
    → is_distinct (keys a.nodes) ≡ true
    → is_distinct (keys b.nodes) ≡ true
    → filter (is_about id) (divergence a b) ≡ listed id (lookup id a.nodes) (lookup id b.nodes)
unfolding divergence
divergence-listed a b id d e =
    filter-append (is_about id) (compare_nodes a.nodes b.nodes) (added_nodes a.nodes b.nodes)
    ∙ rw (compare_nodes-compared id a.nodes b.nodes d, added_nodes-extra id a.nodes b.nodes e)
        (joined (lookup id a.nodes) (lookup id b.nodes) refl)
  where
    joined :
        (x y : Option NodeRecord)
        → lookup id b.nodes ≡ y
        → compared id x b.nodes ++ extra id (is_some x) y ≡ listed id x y
    joined none none q = refl
    joined none (some r) q = refl
    joined (some x) none q = ap (λ o. compare_node id x o ∷ []) q
    joined (some x) (some y) q =
        ap (λ o. compare_node id x o ∷ []) q
        ∙ ap (λ st. entry id st (some x) (some y) ∷ []) (status_between-same x y)
