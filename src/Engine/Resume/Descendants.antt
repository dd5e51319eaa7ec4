-- ===== src/Engine/Resume/Descendants.antt =====
-- What ResumeFrom forces to run again: descendantsInclusive of core/engine/resume.go.
use workflow_execution_engin.Prelude.{
  ℕ, zero, suc, ◌+◌, ◌≤◌, ◌<◌, String, ◌≡◌, refl, sym, ◌∙◌, inl, inr, Bool, true, false, not, ◌&&◌,
  ◌||◌, some, List, [], ◌∷◌, ◌++◌, arith, ◌==◌, eq_iff, eq_refl, Bool-cases, length, length-append,
  mem, mem-append, count, Map, lookup, insert, at, at-insert,
}
use workflow_execution_engin.Domain.Workflow.{Edge, Workflow}
use mathlib.Core.List.{foldl}
use workflow_execution_engin.Engine.Resume.{children_of, add_child, flood, descendants_inclusive}
use mathlib.Core.Path.{subst}

-- some edge of the list goes from one node to another
abbrev pub joins : String → String → List Edge → Bool
joins a b [] = false
joins a b (e ∷ es) = ((e.source == a) && (e.target == b)) || joins a b es

-- a path along the edges
pub data Reach (es : List Edge) (a : String) : String → Type 0 where
  here : Reach es a a
  next : (b c : String) → Reach es a b → joins b c es ≡ true → Reach es a c

children-mem :
    (es : List Edge) (m : Map (List String)) (a b : String)
    → mem (at a [] (foldl add_child m es)) b ≡ (mem (at a [] m) b || joins a b es)
children-mem [] m a b = ground arith
children-mem (e ∷ es) m a b = ground (
  arith,
  children-mem es (add_child m e) a b,
  at-insert e.source a (at e.source [] m ++ (e.target ∷ [])) [] m,
  mem-append (at e.source [] m) (e.target ∷ []) b,
  eq_iff e.source a,
)

abbrev leaves : String → Edge → Bool
leaves a e = e.source == a

children-length :
    (es : List Edge) (m : Map (List String)) (a : String)
    → length (at a [] (foldl add_child m es)) ≡ length (at a [] m) + count (leaves a) es
children-length [] m a = omega arith
children-length (e ∷ es) m a = ground (
  arith,
  children-length es (add_child m e) a,
  at-insert e.source a (at e.source [] m ++ (e.target ∷ [])) [] m,
  length-append (at e.source [] m) (e.target ∷ []),
  eq_iff e.source a,
)

-- the edges whose source is still to be visited
abbrev unvisited : Map Bool → Edge → Bool
unvisited seen e = not (at e.source false seen)

visit-count :
    (es : List Edge) (seen : Map Bool) (a : String)
    → at a false seen ≡ false
    → count (unvisited (insert a true seen)) es + count (leaves a) es ≡ count (unvisited seen) es
visit-count [] seen a h = omega arith
visit-count (e ∷ es) seen a h = ground (
  arith,
  visit-count es seen a h,
  at-insert a e.source true false seen,
  eq_iff a e.source,
  eq_iff e.source a,
)

count-le : (p : Edge → Bool) (es : List Edge) → count p es ≤ length es
count-le p [] = omega arith
count-le p (e ∷ es) = ground (arith, count-le p es)

children_of-mem : (es : List Edge) (a b : String) → mem (at a [] (children_of es)) b ≡ joins a b es
unfolding at lookup
children_of-mem es a b = children-mem es [] a b

children_of-length :
    (es : List Edge) (a : String) → length (at a [] (children_of es)) ≡ count (leaves a) es
unfolding at lookup
children_of-length es a = children-length es [] a ∙ omega arith

nothing_seen : (x : String) → at x false [] ≡ false
unfolding at lookup
nothing_seen x = refl

module _ (es : List Edge) (start : String) where
  abbrev met : List String → Map Bool → String → Bool
  met queue seen x = at x false seen || mem queue x

  record Flooding (queue : List String) (seen : Map Bool) : Type 0 where
    closed : (b c : String) → at b false seen ≡ true → joins b c es ≡ true → met queue seen c ≡ true
    begun : met queue seen start ≡ true
    sound : (b : String) → met queue seen b ≡ true → Reach es start b

  skip-Flooding :
      (id : String) (queue : List String) (seen : Map Bool)
      → at id false seen ≡ true
      → Flooding (id ∷ queue) seen
      → Flooding queue seen
  skip-Flooding id queue seen v f = record {
    closed = λ b c p q. ground (arith, f.closed b c p q, eq_iff id c);
    begun = ground (arith, f.begun, eq_iff id start);
    sound = λ b p. f.sound b (ground arith);
  }

  met_after :
      (id : String) (queue : List String) (seen : Map Bool) (x : String)
      → met (queue ++ at id [] (children_of es)) (insert id true seen) x
        ≡ (met (id ∷ queue) seen x || joins id x es)
  met_after id queue seen x =
      rw
        (
          at-insert id x true false seen,
          mem-append queue (at id [] (children_of es)) x,
          children_of-mem es id x,
        )
        (ground arith)

  visit-Flooding :
      (id : String) (queue : List String) (seen : Map Bool)
      → Flooding (id ∷ queue) seen
      → Flooding (queue ++ at id [] (children_of es)) (insert id true seen)
  visit-Flooding id queue seen f = record {
    closed = λ b c p q. rw (met_after id queue seen c) (elim (Bool-cases (id == b)) [
      | inl same ↦ ground (arith, subst (λ y. joins y c es ≡ true) (sym ((eq_iff id b).0 same)) q)
      | inr other ↦ rw (f.closed b c (ground (arith, at-insert id b true false seen)) q) refl
    ]);
    begun = rw (met_after id queue seen start, f.begun) refl;
    sound = λ b p. elim (Bool-cases (met (id ∷ queue) seen b)) [
      | inl m ↦ f.sound b m
      | inr n ↦
          next id b (f.sound id (ground (arith, eq_refl id)))
            (ground (arith, met_after id queue seen b))
    ];
  }

  -- Enough fuel for the queue and for the edges that may still be pushed on it ends the loop.
  flood-Flooding :
      (fuel : ℕ) (queue : List String) (seen : Map Bool)
      → Flooding queue seen
      → length queue + count (unvisited seen) es < fuel
      → (out : Map Bool) × (flood fuel (children_of es) queue seen ≡ some out) × Flooding [] out
  unfolding flood
  flood-Flooding zero queue seen f h = absurd (omega arith)
  flood-Flooding (suc fuel) [] seen f h = (seen, refl, f)
  flood-Flooding (suc fuel) (id ∷ queue) seen f h = elim (Bool-cases (at id false seen)) [
    | inl v ↦ rw v (flood-Flooding fuel queue seen (skip-Flooding id queue seen v f) (omega arith))
    | inr v ↦ rw v (
        flood-Flooding fuel (queue ++ at id [] (children_of es)) (insert id true seen)
          (visit-Flooding id queue seen f)
          (omega (
            arith,
            length-append queue (at id [] (children_of es)),
            children_of-length es id,
            visit-count es seen id v,
          )))
  ]

  started : Flooding (start ∷ []) []
  started = record {
    closed = λ b c p q. cc (nothing_seen b);
    begun = ground (arith, eq_refl start);
    sound = λ b p. subst (Reach es start) (first b p) here;
  }
    where
      first : (b : String) → met (start ∷ []) [] b ≡ true → start ≡ b
      first b p = (eq_iff start b).0 (ground (arith, nothing_seen b))

-- The loop of descendantsInclusive ends, and marks exactly the nodes that a path of edges leads to
-- from the start.
pub descendants_inclusive-Reach :
    (wf : Workflow) (start : String)
    → (out : Map Bool) × (descendants_inclusive wf start ≡ some out)
      × ((x : String) → Reach wf.edges start x → at x false out ≡ true)
      × ((x : String) → at x false out ≡ true → Reach wf.edges start x)
unfolding descendants_inclusive
descendants_inclusive-Reach wf start =
    let (out, e, f) =
      flood-Flooding wf.edges start (length wf.edges + 2) (start ∷ []) [] (started wf.edges start)
        (omega (arith, count-le (unvisited []) wf.edges)) in
    (out, e, complete out f, λ x p. f.sound x (ground arith))
  where
    seen_only : (b : Bool) → (b || false) ≡ true → b ≡ true
    seen_only true p = refl
    seen_only false p = cc

    complete :
        (out : Map Bool)
        → Flooding wf.edges start [] out
        → (x : String) → Reach wf.edges start x
        → at x false out ≡ true
    complete out f x here = seen_only (at x false out) f.begun
    complete out f x (next b c r j) =
        seen_only (at c false out) (f.closed b c (complete out f b r) j)
