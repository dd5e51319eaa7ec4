-- ===== src/Validate/Cycle/Paths.antt =====
-- Paths along the edges of a graph, as lists of nodes: what the stack of findCycle holds.
use workflow_execution_engin.Prelude.{
  String, ◌≡◌, refl, ap, inl, inr, Bool, true, ◌&&◌, some, List, [], ◌∷◌, ◌++◌, arith, ◌==◌, eq_iff,
  Bool-cases, Map, at, mem,
}
use workflow_execution_engin.Validate.Cycle.{cut_from, drop_last}

pub drop_last-append : (xs : List String) (x : String) → drop_last (xs ++ (x ∷ [])) ≡ xs
unfolding drop_last
drop_last-append [] x = refl
drop_last-append (y ∷ []) x = refl
drop_last-append (y ∷ z ∷ xs) x = ap (λ l. y ∷ l) (drop_last-append (z ∷ xs) x)

module _ (adj : Map (List String)) where
  abbrev pub edge : String → String → Bool
  edge a b = mem (at a [] adj) b

  -- each node of the list has an edge to the next
  abbrev pub is_path : List String → Bool
  is_path [] = true
  is_path (x ∷ []) = true
  is_path (x ∷ y ∷ ys) = edge x y && is_path (y ∷ ys)

  pub path_grows :
      (xs : List String) (x y : String)
      → is_path (xs ++ (x ∷ [])) ≡ true
      → edge x y ≡ true
      → is_path ((xs ++ (x ∷ [])) ++ (y ∷ [])) ≡ true
  path_grows [] x y p e = ground arith
  path_grows (w ∷ []) x y p e = ground arith
  path_grows (w ∷ z ∷ xs) x y p e = ground (arith, path_grows (z ∷ xs) x y, p, e)

  pub path_shrinks : (x : String) (xs : List String) → is_path (x ∷ xs) ≡ true → is_path xs ≡ true
  path_shrinks x [] p = refl
  path_shrinks x (y ∷ ys) p = ground (arith, p)

  -- a path that ends where it begins, after at least one edge
  pub record IsCycle (c : List String) : Type 0 where
    pub first : String
    pub between : List String
    pub closes : c ≡ first ∷ (between ++ (first ∷ []))
    pub path : is_path c ≡ true

  -- From a node of a path on, the path goes on as it did.
  pub cut_from-IsCycle :
      (next : String) (xs : List String)
      → mem xs next ≡ true
      → is_path (xs ++ (next ∷ [])) ≡ true
      → (c : List String) × (cut_from next xs ≡ some c) × IsCycle (c ++ (next ∷ []))
  unfolding cut_from
  cut_from-IsCycle next [] m p = absurd (ground arith)
  cut_from-IsCycle next (x ∷ xs) m p = elim (Bool-cases (x == next)) [
    | inl e ↦ (
      x ∷ xs,
      rw e refl,
      record {
        first = next;
        between = xs;
        closes = ap (λ y. y ∷ (xs ++ (next ∷ []))) ((eq_iff x next).0 e);
        path = p;
      },
    )
    | inr e ↦
        let r = cut_from-IsCycle next xs (rw e at m) (path_shrinks x (xs ++ (next ∷ [])) p) in
        (r.0, rw e r.1, r.2)
  ]
