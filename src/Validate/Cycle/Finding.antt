-- ===== src/Validate/Cycle/Finding.antt =====
-- findCycle of core/validate/graph.go is right: it finds a cycle exactly where there is one.
use workflow_execution_engin.Prelude.{
  ℕ, zero, suc, ◌≤◌, ◌<◌, String, ◌≡◌, refl, ap, ◌∙◌, inl, inr, true, false, not, ◌&&◌, none, some,
  List, [], ◌∷◌, ◌++◌, arith, ◌==◌, eq_iff, eq_refl, Bool-cases, get_or, length, Map, lookup, at,
  mem,
}
use mathlib.Core.Path.{subst}
use native.Mathlib.Nat.{le_trans}
use workflow_execution_engin.Validate.Cycle.{
  Color, white, gray, black, Search, Found, color_of, is_white, enter, leave, visit, visit_all, dfs,
  search_from, find_cycle,
}
use workflow_execution_engin.Validate.Cycle.Paths.{
  edge, is_path, path_grows, IsCycle, cut_from-IsCycle,
}
use workflow_execution_engin.Validate.Cycle.Explored.{
  is_gray, is_black, whites, enter-whites, Ends, go_on-Ends, Sorted, enter-Sorted, Kept-refl,
  Kept-whites, After, AfterAll, AfterAll-cons, leave-After,
}

Ends-map :
    (Q : List String → Type 0) (P R : Search → Type 0) (r : Found)
    → Ends Q P r
    → ((s : Search) → P s → R s)
    → Ends Q R r
Ends-map Q P R (some c, s) h k = h
Ends-map Q P R (none, s) h k = k s h

module _ (adj : Map (List String)) (ids : List String)
    (known : (a b : String) → edge adj a b ≡ true → mem ids b ≡ true) where
  abbrev Cycle : List String → Type 0
  Cycle c = IsCycle adj c

  -- what the search from a white node does with at most so many white nodes
  abbrev Searches : ℕ → Type 0
  Searches fuel =
      (id : String) (s : Search)
      → is_white (color_of s id) ≡ true
      → mem ids id ≡ true
      → whites ids s.color ≤ fuel
      → Sorted adj s
      → is_path adj (s.stack ++ (id ∷ [])) ≡ true
      → Ends Cycle (After adj s id) (dfs adj fuel id s)

  visit-Ends :
      (fuel : ℕ) (id n : String) (ns : List String) (s : Search) (c : Color)
      → Searches fuel
      → edge adj id n ≡ true
      → is_path adj (s.stack ++ (n ∷ [])) ≡ true
      → whites ids s.color ≤ fuel
      → Sorted adj s
      → ((t : Search)
          → After adj s n t
          → Ends Cycle (AfterAll adj s (n ∷ ns)) (visit_all (dfs adj fuel) ns t))
      → color_of s n ≡ c
      → Ends Cycle
          (AfterAll adj s (n ∷ ns))
          (visit n (dfs adj fuel) (visit_all (dfs adj fuel) ns) c s)
  unfolding visit
  visit-Ends fuel id n ns s white one e p k g rest q =
      go_on-Ends Cycle (After adj s n) (AfterAll adj s (n ∷ ns)) (dfs adj fuel n s)
        (visit_all (dfs adj fuel) ns) (one n s (ap is_white q) (known id n e) k g p) rest
  visit-Ends fuel id n ns s gray one e p k g rest q =
      let r = cut_from-IsCycle adj n s.stack (g.on_stack n (ap is_gray q)) p in rw r.1 r.2
  visit-Ends fuel id n ns s black one e p k g rest q =
      rest s (record { sorted = g; kept = Kept-refl adj s; done = ap is_black q })

  visit_all-Ends :
      (fuel : ℕ) (id : String) (base nexts : List String) (s : Search)
      → Searches fuel
      → ((b : String) → mem nexts b ≡ true → edge adj id b ≡ true)
      → s.stack ≡ base ++ (id ∷ [])
      → is_path adj s.stack ≡ true
      → whites ids s.color ≤ fuel
      → Sorted adj s
      → Ends Cycle (AfterAll adj s nexts) (visit_all (dfs adj fuel) nexts s)
  unfolding visit_all
  visit_all-Ends fuel id base [] s one e b p k g = record {
    sorted = g;
    kept = Kept-refl adj s;
    done = λ x m. absurd (ground arith);
  }
  visit_all-Ends fuel id base (n ∷ ns) s one e b p k g =
      let first = e n (ground (arith, eq_refl n)) in
      visit-Ends fuel id n ns s (color_of s n) one first
        (rw b (path_grows adj base id n (rw b at p) first)) k g
        (λ t h.
          Ends-map Cycle (AfterAll adj t ns) (AfterAll adj s (n ∷ ns))
            (visit_all (dfs adj fuel) ns t)
            (visit_all-Ends fuel id base ns t one (λ y m. e y (ground (arith, m)))
              (h.kept.stack ∙ b) (rw h.kept.stack p) (le_trans (Kept-whites adj ids s t h.kept) k)
              h.sorted)
            (λ u a. AfterAll-cons adj s t u n ns h a))
        refl

  leave-Ends :
      (id : String) (s : Search) (r : Found)
      → is_white (color_of s id) ≡ true
      → Ends Cycle (AfterAll adj (enter id s) (at id [] adj)) r
      → Ends Cycle (After adj s id) (leave id r)
  unfolding leave
  leave-Ends id s (some c, t) w h = h
  leave-Ends id s (none, t) w h = leave-After adj id (at id [] adj) s t w refl h

  dfs-Ends : (fuel : ℕ) → Searches fuel
  unfolding dfs
  dfs-Ends zero id s w m k g p = absurd (omega (arith, k, enter-whites id ids s.color w m))
  dfs-Ends (suc fuel) id s w m k g p =
      leave-Ends id s (visit_all (dfs adj fuel) (at id [] adj) (enter id s)) w (
        visit_all-Ends fuel id s.stack (at id [] adj) (enter id s) (dfs-Ends fuel) (λ b q. q) refl p
          (omega (arith, k, enter-whites id ids s.color w m)) (enter-Sorted adj id s w g))

  -- what the outer loop leaves: every node of the list is explored
  record Scanned (s : Search) (todo : List String) (t : Search) : Type 0 where
    sorted : Sorted adj t
    blacks : (x : String) → is_black (color_of s x) ≡ true → is_black (color_of t x) ≡ true
    done : (x : String) → mem todo x ≡ true → (x == "") ≡ false → is_black (color_of t x) ≡ true

  Scanned-cons :
      (s t u : Search) (id : String) (todo : List String)
      → ((x : String) → is_black (color_of s x) ≡ true → is_black (color_of t x) ≡ true)
      → ((id == "") ≡ false → is_black (color_of t id) ≡ true)
      → Scanned t todo u
      → Scanned s (id ∷ todo) u
  Scanned-cons s t u id todo blacks this h = record {
    sorted = h.sorted;
    blacks = λ x b. h.blacks x (blacks x b);
    done = λ x m n. elim (Bool-cases (id == x)) [
      | inr e ↦ h.done x (rw e at m) n
      | inl e ↦
          let q = (eq_iff id x).0 e in
          h.blacks x (subst (λ y. (y == "") ≡ false → is_black (color_of t y) ≡ true) q this n)
    ];
  }

  -- with an empty stack a node that is not white is black
  settled :
      (id : String) (s : Search)
      → s.stack ≡ []
      → Sorted adj s
      → (not (id == "") && is_white (color_of s id)) ≡ false
      → (id == "") ≡ false
      → is_black (color_of s id) ≡ true
  settled id s e g c n = by_color (color_of s id) refl
    where
      by_color : (d : Color) → color_of s id ≡ d → is_black d ≡ true
      by_color white q = absurd (ground (arith, c, n, ap is_white q))
      by_color gray q = absurd (ground (arith, rw e at (g.on_stack id (ap is_gray q))))
      by_color black q = refl

  -- between two nodes of the outer loop nothing is gray
  search_from-Ends :
      (fuel : ℕ) (todo : List String) (s : Search)
      → ((x : String) → mem todo x ≡ true → mem ids x ≡ true)
      → s.stack ≡ []
      → whites ids s.color ≤ fuel
      → Sorted adj s
      → Ends Cycle (Scanned s todo) (search_from adj fuel todo s)
  unfolding search_from
  search_from-Ends fuel [] s h e k g = record {
    sorted = g;
    blacks = λ x b. b;
    done = λ x m n. absurd (ground arith);
  }
  search_from-Ends fuel (id ∷ todo) s h e k g =
      let rest : (t : Search)
          → After adj s id t
          → Ends Cycle (Scanned s (id ∷ todo)) (search_from adj fuel todo t) =
        λ t a.
          Ends-map Cycle (Scanned t todo) (Scanned s (id ∷ todo)) (search_from adj fuel todo t)
            (search_from-Ends fuel todo t (λ x m. h x (ground (arith, m))) (a.kept.stack ∙ e)
              (le_trans (Kept-whites adj ids s t a.kept) k) a.sorted)
            (λ u r. Scanned-cons s t u id todo a.kept.blacks (λ n. a.done) r) in
      elim (Bool-cases (not (id == "") && is_white (color_of s id))) [
        | inl c ↦ rw c (
            go_on-Ends Cycle (After adj s id) (Scanned s (id ∷ todo)) (dfs adj fuel id s)
              (search_from adj fuel todo)
              (dfs-Ends fuel id s (ground (arith, c)) (h id (ground (arith, eq_refl id))) k g
                (rw e refl))
              rest)
        | inr c ↦ rw c (
            Ends-map Cycle (Scanned s todo) (Scanned s (id ∷ todo)) (search_from adj fuel todo s)
              (search_from-Ends fuel todo s (λ x m. h x (ground (arith, m))) e k g)
              (λ u r. Scanned-cons s s u id todo (λ x b. b) (settled id s e g c) r))
      ]

  whites_bound : (xs : List String) (m : Map Color) → whites xs m ≤ length xs
  whites_bound [] m = omega arith
  whites_bound (x ∷ xs) m = ground (arith, whites_bound xs m)

  abbrev begun : Search
  begun = record { color = []; stack = [] }

  begun-Sorted : Sorted adj begun
  unfolding at lookup
  begun-Sorted = record {
    on_stack = λ x h. absurd (ground arith);
    rank = λ x. 0;
    bound = 0;
    below = λ x h. absurd (ground arith);
    falls = λ a b h e. absurd (ground arith);
  }

  abbrev searched : Found
  searched = search_from adj (length ids) ids begun

  searched-Ends : Ends Cycle (Scanned begun ids) searched
  searched-Ends =
      search_from-Ends (length ids) ids begun (λ x m. m) refl (whites_bound ids []) begun-Sorted

  pub find_cycle-IsCycle : (c : List String) → find_cycle ids adj ≡ some c → IsCycle adj c
  unfolding find_cycle
  find_cycle-IsCycle c e = by_end searched searched-Ends e
    where
      by_end : (r : Found) → Ends Cycle (Scanned begun ids) r → r.0 ≡ some c → IsCycle adj c
      by_end (some d, s) h q = subst Cycle (ap (λ o. get_or o d) q) h
      by_end (none, s) h q = absurd (ground arith)

  -- Where no cycle is found, the nodes can be ranked so that every edge goes down.
  pub find_cycle-ranked :
      ((a b : String) → edge adj a b ≡ true → (mem ids a ≡ true) × ((a == "") ≡ false))
      → find_cycle ids adj ≡ none
      → (rank : String → ℕ) × ((a b : String) → edge adj a b ≡ true → rank b < rank a)
  unfolding find_cycle
  find_cycle-ranked sources e = by_end searched searched-Ends e
    where
      by_end :
          (r : Found)
          → Ends Cycle (Scanned begun ids) r
          → r.0 ≡ none
          → (rank : String → ℕ) × ((a b : String) → edge adj a b ≡ true → rank b < rank a)
      by_end (some d, s) h q = absurd (ground arith)
      by_end (none, s) h q = (
        h.sorted.rank,
        λ a b k. (h.sorted.falls a b (h.done a (sources a b k).0 (sources a b k).1) k).1,
      )
