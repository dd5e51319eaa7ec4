-- ===== src/Validate/Cycle/Explored.antt =====
-- What one call of dfs in findCycle does: it finds a cycle, or it colors its node black and leaves
-- the rest of the search as it was.
use workflow_execution_engin.Prelude.{
  ℕ, suc, ◌≤◌, ◌<◌, String, ◌≡◌, refl, sym, ap, ◌∙◌, inl, inr, Bool, true, false, none, some, List,
  [], ◌∷◌, ◌++◌, arith, ◌==◌, eq_iff, if◌then◌else◌, Bool-cases, count, differ, Map, insert, at,
  at-insert, at-insert_self, mem, mem-append,
}
use mathlib.Core.Path.{subst}
use workflow_execution_engin.Validate.Cycle.{
  Color, white, gray, black, Search, Found, color_of, is_white, drop_last, enter, leave, go_on,
}
use workflow_execution_engin.Validate.Cycle.Paths.{drop_last-append, edge}

abbrev pub is_gray : Color → Bool
is_gray white = false
is_gray gray = true
is_gray black = false

abbrev pub is_black : Color → Bool
is_black white = false
is_black gray = false
is_black black = true

-- the nodes that are still white
abbrev pub whites : List String → Map Color → ℕ
whites ids m = count (λ x. is_white (at x white m)) ids

whites_enter :
    (id : String) (ids : List String) (m : Map Color)
    → is_white (at id white m) ≡ true
    → whites ids (insert id gray m) ≤ whites ids m
whites_enter id [] m w = omega arith
whites_enter id (x ∷ ids) m w =
    ground (arith, whites_enter id ids m w, at-insert id x gray white m, eq_iff id x, w)

pub enter-whites :
    (id : String) (ids : List String) (m : Map Color)
    → is_white (at id white m) ≡ true
    → mem ids id ≡ true
    → suc (whites ids (insert id gray m)) ≤ whites ids m
enter-whites id [] m w k = absurd (ground arith)
enter-whites id (x ∷ ids) m w k = elim (Bool-cases (x == id)) [
  | inl e ↦
      let at_x : is_white (at x white m) ≡ true =
        subst (λ y. is_white (at y white m) ≡ true) (sym ((eq_iff x id).0 e)) w in
      ground (
        arith,
        whites_enter id ids m w,
        at-insert id x gray white m,
        eq_iff id x,
        eq_iff x id,
        e,
        at_x,
      )
  | inr e ↦ ground (
    arith,
    enter-whites id ids m w (rw e at k),
    at-insert id x gray white m,
    eq_iff id x,
    eq_iff x id,
    e,
    w,
  )
]

whites_mono :
    (ids : List String) (m m' : Map Color)
    → ((x : String) → is_white (at x white m') ≡ true → is_white (at x white m) ≡ true)
    → whites ids m' ≤ whites ids m
whites_mono [] m m' h = omega arith
whites_mono (x ∷ ids) m m' h = ground (arith, whites_mono ids m m' h, h x)

-- A statement on each way in which a search ends.
abbrev pub Ends : (List String → Type 0) → (Search → Type 0) → Found → Type 0
Ends Q P (some c, s) = Q c
Ends Q P (none, s) = P s

pub go_on-Ends :
    (Q : List String → Type 0) (P R : Search → Type 0) (r : Found) (rest : Search → Found)
    → Ends Q P r
    → ((s : Search) → P s → Ends Q R (rest s))
    → Ends Q R (go_on r rest)
go_on-Ends Q P R (some c, s) rest h k = h
go_on-Ends Q P R (none, s) rest h k = k s h

-- what a search that found nothing leaves as it was
pub record Kept (s s' : Search) : Type 0 where
  pub stack : s'.stack ≡ s.stack
  pub grays : (x : String) → is_gray (color_of s' x) ≡ is_gray (color_of s x)
  pub blacks : (x : String) → is_black (color_of s x) ≡ true → is_black (color_of s' x) ≡ true

module _ (adj : Map (List String)) where
  -- Gray nodes are on the stack, and black nodes only lead to black nodes, of a lower rank.
  pub record Sorted (s : Search) : Type 0 where
    pub on_stack : (x : String) → is_gray (color_of s x) ≡ true → mem s.stack x ≡ true
    pub rank : String → ℕ
    pub bound : ℕ
    pub below : (x : String) → is_black (color_of s x) ≡ true → rank x < bound
    pub falls :
        (a b : String)
        → is_black (color_of s a) ≡ true
        → edge adj a b ≡ true
        → (is_black (color_of s b) ≡ true) × (rank b < rank a)

  entered_black :
      (id b : String) (s : Search)
      → is_white (color_of s id) ≡ true
      → is_black (color_of s b) ≡ true
      → is_black (color_of (enter id s) b) ≡ true
  entered_black id b s w k =
      let d = differ (λ y. is_white (color_of s y)) id b w (ground (arith, k)) in
      ground (arith, at-insert id b gray white s.color, d, k)

  pub enter-Sorted :
      (id : String) (s : Search) → is_white (color_of s id) ≡ true → Sorted s → Sorted (enter id s)
  enter-Sorted id s w g = record {
    on_stack = λ x h.
        ground (
          arith,
          mem-append s.stack (id ∷ []) x,
          g.on_stack x,
          at-insert id x gray white s.color,
          h,
        );
    rank = g.rank;
    bound = g.bound;
    below = λ x h. g.below x (ground (arith, at-insert id x gray white s.color));
    falls = λ a b h e.
        let d = g.falls a b (ground (arith, at-insert id a gray white s.color)) e in
        (entered_black id b s w d.0, d.1);
  }

  not_gray :
      (id b : String) (s : Search)
      → is_gray (color_of s id) ≡ true
      → is_black (color_of s b) ≡ true
      → (id == b) ≡ false
  not_gray id b s k d = differ (λ y. is_gray (color_of s y)) id b k (ground (arith, d))

  left_black :
      (id b : String) (s : Search)
      → is_gray (color_of s id) ≡ true
      → is_black (color_of s b) ≡ true
      → is_black (at b white (insert id black s.color)) ≡ true
  left_black id b s k d = ground (arith, at-insert id b black white s.color, not_gray id b s k d, d)

  -- A node becomes black once every node that it leads to is black.
  leave-Sorted :
      (id : String) (s : Search) (stack : List String)
      → is_gray (color_of s id) ≡ true
      → s.stack ≡ stack ++ (id ∷ [])
      → ((b : String) → edge adj id b ≡ true → is_black (color_of s b) ≡ true)
      → Sorted s
      → Sorted (record { color = insert id black s.color; stack = stack })
  leave-Sorted id s stack k e all g = record {
    on_stack = λ x h.
        let d = at-insert id x black white s.color in
        ground (arith, d, g.on_stack x, rw e at (g.on_stack x), mem-append stack (id ∷ []) x, h);
    rank = λ x. if id == x then g.bound else g.rank x;
    bound = suc g.bound;
    below = λ x h. ground (arith, at-insert id x black white s.color, g.below x, h);
    falls = λ a b h q. elim (Bool-cases (id == a)) [
      | inl same ↦
          let d = all b (subst (λ y. edge adj y b ≡ true) (sym ((eq_iff id a).0 same)) q) in
          let apart = not_gray id b s k d in
          (left_black id b s k d, rw (same, apart) (omega (arith, g.below b d)))
      | inr other ↦
          let d = g.falls a b (ground (arith, at-insert id a black white s.color, other, h)) q in
          let apart = not_gray id b s k d.0 in (left_black id b s k d.0, rw (other, apart) d.1)
    ];
  }

  pub Kept-refl : (s : Search) → Kept s s
  Kept-refl s = record { stack = refl; grays = λ x. refl; blacks = λ x h. h }

  Kept-trans : (s t u : Search) → Kept s t → Kept t u → Kept s u
  Kept-trans s t u h k = record {
    stack = k.stack ∙ h.stack;
    grays = λ x. k.grays x ∙ h.grays x;
    blacks = λ x b. k.blacks x (h.blacks x b);
  }

  pub Kept-whites :
      (ids : List String) (s t : Search) → Kept s t → whites ids t.color ≤ whites ids s.color
  Kept-whites ids s t h =
      whites_mono ids s.color t.color (λ x w. ground (arith, h.grays x, h.blacks x, w))

  -- what the search from one node, and from the first of several, leaves
  pub record After (s : Search) (id : String) (s' : Search) : Type 0 where
    pub sorted : Sorted s'
    pub kept : Kept s s'
    pub done : is_black (color_of s' id) ≡ true

  pub record AfterAll (s : Search) (nexts : List String) (s' : Search) : Type 0 where
    pub sorted : Sorted s'
    pub kept : Kept s s'
    pub done : (x : String) → mem nexts x ≡ true → is_black (color_of s' x) ≡ true

  pub AfterAll-cons :
      (s t u : Search) (id : String) (ids : List String)
      → After s id t
      → AfterAll t ids u
      → AfterAll s (id ∷ ids) u
  AfterAll-cons s t u id ids h k = record {
    sorted = k.sorted;
    kept = Kept-trans s t u h.kept k.kept;
    done = λ x m. elim (Bool-cases (id == x)) [
      | inl e ↦
          k.kept.blacks x (subst (λ y. is_black (color_of t y) ≡ true) ((eq_iff id x).0 e) h.done)
      | inr e ↦ k.done x (rw e at m)
    ];
  }

  pub leave-After :
      (id : String) (nexts : List String) (s t : Search)
      → is_white (color_of s id) ≡ true
      → at id [] adj ≡ nexts
      → AfterAll (enter id s) nexts t
      → After s id (leave id (none, t)).1
  unfolding leave
  leave-After id nexts s t w e h =
      let back : drop_last t.stack ≡ s.stack = rw h.kept.stack (drop_last-append s.stack id) in
      let entered : is_gray (color_of t id) ≡ true =
        h.kept.grays id ∙ ap is_gray (at-insert_self id gray white s.color) in
      record {
        sorted =
            leave-Sorted id t (drop_last t.stack) entered
              (h.kept.stack ∙ sym (ap (λ l. l ++ (id ∷ [])) back)) (λ b q. h.done b (rw e at q))
              h.sorted;
        kept = record {
          stack = back;
          grays = λ x. elim (Bool-cases (id == x)) [
            | inl q ↦
                let white_x : is_white (color_of s x) ≡ true =
                  subst (λ y. is_white (color_of s y) ≡ true) ((eq_iff id x).0 q) w in
                ground (arith, q, at-insert id x black white t.color, white_x)
            | inr q ↦ ground (
              arith,
              q,
              at-insert id x black white t.color,
              at-insert id x gray white s.color,
              h.kept.grays x,
            )
          ];
          blacks = λ x b. left_black id x t entered (h.kept.blacks x (entered_black id x s w b));
        };
        done = ap is_black (at-insert_self id black white t.color);
      }
