-- ===== src/Validate/Cycle.antt =====
-- findCycle of core/validate/graph.go: a depth-first search with three colors.
use workflow_execution_engin.Prelude.{
  ℕ, zero, suc, String, Bool, true, false, not, ◌&&◌, Option, none, some, List, [], ◌∷◌, ◌++◌, ◌==◌,
  if◌then◌else◌, length, Map, insert, at,
}
pub mod Paths
pub mod Explored
pub mod Finding

pub data Color : Type 0 where
  white : Color
  gray : Color
  black : Color

-- The variables that dfs shares: the colors, and the stack with its top at the end.
pub record Search : Type 0 where
  pub color : Map Color
  pub stack : List String

-- what dfs returns, with the variables as it leaves them
abbrev pub Found : Type 0
Found = Option (List String) × Search

abbrev pub color_of : Search → String → Color
color_of s id = at id white s.color

-- the part of the stack from a node on
unfoldable pub cut_from : String → List String → Option (List String)
cut_from next [] = none
cut_from next (x ∷ xs) = if x == next then some (x ∷ xs) else cut_from next xs

-- stack[:len(stack)-1]
unfoldable pub drop_last : List String → List String
drop_last [] = []
drop_last (x ∷ []) = []
drop_last (x ∷ y ∷ ys) = x ∷ drop_last (y ∷ ys)

abbrev pub enter : String → Search → Search
enter id s = record { color = insert id gray s.color; stack = s.stack ++ (id ∷ []) }

unfoldable pub leave : String → Found → Found
unfolding drop_last
leave id (some c, s) = (some c, s)
leave id (none, s) = (none, record { color = insert id black s.color; stack = drop_last s.stack })

-- what follows a back edge: a gray node is on the stack, so the search ends here
abbrev pub close : String → Search → Option (List String) → Found → Found
close next s (some c) rest = (some (c ++ (next ∷ [])), s)
close next s none rest = rest

-- the search goes on where nothing was found
abbrev pub go_on : Found → (Search → Found) → Found
go_on (some c, s) rest = (some c, s)
go_on (none, s) rest = rest s

-- the switch over the color of one successor, given the search from it and the rest of the loop
unfoldable pub visit :
    String → (String → Search → Found) → (Search → Found) → Color → Search → Found
unfolding cut_from
visit next dfs rest white s = go_on (dfs next s) rest
visit next dfs rest gray s = close next s (cut_from next s.stack) (rest s)
visit next dfs rest black s = rest s

-- the loop over the successors
unfoldable pub visit_all : (String → Search → Found) → List String → Search → Found
unfolding visit
visit_all dfs [] s = (none, s)
visit_all dfs (next ∷ nexts) s = visit next dfs (visit_all dfs nexts) (color_of s next) s

module _ (adj : Map (List String)) where
  -- With no fuel left nothing is searched.
  unfoldable pub dfs : ℕ → String → Search → Found
  unfolding visit_all leave
  dfs zero id s = (none, s)
  dfs (suc fuel) id s = leave id (visit_all (dfs fuel) (at id [] adj) (enter id s))

abbrev pub is_white : Color → Bool
is_white white = true
is_white gray = false
is_white black = false

module _ (adj : Map (List String)) (fuel : ℕ) where
  -- the loop over the nodes
  unfoldable pub search_from : List String → Search → Found
  unfolding dfs
  search_from [] s = (none, s)
  search_from (id ∷ ids) s =
      if not (id == "") && is_white (color_of s id)
      then go_on (dfs adj fuel id s) (search_from ids)
      else search_from ids s

-- Each call colors one more node, so as many as there are nodes are enough.
unfoldable pub find_cycle : List String → Map (List String) → Option (List String)
unfolding search_from
find_cycle ids adj = (search_from adj (length ids) ids (record { color = []; stack = [] })).0
