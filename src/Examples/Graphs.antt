-- ===== src/Examples/Graphs.antt =====
-- The graph of the sample workflow, and one with a cycle.
use workflow_execution_engin.Prelude.{
  String, ◌≡◌, refl, ◌↔◌, true, none, some, List, [], ◌∷◌, ◌++◌, is_some, lookup, insert, at,
}
use workflow_execution_engin.Domain.Workflow.{Workflow}
use workflow_execution_engin.Validate.Cycle.Paths.{IsCycle}
use workflow_execution_engin.Validate.Graph.{graph}
use workflow_execution_engin.Validate.Linked.{linked, succ, cycle_of, Cyclic, found-Cyclic}
use workflow_execution_engin.Validate.Accepted.{IsAccepted, graph-IsAccepted}
use workflow_execution_engin.Examples.Samples.{pipeline}

pipeline_valid : graph none pipeline ≡ []
unfolding graph lookup insert at
pipeline_valid = refl

graph-IsAccepted_example : IsAccepted pipeline
graph-IsAccepted_example = graph-IsAccepted none pipeline pipeline_valid

-- the sample with an edge back
abbrev looped : Workflow
looped = record pipeline {
  edges = pipeline.edges ++ (record { source = "write"; target = "plan"; condition = none } ∷ []);
}

looped_cycle : cycle_of none looped ≡ some ("plan" ∷ "write" ∷ "plan" ∷ [])
unfolding graph lookup insert at
looped_cycle = refl

found-Cyclic_example :
    ((is_some (cycle_of none looped) ≡ true) ↔ Cyclic (linked looped))
    × ((c : List String) → cycle_of none looped ≡ some c → IsCycle (succ none looped) c)
found-Cyclic_example = found-Cyclic none looped
