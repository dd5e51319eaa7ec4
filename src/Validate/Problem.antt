-- ===== src/Validate/Problem.antt =====
-- core/validate/errors.go: a problem, located by a JSON pointer and, where one is known, by a line.
use workflow_execution_engin.Prelude.{ℕ, String, Option, none, some, List}

pub data Step : Type 0 where
  at_key : String → Step
  at_index : ℕ → Step

-- a JSON pointer, less its encoding
abbrev pub Pointer : Type 0
Pointer = List Step

-- what core/validate/graph.go says of a workflow
pub data Message : Type 0 where
  empty_id : Message
  duplicate_id : (id : String) (first : ℕ) → Message
  no_reference : (id : String) → Message
  two_references : (id : String) → Message
  undeclared_input : (id name : String) → Message
  unknown_end : (edge : ℕ) (side id : String) → Message
  orphan : (id : String) → Message
  cycle_detected : (cycle : List String) → Message
  unknown_artifact : (id ref : String) → Message
  not_upstream : (id ref : String) → Message

-- `line` is 0 where it is not known
pub record Problem : Type 0 where
  pub pointer : Pointer
  pub line : ℕ
  pub message : Message

-- LineResolver, of which only Line is asked
abbrev pub LineResolver : Type 0
LineResolver = Pointer → Option ℕ

-- a problem with its line, if there is a resolver that knows it
unfoldable pub resolve_line : Option LineResolver → Problem → Problem
resolve_line none p = p
resolve_line (some line_of) p = elim (line_of p.pointer) [
  | none ↦ p
  | some n ↦ record p { line = n }
]

unfoldable pub problem_at : Option LineResolver → Pointer → Message → Problem
unfolding resolve_line
problem_at src ptr m = resolve_line src (record { pointer = ptr; line = 0; message = m })
