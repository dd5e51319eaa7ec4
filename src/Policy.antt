-- ===== src/Policy.antt =====
-- core/policy/resolver.go: the upstream artifacts that a Worker may see.
use workflow_execution_engin.Prelude.{
  String, Bool, true, false, ◌||◌, Option, none, some, List, [], ◌∷◌, ◌==◌, filter,
}
use workflow_execution_engin.Domain.Workflow.{
  ArtifactType, artifact_diff, ContextMode, unset_context, context_full, context_parent_only,
  context_artifacts, context_diff_only, context_summary, context_none, other_context, ContextPolicy,
}
use workflow_execution_engin.Domain.Error.{plain, Fallible, ok, err}

pub record Item : Type 0 where
  pub from_node : String
  pub type : ArtifactType
  pub hash : String
  pub content : String

abbrev pub is_diff : ArtifactType → Bool
is_diff artifact_diff = true
is_diff _ = false

-- allowed[id], for the set of the listed ids
unfoldable pub contains : List String → String → Bool
contains [] id = false
contains (x ∷ xs) id = (x == id) || contains xs id

abbrev pub listed : Option (List String) → List String
listed none = []
listed (some ids) = ids

-- A nil slice and an empty one are one list here; no caller tells them apart.
unfoldable pub resolve_mode : ContextMode → Option (List String) → List Item → Fallible (List Item)
resolve_mode unset_context params available = ok available
resolve_mode context_parent_only params available = ok available
resolve_mode context_full params available = ok available
resolve_mode context_none params available = ok []
resolve_mode context_diff_only params available = ok (filter (λ it. is_diff it.type) available)
resolve_mode context_artifacts params available =
    ok (filter (λ it. contains (listed params) it.from_node) available)
resolve_mode context_summary params available = err (plain "context mode is not yet supported")
resolve_mode (other_context s) params available = err (plain "unknown context mode")

unfoldable pub resolve : ContextPolicy → List Item → Fallible (List Item)
unfolding resolve_mode contains
resolve p available = resolve_mode p.mode p.params available

unfoldable pub hashes : List Item → List String
hashes [] = []
hashes (it ∷ items) = it.hash ∷ hashes items
