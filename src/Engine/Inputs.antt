-- ===== src/Engine/Inputs.antt =====
-- core/engine/inputs.go: the values of the inputs that a workflow declares.
pub mod Laws
pub mod Again
use workflow_execution_engin.Prelude.{
  String, not, List, [], ◌∷◌, ◌==◌, if◌then◌else◌, is_some, Map, lookup, insert,
}
use workflow_execution_engin.Domain.Workflow.{InputDecl}
use workflow_execution_engin.Domain.Error.{missing_input, sentinel, wrapped, Fallible, ok, err}
use Prim.Native.Nat.{Ordering}
use Prim.Native.String.{compare, ◌++◌ as append}

-- The loop over the declarations. A map is a value here, so the copy of the supplied ones is they.
-- The names of required declarations without a value are collected in `missing`, the last first.
unfoldable pub resolve_from : List InputDecl → Map String → List String → Map String × List String
resolve_from [] resolved missing = (resolved, missing)
resolve_from (d ∷ ds) resolved missing =
    let kept = resolve_from ds resolved missing in
    let filled = resolve_from ds (insert d.name d.default resolved) missing in
    let lacking = resolve_from ds resolved (d.name ∷ missing) in
    if is_some (lookup d.name resolved)
    then kept
    else if not (d.default == "")
    then filled
    else if d.required
    then lacking
    else kept

-- sort.Strings and strings.Join, which only the text of the error shows
insert_sorted : String → List String → List String
insert_sorted x [] = x ∷ []
insert_sorted x (y ∷ ys) =
    let rest = insert_sorted x ys in elim (compare x y) [ Ordering.gt ↦ y ∷ rest | _ ↦ x ∷ y ∷ ys ]

sort : List String → List String
sort [] = []
sort (x ∷ xs) = insert_sorted x (sort xs)

join : String → List String → String
join sep [] = ""
join sep (x ∷ []) = x
join sep (x ∷ y ∷ rest) = append x (append sep (join sep (y ∷ rest)))

report_missing : Map String × List String → Fallible (Map String)
report_missing (resolved, []) = ok resolved
report_missing (resolved, m ∷ ms) =
    err (wrapped (join ", " (sort (m ∷ ms))) (sentinel missing_input))

unfoldable pub resolve_workflow_inputs : List InputDecl → Map String → Fallible (Map String)
unfolding resolve_from report_missing insert_sorted sort join
resolve_workflow_inputs decls supplied = report_missing (resolve_from decls supplied [])
