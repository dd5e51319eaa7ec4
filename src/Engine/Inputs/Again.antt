-- ===== src/Engine/Inputs/Again.antt =====
-- The inputs of a restarted run: core/engine/inputs.go, on the values that it gave before.
use workflow_execution_engin.Prelude.{
  String, ◌≡◌, refl, ap, inl, inr, Bool, true, not, ◌&&◌, ◌||◌, none, some, List, [], ◌∷◌, arith,
  ◌==◌, eq_iff, Bool-cases, Option-cases, is_some, length, All, Map, lookup, insert, lookup-insert,
}
use workflow_execution_engin.Domain.Workflow.{InputDecl}
use workflow_execution_engin.Domain.Error.{ok}
use workflow_execution_engin.Engine.Inputs.{resolve_from, report_missing, resolve_workflow_inputs}
use workflow_execution_engin.Engine.Inputs.Laws.{value_kept, resolve_from-missing}

-- A declaration that resolving leaves as it is: it has a value, or needs none and has no default.
abbrev settled : Map String → InputDecl → Bool
settled m d = is_some (lookup d.name m) || ((d.default == "") && not d.required)

abbrev IsSettled : Map String → InputDecl → Type 0
IsSettled m d = settled m d ≡ true

value-IsSettled :
    (ds : List InputDecl) (m : Map String) (missing : List String) (out : Map String)
    (d : InputDecl) (v : String)
    → lookup d.name m ≡ some v
    → resolve_from ds m missing ≡ (out, [])
    → IsSettled out d
value-IsSettled ds m missing out d v e h = ground (arith, value_kept ds m missing out d.name v e h)

resolve_from-IsSettled :
    (ds : List InputDecl) (m : Map String) (missing : List String) (out : Map String)
    → resolve_from ds m missing ≡ (out, [])
    → All (IsSettled out) ds
unfolding resolve_from
resolve_from-IsSettled [] m missing out h = tt
resolve_from-IsSettled (d ∷ ds) m missing out h = elim (Option-cases (lookup d.name m)) [
  | inr (v, e) ↦ (
    value-IsSettled ds m missing out d v e (rw e at h),
    resolve_from-IsSettled ds m missing out (rw e at h),
  )
  | inl e ↦ elim (Bool-cases (d.default == "")) [
    | inl empty ↦ elim (Bool-cases d.required) [
      | inl req ↦ absurd (forgotten e empty req)
      | inr opt ↦ (ground arith, resolve_from-IsSettled ds m missing out (rw (e, empty, opt) at h))
    ]
    | inr full ↦ (
      value-IsSettled ds (insert d.name d.default m) missing out d d.default
          (ground (arith, lookup-insert d.name d.name d.default m, eq_iff d.name d.name))
          (rw (e, full) at h),
      resolve_from-IsSettled ds (insert d.name d.default m) missing out (rw (e, full) at h),
    )
  ]
]
  where
    forgotten : lookup d.name m ≡ none → (d.default == "") ≡ true → d.required ≡ true → ⊥
    forgotten e empty req =
        ground (arith, ap (λ r. length r.1) h, resolve_from-missing ds m (d.name ∷ missing))

settled_stays :
    (ds : List InputDecl) (m : Map String) → All (IsSettled m) ds → resolve_from ds m [] ≡ (m, [])
unfolding resolve_from
settled_stays [] m a = refl
settled_stays (d ∷ ds) m a = ground (arith, a.0, settled_stays ds m a.1)

-- Resolving the inputs that resolving gave changes nothing.
pub resolve_workflow_inputs_again :
    (decls : List InputDecl) (supplied m : Map String)
    → resolve_workflow_inputs decls supplied ≡ ok m
    → resolve_workflow_inputs decls m ≡ ok m
unfolding resolve_workflow_inputs
resolve_workflow_inputs_again decls supplied m h = ap report_missing (
    settled_stays decls m
      (resolve_from-IsSettled decls supplied [] m (reported (resolve_from decls supplied []) h)))
  where
    reported : (r : Map String × List String) → report_missing r ≡ ok m → r ≡ (m, [])
    reported (out, []) e = ground arith
    reported (out, x ∷ xs) e = cc
