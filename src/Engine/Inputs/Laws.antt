-- ===== src/Engine/Inputs/Laws.antt =====
-- Which inputs a run has: core/engine/inputs.go.
use workflow_execution_engin.Prelude.{
  ◌≤◌, ◌<◌, String, ◌≡◌, refl, ap, inl, inr, Bool, true, false, not, ◌&&◌, ◌||◌, none, some, List,
  [], ◌∷◌, arith, ◌==◌, eq_iff, Bool-cases, Option-cases, is_some, length, All, Map, lookup, insert,
  lookup-insert,
}
use workflow_execution_engin.Domain.Workflow.{InputDecl}
use workflow_execution_engin.Domain.Error.{missing_input, Error, is, ok, err}
use workflow_execution_engin.Engine.Inputs.{resolve_from, report_missing, resolve_workflow_inputs}

-- The keys that are there are kept with their values.
resolve_from-keeps :
    (ds : List InputDecl) (m : Map String) (missing : List String) (k v : String)
    → lookup k m ≡ some v
    → lookup k (resolve_from ds m missing).0 ≡ some v
unfolding resolve_from
resolve_from-keeps [] m missing k v h = h
resolve_from-keeps (d ∷ ds) m missing k v h = ground (
  arith,
  lookup-insert d.name k d.default m,
  eq_iff d.name k,
  resolve_from-keeps ds m missing k v,
  resolve_from-keeps ds m (d.name ∷ missing) k v,
  resolve_from-keeps ds (insert d.name d.default m) missing k v,
)

-- What is missing is never forgotten.
pub resolve_from-missing :
    (ds : List InputDecl) (m : Map String) (missing : List String)
    → length missing ≤ length (resolve_from ds m missing).1
unfolding resolve_from
resolve_from-missing [] m missing = omega arith
resolve_from-missing (d ∷ ds) m missing = ground (
  arith,
  resolve_from-missing ds m missing,
  resolve_from-missing ds m (d.name ∷ missing),
  resolve_from-missing ds (insert d.name d.default m) missing,
)

abbrev pub HasValue : Map String → InputDecl → Type 0
HasValue m d = is_some (lookup d.name m) ≡ true

pub value_kept :
    (ds : List InputDecl) (m : Map String) (missing : List String) (out : Map String) (k v : String)
    → lookup k m ≡ some v
    → resolve_from ds m missing ≡ (out, [])
    → is_some (lookup k out) ≡ true
value_kept ds m missing out k v e h =
    ground (arith, resolve_from-keeps ds m missing k v, ap (λ r. r.0) h)

-- If nothing is missing at the end, every required declaration has a value.
resolve_from_complete :
    (ds : List InputDecl) (m : Map String) (missing : List String) (out : Map String)
    → resolve_from ds m missing ≡ (out, [])
    → All (λ d. d.required ≡ true → HasValue out d) ds
unfolding resolve_from
resolve_from_complete [] m missing out h = tt
resolve_from_complete (d ∷ ds) m missing out h = elim (Option-cases (lookup d.name m)) [
  | inr (v, e) ↦ (
    λ _. value_kept ds m missing out d.name v e (rw e at h),
    resolve_from_complete ds m missing out (rw e at h),
  )
  | inl e ↦ elim (Bool-cases (d.default == "")) [
    | inl empty ↦ elim (Bool-cases d.required) [
      | inl req ↦ absurd (forgotten e empty req)
      | inr opt ↦ ((λ r. cc), resolve_from_complete ds m missing out (rw (e, empty, opt) at h))
    ]
    | inr full ↦ (
      λ _.
          value_kept ds (insert d.name d.default m) missing out d.name d.default
            (ground (arith, lookup-insert d.name d.name d.default m, eq_iff d.name d.name))
            (rw (e, full) at h),
      resolve_from_complete ds (insert d.name d.default m) missing out (rw (e, full) at h),
    )
  ]
]
  where
    forgotten : lookup d.name m ≡ none → (d.default == "") ≡ true → d.required ≡ true → ⊥
    forgotten e empty req =
        ground (arith, ap (λ r. length r.1) h, resolve_from-missing ds m (d.name ∷ missing))

-- A run that starts has every supplied value unchanged, and a value for every required input.
pub resolve_workflow_inputs_complete :
    (decls : List InputDecl) (supplied m : Map String)
    → resolve_workflow_inputs decls supplied ≡ ok m
    → ((k v : String) → lookup k supplied ≡ some v → lookup k m ≡ some v)
      × All (λ d. d.required ≡ true → HasValue m d) decls
unfolding resolve_workflow_inputs
resolve_workflow_inputs_complete decls supplied m h = (
  λ k v e. ground (arith, resolve_from-keeps decls supplied [] k v e, ap (λ r. r.0) done),
  resolve_from_complete decls supplied [] m done,
)
  where
    reported : (r : Map String × List String) → report_missing r ≡ ok m → r ≡ (m, [])
    reported (out, []) e = ground arith
    reported (out, x ∷ xs) e = cc

    done : resolve_from decls supplied [] ≡ (m, [])
    done = reported (resolve_from decls supplied []) h

-- Some declaration of the name is required.
abbrev pub needs : String → List InputDecl → Bool
needs n [] = false
needs n (d ∷ ds) = (d.name == n && d.required) || needs n ds

-- Some declaration of the name has a default.
abbrev pub defaults : String → List InputDecl → Bool
defaults n [] = false
defaults n (d ∷ ds) = (d.name == n && not (d.default == "")) || defaults n ds

resolve_from_lacking :
    (n : String) (ds : List InputDecl) (m : Map String) (missing : List String)
    → lookup n m ≡ none
    → needs n ds ≡ true
    → defaults n ds ≡ false
    → 0 < length (resolve_from ds m missing).1
unfolding resolve_from
resolve_from_lacking n [] m missing l r d = cc
resolve_from_lacking n (x ∷ ds) m missing l r d = ground (
  arith,
  eq_iff x.name n,
  lookup-insert x.name n x.default m,
  resolve_from-missing ds m (x.name ∷ missing),
  resolve_from_lacking n ds m missing l,
  resolve_from_lacking n ds m (x.name ∷ missing) l,
  resolve_from_lacking n ds (insert x.name x.default m) missing,
)

-- A required input that has no supplied value and no default stops the run with ErrMissingInput.
pub resolve_workflow_inputs_missing :
    (n : String) (decls : List InputDecl) (supplied : Map String)
    → lookup n supplied ≡ none
    → needs n decls ≡ true
    → defaults n decls ≡ false
    → (e : Error) × (resolve_workflow_inputs decls supplied ≡ err e) × (is missing_input e ≡ true)
unfolding resolve_workflow_inputs is
resolve_workflow_inputs_missing n decls supplied l r d =
    reported (resolve_from decls supplied []) (resolve_from_lacking n decls supplied [] l r d)
  where
    reported :
        (r : Map String × List String)
        → 0 < length r.1
        → (e : Error) × (report_missing r ≡ err e) × (is missing_input e ≡ true)
    reported (out, []) h = absurd (omega arith)
    reported (out, x ∷ xs) h = (_, refl, refl)
