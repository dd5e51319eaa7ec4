-- ===== src/Engine/Conditional/Laws.antt =====
-- What a conditional edge decides: core/engine/conditional.go.
use workflow_execution_engin.Prelude.{
  String, ◌≡◌, refl, inl, inr, Bool, not, Option, none, some, List, [], ◌∷◌, ◌++◌, arith, eq_iff,
  Option-cases, atoi,
}
use workflow_execution_engin.Domain.Value.{
  Float64, Value, null, bool, float, int, text, array, object, member, FloatOps,
}
use workflow_execution_engin.Domain.Workflow.{CompareOp, op_eq, op_ne, Condition}
use workflow_execution_engin.Domain.Error.{Fallible, ok, err}
use workflow_execution_engin.Engine.Conditional.{
  element, lookup_segments, to_float, same_scalar, equal_scalar, compare, eval_condition,
}

abbrev pub negated : Fallible Bool → Fallible Bool
negated (ok b) = ok (not b)
negated (err e) = err e

abbrev pub with_op : CompareOp → Condition → Condition
with_op op cond = record cond { op = op }

-- A walk along two stretches of a path is the first walk and then the second.
lookup_segments-append :
    (doc : Value) (p q : List String) (mid : Value)
    → lookup_segments doc p ≡ some mid
    → lookup_segments doc (p ++ q) ≡ lookup_segments mid q
unfolding lookup_segments
lookup_segments-append doc [] q mid h = ground arith
lookup_segments-append (object fs) (seg ∷ p) q mid h = elim (Option-cases (member fs seg)) [
  | inl e ↦ ground arith
  | inr (v, e) ↦ ground (arith, lookup_segments-append v p q mid)
]
lookup_segments-append (array vs) (seg ∷ p) q mid h = elim (Option-cases (element vs (atoi seg))) [
  | inl e ↦ ground arith
  | inr (v, e) ↦ ground (arith, lookup_segments-append v p q mid)
]
lookup_segments-append null (seg ∷ p) q mid h = cc
lookup_segments-append (bool b) (seg ∷ p) q mid h = cc
lookup_segments-append (float b) (seg ∷ p) q mid h = cc
lookup_segments-append (int b) (seg ∷ p) q mid h = cc
lookup_segments-append (text b) (seg ∷ p) q mid h = cc

module _ (ops : FloatOps) (unmarshal : String → Option Value) where
  -- "ne" decides the opposite of "eq", and fails exactly where "eq" fails: also on a path that does
  -- not resolve, and on an artifact that is not JSON.
  pub eval_condition-ne :
      (cond : Condition) (artifact : String)
      → eval_condition ops unmarshal (some (with_op op_ne cond)) artifact
        ≡ negated (eval_condition ops unmarshal (some (with_op op_eq cond)) artifact)
  unfolding eval_condition compare
  eval_condition-ne cond artifact = ground arith

module _ (ops : FloatOps) (equal_comm : (f g : Float64) → ops.equal f g ≡ ops.equal g f) where
  same_scalar_comm :
      (a b : Value)
      → to_float ops a ≡ none
      → to_float ops b ≡ none
      → same_scalar ops a b ≡ same_scalar ops b a
  unfolding equal_scalar
  same_scalar_comm null b x y = ground arith
  same_scalar_comm (bool p) b x y = ground arith
  same_scalar_comm (float f) b x y = cc
  same_scalar_comm (int f) b x y = cc
  same_scalar_comm (text s) (text t) x y = ground (arith, eq_iff s t, eq_iff t s)
  same_scalar_comm (text s) null x y = refl
  same_scalar_comm (text s) (bool p) x y = ground arith
  same_scalar_comm (text s) (float f) x y = refl
  same_scalar_comm (text s) (int i) x y = refl
  same_scalar_comm (text s) (array vs) x y = refl
  same_scalar_comm (text s) (object fs) x y = refl
  same_scalar_comm (array vs) b x y = ground arith
  same_scalar_comm (object fs) b x y = ground arith

  -- Equality of JSON scalars does not depend on the order of its arguments, if that of floats does
  -- not.
  equal_scalar_comm : (a b : Value) → equal_scalar ops a b ≡ equal_scalar ops b a
  unfolding equal_scalar
  equal_scalar_comm a b = elim (Option-cases (to_float ops a)) [
    | inl x ↦ elim (Option-cases (to_float ops b)) [
      | inl y ↦ rw (x, y, equal_scalar) (same_scalar_comm a b x y)
      | inr (g, y) ↦ ground arith
    ]
    | inr (f, x) ↦ elim (Option-cases (to_float ops b)) [
      | inl y ↦ ground arith
      | inr (g, y) ↦ ground (arith, equal_comm f g)
    ]
  ]
