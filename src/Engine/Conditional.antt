-- ===== src/Engine/Conditional.antt =====
-- core/engine/conditional.go: the predicate of a conditional edge, over the JSON of an artifact.
-- encoding/json is the parameter `unmarshal`, and `none` stands for its error.
pub mod Laws
use workflow_execution_engin.Prelude.{
  String, Bool, true, false, not, Option, none, some, List, [], ◌∷◌, ◌==◌, ltb, if◌then◌else◌,
  is_some, ℤ, pos, negsuc, split, atoi,
}
use workflow_execution_engin.Domain.Value.{
  Float64, Value, null, bool, float, int, text, array, object, Items, end, field, item,
  items_length, member, FloatOps,
}
use workflow_execution_engin.Domain.Workflow.{
  CompareOp, op_eq, op_ne, op_gt, op_gte, op_lt, op_lte, op_exists, op_truthy, other_op, Condition,
}
use workflow_execution_engin.Domain.Error.{Error, plain, wrapped, is, Fallible, ok, err}

-- the element at a numeric segment
unfoldable pub element : Items → Option ℤ → Option Value
element vs none = none
element vs (some (pos n)) = item vs n
element vs (some (negsuc n)) = none

-- lookupPath after the path is split
unfoldable pub lookup_segments : Value → List String → Option Value
lookup_segments cur [] = some cur
lookup_segments (object fs) (seg ∷ segs) = elim (member fs seg) [
  | none ↦ none
  | some v ↦ lookup_segments v segs
]
lookup_segments (array vs) (seg ∷ segs) = elim (element vs (atoi seg)) [
  | none ↦ none
  | some v ↦ lookup_segments v segs
]
lookup_segments null (seg ∷ segs) = none
lookup_segments (bool b) (seg ∷ segs) = none
lookup_segments (float f) (seg ∷ segs) = none
lookup_segments (int i) (seg ∷ segs) = none
lookup_segments (text s) (seg ∷ segs) = none

unfoldable pub lookup_path : Value → String → Option Value
lookup_path doc path = if path == "" then some doc else lookup_segments doc (split b'.' path)

abbrev pub unmarshal_error : String → Error
unmarshal_error path = wrapped path (plain "upstream artifact is not valid JSON")

abbrev pub unknown_operator : String → Error
unknown_operator path = wrapped path (plain "unknown operator")

module _ (ops : FloatOps) where
  unfoldable pub to_float : Value → Option Float64
  to_float (float f) = some f
  to_float (int i) = some (ops.of_int i)
  to_float _ = none

  unfoldable pub truthy : Value → Bool
  truthy null = false
  truthy (bool b) = b
  truthy (text s) = not (s == "")
  truthy (array vs) = ltb 0 (items_length vs)
  truthy (object end) = false
  truthy (object (field k v fs)) = true
  truthy (float f) = not (ops.equal f (ops.of_int (pos 0)))
  truthy (int i) = not (ops.equal (ops.of_int i) (ops.of_int (pos 0)))

  -- the switch of equalScalar, where `a` is no number
  same_scalar : Value → Value → Bool
  same_scalar (text s) (text t) = s == t
  same_scalar (bool true) (bool b) = b
  same_scalar (bool false) (bool b) = not b
  same_scalar null null = true
  same_scalar _ _ = false

  unfoldable pub equal_scalar : Value → Value → Bool
  unfolding same_scalar to_float
  equal_scalar a b = elim (to_float a) [
    | some f ↦ elim (to_float b) [ some g ↦ ops.equal f g | none ↦ false ]
    | none ↦ same_scalar a b
  ]

  -- the inner switch of compare, for the four ordering operators
  order_by : CompareOp → Float64 → Float64 → Bool
  order_by op_gt g w = ops.less w g
  order_by op_gte g w = ops.less_eq w g
  order_by op_lt g w = ops.less g w
  order_by _ g w = ops.less_eq g w

  abbrev pub requires_numbers : Error
  requires_numbers = plain "operator requires numbers"

  order : CompareOp → Option Float64 → Option Float64 → Fallible Bool
  unfolding order_by
  order op (some g) (some w) = ok (order_by op g w)
  order op none _ = err requires_numbers
  order op (some g) none = err requires_numbers

  unfoldable pub compare : Value → CompareOp → Value → Fallible Bool
  unfolding equal_scalar order
  compare got op_eq want = ok (equal_scalar got want)
  compare got op_ne want = ok (not (equal_scalar got want))
  compare got op_gt want = order op_gt (to_float got) (to_float want)
  compare got op_gte want = order op_gte (to_float got) (to_float want)
  compare got op_lt want = order op_lt (to_float got) (to_float want)
  compare got op_lte want = order op_lte (to_float got) (to_float want)
  compare got _ want = err (plain "unknown operator")

  -- what a comparison says of a path that does not resolve
  compare_found : Option Value → CompareOp → Value → Fallible Bool
  compare_found (some got) op want = compare got op want
  compare_found none op_ne want = ok true
  compare_found none _ want = ok false

  -- the switch of evalCondition
  eval_op : CompareOp → Option Value → Condition → Fallible Bool
  unfolding compare_found truthy
  eval_op op_exists found cond = ok (is_some found)
  eval_op op_truthy found cond = ok (elim found [ some got ↦ truthy got | none ↦ false ])
  eval_op (other_op s) found cond = err (unknown_operator cond.path)
  eval_op op found cond = compare_found found op cond.value

  unfoldable pub eval_condition :
      (unmarshal : String → Option Value) → Option Condition → String → Fallible Bool
  unfolding eval_op lookup_path
  eval_condition unmarshal none artifact = ok true
  eval_condition unmarshal (some cond) artifact = elim (unmarshal artifact) [
    | none ↦ err (unmarshal_error cond.path)
    | some doc ↦ eval_op cond.op (lookup_path doc cond.path) cond
  ]
