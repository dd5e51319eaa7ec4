-- ===== src/Engine/Scheduler/Completion.antt =====
-- What the coordinator does with a finished task: handleCompletion of core/engine/scheduler.go, and
-- failurePolicyOf of core/engine/failure_policy.go.
use workflow_execution_engin.Prelude.{
  String, Bool, true, false, not, ◌&&◌, ◌||◌, Option, none, some, [], ◌∷◌, ◌++◌, if◌then◌else◌,
  is_some, lookup, insert, at, ℤ, pos, ◌-ℤ◌,
}
use workflow_execution_engin.Domain.Value.{Value, object, Fields, end, field, FloatOps}
use workflow_execution_engin.Domain.Workflow.{
  FailureMode, unset_mode, fail_execution, fail_continue, fail_fallback, FailurePolicy, Node,
}
use workflow_execution_engin.Domain.Error.{
  approval_required, approval_rejected, budget_exceeded, node_failed, context_canceled,
  deadline_exceeded, kind_budget, Error, sentinel, wrapped, is,
}
use workflow_execution_engin.Domain.Diagnostic.{wrap, payload}
use workflow_execution_engin.Domain.Event
use workflow_execution_engin.Engine.Types.{
  NodeState, pending, succeeded, failed, NodeOutcome, bare_outcome, NodeResult, Completion,
}
use workflow_execution_engin.Engine.Budget.{add, exceeded, should_warn, status}
use workflow_execution_engin.Engine.Scheduler.Graph.{Graph}
use workflow_execution_engin.Engine.Scheduler.Coordinator.{
  Coordinator, emit, halt, cancel_halt, settle,
}

abbrev pub default_policy : FailurePolicy
default_policy = record { mode = fail_execution; fallback_node = "" }

abbrev pub is_set : FailureMode → Bool
is_set unset_mode = false
is_set _ = true

unfoldable pub failure_policy_of : Node → FailurePolicy
failure_policy_of node = elim node.on_failure [
  | none ↦ default_policy
  | some p ↦ if is_set p.mode then p else default_policy
]

abbrev pub is_fallback : FailureMode → Bool
is_fallback fail_fallback = true
is_fallback _ = false

abbrev pub is_continue : FailureMode → Bool
is_continue fail_continue = true
is_continue _ = false

-- The last entry of a payload: payload[k] = v, for a new key.
abbrev pub with_field : String → Value → Fields → Fields
with_field k v end = field k v end
with_field k v (field j w fs) = field j w (with_field k v fs)

abbrev pub budget_error : String → Error
budget_error id =
    wrap (sentinel budget_exceeded) kind_budget "budget_exceeded" id "budget.check"
      "execution exceeded its configured budget"
      "raise the budget or reduce workflow cost, tokens, or duration"

module _ (ops : FloatOps) (unmarshal : String → Option Value) (describe : Error → String)
    (g : Graph) where
  abbrev pub settle_in : String → NodeState → Coordinator → Coordinator
  settle_in = settle ops unmarshal g

  abbrev pub failed_outcome : NodeState → Error → NodeOutcome
  failed_outcome st e = record (bare_outcome st) { err = describe e }

  abbrev pub record_outcome : String → NodeOutcome → Coordinator → Coordinator
  record_outcome id o s = record s { outcomes = insert id o s.outcomes }

  abbrev pub fail_node : String → Error → Coordinator → Coordinator
  fail_node id e s = settle_in id failed (record_outcome id (failed_outcome failed e) s)

  -- the node failed for good, under its policy
  unfoldable pub fail_for_good : Completion → Error → FailurePolicy → Coordinator → Coordinator
  unfolding settle halt
  fail_for_good c e pol s =
      let s' = fail_node c.id e s in
      if is_continue pol.mode then s' else halt (wrapped (describe e) (sentinel node_failed)) s'

  abbrev pub retry_with : Completion → Node → Coordinator → Coordinator
  retry_with c fb s = record s {
    fb_tried = insert c.id true s.fb_tried;
    ready =
        s.ready ++ (record { node = fb; inputs = at c.id [] s.inputs_used; attr_to = c.id } ∷ []);
  }

  -- the failure policy of the node that ran
  unfoldable pub apply_policy : Completion → Error → Coordinator → Coordinator
  unfolding fail_for_good failure_policy_of
  apply_policy c e s =
      let pol = failure_policy_of c.node in
      if is_fallback pol.mode && not (at c.id false s.fb_tried)
      then elim (lookup pol.fallback_node g.nodes_by_id) [
        | some fb ↦ retry_with c fb s
        | none ↦ fail_for_good c e pol s
      ]
      else fail_for_good c e pol s

  -- an error is a consequence of the teardown, not a failure of the node
  abbrev pub is_collateral : (parent_err : Option Error) → Error → Coordinator → Bool
  is_collateral parent_err e s =
      s.halted || is_some parent_err || is context_canceled e || is deadline_exceeded e

  unfoldable pub handle_error :
      (parent_err : Option Error) → Completion → Error → Coordinator → Coordinator
  unfolding apply_policy cancel_halt
  handle_error parent_err c e s =
      if is approval_required e
      then halt e (record (record_outcome c.id (failed_outcome pending e) s) {
        state = insert c.id pending s.state;
      })
      else if is approval_rejected e
      then halt e (fail_node c.id e s)
      else if is_collateral parent_err e s
      then (let s' = fail_node c.id e s in
          if is_some parent_err then cancel_halt parent_err s' else s')
      else apply_policy c e s

  abbrev pub success_outcome : NodeResult → NodeOutcome
  success_outcome r = record {
    state = succeeded;
    hash = r.hash;
    type = r.type;
    cost_usd = r.cost_usd;
    tokens = r.tokens;
    err = "";
  }

  -- the output, the outcome and the spending of a node that succeeded
  abbrev pub record_success : Completion → Coordinator → Coordinator
  record_success c s =
      let r = c.res in
      record s {
        output =
            insert c.id (record { hash = r.hash; content = r.content; type = r.type }) s.output;
        outcomes = insert c.id (success_outcome r) s.outcomes;
        budget = add ops s.budget r.cost_usd r.tokens;
      }

  -- the checks of the budget after a success
  unfoldable pub check_budget : String → (elapsed_ms : ℤ) → Coordinator → Coordinator
  unfolding exceeded should_warn status payload
  check_budget id elapsed_ms s =
      let e = budget_error id in
      let (warn, b) = should_warn ops s.budget elapsed_ms in
      if exceeded ops s.budget elapsed_ms
      then halt e (
          emit Event.budget_exceeded ""
            (with_field "diagnostic" (object (payload describe e id)) (status s.budget elapsed_ms))
            s)
      else if warn
      then emit Event.budget_warning "" (status b elapsed_ms) (record s { budget = b })
      else record s { budget = b }

  unfoldable pub handle_success : (elapsed_ms : ℤ) → Completion → Coordinator → Coordinator
  unfolding check_budget add
  handle_success elapsed_ms c s =
      check_budget c.id elapsed_ms (settle_in c.id succeeded (record_success c s))

  unfoldable pub handle_outcome :
      (parent_err : Option Error) (elapsed_ms : ℤ)
      → Option Error
      → Completion
      → Coordinator
      → Coordinator
  unfolding handle_error handle_success
  handle_outcome parent_err elapsed_ms (some e) c s = handle_error parent_err c e s
  handle_outcome parent_err elapsed_ms none c s = handle_success elapsed_ms c s

  -- `parent_err` is parent.Err(), and `elapsed_ms` the reading of the clock.
  unfoldable pub handle_completion :
      (parent_err : Option Error) (elapsed_ms : ℤ) → Completion → Coordinator → Coordinator
  unfolding handle_outcome
  handle_completion parent_err elapsed_ms c s =
      handle_outcome parent_err elapsed_ms c.err c (record s { in_flight = s.in_flight -ℤ pos 1 })
