-- ===== src/Engine/Scheduler/Coordinator.antt =====
-- The state of the coordinator goroutine of run, and the closures that change it: halt, cancelHalt,
-- settle and processDecisions of core/engine/scheduler.go.
use workflow_execution_engin.Prelude.{
  ℕ, zero, suc, ◌+◌, ◌*◌, String, Bool, true, false, Option, some, List, [], ◌∷◌, ◌++◌,
  if◌then◌else◌, get_or, length, Map, insert, at, ℤ, pos, ◌-ℤ◌,
}
use workflow_execution_engin.Domain.Value.{Value, Fields, end, FloatOps}
use workflow_execution_engin.Domain.Workflow.{Edge}
use workflow_execution_engin.Domain.Error.{
  cancelled, kind_validation, Error, sentinel, wrapped, Fallible, ok, err,
}
use workflow_execution_engin.Domain.Diagnostic.{wrap}
use workflow_execution_engin.Domain.Event.{EventType}
use workflow_execution_engin.Domain.Event
use workflow_execution_engin.Engine.Types.{
  NodeState, unset, running, skipped, is_pending, is_succeeded, NodeOutcome, bare_outcome,
  NodeInput, NodeOutput, no_output, no_node, Task, Emission,
}
use workflow_execution_engin.Engine.Budget.{BudgetTracker}
use workflow_execution_engin.Engine.Conditional.{eval_condition}
use workflow_execution_engin.Engine.Scheduler.Graph.{Graph}

-- `in_pool` are the tasks that the worker goroutines hold, `ctx_open` says that the coordinator
-- still listens to ctxDone, and `ctx_cancelled` that cancel was called.
pub record Coordinator : Type 0 where
  pub state : Map NodeState
  pub output : Map NodeOutput
  pub outcomes : Map NodeOutcome
  pub inputs_used : Map (List NodeInput)
  pub fb_tried : Map Bool
  pub pending_parents : Map ℤ
  pub budget : BudgetTracker
  pub ready : List Task
  pub to_decide : List String
  pub in_flight : ℤ
  pub in_pool : List Task
  pub halted : Bool
  pub halt_err : Option Error
  pub ctx_open : Bool
  pub ctx_cancelled : Bool
  pub emitted : List Emission

abbrev pub state_of : Coordinator → String → NodeState
state_of s id = at id unset s.state

abbrev pub emit : EventType → String → Fields → Coordinator → Coordinator
emit t node_id payload s = record s {
  emitted = s.emitted ++ (record { type = t; node_id = node_id; payload = payload } ∷ []);
}

unfoldable pub halt : Error → Coordinator → Coordinator
halt e s =
    if s.halted then s else record s { halted = true; halt_err = some e; ctx_cancelled = true }

-- `parent_err` is parent.Err() at the time of the call.
unfoldable pub cancel_halt : (parent_err : Option Error) → Coordinator → Coordinator
unfolding halt
cancel_halt parent_err s =
    if s.halted
    then s
    else halt (get_or parent_err (sentinel cancelled)) (emit Event.cancelled "" end s)

abbrev pub is_zero : ℤ → Bool
is_zero (pos zero) = true
is_zero _ = false

-- One parent of `ch` is settled: the loop body of settle.
unfoldable pub release : String → Coordinator → Coordinator
release ch s =
    let n = at ch (pos 0) s.pending_parents -ℤ pos 1 in
    record s {
      pending_parents = insert ch n s.pending_parents;
      to_decide = if is_zero n then s.to_decide ++ (ch ∷ []) else s.to_decide;
    }

unfoldable pub release_all : List String → Coordinator → Coordinator
release_all [] s = s
release_all (ch ∷ chs) s = release_all chs (release ch s)

-- What deciding a node has found so far: its edges all allow it, and the inputs that they carry.
pub record Decision : Type 0 where
  pub active : Bool
  pub inputs : List NodeInput

abbrev pub condition_error : Error → Edge → Error
condition_error e edge =
    wrap (wrapped "engine: edge" e) kind_validation "edge_condition_invalid" edge.target
      "edge.condition" "conditional edge could not be evaluated"
      "check the condition path and expected upstream artifact shape"

module _ (ops : FloatOps) (unmarshal : String → Option Value) (g : Graph) where
  unfoldable pub settle : String → NodeState → Coordinator → Coordinator
  unfolding release release_all
  settle id st s = release_all (at id [] g.children) (record s { state = insert id st s.state })

  abbrev pub edge_holds : Coordinator → Edge → Fallible Bool
  edge_holds s e = eval_condition ops unmarshal e.condition (at e.source no_output s.output).content

  abbrev pub edge_input : Coordinator → Edge → NodeInput
  edge_input s e =
      let po = at e.source no_output s.output in
      record { from_node = e.source; content = po.content; type = po.type; hash = po.hash }

  -- the condition of an edge whose source succeeded
  unfoldable pub follow : Fallible Bool → Edge → Decision × Coordinator → Decision × Coordinator
  unfolding halt
  follow (err x) e (d, s) = (record d { active = false }, halt (condition_error x e) s)
  follow (ok false) e (d, s) = (record d { active = false }, s)
  follow (ok true) e (d, s) = (record d { inputs = d.inputs ++ (edge_input s e ∷ []) }, s)

  -- the body of the loop over parents[id]
  unfoldable pub inspect_edge : Decision × Coordinator → Edge → Decision × Coordinator
  unfolding follow
  inspect_edge (d, s) e =
      if is_succeeded (state_of s e.source)
      then follow (edge_holds s e) e (d, s)
      else (record d { active = false }, s)

  unfoldable pub inspect_edges : List Edge → Decision × Coordinator → Decision × Coordinator
  inspect_edges [] ds = ds
  inspect_edges (e ∷ es) ds = inspect_edges es (inspect_edge ds e)

  -- what follows the loop over the edges
  unfoldable pub conclude : String → Decision × Coordinator → Coordinator
  unfolding settle
  conclude id (d, s) =
      if d.active
      then record s {
        state = insert id running s.state;
        inputs_used = insert id d.inputs s.inputs_used;
        ready =
            s.ready
            ++ (record { node = at id no_node g.nodes_by_id; inputs = d.inputs; attr_to = id }
                ∷ []);
      }
      else settle id skipped (record s { outcomes = insert id (bare_outcome skipped) s.outcomes })

  -- one round of the loop of processDecisions, after `id` left the queue
  unfoldable pub decide : String → Coordinator → Coordinator
  unfolding inspect_edge inspect_edges conclude
  decide id s =
      if is_pending (state_of s id)
      then conclude id
          (inspect_edges (at id [] g.parents) (record { active = true; inputs = [] }, s))
      else s

  -- With no fuel left the queue is handed back as it is.
  unfoldable pub decide_loop : ℕ → Coordinator → Coordinator
  unfolding decide
  decide_loop zero s = s
  decide_loop (suc fuel) s = elim s.to_decide [
    | [] ↦ s
    | id ∷ rest ↦ decide_loop fuel (decide id (record s { to_decide = rest }))
  ]

-- The edges that settling may still follow bound the rounds.
unfoldable pub total_children : Map (List String) → ℕ
total_children [] = 0
total_children ((k, chs) ∷ m) = length chs + total_children m

unfoldable pub pending_count : Map NodeState → ℕ
pending_count [] = 0
pending_count ((k, st) ∷ m) = let rest = pending_count m in if is_pending st then suc rest else rest

unfoldable pub decision_fuel : Graph → Coordinator → ℕ
unfolding total_children pending_count
decision_fuel g s = length s.to_decide + pending_count s.state * suc (total_children g.children)

unfoldable pub process_decisions :
    FloatOps → (String → Option Value) → Graph → Coordinator → Coordinator
unfolding decide_loop decision_fuel
process_decisions ops unmarshal g s = decide_loop ops unmarshal g (decision_fuel g s) s
