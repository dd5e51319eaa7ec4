-- ===== src/Engine/Scheduler/Loop.antt =====
-- The coordinator loop and the frame of run: core/engine/scheduler.go, from "Run state" to the end.
-- The select statement picks among the enabled cases, and the worker goroutines finish in any
-- order: a run is a sequence of moves, each with what its surroundings say at that time.
use workflow_execution_engin.Prelude.{
  Map, ℕ, zero, suc, String, Bool, true, false, not, ◌&&◌, ◌||◌, Option, none, some, List, [], ◌∷◌,
  ◌++◌, ltb, if◌then◌else◌, is_some, length, get_elem?, lookup, insert, at, ℤ, pos, negsuc, ◌+ℤ◌,
  ◌-ℤ◌, ltb_ℤ,
}
use workflow_execution_engin.Domain.Value.{text, end, field, Value, FloatOps}
use workflow_execution_engin.Domain.Workflow.{Node, Budget, Workflow}
use workflow_execution_engin.Domain.Error.{
  kind_validation, Fallible, ok, err, approval_required, budget_exceeded, cancelled,
  incomplete_graph, context_canceled, deadline_exceeded, kind_engine, Error, sentinel, wrapped, is,
}
use mathlib.Core.List.{foldl}
use workflow_execution_engin.Domain.Diagnostic.{wrap}
use workflow_execution_engin.Domain.Event
use workflow_execution_engin.Domain.Event.{
  ExecutionState, execution_pending, execution_running, execution_succeeded, execution_failed,
  execution_cancelled, execution_paused,
}
use workflow_execution_engin.Engine.Types.{
  Emission, RunOptions, NodeState, unset, pending, running, succeeded, failed, skipped, is_pending,
  bare_outcome, Result, NodeResult, NodeOutput, Task, Completion,
}
use workflow_execution_engin.Engine.Budget.{BudgetTracker, new_budget_tracker}
use workflow_execution_engin.Engine.Inputs.{resolve_workflow_inputs}
use workflow_execution_engin.Engine.Scheduler.Graph.{Graph}
use workflow_execution_engin.Engine.Scheduler.Coordinator.{
  Coordinator, state_of, cancel_halt, is_zero, process_decisions, emit,
}
use workflow_execution_engin.Engine.Scheduler.Completion.{handle_completion}

-- The states and outcomes that a run starts from, node by node.
abbrev pub seed_node : Map NodeOutput → Coordinator → Node → Coordinator
seed_node precompleted s n = elim (lookup n.id precompleted) [
  | some res ↦ record s {
    state = insert n.id succeeded s.state;
    output = insert n.id res s.output;
    outcomes =
        insert n.id (record (bare_outcome succeeded) { hash = res.hash; type = res.type })
          s.outcomes;
  }
  | none ↦ record s { state = insert n.id pending s.state }
]

abbrev lower : Map ℤ → String → Map ℤ
lower m ch = insert ch (at ch (pos 0) m -ℤ pos 1) m

-- the children of the precompleted nodes have fewer parents to wait for
unfoldable pub account_precompleted : Graph → Map NodeOutput → Map ℤ → Map ℤ
account_precompleted g [] m = m
account_precompleted g ((id, res) ∷ rest) m =
    account_precompleted g rest (foldl lower m (at id [] g.children))

-- the nodes that are decided at once
unfoldable pub initial_queue : Graph → Map NodeState → Map ℤ → List Node → List String
initial_queue g state pending_parents [] = []
initial_queue g state pending_parents (n ∷ ns) =
    let rest = initial_queue g state pending_parents ns in
    if is_pending (at n.id unset state)
      && is_zero (at n.id (pos 0) pending_parents)
      && not (at n.id false g.fallback_only)
    then n.id ∷ rest
    else rest

abbrev pub blank : Graph → BudgetTracker → Coordinator
blank g budget = record {
  state = [];
  output = [];
  outcomes = [];
  inputs_used = [];
  fb_tried = [];
  pending_parents = g.pending_parents;
  budget = budget;
  ready = [];
  to_decide = [];
  in_flight = pos 0;
  in_pool = [];
  halted = false;
  halt_err = none;
  ctx_open = true;
  ctx_cancelled = false;
  emitted = [];
}

-- What one round of the loop does, by the case of the select that is taken.
pub data Move : Type 0 where
  -- an idle worker takes the first ready task
  dispatch : Move
  -- the i-th task of the pool is finished
  finish : (i : ℕ) (res : NodeResult) (err parent_err : Option Error) (elapsed_ms : ℤ) → Move
  -- ctx.Done() is closed
  context_done : (parent_err : Option Error) → Move

abbrev pub nonempty {ℓ} : {A : Type ℓ} → List A → Bool
nonempty [] = false
nonempty (x ∷ xs) = true

-- for inFlight > 0 || (len(ready) > 0 && !halted)
unfoldable pub is_active : Coordinator → Bool
is_active s = ltb_ℤ (pos 0) s.in_flight || (nonempty s.ready && not s.halted)

-- The list without its i-th element, if it has one.
unfoldable pub remove_at {ℓ} : {A : Type ℓ} → ℕ → List A → List A
remove_at i [] = []
remove_at zero (x ∷ xs) = xs
remove_at (suc i) (x ∷ xs) = x ∷ remove_at i xs

module _ (ops : FloatOps) (unmarshal : String → Option Value) (describe : Error → String) where
  -- the run state with its precompleted nodes, and the nodes that are decided at once
  abbrev pub seeded : Graph → Budget → Map NodeOutput → Coordinator
  seeded g limit precompleted =
      let s = foldl (seed_node precompleted) (blank g (new_budget_tracker ops limit)) g.nodes in
      let waiting = account_precompleted g precompleted g.pending_parents in
      record s { pending_parents = waiting; to_decide = initial_queue g s.state waiting g.nodes }

  -- the state before the first round of the loop
  unfoldable pub start : Graph → Budget → Map NodeOutput → Coordinator
  unfolding account_precompleted initial_queue process_decisions new_budget_tracker
  start g limit precompleted = process_decisions ops unmarshal g (seeded g limit precompleted)

  module _ (g : Graph) (concurrency : ℕ) where
    unfoldable pub take_ready : List Task → Coordinator → Option Coordinator
    take_ready [] s = none
    take_ready (t ∷ ts) s =
        if not s.halted && ltb (length s.in_pool) concurrency
        then some (record s {
          ready = ts;
          in_flight = s.in_flight +ℤ pos 1;
          in_pool = s.in_pool ++ (t ∷ []);
        })
        else none

    abbrev pub completion_of : Task → NodeResult → Option Error → Completion
    completion_of t res failure = record { id = t.attr_to; node = t.node; res = res; err = failure }

    -- the i-th task of the pool, if there is one, sends its completion
    unfoldable pub finish_task :
        (i : ℕ) (res : NodeResult) (failure parent_err : Option Error) (elapsed_ms : ℤ)
        → Option Task
        → Coordinator
        → Option Coordinator
    unfolding handle_completion process_decisions remove_at
    finish_task i res failure parent_err elapsed_ms none s = none
    finish_task i res failure parent_err elapsed_ms (some t) s = some (
        process_decisions ops unmarshal g (
          handle_completion ops unmarshal describe g parent_err elapsed_ms
            (completion_of t res failure) (record s { in_pool = remove_at i s.in_pool })))

    -- a round that the loop's condition and the select allow; `none` for any other
    unfoldable pub move : Move → Coordinator → Option Coordinator
    unfolding take_ready finish_task cancel_halt
    move dispatch s = take_ready s.ready s
    move (finish i res failure parent_err elapsed_ms) s =
        finish_task i res failure parent_err elapsed_ms (get_elem? s.in_pool i) s
    move (context_done parent_err) s =
        if s.ctx_open && (s.ctx_cancelled || is_some parent_err)
        then some (cancel_halt parent_err (record s { ctx_open = false }))
        else none

    unfoldable pub step : Move → Coordinator → Option Coordinator
    unfolding move is_active
    step m s = if is_active s then move m s else none

    unfoldable pub steps : List Move → Coordinator → Option Coordinator
    unfolding step
    steps [] s = some s
    steps (m ∷ ms) s = elim (step m s) [ none ↦ none | some s' ↦ steps ms s' ]

-- "Finalize". A fallback node that was never needed is skipped.
unfoldable pub skip_one : String → Coordinator → Coordinator
skip_one id s =
    if is_pending (state_of s id)
    then record s {
      state = insert id skipped s.state;
      outcomes = insert id (bare_outcome skipped) s.outcomes;
    }
    else s

unfoldable pub skip_unused : Map Bool → Coordinator → Coordinator
unfolding skip_one
skip_unused [] s = s
skip_unused ((id, b) ∷ rest) s = skip_unused rest (skip_one id s)

unfoldable pub fill_outcomes : List Node → Coordinator → Coordinator
fill_outcomes [] s = s
fill_outcomes (n ∷ ns) s = fill_outcomes ns (
    if is_some (lookup n.id s.outcomes)
    then s
    else record s { outcomes = insert n.id (bare_outcome (state_of s n.id)) s.outcomes })

abbrev pub incomplete_error : String → Error
incomplete_error id =
    wrap (wrapped id (sentinel incomplete_graph)) kind_engine "incomplete_graph" id "graph.resolve"
      "workflow graph did not fully resolve"
      "check for cycles, unreachable nodes, or invalid conditional edges"

-- the loop over the states of a run that was not halted
unfoldable pub scan_states :
    Map NodeState → ExecutionState × Option Error → ExecutionState × Option Error
scan_states [] r = r
scan_states ((id, pending) ∷ m) (st, e) =
    scan_states m (execution_failed, some (incomplete_error id))
scan_states ((id, failed) ∷ m) (st, e) = scan_states m (execution_failed, e)
scan_states ((id, unset) ∷ m) r = scan_states m r
scan_states ((id, running) ∷ m) r = scan_states m r
scan_states ((id, succeeded) ∷ m) r = scan_states m r
scan_states ((id, skipped) ∷ m) r = scan_states m r

-- the switch over haltErr, with the final state, BudgetExceeded, and the error that is returned
unfoldable pub judge : Option Error → Map NodeState → ExecutionState × Bool × Option Error
unfolding scan_states
judge (some e) m =
    if is approval_required e
    then (execution_paused, false, some e)
    else if is budget_exceeded e
    then (execution_failed, true, some e)
    else if is context_canceled e || is deadline_exceeded e || is cancelled e
    then (execution_cancelled, false, some e)
    else (execution_failed, false, some e)
judge none m = let (st, e) = scan_states m (execution_succeeded, none) in (st, false, e)

abbrev pub state_text : ExecutionState → String
state_text execution_pending = "pending"
state_text execution_running = "running"
state_text execution_succeeded = "succeeded"
state_text execution_failed = "failed"
state_text execution_cancelled = "cancelled"
state_text execution_paused = "paused"

-- the result, the error that is returned, and the events of the whole loop
unfoldable pub finalize :
    Graph → (execution_id : String) → Coordinator → Result × Option Error × List Emission
unfolding skip_unused fill_outcomes judge
finalize g execution_id s =
    let s' = fill_outcomes g.nodes (skip_unused g.fallback_only s) in
    let (st, over, e) = judge s'.halt_err s'.state in
    let last = emit Event.execution_finished "" (field "state" (text (state_text st)) end) s' in
    (
      record {
        execution_id = execution_id;
        state = st;
        nodes = s'.outcomes;
        spent_cost_usd = s'.budget.cost;
        spent_tokens = s'.budget.tokens;
        budget_exceeded = over;
      },
      e,
      last.emitted,
    )

-- opts.Concurrency, or DefaultConcurrency
unfoldable pub pool_size : ℤ → ℕ
pool_size (pos zero) = 4
pool_size (pos (suc n)) = suc n
pool_size (negsuc n) = 4

-- What run does before the loop: the inputs, without which no node is dispatched, and the event of
-- a fresh run. `written` is the error of writing the snapshot, if any.
unfoldable pub begin_run :
    (fresh : Bool) (written : Option Error)
    → Workflow
    → Fallible (Map String)
    → Fallible (Map String × List Emission)
begin_run fresh written wf (err e) = err (
    wrap e kind_validation "workflow_input_missing" "" "inputs.resolve"
      "required workflow input is missing" "provide the input value or define a default")
begin_run fresh written wf (ok inputs) = if not fresh then ok (inputs, []) else elim written [
  | some e ↦ err (wrapped "engine: write snapshot" e)
  | none ↦ ok (
    inputs,
    record {
      type = Event.execution_started;
      node_id = "";
      payload = field "workflow" (text wf.id) (field "version" (text wf.version) end);
    }
        ∷ [],
  )
]

abbrev pub prepare :
    (fresh : Bool) (written : Option Error)
    → Workflow
    → RunOptions
    → Fallible (Map String × List Emission)
prepare fresh written wf opts =
    begin_run fresh written wf (resolve_workflow_inputs wf.inputs opts.inputs)
