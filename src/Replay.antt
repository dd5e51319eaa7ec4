-- ===== src/Replay.antt =====
-- core/replay/audit.go and divergence.go: a run as it is read back from its log, and the comparison
-- of two. Ranges over maps follow the order of their lists.
use workflow_execution_engin.Prelude.{
  String, Bool, true, false, not, ◌&&◌, ◌||◌, Option, none, some, List, [], ◌∷◌, ◌++◌, ◌==◌,
  if◌then◌else◌, is_some, get_or, Map, lookup, insert, at, ℤ, pos, ◌+ℤ◌, wrap64,
}
use workflow_execution_engin.Domain.Value.{Float64, float, Fields, member, text_member, FloatOps}
use workflow_execution_engin.Domain.Workflow.{
  ArtifactType, no_artifact_type, artifact_of, Node, Workflow, Budget, Worker,
}
use workflow_execution_engin.Domain.Error.{wrapped, Fallible, ok, err}
use workflow_execution_engin.Domain.Event.{EventType, Event}
use workflow_execution_engin.Domain.Event
use workflow_execution_engin.Engine.Types.{
  NodeState, unset, pending, succeeded, failed, skipped, ConnectionRef,
}
use workflow_execution_engin.Engine.Resume.{Snapshot}
pub mod Divergences
pub mod States

pub record NodeRecord : Type 0 where
  pub state : NodeState
  pub hash : String
  pub type : ArtifactType
  pub content : String
  pub cost_usd : Float64
  pub tokens : ℤ
  pub err : String

-- NodeRecord{State: st}
abbrev pub bare_record : NodeState → NodeRecord
bare_record st = record {
  state = st;
  hash = "";
  type = no_artifact_type;
  content = "";
  cost_usd = 0;
  tokens = pos 0;
  err = "";
}

pub record Timeline : Type 0 where
  pub execution_id : String
  pub workflow : Workflow
  pub budget : Budget
  pub events : List Event
  pub nodes : Map NodeRecord
  pub spent_cost_usd : Float64
  pub spent_tokens : ℤ
  pub definition_hashes : Map String
  pub workers : Map Worker
  pub inputs : Map String
  pub connection_refs : Map ConnectionRef

-- payload[key].(float64)
unfoldable pub float_member : Fields → String → Option Float64
float_member fs k = elim (member fs k) [
  | none ↦ none
  | some v ↦ elim v [ float x ↦ some x | _ ↦ none ]
]

abbrev pub is_finished : EventType → Bool
is_finished Event.execution_finished = true
is_finished _ = false

unfoldable pub any_finished : List Event → Bool
any_finished [] = false
any_finished (ev ∷ evs) = is_finished ev.type || any_finished evs

-- the state of a node that no event names
abbrev pub missing_state : Bool → NodeState
missing_state finished = if finished then skipped else pending

-- what the loop over the nodes has filled in and added up
pub record Totals : Type 0 where
  pub nodes : Map NodeRecord
  pub cost : Float64
  pub tokens : ℤ

abbrev pub and_then : Fallible Totals → (Totals → Fallible Totals) → Fallible Totals
and_then (err e) k = err e
and_then (ok t) k = k t

abbrev pub timeline_of : String → Snapshot → List Event → Fallible Totals → Fallible Timeline
timeline_of id snap events (err e) = err e
timeline_of id snap events (ok t) = ok (record {
  execution_id = id;
  workflow = snap.workflow;
  budget = snap.budget;
  events = events;
  nodes = t.nodes;
  spent_cost_usd = t.cost;
  spent_tokens = t.tokens;
  definition_hashes = snap.definition_hashes;
  workers = snap.workers;
  inputs = snap.inputs;
  connection_refs = snap.connection_refs;
})

abbrev pub no_totals : Map NodeRecord → Totals
no_totals m = record { nodes = m; cost = 0; tokens = pos 0 }

-- The float64 operations, json's int64(t), and what the log and the store return.
module _ (ops : FloatOps) (to_int : Float64 → ℤ) where
  -- the switch over the type of an event
  unfoldable pub apply_event : EventType → Fields → NodeRecord → NodeRecord
  unfolding float_member text_member
  apply_event Event.artifact_created p rec = record rec {
    hash = get_or (text_member p "hash") rec.hash;
    type = elim (text_member p "type") [ none ↦ rec.type | some t ↦ artifact_of t ];
  }
  apply_event Event.worker_finished p rec = record rec {
    state = succeeded;
    cost_usd = get_or (float_member p "costUsd") rec.cost_usd;
    tokens = elim (float_member p "tokens") [ none ↦ rec.tokens | some t ↦ to_int t ];
  }
  apply_event Event.failure p rec = record rec {
    state = failed;
    err = get_or (text_member p "error") rec.err;
  }
  apply_event _ p rec = rec

  abbrev pub record_at : String → Map NodeRecord → NodeRecord
  record_at id m = at id (bare_record unset) m

  -- the body of the loop over the events
  abbrev pub collect_event : Event → Map NodeRecord → Map NodeRecord
  unfolding apply_event
  collect_event ev m =
      if ev.node_id == ""
      then m
      else insert ev.node_id (apply_event ev.type ev.payload (record_at ev.node_id m)) m

  unfoldable pub collect_events : List Event → Map NodeRecord → Map NodeRecord
  unfolding collect_event
  collect_events [] m = m
  collect_events (ev ∷ evs) m = collect_events evs (collect_event ev m)

  abbrev pub add_record : NodeRecord → Totals → Totals
  add_record rec t = record t {
    cost = ops.add t.cost rec.cost_usd;
    tokens = wrap64 (t.tokens +ℤ rec.tokens);
  }

  -- a node with an artifact has its content loaded
  unfoldable pub fill_loaded : String → NodeRecord → Fallible String → Totals → Fallible Totals
  unfolding wrap64 ◌+ℤ◌
  fill_loaded id rec (err e) t = err (wrapped "replay: audit: load artifact" e)
  fill_loaded id rec (ok content) t =
      ok
        (add_record rec (record t { nodes = insert id (record rec { content = content }) t.nodes }))

  unfoldable pub fill_known :
      (load : String → Fallible String) → String → NodeRecord → Totals → Fallible Totals
  unfolding fill_loaded
  fill_known load id rec t =
      if rec.hash == "" then ok (add_record rec t) else fill_loaded id rec (load rec.hash) t

  unfoldable pub fill_node :
      (load : String → Fallible String)
      → Bool
      → String
      → Option NodeRecord
      → Totals
      → Fallible Totals
  unfolding fill_known
  fill_node load finished id none t =
      ok (record t { nodes = insert id (bare_record (missing_state finished)) t.nodes })
  fill_node load finished id (some rec) t = fill_known load id rec t

  -- the loop over the nodes of the workflow
  unfoldable pub fill_nodes :
      (load : String → Fallible String) → Bool → List Node → Totals → Fallible Totals
  unfolding fill_node
  fill_nodes load finished [] t = ok t
  fill_nodes load finished (n ∷ ns) t =
      and_then (fill_node load finished n.id (lookup n.id t.nodes) t) (fill_nodes load finished ns)

  -- Audit, with what ReadSnapshot and ReadAll return
  unfoldable pub audit :
      (load : String → Fallible String)
      → String
      → Fallible Snapshot
      → Fallible (List Event)
      → Fallible Timeline
  unfolding collect_events any_finished fill_nodes
  audit load id (err e) events = err (wrapped "replay: audit" e)
  audit load id (ok snap) (err e) = err (wrapped "replay: audit" e)
  audit load id (ok snap) (ok events) = timeline_of id snap events (
      fill_nodes load (any_finished events) snap.workflow.nodes
        (no_totals (collect_events events [])))

pub data DivergenceStatus : Type 0 where
  cached re_executed added removed : DivergenceStatus

pub record NodeDivergence : Type 0 where
  pub node_id : String
  pub status : DivergenceStatus
  pub original_hash : String
  pub new_hash : String
  pub original_content : String
  pub new_content : String

abbrev pub status_between : NodeRecord → NodeRecord → DivergenceStatus
status_between a b = if not (a.hash == "") && (a.hash == b.hash) then cached else re_executed

-- the body of the loop over the original's nodes
abbrev pub compare_node : String → NodeRecord → Option NodeRecord → NodeDivergence
compare_node id a none = record {
  node_id = id;
  status = removed;
  original_hash = a.hash;
  new_hash = "";
  original_content = a.content;
  new_content = "";
}
compare_node id a (some b) = record {
  node_id = id;
  status = status_between a b;
  original_hash = a.hash;
  new_hash = b.hash;
  original_content = a.content;
  new_content = b.content;
}

unfoldable pub compare_nodes : Map NodeRecord → Map NodeRecord → List NodeDivergence
compare_nodes [] new = []
compare_nodes ((id, a) ∷ m) new = compare_node id a (lookup id new) ∷ compare_nodes m new

abbrev pub added_node : String → NodeRecord → NodeDivergence
added_node id b = record {
  node_id = id;
  status = added;
  original_hash = "";
  new_hash = b.hash;
  original_content = "";
  new_content = b.content;
}

-- the loop over the new nodes; what was seen are the original's
unfoldable pub added_nodes : Map NodeRecord → Map NodeRecord → List NodeDivergence
added_nodes original [] = []
added_nodes original ((id, b) ∷ m) =
    let rest = added_nodes original m in
    if is_some (lookup id original) then rest else added_node id b ∷ rest

unfoldable pub divergence : Timeline → Timeline → List NodeDivergence
unfolding compare_nodes added_nodes
divergence a b = compare_nodes a.nodes b.nodes ++ added_nodes a.nodes b.nodes
