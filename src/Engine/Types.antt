-- ===== src/Engine/Types.antt =====
-- The data that the scheduler and the executors share: core/engine/scheduler.go and node.go.
use workflow_execution_engin.Prelude.{String, Bool, true, false, Option, none, List, Map, ℤ, pos}
use workflow_execution_engin.Domain.Value.{Float64, Fields}
use workflow_execution_engin.Domain.Workflow.{ArtifactType, no_artifact_type, Node, Worker, Budget}
use workflow_execution_engin.Domain.Error.{Error}
use workflow_execution_engin.Domain.Event.{EventType, ExecutionState}

pub data CacheMode : Type 0 where
  unset_cache cache_on cache_off cache_read_only : CacheMode
  other_cache : String → CacheMode

-- `unset` is the zero value, which a missing key of the state map reads as.
pub data NodeState : Type 0 where
  unset pending running succeeded failed skipped : NodeState

abbrev pub is_pending : NodeState → Bool
is_pending pending = true
is_pending _ = false

abbrev pub is_running : NodeState → Bool
is_running running = true
is_running _ = false

abbrev pub is_succeeded : NodeState → Bool
is_succeeded succeeded = true
is_succeeded _ = false

abbrev pub is_failed : NodeState → Bool
is_failed failed = true
is_failed _ = false

pub record NodeOutcome : Type 0 where
  pub state : NodeState
  pub hash : String
  pub type : ArtifactType
  pub cost_usd : Float64
  pub tokens : ℤ
  pub err : String

-- NodeOutcome{State: st}, with the zero values elsewhere; the bits of 0.0 are zero
abbrev pub bare_outcome : NodeState → NodeOutcome
bare_outcome st = record {
  state = st;
  hash = "";
  type = no_artifact_type;
  cost_usd = 0;
  tokens = pos 0;
  err = "";
}

pub record Result : Type 0 where
  pub execution_id : String
  pub state : ExecutionState
  pub nodes : Map NodeOutcome
  pub spent_cost_usd : Float64
  pub spent_tokens : ℤ
  pub budget_exceeded : Bool

pub record ConnectionRef : Type 0 where
  pub id : String
  pub label : String
  pub kind : String
  pub type : String
  pub base_url : String
  pub secret_env : String
  pub defaults : Map String

-- Durations are numbers of nanoseconds.
pub record RunOptions : Type 0 where
  pub execution_id : String
  pub concurrency : ℤ
  pub budget : Budget
  pub retry_backoff : ℤ
  pub retry_backoff_max : ℤ
  pub cache : CacheMode
  pub definition_hashes : Map String
  pub workers : Map Worker
  pub inputs : Map String
  pub connection_refs : Map ConnectionRef
  pub allow_unattended_mutations : Bool

pub record NodeInput : Type 0 where
  pub from_node : String
  pub content : String
  pub type : ArtifactType
  pub hash : String

pub record NodeResult : Type 0 where
  pub content : String
  pub type : ArtifactType
  pub mime_type : String
  pub cost_usd : Float64
  pub tokens : ℤ
  pub hash : String
  pub validated : Bool
  pub context_hashes : List String

pub record NodeOutput : Type 0 where
  pub hash : String
  pub content : String
  pub type : ArtifactType

abbrev pub no_output : NodeOutput
no_output = record { hash = ""; content = ""; type = no_artifact_type }

abbrev pub no_node : Node
no_node = record { id = ""; worker = ""; tool = none; context_policy = none; on_failure = none }

-- `attr_to` is the graph node that a result is attributed to; it differs from the node's own id
-- only for a fallback.
pub record Task : Type 0 where
  pub node : Node
  pub inputs : List NodeInput
  pub attr_to : String

-- A result or an error of one task.
pub record Completion : Type 0 where
  pub id : String
  pub node : Node
  pub res : NodeResult
  pub err : Option Error

-- A call of Scheduler.emit, in the order of the calls. Writing it to the log is best effort.
pub record Emission : Type 0 where
  pub type : EventType
  pub node_id : String
  pub payload : Fields
