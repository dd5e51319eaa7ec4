-- ===== src/Domain/Event.antt =====
-- core/domain/event.go and execution.go. The time stamp of an event is a number of the clock.
use workflow_execution_engin.Prelude.{ℕ, Bool, String, true, false}
use workflow_execution_engin.Domain.Value.{Fields}

pub data EventType : Type 0 where
  execution_started execution_finished worker_started worker_finished : EventType
  tool_called tool_result artifact_created contract_validated contract_violation : EventType
  retry failure cache_hit cache_miss budget_warning budget_exceeded : EventType
  approval_requested approval_granted approval_rejected cancelled : EventType
  other_event : String → EventType

pub record Event : Type 0 where
  pub type : EventType
  pub timestamp : ℕ
  pub execution_id : String
  pub node_id : String
  pub prev_hash : String
  pub payload : Fields

abbrev pub is_cancelled : EventType → Bool
is_cancelled cancelled = true
is_cancelled _ = false

pub data ExecutionState : Type 0 where
  execution_pending execution_running execution_succeeded : ExecutionState
  execution_failed execution_cancelled execution_paused : ExecutionState
