-- ===== src/Engine/Approval.antt =====
-- core/engine/approval.go: the decisions on mutating tool calls, read back from the log of a run.
use workflow_execution_engin.Prelude.{
  String, Bool, false, List, [], ◌==◌, if◌then◌else◌, get_or, Map, insert, at,
}
use workflow_execution_engin.Domain.Value.{Fields, text_member}
use workflow_execution_engin.Domain.Error.{approval_rejected, Fallible, ok, err}
use mathlib.Core.List.{foldl}
use workflow_execution_engin.Domain.Event
use workflow_execution_engin.Domain.Event.{Event}
pub mod Latest

pub data ApprovalStatus : Type 0 where
  no_status approval_pending approval_granted approval_refused : ApprovalStatus

-- core/tool/tool.go: Mutation
pub record Mutation : Type 0 where
  pub mutating : Bool
  pub operation : String
  pub summary : String
  pub paths : List String
  pub command : List String
  pub method : String
  pub url : String

abbrev pub no_mutation : Mutation
no_mutation = record {
  mutating = false;
  operation = "";
  summary = "";
  paths = [];
  command = [];
  method = "";
  url = "";
}

pub record ApprovalRecord : Type 0 where
  pub checkpoint_id : String
  pub node_id : String
  pub tool : String
  pub status : ApprovalStatus
  pub mutation : Mutation

abbrev pub no_record : ApprovalRecord
no_record = record {
  checkpoint_id = "";
  node_id = "";
  tool = "";
  status = no_status;
  mutation = no_mutation;
}

unfoldable pub string_payload : Fields → String → String
unfolding text_member
string_payload payload key = get_or (text_member payload key) ""

abbrev pub requested : Event → ApprovalRecord
requested ev = record {
  checkpoint_id = string_payload ev.payload "checkpointId";
  node_id = ev.node_id;
  tool = string_payload ev.payload "tool";
  status = approval_pending;
  mutation = no_mutation;
}

-- a decision keeps the fields of the record that it does not set
abbrev pub decided : ApprovalStatus → Event → ApprovalRecord → ApprovalRecord
decided st ev rec = record rec {
  checkpoint_id = string_payload ev.payload "checkpointId";
  node_id = ev.node_id;
  tool = string_payload ev.payload "tool";
  status = st;
}

abbrev pub store_decision : ApprovalStatus → Event → Map ApprovalRecord → Map ApprovalRecord
store_decision st ev out =
    let id = string_payload ev.payload "checkpointId" in
    if id == "" then out else insert id (decided st ev (at id no_record out)) out

unfoldable pub record_approval : Map ApprovalRecord → Event → Map ApprovalRecord
record_approval out ev = elim ev.type [
  | Event.approval_requested ↦
      let id = string_payload ev.payload "checkpointId" in
      if id == "" then out else insert id (requested ev) out
  | Event.approval_granted ↦ store_decision approval_granted ev out
  | Event.approval_rejected ↦ store_decision approval_refused ev out
  | _ ↦ out
]

-- A log that cannot be read gives no records.
unfoldable pub approval_records : Fallible (List Event) → Map ApprovalRecord
unfolding record_approval string_payload
approval_records (err e) = []
approval_records (ok events) = foldl record_approval [] events
