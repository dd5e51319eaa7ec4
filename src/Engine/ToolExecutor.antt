-- ===== src/Engine/ToolExecutor.antt =====
-- core/engine/tool_executor.go: the call of a tool, with the approval of calls that change something.
use workflow_execution_engin.Prelude.{
  String, Bool, true, false, not, Option, none, some, [], map, if◌then◌else◌, get_or, at, pos,
}
use workflow_execution_engin.Domain.Value.{Value, text, object, Fields, end, field}
use workflow_execution_engin.Domain.Workflow.{artifact_json, ToolCall}
use workflow_execution_engin.Domain.Error.{
  Error, sentinel, plain, wrapped, fatal, approval_required, approval_rejected, kind_validation,
  kind_tool, Fallible, ok, err,
}
use workflow_execution_engin.Domain.Diagnostic.{wrap}
use workflow_execution_engin.Domain.Event
use workflow_execution_engin.Engine.Types.{NodeResult}
use workflow_execution_engin.Engine.Approval.{
  Mutation, ApprovalStatus, no_status, approval_pending, approval_granted, approval_refused,
  no_record,
}
use workflow_execution_engin.Engine.Node.{NodeRequest}
use workflow_execution_engin.Engine.ToolInput.{Resolving, Scope, resolve_tool_input, redact}
use workflow_execution_engin.Engine.ToolCall.{Tool, Trace, emit, mutation_fields, Tooling, invoke}
pub mod Clearance
pub mod Runs
pub mod Final
pub mod Unretried

module _ (tl : Tooling) where
  abbrev pub approval_error : Error
  approval_error = fatal (wrapped "node requires approval" (sentinel approval_required))

  abbrev pub rejection_error : Error
  rejection_error = fatal (wrapped "checkpoint was rejected" (sentinel approval_rejected))

  abbrev pub request_fields : Tool → String → Mutation → String → Fields
  request_fields t id m redacted = field "checkpointId" (text id) (
      field "tool" (text t.name) (
        field "toolVersion" (text t.version)
          (field "mutation" (object (mutation_fields m)) (field "input" (text redacted) end))))

  -- the switch over the status of the checkpoint: an error, if the call may not go on
  unfoldable pub check_status :
      ApprovalStatus → Tool → String → Mutation → String → Trace → Option Error × Trace
  check_status approval_granted t id m redacted tr = (none, tr)
  check_status approval_refused t id m redacted tr = (some rejection_error, tr)
  check_status approval_pending t id m redacted tr = (some approval_error, tr)
  check_status no_status t id m redacted tr =
      (some approval_error, emit Event.approval_requested (request_fields t id m redacted) tr)

  abbrev pub checkpoint_id : NodeRequest → Tool → Mutation → String → Fallible String
  checkpoint_id req t m redacted = tl.hash req.execution_id req.node.id t.name m.operation redacted

  abbrev pub status_of : NodeRequest → String → ApprovalStatus
  status_of req id = (at id no_record req.approvals).status

  unfoldable pub check_checkpoint :
      NodeRequest → Tool → Mutation → String → Fallible String → Trace → Option Error × Trace
  unfolding check_status
  check_checkpoint req t m redacted (err e) tr =
      (some (fatal (wrapped "engine: approval checkpoint" e)), tr)
  check_checkpoint req t m redacted (ok id) tr = check_status (status_of req id) t id m redacted tr

  unfoldable pub check_mutating :
      Bool → NodeRequest → Tool → Mutation → String → Trace → Option Error × Trace
  unfolding check_checkpoint
  check_mutating false req t m redacted tr = (none, tr)
  check_mutating true req t m redacted tr =
      check_checkpoint req t m redacted (checkpoint_id req t m redacted) tr

  unfoldable pub check_mutation :
      NodeRequest → Tool → String → Fallible Mutation → Trace → Option Error × Trace
  unfolding check_mutating
  check_mutation req t redacted (err e) tr =
      (some (fatal (wrapped "engine: describe mutation" e)), tr)
  check_mutation req t redacted (ok m) tr = check_mutating m.mutating req t m redacted tr

  unfoldable pub check_approval :
      NodeRequest → Tool → (input redacted : String) → Trace → Option Error × Trace
  unfolding check_mutation
  check_approval req t input redacted tr =
      if req.allow_unattended_mutations then (none, tr) else elim (t.validate_input input) [
        | some e ↦ (some (fatal e), tr)
        | none ↦ elim t.describe_mutation [
          | none ↦ (none, tr)
          | some describe ↦ check_mutation req t redacted (describe redacted) tr
        ]
      ]

  abbrev pub as_validation : String → Error → (code operation message fix : String) → Error
  as_validation id e code operation message fix =
      fatal (wrap e kind_validation code id operation message fix)

  abbrev pub result_of : Tool → Resolving → String → NodeResult
  unfolding redact
  result_of t st out = record {
    content = redact st.secrets out;
    type = get_or t.artifact_type artifact_json;
    mime_type = "application/json";
    cost_usd = 0;
    tokens = pos 0;
    hash = "";
    validated = false;
    context_hashes = map (λ (e : String × Bool). e.0) st.ref_hashes;
  }

  -- what follows tool.Invoke
  unfoldable pub finish_call :
      NodeRequest → Tool → Resolving → Fallible String × Trace → Fallible NodeResult × Trace
  unfolding redact result_of
  finish_call req t st (err e, tr) = (
    err (
        fatal (
          wrap (plain (redact st.secrets (tl.describe e))) kind_tool "tool_execution_failed"
            req.node.id "tool.invoke" "tool call failed"
            "check the tool input, sandbox allowlist, and referenced local resources")),
    tr,
  )
  finish_call req t st (ok out, tr) = (ok (result_of t st out), tr)

  -- what follows the approval
  unfoldable pub call_checked :
      NodeRequest → Tool → Resolving → String → Option Error × Trace → Fallible NodeResult × Trace
  unfolding finish_call invoke
  call_checked req t st input (some e, tr) = (err e, tr)
  call_checked req t st input (none, tr) = finish_call req t st (invoke tl t st.secrets input tr)

  unfoldable pub call_encoded :
      NodeRequest → Tool → Resolving → Fallible String → Trace → Fallible NodeResult × Trace
  unfolding call_checked check_approval redact
  call_encoded req t st (err e) tr = (
    err (
        as_validation req.node.id (wrapped "engine: encoding tool input" e)
          "tool_input_encode_failed" "tool.input.encode" "tool input could not be encoded"
          "check that tool input is JSON-serializable"),
    tr,
  )
  call_encoded req t st (ok input) tr =
      call_checked req t st input (check_approval req t input (redact st.secrets input) tr)

  unfoldable pub call_resolved :
      NodeRequest → Tool → Fallible Value × Resolving → Trace → Fallible NodeResult × Trace
  unfolding call_encoded
  call_resolved req t (err e, st) tr = (
    err (
        as_validation req.node.id (wrapped "engine: resolving tool input" e) "tool_input_unresolved"
          "tool.input.resolve" "tool input reference could not be resolved"
          "check artifact, input, env, and connection placeholders"),
    tr,
  )
  call_resolved req t (ok v, st) tr = call_encoded req t st (tl.encode v) tr

  abbrev pub scope_of : NodeRequest → Scope
  scope_of req = record {
    lookup_env = tl.lookup_env;
    unmarshal = tl.unmarshal;
    inputs = req.inputs;
    workflow_inputs = req.workflow_inputs;
    connection_refs = req.connection_refs;
  }

  abbrev pub nothing_resolved : Resolving
  nothing_resolved = record { secrets = []; ref_hashes = [] }

  abbrev pub nothing_done : Trace
  nothing_done = record { events = []; executed = [] }

  unfoldable pub call_tool : NodeRequest → ToolCall → Option Tool → Fallible NodeResult × Trace
  unfolding call_resolved resolve_tool_input
  call_tool req call none = (
    err (
        fatal (
          wrap (plain "engine: no tool registered") kind_tool "tool_not_registered" req.node.id
            "tool.lookup" "tool is not registered in this workspace"
            "enable the tool in the workflow directory's wee.yaml")),
    nothing_done,
  )
  call_tool req call (some t) =
      call_resolved req t (resolve_tool_input (scope_of req) (object call.input) nothing_resolved)
        nothing_done

  unfoldable pub call_node : NodeRequest → Option ToolCall → Fallible NodeResult × Trace
  unfolding call_tool
  call_node req none = (
    err (
        as_validation req.node.id (plain "engine: node is not tool-backed") "tool_call_missing"
          "tool.resolve" "node has no Tool call configured"
          "choose a Tool and provide valid input JSON"),
    nothing_done,
  )
  call_node req (some call) = call_tool req call (tl.find_tool call.tool_name)

  -- ToolExecutor.execute
  unfoldable pub execute : NodeRequest → Fallible NodeResult × Trace
  unfolding call_node
  execute req = call_node req req.node.tool
