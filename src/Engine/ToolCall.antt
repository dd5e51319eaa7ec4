-- ===== src/Engine/ToolCall.antt =====
-- Invoke of core/tool/tool.go, and the redaction of its events, redactPayload of
-- core/engine/tool_executor.go. Raw JSON in a payload is the text of its bytes.
use workflow_execution_engin.Prelude.{
  String, ◌||◌, Option, none, some, List, [], ◌∷◌, ◌++◌, ◌==◌, if◌then◌else◌, Map, ℤ, pos,
}
use workflow_execution_engin.Domain.Value.{
  Value, bool, int, text, array, object, Items, nil, cons, Fields, end, field,
}
use workflow_execution_engin.Domain.Workflow.{ArtifactType}
use workflow_execution_engin.Domain.Error.{
  Error, wrapped, kind_validation, kind_tool, Fallible, ok, err,
}
use workflow_execution_engin.Domain.Diagnostic.{wrap, payload}
use workflow_execution_engin.Domain.Event.{EventType}
use workflow_execution_engin.Domain.Event
use workflow_execution_engin.Engine.Approval.{Mutation}
use workflow_execution_engin.Engine.ToolInput.{redact}

-- A tool: the interface Tool, with its schemas as what validating against them gives, and its
-- optional capabilities.
pub record Tool : Type 0 where
  pub name : String
  pub version : String
  pub validate_input : String → Option Error
  pub validate_output : String → Option Error
  pub execute : String → Fallible String
  pub duration_ms : ℤ
  pub describe_mutation : Option (String → Fallible Mutation)
  pub artifact_type : Option ArtifactType

abbrev pub Emitted : Type 0
Emitted = List (EventType × Fields)

-- What a call has done so far: the events it emitted, and the inputs with which the tool was run.
pub record Trace : Type 0 where
  pub events : Emitted
  pub executed : List String

abbrev pub emit : EventType → Fields → Trace → Trace
emit t p tr = record tr { events = tr.events ++ ((t, p) ∷ []) }

-- redactPayload
unfoldable pub redact_payload : Map String → Fields → Fields
unfolding redact
redact_payload secrets end = end
redact_payload secrets (field k v fs) =
    let rest = redact_payload secrets fs in
    if (k == "input") || (k == "output") || (k == "error")
    then field k (elim v as (λ _. Value) [ text s ↦ text (redact secrets s) | w ↦ w ]) rest
    else field k v rest

-- What the executor needs: the tools, the process environment, the codecs and the hash of an approval
-- checkpoint.
pub record Tooling : Type 0 where
  pub find_tool : String → Option Tool
  pub lookup_env : String → Option String
  pub unmarshal : String → Option Value
  pub encode : Value → Fallible String
  pub hash : (execution_id node_id tool operation input : String) → Fallible String
  pub describe : Error → String

-- a field with omitempty, before the rest
abbrev pub text_field : String → String → Fields → Fields
text_field k v rest = if v == "" then rest else field k (text v) rest

abbrev pub text_items : List String → Items
text_items [] = nil
text_items (x ∷ xs) = cons (text x) (text_items xs)

abbrev pub list_field : String → List String → Fields → Fields
list_field k [] rest = rest
list_field k (x ∷ xs) rest = field k (array (text_items (x ∷ xs))) rest

-- the JSON form of a mutation
abbrev pub mutation_fields : Mutation → Fields
mutation_fields m = field "mutating" (bool m.mutating) (
    text_field "operation" m.operation (
      text_field "summary" m.summary (
        list_field "paths" m.paths (
          list_field "command" m.command
            (text_field "method" m.method (text_field "url" m.url end))))))

module _ (tl : Tooling) where
  -- tool.Invoke, whose events are redacted
  module _ (t : Tool) (secrets : Map String) where
    unfoldable pub send : EventType → Fields → Trace → Trace
    unfolding redact_payload
    send ev p tr = emit ev (redact_payload secrets p) tr

    unfoldable pub send_failure : Error → ℤ → Trace → Trace
    unfolding send payload
    send_failure e ms tr =
        send Event.tool_result
          (field "tool" (text t.name) (
            field "error" (text (tl.describe e)) (
              field "diagnostic" (object (payload tl.describe e ""))
                (field "durationMs" (int ms) end))))
          tr

    abbrev pub invalid_input : Error → Error
    invalid_input e =
        wrap (wrapped "tool: input rejected" e) kind_validation "tool_input_schema_invalid" ""
          "tool.input.validate" "tool input failed its schema"
          "fix the tool input fields before running"

    abbrev pub invalid_output : Error → Error
    invalid_output e =
        wrap (wrapped "tool: output failed its schema" e) kind_validation
          "tool_output_schema_invalid" "" "tool.output.validate" "tool output failed its schema"
          "fix the tool implementation or output schema"

    abbrev pub failed_run : Error → Error
    failed_run e =
        wrap e kind_tool "tool_execute_failed" "" "tool.execute" "tool execution failed"
          "check the tool sandbox configuration and local resource availability"

    -- what follows Execute
    unfoldable pub conclude_call : Fallible String → Trace → Fallible String × Trace
    unfolding send_failure
    conclude_call (err e) tr = (err (failed_run e), send_failure (failed_run e) t.duration_ms tr)
    conclude_call (ok out) tr = elim (t.validate_output out) [
      | some e ↦ (err (invalid_output e), send_failure (invalid_output e) t.duration_ms tr)
      | none ↦ (
        ok out,
        send Event.tool_result
            (field "tool" (text t.name)
              (field "output" (text out) (field "durationMs" (int t.duration_ms) end)))
            tr,
      )
    ]

    unfoldable pub called : String → Trace → Trace
    unfolding send
    called input tr =
        let tr' =
          send Event.tool_called
            (field "tool" (text t.name)
              (field "version" (text t.version) (field "input" (text input) end)))
            tr in
        record tr' { executed = tr'.executed ++ (input ∷ []) }

    unfoldable pub invoke : String → Trace → Fallible String × Trace
    unfolding send_failure conclude_call called
    invoke input tr = elim (t.validate_input input) [
      | some e ↦ (err (invalid_input e), send_failure (invalid_input e) (pos 0) tr)
      | none ↦ conclude_call (t.execute input) (called input tr)
    ]
