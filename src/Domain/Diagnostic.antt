-- ===== src/Domain/Diagnostic.antt =====
-- core/diagnostic/diagnostic.go: the structured data about a failure, as events carry it.
-- `describe` is the text of an error, err.Error(), which package fmt puts together.
use workflow_execution_engin.Prelude.{
  zero, suc, ◌/◌, String, none, some, ◌==◌, if◌then◌else◌, ℤ, pos, negsuc,
}
use workflow_execution_engin.Domain.Value.{int, text, Fields, end, field}
use workflow_execution_engin.Domain.Error.{
  Kind, kind_engine, kind_tool, kind_provider, kind_validation, kind_budget, kind_cache,
  kind_artifact, kind_cancellation, kind_timeout, Error, diagnosed, diagnostic_of,
}

unfoldable pub kind_text : Kind → String
kind_text kind_engine = "engine"
kind_text kind_tool = "tool"
kind_text kind_provider = "provider"
kind_text kind_validation = "validation"
kind_text kind_budget = "budget"
kind_text kind_cache = "cache"
kind_text kind_artifact = "artifact"
kind_text kind_cancellation = "cancellation"
kind_text kind_timeout = "timeout"

-- diagnostic.Wrap of an error that is there
abbrev pub wrap : Error → Kind → (code node_id operation message likely_fix : String) → Error
wrap e kind code node_id operation message likely_fix =
    diagnosed
      (record {
        kind = kind;
        code = code;
        node_id = node_id;
        operation = operation;
        message = message;
        likely_fix = likely_fix;
        retry_after = pos 0;
      })
      e

-- retryAfterMs, where the delay is positive
retry_fields : ℤ → Fields
retry_fields (pos zero) = end
retry_fields (pos (suc n)) = field "retryAfterMs" (int (pos (suc n / 1000000))) end
retry_fields (negsuc n) = end

unfoldable pub payload : (describe : Error → String) → Error → (fallback_node : String) → Fields
unfolding retry_fields kind_text
payload describe e fallback_node = elim (diagnostic_of e) [
  | none ↦ field "kind" (text "engine") (
      field "code" (text "runtime_error")
        (field "nodeId" (text fallback_node) (field "message" (text (describe e)) end)))
  | some d ↦ field "kind" (text (kind_text d.kind)) (
      field "code" (text d.code) (
        field "nodeId" (text (if d.node_id == "" then fallback_node else d.node_id)) (
          field "operation" (text d.operation) (
            field "message" (text d.message)
              (field "likelyFix" (text d.likely_fix) (retry_fields d.retry_after))))))
]
