-- ===== src/Domain/Workflow.antt =====
-- core/domain/workflow.go, worker.go, contract.go, context_policy.go, budget.go and artifact.go.
-- Each record has all the fields of its struct.
use workflow_execution_engin.Prelude.{ℤ, Bool, String, Option, List, if◌then◌else◌, ◌==◌}
use workflow_execution_engin.Domain.Value.{Float64, Value, Fields}

pub data ArtifactType : Type 0 where
  artifact_code artifact_markdown artifact_json artifact_diff artifact_image : ArtifactType
  artifact_file artifact_report artifact_test_result artifact_metrics : ArtifactType
  other_artifact : String → ArtifactType

-- The zero value of the type is the empty text.
abbrev pub no_artifact_type : ArtifactType
no_artifact_type = other_artifact ""

-- string(t), and the conversion back, ArtifactType(s)
unfoldable pub artifact_text : ArtifactType → String
artifact_text artifact_code = "code"
artifact_text artifact_markdown = "markdown"
artifact_text artifact_json = "json"
artifact_text artifact_diff = "diff"
artifact_text artifact_image = "image"
artifact_text artifact_file = "file"
artifact_text artifact_report = "report"
artifact_text artifact_test_result = "test-result"
artifact_text artifact_metrics = "metrics"
artifact_text (other_artifact s) = s

unfoldable pub artifact_of : String → ArtifactType
artifact_of s =
    if s == "code"
    then artifact_code
    else if s == "markdown"
    then artifact_markdown
    else if s == "json"
    then artifact_json
    else if s == "diff"
    then artifact_diff
    else if s == "image"
    then artifact_image
    else if s == "file"
    then artifact_file
    else if s == "report"
    then artifact_report
    else if s == "test-result"
    then artifact_test_result
    else if s == "metrics"
    then artifact_metrics
    else other_artifact s

pub data CompareOp : Type 0 where
  op_eq op_ne op_gt op_gte op_lt op_lte op_exists op_truthy : CompareOp
  other_op : String → CompareOp

pub record Condition : Type 0 where
  pub path : String
  pub op : CompareOp
  pub value : Value

pub data FailureMode : Type 0 where
  unset_mode fail_execution fail_continue fail_fallback : FailureMode
  other_mode : String → FailureMode

pub record FailurePolicy : Type 0 where
  pub mode : FailureMode
  pub fallback_node : String

pub data ContextMode : Type 0 where
  unset_context context_full context_parent_only context_artifacts : ContextMode
  context_diff_only context_summary context_none : ContextMode
  other_context : String → ContextMode

pub record ContextPolicy : Type 0 where
  pub mode : ContextMode
  -- params.artifacts, where params is set
  pub params : Option (List String)

pub record ToolCall : Type 0 where
  pub tool_name : String
  pub input : Fields

pub record Node : Type 0 where
  pub id : String
  pub worker : String
  pub tool : Option ToolCall
  pub context_policy : Option ContextPolicy
  pub on_failure : Option FailurePolicy

pub record Edge : Type 0 where
  pub source : String
  pub target : String
  pub condition : Option Condition

pub record ModelConfig : Type 0 where
  pub provider : String
  pub model : String
  pub params : Fields

pub record Contract : Type 0 where
  pub goal : String
  pub rules : List String
  pub output_schema : Fields
  pub success_criteria : List String
  pub max_retries : ℤ

pub record Worker : Type 0 where
  pub id : String
  pub version : String
  pub description : String
  pub objective : String
  pub constraints : List String
  pub tools : List String
  pub context_policy : ContextPolicy
  pub contract : Contract
  pub model : ModelConfig

pub record Budget : Type 0 where
  pub max_cost_usd : Float64
  pub max_tokens : ℤ
  pub max_duration_ms : ℤ
  pub max_retries_per_node : ℤ

pub record InputDecl : Type 0 where
  pub name : String
  pub required : Bool
  pub default : String
  pub description : String

pub record Defaults : Type 0 where
  pub model : Option ModelConfig
  pub context_policy : Option ContextPolicy

pub record Workflow : Type 0 where
  pub id : String
  pub version : String
  pub nodes : List Node
  pub edges : List Edge
  pub defaults : Option Defaults
  pub inputs : List InputDecl
  pub budget : Budget
