-- ===== src/Examples/Tools.antt =====
-- A tool that changes something, with and without an approval.
use workflow_execution_engin.Prelude.{
  String, ◌≡◌, refl, ap, ◌∙◌, true, false, none, some, [], ◌∷◌, arith, get_or, Map, lookup, insert,
  at, pos,
}
use mathlib.Core.Path.{subst}
use workflow_execution_engin.Domain.Value.{text, field, end}
use workflow_execution_engin.Domain.Error.{ok, err}
use workflow_execution_engin.Engine.Approval.{
  Mutation, no_mutation, approval_granted, ApprovalRecord, no_record,
}
use workflow_execution_engin.Engine.Node.{NodeRequest}
use workflow_execution_engin.Engine.Retry.{class_fatal, classify}
use workflow_execution_engin.Engine.ToolCall.{Tool, Tooling}
use workflow_execution_engin.Engine.ToolExecutor.{approval_error, execute}
use workflow_execution_engin.Engine.ToolExecutor.Runs.{Ran, execute-Ran}
use workflow_execution_engin.Engine.ToolExecutor.Unretried.{IsSettled, execute-fatal}
use workflow_execution_engin.Examples.Samples.{named_node}

abbrev writes : Mutation
writes = record no_mutation { mutating = true; operation = "write" }

-- a tool that returns its input
abbrev writer : Tool
writer = record {
  name = "write";
  version = "1";
  validate_input = λ i. none;
  validate_output = λ o. none;
  execute = λ i. ok i;
  duration_ms = pos 1;
  describe_mutation = some (λ i. ok writes);
  artifact_type = none;
}

-- every name is the writer's, and a checkpoint is its node
abbrev bench : Tooling
bench = record {
  find_tool = λ n. some writer;
  lookup_env = λ k. some "hunter2";
  unmarshal = λ s. none;
  encode = λ v. ok "key hunter2";
  hash = λ x n t o i. ok n;
  describe = λ e. "failed";
}

abbrev ask : Map ApprovalRecord → NodeRequest
ask approvals = record {
  node = record (named_node "n") {
    worker = "";
    tool = some (record { tool_name = "write"; input = field "key" (text "${env:KEY}") end });
  };
  inputs = [];
  retry_feedback = "";
  workflow_inputs = [];
  connection_refs = [];
  execution_id = "x";
  approvals = approvals;
  allow_unattended_mutations = false;
}

abbrev approved : NodeRequest
approved = ask (("n", record no_record { status = approval_granted }) ∷ [])

approved_runs : (execute bench approved).1.executed ≡ "key hunter2" ∷ []
unfolding execute lookup insert at
approved_runs = refl

execute-Ran_example : Ran bench approved (execute bench approved).1
execute-Ran_example = execute-Ran bench approved (λ e. absurd (ground (arith, approved_runs, e)))

unapproved_waits : (execute bench (ask [])).0 ≡ err (approval_error bench)
unfolding execute lookup insert at
unapproved_waits = refl

unapproved_runs : (execute bench (ask [])).1.executed ≡ []
unfolding execute lookup insert at
unapproved_runs = refl

writer-IsSettled : (name : String) (t : Tool) → bench.find_tool name ≡ some t → IsSettled t
writer-IsSettled name t e = subst IsSettled (ap (λ o. get_or o t) e) (record {
  validates = λ i x h. absurd (ground arith);
  describes = λ d i x k h. absurd (ground (arith, ap (λ o. get_or o d i) k ∙ h));
})

execute-fatal_example : classify (approval_error bench) ≡ class_fatal
execute-fatal_example =
    execute-fatal bench (λ v e h. absurd (ground arith)) (λ x n t o i e h. absurd (ground arith))
      writer-IsSettled (ask []) (approval_error bench) unapproved_waits
