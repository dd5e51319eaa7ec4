-- ===== src/Examples/Samples.antt =====
-- The workflow, the numbers and the services that the examples use.
use workflow_execution_engin.Prelude.{
  ◌+◌, ◌*◌, String, true, false, Option, none, some, [], ◌∷◌, ◌==◌, ltb, leb, eqb, if◌then◌else◌,
  pos, pos_part,
}
use workflow_execution_engin.Domain.Value.{Value, null, bool, FloatOps}
use workflow_execution_engin.Domain.Workflow.{
  artifact_json, op_truthy, Node, Budget, InputDecl, Workflow,
}
use workflow_execution_engin.Domain.Error.{Error}
use workflow_execution_engin.Engine.Types.{NodeResult, RunOptions, unset_cache}

-- whole numbers in place of floats
abbrev pub whole : FloatOps
whole = record {
  add = λ x y. x + y;
  mul = λ x y. x * y;
  less = ltb;
  less_eq = leb;
  equal = eqb;
  of_int = pos_part;
}

-- every document is one flag
abbrev pub flag : String → Option Value
flag s = if s == "yes" then some (bool true) else if s == "no" then some (bool false) else none

abbrev pub named_node : String → Node
named_node id = record {
  id = id;
  worker = "w";
  tool = none;
  context_policy = none;
  on_failure = none;
}

abbrev pub no_budget : Budget
no_budget = record {
  max_cost_usd = 0;
  max_tokens = pos 0;
  max_duration_ms = pos 0;
  max_retries_per_node = pos 2;
}

abbrev pub topic : InputDecl
topic = record { name = "topic"; required = true; default = ""; description = "" }

-- plan, then write where the plan's document is true
abbrev pub pipeline : Workflow
pipeline = record {
  id = "pipeline";
  version = "1";
  nodes = named_node "plan" ∷ named_node "write" ∷ [];
  edges =
      record {
        source = "plan";
        target = "write";
        condition = some (record { path = ""; op = op_truthy; value = null });
      }
      ∷ [];
  defaults = none;
  inputs = topic ∷ [];
  budget = no_budget;
}

abbrev pub yes_result : NodeResult
yes_result = record {
  content = "yes";
  type = artifact_json;
  mime_type = "";
  cost_usd = 1;
  tokens = pos 3;
  hash = "h";
  validated = true;
  context_hashes = [];
}

abbrev pub say : Error → String
say e = "failed"

abbrev pub options : RunOptions
options = record {
  execution_id = "run";
  concurrency = pos 1;
  budget = no_budget;
  retry_backoff = pos 0;
  retry_backoff_max = pos 0;
  cache = unset_cache;
  definition_hashes = [];
  workers = [];
  inputs = ("topic", "go") ∷ [];
  connection_refs = [];
  allow_unattended_mutations = false;
}
