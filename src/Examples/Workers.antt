-- ===== src/Examples/Workers.antt =====
-- A worker whose provider is busy, and one whose provider answers.
use workflow_execution_engin.Prelude.{
  String, ◌≡◌, refl, true, false, Option, none, some, [], ◌∷◌, ◌==◌, if◌then◌else◌, lookup, pos,
  ◌+ℤ◌,
}
use workflow_execution_engin.Domain.Value.{end}
use workflow_execution_engin.Domain.Workflow.{artifact_json, unset_context, Worker}
use workflow_execution_engin.Domain.Error.{
  Error, plain, provider_transient, retry_after_of, Fallible, ok, err,
}
use workflow_execution_engin.Policy.{resolve, resolve_mode, hashes}
use workflow_execution_engin.Contract.{conforming, enforce}
use workflow_execution_engin.Engine.Types.{NodeResult}
use workflow_execution_engin.Engine.Node.{NodeRequest}
use workflow_execution_engin.Engine.WorkerExecutor.{
  Params, Response, Provider, Modeling, to_policy_items, execute,
}
use workflow_execution_engin.Engine.WorkerExecutor.Repeats.{IsForeign}
use workflow_execution_engin.Engine.WorkerExecutor.Conforming.{execute-conforming}
use workflow_execution_engin.Examples.Samples.{whole, named_node}

abbrev writer : Worker
writer = record {
  id = "w";
  version = "1";
  description = "";
  objective = "write";
  constraints = [];
  tools = [];
  context_policy = record { mode = unset_context; params = none };
  contract = record {
    goal = "a text";
    rules = [];
    output_schema = end;
    success_criteria = [];
    max_retries = pos 2;
  };
  model = record { provider = ""; model = "gpt-4o"; params = end };
}

abbrev busy : Provider
busy ms ps = err (provider_transient (some (pos 5)) (plain "429"))

abbrev prompt : Provider
prompt ms ps = ok (record { content = "yes"; input_tokens = pos 1; output_tokens = pos 2 })

abbrev with_provider : Provider → Modeling
with_provider p = record {
  workers = ("w", writer) ∷ [];
  providers = ("openai", p) ∷ [];
  quote = λ s. s;
  marshal_indent = λ fs. some "{}";
  describe = λ e. "failed";
  compile_schema = λ s. ok (λ out. if out == "yes" then none else some (plain "not yes"));
  ops = whole;
  per_million = λ i o. record { input_per_token = i; output_per_token = o };
}

abbrev ask : NodeRequest
ask = record {
  node = named_node "n";
  inputs = record { from_node = "plan"; content = "go"; type = artifact_json; hash = "h" } ∷ [];
  retry_feedback = "";
  workflow_inputs = [];
  connection_refs = [];
  execution_id = "x";
  approvals = [];
  allow_unattended_mutations = false;
}

abbrev Foreign : Fallible Response → Type 0
Foreign (ok r) = Unit
Foreign (err e) = IsForeign e

abbrev Answers : Fallible Provider → Type 0
Answers (err e) = Unit
Answers (ok p) = (ms : _) (ps : Params) (e : Error) → p ms ps ≡ err e → IsForeign e

abbrev Undelayed : Option Error → Type 0
Undelayed none = Unit
Undelayed (some e) = retry_after_of e ≡ none

abbrev Checks : Fallible (String → Option Error) → Type 0
Checks (err x) = Unit
Checks (ok validate) = (out : String) (e : Error) → validate out ≡ some e → retry_after_of e ≡ none

abbrev yes : NodeResult
yes = record {
  content = "yes";
  type = artifact_json;
  mime_type = "application/json";
  cost_usd = 2250;
  tokens = pos 3;
  hash = "";
  validated = true;
  context_hashes = "h" ∷ [];
}

answered : execute (with_provider prompt) ask ≡ ok yes
unfolding execute lookup resolve resolve_mode ◌+ℤ◌
answered = refl

execute-conforming_example :
    (enforce (λ e. "failed") (with_provider prompt).compile_schema writer.contract "yes"
      ≡ conforming)
    × (yes.context_hashes ≡ hashes (to_policy_items ask.inputs))
unfolding lookup resolve resolve_mode
execute-conforming_example =
    execute-conforming (with_provider prompt) ask writer (to_policy_items ask.inputs) yes refl refl
      answered
