-- ===== src/Engine/WorkerExecutor.antt =====
-- core/engine/worker_executor.go: a node that calls a model under a contract.
pub mod Repeats
pub mod Outcome
pub mod Conforming
use workflow_execution_engin.Prelude.{
  ℕ, String, Bool, true, false, not, Option, none, some, List, [], ◌∷◌, ◌==◌, if◌then◌else◌, get_or,
  Map, lookup, ℤ, ◌+ℤ◌, wrap64,
}
use workflow_execution_engin.Domain.Value.{Fields, FloatOps}
use workflow_execution_engin.Domain.Workflow.{artifact_json, ContextPolicy, Node, Worker}
use workflow_execution_engin.Domain.Error.{
  Error, plain, wrapped, fatal, transient, contract_violation, kind_validation, kind_provider,
  provider_transient_of, is_provider_fatal, with_retry_after, Fallible, ok, err,
}
use workflow_execution_engin.Domain.Diagnostic.{wrap}
use workflow_execution_engin.Policy.{Item, resolve, hashes}
use workflow_execution_engin.Contract.{
  Message, Enforcement, conforming, violation, invalid_schema, compile, enforce,
}
use workflow_execution_engin.Cost.{Rate, compute}
use workflow_execution_engin.Engine.Types.{NodeInput, NodeResult}
use workflow_execution_engin.Engine.Node.{NodeRequest}

-- core/model/provider.go
pub record Params : Type 0 where
  pub model : String
  pub extra : Fields

pub record Response : Type 0 where
  pub content : String
  pub input_tokens : ℤ
  pub output_tokens : ℤ

abbrev pub Provider : Type 0
Provider = List Message → Params → Fallible Response

-- The workers and the providers of an executor, and what it takes from libraries.
pub record Modeling : Type 0 where
  pub workers : Map Worker
  pub providers : Map Provider
  pub quote : String → String
  pub marshal_indent : Fields → Option String
  pub describe : Error → String
  pub compile_schema : Fields → Fallible (String → Option Error)
  pub ops : FloatOps
  pub per_million : ℕ → ℕ → Rate

abbrev pub found_provider : Option Provider → Fallible Provider
found_provider none = err (plain "model: no provider registered")
found_provider (some p) = ok p

-- Registry.Get of core/model/provider.go
unfoldable pub get_provider : Map Provider → String → Fallible Provider
unfolding lookup
get_provider ps name = found_provider (lookup (if name == "" then "openai" else name) ps)

unfoldable pub to_policy_items : List NodeInput → List Item
to_policy_items [] = []
to_policy_items (i ∷ inputs) =
    record { from_node = i.from_node; type = i.type; hash = i.hash; content = i.content }
    ∷ to_policy_items inputs

-- the policy of a node, where it has one, and otherwise its worker's
abbrev pub policy_of : Worker → Node → ContextPolicy
policy_of w n = get_or n.context_policy w.context_policy

abbrev pub hinted : Option ℤ → Error → Error
hinted none e = e
hinted (some d) e = with_retry_after e d

-- what is not transient, by whether the provider says that it is fatal
abbrev pub map_unretried : Bool → String → Error → Error
map_unretried true id e = fatal (
    wrap e kind_provider "provider_fatal" id "provider.complete" "provider rejected the request"
      "check provider credentials, base URL, model name, and request parameters")
map_unretried false id e = fatal (
    wrap e kind_provider "provider_unknown" id "provider.complete" "provider call failed"
      "check provider configuration and network access")

abbrev pub map_classified : Option (Option ℤ) → String → Error → Error
map_classified none id e = map_unretried (is_provider_fatal e) id e
map_classified (some d) id e = transient (
    hinted d (
      wrap e kind_provider "provider_transient" id "provider.complete"
        "provider returned a retryable failure"
        "wait for the retry window or lower concurrency/rate"))

-- mapProviderError
unfoldable pub map_provider_error : String → Error → Error
unfolding provider_transient_of is_provider_fatal with_retry_after
map_provider_error id e = map_classified (provider_transient_of e) id e

module _ (m : Modeling) where
  unfoldable pub result_of : Worker → List Item → Response → NodeResult
  unfolding compute hashes wrap64
  result_of w items r = record {
    content = r.content;
    type = artifact_json;
    mime_type = "application/json";
    cost_usd =
        compute m.ops m.per_million (if w.model.provider == "" then "openai" else w.model.provider)
          w.model.model r.input_tokens r.output_tokens;
    tokens = wrap64 (r.input_tokens +ℤ r.output_tokens);
    hash = "";
    validated = true;
    context_hashes = hashes items;
  }

  -- what follows the check of the output
  unfoldable pub judge_response :
      String → Worker → List Item → Response → Enforcement → Fallible NodeResult
  unfolding result_of
  judge_response id w items r conforming = ok (result_of w items r)
  judge_response id w items r (violation feedback cause) = err (
      contract_violation
        (wrap (wrapped "" cause) kind_validation "contract_violation" id "contract.enforce"
          "output failed the node's Contract"
          "adjust the Worker goal or output schema so the model returns valid JSON")
        feedback w.contract.max_retries)
  judge_response id w items r (invalid_schema e) = err (
      fatal (
        wrap (wrapped "engine: node" e) kind_validation "contract_schema_invalid" id
          "contract.compile" "Contract output schema is invalid"
          "fix the Worker Contract schema before running"))

  unfoldable pub check_response :
      String → Worker → List Item → Fallible Response → Fallible NodeResult
  unfolding judge_response map_provider_error enforce
  check_response id w items (err e) = err (map_provider_error id e)
  check_response id w items (ok r) =
      judge_response id w items r (enforce m.describe m.compile_schema w.contract r.content)

  unfoldable pub call_provider :
      NodeRequest → Worker → List Item → Fallible Provider → Fallible NodeResult
  unfolding check_response compile
  call_provider req w items (err e) = err (
      fatal (
        wrap (wrapped "engine: node" e) kind_provider "provider_not_configured" req.node.id
          "provider.lookup" "model provider is not configured"
          "add or select a provider connection in Settings"))
  call_provider req w items (ok complete) = check_response req.node.id w items (
      complete (compile m.quote m.marshal_indent w items req.retry_feedback)
        (record { model = w.model.model; extra = w.model.params }))

  unfoldable pub call_admitted : NodeRequest → Worker → Fallible (List Item) → Fallible NodeResult
  unfolding call_provider get_provider
  call_admitted req w (err e) = err (
      fatal (
        wrap (wrapped "engine: node" e) kind_validation "context_policy_invalid" req.node.id
          "context.resolve" "context policy could not be resolved"
          "check the node's Context Policy filters and upstream artifact types"))
  call_admitted req w (ok items) =
      call_provider req w items (get_provider m.providers w.model.provider)

  unfoldable pub call_worker : NodeRequest → Option Worker → Fallible NodeResult
  unfolding call_admitted resolve to_policy_items
  call_worker req none = err (
      fatal (
        wrap (plain "engine: no worker") kind_validation "worker_not_found" req.node.id
          "worker.lookup" "worker reference could not be resolved"
          "select an existing Worker version or import the missing Worker"))
  call_worker req (some w) =
      call_admitted req w (resolve (policy_of w req.node) (to_policy_items req.inputs))

  -- WorkerExecutor.Execute
  unfoldable pub execute : NodeRequest → Fallible NodeResult
  unfolding call_worker lookup
  execute req = call_worker req (lookup req.node.worker m.workers)
