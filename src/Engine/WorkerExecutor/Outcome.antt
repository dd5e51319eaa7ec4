-- ===== src/Engine/WorkerExecutor/Outcome.antt =====
-- What follows the execution of a worker's node: core/engine/worker_executor.go with
-- core/engine/retry.go.
use workflow_execution_engin.Prelude.{ℕ, String, Option, none, some, List, ℤ}
use workflow_execution_engin.Domain.Workflow.{Worker}
use workflow_execution_engin.Domain.Error.{Error, provider_transient_of, Fallible, ok, err}
use workflow_execution_engin.Policy.{Item, resolve}
use workflow_execution_engin.Contract.{compile}
use workflow_execution_engin.Engine.Node.{NodeRequest}
use workflow_execution_engin.Engine.WorkerExecutor.Repeats.{
  Next, done, never, IsForeign, after_error, after_violation,
}
use workflow_execution_engin.Engine.WorkerExecutor.{
  Response, Provider, Modeling, get_provider, to_policy_items, policy_of,
}

abbrev IsRefusal {ℓ} : {A : Type ℓ} → Fallible A → Type 0
IsRefusal (ok x) = Unit
IsRefusal (err e) = IsForeign e

-- The limit and the backoff of withRetry, and the failures that it has counted.
module _ (max_transient : ℤ) (backoff : ℕ → ℤ) (t c : ℕ) where
  module _ (m : Modeling) where
    -- by what the schema's check says of an output
    abbrev pub expected_output : Worker → Option Error → Next
    expected_output w none = done
    expected_output w (some e) =
        after_violation max_transient backoff t c w.contract.max_retries (m.describe e)

    abbrev pub expected_check : Worker → String → Fallible (String → Option Error) → Next
    expected_check w output (err e) = never
    expected_check w output (ok validate) = expected_output w (validate output)

    abbrev pub expected_answer : Worker → Fallible Response → Next
    expected_answer w (err e) = after_error max_transient backoff t c (provider_transient_of e)
    expected_answer w (ok r) =
        expected_check w r.content (m.compile_schema w.contract.output_schema)

    abbrev pub expected_call : NodeRequest → Worker → List Item → Fallible Provider → Next
    expected_call req w items (err e) = never
    expected_call req w items (ok complete) = expected_answer w (
        complete (compile m.quote m.marshal_indent w items req.retry_feedback)
          (record { model = w.model.model; extra = w.model.params }))

    abbrev pub expected_admitted : NodeRequest → Worker → Fallible (List Item) → Next
    expected_admitted req w (err e) = never
    expected_admitted req w (ok items) =
        expected_call req w items (get_provider m.providers w.model.provider)

    abbrev pub expected_worker : NodeRequest → Option Worker → Next
    expected_worker req none = never
    expected_worker req (some w) =
        expected_admitted req w (resolve (policy_of w req.node) (to_policy_items req.inputs))
