-- ===== src/Engine/WorkerExecutor/Conforming.antt =====
-- What a worker's node produces: core/engine/worker_executor.go with core/contract/enforce.go.
use workflow_execution_engin.Prelude.{String, ◌≡◌, refl, some, List, lookup}
use mathlib.Core.Path.{subst}
use workflow_execution_engin.Domain.Workflow.{Worker}
use workflow_execution_engin.Domain.Error.{Fallible, ok, err}
use workflow_execution_engin.Policy.{Item, resolve, hashes}
use workflow_execution_engin.Contract.{Enforcement, conforming, violation, invalid_schema, enforce}
use workflow_execution_engin.Engine.Types.{NodeResult}
use workflow_execution_engin.Engine.Node.{NodeRequest}
use workflow_execution_engin.Engine.WorkerExecutor.{
  Response, Provider, Modeling, get_provider, to_policy_items, policy_of, result_of, judge_response,
  check_response, call_provider, call_admitted, call_worker, execute,
}

module _ (m : Modeling) where
  -- a result that the contract of a worker allows, made from some items
  abbrev Conforms : Worker → List Item → Fallible NodeResult → Type 0
  Conforms w items (err e) = Unit
  Conforms w items (ok res) =
      (enforce m.describe m.compile_schema w.contract res.content ≡ conforming)
      × (res.context_hashes ≡ hashes items)

  judge_response-Conforms :
      (id : String) (w : Worker) (items : List Item) (r : Response) (x : Enforcement)
      → enforce m.describe m.compile_schema w.contract r.content ≡ x
      → Conforms w items (judge_response m id w items r x)
  unfolding judge_response result_of
  judge_response-Conforms id w items r conforming q = (q, refl)
  judge_response-Conforms id w items r (violation f c) q = tt
  judge_response-Conforms id w items r (invalid_schema e) q = tt

  check_response-Conforms :
      (id : String) (w : Worker) (items : List Item) (f : Fallible Response)
      → Conforms w items (check_response m id w items f)
  unfolding check_response
  check_response-Conforms id w items (err e) = tt
  check_response-Conforms id w items (ok r) = judge_response-Conforms id w items r _ refl

  call_provider-Conforms :
      (req : NodeRequest) (w : Worker) (items : List Item) (f : Fallible Provider)
      → Conforms w items (call_provider m req w items f)
  unfolding call_provider
  call_provider-Conforms req w items (err e) = tt
  call_provider-Conforms req w items (ok complete) = check_response-Conforms req.node.id w items _

  execute-Conforms :
      (req : NodeRequest) (w : Worker) (items : List Item)
      → lookup req.node.worker m.workers ≡ some w
      → resolve (policy_of w req.node) (to_policy_items req.inputs) ≡ ok items
      → Conforms w items (execute m req)
  unfolding execute call_worker call_admitted
  execute-Conforms req w items h k =
      rw (h, k) (call_provider-Conforms req w items (get_provider m.providers w.model.provider))

  -- Where a worker's node succeeds, its content passed the check of the worker's contract, and the
  -- hashes of its context are those of exactly the inputs that the policy in force admits.
  pub execute-conforming :
      (req : NodeRequest) (w : Worker) (items : List Item) (res : NodeResult)
      → lookup req.node.worker m.workers ≡ some w
      → resolve (policy_of w req.node) (to_policy_items req.inputs) ≡ ok items
      → execute m req ≡ ok res
      → (enforce m.describe m.compile_schema w.contract res.content ≡ conforming)
        × (res.context_hashes ≡ hashes items)
  execute-conforming req w items res h k q =
      subst (Conforms w items) q (execute-Conforms req w items h k)
