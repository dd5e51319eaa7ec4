-- ===== src/Examples/Parts.antt =====
-- The theorems on the parts of the engine, at concrete inputs.
use workflow_execution_engin.Prelude.{
  ℕ, suc, ◌+◌, ◌*◌, ◌^◌, String, ◌≡◌, refl, Bool, true, false, Option, none, some, List, [], ◌∷◌,
  arith, All, Map, lookup, at, pos, ◌≤ℤ◌,
}
use workflow_execution_engin.Domain.Value.{int, text, end, field}
use workflow_execution_engin.Domain.Workflow.{op_eq, op_ne, op_gt, Condition}
use workflow_execution_engin.Domain.Error.{
  missing_input, Error, sentinel, plain, wrapped, diagnosed, provider_transient, provider_fatal,
  transient, contract_violation, fatal, is, Violation, as_violation, ok, err,
}
use workflow_execution_engin.Domain.Event
use workflow_execution_engin.Domain.Event.{Event}
use workflow_execution_engin.Engine.Types.{Emission}
use workflow_execution_engin.Engine.Conditional.{eval_condition}
use workflow_execution_engin.Engine.Conditional.Laws.{with_op, negated, eval_condition-ne}
use workflow_execution_engin.Engine.Retry.{exponential_backoff, with_retry}
use workflow_execution_engin.Engine.Retry.Backoff.{
  exponential_backoff-eq, exponential_backoff_uncapped,
}
use workflow_execution_engin.Engine.Retry.Bounds.{with_retry_ends}
use workflow_execution_engin.Engine.Inputs.{resolve_workflow_inputs}
use workflow_execution_engin.Engine.Inputs.Laws.{HasValue, resolve_workflow_inputs_complete}
use workflow_execution_engin.Engine.Scheduler.Loop.{prepare, begin_run}
use workflow_execution_engin.Engine.Resume.{
  snapshot_of, resume_opts, reexecute, descendants_inclusive,
}
use workflow_execution_engin.Engine.Resume.Descendants.{Reach, descendants_inclusive-Reach}
use workflow_execution_engin.Engine.Resume.Pins.{resume_inputs, reexecute_missing}
use workflow_execution_engin.Examples.Samples.{whole, flag, pipeline, topic, options}
use Prim.Native.Nat.{min}

abbrev at_x : Condition
at_x = record { path = "x"; op = op_gt; value = int (pos 1) }

eval_condition-ne_example :
    eval_condition whole flag (some (with_op op_ne at_x)) "yes"
    ≡ negated (eval_condition whole flag (some (with_op op_eq at_x)) "yes")
eval_condition-ne_example = eval_condition-ne whole flag at_x "yes"

exponential_backoff-eq_example :
    exponential_backoff (pos 100) (pos 1000) 3 ≡ pos (min (100 * 2 ^ 2) 1000)
exponential_backoff-eq_example =
    exponential_backoff-eq 100 1000 2 (omega arith) (omega arith) (omega arith)

exponential_backoff_uncapped_example :
    (exponential_backoff (pos 50) (pos 30) 1 ≡ pos 50)
    × ((n : ℕ) → exponential_backoff (pos 50) (pos 30) (suc (suc n)) ≡ pos 30)
exponential_backoff_uncapped_example =
    exponential_backoff_uncapped 50 30 (omega arith) (omega arith)

abbrev always : ℕ → ℕ × Option Error
always n = (suc n, some (transient (plain "busy")))

always_bounded :
    (s : ℕ) (e : Error) (v : Violation)
    → (always s).1 ≡ some e
    → as_violation e ≡ some v
    → v.max_retries ≤ℤ pos 0
unfolding as_violation
always_bounded s (transient (plain m)) v h p = cc
always_bounded s (sentinel t) v h p = cc
always_bounded s (plain m) v h p = cc
always_bounded s (wrapped m e) v h p = cc
always_bounded s (diagnosed d e) v h p = cc
always_bounded s (provider_transient d e) v h p = cc
always_bounded s (provider_fatal e) v h p = cc
always_bounded s (transient e) v h p = cc
always_bounded s (contract_violation e f n) v h p = cc
always_bounded s (fatal e) v h p = cc

with_retry_ends_example :
    (r : ℕ × Option Error) × (with_retry
        (pos 3)
        (λ n. pos n)
        always
        (λ n e s. s)
        (λ n d. none)
        (suc (3 + 0))
        0
      ≡ some r)
with_retry_ends_example =
    with_retry_ends 3 0 (λ n. pos n) always (λ n e s. s) (λ n d. none) always_bounded 0

abbrev go : Map String
go = ("topic", "go") ∷ []

go_resolved : resolve_workflow_inputs (topic ∷ []) go ≡ ok go
unfolding resolve_workflow_inputs lookup
go_resolved = refl

resolve_workflow_inputs_complete_example :
    ((k v : String) → lookup k go ≡ some v → lookup k go ≡ some v)
    × All (λ d. d.required ≡ true → HasValue go d) (topic ∷ [])
resolve_workflow_inputs_complete_example =
    resolve_workflow_inputs_complete (topic ∷ []) go go go_resolved

nothing_given : lookup {V = String} "topic" [] ≡ none
unfolding lookup
nothing_given = refl

abbrev begun : List Emission
begun =
    record {
      type = Event.execution_started;
      node_id = "";
      payload = field "workflow" (text "pipeline") (field "version" (text "1") end);
    }
    ∷ []

prepared : prepare true none pipeline options ≡ ok (go, begun)
unfolding begin_run resolve_workflow_inputs lookup
prepared = refl

resume_inputs_example :
    prepare false none pipeline (resume_opts "run" (snapshot_of pipeline options go)) ≡ ok (go, [])
resume_inputs_example = resume_inputs "run" pipeline options go begun prepared

reexecute_missing_example :
    (e : Error) × (reexecute none "again" (ok (snapshot_of pipeline options go)) ≡ err e)
    × (is missing_input e ≡ true)
reexecute_missing_example =
    reexecute_missing none "again" (snapshot_of pipeline options go) "topic" refl refl

descendants_inclusive-Reach_example :
    (out : Map Bool) × (descendants_inclusive pipeline "plan" ≡ some out)
    × ((x : String) → Reach pipeline.edges "plan" x → at x false out ≡ true)
    × ((x : String) → at x false out ≡ true → Reach pipeline.edges "plan" x)
descendants_inclusive-Reach_example = descendants_inclusive-Reach pipeline "plan"
