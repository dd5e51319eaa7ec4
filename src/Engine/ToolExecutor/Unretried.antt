-- ===== src/Engine/ToolExecutor/Unretried.antt =====
-- A tool call is never retried: core/engine/tool_executor.go with core/engine/retry.go.
use workflow_execution_engin.Prelude.{
  String, ◌≡◌, refl, ap, inl, inr, Bool, true, false, Option, none, some, arith, Bool-cases,
  Option-cases,
}
use mathlib.Core.Path.{subst}
use workflow_execution_engin.Domain.Value.{Value, object}
use workflow_execution_engin.Domain.Workflow.{ToolCall}
use workflow_execution_engin.Domain.Error.{
  Error, Kind, fatal, as_violation, is_transient, Fallible, ok, err,
}
use workflow_execution_engin.Domain.Diagnostic.{wrap}
use workflow_execution_engin.Engine.Types.{NodeResult}
use workflow_execution_engin.Engine.Retry.{class_fatal, classify}
use workflow_execution_engin.Engine.Approval.{
  Mutation, ApprovalStatus, no_status, approval_pending, approval_granted, approval_refused,
}
use workflow_execution_engin.Engine.Node.{NodeRequest}
use workflow_execution_engin.Engine.ToolInput.{Resolving, redact}
use workflow_execution_engin.Engine.ToolCall.{Tool, Trace, Tooling, invoke}
use workflow_execution_engin.Engine.ToolExecutor.{
  approval_error, rejection_error, check_status, checkpoint_id, status_of, check_checkpoint,
  check_mutating, check_mutation, check_approval, finish_call, call_checked, call_encoded,
  call_resolved, scope_of, nothing_resolved, nothing_done, call_tool, call_node, execute,
}
use workflow_execution_engin.Engine.ToolExecutor.Final.{
  IsFinal, FailsFinally, plain-IsFinal, wrapped-IsFinal, resolve_value-FailsFinally,
}

abbrev error_or : {A : Type 0} → Error → Fallible A → Error
error_or d (ok x) = d
error_or d (err e) = e

abbrev Stops : Option Error × Trace → Type 0
Stops (none, tr) = Unit
Stops (some e, tr) = IsFinal e

fatal-IsFinal : (e : Error) → IsFinal e → IsFinal (fatal e)
unfolding classify as_violation is_transient
fatal-IsFinal e h = h

wrap-IsFinal :
    (e : Error) (k : Kind) (code id operation message fix : String)
    → IsFinal e
    → IsFinal (fatal (wrap e k code id operation message fix))
unfolding classify as_violation is_transient
wrap-IsFinal e k code id operation message fix h = h

approval_error-IsFinal : (tl : Tooling) → IsFinal (approval_error tl)
unfolding classify as_violation is_transient
approval_error-IsFinal tl = refl

rejection_error-IsFinal : (tl : Tooling) → IsFinal (rejection_error tl)
unfolding classify as_violation is_transient
rejection_error-IsFinal tl = refl

-- what a tool finds wrong with an input, or cannot describe, is not to be retried
pub record IsSettled (t : Tool) : Type 0 where
  pub validates : (input : String) (e : Error) → t.validate_input input ≡ some e → IsFinal e
  pub describes :
      (d : String → Fallible Mutation) (input : String) (e : Error)
      → t.describe_mutation ≡ some d
      → d input ≡ err e
      → IsFinal e

module _ (tl : Tooling) (encodes : (v : Value) (e : Error) → tl.encode v ≡ err e → IsFinal e)
    (hashes : (x n t o i : String) (e : Error) → tl.hash x n t o i ≡ err e → IsFinal e)
    (settled : (name : String) (t : Tool) → tl.find_tool name ≡ some t → IsSettled t) where
  check_status-Stops :
      (st : ApprovalStatus) (t : Tool) (id : String) (m : Mutation) (r : String) (tr : Trace)
      → Stops (check_status tl st t id m r tr)
  unfolding check_status
  check_status-Stops approval_granted t id m r tr = tt
  check_status-Stops approval_refused t id m r tr = rejection_error-IsFinal tl
  check_status-Stops approval_pending t id m r tr = approval_error-IsFinal tl
  check_status-Stops no_status t id m r tr = approval_error-IsFinal tl

  module _ (req : NodeRequest) (t : Tool) (known : IsSettled t) where
    check_checkpoint-Stops :
        (m : Mutation) (r : String) (f : Fallible String) (tr : Trace)
        → checkpoint_id tl req t m r ≡ f
        → Stops (check_checkpoint tl req t m r f tr)
    unfolding check_checkpoint
    check_checkpoint-Stops m r (err e) tr q =
        fatal-IsFinal _
          (wrapped-IsFinal _ e (hashes req.execution_id req.node.id t.name m.operation r e q))
    check_checkpoint-Stops m r (ok id) tr q = check_status-Stops (status_of tl req id) t id m r tr

    check_mutating-Stops :
        (b : Bool) (m : Mutation) (r : String) (tr : Trace)
        → Stops (check_mutating tl b req t m r tr)
    unfolding check_mutating
    check_mutating-Stops false m r tr = tt
    check_mutating-Stops true m r tr =
        check_checkpoint-Stops m r (checkpoint_id tl req t m r) tr refl

    check_mutation-Stops :
        (d : String → Fallible Mutation) (r : String) (f : Fallible Mutation) (tr : Trace)
        → t.describe_mutation ≡ some d
        → d r ≡ f
        → Stops (check_mutation tl req t r f tr)
    unfolding check_mutation
    check_mutation-Stops d r (err e) tr k q =
        fatal-IsFinal _ (wrapped-IsFinal _ e (known.describes d r e k q))
    check_mutation-Stops d r (ok m) tr k q = check_mutating-Stops m.mutating m r tr

    check_approval-Stops :
        (input r : String) (tr : Trace) → Stops (check_approval tl req t input r tr)
    unfolding check_approval
    check_approval-Stops input r tr = elim (Bool-cases req.allow_unattended_mutations) [
      | inl u ↦ rw (check_approval, u) tt
      | inr u ↦ elim (Option-cases (t.validate_input input)) [
        | inr (x, q) ↦ rw (check_approval, u, q) (fatal-IsFinal x (known.validates input x q))
        | inl q ↦ elim (Option-cases t.describe_mutation) [
          | inl k ↦ rw (check_approval, u, q, k) tt
          | inr (d, k) ↦ rw (check_approval, u, q, k) (check_mutation-Stops d r (d r) tr k refl)
        ]
      ]
    ]

    finish_call-FailsFinally :
        (st : Resolving) (f : Fallible String × Trace) → FailsFinally (finish_call tl req t st f)
    unfolding finish_call
    finish_call-FailsFinally st (err x, tr) = wrap-IsFinal _ _ _ _ _ _ _ (plain-IsFinal _)
    finish_call-FailsFinally st (ok out, tr) = tt

    call_checked-FailsFinally :
        (st : Resolving) (input : String) (p : Option Error × Trace)
        → Stops p
        → FailsFinally (call_checked tl req t st input p)
    unfolding call_checked
    call_checked-FailsFinally st input (some e, tr) h = h
    call_checked-FailsFinally st input (none, tr) h =
        finish_call-FailsFinally st (invoke tl t st.secrets input tr)

    call_encoded-FailsFinally :
        (st : Resolving) (v : Value) (f : Fallible String) (tr : Trace)
        → tl.encode v ≡ f
        → FailsFinally (call_encoded tl req t st f tr)
    unfolding call_encoded
    call_encoded-FailsFinally st v (err e) tr q =
        wrap-IsFinal _ _ _ _ _ _ _ (wrapped-IsFinal _ e (encodes v e q))
    call_encoded-FailsFinally st v (ok input) tr q =
        call_checked-FailsFinally st input _
          (check_approval-Stops input (redact st.secrets input) tr)

    call_resolved-FailsFinally :
        (f : Fallible Value × Resolving) (tr : Trace)
        → FailsFinally f
        → FailsFinally (call_resolved tl req t f tr)
    unfolding call_resolved
    call_resolved-FailsFinally (err e, st) tr h = wrap-IsFinal _ _ _ _ _ _ _ (wrapped-IsFinal _ e h)
    call_resolved-FailsFinally (ok v, st) tr h =
        call_encoded-FailsFinally st v (tl.encode v) tr refl

  call_tool-FailsFinally :
      (req : NodeRequest) (c : ToolCall) (o : Option Tool)
      → tl.find_tool c.tool_name ≡ o
      → FailsFinally (call_tool tl req c o)
  unfolding call_tool
  call_tool-FailsFinally req c none q = wrap-IsFinal _ _ _ _ _ _ _ (plain-IsFinal _)
  call_tool-FailsFinally req c (some t) q =
      call_resolved-FailsFinally req t (settled c.tool_name t q) _ (nothing_done tl)
        (resolve_value-FailsFinally (scope_of tl req) (object c.input) (nothing_resolved tl))

  call_node-FailsFinally :
      (req : NodeRequest) (o : Option ToolCall) → FailsFinally (call_node tl req o)
  unfolding call_node
  call_node-FailsFinally req none = wrap-IsFinal _ _ _ _ _ _ _ (plain-IsFinal _)
  call_node-FailsFinally req (some c) = call_tool-FailsFinally req c (tl.find_tool c.tool_name) refl

  -- A tool call is never retried: where the errors of encoding, of hashing, of validating an input and
  -- of describing a mutation are none that the retry loop repeats, every error that the execution of a
  -- node returns is classified as fatal, also where the tool itself failed with one that would be
  -- retried.
  pub execute-fatal :
      (req : NodeRequest) (e : Error) → (execute tl req).0 ≡ err e → classify e ≡ class_fatal
  unfolding execute
  execute-fatal req e q =
      final (call_node tl req req.node.tool) (call_node-FailsFinally req req.node.tool) q
    where
      final : (r : Fallible NodeResult × Trace) → FailsFinally r → r.0 ≡ err e → IsFinal e
      final (err x, tr) h k = subst IsFinal (ap (λ f. error_or e f) k) h
      final (ok a, tr) h k = absurd (ground arith)
