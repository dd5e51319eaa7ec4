-- ===== src/Engine/ToolExecutor/Clearance.antt =====
-- When the approval checkpoint of core/engine/tool_executor.go lets a call go on.
use workflow_execution_engin.Prelude.{
  String, ◌≡◌, refl, inl, inr, Bool, true, false, none, some, arith, Bool-cases, Option-cases,
}
use workflow_execution_engin.Domain.Error.{Fallible, ok, err}
use workflow_execution_engin.Engine.Approval.{
  Mutation, ApprovalStatus, no_status, approval_pending, approval_granted, approval_refused,
}
use workflow_execution_engin.Engine.Node.{NodeRequest}
use workflow_execution_engin.Engine.ToolCall.{Tool, Trace, Tooling}
use workflow_execution_engin.Engine.ToolExecutor.{
  check_status, checkpoint_id, status_of, check_checkpoint, check_mutating, check_mutation,
  check_approval,
}

module _ (tl : Tooling) where
  -- why a call may go on
  pub data Cleared (req : NodeRequest) (t : Tool) (redacted : String) : Type 0 where
    unattended : req.allow_unattended_mutations ≡ true → Cleared req t redacted
    undescribed : t.describe_mutation ≡ none → Cleared req t redacted
    harmless :
        (d : String → Fallible Mutation) (m : Mutation)
        → t.describe_mutation ≡ some d
        → d redacted ≡ ok m
        → m.mutating ≡ false
        → Cleared req t redacted
    granted :
        (d : String → Fallible Mutation) (m : Mutation) (id : String)
        → t.describe_mutation ≡ some d
        → d redacted ≡ ok m
        → checkpoint_id tl req t m redacted ≡ ok id
        → status_of tl req id ≡ approval_granted
        → Cleared req t redacted

  check_status-granted :
      (st : ApprovalStatus) (t : Tool) (id : String) (m : Mutation) (r : String) (tr : Trace)
      → (check_status tl st t id m r tr).0 ≡ none
      → st ≡ approval_granted
  unfolding check_status
  check_status-granted approval_granted t id m r tr e = refl
  check_status-granted approval_refused t id m r tr e = absurd (ground arith)
  check_status-granted approval_pending t id m r tr e = absurd (ground arith)
  check_status-granted no_status t id m r tr e = absurd (ground arith)

  module _ (req : NodeRequest) (t : Tool) (r : String) (tr : Trace) where
    check_checkpoint-Cleared :
        (d : String → Fallible Mutation) (m : Mutation) (f : Fallible String)
        → t.describe_mutation ≡ some d
        → d r ≡ ok m
        → checkpoint_id tl req t m r ≡ f
        → (check_checkpoint tl req t m r f tr).0 ≡ none
        → Cleared req t r
    unfolding check_checkpoint
    check_checkpoint-Cleared d m (err x) k q c h = absurd (ground arith)
    check_checkpoint-Cleared d m (ok id) k q c h =
        granted d m id k q c (check_status-granted (status_of tl req id) t id m r tr h)

    check_mutating-Cleared :
        (d : String → Fallible Mutation) (m : Mutation) (b : Bool)
        → t.describe_mutation ≡ some d
        → d r ≡ ok m
        → m.mutating ≡ b
        → (check_mutating tl b req t m r tr).0 ≡ none
        → Cleared req t r
    unfolding check_mutating
    check_mutating-Cleared d m false k q b h = harmless d m k q b
    check_mutating-Cleared d m true k q b h =
        check_checkpoint-Cleared d m (checkpoint_id tl req t m r) k q refl h

    check_mutation-Cleared :
        (d : String → Fallible Mutation) (f : Fallible Mutation)
        → t.describe_mutation ≡ some d
        → d r ≡ f
        → (check_mutation tl req t r f tr).0 ≡ none
        → Cleared req t r
    unfolding check_mutation
    check_mutation-Cleared d (err x) k q h = absurd (ground arith)
    check_mutation-Cleared d (ok m) k q h = check_mutating-Cleared d m m.mutating k q refl h

    pub check_approval-Cleared :
        (input : String) → (check_approval tl req t input r tr).0 ≡ none → Cleared req t r
    unfolding check_approval
    check_approval-Cleared input e = elim (Bool-cases req.allow_unattended_mutations) [
      | inl u ↦ unattended u
      | inr u ↦ elim (Option-cases (t.validate_input input)) [
        | inr (x, q) ↦ absurd (ground (arith, rw (u, q) at e))
        | inl q ↦ elim (Option-cases t.describe_mutation) [
          | inl k ↦ undescribed k
          | inr (d, k) ↦ check_mutation-Cleared d (d r) k refl (rw (u, q, k) at e)
        ]
      ]
    ]

    check_status-executed :
        (st : ApprovalStatus) (id : String) (m : Mutation)
        → (check_status tl st t id m r tr).1.executed ≡ tr.executed
    unfolding check_status
    check_status-executed approval_granted id m = refl
    check_status-executed approval_refused id m = refl
    check_status-executed approval_pending id m = refl
    check_status-executed no_status id m = refl

    check_checkpoint-executed :
        (m : Mutation) (f : Fallible String)
        → (check_checkpoint tl req t m r f tr).1.executed ≡ tr.executed
    unfolding check_checkpoint
    check_checkpoint-executed m (err x) = refl
    check_checkpoint-executed m (ok id) = check_status-executed (status_of tl req id) id m

    check_mutating-executed :
        (m : Mutation) (b : Bool) → (check_mutating tl b req t m r tr).1.executed ≡ tr.executed
    unfolding check_mutating
    check_mutating-executed m false = refl
    check_mutating-executed m true = check_checkpoint-executed m (checkpoint_id tl req t m r)

    check_mutation-executed :
        (f : Fallible Mutation) → (check_mutation tl req t r f tr).1.executed ≡ tr.executed
    unfolding check_mutation
    check_mutation-executed (err x) = refl
    check_mutation-executed (ok m) = check_mutating-executed m m.mutating

    -- asking for an approval runs nothing
    pub check_approval-executed :
        (input : String) → (check_approval tl req t input r tr).1.executed ≡ tr.executed
    unfolding check_approval
    check_approval-executed input = elim (Bool-cases req.allow_unattended_mutations) [
      | inl u ↦ rw u refl
      | inr u ↦ elim (Option-cases (t.validate_input input)) [
        | inr (x, q) ↦ rw (u, q) refl
        | inl q ↦ elim (Option-cases t.describe_mutation) [
          | inl k ↦ rw (u, q, k) refl
          | inr (d, k) ↦ rw (u, q, k) (check_mutation-executed (d r))
        ]
      ]
    ]
