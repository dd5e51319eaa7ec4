-- ===== src/Engine/ToolExecutor/Runs.antt =====
-- Which tool calls of core/engine/tool_executor.go are run.
use workflow_execution_engin.Prelude.{
  String, ◌≡◌, refl, ap, ◌∙◌, ◌≢◌, ◌⊎◌, inl, inr, Option, none, some, [], ◌∷◌, ◌++◌, Option-cases,
  Map, ℤ, pos,
}
use workflow_execution_engin.Domain.Value.{Value, object}
use workflow_execution_engin.Domain.Workflow.{ToolCall}
use workflow_execution_engin.Domain.Error.{Error, Fallible, ok, err}
use workflow_execution_engin.Engine.Node.{NodeRequest}
use workflow_execution_engin.Engine.ToolInput.{Resolving, resolve_tool_input, redact}
use workflow_execution_engin.Engine.ToolCall.{
  Tool, Trace, Tooling, send, send_failure, conclude_call, invalid_input, called, invoke,
}
use workflow_execution_engin.Engine.ToolExecutor.{
  check_approval, finish_call, call_checked, call_encoded, call_resolved, scope_of,
  nothing_resolved, nothing_done, call_tool, call_node, execute,
}
use workflow_execution_engin.Engine.ToolExecutor.Clearance.{
  Cleared, check_approval-Cleared, check_approval-executed,
}

module _ (tl : Tooling) where
  -- a tool was run, once, with the input that the placeholders give
  pub record Ran (req : NodeRequest) (tr : Trace) : Type 0 where
    pub call : ToolCall
    pub tool : Tool
    pub value : Value
    pub resolving : Resolving
    pub input : String
    pub configured : req.node.tool ≡ some call
    pub registered : tl.find_tool call.tool_name ≡ some tool
    pub resolved :
        resolve_tool_input (scope_of tl req) (object call.input) (nothing_resolved tl)
        ≡ (ok value, resolving)
    pub encoded : tl.encode value ≡ ok input
    pub accepted : tool.validate_input input ≡ none
    pub once : tr.executed ≡ input ∷ []
    pub cleared : Cleared tl req tool (redact resolving.secrets input)

  -- whether a call of Invoke runs the tool
  module _ (t : Tool) (secrets : Map String) (input : String) (tr : Trace) where
    send_failure-executed :
        (x : Error) (ms : ℤ) (u : Trace) → (send_failure tl t secrets x ms u).executed ≡ u.executed
    unfolding send_failure send
    send_failure-executed x ms u = refl

    conclude_call-executed :
        (f : Fallible String) (u : Trace) → (conclude_call tl t secrets f u).1.executed ≡ u.executed
    unfolding conclude_call send_failure send
    conclude_call-executed (err x) u = refl
    conclude_call-executed (ok out) u = elim (Option-cases (t.validate_output out)) [
      | inl q ↦ rw (conclude_call, q) refl
      | inr (x, q) ↦ rw (conclude_call, q) refl
    ]

    invoke-executed :
        ((invoke tl t secrets input tr).1.executed ≡ tr.executed)
        ⊎ ((t.validate_input input ≡ none)
            × ((invoke tl t secrets input tr).1.executed ≡ tr.executed ++ (input ∷ [])))
    unfolding invoke called send
    invoke-executed = elim (Option-cases (t.validate_input input)) [
      | inr (x, q) ↦
          inl (rw (invoke, q) (send_failure-executed (invalid_input tl t secrets x) (pos 0) tr))
      | inl q ↦ inr (
        q,
        rw (invoke, q) (conclude_call-executed (t.execute input) (called tl t secrets input tr)),
      )
    ]

  module _ (req : NodeRequest) (t : Tool) (st : Resolving) (input : String) where
    finish_call-trace : (f : Fallible String × Trace) → (finish_call tl req t st f).1 ≡ f.1
    unfolding finish_call
    finish_call-trace (err x, u) = refl
    finish_call-trace (ok out, u) = refl

    call_checked-executed :
        (p : Option Error × Trace)
        → p.1.executed ≡ []
        → (call_checked tl req t st input p).1.executed ≢ []
        → (p.0 ≡ none)
          × (t.validate_input input ≡ none)
          × ((call_checked tl req t st input p).1.executed ≡ input ∷ [])
    unfolding call_checked
    call_checked-executed (some x, u) e n = absurd (n e)
    call_checked-executed (none, u) e n =
        let same =
          ap (λ (v : Trace). v.executed) (finish_call-trace (invoke tl t st.secrets input u)) in
        elim (invoke-executed t st.secrets input u) [
          | inl q ↦ absurd (n (same ∙ q ∙ e))
          | inr (v, q) ↦ (refl, v, same ∙ q ∙ ap (λ l. l ++ (input ∷ [])) e)
        ]

  call_encoded-Ran :
      (req : NodeRequest) (c : ToolCall) (t : Tool) (v : Value) (st : Resolving)
      (f : Fallible String)
      → req.node.tool ≡ some c
      → tl.find_tool c.tool_name ≡ some t
      → resolve_tool_input (scope_of tl req) (object c.input) (nothing_resolved tl) ≡ (ok v, st)
      → tl.encode v ≡ f
      → (call_encoded tl req t st f (nothing_done tl)).1.executed ≢ []
      → Ran req (call_encoded tl req t st f (nothing_done tl)).1
  unfolding call_encoded
  call_encoded-Ran req c t v st (err x) k l m q n = absurd (n refl)
  call_encoded-Ran req c t v st (ok input) k l m q n =
      let r = redact st.secrets input in
      let p = check_approval tl req t input r (nothing_done tl) in
      let h =
        call_checked-executed req t st input p
          (check_approval-executed tl req t r (nothing_done tl) input) n in
      record {
        call = c;
        tool = t;
        value = v;
        resolving = st;
        input = input;
        configured = k;
        registered = l;
        resolved = m;
        encoded = q;
        accepted = h.1;
        once = h.2;
        cleared = check_approval-Cleared tl req t r (nothing_done tl) input h.0;
      }

  call_resolved-Ran :
      (req : NodeRequest) (c : ToolCall) (t : Tool) (f : Fallible Value × Resolving)
      → req.node.tool ≡ some c
      → tl.find_tool c.tool_name ≡ some t
      → resolve_tool_input (scope_of tl req) (object c.input) (nothing_resolved tl) ≡ f
      → (call_resolved tl req t f (nothing_done tl)).1.executed ≢ []
      → Ran req (call_resolved tl req t f (nothing_done tl)).1
  unfolding call_resolved
  call_resolved-Ran req c t (err x, st) k l m n = absurd (n refl)
  call_resolved-Ran req c t (ok v, st) k l m n =
      call_encoded-Ran req c t v st (tl.encode v) k l m refl n

  call_tool-Ran :
      (req : NodeRequest) (c : ToolCall) (o : Option Tool)
      → req.node.tool ≡ some c
      → tl.find_tool c.tool_name ≡ o
      → (call_tool tl req c o).1.executed ≢ []
      → Ran req (call_tool tl req c o).1
  unfolding call_tool
  call_tool-Ran req c none k l n = absurd (n refl)
  call_tool-Ran req c (some t) k l n = call_resolved-Ran req c t _ k l refl n

  call_node-Ran :
      (req : NodeRequest) (o : Option ToolCall)
      → req.node.tool ≡ o
      → (call_node tl req o).1.executed ≢ []
      → Ran req (call_node tl req o).1
  unfolding call_node
  call_node-Ran req none k n = absurd (n refl)
  call_node-Ran req (some c) k n = call_tool-Ran req c (tl.find_tool c.tool_name) k refl n

  -- A tool is run only where it may be: whatever the tools do, if the execution of a node ran a tool,
  -- it ran the one that the node names, once, with the input that the placeholders give and that the
  -- tool's schema accepts; and the run allows unattended mutations, or the tool describes none, or it
  -- describes the call as harmless, or the log holds a grant for the checkpoint of this call.
  pub execute-Ran :
      (req : NodeRequest) → (execute tl req).1.executed ≢ [] → Ran req (execute tl req).1
  unfolding execute
  execute-Ran req n = call_node-Ran req req.node.tool refl n
