-- ===== src/Contract.antt =====
-- core/contract: the messages of a model call, and the check of what the model answers.
use workflow_execution_engin.Prelude.{
  String, Option, none, some, List, [], ◌∷◌, ◌++◌, ◌==◌, if◌then◌else◌, get_or, append_text,
}
use workflow_execution_engin.Domain.Value.{Fields}
use workflow_execution_engin.Domain.Workflow.{artifact_text, Contract, Worker}
use workflow_execution_engin.Domain.Error.{Error, wrapped, Fallible, ok, err}
use workflow_execution_engin.Policy.{Item}

-- core/model/provider.go
pub data Role : Type 0 where
  role_system role_user role_assistant : Role

pub record Message : Type 0 where
  pub role : Role
  pub content : String

-- What errors.As tells apart in the error of Enforce.
pub data Enforcement : Type 0 where
  conforming : Enforcement
  -- ViolationError
  violation : (feedback : String) → (cause : Error) → Enforcement
  invalid_schema : Error → Enforcement

unfoldable pub texts : List String → String
unfolding append_text
texts [] = ""
texts (s ∷ ss) = append_text s (texts ss)

-- a line where the text is not empty
unfoldable pub labelled : String → String → String
unfolding texts
labelled label s = if s == "" then "" else texts (label ∷ ": " ∷ s ∷ "\n" ∷ [])

unfoldable pub bullets : List String → String
unfolding texts
bullets [] = ""
bullets (it ∷ items) = texts ("  - " ∷ it ∷ "\n" ∷ bullets items ∷ [])

unfoldable pub write_bullets : String → List String → String
unfolding texts bullets
write_bullets heading [] = ""
write_bullets heading (it ∷ items) = texts (heading ∷ ":\n" ∷ bullets (it ∷ items) ∷ [])

-- `quote` is the verb %q of package fmt, `marshal_indent` is json.MarshalIndent, and `compile_schema`
-- is validate.CompileSchema with the ValidateBytes of what it returns, on the JSON Schema library.
module _ (quote : String → String) (marshal_indent : Fields → Option String) where
  unfoldable pub build_system : Worker → String
  unfolding texts write_bullets labelled
  build_system w = texts (
      labelled "Objective" w.objective
      ∷ write_bullets "Constraints" w.constraints
      ∷ labelled "Goal" w.contract.goal
      ∷ write_bullets "Rules" w.contract.rules
      ∷ write_bullets "Success criteria" w.contract.success_criteria
      ∷ "\nRespond with a single JSON object and nothing else. "
      ∷ "It must conform exactly to this JSON Schema:\n"
      ∷ get_or (marshal_indent w.contract.output_schema) ""
      ∷ [])

  unfoldable pub context_items : List Item → String
  unfolding texts artifact_text
  context_items [] = ""
  context_items (it ∷ items) = texts (
      "\n--- from "
      ∷ quote it.from_node
      ∷ " ("
      ∷ artifact_text it.type
      ∷ ") ---\n"
      ∷ it.content
      ∷ "\n"
      ∷ context_items items
      ∷ [])

  unfoldable pub build_context : List Item → String
  unfolding context_items append_text
  build_context items =
      append_text "Context (exactly the artifacts your policy admits):\n" (context_items items)

  unfoldable pub context_messages : List Item → List Message
  unfolding build_context
  context_messages [] = []
  context_messages (it ∷ items) =
      record { role = role_user; content = build_context (it ∷ items) } ∷ []

  unfoldable pub feedback_messages : String → List Message
  unfolding texts
  feedback_messages feedback =
      if feedback == ""
      then []
      else record {
        role = role_user;
        content = texts (
            "Your previous output did not satisfy the required schema. "
            ∷ "Fix only these problems and return the full corrected JSON object:\n" ∷ feedback
            ∷ []);
      }
        ∷ []

  -- contract.Compile
  unfoldable pub compile : Worker → List Item → (feedback : String) → List Message
  unfolding build_system context_messages feedback_messages
  compile w items feedback =
      record { role = role_system; content = build_system w }
      ∷ (context_messages items ++ feedback_messages feedback)

module _ (describe : Error → String)
    (compile_schema : Fields → Fallible (String → Option Error)) where
  abbrev pub judge_output : Option Error → Enforcement
  judge_output none = conforming
  judge_output (some e) = violation (describe e) e

  abbrev pub enforce_schema : Fallible (String → Option Error) → String → Enforcement
  enforce_schema (err e) output = invalid_schema (wrapped "contract: invalid outputSchema" e)
  enforce_schema (ok validate) output = judge_output (validate output)

  unfoldable pub enforce : Contract → String → Enforcement
  enforce c output = enforce_schema (compile_schema c.output_schema) output
