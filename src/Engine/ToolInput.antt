-- ===== src/Engine/ToolInput.antt =====
-- core/engine/tool_input.go: the placeholders in the input of a tool call, and the redaction of the
-- values that came from the environment. `range` over a Go map follows the order of its list.
use workflow_execution_engin.Prelude.{
  String, Bool, true, ◌||◌, Option, none, some, List, [], ◌∷◌, ◌==◌, if◌then◌else◌, get_or, Map,
  lookup, insert, placeholder, cut_prefix, cut, replace_all,
}
use workflow_execution_engin.Domain.Value.{
  Value, null, bool, float, int, text, array, object, Items, nil, cons, Fields, end, field,
}
use workflow_execution_engin.Domain.Error.{plain, wrapped, Fallible, ok, err}
use workflow_execution_engin.Engine.Types.{ConnectionRef, NodeInput}
use workflow_execution_engin.Engine.Conditional.{lookup_path}

-- The maps that resolving fills: the values from the environment, each with the placeholder that it
-- stands for, and the hashes of the artifacts that were read.
pub record Resolving : Type 0 where
  pub secrets : Map String
  pub ref_hashes : Map Bool

abbrev pub Resolved : Type 0
Resolved = Fallible Value × Resolving

-- What a placeholder may refer to: os.LookupEnv, json.Unmarshal and the inputs of the node.
pub record Scope : Type 0 where
  pub lookup_env : String → Option String
  pub unmarshal : String → Option Value
  pub inputs : List NodeInput
  pub workflow_inputs : Map String
  pub connection_refs : Map ConnectionRef

abbrev pub text_of : Option String → (missing : String) → Resolving → Resolved
text_of (some v) missing st = (ok (text v), st)
text_of none missing st = (err (plain missing), st)

abbrev pub keep_secret : (value ref : String) → Resolving → Resolving
keep_secret value ref st =
    if value == "" then st else record st { secrets = insert value ref st.secrets }

-- a variable, where it is set, or else what the placeholder gives in its place
abbrev pub read_env :
    Option String → (fallback : Option String) → (ref : String) → Resolving → Resolved
read_env (some v) fallback ref st = (ok (text v), keep_secret v ref st)
read_env none (some v) ref st = (ok (text v), st)
read_env none none ref st = (err (plain "placeholder: environment variable is not set"), st)

-- "${env:NAME}" and "${env:NAME:-fallback}"
unfoldable pub resolve_env : Scope → (ref name : String) → Resolving → Resolved
unfolding cut
resolve_env sc ref name st = elim (cut ":-" name) [
  | some parts ↦ read_env (sc.lookup_env parts.0) (some parts.1) ref st
  | none ↦ read_env (sc.lookup_env name) none ref st
]

-- the switch over the field of a connection
unfoldable pub connection_field : ConnectionRef → String → Option String
connection_field c f =
    if f == "id"
    then some c.id
    else if f == "label"
    then some c.label
    else if f == "kind"
    then some c.kind
    else if f == "type"
    then some c.type
    else if f == "baseUrl"
    then some c.base_url
    else if f == "secretEnv"
    then some c.secret_env
    else lookup f c.defaults

abbrev pub field_of : Option ConnectionRef → String → Resolving → Resolved
field_of none f st = (err (plain "placeholder: connection was not resolved for this run"), st)
field_of (some c) f st =
    text_of (connection_field c f) "placeholder: connection has no such field or default" st

-- "${connection:id.field}"
unfoldable pub resolve_connection : Scope → String → Resolving → Resolved
unfolding cut connection_field
resolve_connection sc ref st = elim (cut "." ref) [
  | none ↦ (err (plain "placeholder: must be ${connection:id.field}"), st)
  | some parts ↦
      if (parts.0 == "") || (parts.1 == "")
      then (err (plain "placeholder: must be ${connection:id.field}"), st)
      else field_of (lookup parts.0 sc.connection_refs) parts.1 st
]

abbrev pub found_at : Option Value → NodeInput → Resolving → Resolved
found_at none input st = (err (plain "placeholder: path not found in the output"), st)
found_at (some v) input st = (ok v, record st { ref_hashes = insert input.hash true st.ref_hashes })

unfoldable pub read_artifact : Option Value → (path : String) → NodeInput → Resolving → Resolved
unfolding lookup_path
read_artifact none path input st =
    (err (plain "placeholder: upstream artifact is not valid JSON"), st)
read_artifact (some doc) path input st = found_at (lookup_path doc path) input st

-- the loop over the inputs, for the first one of a node
unfoldable pub resolve_artifact :
    Scope → (node_id path : String) → List NodeInput → Resolving → Resolved
unfolding read_artifact
resolve_artifact sc node_id path [] st =
    (err (plain "placeholder: no upstream input from the node"), st)
resolve_artifact sc node_id path (input ∷ inputs) st =
    let rest = resolve_artifact sc node_id path inputs st in
    if input.from_node == node_id
    then read_artifact (sc.unmarshal input.content) path input st
    else rest

unfoldable pub node_and_path : String → String × String
unfolding cut
node_and_path inner = get_or (cut "." inner) (inner, "")

-- what stands between the braces
unfoldable pub resolve_inner : Scope → (ref inner : String) → Resolving → Resolved
unfolding cut_prefix resolve_env resolve_connection resolve_artifact node_and_path
resolve_inner sc ref inner st = elim (cut_prefix inner "env:") [
  | some name ↦ resolve_env sc ref name st
  | none ↦ elim (cut_prefix inner "input:") [
    | some name ↦
        text_of (lookup name sc.workflow_inputs) "placeholder: workflow input has no value" st
    | none ↦ elim (cut_prefix inner "connection:") [
      | some c ↦ resolve_connection sc c st
      | none ↦ let parts = node_and_path inner in resolve_artifact sc parts.0 parts.1 sc.inputs st
    ]
  ]
]

unfoldable pub resolve_placeholder : Scope → String → Resolving → Resolved
unfolding placeholder resolve_inner
resolve_placeholder sc s st = elim (placeholder "${" s) [
  | none ↦ (ok (text s), st)
  | some inner ↦ resolve_inner sc s inner st
]

abbrev pub prepend_item : Value → Fallible Items × Resolving → Fallible Items × Resolving
prepend_item v (err e, st) = (err e, st)
prepend_item v (ok vs, st) = (ok (cons v vs), st)

-- an element before the rest, with the error of the first that fails
abbrev pub cons_item :
    Resolved → (Resolving → Fallible Items × Resolving) → Fallible Items × Resolving
cons_item (err e, st) rest = (err (wrapped "[]" e), st)
cons_item (ok v, st) rest = prepend_item v (rest st)

abbrev pub prepend_field :
    String → Value → Fallible Fields × Resolving → Fallible Fields × Resolving
prepend_field k v (err e, st) = (err e, st)
prepend_field k v (ok fs, st) = (ok (field k v fs), st)

abbrev pub cons_field :
    String → Resolved → (Resolving → Fallible Fields × Resolving) → Fallible Fields × Resolving
cons_field k (err e, st) rest = (err (wrapped k e), st)
cons_field k (ok v, st) rest = prepend_field k v (rest st)

abbrev pub as_array : Fallible Items × Resolving → Resolved
as_array (err e, st) = (err e, st)
as_array (ok vs, st) = (ok (array vs), st)

abbrev pub as_object : Fallible Fields × Resolving → Resolved
as_object (err e, st) = (err e, st)
as_object (ok fs, st) = (ok (object fs), st)

module _ (sc : Scope) where
  unfoldable mutual
    unfolding resolve_placeholder

    pub resolve_tool_input : Value → Resolving → Resolved
    resolve_tool_input null st = (ok null, st)
    resolve_tool_input (bool b) st = (ok (bool b), st)
    resolve_tool_input (float x) st = (ok (float x), st)
    resolve_tool_input (int n) st = (ok (int n), st)
    resolve_tool_input (text s) st = resolve_placeholder sc s st
    resolve_tool_input (array vs) st = as_array (resolve_items vs st)
    resolve_tool_input (object fs) st = as_object (resolve_fields fs st)

    pub resolve_items : Items → Resolving → Fallible Items × Resolving
    resolve_items nil st = (ok nil, st)
    resolve_items (cons v vs) st = cons_item (resolve_tool_input v st) (resolve_items vs)

    pub resolve_fields : Fields → Resolving → Fallible Fields × Resolving
    resolve_fields end st = (ok end, st)
    resolve_fields (field k v fs) st = cons_field k (resolve_tool_input v st) (resolve_fields fs)

-- redactBytes and redactString: every occurrence of a secret becomes its placeholder
unfoldable pub redact : Map String → String → String
unfolding replace_all
redact [] s = s
redact ((value, ref) ∷ secrets) s =
    redact secrets (if value == "" then s else replace_all value ref s)
