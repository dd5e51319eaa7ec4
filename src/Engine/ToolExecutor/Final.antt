-- ===== src/Engine/ToolExecutor/Final.antt =====
-- No error of core/engine/tool_executor.go is retried.
use workflow_execution_engin.Prelude.{
  String, ◌≡◌, refl, inl, inr, ◌||◌, Option, none, some, List, [], ◌∷◌, ◌==◌, Bool-cases,
  Option-cases, lookup, placeholder, cut_prefix, cut,
}
use workflow_execution_engin.Domain.Value.{
  Value, null, bool, float, int, text, array, object, Items, nil, cons, Fields, end, field,
}
use workflow_execution_engin.Domain.Error.{
  Error, plain, wrapped, as_violation, is_transient, Fallible, ok, err,
}
use workflow_execution_engin.Engine.Types.{ConnectionRef, NodeInput}
use workflow_execution_engin.Engine.Retry.{class_fatal, classify}
use workflow_execution_engin.Engine.Conditional.{lookup_path}
use workflow_execution_engin.Engine.ToolInput.{
  Resolving, Resolved, Scope, text_of, read_env, resolve_env, connection_field, field_of,
  resolve_connection, found_at, read_artifact, resolve_artifact, node_and_path, resolve_inner,
  resolve_placeholder, cons_item, prepend_item, cons_field, prepend_field, as_array, as_object,
  resolve_tool_input, resolve_items, resolve_fields,
}

-- an error that the retry loop returns at once
abbrev pub IsFinal : Error → Type 0
IsFinal e = classify e ≡ class_fatal

-- the error, if there is one, is final
abbrev pub FailsFinally {ℓ} : {A : Type ℓ} {S : Type 0} → Fallible A × S → Type 0
FailsFinally (err e, s) = IsFinal e
FailsFinally (ok a, s) = Unit

pub plain-IsFinal : (m : String) → IsFinal (plain m)
unfolding classify as_violation is_transient
plain-IsFinal m = refl

pub wrapped-IsFinal : (m : String) (e : Error) → IsFinal e → IsFinal (wrapped m e)
unfolding classify as_violation is_transient
wrapped-IsFinal m e h = h

text_of-FailsFinally :
    (o : Option String) (m : String) (st : Resolving) → FailsFinally (text_of o m st)
text_of-FailsFinally none m st = plain-IsFinal m
text_of-FailsFinally (some v) m st = tt

read_env-FailsFinally :
    (o f : Option String) (ref : String) (st : Resolving) → FailsFinally (read_env o f ref st)
read_env-FailsFinally (some v) f ref st = tt
read_env-FailsFinally none (some v) ref st = tt
read_env-FailsFinally none none ref st = plain-IsFinal _

resolve_env-FailsFinally :
    (sc : Scope) (ref name : String) (st : Resolving) → FailsFinally (resolve_env sc ref name st)
unfolding resolve_env
resolve_env-FailsFinally sc ref name st = elim (Option-cases (cut ":-" name)) [
  | inl q ↦ rw (resolve_env, q) (read_env-FailsFinally (sc.lookup_env name) none ref st)
  | inr (parts, q) ↦
      rw (resolve_env, q) (read_env-FailsFinally (sc.lookup_env parts.0) (some parts.1) ref st)
]

field_of-FailsFinally :
    (o : Option ConnectionRef) (f : String) (st : Resolving) → FailsFinally (field_of o f st)
field_of-FailsFinally none f st = plain-IsFinal _
field_of-FailsFinally (some c) f st = text_of-FailsFinally (connection_field c f) _ st

resolve_connection-FailsFinally :
    (sc : Scope) (ref : String) (st : Resolving) → FailsFinally (resolve_connection sc ref st)
unfolding resolve_connection
resolve_connection-FailsFinally sc ref st = elim (Option-cases (cut "." ref)) [
  | inl q ↦ rw (resolve_connection, q) (plain-IsFinal _)
  | inr (parts, q) ↦
      rw (resolve_connection, q)
        (elim (Bool-cases ((parts.0 == "") || (parts.1 == ""))) [
          | inl b ↦ rw b (plain-IsFinal _)
          | inr b ↦ rw b (field_of-FailsFinally (lookup parts.0 sc.connection_refs) parts.1 st)
        ])
]

found_at-FailsFinally :
    (o : Option Value) (input : NodeInput) (st : Resolving) → FailsFinally (found_at o input st)
found_at-FailsFinally none input st = plain-IsFinal _
found_at-FailsFinally (some v) input st = tt

read_artifact-FailsFinally :
    (o : Option Value) (path : String) (input : NodeInput) (st : Resolving)
    → FailsFinally (read_artifact o path input st)
unfolding read_artifact
read_artifact-FailsFinally none path input st = plain-IsFinal _
read_artifact-FailsFinally (some doc) path input st =
    found_at-FailsFinally (lookup_path doc path) input st

resolve_artifact-FailsFinally :
    (sc : Scope) (id path : String) (inputs : List NodeInput) (st : Resolving)
    → FailsFinally (resolve_artifact sc id path inputs st)
unfolding resolve_artifact
resolve_artifact-FailsFinally sc id path [] st = plain-IsFinal _
resolve_artifact-FailsFinally sc id path (x ∷ xs) st = elim (Bool-cases (x.from_node == id)) [
  | inl b ↦ rw b (read_artifact-FailsFinally (sc.unmarshal x.content) path x st)
  | inr b ↦ rw b (resolve_artifact-FailsFinally sc id path xs st)
]

resolve_inner-FailsFinally :
    (sc : Scope) (ref inner : String) (st : Resolving)
    → FailsFinally (resolve_inner sc ref inner st)
unfolding resolve_inner
resolve_inner-FailsFinally sc ref inner st = elim (Option-cases (cut_prefix inner "env:")) [
  | inr (name, q) ↦ rw (resolve_inner, q) (resolve_env-FailsFinally sc ref name st)
  | inl q ↦ elim (Option-cases (cut_prefix inner "input:")) [
    | inr (name, p) ↦
        rw (resolve_inner, q, p) (text_of-FailsFinally (lookup name sc.workflow_inputs) _ st)
    | inl p ↦ elim (Option-cases (cut_prefix inner "connection:")) [
      | inr (c, o) ↦ rw (resolve_inner, q, p, o) (resolve_connection-FailsFinally sc c st)
      | inl o ↦
          rw (resolve_inner, q, p, o)
            (resolve_artifact-FailsFinally sc (node_and_path inner).0 (node_and_path inner).1
              sc.inputs st)
    ]
  ]
]

resolve_placeholder-FailsFinally :
    (sc : Scope) (s : String) (st : Resolving) → FailsFinally (resolve_placeholder sc s st)
unfolding resolve_placeholder
resolve_placeholder-FailsFinally sc s st = elim (Option-cases (placeholder "${" s)) [
  | inl q ↦ rw (resolve_placeholder, q) tt
  | inr (inner, q) ↦ rw (resolve_placeholder, q) (resolve_inner-FailsFinally sc s inner st)
]

cons_item-FailsFinally :
    (r : Resolved) (rest : Resolving → Fallible Items × Resolving)
    → FailsFinally r
    → ((st : Resolving) → FailsFinally (rest st))
    → FailsFinally (cons_item r rest)
cons_item-FailsFinally (err e, st) rest h k = wrapped-IsFinal "[]" e h
cons_item-FailsFinally (ok v, st) rest h k = after (rest st) (k st)
  where
    after : (r : Fallible Items × Resolving) → FailsFinally r → FailsFinally (prepend_item v r)
    after (err e, u) f = f
    after (ok vs, u) f = tt

cons_field-FailsFinally :
    (name : String) (r : Resolved) (rest : Resolving → Fallible Fields × Resolving)
    → FailsFinally r
    → ((st : Resolving) → FailsFinally (rest st))
    → FailsFinally (cons_field name r rest)
cons_field-FailsFinally name (err e, st) rest h k = wrapped-IsFinal name e h
cons_field-FailsFinally name (ok v, st) rest h k = after (rest st) (k st)
  where
    after :
        (r : Fallible Fields × Resolving) → FailsFinally r → FailsFinally (prepend_field name v r)
    after (err e, u) f = f
    after (ok fs, u) f = tt

as_array-FailsFinally :
    (r : Fallible Items × Resolving) → FailsFinally r → FailsFinally (as_array r)
as_array-FailsFinally (err e, st) h = h
as_array-FailsFinally (ok vs, st) h = tt

as_object-FailsFinally :
    (r : Fallible Fields × Resolving) → FailsFinally r → FailsFinally (as_object r)
as_object-FailsFinally (err e, st) h = h
as_object-FailsFinally (ok fs, st) h = tt

mutual
  unfolding resolve_tool_input

  pub resolve_value-FailsFinally :
      (sc : Scope) (v : Value) (st : Resolving) → FailsFinally (resolve_tool_input sc v st)
  resolve_value-FailsFinally sc null st = tt
  resolve_value-FailsFinally sc (bool b) st = tt
  resolve_value-FailsFinally sc (float x) st = tt
  resolve_value-FailsFinally sc (int n) st = tt
  resolve_value-FailsFinally sc (text s) st = resolve_placeholder-FailsFinally sc s st
  resolve_value-FailsFinally sc (array vs) st =
      as_array-FailsFinally (resolve_items sc vs st) (resolve_items-FailsFinally sc vs st)
  resolve_value-FailsFinally sc (object fs) st =
      as_object-FailsFinally (resolve_fields sc fs st) (resolve_fields-FailsFinally sc fs st)

  resolve_items-FailsFinally :
      (sc : Scope) (vs : Items) (st : Resolving) → FailsFinally (resolve_items sc vs st)
  resolve_items-FailsFinally sc nil st = tt
  resolve_items-FailsFinally sc (cons v vs) st =
      cons_item-FailsFinally (resolve_tool_input sc v st) (resolve_items sc vs)
        (resolve_value-FailsFinally sc v st) (resolve_items-FailsFinally sc vs)

  resolve_fields-FailsFinally :
      (sc : Scope) (fs : Fields) (st : Resolving) → FailsFinally (resolve_fields sc fs st)
  resolve_fields-FailsFinally sc end st = tt
  resolve_fields-FailsFinally sc (field k v fs) st =
      cons_field-FailsFinally k (resolve_tool_input sc v st) (resolve_fields sc fs)
        (resolve_value-FailsFinally sc v st) (resolve_fields-FailsFinally sc fs)
