-- ===== src/SyncManager/Objects.antt =====
-- pkg/sync/parser/handler/util.go and errors.go: the fields of an object of any kind. The reading of
-- a nested field is the library's: its answer is an error, no field, or the field.
use cluster_registry.Prelude.{
  String, ◌<>◌, Option, none, some, List, [], ◌∷◌, Dict, Result, ok, err, ℤ,
}

-- The functions of the `unstructured` package that the handlers call, and `taint`: the encoding of
-- an element as JSON, its decoding as a taint, and the taint's text.
pub record ObjectApi (Object Element : Type 0) : Type 0 where
  pub nested_string : Object → List String → Result (Option String)
  pub nested_int64 : Object → List String → Result (Option ℤ)
  pub nested_string_slice : Object → List String → Result (Option (List String))
  pub nested_string_map : Object → List String → Result (Option (Dict String))
  pub nested_slice : Object → List String → Result (Option (List Element))
  pub taint : Element → Result String
  pub get_name : Object → String
  pub get_namespace : Object → String
  pub gvk_text : Object → String

-- `strings.Join(fields, ".")`
unfoldable pub join_fields : List String → String
join_fields [] = ""
join_fields (f ∷ []) = f
join_fields (f ∷ g ∷ fields) = f <> "." <> join_fields (g ∷ fields)

module _ {Object Element : Type 0} (api : ObjectApi Object Element) where
  -- The text of a `ParseError`.
  unfoldable pub parse_error : Object → List String → String → String
  parse_error obj fields cause =
      "failed to get value ("
      <> join_fields fields
      <> ") from object (namespace: "
      <> api.get_namespace obj
      <> ", name: "
      <> api.get_name obj
      <> ", gvk: "
      <> api.gvk_text obj
      <> "): "
      <> cause

  abbrev required {ℓ} : {A : Type ℓ} → Object → List String → Result (Option A) → Result A
  required obj fields (err e) = err (parse_error obj fields e)
  required obj fields (ok none) = err (parse_error obj fields "field not found")
  required obj fields (ok (some value)) = ok value

  unfoldable pub get_nested_string : Object → List String → Result String
  get_nested_string obj fields = required obj fields (api.nested_string obj fields)

  unfoldable pub get_nested_int64 : Object → List String → Result ℤ
  get_nested_int64 obj fields = required obj fields (api.nested_int64 obj fields)

  unfoldable pub get_nested_string_slice : Object → List String → Result (List String)
  get_nested_string_slice obj fields = required obj fields (api.nested_string_slice obj fields)

  unfoldable pub get_nested_string_map : Object → List String → Result (Dict String)
  get_nested_string_map obj fields = required obj fields (api.nested_string_map obj fields)

  unfoldable pub get_nested_slice : Object → List String → Result (List Element)
  get_nested_slice obj fields = required obj fields (api.nested_slice obj fields)
