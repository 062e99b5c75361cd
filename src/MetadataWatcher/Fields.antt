-- ===== src/MetadataWatcher/Fields.antt =====
-- pkg/client/controllers/servicemetadatawatcher_controller.go, `getNestedString`. The functions on
-- nested fields are those of the `unstructured` package.
use Prim.Native.Char.{code}
use Prim.Native.String.{[] as empty_text, ◌∷◌ as prefixed}
use cluster_registry.Prelude.{
  ℕ, zero, suc, ◌-◌, ltb, leb, eqb, String, ◌<>◌, ◌&&◌, Bool, true, false, Option, none, some, List,
  [], ◌∷◌, ◌++◌, length, Dict, lookup, Result, ok, err, Outcome, returned, panicked, ℤ, pos, negsuc,
  parse_int, if◌then◌else◌,
}

-- What a value is, as far as the code asks: a map, a string, a Boolean, nil, or anything else.
pub data Shape (Object : Type 0) : Type 0 where
  map_of : Object → Shape Object
  text_of : String → Shape Object
  bool_of : Bool → Shape Object
  nil_value other_value : Shape Object

-- The nested fields of a map: an error, no field, or the field. `Value` is the type of every value,
-- `Float` that of the floating-point numbers.
pub record Unstructured (Value Object Float : Type 0) : Type 0 where
  pub shape : Value → Shape Object
  pub nested_slice : Object → List String → Result (Option (List Value))
  pub nested_map : Object → List String → Result (Option (Dict Value))
  pub nested_string : Object → List String → Result (Option String)
  pub nested_bool : Object → List String → Result (Option Bool)
  pub nested_int64 : Object → List String → Result (Option ℤ)
  pub nested_float64 : Object → List String → Result (Option Float)
  pub format_int : ℤ → String
  pub format_float : Float → String

-- The value with `found`, and the error.
abbrev pub Found : Type 0
Found = Result (Option String)

abbrev format_bool : Bool → String
format_bool true = "true"
format_bool false = "false"

unfoldable pub ends_with_bracket : String → Bool
ends_with_bracket empty_text = false
ends_with_bracket (prefixed c empty_text) = eqb (code c) b']'
ends_with_bracket (prefixed c (prefixed d s)) = ends_with_bracket (prefixed d s)

abbrev starts_with_bracket : String → Bool
starts_with_bracket empty_text = false
starts_with_bracket (prefixed c s) = eqb (code c) b'['

-- Whether a key is in brackets; `[` alone is not, since it does not end with the other.
unfoldable pub is_bracketed : String → Bool
unfolding ends_with_bracket
is_bracketed key = starts_with_bracket key && ends_with_bracket key

-- A text without its last character.
unfoldable pub without_last : String → String
without_last empty_text = ""
without_last (prefixed c empty_text) = ""
without_last (prefixed c (prefixed d s)) = prefixed c (without_last (prefixed d s))

-- `key[1 : len(key)-1]`, of a key in brackets.
unfoldable pub inner : String → String
inner empty_text = ""
inner (prefixed c s) = without_last s

-- The place that an index means in a slice of this length; a negative one counts from the end.
unfoldable pub resolve_index : ℕ → ℤ → Option ℕ
resolve_index n (pos i) = if leb n i then none else some i
resolve_index n (negsuc m) = if ltb n (suc m) then none else some (n - suc m)

abbrev pub get_elem? {ℓ} : {A : Type ℓ} → List A → ℕ → Option A
get_elem? [] i = none
get_elem? (x ∷ xs) zero = some x
get_elem? (x ∷ xs) (suc i) = get_elem? xs i

module _ {Value Object Float : Type 0} (u : Unstructured Value Object Float) where
  -- The element at the place that a text means.
  unfoldable pub element : List Value → String → Result Value
  element items k = elim (parse_int "strconv.Atoi" k) [
    | err e ↦ err ("invalid array index: " <> k)
    | ok i ↦ elim (resolve_index (length items) i) [
      | none ↦ err "index out of range"
      | some j ↦ elim (get_elem? items j) [ none ↦ err "index out of range" | some v ↦ ok v ]
    ]
  ]

  -- The value of a key of a map.
  unfoldable pub member : Dict Value → String → Result Value
  member m k = elim (lookup k m) [ none ↦ err ("key not found: " <> k) | some v ↦ ok v ]

  -- Where a key in brackets leads, if the path before it has a slice or a map.
  unfoldable pub enter : Object → List String → String → Option (Result Value)
  enter obj cpath k = elim (u.nested_slice obj cpath) [
    | ok (some items) ↦ some (element items k)
    | _ ↦ elim (u.nested_map obj cpath) [ ok (some m) ↦ some (member m k) | _ ↦ none ]
  ]

  -- The fields that are tried behind one another.
  floats : Object → List String → Found
  floats obj path = elim (u.nested_float64 obj path) [
    | ok (some x) ↦ ok (some (u.format_float x))
    | _ ↦ err "invalid field type"
  ]

  ints : Object → List String → Found
  unfolding floats
  ints obj path = elim (u.nested_int64 obj path) [
    | ok (some n) ↦ ok (some (u.format_int n))
    | _ ↦ floats obj path
  ]

  bools : Object → List String → Found
  unfolding ints
  bools obj path = elim (u.nested_bool obj path) [
    | ok (some b) ↦ ok (some (format_bool b))
    | _ ↦ ints obj path
  ]

  unfoldable pub field_text : Object → List String → Found
  unfolding bools
  field_text obj path = elim (u.nested_string obj path) [
    | ok (some s) ↦ ok (some s)
    | _ ↦ bools obj path
  ]

  -- What follows the loop. `reflect.TypeOf` of nil has no name to ask for.
  unfoldable pub leaf : Shape Object → List String → Outcome Found
  leaf (map_of obj) path = returned (field_text obj path)
  leaf (text_of s) path = returned (ok (some s))
  leaf (bool_of b) path = returned (ok (some (format_bool b)))
  leaf nil_value path = panicked
  leaf other_value path = panicked

  -- The loop, at the value of this shape, with the whole path, the fields so far, and the keys to
  -- come. A key in brackets wants a map; behind it the path starts anew.
  unfoldable pub walk_keys : Shape Object → List String → List String → List String → Outcome Found
  walk_keys here path cpath [] = leaf here path
  walk_keys here path cpath (key ∷ keys) = elim (is_bracketed key) [
    | false ↦ walk_keys here path (cpath ++ key ∷ []) keys
    | true ↦ elim here [
      | map_of obj ↦ elim (enter obj cpath (inner key)) [
        | none ↦ walk_keys (map_of obj) path cpath keys
        | some (err e) ↦ returned (err e)
        | some (ok v) ↦ walk_keys (u.shape v) keys [] keys
      ]
      | _ ↦ panicked
    ]
  ]

  -- `getNestedString`
  unfoldable pub get_nested_string : Value → List String → Outcome Found
  get_nested_string v path = walk_keys (u.shape v) path [] path
