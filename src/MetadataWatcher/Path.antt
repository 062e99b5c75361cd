-- ===== src/MetadataWatcher/Path.antt =====
-- pkg/client/controllers/servicemetadatawatcher_controller.go, `parsePath`. Its regular expression
-- finds the leftmost runs of characters other than a dot and a bracket, and the texts from an
-- opening bracket to the next closing one in its line; an opening bracket without one is passed over.
use Prim.Native.Char.{code, Char}
use Prim.Native.String.{[] as empty_text, ◌∷◌ as prefixed}
use cluster_registry.Prelude.{String, Bool, true, false, List, [], ◌∷◌, Result, ok, err, eqb}

-- Whether a bracket closes before the line ends.
unfoldable pub closes : String → Bool
closes empty_text = false
closes (prefixed c s) = elim (eqb (code c) b']') [
  | true ↦ true
  | false ↦ elim (eqb (code c) 10) [ true ↦ false | false ↦ closes s ]
]

-- Where the search stands: between two matches, in a field, or behind an opening bracket.
pub data Mode : Type 0 where
  between in_field in_bracket : Mode

-- A character in front of the first match.
abbrev pub extend : Char → List String → List String
extend c [] = prefixed c "" ∷ []
extend c (key ∷ keys) = prefixed c key ∷ keys

-- The rest of the match that is open, if one is, and the matches behind it.
unfoldable pub scan_path : Mode → String → List String
scan_path between empty_text = []
scan_path in_field empty_text = "" ∷ []
scan_path in_bracket empty_text = "" ∷ []
scan_path in_bracket (prefixed c s) = elim (eqb (code c) b']') [
  | true ↦ prefixed c "" ∷ scan_path between s
  | false ↦ extend c (scan_path in_bracket s)
]
scan_path between (prefixed c s) = elim (eqb (code c) b'.') [
  | true ↦ scan_path between s
  | false ↦ elim (eqb (code c) b'[') [
    | true ↦ elim (closes s) [
      | true ↦ extend c (scan_path in_bracket s)
      | false ↦ scan_path between s
    ]
    | false ↦ extend c (scan_path in_field s)
  ]
]
scan_path in_field (prefixed c s) = elim (eqb (code c) b'.') [
  | true ↦ "" ∷ scan_path between s
  | false ↦ elim (eqb (code c) b'[') [
    | true ↦ elim (closes s) [
      | true ↦ "" ∷ extend c (scan_path in_bracket s)
      | false ↦ "" ∷ scan_path between s
    ]
    | false ↦ extend c (scan_path in_field s)
  ]
]

abbrev pub non_empty : List String → Result (List String)
non_empty [] = err "invalid path"
non_empty (key ∷ keys) = ok (key ∷ keys)

-- `parsePath`
unfoldable pub parse_path : String → Result (List String)
parse_path path = non_empty (scan_path between path)
