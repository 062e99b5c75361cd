-- ===== src/MetadataWatcher/Keys.antt =====
-- What the keys of a path are: pkg/client/controllers/servicemetadatawatcher_controller.go,
-- `parsePath` for `getNestedString`.
use Prim.Native.Char.{code, Char}
use Prim.Native.String.{[] as empty_text, ◌∷◌ as prefixed}
use cluster_registry.Prelude.{
  String, ◌≡◌, refl, ◌⊎◌, inl, inr, Bool, true, false, not, ◌&&◌, Bool-cases, List, [], ◌∷◌, ok,
  ok_injective, subst, All, eqb,
}
use cluster_registry.MetadataWatcher.Path.{
  Mode, between, in_field, in_bracket, closes, scan_path, parse_path, non_empty, extend,
}
use cluster_registry.MetadataWatcher.Fields.{is_bracketed, ends_with_bracket}

-- A text with neither a dot nor an opening bracket.
abbrev is_plain : String → Bool
is_plain empty_text = true
is_plain (prefixed c s) = not (eqb (code c) b'.') && not (eqb (code c) b'[') && is_plain s

-- A key of a path: text in brackets, or a text that is not empty and has neither a dot nor an
-- opening bracket.
abbrev pub IsKey : String → Type 0
IsKey empty_text = ⊥
IsKey (prefixed c s) = (is_bracketed (prefixed c s) ≡ true) ⊎ (is_plain (prefixed c s) ≡ true)

ends_with_bracket_cons :
    (c : Char) (s : String) → ends_with_bracket s ≡ true → ends_with_bracket (prefixed c s) ≡ true
unfolding ends_with_bracket
ends_with_bracket_cons c empty_text e = cc
ends_with_bracket_cons c (prefixed d s) e = e

bracketed_of :
    (c : Char) (s : String)
    → eqb (code c) b'[' ≡ true
    → ends_with_bracket s ≡ true
    → is_bracketed (prefixed c s) ≡ true
unfolding is_bracketed
bracketed_of c s e f = rw (e, ends_with_bracket_cons c s f) refl

is_plain_cons :
    (c : Char) (s : String)
    → eqb (code c) b'.' ≡ false
    → eqb (code c) b'[' ≡ false
    → is_plain s ≡ true
    → is_plain (prefixed c s) ≡ true
is_plain_cons c s e f g = rw (e, f, g) refl

-- The first is the rest of a match, and the others are keys.
abbrev Open : (String → Type 0) → List String → Type 0
Open P [] = ⊥
Open P (key ∷ keys) = P key × All IsKey keys

extend-IsKey :
    (P : String → Type 0) (c : Char) (found : List String)
    → ((key : String) → P key → IsKey (prefixed c key))
    → Open P found
    → All IsKey (extend c found)
extend-IsKey P c [] closed h = absurd h
extend-IsKey P c (key ∷ keys) closed (p, h) = (closed key p, h)

extend-Open :
    (P : String → Type 0) (c : Char) (found : List String)
    → ((key : String) → P key → P (prefixed c key))
    → Open P found
    → Open P (extend c found)
extend-Open P c [] kept h = absurd h
extend-Open P c (key ∷ keys) kept (p, h) = (kept key p, h)

abbrev Ended : String → Type 0
Ended key = ends_with_bracket key ≡ true

abbrev Plain : String → Type 0
Plain key = is_plain key ≡ true

-- What a scan gives, from each of its modes.
abbrev Sound : Mode → String → Type 0
Sound between s = All IsKey (scan_path between s)
Sound in_field s = Open Plain (scan_path in_field s)
Sound in_bracket s = closes s ≡ true → Open Ended (scan_path in_bracket s)

closes_rest :
    (c : Char) (s : String)
    → eqb (code c) b']' ≡ false
    → closes (prefixed c s) ≡ true
    → closes s ≡ true
unfolding closes
closes_rest c s p e = elim (Bool-cases (eqb (code c) 10)) [
  | inl q ↦ cc (rw (p, q, closes) at e)
  | inr q ↦ rw (p, q, closes) at e
]

scan_path-Sound : (mode : Mode) (s : String) → Sound mode s
unfolding scan_path closes is_bracketed ends_with_bracket
scan_path-Sound between empty_text = tt
scan_path-Sound in_field empty_text = (refl, tt)
scan_path-Sound in_bracket empty_text = λ e. cc
scan_path-Sound in_bracket (prefixed c s) = λ e. elim (Bool-cases (eqb (code c) b']')) [
  | inl p ↦ rw (scan_path, p) (rw (ends_with_bracket, p) refl, scan_path-Sound between s)
  | inr p ↦
      rw (scan_path, p)
        (extend-Open Ended c (scan_path in_bracket s) (ends_with_bracket_cons c)
          (scan_path-Sound in_bracket s (closes_rest c s p e)))
]
scan_path-Sound between (prefixed c s) = elim (Bool-cases (eqb (code c) b'.')) [
  | inl p ↦ rw (scan_path, p) (scan_path-Sound between s)
  | inr p ↦ elim (Bool-cases (eqb (code c) b'[')) [
    | inl q ↦ elim (Bool-cases (closes s)) [
      | inl k ↦
          rw (scan_path, p, q, k)
            (extend-IsKey Ended c (scan_path in_bracket s) (λ r h. inl (bracketed_of c r q h))
              (scan_path-Sound in_bracket s k))
      | inr k ↦ rw (scan_path, p, q, k) (scan_path-Sound between s)
    ]
    | inr q ↦
        rw (scan_path, p, q)
          (extend-IsKey Plain c (scan_path in_field s) (λ r h. inr (is_plain_cons c r p q h))
            (scan_path-Sound in_field s))
  ]
]
scan_path-Sound in_field (prefixed c s) = elim (Bool-cases (eqb (code c) b'.')) [
  | inl p ↦ rw (scan_path, p) (refl, scan_path-Sound between s)
  | inr p ↦ elim (Bool-cases (eqb (code c) b'[')) [
    | inl q ↦ elim (Bool-cases (closes s)) [
      | inl k ↦
          rw (scan_path, p, q, k)
            (
              refl,
              extend-IsKey Ended c (scan_path in_bracket s) (λ r h. inl (bracketed_of c r q h))
                  (scan_path-Sound in_bracket s k),
            )
      | inr k ↦ rw (scan_path, p, q, k) (refl, scan_path-Sound between s)
    ]
    | inr q ↦
        rw (scan_path, p, q)
          (extend-Open Plain c (scan_path in_field s) (λ r h. is_plain_cons c r p q h)
            (scan_path-Sound in_field s))
  ]
]

All-non_empty :
    (found : List String) {keys : List String}
    → All IsKey found
    → non_empty found ≡ ok keys
    → All IsKey keys
All-non_empty [] h e = cc
All-non_empty (key ∷ found) h e = subst (All IsKey) (ok_injective e) h

-- Every key of a path that is parsed is either in brackets, or not empty and without a dot and an
-- opening bracket.
pub parse_path-IsKey :
    (path : String) (keys : List String) → parse_path path ≡ ok keys → All IsKey keys
unfolding parse_path
parse_path-IsKey path keys e =
    All-non_empty (scan_path between path) (scan_path-Sound between path) e
